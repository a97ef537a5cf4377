-- ===== src/Firmware/Cachelines/Copies.antt =====
-- `vortex_cxl_copy_bytes`: a copy between ranges that do not overlap.
use cxlmem_uring.Base.{ℕ, zero, suc, ◌+◌, ◌*◌, ◌/◌, ◌%◌, ◌≡◌, refl, sym, ap, ◌∙◌, List, arith}
use cxlmem_uring.Memory.{Memory, IsBytes, load, store, read, write}
use cxlmem_uring.Memory.Ranges.{
  Apart, store_lem, bytes-load, write-append, read-append, read-store-Apart, read-write-Apart,
  store-IsBytes, length-read, write-IsBytes, read-All,
}
use cxlmem_uring.Firmware.Cachelines.{copy_words, copy_singles, copy_bytes}

-- The word rounds write the bytes of the source.
copy_words-eq-write :
    (n dst src : ℕ) (m : Memory)
    → IsBytes m
    → Apart dst (8 * n) src (8 * n)
    → copy_words n dst src m ≡ write dst (read (8 * n) src m) m
unfolding copy_words read write
copy_words-eq-write zero dst src m v h = refl
copy_words-eq-write (suc n) dst src m v h =
    copy_words-eq-write n (dst + 8) (src + 8) m' (store-IsBytes 8 dst (load 8 src m) m v)
      (omega arith)
    ∙ ap (λ bs. write (dst + 8) bs m')
        (read-store-Apart (8 * n) (src + 8) 8 dst (load 8 src m) m (omega arith))
    ∙ ap (write (dst + 8) rest) first
    ∙ ap (λ p. write p rest (write dst (read 8 src m) m)) (omega (arith, length-read 8 src m))
    ∙ sym (write-append dst (read 8 src m) rest m)
    ∙ ap (λ bs. write dst bs m) (read-append 8 (8 * n) src m)
    ∙ ap (λ k. write dst (read k src m) m) whole
  where
    whole : 8 + 8 * n ≡ 8 * suc n
    whole = omega arith

    m' : Memory
    m' = store 8 dst (load 8 src m) m

    rest : List ℕ
    rest = read (8 * n) (src + 8) m

    first : m' ≡ write dst (read 8 src m) m
    first = store_lem 8 dst (load 8 src m) m ∙ ap (λ bs. write dst bs m) (bytes-load 8 src m v)

copy_singles-eq-write :
    (n dst src : ℕ) (m : Memory)
    → IsBytes m
    → Apart dst n src n
    → copy_singles n dst src m ≡ write dst (read n src m) m
unfolding copy_singles read write
copy_singles-eq-write zero dst src m v h = refl
copy_singles-eq-write (suc n) dst src m v h =
    copy_singles-eq-write n (dst + 1) (src + 1) m' (store-IsBytes 1 dst (load 1 src m) m v)
      (omega arith)
    ∙ ap (λ bs. write (dst + 1) bs m')
        (read-store-Apart n (src + 1) 1 dst (load 1 src m) m (omega arith))
    ∙ ap (write (dst + 1) (read n (src + 1) m)) first
  where
    m' : Memory
    m' = store 1 dst (load 1 src m) m

    first : m' ≡ write dst (read 1 src m) m
    first = store_lem 1 dst (load 1 src m) m ∙ ap (λ bs. write dst bs m) (bytes-load 1 src m v)

-- For a memory of bytes and two ranges that do not overlap: the copy by words and then bytes writes
-- the bytes of the source range to the destination and changes nothing else.
pub copy_bytes-eq-write :
    (dst src size : ℕ) (m : Memory)
    → IsBytes m
    → Apart dst size src size
    → copy_bytes dst src size m ≡ write dst (read size src m) m
unfolding copy_bytes
copy_bytes-eq-write dst src size m v h =
    ap (copy_singles r (dst + n) (src + n))
      (copy_words-eq-write (size / 8) dst src m v (omega arith))
    ∙ copy_singles-eq-write r (dst + n) (src + n) m'
        (write-IsBytes dst (read n src m) m (read-All n src m v) v) (omega arith)
    ∙ ap (λ bs. write (dst + n) bs m')
        (read-write-Apart r (src + n) dst (read n src m) m (omega (arith, length-read n src m)))
    ∙ ap (λ p. write p (read r (src + n) m) m') (omega (arith, length-read n src m))
    ∙ sym (write-append dst (read n src m) (read r (src + n) m) m)
    ∙ ap (λ bs. write dst bs m) (read-append n r src m)
    ∙ ap (λ k. write dst (read k src m) m) whole
  where
    n : ℕ
    n = 8 * (size / 8)

    r : ℕ
    r = size % 8

    m' : Memory
    m' = write dst (read n src m) m

    whole : n + r ≡ size
    whole = omega arith
