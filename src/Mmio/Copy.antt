-- ===== src/Mmio/Copy.antt =====
-- runtime/cira_mmio.cpp, `store_bytes` and `load_bytes`: copies by volatile words, then bytes.
use mathlib.Core.Path.{ap₂, ◌≡⟨◌⟩◌, ◌∎}
use cxlmem_uring.Base.{
  ℕ, zero, suc, ◌+◌, ◌*◌, ◌/◌, ◌%◌, ◌≤◌, ◌<◌, ◌≡◌, refl, sym, ap, ◌∙◌, List, [], ◌∷◌, ◌++◌, arith,
  length, take, drop, All, length-take, length-drop, take-append-drop, take-nil, All-take, All-drop,
}
use cxlmem_uring.Memory.{Memory, IsBytes, poke, write, read, bytes, value, load, store}
use cxlmem_uring.Memory.Words.{bytes-value}
use cxlmem_uring.Memory.Ranges.{
  write-append, read-append, bytes-load, store_lem, Apart, write-IsBytes, read-write_self,
  write_outside,
}
use cxlmem_uring.Memory.Traces.{Store, perform, perform-append}

-- The 8-byte rounds: `for (; off + 8 <= len; off += 8)` runs `len / 8` times.
unfoldable pub word_stores : ℕ → ℕ → List ℕ → List Store
word_stores zero dst src = []
word_stores (suc rounds) dst src =
    record { width = 8; addr = dst; word = value (take 8 src) }
    ∷ word_stores rounds (dst + 8) (drop 8 src)

-- The byte rounds: `for (; off < len; ++off)`.
unfoldable pub byte_stores : ℕ → List ℕ → List Store
byte_stores dst [] = []
byte_stores dst (b ∷ src) = record { width = 1; addr = dst; word = b } ∷ byte_stores (dst + 1) src

-- The stores of `store_bytes(dst, src, len)` in program order.
unfoldable pub store_trace : ℕ → List ℕ → List Store
store_trace dst src =
    let rounds = length src / 8 in
    word_stores rounds dst src ++ byte_stores (dst + 8 * rounds) (drop (8 * rounds) src)

unfoldable pub store_bytes : ℕ → List ℕ → Memory → Memory
store_bytes dst src m = perform (store_trace dst src) m

unfoldable pub word_loads : ℕ → ℕ → Memory → List ℕ
word_loads zero src m = []
word_loads (suc rounds) src m = bytes 8 (load 8 src m) ++ word_loads rounds (src + 8) m

-- The bytes that `load_bytes(dst, src, len)` puts into `dst`.
unfoldable pub load_bytes : ℕ → ℕ → Memory → List ℕ
load_bytes src len m =
    let rounds = len / 8 in word_loads rounds src m ++ read (len % 8) (src + 8 * rounds) m

take-append-take {ℓ} :
    {A : Type ℓ} (a b : ℕ) (xs : List A) → take a xs ++ take b (drop a xs) ≡ take (a + b) xs
take-append-take zero b xs = let e : b ≡ 0 + b = omega arith in ap (λ k. take k xs) e
take-append-take {A} (suc a) b [] = take-nil A b ∙ sym (take-nil A (suc a + b))
take-append-take (suc a) b (x ∷ xs) =
    let e : suc (a + b) ≡ suc a + b = omega arith in
    ap (◌∷◌ x) (take-append-take a b xs) ∙ ap (λ k. take k (x ∷ xs)) e

word_bytes :
    (src : List ℕ)
    → 8 ≤ length src
    → All (λ b. b < 256) src
    → bytes 8 (value (take 8 src)) ≡ take 8 src
word_bytes src h v =
    ap (λ k. bytes k (value (take 8 src))) (sym (length-take 8 src h))
    ∙ bytes-value (take 8 src) (All-take (λ b. b < 256) 8 src v)

perform-word_stores :
    (n dst : ℕ) (src : List ℕ) (m : Memory)
    → 8 * n ≤ length src
    → All (λ b. b < 256) src
    → perform (word_stores n dst src) m ≡ write dst (take (8 * n) src) m
unfolding perform word_stores write
perform-word_stores zero dst src m h v = refl
perform-word_stores (suc n) dst src m h v =
    perform (word_stores (suc n) dst src) m
    ≡⟨ perform-word_stores n (dst + 8) (drop 8 src) (store 8 dst (value (take 8 src)) m)
        (omega (arith, length-drop 8 src)) (All-drop (λ b. b < 256) 8 src v) ⟩
      write (dst + 8) (take (8 * n) (drop 8 src)) (store 8 dst (value (take 8 src)) m)
    ≡⟨ ap (write (dst + 8) (take (8 * n) (drop 8 src))) first ⟩
      write (dst + 8) (take (8 * n) (drop 8 src)) (write dst (take 8 src) m)
    ≡⟨ ap (λ p. write p (take (8 * n) (drop 8 src)) (write dst (take 8 src) m))
        (omega (arith, size)) ⟩
      write (dst + length (take 8 src)) (take (8 * n) (drop 8 src)) (write dst (take 8 src) m)
    ≡⟨ sym (write-append dst (take 8 src) (take (8 * n) (drop 8 src)) m) ⟩
      write dst (take 8 src ++ take (8 * n) (drop 8 src)) m
    ≡⟨ ap (λ bs. write dst bs m) (take-append-take 8 (8 * n) src) ⟩
      write dst (take (8 + 8 * n) src) m
    ≡⟨ ap (λ k. write dst (take k src) m) (omega arith) ⟩ write dst (take (8 * suc n) src) m ∎
  where
    size : length (take 8 src) ≡ 8
    size = length-take 8 src (omega arith)

    first : store 8 dst (value (take 8 src)) m ≡ write dst (take 8 src) m
    first = store_lem 8 dst _ m ∙ ap (λ bs. write dst bs m) (word_bytes src (omega arith) v)

pub perform-byte_stores :
    (dst : ℕ) (src : List ℕ) (m : Memory)
    → All (λ b. b < 256) src
    → perform (byte_stores dst src) m ≡ write dst src m
unfolding perform byte_stores store write bytes
perform-byte_stores dst [] m v = refl
perform-byte_stores dst (b ∷ src) m v =
    perform-byte_stores (dst + 1) src (poke dst (b % 256) m) v.1
    ∙ ap (λ c. write (dst + 1) src (poke dst c m)) (omega arith)

-- For every address, source of bytes and memory: the copy by 8-byte words and then single bytes
-- leaves the memory that a byte-by-byte copy of the source leaves.
pub store_bytes-eq-write :
    (dst : ℕ) (src : List ℕ) (m : Memory)
    → All (λ b. b < 256) src
    → store_bytes dst src m ≡ write dst src m
unfolding store_bytes store_trace
store_bytes-eq-write dst src m v =
    let n = length src / 8 in
    perform-append (word_stores n dst src) (byte_stores (dst + 8 * n) (drop (8 * n) src)) m
    ∙ perform-byte_stores (dst + 8 * n) (drop (8 * n) src) (perform (word_stores n dst src) m)
        (All-drop (λ b. b < 256) (8 * n) src v)
    ∙ ap (write (dst + 8 * n) (drop (8 * n) src)) (perform-word_stores n dst src m (omega arith) v)
    ∙ ap (λ p. write p (drop (8 * n) src) (write dst (take (8 * n) src) m))
        (omega (arith, length-take (8 * n) src (omega arith)))
    ∙ sym (write-append dst (take (8 * n) src) (drop (8 * n) src) m)
    ∙ ap (λ bs. write dst bs m) (take-append-drop (8 * n) src)

word_loads-eq-read : (n src : ℕ) (m : Memory) → IsBytes m → word_loads n src m ≡ read (8 * n) src m
unfolding word_loads read
word_loads-eq-read zero src m v = refl
word_loads-eq-read (suc n) src m v =
    ap₂ ◌++◌ (bytes-load 8 src m v) (word_loads-eq-read n (src + 8) m v)
    ∙ read-append 8 (8 * n) src m
    ∙ ap (λ k. read k src m) (omega arith)

-- For every address, length and memory of bytes: `load_bytes` gives the bytes that stand there.
pub load_bytes-eq-read :
    (src len : ℕ) (m : Memory) → IsBytes m → load_bytes src len m ≡ read len src m
unfolding load_bytes
load_bytes-eq-read src len m v =
    ap (λ bs. bs ++ read (len % 8) (src + 8 * (len / 8)) m) (word_loads-eq-read (len / 8) src m v)
    ∙ read-append (8 * (len / 8)) (len % 8) src m
    ∙ ap (λ k. read k src m) (omega arith)

-- What was copied in is copied out.
pub load_bytes-store_bytes :
    (a : ℕ) (bs : List ℕ) (m : Memory)
    → All (λ b. b < 256) bs
    → IsBytes m
    → load_bytes a (length bs) (store_bytes a bs m) ≡ bs
load_bytes-store_bytes a bs m v vm =
    ap (load_bytes a (length bs)) (store_bytes-eq-write a bs m v)
    ∙ load_bytes-eq-read a (length bs) (write a bs m) (write-IsBytes a bs m v vm)
    ∙ read-write_self a bs m

pub store_bytes_outside :
    (a : ℕ) (bs : List ℕ) (m : Memory) (p : ℕ)
    → All (λ b. b < 256) bs
    → Apart p 1 a (length bs)
    → store_bytes a bs m p ≡ m p
store_bytes_outside a bs m p v h =
    ap (λ (n : Memory). n p) (store_bytes-eq-write a bs m v) ∙ write_outside a bs m p h
