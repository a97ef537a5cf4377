-- ===== src/Memory/Ranges.antt =====
-- What a store of bytes changes, and what it leaves.
use mathlib.Core.Path.{ap₂, fun_ext}
use cxlmem_uring.Base.{
  ℕ, zero, suc, ◌+◌, ◌≤◌, ◌<◌, ◌^◌, ◌≡◌, refl, sym, ap, ◌∙◌, ◌⊎◌, List, [], ◌∷◌, ◌++◌, arith,
  length, take, drop, All,
}
use cxlmem_uring.Memory.{Memory, IsBytes, poke, write, read, load, store, bytes, value}
use cxlmem_uring.Memory.Words.{value-bytes, length-bytes, bytes-value, value-lt, bytes-All}

-- The `k` bytes at `p` and the `n` bytes at `a` have none in common.
abbrev pub Apart : ℕ → ℕ → ℕ → ℕ → Type 0
Apart p k a n = (p + k ≤ a) ⊎ (a + n ≤ p)

pub write_outside :
    (a : ℕ) (bs : List ℕ) (m : Memory) (p : ℕ) → Apart p 1 a (length bs) → write a bs m p ≡ m p
unfolding write
write_outside a [] m p h = refl
write_outside a (b ∷ bs) m p h =
    write_outside (a + 1) bs (poke a b m) p (omega arith) ∙ ground arith

pub read-write-Apart :
    (k p a : ℕ) (bs : List ℕ) (m : Memory)
    → Apart p k a (length bs)
    → read k p (write a bs m) ≡ read k p m
unfolding read
read-write-Apart zero p a bs m h = refl
read-write-Apart (suc k) p a bs m h =
    ap₂ ◌∷◌ (write_outside a bs m p (omega arith)) (read-write-Apart k (p + 1) a bs m (omega arith))

pub read-write_self : (a : ℕ) (bs : List ℕ) (m : Memory) → read (length bs) a (write a bs m) ≡ bs
unfolding read write
read-write_self a [] m = refl
read-write_self a (b ∷ bs) m =
    ap₂ ◌∷◌ (write_outside (a + 1) bs (poke a b m) a (omega arith) ∙ ground arith)
      (read-write_self (a + 1) bs (poke a b m))

-- A read inside what was written.
pub read-write_within :
    (k off a p : ℕ) (bs : List ℕ) (m : Memory)
    → p ≡ a + off
    → off + k ≤ length bs
    → read k p (write a bs m) ≡ take k (drop off bs)
unfolding read write
read-write_within zero off a p bs m e h = refl
read-write_within (suc k) off a p [] m e h = absurd (omega arith)
read-write_within (suc k) zero a p (b ∷ bs) m e h =
    ap₂ ◌∷◌ (write_outside (a + 1) bs (poke a b m) p (omega arith) ∙ ground arith)
      (read-write_within k 0 (a + 1) (p + 1) bs (poke a b m) (omega arith) (omega arith))
read-write_within (suc k) (suc off) a p (b ∷ bs) m e h =
    read-write_within (suc k) off (a + 1) p bs (poke a b m) (omega arith) (omega arith)

-- A word apart from what was written is still there.
pub load-write-Apart :
    (k p a : ℕ) (bs : List ℕ) (m : Memory)
    → Apart p k a (length bs)
    → load k p (write a bs m) ≡ load k p m
unfolding load
load-write-Apart k p a bs m h = ap value (read-write-Apart k p a bs m h)

-- A field of a struct that was written as bytes.
pub load-write_field :
    (k off a : ℕ) (bs : List ℕ) (m : Memory) (v : ℕ)
    → off + k ≤ length bs
    → take k (drop off bs) ≡ bytes k v
    → v < 256 ^ k
    → load k (a + off) (write a bs m) ≡ v
unfolding load
load-write_field k off a bs m v h e w =
    ap value (read-write_within k off a (a + off) bs m refl h ∙ e) ∙ value-bytes k v w

pub load-store_self : (k a v : ℕ) (m : Memory) → v < 256 ^ k → load k a (store k a v m) ≡ v
unfolding load store
load-store_self k a v m h =
    ap value (
      ap (λ n. read n a (write a (bytes k v) m)) (sym (length-bytes k v))
      ∙ read-write_self a (bytes k v) m)
    ∙ value-bytes k v h

pub load-store-Apart :
    (k p n a v : ℕ) (m : Memory) → Apart p k a n → load k p (store n a v m) ≡ load k p m
unfolding store
load-store-Apart k p n a v m h =
    load-write-Apart k p a (bytes n v) m (omega (arith, length-bytes n v))

pub read-store-Apart :
    (k p n a v : ℕ) (m : Memory) → Apart p k a n → read k p (store n a v m) ≡ read k p m
unfolding store
read-store-Apart k p n a v m h =
    read-write-Apart k p a (bytes n v) m (omega (arith, length-bytes n v))

pub store_outside : (n a v : ℕ) (m : Memory) (p : ℕ) → Apart p 1 a n → store n a v m p ≡ m p
unfolding store
store_outside n a v m p h = write_outside a (bytes n v) m p (omega (arith, length-bytes n v))

pub write-append :
    (a : ℕ) (xs ys : List ℕ) (m : Memory)
    → write a (xs ++ ys) m ≡ write (a + length xs) ys (write a xs m)
unfolding write
write-append a [] ys m = ap (λ p. write p ys m) (omega arith)
write-append a (x ∷ xs) ys m =
    write-append (a + 1) xs ys (poke a x m)
    ∙ ap (λ p. write p ys (write (a + 1) xs (poke a x m))) (omega arith)

poke_self : (a : ℕ) (m : Memory) → poke a (m a) m ≡ m
poke_self a m = fun_ext λ p. ground arith

-- Storing back what is there changes nothing.
pub write-read : (n a : ℕ) (m : Memory) → write a (read n a m) m ≡ m
unfolding write read
write-read zero a m = refl
write-read (suc n) a m =
    ap (write (a + 1) (read n (a + 1) m)) (poke_self a m) ∙ write-read n (a + 1) m

pub write-IsBytes :
    (a : ℕ) (bs : List ℕ) (m : Memory) → All (λ b. b < 256) bs → IsBytes m → IsBytes (write a bs m)
unfolding write
write-IsBytes a [] m h v = v
write-IsBytes a (b ∷ bs) m h v =
    write-IsBytes (a + 1) bs (poke a b m) h.1 (λ p. ground (arith, v p))

pub read-All : (n a : ℕ) (m : Memory) → IsBytes m → All (λ b. b < 256) (read n a m)
unfolding read
read-All zero a m v = tt
read-All (suc n) a m v = (v a, read-All n (a + 1) m v)

pub length-read : (n a : ℕ) (m : Memory) → length (read n a m) ≡ n
unfolding read
length-read zero a m = refl
length-read (suc n) a m = ap suc (length-read n (a + 1) m)

pub store_lem : (k a v : ℕ) (m : Memory) → store k a v m ≡ write a (bytes k v) m
unfolding store
store_lem k a v m = refl

pub read-append : (j k a : ℕ) (m : Memory) → read j a m ++ read k (a + j) m ≡ read (j + k) a m
unfolding read
read-append zero k a m = ap₂ (λ n p. read n p m) (omega arith) (omega arith)
read-append (suc j) k a m =
    ap (λ p. m a ∷ (read j (a + 1) m ++ read k p m)) (omega arith)
    ∙ ap (◌∷◌ (m a)) (read-append j k (a + 1) m)
    ∙ ap (λ n. read n a m) shift
  where
    shift : suc (j + k) ≡ suc j + k
    shift = omega arith

-- The bytes of a loaded word are those that stand there.
pub bytes-load : (k a : ℕ) (m : Memory) → IsBytes m → bytes k (load k a m) ≡ read k a m
unfolding load
bytes-load k a m v =
    ap (λ n. bytes n (value (read k a m))) (sym (length-read k a m))
    ∙ bytes-value (read k a m) (read-All k a m v)

pub load-lt : (k a : ℕ) (m : Memory) → IsBytes m → load k a m < 256 ^ k
unfolding load
load-lt k a m v = rw (length-read k a m) at (value-lt (read k a m) (read-All k a m v))

-- A word stored back where it was loaded changes nothing.
pub store-load : (k a : ℕ) (m : Memory) → IsBytes m → store k a (load k a m) m ≡ m
unfolding store
store-load k a m v = ap (λ bs. write a bs m) (bytes-load k a m v) ∙ write-read k a m

pub store-IsBytes : (k a v : ℕ) (m : Memory) → IsBytes m → IsBytes (store k a v m)
unfolding store
store-IsBytes k a v m h = write-IsBytes a (bytes k v) m (bytes-All k v) h

-- Two memories hold the same `n` bytes from `p` on.
abbrev pub Agree : ℕ → ℕ → Memory → Memory → Type 0
Agree p n m m' = (q : ℕ) → p ≤ q → q < p + n → m q ≡ m' q

pub read-Agree : (n p : ℕ) (m m' : Memory) → Agree p n m m' → read n p m ≡ read n p m'
unfolding read
read-Agree zero p m m' h = refl
read-Agree (suc n) p m m' h =
    ap₂ ◌∷◌ (h p (omega arith) (omega arith))
      (read-Agree n (p + 1) m m' (λ q a b. h q (omega arith) (omega arith)))

-- A word inside the range.
pub load-Agree :
    (k off p n : ℕ) (m m' : Memory)
    → Agree p n m m'
    → off + k ≤ n
    → load k (p + off) m ≡ load k (p + off) m'
unfolding load
load-Agree k off p n m m' h fits =
    ap value (read-Agree k (p + off) m m' (λ q a b. h q (omega arith) (omega arith)))
