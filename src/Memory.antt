-- ===== src/Memory.antt =====
-- Memory as the host and the device see it: a byte at each address, and the little-endian words
-- that a volatile load or store of 1, 2, 4 or 8 bytes moves.
pub mod Words
pub mod Ranges
pub mod Traces
use cxlmem_uring.Base.{
  ℕ, zero, suc, ◌+◌, ◌*◌, ◌/◌, ◌%◌, ◌<◌, List, [], ◌∷◌, ◌++◌, ◌==◌, if◌then◌else◌,
}

abbrev pub Memory : Type 0
Memory = ℕ → ℕ

-- Every byte is below 256.
abbrev pub IsBytes : Memory → Type 0
IsBytes m = (p : ℕ) → m p < 256

abbrev pub poke : ℕ → ℕ → Memory → Memory
poke a b m p = if p == a then b else m p

-- The bytes `bs`, stored from `a` on.
unfoldable pub write : ℕ → List ℕ → Memory → Memory
write a [] m = m
write a (b ∷ bs) m = write (a + 1) bs (poke a b m)

-- The `n` bytes from `a` on.
unfoldable pub read : ℕ → ℕ → Memory → List ℕ
read zero a m = []
read (suc n) a m = m a ∷ read n (a + 1) m

-- The `k` bytes of a word, lowest first, and back.
unfoldable pub bytes : ℕ → ℕ → List ℕ
bytes zero v = []
bytes (suc k) v = v % 256 ∷ bytes k (v / 256)

unfoldable pub value : List ℕ → ℕ
value [] = 0
value (b ∷ bs) = b + 256 * value bs

unfoldable pub load : ℕ → ℕ → Memory → ℕ
load k a m = value (read k a m)

unfoldable pub store : ℕ → ℕ → ℕ → Memory → Memory
store k a v m = write a (bytes k v) m
