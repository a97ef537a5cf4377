-- ===== src/Memory/Words.antt =====
-- Words and their bytes.
use mathlib.Core.Path.{ap₂, ◌∙◌}
use native.Mathlib.Nat.{pow-suc}
use cxlmem_uring.Base.{
  ℕ, zero, suc, ◌+◌, ◌*◌, ◌/◌, ◌^◌, ◌<◌, ◌≡◌, refl, ap, List, [], ◌∷◌, arith, length, All,
}
use cxlmem_uring.Memory.{bytes, value}

pub length-bytes : (k v : ℕ) → length (bytes k v) ≡ k
unfolding bytes
length-bytes zero v = refl
length-bytes (suc k) v = ap suc (length-bytes k (v / 256))

pub bytes-All : (k v : ℕ) → All (λ b. b < 256) (bytes k v)
unfolding bytes
bytes-All zero v = tt
bytes-All (suc k) v = (omega arith, bytes-All k (v / 256))

-- A word that fits its width comes back.
pub value-bytes : (k v : ℕ) → v < 256 ^ k → value (bytes k v) ≡ v
unfolding bytes value
value-bytes zero v h = omega arith
value-bytes (suc k) v h =
    omega (arith, pow-suc 256 k, value-bytes k (v / 256) (omega (arith, pow-suc 256 k)))

-- So do bytes.
pub bytes-value : (bs : List ℕ) → All (λ b. b < 256) bs → bytes (length bs) (value bs) ≡ bs
unfolding bytes value
bytes-value [] h = refl
bytes-value (b ∷ bs) h =
    ap₂ ◌∷◌ (omega arith) (ap (bytes (length bs)) quotient ∙ bytes-value bs h.1)
  where
    quotient : (b + 256 * value bs) / 256 ≡ value bs
    quotient = omega arith

-- A value of `k` bytes is below 256 ^ k.
pub value-lt : (bs : List ℕ) → All (λ b. b < 256) bs → value bs < 256 ^ length bs
unfolding value
value-lt [] h = omega arith
value-lt (b ∷ bs) h = omega (arith, pow-suc 256 (length bs), value-lt bs h.1)
