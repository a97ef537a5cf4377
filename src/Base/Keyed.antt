-- ===== src/Base/Keyed.antt =====
-- Association lists whose keys are numbers given out in order, newest first, and the sum of a
-- measure over their entries.
use Prim.Native.Nat.{ℕ, ◌+◌, ◌<◌, ◌≤◌}
use mathlib.Core.Path.{◌≡◌, refl, ap}
use mathlib.Core.Logic.{inl, inr}
use mathlib.Core.Option.{none, some}
use mathlib.Core.List.{List, [], ◌∷◌}
use native.Mathlib.Omega.{arith}
use cxlmem_uring.Base.Tests.{◌==◌, if◌then◌else◌, Bool-cases}
use cxlmem_uring.Base.Maps.{find, erase, assign, erase-absent}

-- Every key is below `next`, and below those in front of it.
abbrev pub Descending {ℓ} : {A : Type ℓ} → ℕ → List (ℕ × A) → Type 0
Descending next [] = Unit
Descending next ((q, v) ∷ rest) = (q < next) × Descending q rest

-- A change of the value under a key, where it stands.
unfoldable pub replace {ℓ} : {A : Type ℓ} → ℕ → A → List (ℕ × A) → List (ℕ × A)
replace k v [] = []
replace k v ((q, u) ∷ rest) =
    let later = replace k v rest in if q == k then (q, v) ∷ rest else (q, u) ∷ later

unfoldable pub weight {ℓ} : {A : Type ℓ} → (A → ℕ) → List (ℕ × A) → ℕ
weight w [] = 0
weight w ((q, v) ∷ rest) = w v + weight w rest

module _ {ℓ} {A : Type ℓ} where
  pub Descending-mono : (n n' : ℕ) (xs : List (ℕ × A)) → n ≤ n' → Descending n xs → Descending n' xs
  Descending-mono n n' [] h d = tt
  Descending-mono n n' ((q, v) ∷ xs) h d = (omega arith, d.1)

  pub Descending-absent : (k n : ℕ) (xs : List (ℕ × A)) → n ≤ k → Descending n xs → find k xs ≡ none
  unfolding find
  Descending-absent k n [] h d = refl
  Descending-absent k n ((q, v) ∷ xs) h d =
      ground (arith, Descending-absent k q xs (omega arith) d.1)

  pub Descending-assign :
      (k : ℕ) (v : A) (xs : List (ℕ × A)) → Descending k xs → (assign k v xs ≡ (k, v) ∷ xs)
  unfolding assign
  Descending-assign k v xs d =
      ap (◌∷◌ (k, v)) (erase-absent k xs (Descending-absent k k xs (omega arith) d))

  pub Descending-erase : (k n : ℕ) (xs : List (ℕ × A)) → Descending n xs → Descending n (erase k xs)
  unfolding erase
  Descending-erase k n [] d = tt
  Descending-erase k n ((q, v) ∷ xs) d = elim (Bool-cases (q == k)) [
    | inl e ↦ rw e (Descending-mono q n (erase k xs) (omega arith) (Descending-erase k q xs d.1))
    | inr e ↦ rw e (d.0, Descending-erase k q xs d.1)
  ]

  pub Descending-replace :
      (k n : ℕ) (u : A) (xs : List (ℕ × A)) → Descending n xs → Descending n (replace k u xs)
  unfolding replace
  Descending-replace k n u [] d = tt
  Descending-replace k n u ((q, v) ∷ xs) d = elim (Bool-cases (q == k)) [
    | inl e ↦ rw e (d.0, d.1)
    | inr e ↦ rw e (d.0, Descending-replace k q u xs d.1)
  ]

  -- Taking an entry out lowers the sum by its measure.
  pub weight-erase :
      (w : A → ℕ) (k n : ℕ) (v : A) (xs : List (ℕ × A))
      → Descending n xs
      → find k xs ≡ some v
      → weight w (erase k xs) + w v ≡ weight w xs
  unfolding weight find erase
  weight-erase w k n v [] d f = cc
  weight-erase w k n v ((q, u) ∷ xs) d f = elim (Bool-cases (q == k)) [
    | inl e ↦
        let here : u ≡ v = ground arith in
        let key : q ≡ k = ground arith in
        let gone = erase-absent k xs (Descending-absent k q xs (omega arith) d.1) in
        rw e (omega (arith, ap (weight w) gone, ap w here))
    | inr e ↦ rw e (omega (arith, weight-erase w k q v xs d.1 (ground arith)))
  ]

  -- Changing an entry changes the sum by the two measures.
  pub weight-replace :
      (w : A → ℕ) (k : ℕ) (u v : A) (xs : List (ℕ × A))
      → find k xs ≡ some v
      → weight w (replace k u xs) + w v ≡ weight w xs + w u
  unfolding weight find replace
  weight-replace w k u v [] f = cc
  weight-replace w k u v ((q, t) ∷ xs) f = elim (Bool-cases (q == k)) [
    | inl e ↦ let here : t ≡ v = ground arith in rw e (omega (arith, ap w here))
    | inr e ↦ rw e (omega (arith, weight-replace w k u v xs (ground arith)))
  ]
