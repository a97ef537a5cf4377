-- ===== src/Base/Maps.antt =====
-- Association lists with a key at most once, for the hash maps of the source.
use Prim.Native.Nat.{ℕ}
use mathlib.Core.Path.{◌≡◌, refl, ap, ◌∙◌}
use mathlib.Core.Logic.{◌≢◌, inl, inr}
use mathlib.Core.Bool.{true, false}
use mathlib.Core.Option.{Option, none, some}
use mathlib.Core.List.{List, [], ◌∷◌}
use native.Mathlib.Omega.{arith}
use cxlmem_uring.Base.Tests.{◌==◌, if◌then◌else◌, Bool-cases}

unfoldable pub find {ℓ} : {A : Type ℓ} → ℕ → List (ℕ × A) → Option A
find k [] = none
find k ((q, v) ∷ rest) = let found = find k rest in if q == k then some v else found

unfoldable pub erase {ℓ} : {A : Type ℓ} → ℕ → List (ℕ × A) → List (ℕ × A)
erase k [] = []
erase k ((q, v) ∷ rest) = let kept = erase k rest in if q == k then kept else (q, v) ∷ kept

-- `map[k] = v`.
unfoldable pub assign {ℓ} : {A : Type ℓ} → ℕ → A → List (ℕ × A) → List (ℕ × A)
unfolding erase
assign k v rest = (k, v) ∷ erase k rest

module _ {ℓ} {A : Type ℓ} where
  find_cons_none :
      (k q : ℕ) (v : A) (xs : List (ℕ × A))
      → find k ((q, v) ∷ xs) ≡ none
      → ((q == k) ≡ false) × (find k xs ≡ none)
  unfolding find
  find_cons_none k q v xs h = ground arith

  pub erase-absent : (k : ℕ) (xs : List (ℕ × A)) → find k xs ≡ none → erase k xs ≡ xs
  unfolding erase
  erase-absent k [] h = refl
  erase-absent k ((q, v) ∷ xs) h =
      let apart = find_cons_none k q v xs h in
      rw apart.0 (ap (λ ys. (q, v) ∷ ys) (erase-absent k xs apart.1))

  pub find-erase : (k : ℕ) (xs : List (ℕ × A)) → find k (erase k xs) ≡ none
  unfolding find erase
  find-erase k [] = refl
  find-erase k ((q, v) ∷ xs) = elim (Bool-cases (q == k)) [
    | inl e ↦ rw e (find-erase k xs)
    | inr e ↦ rw e (rw e (find-erase k xs))
  ]

  pub find-erase_other : (k p : ℕ) (xs : List (ℕ × A)) → k ≢ p → find p (erase k xs) ≡ find p xs
  unfolding find erase
  find-erase_other k p [] n = refl
  find-erase_other k p ((q, v) ∷ xs) n = elim (Bool-cases (q == k)) [
    | inl e ↦
        let other : (q == p) ≡ false = ground arith in rw (e, other) (find-erase_other k p xs n)
    | inr e ↦ rw e (ap (λ o. if q == p then some v else o) (find-erase_other k p xs n))
  ]

  pub erase-assign :
      (k : ℕ) (v : A) (xs : List (ℕ × A)) → find k xs ≡ none → erase k (assign k v xs) ≡ xs
  unfolding assign erase
  erase-assign k v xs h =
      let self : (k == k) ≡ true = ground arith in
      rw self (ap (erase k) (erase-absent k xs h) ∙ erase-absent k xs h)

  pub find-assign : (k : ℕ) (v : A) (xs : List (ℕ × A)) → find k (assign k v xs) ≡ some v
  unfolding assign find
  find-assign k v xs = ground arith

  pub find-assign_other :
      (k p : ℕ) (v : A) (xs : List (ℕ × A)) → k ≢ p → find p (assign k v xs) ≡ find p xs
  unfolding assign find
  find-assign_other k p v xs n =
      let other : (k == p) ≡ false = ground arith in rw other (find-erase_other k p xs n)
