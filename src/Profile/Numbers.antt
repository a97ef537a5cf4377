-- ===== src/Profile/Numbers.antt =====
-- runtime/vortex_verilator_sim.cpp: numbers that are printed and read again.
use native.Mathlib.Nat.{pow-suc}
use cxlmem_uring.Base.{
  sym, ◌≤◌, ℕ, zero, suc, ◌+◌, ◌-◌, ◌*◌, ◌/◌, ◌%◌, ◌^◌, ◌<◌, ◌≡◌, refl, ap, ◌∙◌, true, false, [],
  ◌∷◌, ◌++◌, ltb, min, All, All-append, arith, Bool-cases, inl, inr,
}
use mathlib.Core.List.{append_assoc}
use cxlmem_uring.Profile.{Text, digits, decimal, signed_decimal}
use cxlmem_uring.Profile.Scan.{number, is_digit, strtoll, strtoll_after, skip_space, is_space}

-- The text does not begin with a digit.
abbrev pub NoDigit : Text → Type 0
NoDigit [] = Unit
NoDigit (c ∷ text) = is_digit c ≡ false

number_end : (n : ℕ) (rest : Text) → NoDigit rest → number n rest ≡ n
unfolding number
number_end n [] h = refl
number_end n (c ∷ rest) h = rw h refl

number_digit :
    (acc d : ℕ) (rest : Text) → d < 10 → number acc ((48 + d) ∷ rest) ≡ number (acc * 10 + d) rest
unfolding number
number_digit acc d rest h =
    let digit : is_digit (48 + d) ≡ true = ground arith in
    let same : acc * 10 + (48 + d - 48) ≡ acc * 10 + d = omega arith in rw (digit, same) refl

pub number-digits :
    (fuel n : ℕ) (rest : Text) → n < 10 ^ fuel → number 0 (digits fuel n ++ rest) ≡ number n rest
unfolding digits
number-digits zero n rest h = ap (λ (t : ℕ). number t rest) (omega arith)
number-digits (suc fuel) n rest h = elim (Bool-cases (ltb n 10)) [
  | inl e ↦
      rw e (number_digit 0 n rest (ground arith) ∙ ap (λ (t : ℕ). number t rest) (omega arith))
  | inr e ↦ rw e (
      ap (number 0) (append_assoc (digits fuel (n / 10)) ((48 + n % 10) ∷ []) rest)
      ∙ number-digits fuel (n / 10) ((48 + n % 10) ∷ rest) (omega (arith, pow-suc 10 fuel))
      ∙ number_digit (n / 10) (n % 10) rest (omega arith)
      ∙ ap (λ (t : ℕ). number t rest) (omega arith))
]

-- Every character is a digit, and there is one.
pub digits-All : (fuel n : ℕ) → All (λ c. (48 ≤ c) × (c ≤ 57)) (digits fuel n)
unfolding digits
digits-All zero n = tt
digits-All (suc fuel) n = elim (Bool-cases (ltb n 10)) [
  | inl e ↦ rw e (ground arith, tt)
  | inr e ↦ rw e (All-append _ (digits fuel (n / 10)) _ (digits-All fuel (n / 10)) (omega arith))
]

-- The number at the start of a text that begins with a digit.
strtoll-number :
    (c : ℕ) (text : Text)
    → is_digit c ≡ true
    → strtoll (c ∷ text) ≡ min (number 0 (c ∷ text)) (2 ^ 63 - 1)
unfolding strtoll skip_space is_space strtoll_after
strtoll-number c text h = ground arith

digits-cons :
    (fuel n : ℕ) → (c : ℕ) × (t : Text) × (digits (suc fuel) n ≡ c ∷ t) × (is_digit c ≡ true)
unfolding digits
digits-cons zero n = elim (Bool-cases (ltb n 10)) [
  | inl e ↦ (48 + n, [], rw e refl, ground arith)
  | inr e ↦ (48 + n % 10, [], rw e refl, ground arith)
]
digits-cons (suc fuel) n =
    let (c, t, e, d) = digits-cons fuel (n / 10) in
    elim (Bool-cases (ltb n 10)) [
      | inl b ↦ (48 + n, [], rw b refl, ground arith)
      | inr b ↦ (c, t ++ ((48 + n % 10) ∷ []), rw b (rw e refl), d)
    ]

pub strtoll-decimal :
    (n : ℕ) (rest : Text) → n < 2 ^ 63 → NoDigit rest → strtoll (decimal n ++ rest) ≡ n
unfolding decimal
strtoll-decimal n rest h nd =
    let (c, t, e, d) = digits-cons 19 n in
    let read = number-digits 20 n rest (omega arith) ∙ number_end n rest nd in
    ap (λ s. strtoll (s ++ rest)) e
    ∙ strtoll-number c (t ++ rest) d
    ∙ ap (λ s. min (number 0 (s ++ rest)) (2 ^ 63 - 1)) (sym e)
    ∙ ap (λ (k : ℕ). min k (2 ^ 63 - 1)) read
    ∙ ground arith

strtoll_negative :
    (text : Text) → strtoll (b'-' ∷ text) ≡ (2 ^ 64 - min (number 0 text) (2 ^ 63)) % 2 ^ 64
unfolding strtoll skip_space is_space strtoll_after
strtoll_negative text = refl

pub strtoll-signed_decimal :
    (n : ℕ) (rest : Text) → n < 2 ^ 64 → NoDigit rest → strtoll (signed_decimal n ++ rest) ≡ n
unfolding signed_decimal
strtoll-signed_decimal n rest h nd = elim (Bool-cases (ltb n (2 ^ 63))) [
  | inl e ↦ rw e (strtoll-decimal n rest (ground arith) nd)
  | inr e ↦
      let k = 2 ^ 64 - n in
      let read : number 0 (decimal k ++ rest) ≡ k =
        unfold decimal in number-digits 20 k rest (omega arith) ∙ number_end k rest nd in
      rw e (
        strtoll_negative (decimal k ++ rest)
        ∙ ap (λ (j : ℕ). (2 ^ 64 - min j (2 ^ 63)) % 2 ^ 64) read
        ∙ ground arith)
]

-- A printed number is not spaces.
skip_space-digit : (c : ℕ) (text : Text) → is_digit c ≡ true → skip_space (c ∷ text) ≡ c ∷ text
unfolding skip_space is_space
skip_space-digit c text h = ground arith

pub skip_space-decimal :
    (n : ℕ) (rest : Text) → skip_space (32 ∷ (decimal n ++ rest)) ≡ decimal n ++ rest
unfolding decimal skip_space is_space
skip_space-decimal n rest =
    let (c, t, e, d) = digits-cons 19 n in
    ap (λ s. skip_space (32 ∷ (s ++ rest))) e
    ∙ skip_space-digit c (t ++ rest) d
    ∙ ap (λ s. s ++ rest) (sym e)

pub skip_space-signed_decimal :
    (n : ℕ) (rest : Text) → skip_space (32 ∷ (signed_decimal n ++ rest)) ≡ signed_decimal n ++ rest
unfolding signed_decimal skip_space is_space
skip_space-signed_decimal n rest = elim (Bool-cases (ltb n (2 ^ 63))) [
  | inl e ↦ rw e (skip_space-decimal n rest)
  | inr e ↦ rw e refl
]
