-- ===== src/Profile/Search.antt =====
-- runtime/vortex_verilator_sim.cpp: the search for a quoted key in a text of quoted words.
use cxlmem_uring.Base.{
  sym, ◌≡◌, ◌≢◌, refl, ap, ◌∙◌, Bool, true, false, ◌&&◌, some, [], ◌∷◌, ◌++◌, ◌==◌, All, arith,
  Bool-cases, inl, inr,
}
use mathlib.Core.List.{append_assoc}
use cxlmem_uring.Profile.{Text}
use cxlmem_uring.Profile.Scan.{starts_with, strstr, quote}

-- No quotation mark.
abbrev pub IsPlain : Text → Type 0
IsPlain = All (λ c. c ≢ b'"')

abbrev pub same : Text → Text → Bool
same [] [] = true
same [] (d ∷ ys) = false
same (c ∷ xs) [] = false
same (c ∷ xs) (d ∷ ys) = c == d && same xs ys

-- Whether the second may begin as the first does.
abbrev pub clash : Text → Text → Bool
clash [] text = true
clash (c ∷ word) [] = true
clash (c ∷ word) (d ∷ text) = c == d

pub strstr-plain :
    (word p rest : Text) → IsPlain p → strstr (b'"' ∷ word) (p ++ rest) ≡ strstr (b'"' ∷ word) rest
unfolding strstr starts_with
strstr-plain word [] rest h = refl
strstr-plain word (c ∷ p) rest h =
    let other : (b'"' == c) ≡ false = ground (arith, h.0) in rw other (strstr-plain word p rest h.1)

starts_with-word :
    (k k' rest : Text)
    → IsPlain k
    → IsPlain k'
    → same k k' ≡ false
    → starts_with (k ++ (b'"' ∷ [])) (k' ++ (b'"' ∷ rest)) ≡ false
unfolding starts_with
starts_with-word [] [] rest p p' s = cc
starts_with-word [] (d ∷ k') rest p p' s =
    let other : (b'"' == d) ≡ false = ground (arith, p'.0) in rw other refl
starts_with-word (c ∷ k) [] rest p p' s =
    let other : (c == b'"') ≡ false = ground (arith, p.0) in rw other refl
starts_with-word (c ∷ k) (d ∷ k') rest p p' s = elim (Bool-cases (c == d)) [
  | inl e ↦ rw e (starts_with-word k k' rest p.1 p'.1 (rw e at s))
  | inr e ↦ rw e refl
]

starts_with-clash :
    (k xs after rest : Text) → clash k after ≡ false → starts_with (k ++ xs) (after ++ rest) ≡ false
unfolding starts_with
starts_with-clash [] xs after rest h = cc
starts_with-clash (c ∷ k) xs [] rest h = cc
starts_with-clash (c ∷ k) xs (d ∷ after) rest h = rw h refl

-- A quotation mark where the key does not begin.
strstr-quote :
    (k text : Text)
    → starts_with (k ++ (b'"' ∷ [])) text ≡ false
    → strstr (quote k) (b'"' ∷ text) ≡ strstr (quote k) text
unfolding strstr starts_with
strstr-quote k text h = rw h refl

-- Another word, in its quotation marks, and what is behind it.
pub strstr-other :
    (k k' after rest : Text)
    → IsPlain k
    → IsPlain k'
    → IsPlain after
    → same k k' ≡ false
    → clash k after ≡ false
    → strstr (quote k) (b'"' ∷ (k' ++ (b'"' ∷ (after ++ rest)))) ≡ strstr (quote k) rest
strstr-other k k' after rest p p' q s c =
    strstr-quote k _ (starts_with-word k k' (after ++ rest) p p' s)
    ∙ strstr-plain (k ++ (b'"' ∷ [])) k' _ p'
    ∙ strstr-quote k _ (starts_with-clash k (b'"' ∷ []) after rest c)
    ∙ strstr-plain (k ++ (b'"' ∷ [])) after rest q

starts_with_self : (k rest : Text) → starts_with k (k ++ rest) ≡ true
unfolding starts_with
starts_with_self [] rest = refl
starts_with_self (c ∷ k) rest =
    let self : (c == c) ≡ true = ground arith in rw self (starts_with_self k rest)

pub strstr_here :
    (k rest : Text)
    → strstr (quote k) (b'"' ∷ (k ++ (b'"' ∷ rest))) ≡ some (b'"' ∷ (k ++ (b'"' ∷ rest)))
unfolding strstr starts_with
strstr_here k rest =
    let found : starts_with (k ++ (b'"' ∷ [])) (k ++ (b'"' ∷ rest)) ≡ true =
      ap (starts_with (k ++ (b'"' ∷ []))) (sym (append_assoc k (b'"' ∷ []) rest))
      ∙ starts_with_self (k ++ (b'"' ∷ [])) rest in
    rw found refl
