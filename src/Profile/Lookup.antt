-- ===== src/Profile/Lookup.antt =====
-- runtime/vortex_verilator_sim.cpp, the lookups of numbers and truth values in a profile.
use cxlmem_uring.Base.{
  ℕ, suc, ◌-◌, ◌≤◌, ◌<◌, ◌^◌, ◌≡◌, ◌≢◌, refl, ap, ◌∙◌, Bool, true, false, not, ◌&&◌, some, List, [],
  ◌∷◌, ◌++◌, ◌==◌, ltb, All, All-take, take, drop, arith, if-case,
}
use mathlib.Core.List.{append_assoc}
use cxlmem_uring.Profile.{
  Text, codes, Piece, raw, quoted, entry, pieces_text, decimal, signed_decimal, digits, bool_text,
}
use cxlmem_uring.Profile.Scan.{
  strstr, strchr, quote, value_of, colon_in, after_colon, parse_json_int, parse_json_bool, int_of,
  bool_of, strtoll,
}
use cxlmem_uring.Profile.Search.{IsPlain, same, clash}
use cxlmem_uring.Profile.Pieces.{Skips, strstr-found}
use cxlmem_uring.Profile.Numbers.{
  NoDigit, digits-All, strtoll-decimal, strtoll-signed_decimal, skip_space-decimal,
  skip_space-signed_decimal,
}

-- No quotation mark but those around the piece's word.
abbrev pub PlainPiece : Piece → Type 0
PlainPiece (raw text) = IsPlain text
PlainPiece (quoted lead word after) = IsPlain lead × IsPlain word × IsPlain after

-- Whether no piece has the word `k`, or continues as it begins.
unfoldable pub all_miss : Text → List Piece → Bool
all_miss k [] = true
all_miss k (raw text ∷ ps) = all_miss k ps
all_miss k (quoted lead word after ∷ ps) =
    not (same k word) && (not (clash k after) && all_miss k ps)

not-true : (a b : Bool) → (not a && b) ≡ true → (a ≡ false) × (b ≡ true)
not-true true b h = cc
not-true false b h = (refl, h)

pub all_miss_sound :
    (k : Text) (ps : List Piece) → All PlainPiece ps → all_miss k ps ≡ true → All (Skips k) ps
unfolding all_miss
all_miss_sound k [] p h = tt
all_miss_sound k (raw text ∷ ps) p h = (p.0, all_miss_sound k ps p.1 h)
all_miss_sound k (quoted lead word after ∷ ps) p h =
    let (s, h') = not-true (same k word) _ h in
    let (c, h'') = not-true (clash k after) _ h' in
    ((p.0.0, p.0.1, p.0.2, s, c), all_miss_sound k ps p.1 h'')

-- A key: no quotation mark and no colon.
abbrev pub IsKey : Text → Type 0
IsKey = All (λ c. (c ≢ b'"') × (c ≢ b':'))

IsKey-IsPlain : (k : Text) → IsKey k → IsPlain k
IsKey-IsPlain [] h = tt
IsKey-IsPlain (c ∷ k) h = (h.0.0, IsKey-IsPlain k h.1)

strchr_skip : (k rest : Text) → IsKey k → strchr b':' (k ++ rest) ≡ strchr b':' rest
unfolding strchr
strchr_skip [] rest h = refl
strchr_skip (c ∷ k) rest h =
    let other : (b':' == c) ≡ false = ground (arith, h.0) in rw other (strchr_skip k rest h.1)

colon_of_key :
    (k after : Text)
    → IsKey k
    → after_colon (strchr b':' (b'"' ∷ (k ++ (b'"' ∷ (b':' ∷ after))))) ≡ some after
unfolding strchr after_colon
colon_of_key k after h = ap after_colon (strchr_skip k (b'"' ∷ (b':' ∷ after)) h)

-- The `i`th piece of a list is the entry of `k`, and no piece before has that word.
abbrev pub IsAt : List Piece → ℕ → Text → Text → Text → Text → Type 0
IsAt fs i lead k value ending =
    (fs ≡ take i fs ++ (entry lead k value ending ∷ drop (suc i) fs))
    × IsKey k
    × (all_miss k (take i fs) ≡ true)

module _ (fs : List Piece) (plain : All PlainPiece fs) (rest : Text) where
  abbrev behind : ℕ → Text → Text
  behind i ending = ending ++ (pieces_text (drop (suc i) fs) ++ rest)

  value_of-entry :
      (i : ℕ) (lead k value ending : Text)
      → IsAt fs i lead k value ending
      → IsPlain lead
      → value_of (pieces_text fs ++ rest) (quote k) ≡ some (32 ∷ (value ++ behind i ending))
  unfolding value_of colon_in
  value_of-entry i lead k value ending h l =
      ap (λ ps. after_colon (colon_in (strstr (quote k) (pieces_text ps ++ rest)))) h.0
      ∙ ap (λ o. after_colon (colon_in o))
          (strstr-found k (IsKey-IsPlain k h.1) (take i fs) lead (codes ": " ++ (value ++ ending))
            (drop (suc i) fs) rest
            (all_miss_sound k (take i fs) (All-take PlainPiece i fs plain) h.2) l)
      ∙ colon_of_key k _ h.1
      ∙ ap (λ t. some (32 ∷ t)) (append_assoc value ending (pieces_text (drop (suc i) fs) ++ rest))

  pub parse_json_int-entry :
      (i : ℕ) (lead k : Text) (v : ℕ) (ending : Text)
      → IsAt fs i lead k (decimal v) ending
      → IsPlain lead
      → NoDigit (behind i ending)
      → v < 2 ^ 63
      → parse_json_int (pieces_text fs ++ rest) (quote k) ≡ v
  unfolding parse_json_int int_of
  parse_json_int-entry i lead k v ending h l nd b =
      ap int_of (value_of-entry i lead k (decimal v) ending h l)
      ∙ ap strtoll (skip_space-decimal v (behind i ending))
      ∙ strtoll-decimal v (behind i ending) b nd

  pub parse_json_int-signed_entry :
      (i : ℕ) (lead k : Text) (v : ℕ) (ending : Text)
      → IsAt fs i lead k (signed_decimal v) ending
      → IsPlain lead
      → NoDigit (behind i ending)
      → v < 2 ^ 64
      → parse_json_int (pieces_text fs ++ rest) (quote k) ≡ v
  unfolding parse_json_int int_of
  parse_json_int-signed_entry i lead k v ending h l nd b =
      ap int_of (value_of-entry i lead k (signed_decimal v) ending h l)
      ∙ ap strtoll (skip_space-signed_decimal v (behind i ending))
      ∙ strtoll-signed_decimal v (behind i ending) b nd

  pub parse_json_bool-entry :
      (i : ℕ) (lead k : Text) (v : Bool) (ending : Text)
      → IsAt fs i lead k (bool_text v) ending
      → IsPlain lead
      → parse_json_bool (pieces_text fs ++ rest) (quote k) ≡ v
  unfolding parse_json_bool bool_of
  parse_json_bool-entry i lead k v ending h l =
      ap bool_of (value_of-entry i lead k (bool_text v) ending h l) ∙ read_bool v (behind i ending)
    where
      read_bool : (v : Bool) (t : Text) → bool_of (some (32 ∷ (bool_text v ++ t))) ≡ v
      read_bool true t = refl
      read_bool false t = refl

pub IsPlain-decimal : (n : ℕ) → IsPlain (decimal n)
unfolding decimal
IsPlain-decimal n = plain_of_digits (digits 20 n) (digits-All 20 n)
  where
    plain_of_digits : (t : Text) → All (λ c. (48 ≤ c) × (c ≤ 57)) t → IsPlain t
    plain_of_digits [] h = tt
    plain_of_digits (c ∷ t) h = (omega arith, plain_of_digits t h.1)

pub IsPlain-signed_decimal : (n : ℕ) → IsPlain (signed_decimal n)
unfolding signed_decimal
IsPlain-signed_decimal n =
    if-case IsPlain (ltb n (2 ^ 63)) _ _ (IsPlain-decimal n)
      (omega arith, IsPlain-decimal (2 ^ 64 - n))

pub IsPlain-bool_text : (b : Bool) → IsPlain (bool_text b)
IsPlain-bool_text true = omega arith
IsPlain-bool_text false = omega arith
