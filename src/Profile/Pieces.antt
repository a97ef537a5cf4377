-- ===== src/Profile/Pieces.antt =====
-- runtime/vortex_verilator_sim.cpp: the search for a key in the pieces of a profile.
use cxlmem_uring.Base.{◌≡◌, refl, ap, ◌∙◌, false, some, List, [], ◌∷◌, ◌++◌, All}
use mathlib.Core.List.{append_assoc}
use cxlmem_uring.Profile.{Text, Piece, raw, quoted, piece_text, pieces_text}
use cxlmem_uring.Profile.Scan.{strstr, quote}
use cxlmem_uring.Profile.Search.{IsPlain, same, clash, strstr-plain, strstr-other, strstr_here}

-- A piece in which a search for the quoted key `k` finds nothing.
abbrev pub Skips : Text → Piece → Type 0
Skips k (raw text) = IsPlain text
Skips k (quoted lead word after) =
    IsPlain lead × IsPlain word × IsPlain after × (same k word ≡ false) × (clash k after ≡ false)

module _ (k : Text) (plain : IsPlain k) where
  strstr-piece :
      (p : Piece) (rest : Text)
      → Skips k p
      → strstr (quote k) (piece_text p ++ rest) ≡ strstr (quote k) rest
  unfolding piece_text
  strstr-piece (raw text) rest h = strstr-plain (k ++ (b'"' ∷ [])) text rest h
  strstr-piece (quoted lead word after) rest h =
      ap (strstr (quote k)) regroup
      ∙ strstr-plain (k ++ (b'"' ∷ [])) lead _ h.0
      ∙ strstr-other k word after rest plain h.1 h.2 h.3 h.4
    where
      regroup :
          (lead ++ (b'"' ∷ (word ++ (b'"' ∷ after)))) ++ rest
          ≡ lead ++ (b'"' ∷ (word ++ (b'"' ∷ (after ++ rest))))
      regroup =
          append_assoc lead _ rest
          ∙ ap (λ t. lead ++ (b'"' ∷ t)) (append_assoc word (b'"' ∷ after) rest)

  pub strstr-pieces :
      (ps : List Piece) (rest : Text)
      → All (Skips k) ps
      → strstr (quote k) (pieces_text ps ++ rest) ≡ strstr (quote k) rest
  unfolding pieces_text
  strstr-pieces [] rest h = refl
  strstr-pieces (p ∷ ps) rest h =
      ap (strstr (quote k)) (append_assoc (piece_text p) (pieces_text ps) rest)
      ∙ strstr-piece p (pieces_text ps ++ rest) h.0
      ∙ strstr-pieces ps rest h.1

  -- The key's own piece, behind pieces that it is not in.
  pub strstr-found :
      (ps : List Piece) (lead after : Text) (qs : List Piece) (rest : Text)
      → All (Skips k) ps
      → IsPlain lead
      → strstr (quote k) (pieces_text (ps ++ (quoted lead k after ∷ qs)) ++ rest)
        ≡ some (b'"' ∷ (k ++ (b'"' ∷ (after ++ (pieces_text qs ++ rest)))))
  unfolding pieces_text piece_text
  strstr-found [] lead after qs rest h l =
      ap (strstr (quote k)) regroup
      ∙ strstr-plain (k ++ (b'"' ∷ [])) lead _ l
      ∙ strstr_here k (after ++ (pieces_text qs ++ rest))
    where
      regroup :
          ((lead ++ (b'"' ∷ (k ++ (b'"' ∷ after)))) ++ pieces_text qs) ++ rest
          ≡ lead ++ (b'"' ∷ (k ++ (b'"' ∷ (after ++ (pieces_text qs ++ rest)))))
      regroup =
          append_assoc (lead ++ (b'"' ∷ (k ++ (b'"' ∷ after)))) (pieces_text qs) rest
          ∙ append_assoc lead _ (pieces_text qs ++ rest)
          ∙ ap (λ t. lead ++ (b'"' ∷ t)) (append_assoc k (b'"' ∷ after) (pieces_text qs ++ rest))
  strstr-found (p ∷ ps) lead after qs rest h l =
      ap (strstr (quote k)) (append_assoc (piece_text p) _ rest)
      ∙ strstr-piece p _ h.0
      ∙ strstr-found ps lead after qs rest h.1 l
