-- ===== src/Memory/Traces.antt =====
-- Volatile stores in program order, as a list, and the memory after them.
use cxlmem_uring.Base.{
  ℕ, zero, suc, ◌<◌, ◌^◌, ◌≡◌, ◌⊎◌, inl, inr, take, drop, take-nil, ap, refl, ◌∙◌, List, [], ◌∷◌,
  ◌++◌, All,
}
use cxlmem_uring.Memory.{Memory, IsBytes, load, store}
use cxlmem_uring.Memory.Ranges.{
  Apart, load-store-Apart, load-store_self, store_outside, store-IsBytes,
}

-- One store of `width` bytes.
pub record Store : Type 0 where
  pub width : ℕ
  pub addr : ℕ
  pub word : ℕ

unfoldable pub perform : List Store → Memory → Memory
perform [] m = m
perform (s ∷ ss) m = perform ss (store s.width s.addr s.word m)

pub perform-append :
    (xs ys : List Store) (m : Memory) → perform (xs ++ ys) m ≡ perform ys (perform xs m)
unfolding perform
perform-append [] ys m = refl
perform-append (s ∷ ss) ys m = perform-append ss ys (store s.width s.addr s.word m)

-- No store of the list touches the `k` bytes at `p`.
abbrev pub Spares : ℕ → ℕ → List Store → Type 0
Spares p k = All (λ s. Apart p k s.addr s.width)

pub load-perform_spared :
    (k p : ℕ) (ss : List Store) (m : Memory) → Spares p k ss → load k p (perform ss m) ≡ load k p m
unfolding perform
load-perform_spared k p [] m h = refl
load-perform_spared k p (s ∷ ss) m h =
    load-perform_spared k p ss (store s.width s.addr s.word m) h.1
    ∙ load-store-Apart k p s.width s.addr s.word m h.0

pub Spares-append :
    (p k : ℕ) (xs ys : List Store) → Spares p k xs → Spares p k ys → Spares p k (xs ++ ys)
Spares-append p k [] ys h g = g
Spares-append p k (x ∷ xs) ys h g = (h.0, Spares-append p k xs ys h.1 g)

-- The word of the `n`th store is read back, if the later ones spare it.
pub load-perform_at :
    (n : ℕ) (ss rest : List Store) (k p v : ℕ) (m : Memory)
    → drop n ss ≡ record { width = k; addr = p; word = v } ∷ rest
    → v < 256 ^ k
    → Spares p k rest
    → load k p (perform ss m) ≡ v
unfolding perform
load-perform_at zero ss rest k p v m e h s =
    ap (λ ss. load k p (perform ss m)) e
    ∙ load-perform_spared k p rest (store k p v m) s
    ∙ load-store_self k p v m h
load-perform_at (suc n) [] rest k p v m e h s = cc
load-perform_at (suc n) (x ∷ ss) rest k p v m e h s =
    load-perform_at n ss rest k p v (store x.width x.addr x.word m) e h s

-- While only part of the stores is made, a word that the last store alone touches is unchanged.
pub prefix_unseen :
    (n k p : ℕ) (ss : List Store) (last : Store) (m : Memory)
    → Spares p k ss
    → (load k p (perform (take n (ss ++ last ∷ [])) m) ≡ load k p m)
      ⊎ (take n (ss ++ last ∷ []) ≡ ss ++ last ∷ [])
unfolding perform
prefix_unseen zero k p ss last m h = inl refl
prefix_unseen (suc n) k p [] last m h = inr (ap (◌∷◌ last) (take-nil Store n))
prefix_unseen (suc n) k p (x ∷ ss) last m h =
    elim (prefix_unseen n k p ss last (store x.width x.addr x.word m) h.1) [
      | inl e ↦ inl (e ∙ load-store-Apart k p x.width x.addr x.word m h.0)
      | inr e ↦ inr (ap (◌∷◌ x) e)
    ]

-- Stores that spare a word or write the value that it has.
abbrev pub Repeats : ℕ → ℕ → ℕ → List Store → Type 0
Repeats k p v = All (λ s. Apart p k s.addr s.width ⊎ (s ≡ record { width = k; addr = p; word = v }))

-- They leave the word, also while only part of them is made.
pub load-perform_repeated :
    (n k p v : ℕ) (ss : List Store) (m : Memory)
    → v < 256 ^ k
    → load k p m ≡ v
    → Repeats k p v ss
    → load k p (perform (take n ss) m) ≡ v
unfolding perform
load-perform_repeated zero k p v ss m h e r = e
load-perform_repeated (suc n) k p v [] m h e r = e
load-perform_repeated (suc n) k p v (s ∷ ss) m h e (inl apart, r) =
    load-perform_repeated n k p v ss (store s.width s.addr s.word m) h
      (load-store-Apart k p s.width s.addr s.word m apart ∙ e) r
load-perform_repeated (suc n) k p v (s ∷ ss) m h e (inr same, r) =
    load-perform_repeated n k p v ss (store s.width s.addr s.word m) h
      (ap (λ (t : Store). load k p (store t.width t.addr t.word m)) same
        ∙ load-store_self k p v m h)
      r

-- A word that one store alone changes is the old one or the new one, while only part of the stores
-- is made.
pub load-perform_once :
    (n k p v : ℕ) (xs ys : List Store) (m : Memory)
    → v < 256 ^ k
    → Spares p k xs
    → Repeats k p v ys
    → let seen = perform (take n (xs ++ record { width = k; addr = p; word = v } ∷ ys)) m in
      (load k p seen ≡ load k p m) ⊎ (load k p seen ≡ v)
unfolding perform
load-perform_once zero k p v xs ys m h s r = inl refl
load-perform_once (suc n) k p v [] ys m h s r =
    inr (load-perform_repeated n k p v ys (store k p v m) h (load-store_self k p v m h) r)
load-perform_once (suc n) k p v (x ∷ xs) ys m h s r =
    elim (load-perform_once n k p v xs ys (store x.width x.addr x.word m) h s.1 r) [
      | inl e ↦ inl (e ∙ load-store-Apart k p x.width x.addr x.word m s.0)
      | inr e ↦ inr e
    ]

pub perform_outside : (p : ℕ) (ss : List Store) (m : Memory) → Spares p 1 ss → perform ss m p ≡ m p
unfolding perform
perform_outside p [] m h = refl
perform_outside p (s ∷ ss) m h =
    perform_outside p ss (store s.width s.addr s.word m) h.1
    ∙ store_outside s.width s.addr s.word m p h.0

pub perform-IsBytes : (ss : List Store) (m : Memory) → IsBytes m → IsBytes (perform ss m)
unfolding perform
perform-IsBytes [] m v = v
perform-IsBytes (s ∷ ss) m v =
    perform-IsBytes ss (store s.width s.addr s.word m) (store-IsBytes s.width s.addr s.word m v)
