-- ===== src/Futures/Active.antt =====
-- The active futures of runtime/src/CiraRuntime.cpp: each once, none null, none of a freed pool.
use cxlmem_uring.Base.{
  ℕ, ◌+◌, ◌*◌, ◌^◌, ◌≤◌, ◌<◌, ◌≡◌, ◌≢◌, inl, inr, refl, ◌∙◌, Bool, false, ◌||◌, some, ◌==◌, leb,
  arith, Bool-cases, List, [], ◌∷◌, ◌++◌, All,
}
use cxlmem_uring.Memory.Ranges.{Apart}
use cxlmem_uring.Job.{cacheline_size}
use cxlmem_uring.Futures.{
  is_active, track_active_future, without, untrack_active_future, in_span, untrack_future_range,
  future_pool_entry, pool_at,
}

-- No future twice, and none is null.
unfoldable pub Once : List ℕ → Type 0
Once [] = Unit
Once (p ∷ active) = (p ≢ 0) × (is_active p active ≡ false) × Once active

is_active-append :
    (p q : ℕ) (active : List ℕ) → p ≢ q → is_active p (active ++ (q ∷ [])) ≡ is_active p active
unfolding is_active
is_active-append p q [] h = ground arith
is_active-append p q (r ∷ active) h = rw (is_active-append p q active h) refl

append-Once :
    (p : ℕ) (active : List ℕ)
    → p ≢ 0
    → is_active p active ≡ false
    → Once active
    → Once (active ++ (p ∷ []))
unfolding Once is_active
append-Once p [] hp h o = (hp, refl, tt)
append-Once p (q ∷ active) hp h o = elim (Bool-cases (q == p)) [
  | inl same ↦ cc (rw same at h)
  | inr other ↦ (
    o.0,
    is_active-append q p active (ground arith) ∙ o.1,
    append-Once p active hp (rw other at h) o.2,
  )
]

is_active-without :
    (drops : ℕ → Bool) (p : ℕ) (active : List ℕ)
    → is_active p active ≡ false
    → is_active p (without drops active) ≡ false
unfolding is_active without
is_active-without drops p [] h = refl
is_active-without drops p (q ∷ active) h = elim (Bool-cases (q == p)) [
  | inl same ↦ cc (rw same at h)
  | inr other ↦ elim (Bool-cases (drops q)) [
    | inl gone ↦ rw gone (is_active-without drops p active (rw other at h))
    | inr kept ↦ rw kept (rw other (is_active-without drops p active (rw other at h)))
  ]
]

without-Once : (drops : ℕ → Bool) (active : List ℕ) → Once active → Once (without drops active)
unfolding Once without
without-Once drops [] o = tt
without-Once drops (q ∷ active) o = elim (Bool-cases (drops q)) [
  | inl gone ↦ rw gone (without-Once drops active o.2)
  | inr kept ↦ rw kept (o.0, is_active-without drops q active o.1, without-Once drops active o.2)
]

without-kept :
    (drops : ℕ → Bool) (active : List ℕ) → All (λ p. drops p ≡ false) (without drops active)
unfolding without
without-kept drops [] = tt
without-kept drops (q ∷ active) = elim (Bool-cases (drops q)) [
  | inl gone ↦ rw gone (without-kept drops active)
  | inr kept ↦ rw kept (kept, without-kept drops active)
]

-- For active futures that are not null and each there once: tracking any address, untracking any
-- address and untracking any range leave them so.
pub active_futures-Once :
    (p base bytes_ : ℕ) (active : List ℕ)
    → Once active
    → Once (track_active_future p active)
      × Once (untrack_active_future p active)
      × Once (untrack_future_range base bytes_ active)
unfolding track_active_future untrack_active_future untrack_future_range
active_futures-Once p base bytes_ active o = (tracked, untracked, cleared)
  where
    tracked : Once (track_active_future p active)
    tracked = elim (Bool-cases (p == 0)) [
      | inl null ↦ rw null o
      | inr given ↦ elim (Bool-cases (is_active p active)) [
        | inl there ↦ rw (given, there) o
        | inr new ↦ rw (given, new) (append-Once p active (ground arith) new o)
      ]
    ]

    untracked : Once (untrack_active_future p active)
    untracked = elim (Bool-cases (p == 0)) [
      | inl null ↦ rw null o
      | inr given ↦ rw given (without-Once (λ q. q == p) active o)
    ]

    cleared : Once (untrack_future_range base bytes_ active)
    cleared = elim (Bool-cases (base == 0 || bytes_ == 0)) [
      | inl empty ↦ rw empty o
      | inr given ↦ rw given (without-Once (in_span base bytes_) active o)
    ]

-- For a pool of some depth at a block that is not null and ends below 2 ^ 64, any two different
-- indices below the depth: their entries are not null, lie in the pool and do not overlap; and once
-- the pool's range is untracked, no active future lies in the pool.
pub pool_entries-Apart :
    (base depth i j : ℕ) (active : List ℕ)
    → base ≢ 0
    → base + depth * cacheline_size < 2 ^ 64
    → i < depth
    → j < depth
    → i ≢ j
    → let pool = pool_at base depth in
      (future_pool_entry (some pool) i ≢ 0)
      × (base ≤ future_pool_entry (some pool) i)
      × (future_pool_entry (some pool) i + cacheline_size ≤ base + pool.bytes_)
      × Apart
          (future_pool_entry (some pool) i)
          cacheline_size
          (future_pool_entry (some pool) j)
          cacheline_size
      × All (λ p. in_span base pool.bytes_ p ≡ false) (untrack_future_range base pool.bytes_ active)
unfolding future_pool_entry pool_at untrack_future_range
pool_entries-Apart base depth i j active hb hs hi hj ne =
    rw (first, second)
      (
        omega arith,
        omega arith,
        omega arith,
        omega arith,
        rw given (without-kept (in_span base (depth * cacheline_size)) active),
      )
  where
    first : (base == 0 || leb depth i) ≡ false
    first = ground arith

    second : (base == 0 || leb depth j) ≡ false
    second = ground arith

    given : (base == 0 || depth * cacheline_size == 0) ≡ false
    given = ground arith
