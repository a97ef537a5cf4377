-- ===== src/Mmio/Open/Balanced.antt =====
-- `cira_mmio_open`, `cira_mmio_close` and the default window: what is taken is given back.
use cxlmem_uring.Base.{
  if-case, ℕ, ◌+◌, ◌≡◌, ◌≢◌, refl, arith, Bool, true, false, ◌&&◌, Option, none, some, List, [],
  ◌∷◌, ◌++◌, ◌==◌, if◌then◌else◌,
}
use cxlmem_uring.Mmio.{erange, enodev, Window, Rc}
use cxlmem_uring.Mmio.Open.{
  window_size, fresh_window, open_new, no_window, opened, Config, Resource, object, mapping, file,
  OsCall, taken, given_back, zeroed, OsAnswers, Opened, open_window, open_config, open_object,
  open_emulated, open_file, close_window, close_file,
}

unfoldable pub same : Resource → Resource → Bool
same (object p) (object q) = p == q
same (mapping a n) (mapping b k) = (a == b) && (n == k)
same (file fd) (file fd') = fd == fd'
same (object p) (mapping b k) = false
same (object p) (file fd) = false
same (mapping a n) (object p) = false
same (mapping a n) (file fd) = false
same (file fd) (object p) = false
same (file fd) (mapping b k) = false

abbrev once : Resource → Resource → ℕ
once r q = if same q r then 1 else 0

-- How often a resource is taken, and how often it is given back.
unfoldable pub count_taken : Resource → List OsCall → ℕ
unfolding same
count_taken r [] = 0
count_taken r (taken q ∷ calls) = once r q + count_taken r calls
count_taken r (given_back q ∷ calls) = count_taken r calls
count_taken r (zeroed a n ∷ calls) = count_taken r calls

unfoldable pub count_given_back : Resource → List OsCall → ℕ
unfolding same
count_given_back r [] = 0
count_given_back r (given_back q ∷ calls) = once r q + count_given_back r calls
count_given_back r (taken q ∷ calls) = count_given_back r calls
count_given_back r (zeroed a n ∷ calls) = count_given_back r calls

abbrev pub Balanced : Resource → List OsCall → Type 0
Balanced r calls = count_taken r calls ≡ count_given_back r calls

-- What an opening took is given back once its window is closed.
Closes : Resource → Opened → Type 0
Closes r opened = Balanced r (opened.calls ++ close_window opened.handle)

open_emulated-Closes :
    (r : Resource) (p : ℕ) (w : Window) (map_at : Option ℕ)
    → map_at ≢ some 0
    → w.fd ≡ none
    → Closes r (open_emulated p w map_at)
unfolding Closes open_emulated close_window close_file count_taken count_given_back
open_emulated-Closes r p w none n f = omega arith
open_emulated-Closes r p w (some a) n f = rw f (ground arith)

open_file-Closes :
    (r : Resource) (p : ℕ) (w : Window) (fd map_at : Option ℕ)
    → map_at ≢ some 0
    → Closes r (open_file p w fd map_at)
unfolding Closes open_file close_window close_file count_taken count_given_back
open_file-Closes r p w none map_at n = omega arith
open_file-Closes r p w (some fd) none n = omega arith
open_file-Closes r p w (some fd) (some a) n = ground arith

fixed-Closes :
    (r : Resource) (p addr : ℕ) (w : Window)
    → w.owns_mapping ≡ false
    → w.fd ≡ none
    → Closes r (opened p (record w { base = addr }) (taken (object p) ∷ []))
unfolding Closes close_window close_file count_taken count_given_back
fixed-Closes r p addr w o f = rw (o, f) refl

refused-Closes :
    (r : Resource) (p : ℕ) (rc : Rc)
    → Closes r (no_window rc (taken (object p) ∷ given_back (object p) ∷ []))
unfolding Closes close_window count_taken count_given_back
refused-Closes r p rc = refl

open_object-Closes :
    (r : Resource) (p : ℕ) (cfg : Config) (w : Window) (os : OsAnswers)
    → os.map_at ≢ some 0
    → w.owns_mapping ≡ false
    → w.fd ≡ none
    → Closes r (open_object p cfg w os)
unfolding open_object
open_object-Closes r p cfg w os n o f =
    if-case (Closes r) _ _ _ (fixed-Closes r p cfg.fixed_addr w o f) (
      if-case (Closes r) _ _ _ (open_emulated-Closes r p w os.map_at n f) (
        if-case (Closes r) _ _ _ (refused-Closes r p enodev)
          (open_file-Closes r p w os.fd os.map_at n)))

open_new-Closes :
    (r : Resource) (object_at : Option ℕ) (cfg : Config) (os : OsAnswers)
    → os.map_at ≢ some 0
    → Closes r (open_new object_at cfg os)
unfolding open_new Closes close_window count_taken count_given_back
open_new-Closes r none cfg os n = refl
open_new-Closes r (some p) cfg os n =
    open_object-Closes r p cfg (fresh_window (window_size cfg) cfg.read_only) os n refl refl

nothing-Closes : (r : Resource) (rc : Rc) → Closes r (no_window rc [])
unfolding Closes close_window count_taken count_given_back
nothing-Closes r rc = refl

open_config-Closes :
    (r : Resource) (cfg : Config) (os : OsAnswers)
    → os.map_at ≢ some 0
    → Closes r (open_config cfg os)
unfolding open_config
open_config-Closes r cfg os n =
    if-case (Closes r) _ _ _ (nothing-Closes r erange) (open_new-Closes r os.object_at cfg os n)

-- For every configuration and every answer of the operating system but a mapping at address 0:
-- opening a window and closing the window if one was opened give back each object, mapping and file
-- as often as they took it.
pub open_window-Balanced :
    (r : Resource) (out : Bool) (cfg : Option Config) (os : OsAnswers)
    → os.map_at ≢ some 0
    → let opened = open_window out cfg os in Balanced r (opened.calls ++ close_window opened.handle)
unfolding open_window close_window count_taken count_given_back Closes
open_window-Balanced r out none os n = refl
open_window-Balanced r false (some cfg) os n = refl
open_window-Balanced r true (some cfg) os n = open_config-Closes r cfg os n
