-- ===== src/Mmio/Open.antt =====
-- runtime/cira_mmio.cpp, the lifetime of a window: `cira_mmio_open` and `cira_mmio_close`. What the
-- operating system answers is an argument, and what it gives and takes back is recorded in order.
pub mod Env
pub mod Balanced
pub mod Submits
use cxlmem_uring.Base.{
  ℕ, ◌&&◌, ◌||◌, Bool, true, false, not, Option, none, some, List, [], ◌∷◌, ◌++◌, ◌==◌, ltb,
  if◌then◌else◌,
}
use cxlmem_uring.Job.{control_bytes}
use cxlmem_uring.Mmio.{Window, Rc, ok, einval, enodev, eio, erange, is_null}

-- `cira_mmio_config_t`; `fixed_addr` is 0 for none.
pub record Config : Type 0 where
  pub path : Option (List ℕ)
  pub offset : ℕ
  pub size : ℕ
  pub fixed_addr : ℕ
  pub emulate : Bool
  pub read_only : Bool

-- What is held: the object at an address, a mapping, an open file.
pub data Resource : Type 0 where
  object : (p : ℕ) → Resource
  mapping : (a size : ℕ) → Resource
  file : (fd : ℕ) → Resource

pub data OsCall : Type 0 where
  taken given_back : Resource → OsCall
  zeroed : (a size : ℕ) → OsCall

-- The answers to `new`, `mmap` and `open`.
pub record OsAnswers : Type 0 where
  pub object_at : Option ℕ
  pub map_at : Option ℕ
  pub fd : Option ℕ

-- A pointer to a window: its address, and the window.
abbrev pub Handle : Type 0
Handle = ℕ × Window

pub record Opened : Type 0 where
  pub rc : Rc
  pub handle : Option Handle
  pub calls : List OsCall

abbrev pub no_window : Rc → List OsCall → Opened
no_window rc calls = record { rc = rc; handle = none; calls = calls }

-- The window as `new` and the two assignments after it leave it.
abbrev pub fresh_window : ℕ → Bool → Window
fresh_window size read_only = record {
  base = 0;
  size = size;
  fd = none;
  owns_mapping = false;
  emulated = false;
  read_only = read_only;
  next_seq = 1;
}

abbrev pub opened : ℕ → Window → List OsCall → Opened
opened p w calls = record { rc = ok; handle = some (p, w); calls = calls }

-- The branch over anonymous memory.
unfoldable pub open_emulated : ℕ → Window → Option ℕ → Opened
open_emulated p w none = no_window eio (taken (object p) ∷ given_back (object p) ∷ [])
open_emulated p w (some a) =
    opened p (record w { base = a; owns_mapping = true; emulated = true })
      (taken (object p) ∷ taken (mapping a w.size) ∷ zeroed a w.size ∷ [])

-- The branch over a file. Messages are left out.
unfoldable pub open_file : ℕ → Window → Option ℕ → Option ℕ → Opened
open_file p w none map_at = no_window enodev (taken (object p) ∷ given_back (object p) ∷ [])
open_file p w (some fd) none =
    no_window eio
      (taken (object p) ∷ taken (file fd) ∷ given_back (file fd) ∷ given_back (object p) ∷ [])
open_file p w (some fd) (some a) =
    opened p (record w { fd = some fd; base = a; owns_mapping = true })
      (taken (object p) ∷ taken (file fd) ∷ taken (mapping a w.size) ∷ [])

abbrev pub is_missing : Option (List ℕ) → Bool
is_missing none = true
is_missing (some path) = false

unfoldable pub open_object : ℕ → Config → Window → OsAnswers → Opened
unfolding open_emulated open_file
open_object p cfg w os =
    if not (is_null cfg.fixed_addr)
    then opened p (record w { base = cfg.fixed_addr }) (taken (object p) ∷ [])
    else if cfg.emulate
    then open_emulated p w os.map_at
    else if is_missing cfg.path
    then no_window enodev (taken (object p) ∷ given_back (object p) ∷ [])
    else open_file p w os.fd os.map_at

abbrev pub window_size : Config → ℕ
window_size cfg = if cfg.size == 0 then control_bytes else cfg.size

unfoldable pub open_new : Option ℕ → Config → OsAnswers → Opened
unfolding open_object
open_new none cfg os = no_window eio []
open_new (some p) cfg os = open_object p cfg (fresh_window (window_size cfg) cfg.read_only) os

-- After the arguments are known to be there.
unfoldable pub open_config : Config → OsAnswers → Opened
unfolding open_new
open_config cfg os =
    if ltb (window_size cfg) control_bytes
    then no_window erange []
    else open_new os.object_at cfg os

-- `out` is whether the caller gave a place for the window.
unfoldable pub open_window : Bool → Option Config → OsAnswers → Opened
unfolding open_config
open_window out none os = no_window einval []
open_window out (some cfg) os = if out then open_config cfg os else no_window einval []

unfoldable pub close_file : Option ℕ → List OsCall
close_file none = []
close_file (some fd) = given_back (file fd) ∷ []

unfoldable pub close_window : Option Handle → List OsCall
unfolding close_file
close_window none = []
close_window (some (p, w)) =
    (if w.owns_mapping && not (is_null w.base) then given_back (mapping w.base w.size) ∷ [] else [])
    ++ (close_file w.fd ++ (given_back (object p) ∷ []))
