-- ===== src/Mmio/Open/Env.antt =====
-- runtime/cira_mmio.cpp: the environment's variables, the window that they describe, the default
-- window of the process, and the device function.
use cxlmem_uring.Base.{
  ℕ, Bool, true, false, not, ◌&&◌, Option, none, some, List, [], ◌∷◌, ◌==◌, if◌then◌else◌,
}
use cxlmem_uring.Job.{control_bytes}
use cxlmem_uring.Mmio.{einval, enodev, is_null}
use cxlmem_uring.Mmio.Open.{Config, OsAnswers, OsCall, Handle, Opened, open_window, close_window}

pub data EnvName : Type 0 where
  cxl_size type2_size cxl_offset type2_offset cxl_addr type2_addr : EnvName
  cxl_path type2_path cxl_emulate cxl_timeout_ns cxl_device_func type2_device_func : EnvName

-- `g_default_window` and `g_default_probed`.
pub record Defaults : Type 0 where
  pub window : Option Handle
  pub probed : Bool

abbrev or_else : Option ℕ → ℕ → ℕ
or_else none n = n
or_else (some v) n = v

-- Whether `env_flag` takes a text for set: the text "0" alone is not.
unfoldable pub flag_set : Option (List ℕ) → Bool
flag_set none = false
flag_set (some []) = false
flag_set (some (c ∷ [])) = not (c == 48)
flag_set (some (c ∷ (d ∷ cs))) = true

unfoldable pub non_empty : Option (List ℕ) → Option (List ℕ)
non_empty none = none
non_empty (some []) = none
non_empty (some (c ∷ cs)) = some (c ∷ cs)

-- `getenv`, and `strtoull` on a whole text: `none` where it sets `errno`, takes no digit or leaves
-- characters.
module _ (getenv : EnvName → Option (List ℕ)) (strtoull : List ℕ → Option ℕ) where
  unfoldable pub env_u64 : EnvName → Option ℕ
  unfolding non_empty
  env_u64 name = elim (non_empty (getenv name)) [ none ↦ none | some text ↦ strtoull text ]

  unfoldable pub parse_env_u64 : EnvName → Option EnvName → Option ℕ
  unfolding env_u64
  parse_env_u64 primary none = env_u64 primary
  parse_env_u64 primary (some legacy) = elim (env_u64 primary) [
    | none ↦ env_u64 legacy
    | some v ↦ some v
  ]

  unfoldable pub env_str : EnvName → Option EnvName → Option (List ℕ)
  unfolding non_empty
  env_str primary none = non_empty (getenv primary)
  env_str primary (some legacy) = elim (non_empty (getenv primary)) [
    | none ↦ non_empty (getenv legacy)
    | some v ↦ some v
  ]

  unfoldable pub env_flag : EnvName → Bool
  unfolding flag_set
  env_flag name = flag_set (getenv name)

  -- The configuration that the environment gives, `none` where it names no window.
  unfoldable pub env_config : Option Config
  unfolding parse_env_u64 env_str env_flag
  env_config =
      let size = or_else (parse_env_u64 cxl_size (some type2_size)) control_bytes in
      let offset = or_else (parse_env_u64 cxl_offset (some type2_offset)) 0 in
      let addr = or_else (parse_env_u64 cxl_addr (some type2_addr)) 0 in
      let path = env_str cxl_path (some type2_path) in
      let cfg : Config = record {
        path = none;
        offset = offset;
        size = size;
        fixed_addr = addr;
        emulate = false;
        read_only = false;
      } in
      if not (is_null addr)
      then some cfg
      else if env_flag cxl_emulate
      then some (record cfg { emulate = true })
      else elim path [ none ↦ none | some text ↦ some (record cfg { path = some text }) ]

  unfoldable pub open_env : Bool → OsAnswers → Opened
  unfolding env_config
  open_env out os =
      if not out then record { rc = einval; handle = none; calls = [] } else elim env_config [
        | none ↦ record { rc = enodev; handle = none; calls = [] }
        | some cfg ↦ open_window true (some cfg) os
      ]

  -- `cira_mmio_default`: the window, the state and the calls.
  unfoldable pub default_window : OsAnswers → Defaults → Option Handle × Defaults × List OsCall
  unfolding open_env
  default_window os d = elim d.window [
    | some h ↦ (some h, d, [])
    | none ↦
        if d.probed
        then (none, d, [])
        else let r = open_env true os in
          (r.handle, record { window = r.handle; probed = true }, r.calls)
  ]

  unfoldable pub default_timeout_ns : ℕ
  unfolding parse_env_u64
  default_timeout_ns = or_else (parse_env_u64 cxl_timeout_ns none) 0

  -- `forced` is what `cira_mmio_set_device_func` stored, 0 for none.
  unfoldable pub device_func : ℕ → ℕ
  unfolding parse_env_u64
  device_func forced =
      if not (is_null forced)
      then forced
      else or_else (parse_env_u64 cxl_device_func (some type2_device_func)) 0

abbrev same_handle : Option Handle → ℕ → Bool
same_handle none p = p == 0
same_handle (some (q, w)) p = q == p

abbrev pointer : Option Handle → ℕ
pointer none = 0
pointer (some (p, w)) = p

abbrev is_some : Option Handle → Bool
is_some none = false
is_some (some h) = true

-- `cira_mmio_set_default`; pointers are compared by their addresses.
unfoldable pub set_default : Option Handle → Defaults → Defaults × List OsCall
set_default window d = (
  record { window = window; probed = is_some window },
  if is_some d.window && not (pointer d.window == pointer window)
      then close_window d.window
      else [],
)

-- `cira_mmio_set_device_func`: the new value of what `device_func` reads first.
unfoldable pub set_device_func : ℕ → ℕ → ℕ
set_device_func func forced = func
