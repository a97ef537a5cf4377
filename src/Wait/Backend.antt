-- ===== src/Wait/Backend.antt =====
-- runtime/cira_mwait.cpp: the choice of the wait instruction, the spin budget and the cycle rate.
use cxlmem_uring.Base.{
  ℕ, ◌-◌, ◌*◌, ◌/◌, ◌%◌, ◌^◌, Bool, true, false, not, ◌&&◌, ◌||◌, Option, none, some, List, [], ◌∷◌,
  ◌==◌, ltb, leb, if◌then◌else◌,
}
use cxlmem_uring.Wait.{World, equal, not_equal, wait_impl}

-- `cira_wait_backend_t`; the value that no backend has stands for every other number.
pub data Backend : Type 0 where
  wait_spin wait_umwait wait_tpause wait_mwaitx wait_wfe wait_other : Backend

-- The targets that the source tells apart.
pub data Arch : Type 0 where
  x86 aarch64 other_arch : Arch

-- The processor, and what `cpuid` answers: the greatest leaf, the register ECX of leaf 7, and the
-- same of the extended leaf 0x80000001.
pub record Cpu : Type 0 where
  pub arch : Arch
  pub max_leaf : ℕ
  pub ecx_seven : ℕ
  pub max_extended_leaf : ℕ
  pub ecx_extended : ℕ

abbrev bit : ℕ → ℕ → Bool
bit k n = n / 2 ^ k % 2 == 1

unfoldable pub cpu_has_waitpkg : Cpu → Bool
cpu_has_waitpkg cpu = if ltb cpu.max_leaf 7 then false else bit 5 cpu.ecx_seven

unfoldable pub cpu_has_monitorx : Cpu → Bool
cpu_has_monitorx cpu =
    if ltb cpu.max_extended_leaf 0x80000001 then false else bit 29 cpu.ecx_extended

unfoldable pub supported_x86 : Cpu → Backend → Bool
unfolding cpu_has_waitpkg cpu_has_monitorx
supported_x86 cpu wait_spin = true
supported_x86 cpu wait_umwait = cpu_has_waitpkg cpu
supported_x86 cpu wait_tpause = cpu_has_waitpkg cpu
supported_x86 cpu wait_mwaitx = cpu_has_monitorx cpu
supported_x86 cpu wait_wfe = false
supported_x86 cpu wait_other = false

unfoldable pub supported_aarch64 : Backend → Bool
supported_aarch64 wait_spin = true
supported_aarch64 wait_wfe = true
supported_aarch64 wait_umwait = false
supported_aarch64 wait_tpause = false
supported_aarch64 wait_mwaitx = false
supported_aarch64 wait_other = false

unfoldable pub supported_elsewhere : Backend → Bool
supported_elsewhere wait_spin = true
supported_elsewhere wait_wfe = false
supported_elsewhere wait_umwait = false
supported_elsewhere wait_tpause = false
supported_elsewhere wait_mwaitx = false
supported_elsewhere wait_other = false

unfoldable pub backend_supported : Cpu → Backend → Bool
unfolding supported_x86 supported_aarch64 supported_elsewhere
backend_supported cpu b = elim cpu.arch [
  | x86 ↦ supported_x86 cpu b
  | aarch64 ↦ supported_aarch64 b
  | other_arch ↦ supported_elsewhere b
]

unfoldable pub same_text : List ℕ → List ℕ → Bool
same_text [] [] = true
same_text [] (d ∷ ds) = false
same_text (c ∷ cs) [] = false
same_text (c ∷ cs) (d ∷ ds) = (c == d) && same_text cs ds

-- `cira_wait_backend_name`, as character codes.
unfoldable pub backend_name : Backend → List ℕ
backend_name wait_spin = 115 ∷ 112 ∷ 105 ∷ 110 ∷ []
backend_name wait_umwait = 117 ∷ 109 ∷ 119 ∷ 97 ∷ 105 ∷ 116 ∷ []
backend_name wait_tpause = 116 ∷ 112 ∷ 97 ∷ 117 ∷ 115 ∷ 101 ∷ []
backend_name wait_mwaitx = 109 ∷ 119 ∷ 97 ∷ 105 ∷ 116 ∷ 120 ∷ []
backend_name wait_wfe = 119 ∷ 102 ∷ 101 ∷ []
backend_name wait_other = 117 ∷ 110 ∷ 107 ∷ 110 ∷ 111 ∷ 119 ∷ 110 ∷ []

-- `backend_from_env` on the text of CIRA_WAIT_BACKEND; `none` is the value -1.
unfoldable pub backend_from_env : Option (List ℕ) → Option Backend
unfolding same_text
backend_from_env none = none
backend_from_env (some text) =
    if same_text text []
    then none
    else if same_text text (115 ∷ 112 ∷ 105 ∷ 110 ∷ [])
    then some wait_spin
    else if same_text text (117 ∷ 109 ∷ 119 ∷ 97 ∷ 105 ∷ 116 ∷ [])
    then some wait_umwait
    else if same_text text (116 ∷ 112 ∷ 97 ∷ 117 ∷ 115 ∷ 101 ∷ [])
    then some wait_tpause
    else if same_text text (109 ∷ 119 ∷ 97 ∷ 105 ∷ 116 ∷ 120 ∷ [])
    then some wait_mwaitx
    else if same_text text (119 ∷ 102 ∷ 101 ∷ [])
    then some wait_wfe
    else none

unfoldable pub best_backend : Cpu → Backend
best_backend cpu = elim cpu.arch [
  | x86 ↦
      if cpu_has_waitpkg cpu
      then wait_umwait
      else if cpu_has_monitorx cpu
      then wait_mwaitx
      else wait_spin
  | aarch64 ↦ wait_wfe
  | other_arch ↦ wait_spin
]

abbrev pub supported_or_spin : Cpu → Backend → Backend
supported_or_spin cpu b = if backend_supported cpu b then b else wait_spin

unfoldable pub detect_backend : Cpu → Option (List ℕ) → Backend
unfolding backend_from_env best_backend
detect_backend cpu text = elim (backend_from_env text) [
  | some forced ↦ supported_or_spin cpu forced
  | none ↦ best_backend cpu
]

-- `g_backend`, `none` before it is detected, `g_spin_budget` and `g_tsc_hz`.
pub record WaitState : Type 0 where
  pub backend : Option Backend
  pub spin_budget : ℕ
  pub tsc_hz : ℕ

abbrev pub initial_state : WaitState
initial_state = record { backend = none; spin_budget = 4096; tsc_hz = 0 }

unfoldable pub current_backend : Cpu → Option (List ℕ) → WaitState → Backend × WaitState
unfolding detect_backend
current_backend cpu text s = elim s.backend [
  | some b ↦ (b, s)
  | none ↦
      let detected = detect_backend cpu text in (detected, record s { backend = some detected })
]

unfoldable pub set_backend : Cpu → Backend → WaitState → WaitState
set_backend cpu b s = record s { backend = some (supported_or_spin cpu b) }

unfoldable pub set_spin_budget : ℕ → WaitState → WaitState
set_spin_budget iterations s = record s { spin_budget = iterations }

-- `cira_wait_tsc_hz`, from the two readings of the cycle counter and of the clock.
unfoldable pub wait_tsc_hz : ℕ → ℕ → ℕ → ℕ → WaitState → ℕ × WaitState
wait_tsc_hz c c' t t' s =
    let hz = (c' - c) * 1000000000 % 2 ^ 64 / (t' - t) in
    if not (s.tsc_hz == 0)
    then (s.tsc_hz, s)
    else if c == 0
    then (0, s)
    else if leb t' t || leb c' c
    then (0, s)
    else (hz, record s { tsc_hz = hz })

-- `cira_wait_u32` and `cira_wait_u32_ne`, on the monitor loop's fuel.
unfoldable pub wait_u32 : World → WaitState → ℕ → ℕ → ℕ → ℕ → ℕ → Option (Bool × ℕ)
wait_u32 env s flag expect timeout_ns fuel t =
    wait_impl env flag expect equal timeout_ns s.spin_budget fuel t

unfoldable pub wait_u32_ne : World → WaitState → ℕ → ℕ → ℕ → ℕ → ℕ → Option (Bool × ℕ)
wait_u32_ne env s flag unexpected timeout_ns fuel t =
    wait_impl env flag unexpected not_equal timeout_ns s.spin_budget fuel t
