-- ===== src/Wait/Choice.antt =====
-- runtime/cira_mwait.cpp: the backend in use over any sequence of the interface's calls.
use cxlmem_uring.Base.{ℕ, ◌≡◌, ◌≢◌, refl, true, Option, none, some, List, [], ◌∷◌}
use cxlmem_uring.Wait.Backend.{
  wait_spin, wait_umwait, wait_tpause, wait_mwaitx, wait_wfe, wait_other, wait_other, backend_name,
  backend_from_env, wait_spin, Cpu, Backend, WaitState, backend_supported, current_backend,
  set_backend, set_spin_budget, wait_tsc_hz,
}

-- The calls that change the state.
pub data WaitCall : Type 0 where
  ask : (text : Option (List ℕ)) → WaitCall
  choose : (b : Backend) → WaitCall
  budget : (iterations : ℕ) → WaitCall
  rate : (c c' t t' : ℕ) → WaitCall

unfoldable pub run_wait_call : Cpu → WaitCall → WaitState → WaitState
run_wait_call cpu (ask text) s = (current_backend cpu text s).1
run_wait_call cpu (choose b) s = set_backend cpu b s
run_wait_call cpu (budget iterations) s = set_spin_budget iterations s
run_wait_call cpu (rate c c' t t') s = (wait_tsc_hz c c' t t' s).1

unfoldable pub run_wait_calls : Cpu → List WaitCall → WaitState → WaitState
run_wait_calls cpu [] s = s
run_wait_calls cpu (call ∷ calls) s = run_wait_calls cpu calls (run_wait_call cpu call s)

-- The stored backend, if there is one, is one of the processor's.
Supported : Cpu → Option Backend → Type 0
Supported cpu none = Unit
Supported cpu (some b) = backend_supported cpu b ≡ true

-- Every backend's name, as the value of CIRA_WAIT_BACKEND, is read back as that backend.
pub backend_name_round_trip :
    (b : Backend) → b ≢ wait_other → backend_from_env (some (backend_name b)) ≡ some b
unfolding backend_from_env backend_name
backend_name_round_trip wait_spin n = refl
backend_name_round_trip wait_umwait n = refl
backend_name_round_trip wait_tpause n = refl
backend_name_round_trip wait_mwaitx n = refl
backend_name_round_trip wait_wfe n = refl
backend_name_round_trip wait_other n = absurd (n refl)
