-- ===== src/VmApi.antt =====
-- include/odb/server/vm-api.hh: the interface that each virtual machine implements. It is a parameter of
-- the debugger: a method may change the machine, and may throw. `get_reg` fills a `RegInfos` of the
-- caller, which comes back also after a throw.
use odb.Prelude.{ℕ, Bool, List}
use odb.Prelude.Results.{Str, Result}
use odb.Types.{RegInfos, SymbolInfos, VmInfos}

-- `VMApi::UpdateState`.
pub data UpdateState : Type 0 where
  error exit call_sub ret_sub ok_ins : UpdateState

pub record UpdateInfos : Type 0 where
  pub state : UpdateState
  pub act_addr : ℕ

pub record VmApi (Vm : Type 0) : Type 0 where
  pub get_vm_infos : Vm → Result VmInfos × Vm
  pub get_update_infos : Vm → Result UpdateInfos × Vm
  pub get_reg : ℕ → RegInfos → Bool → Vm → Result (Unit {0}) × RegInfos × Vm
  pub set_reg : ℕ → List ℕ → Vm → Result (Unit {0}) × Vm
  pub find_reg_id : Str → Vm → Result ℕ × Vm
  pub read_mem : ℕ → ℕ → Vm → Result (List ℕ) × Vm
  pub write_mem : ℕ → ℕ → List ℕ → Vm → Result (Unit {0}) × Vm
  pub get_symbols : ℕ → ℕ → Vm → Result (List ℕ) × Vm
  pub get_symb_infos : ℕ → Vm → Result SymbolInfos × Vm
  pub find_sym_id : Str → Vm → Result ℕ × Vm
  pub get_code_text : ℕ → Vm → Result (Str × ℕ) × Vm
