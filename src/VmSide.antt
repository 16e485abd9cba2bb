-- ===== src/VmSide.antt =====
-- src/server/db-client-impl-vmside.cc: `DBClientImplVMSide`, which answers the requests of a client from
-- a debugger. It has no state of its own. An array and its length are a list; what a call that throws has
-- already written to the arrays of its caller is left out, since no client sees it; a C string is the bytes before its end.
pub mod Requests
pub mod Keeps
pub mod Histories
pub mod Batches
pub mod Updates
mod Tests
use odb.Prelude.{ℕ, zero, suc, Bool, true, false, List, [], ◌∷◌, length, if◌then◌else◌}
use odb.Prelude.Results.{Str, Result, ok}
use odb.Types.{
  CallStack,
  RegInfos,
  SymbolInfos,
  VmInfos,
  DbClientUpdate,
  ResumeType,
  StoppedState,
  StoppedState.{ready},
}
use odb.VmApi.{VmApi}
use odb.Debugger.{Debugger, Method, State, pure, ◌>>=◌, ◌>>◌, gets}
use odb.Debugger.Stepping.{is_running}
use odb.Debugger.Flow
use odb.Debugger.Breakpoints
use odb.Debugger.Registers
use odb.Debugger.Memory
use odb.Debugger.Symbols

-- The second `switch` of `check_stopped`, on a debugger that does not run.
abbrev pub stopped_state_of : State → StoppedState
stopped_state_of State.error = StoppedState.error
stopped_state_of State.exit = StoppedState.exit
stopped_state_of _ = ready

module _ {Vm : Type 0} where
  -- `for (i …) out[i] = method(in[i])`.
  unfoldable pub for_each : {A B : Type 0} → (A → Method Vm B) → List A → Method Vm (List B)
  for_each method [] = pure []
  for_each method (x ∷ xs) = do y ← method x; ys ← for_each method xs; pure (y ∷ ys)

  -- The same, for a method that returns nothing.
  unfoldable pub run_each :
      {A : Type 0} → (A → Method Vm (Unit {0})) → List A → Method Vm (Unit {0})
  run_each method [] = pure tt
  run_each method (x ∷ xs) = do method x; run_each method xs

  unfoldable pub check_stopped : DbClientUpdate → Method Vm DbClientUpdate
  check_stopped udp = do
    st ← gets (λ d. d.state)
    addr ← Memory.get_execution_point
    stack ← gets (λ d. d.call_stack)
    if is_running st
        then pure (record udp { stopped = false })
        else pure
            (record { vm_state = stopped_state_of st; stopped = true; addr = addr; stack = stack })

  unfoldable pub connect : DbClientUpdate → Method Vm (VmInfos × DbClientUpdate)
  unfolding check_stopped
  connect udp = do infos ← gets (λ d. d.infos); udp' ← check_stopped udp; pure (infos, udp')

  unfoldable pub stop : Method Vm (Unit {0})
  stop = Flow.stop

  unfoldable pub resume : ResumeType → Method Vm (Unit {0})
  resume type = Flow.resume type

  unfoldable pub add_breakpoints : List ℕ → Method Vm (Unit {0})
  unfolding run_each
  add_breakpoints addrs = run_each Breakpoints.add_breakpoint addrs

  unfoldable pub del_breakpoints : List ℕ → Method Vm (Unit {0})
  unfolding run_each
  del_breakpoints addrs = run_each Breakpoints.del_breakpoint addrs

module _ {Vm : Type 0} (api : VmApi Vm) where
  unfoldable pub set_regs : List (ℕ × List ℕ) → Method Vm (Unit {0})
  unfolding run_each
  set_regs regs = run_each (λ (id, buf). Registers.set_reg api id buf) regs

  unfoldable pub read_mem : List (ℕ × ℕ) → Method Vm (List (List ℕ))
  unfolding for_each
  read_mem ranges = for_each (λ (addr, len). Memory.read_mem api addr len) ranges

  unfoldable pub write_mem : List (ℕ × ℕ × List ℕ) → Method Vm (Unit {0})
  unfolding run_each
  write_mem ranges = run_each (λ (addr, len, buf). Memory.write_mem api addr len buf) ranges

  unfoldable pub get_symbols_by_ids : List ℕ → Method Vm (List SymbolInfos)
  unfolding for_each
  get_symbols_by_ids ids = for_each (Symbols.get_symbol_infos api) ids

  unfoldable pub get_symbols_by_addr : ℕ → ℕ → Method Vm (List SymbolInfos)
  unfolding get_symbols_by_ids
  get_symbols_by_addr addr size = do ids ← Symbols.get_symbols api addr size; get_symbols_by_ids ids

  -- The body of the loop of `get_symbols_by_names`.
  unfoldable pub get_symbol_by_name : Str → Method Vm SymbolInfos
  get_symbol_by_name name = do id ← Symbols.find_sym_id api name; Symbols.get_symbol_infos api id

  unfoldable pub get_symbols_by_names : List Str → Method Vm (List SymbolInfos)
  unfolding for_each get_symbol_by_name
  get_symbols_by_names names = for_each get_symbol_by_name names

  -- The texts and the sizes, from one instruction to the next.
  unfoldable pub get_code_text : ℕ → ℕ → Method Vm (List (Str × ℕ))
  get_code_text addr zero = pure []
  get_code_text addr (suc nins) = do
    (line, dist) ← Memory.get_code_text api addr
    rest ← get_code_text (Symbols.add_ptr addr dist) nins
    pure ((line, dist) ∷ rest)

module _ {Vm : Type 0} (api : VmApi Vm) (blank : RegInfos) where
  unfoldable pub get_regs : List ℕ → Method Vm (List (List ℕ))
  unfolding for_each
  get_regs ids = for_each (Registers.get_reg api blank) ids

  unfoldable pub get_regs_infos : List ℕ → Method Vm (List RegInfos)
  unfolding for_each
  get_regs_infos ids = for_each (Registers.get_reg_infos api blank) ids

  unfoldable pub find_regs_ids : List Str → Method Vm (List ℕ)
  unfolding for_each
  find_regs_ids names = for_each (Registers.find_reg_id api blank) names
