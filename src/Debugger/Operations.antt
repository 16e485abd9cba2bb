-- ===== src/Debugger/Operations.antt =====
-- The methods of the debugger that can change something, as data: a history of a debugger is a list of
-- them.
use odb.Prelude.{ℕ, List, [], ◌∷◌}
use odb.Prelude.Results.{Str}
use odb.Types.{RegInfos, ResumeType}
use odb.VmApi.{VmApi}
use odb.Debugger.{Debugger}
use odb.Debugger.Flow
use odb.Debugger.Breakpoints
use odb.Debugger.Registers
use odb.Debugger.Memory
use odb.Debugger.Symbols

pub data Operation : Type 0 where
  on_init on_update stop : Operation
  resume : ResumeType → Operation
  add_breakpoint has_breakpoint del_breakpoint : ℕ → Operation
  get_reg get_reg_infos : ℕ → Operation
  set_reg : ℕ → List ℕ → Operation
  find_reg_id find_sym_id : Str → Operation
  read_mem : ℕ → ℕ → Operation
  write_mem : ℕ → ℕ → List ℕ → Operation
  get_symbol_at get_symbol_infos get_code_text : ℕ → Operation
  get_symbols : ℕ → ℕ → Operation

module _ {Vm : Type 0} (api : VmApi Vm) (garbage : ℕ) (blank : RegInfos) where
  -- The object that a call leaves behind, whether it returns, throws or fails.
  unfoldable pub perform : Operation → Debugger Vm → Debugger Vm
  perform Operation.on_init d = (Flow.on_init api garbage d).1
  perform Operation.on_update d = (Flow.on_update api garbage d).1
  perform Operation.stop d = (Flow.stop d).1
  perform (Operation.resume type) d = (Flow.resume type d).1
  perform (Operation.add_breakpoint addr) d = (Breakpoints.add_breakpoint addr d).1
  perform (Operation.has_breakpoint addr) d = (Breakpoints.has_breakpoint addr d).1
  perform (Operation.del_breakpoint addr) d = (Breakpoints.del_breakpoint addr d).1
  perform (Operation.get_reg idx) d = (Registers.get_reg api blank idx d).1
  perform (Operation.get_reg_infos idx) d = (Registers.get_reg_infos api blank idx d).1
  perform (Operation.set_reg idx val) d = (Registers.set_reg api idx val d).1
  perform (Operation.find_reg_id name) d = (Registers.find_reg_id api blank name d).1
  perform (Operation.find_sym_id name) d = (Symbols.find_sym_id api name d).1
  perform (Operation.read_mem addr size) d = (Memory.read_mem api addr size d).1
  perform (Operation.write_mem addr size buf) d = (Memory.write_mem api addr size buf d).1
  perform (Operation.get_symbol_at addr) d = (Symbols.get_symbol_at api addr d).1
  perform (Operation.get_symbol_infos idx) d = (Symbols.get_symbol_infos api idx d).1
  perform (Operation.get_code_text addr) d = (Memory.get_code_text api addr d).1
  perform (Operation.get_symbols addr size) d = (Symbols.get_symbols api addr size d).1

  unfoldable pub history : List Operation → Debugger Vm → Debugger Vm
  history [] d = d
  history (op ∷ ops) d = history ops (perform op d)
