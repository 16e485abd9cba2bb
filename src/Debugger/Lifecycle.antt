-- ===== src/Debugger/Lifecycle.antt =====
-- A program that has finished stays finished, and the invariant of a debugger that has started.
use odb.Prelude.{ℕ, ◌≡◌, refl, true, List, [], ◌∷◌, arith, nat_eq, ap, ◌∙◌}
use odb.Prelude.Results.{Fault.{}}
use odb.Types.{RegInfos}
use odb.VmApi.{VmApi}
use odb.Debugger.{Debugger}
use odb.Debugger.Flow.{is_finished, on_update, on_init, resume, stop}
use odb.Debugger.Breakpoints.{add_breakpoint, del_breakpoint, has_breakpoint}
use odb.Debugger.Registers.{set_reg}
use odb.Debugger.Memory.{read_mem, write_mem, get_code_text}
use odb.Debugger.Frames.{
  Control, Control-refl, Control-trans, get_reg-Control, get_reg_infos-Control, find_reg_id-Control,
  load_symbol-Control, mark-Control, get_symbol_at-Within, get_symbols-Within,
  get_symbol_infos-Within, find_sym_id-Within,
}
use odb.Debugger.Operations.{Operation, perform, history}

-- The operations that neither move the program nor touch a breakpoint. Those on registers and memory may
-- change what the machine holds.
abbrev pub IsAccess : Operation → Type 0
IsAccess Operation.on_init = ⊥
IsAccess Operation.on_update = ⊥
IsAccess Operation.stop = ⊥
IsAccess (Operation.resume type) = ⊥
IsAccess (Operation.add_breakpoint addr) = ⊥
IsAccess (Operation.del_breakpoint addr) = ⊥
IsAccess _ = Unit {0}

module _ {Vm : Type 0} where
  vm-Control : (d : Debugger Vm) (vm : Vm) → Control d (record d { vm = vm })
  vm-Control d vm = ground arith

module _ {Vm : Type 0} (api : VmApi Vm) (garbage : ℕ) (blank : RegInfos) where
  -- An operation that reads or writes registers or memory, or that asks for symbols, code or a breakpoint,
  -- leaves what the debugger knows of the program as it was, however it ends: the infos, the state, the call
  -- stack, the address of the instruction, the breakpoints and the depth for a step over. It may change what
  -- the machine holds and the caches.
  pub perform-Control :
      (op : Operation) (d : Debugger Vm) → IsAccess op → Control d (perform api garbage blank op d)
  unfolding perform set_reg read_mem write_mem get_code_text has_breakpoint
  perform-Control Operation.on_init d q = absurd q
  perform-Control Operation.on_update d q = absurd q
  perform-Control Operation.stop d q = absurd q
  perform-Control (Operation.resume type) d q = absurd q
  perform-Control (Operation.add_breakpoint addr) d q = absurd q
  perform-Control (Operation.del_breakpoint addr) d q = absurd q
  perform-Control (Operation.has_breakpoint addr) d q = ground arith
  perform-Control (Operation.get_reg idx) d q = get_reg-Control api blank idx d
  perform-Control (Operation.get_reg_infos idx) d q = get_reg_infos-Control api blank idx d
  perform-Control (Operation.set_reg idx val) d q = vm-Control d _
  perform-Control (Operation.find_reg_id name) d q = find_reg_id-Control api blank name d
  perform-Control (Operation.find_sym_id name) d q =
      find_sym_id-Within api Control Control-refl Control-trans vm-Control (load_symbol-Control api)
        mark-Control name d
  perform-Control (Operation.read_mem addr size) d q = vm-Control d _
  perform-Control (Operation.write_mem addr size buf) d q = vm-Control d _
  perform-Control (Operation.get_symbol_at addr) d q =
      get_symbol_at-Within api Control Control-refl Control-trans vm-Control
        (load_symbol-Control api) mark-Control addr d
  perform-Control (Operation.get_symbol_infos idx) d q =
      get_symbol_infos-Within api Control Control-refl Control-trans vm-Control
        (load_symbol-Control api) mark-Control idx d
  perform-Control (Operation.get_code_text addr) d q = vm-Control d _
  perform-Control (Operation.get_symbols addr size) d q =
      get_symbols-Within api Control Control-refl Control-trans vm-Control (load_symbol-Control api)
        mark-Control addr size d

  pub finished_step :
      (op : Operation) (d : Debugger Vm)
      → is_finished d.state ≡ true
      → (perform api garbage blank op d).state ≡ d.state
  unfolding perform on_init on_update stop resume add_breakpoint del_breakpoint
  finished_step Operation.on_init d h = ground (arith, h)
  finished_step Operation.on_update d h = ground (arith, h)
  finished_step Operation.stop d h = ground (arith, h)
  finished_step (Operation.resume type) d h = ground (arith, h)
  finished_step (Operation.add_breakpoint addr) d h = ground arith
  finished_step (Operation.del_breakpoint addr) d h = ground arith
  finished_step (Operation.has_breakpoint addr) d h =
      (perform-Control (Operation.has_breakpoint addr) d tt).state
  finished_step (Operation.get_reg idx) d h = (perform-Control (Operation.get_reg idx) d tt).state
  finished_step (Operation.get_reg_infos idx) d h =
      (perform-Control (Operation.get_reg_infos idx) d tt).state
  finished_step (Operation.set_reg idx val) d h =
      (perform-Control (Operation.set_reg idx val) d tt).state
  finished_step (Operation.find_reg_id name) d h =
      (perform-Control (Operation.find_reg_id name) d tt).state
  finished_step (Operation.find_sym_id name) d h =
      (perform-Control (Operation.find_sym_id name) d tt).state
  finished_step (Operation.read_mem addr size) d h =
      (perform-Control (Operation.read_mem addr size) d tt).state
  finished_step (Operation.write_mem addr size buf) d h =
      (perform-Control (Operation.write_mem addr size buf) d tt).state
  finished_step (Operation.get_symbol_at addr) d h =
      (perform-Control (Operation.get_symbol_at addr) d tt).state
  finished_step (Operation.get_symbol_infos idx) d h =
      (perform-Control (Operation.get_symbol_infos idx) d tt).state
  finished_step (Operation.get_code_text addr) d h =
      (perform-Control (Operation.get_code_text addr) d tt).state
  finished_step (Operation.get_symbols addr size) d h =
      (perform-Control (Operation.get_symbols addr size) d tt).state

  -- A program that has exited or failed stays so, with the same state, through any sequence of
  -- operations.
  pub finished_forever :
      (ops : List Operation) (d : Debugger Vm)
      → is_finished d.state ≡ true
      → (history api garbage blank ops d).state ≡ d.state
  unfolding history
  finished_forever [] d h = refl
  finished_forever (op ∷ ops) d h =
      let same = finished_step op d h in
      finished_forever ops (perform api garbage blank op d) (ap is_finished same ∙ h) ∙ same
