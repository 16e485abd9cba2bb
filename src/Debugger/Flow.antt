-- ===== src/Debugger/Flow.antt =====
-- src/server/debugger.cc: `on_init`, `on_update`, `resume` and `stop`, which move the state machine.
use odb.Prelude.{
  ℕ, ◌+◌, ◌-◌, ◌%◌, ◌^◌, Bool, true, false, not, ◌||◌, [], ◌∷◌, none, some, leb, if◌then◌else◌,
  length, push_back, pop_back,
}
use odb.Prelude.Maps.{contains}
use odb.Prelude.Results.{Result, ok, throws, fails, Fault.{undefined}, text}
use odb.RangeMap.{make}
use odb.Types.{
  CallInfos,
  CallStack,
  VmInfos,
  ResumeType,
  ResumeType.{to_finish, continue, step, step_over, step_out},
}
use odb.VmApi.{VmApi, UpdateInfos, UpdateState, UpdateState.{call_sub, ret_sub, ok_ins}}
use odb.Debugger.{
  Debugger,
  Method,
  State,
  State.{
    not_started, stopped, running_tofinish, running_bkp, running_step, running_step_over,
    running_step_out,
  },
  pure,
  lift,
  throw,
  ◌>>=◌,
  ◌>>◌,
  gets,
  modify,
  assert,
  call,
}

-- `_state == State::NOT_STARTED`, and so on.
abbrev pub is_not_started : State → Bool
is_not_started not_started = true
is_not_started _ = false

-- EXIT and ERROR, in which the program has finished.
abbrev pub is_finished : State → Bool
is_finished State.exit = true
is_finished State.error = true
is_finished _ = false

abbrev pub is_stopped : State → Bool
is_stopped stopped = true
is_stopped _ = false

abbrev pub is_ok_ins : UpdateState → Bool
is_ok_ins ok_ins = true
is_ok_ins _ = false

abbrev pub is_ret_sub : UpdateState → Bool
is_ret_sub ret_sub = true
is_ret_sub _ = false

-- `_call_stack.back().call_addr = addr`, and what `back` of an empty vector is.
unfoldable pub set_call_addr : ℕ → CallStack → Result CallStack
set_call_addr addr [] = fails undefined
set_call_addr addr (c ∷ []) = ok (record c { call_addr = addr } ∷ [])
set_call_addr addr (c ∷ d ∷ cs) = elim (set_call_addr addr (d ∷ cs)) [
  | ok rest ↦ ok (c ∷ rest)
  | throws e ↦ throws e
  | fails x ↦ fails x
]

-- `on_update`, from the ladder of tests behind the call stack on: whether the program stops here.
unfoldable pub stops : {Vm : Type 0} → Debugger Vm → UpdateState → Bool
stops d upd = elim d.state [
  | running_tofinish ↦ false
  | running_step ↦ true
  | running_step_over ↦
      leb (length d.call_stack) d.step_over_depth || contains d.ins_addr d.breakpts
  | running_step_out ↦ is_ret_sub upd || contains d.ins_addr d.breakpts
  | _ ↦ contains d.ins_addr d.breakpts
]

-- `garbage` is what the field `call_addr` of a new `CallInfos` holds: the code does not write it.
abbrev pub frame : ℕ → ℕ → CallInfos
frame garbage addr = record { caller_start_addr = addr; call_addr = garbage }

module _ {Vm : Type 0} (garbage : ℕ) where
  -- The call and the return of a subroutine, on the call stack.
  unfoldable pub track_calls : UpdateInfos → ℕ → Method Vm (Unit {0})
  unfolding set_call_addr
  track_calls upd old_addr = elim upd.state [
    | call_sub ↦ do
      stack ← lift (set_call_addr old_addr (← gets (λ d. d.call_stack)))
      modify (λ d. record d { call_stack = push_back stack (frame garbage upd.act_addr) })
    | ret_sub ↦ do
      assert (not (leb (length (← gets (λ d. d.call_stack))) 0))
      modify (λ d. record d { call_stack = pop_back d.call_stack })
    | _ ↦ pure tt
  ]

  -- `on_update` once the VM has answered.
  unfoldable pub update : UpdateInfos → Method Vm (Unit {0})
  unfolding track_calls stops
  update upd = elim upd.state [
    | UpdateState.error ↦ modify (λ d. record d { state = State.error })
    | UpdateState.exit ↦ modify (λ d. record d { state = State.exit })
    | _ ↦ do
      old_addr ← gets (λ d. d.ins_addr)
      modify (λ d. record d { ins_addr = upd.act_addr })
      track_calls upd old_addr
      modify (λ d. if stops d upd.state then record d { state = stopped } else d)
  ]

-- The constructor. It writes no `_infos`, `_ins_addr` or `_step_over_depth`: what these hold is given.
unfoldable pub create : {Vm : Type 0} → Vm → VmInfos → ℕ → ℕ → Debugger Vm
create vm infos ins_addr step_over_depth = record {
  vm = vm;
  infos = infos;
  state = not_started;
  call_stack = [];
  ins_addr = ins_addr;
  map_regs = [];
  smap_regs = [];
  map_syms = [];
  smap_syms = [];
  syms_ranges = none;
  syms_pos = [];
  breakpts = [];
  step_over_depth = step_over_depth;
}

module _ {Vm : Type 0} (api : VmApi Vm) (garbage : ℕ) where
  unfoldable pub on_init : Method Vm (Unit {0})
  on_init = do
    assert (is_not_started (← gets (λ d. d.state)))
    modify (λ d. record d { state = running_tofinish })
    infos ← call api.get_vm_infos
    modify λ d. record d {
      infos = infos;
      syms_ranges = some (make 0 ((infos.memory_size + 2 ^ 64 - 1) % 2 ^ 64) 0);
    }
    upd ← call api.get_update_infos
    assert (is_ok_ins upd.state)
    modify λ d. record d {
      ins_addr = upd.act_addr;
      call_stack = push_back d.call_stack (frame garbage upd.act_addr);
    }

  unfoldable pub on_update : Method Vm (Unit {0})
  unfolding update
  on_update = do
    st ← gets (λ d. d.state)
    assert (not (is_not_started st || is_stopped st || is_finished st))
    upd ← call api.get_update_infos
    update garbage upd

module _ {Vm : Type 0} where
  -- `resume` leaves the state alone for a value that is none of the enumerators.
  abbrev pub run_as : ResumeType → Debugger Vm → Debugger Vm
  run_as to_finish d = record d { state = running_tofinish }
  run_as continue d = record d { state = running_bkp }
  run_as step d = record d { state = running_step }
  run_as step_over d = record d { state = running_step_over; step_over_depth = length d.call_stack }
  run_as step_out d = record d { state = running_step_out }
  run_as (ResumeType.other n) d = d

  unfoldable pub resume : ResumeType → Method Vm (Unit {0})
  resume type = do
    finished ← gets (λ d. is_finished d.state)
    if finished
        then throw (text "cannot resume execution: program already finished")
        else modify (run_as type)

  unfoldable pub stop : Method Vm (Unit {0})
  stop = do
    st ← gets (λ d. d.state)
    assert (not (is_not_started st))
    if is_finished st
        then throw (text "cannot stop execution: program already finished")
        else if is_stopped st
        then throw (text "cannot stop execution: program already stopped")
        else modify (λ d. record d { state = stopped })
