-- ===== src/Debugger/Stepping/Moves.antt =====
-- One call of `on_update` after an instruction that neither ended nor broke the program.
use odb.Prelude.{
  ℕ, suc, ◌-◌, ◌≤◌, ◌≡◌, refl, Bool, true, false, ◌||◌, [], ◌∷◌, leb, if◌then◌else◌, length,
  length-append, length-pop_back, arith,
}
use odb.Prelude.Maps.{contains}
use odb.Prelude.Results.{Result, ok}
use odb.Types.{CallStack}
use odb.VmApi.{VmApi, UpdateInfos, UpdateState, UpdateState.{call_sub, ret_sub}}
use odb.Debugger.{
  Debugger,
  State,
  State.{stopped, running_tofinish, running_bkp, running_step, running_step_over, running_step_out},
}
use odb.Debugger.Flow.{is_ret_sub, set_call_addr, track_calls, stops, update, on_update, frame}

-- `is_running` of src/server/db-client-impl-vmside.cc.
abbrev pub is_running : State → Bool
is_running running_tofinish = true
is_running running_bkp = true
is_running running_step = true
is_running running_step_over = true
is_running running_step_out = true
is_running _ = false

-- The instruction neither ended nor broke the program.
abbrev pub IsIns : UpdateState → Type 0
IsIns UpdateState.error = ⊥
IsIns UpdateState.exit = ⊥
IsIns _ = Unit {0}

-- The depth of the call stack behind an instruction.
abbrev pub depth : ℕ → UpdateState → ℕ
depth n call_sub = suc n
depth n ret_sub = n - 1
depth n _ = n

-- Whether the program stops behind an instruction: in the mode `st`, at the depth `n` where
-- `step_over` began at the depth `over`, and with a breakpoint there or not.
abbrev pub should_stop : State → ℕ → ℕ → UpdateState → Bool → Bool
should_stop running_tofinish over n u bkp = false
should_stop running_step over n u bkp = true
should_stop running_step_over over n u bkp = leb n over || bkp
should_stop running_step_out over n u bkp = is_ret_sub u || bkp
should_stop _ over n u bkp = bkp

pub set_call_addr_total :
    (addr : ℕ) (cs : CallStack)
    → 1 ≤ length cs
    → (cs' : CallStack) × (set_call_addr addr cs ≡ ok cs') × (length cs' ≡ length cs)
unfolding set_call_addr
set_call_addr_total addr [] h = absurd (omega arith)
set_call_addr_total addr (c ∷ []) h = (record c { call_addr = addr } ∷ [], refl, refl)
set_call_addr_total addr (c ∷ d ∷ cs) h =
    let (rest, e, l) = set_call_addr_total addr (d ∷ cs) (omega arith) in
    (c ∷ rest, ground arith, ground arith)

-- What one call of `on_update` has done.
pub record Moved {Vm : Type 0} (d : Debugger Vm) (u : UpdateInfos)
    (r : Result (Unit {0}) × Debugger Vm) : Type 0 where
  pub returns : r.0 ≡ ok tt
  pub at_addr : r.1.ins_addr ≡ u.act_addr
  pub deep : length r.1.call_stack ≡ depth (length d.call_stack) u.state
  pub same_breakpts : r.1.breakpts ≡ d.breakpts
  pub same_over : r.1.step_over_depth ≡ d.step_over_depth
  pub next_state : r.1.state ≡ (
      if should_stop d.state d.step_over_depth
        (depth (length d.call_stack) u.state)
        u.state
        (contains u.act_addr d.breakpts)
      then stopped
      else d.state)

module _ {Vm : Type 0} (garbage : ℕ) where
  update-Moved :
      (u : UpdateInfos) (d : Debugger Vm)
      → is_running d.state ≡ true
      → 1 ≤ length d.call_stack
      → IsIns u.state
      → Moved d u (update garbage u d)
  unfolding update track_calls stops
  update-Moved u d run deep ins =
      let (cs, e, l) = set_call_addr_total d.ins_addr d.call_stack deep in
      ground (
        arith,
        e,
        l,
        length-append cs (frame garbage u.act_addr ∷ []),
        length-pop_back d.call_stack,
      )

module _ {Vm : Type 0} (api : VmApi Vm) (garbage : ℕ) where
  -- In a running mode and with a frame on the call stack, `on_update` after such an instruction returns.
  pub on_update-Moved :
      (u : UpdateInfos) (d : Debugger Vm)
      → is_running d.state ≡ true
      → 1 ≤ length d.call_stack
      → (api.get_update_infos d.vm).0 ≡ ok u
      → IsIns u.state
      → Moved d u (on_update api garbage d)
  unfolding on_update
  on_update-Moved u d run deep e ins =
      let d' : Debugger Vm = record d { vm = (api.get_update_infos d.vm).1 } in
      let m = update-Moved garbage u d' run deep ins in ground (arith, m)
