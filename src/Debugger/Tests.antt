-- ===== src/Debugger/Tests.antt =====
-- Runs of the debugger on a scripted machine, and the theorems at concrete inputs.
use odb.Prelude.{
  nat_eq, ◌<◌, ◌≤◌, ◌≡◌, refl, ◌⊎◌, inl, ◌++◌, ◌==◌, ◌||◌, ◌&&◌, not, List, [], ◌∷◌, true, false,
  length, arith,
}
use odb.Prelude.Results.{ok}
use odb.Prelude.Maps.{contains, find, emplace_sorted}
use odb.RangeMap.{make, range_of, set}
use odb.Types.{RegKind.{}, vm_sym_null, ResumeType.{to_finish, continue, step, step_over, step_out}}
use odb.VmApi.{UpdateInfos, UpdateState.{call_sub, ret_sub, ok_ins}}
use odb.Debugger.{Debugger, State, State.{}}
use odb.Debugger.Flow.{create, on_init}
use odb.Debugger.Breakpoints.{add_breakpoint, del_breakpoint}
use odb.Debugger.BreakpointSet.{Changed, Refused, add_breakpoint_cases, del_breakpoint_cases}
use odb.Debugger.Symbols.{get_symbol_at, load_symbol}
use odb.Debugger.Frames.{Control}
use odb.Debugger.Operations.{Operation, perform, history}
use odb.Debugger.Lifecycle.{perform-Control, finished_forever}
use odb.Debugger.Invariant.{Inv}
use odb.Debugger.Invariant.Histories.{history-Inv_from_create}
use odb.Debugger.Stepping.Traces.{machines, StoppedAt}
use odb.Debugger.Stepping.Modes.{
  resumed, resume-StoppedAt, step_over-StoppedAt, step_out_in_callee, to_finish_never_stops,
}
use odb.Debugger.Scripted.{blank, vm_infos, scripted, reports, fresh, paused}

init_answers : (on_init scripted 0 fresh).0 ≡ ok tt
unfolding on_init create
init_answers = refl

abbrev started : Debugger UpdateInfos
started = (on_init scripted 0 fresh).1

-- The symbol at 40 is found, and found again from the caches.
symbol_found : (get_symbol_at scripted 40 started).0 ≡ ok 5
unfolding get_symbol_at on_init create range_of make set load_symbol find emplace_sorted
symbol_found = refl

no_symbol : (get_symbol_at scripted 41 (get_symbol_at scripted 40 started).1).0 ≡ ok vm_sym_null
unfolding get_symbol_at on_init create range_of make set load_symbol find emplace_sorted
no_symbol = refl

-- A call, an instruction of the callee, and the return.
abbrev callee : List (UpdateInfos × UpdateInfos)
callee = (reports call_sub 64, reports call_sub 64) ∷ (reports ok_ins 68, reports ok_ins 68) ∷ []

resume-StoppedAt_example :
    StoppedAt
      (reports ok_ins 100)
      (100 ∷ [])
      3
      (resumed scripted 0 continue (machines callee ++ (reports ok_ins 100 ∷ [])) paused)
unfolding create contains
resume-StoppedAt_example =
    resume-StoppedAt scripted 0 continue paused callee (reports ok_ins 100) (reports ok_ins 100)
      refl refl ((refl, tt), omega arith, refl, ((refl, tt), omega arith, refl, tt)) (omega arith)
      (refl, tt) refl

step_over-StoppedAt_example :
    StoppedAt
      (reports ret_sub 20)
      (100 ∷ [])
      2
      (resumed scripted 0 step_over (machines callee ++ (reports ret_sub 20 ∷ [])) paused)
unfolding create contains
step_over-StoppedAt_example =
    step_over-StoppedAt scripted 0 paused callee (reports ret_sub 20) (reports ret_sub 20) refl
      (omega arith) ((refl, tt), omega arith, refl, ((refl, tt), omega arith, refl, tt)) (refl, tt)
      (inl (omega arith))

step_out_in_callee_example :
    StoppedAt
      (reports ret_sub 20)
      (100 ∷ [])
      2
      (resumed scripted 0 step_out (reports call_sub 64 ∷ reports ret_sub 20 ∷ []) paused)
unfolding create contains
step_out_in_callee_example =
    step_out_in_callee scripted 0 paused (reports call_sub 64) (reports ret_sub 20) 64 20 refl
      (omega arith) refl refl refl

to_finish_never_stops_example :
    let r = resumed scripted 0 to_finish (machines callee) paused in
    (r.0 ≡ ok tt) × (r.1.state ≡ State.running_tofinish) × (length r.1.call_stack ≡ 3)
unfolding create
to_finish_never_stops_example =
    to_finish_never_stops scripted 0 paused callee refl
      ((refl, tt), omega arith, ((refl, tt), omega arith, tt))

abbrev session : List Operation
session =
    Operation.on_update
    ∷ Operation.add_breakpoint 100
    ∷ Operation.resume step
    ∷ Operation.get_symbol_at 40
    ∷ Operation.del_breakpoint 100
    ∷ []

finished_forever_example :
    (history scripted 0 blank session (record paused { state = State.exit })).state ≡ State.exit
unfolding create
finished_forever_example =
    finished_forever scripted 0 blank session (record paused { state = State.exit }) refl

perform-Control_example :
    Control paused (perform scripted 0 blank (Operation.get_symbol_at 40) paused)
perform-Control_example = perform-Control scripted 0 blank (Operation.get_symbol_at 40) paused tt

history-Inv_from_create_example : Inv (history scripted 0 blank session started)
history-Inv_from_create_example =
    history-Inv_from_create scripted 0 blank (reports ok_ins 8) vm_infos 0 0 session init_answers

add_breakpoint_cases_example :
    ((40 < 1024)
      × (contains 40 (100 ∷ []) ≡ false)
      × Changed paused (λ a. a == 40 || contains a (100 ∷ [])) (add_breakpoint 40 paused))
    ⊎ (((1024 ≤ 40) ⊎ (contains 40 (100 ∷ []) ≡ true)) × Refused paused (add_breakpoint 40 paused))
unfolding create
add_breakpoint_cases_example = add_breakpoint_cases 40 paused

del_breakpoint_cases_example :
    ((100 < 1024)
      × (contains 100 (100 ∷ []) ≡ true)
      × Changed paused (λ a. not (a == 100) && contains a (100 ∷ [])) (del_breakpoint 100 paused))
    ⊎ (((1024 ≤ 100) ⊎ (contains 100 (100 ∷ []) ≡ false))
        × Refused paused (del_breakpoint 100 paused))
unfolding create
del_breakpoint_cases_example = del_breakpoint_cases 100 paused
