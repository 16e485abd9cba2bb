-- ===== src/Debugger/Stepping/Modes.antt =====
-- What each way to resume the program promises.
use odb.Prelude.{
  ℕ, suc, ◌-◌, ◌≤◌, ◌<◌, ◌≡◌, refl, true, false, List, [], ◌∷◌, ◌++◌, ◌⊎◌, length, arith, sym, ap,
  ◌∙◌,
}
use mathlib.Core.Path.{subst}
use odb.Prelude.Maps.{contains}
use odb.Prelude.Results.{Result, ok}
use odb.Types.{ResumeType, ResumeType.{to_finish, step_over, step_out}}
use odb.VmApi.{VmApi, UpdateInfos, UpdateState.{call_sub, ret_sub}}
use odb.Debugger.{Debugger, Method, ◌>>◌, >>=_ok, State.{running_tofinish, running_step_over}}
use odb.Debugger.Flow.{resume, is_finished, run_as}
use odb.Debugger.Stepping.Moves.{is_running, depth, should_stop}
use odb.Debugger.Stepping.Traces.{
  executed, Reports, Quiet, depth_after, machines, StoppedAt, Enters, runs_until, runs_on,
}

module _ {Vm : Type 0} where
  resume_ok :
      (type : ResumeType) (d : Debugger Vm)
      → is_finished d.state ≡ false
      → resume type d ≡ (ok tt, run_as type d)
  unfolding resume
  resume_ok type d h = ground (arith, h)

  run_as-Enters :
      (type : ResumeType) (d : Debugger Vm)
      → Enters
          (run_as type d)
          (run_as type d).state
          (run_as type d).step_over_depth
          d.breakpts
          (length d.call_stack)
  run_as-Enters type d = ground arith

module _ {Vm : Type 0} (api : VmApi Vm) where
  -- Instructions in front of which the call stack is not empty.
  abbrev pub Deep : ℕ → List (Vm × UpdateInfos) → Type 0
  Deep n [] = Unit {0}
  Deep n ((vm, u) ∷ t) = Reports api (vm, u) × (1 ≤ n) × Deep (depth n u.state) t

  Deep-Quiet :
      (over : ℕ) (bkps : List ℕ) (n : ℕ) (t : List (Vm × UpdateInfos))
      → Deep n t
      → Quiet api running_tofinish over bkps n t
  Deep-Quiet over bkps n [] h = tt
  Deep-Quiet over bkps n ((vm, u) ∷ t) h =
      (h.0, h.1, refl, Deep-Quiet over bkps (depth n u.state) t h.2)

  -- Instructions that stay above the depth `k` and away from the breakpoints.
  abbrev pub Above : List ℕ → ℕ → ℕ → List (Vm × UpdateInfos) → Type 0
  Above bkps k n [] = Unit {0}
  Above bkps k n ((vm, u) ∷ t) =
      Reports api (vm, u)
      × (k < depth n u.state)
      × (contains u.act_addr bkps ≡ false)
      × Above bkps k (depth n u.state) t

  Above-Quiet :
      (bkps : List ℕ) (k n : ℕ) (t : List (Vm × UpdateInfos))
      → 1 ≤ n
      → k ≤ n
      → Above bkps k n t
      → Quiet api running_step_over k bkps n t × (k ≤ depth_after n t) × (1 ≤ depth_after n t)
  Above-Quiet bkps k n [] one le a = (tt, le, one)
  Above-Quiet bkps k n ((vm, u) ∷ t) one le a =
      let rest =
        Above-Quiet bkps k (depth n u.state) t (omega (arith, a.1)) (omega (arith, a.1)) a.3 in
      ((a.0, one, ground (arith, a.1, a.2), rest.0), rest.1, rest.2)

module _ {Vm : Type 0} (api : VmApi Vm) (garbage : ℕ) where
  -- `resume`, and the instructions that the machine then executes.
  pub resumed : ResumeType → List Vm → Method Vm (Unit {0})
  resumed type vms = do resume type; executed api garbage vms

  resumed_lem :
      (type : ResumeType) (vms : List Vm) (d : Debugger Vm)
      (P : Result (Unit {0}) × Debugger Vm → Type 0)
      → is_finished d.state ≡ false
      → P (executed api garbage vms (run_as type d))
      → P (resumed type vms d)
  unfolding resumed
  resumed_lem type vms d P alive h = subst P (sym (start ∙ next)) h
    where
      start : resumed type vms d ≡ executed api garbage vms (resume type d).1
      start =
          >>=_ok (resume type) (λ _. executed api garbage vms) d
            (ap (λ r. r.0) (resume_ok type d alive))

      next : executed api garbage vms (resume type d).1 ≡ executed api garbage vms (run_as type d)
      next = ap (λ r. executed api garbage vms r.1) (resume_ok type d alive)

  -- Each mode that runs, from a program that has not finished: past instructions that neither end
  -- nor break it, in front of which the call stack is not empty and behind which the mode does not
  -- stop, the program is STOPPED behind the first such instruction at which the mode stops. Then the
  -- next instruction is the one that the machine reported, the depth of the call stack is the one
  -- that the calls and returns give, and the breakpoints are the same.
  pub resume-StoppedAt :
      (type : ResumeType) (d : Debugger Vm) (t : List (Vm × UpdateInfos)) (vm : Vm)
      (u : UpdateInfos)
      → is_finished d.state ≡ false
      → is_running (run_as type d).state ≡ true
      → Quiet api
          (run_as type d).state
          (run_as type d).step_over_depth
          d.breakpts
          (length d.call_stack)
          t
      → 1 ≤ depth_after (length d.call_stack) t
      → Reports api (vm, u)
      → should_stop
          (run_as type d).state
          (run_as type d).step_over_depth
          (depth (depth_after (length d.call_stack) t) u.state)
          u.state
          (contains u.act_addr d.breakpts)
        ≡ true
      → StoppedAt u d.breakpts
          (depth (depth_after (length d.call_stack) t) u.state)
          (resumed type (machines t ++ (vm ∷ [])) d)
  unfolding resumed
  resume-StoppedAt type d t vm u alive run q deep rep stop =
      resumed_lem type (machines t ++ (vm ∷ [])) d
        (λ r. StoppedAt u d.breakpts (depth (depth_after (length d.call_stack) t) u.state) r) alive
        (runs_until api garbage (run_as type d).state (run_as type d).step_over_depth d.breakpts run
          (run_as type d) (length d.call_stack) t vm u (run_as-Enters type d) q deep rep stop)

  -- Step over, from a program that has not finished and whose call stack is not empty: past
  -- instructions that neither end nor break it, while the call stack is deeper than it was and no
  -- breakpoint is met, the program runs on; it is STOPPED behind the first one after which the call
  -- stack is at most as deep as it was, or that has a breakpoint behind it.
  pub step_over-StoppedAt :
      (d : Debugger Vm) (t : List (Vm × UpdateInfos)) (vm : Vm) (u : UpdateInfos)
      → is_finished d.state ≡ false
      → 1 ≤ length d.call_stack
      → Above api d.breakpts (length d.call_stack) (length d.call_stack) t
      → Reports api (vm, u)
      → (depth (depth_after (length d.call_stack) t) u.state ≤ length d.call_stack)
        ⊎ (contains u.act_addr d.breakpts ≡ true)
      → StoppedAt u d.breakpts
          (depth (depth_after (length d.call_stack) t) u.state)
          (resumed step_over (machines t ++ (vm ∷ [])) d)
  step_over-StoppedAt d t vm u alive one above rep last =
      let k = length d.call_stack in
      let (quiet, _, deep) = Above-Quiet api d.breakpts k k t one (omega arith) above in
      resume-StoppedAt step_over d t vm u alive refl quiet deep rep (ground (arith, last))

  -- Step out stops behind the first return, of whichever subroutine. From a program that has not
  -- finished and whose call stack is not empty, where the next two instructions are a call of a
  -- subroutine with no breakpoint at its entry, and a return from it, the program is STOPPED in the
  -- subroutine that it was to leave, with the call stack as deep as it was.
  pub step_out_in_callee :
      (d : Debugger Vm) (vm_call vm_ret : Vm) (callee back : ℕ)
      → is_finished d.state ≡ false
      → 1 ≤ length d.call_stack
      → (api.get_update_infos vm_call).0 ≡ ok (record { state = call_sub; act_addr = callee })
      → (api.get_update_infos vm_ret).0 ≡ ok (record { state = ret_sub; act_addr = back })
      → contains callee d.breakpts ≡ false
      → StoppedAt
          (record { state = ret_sub; act_addr = back })
          d.breakpts
          (length d.call_stack)
          (resumed step_out (vm_call ∷ vm_ret ∷ []) d)
  step_out_in_callee d vm_call vm_ret callee back alive one calls returns free =
      let same : suc (length d.call_stack) - 1 ≡ length d.call_stack = omega arith in
      subst
        (λ n.
          StoppedAt (record { state = ret_sub; act_addr = back }) d.breakpts n
            (resumed step_out (vm_call ∷ vm_ret ∷ []) d))
        same
        (resume-StoppedAt step_out d
          ((vm_call, record { state = call_sub; act_addr = callee }) ∷ []) vm_ret
          (record { state = ret_sub; act_addr = back }) alive refl
          ((calls, tt), one, ground (arith, free), tt) (omega arith) (returns, tt) refl)

  -- Run to the end, from a program that has not finished: no instruction that neither ends nor
  -- breaks the program stops it, whatever the breakpoints and the depth, as long as the call stack
  -- is not empty in front of each instruction; the depth of the call stack is the one that the calls
  -- and returns give.
  pub to_finish_never_stops :
      (d : Debugger Vm) (t : List (Vm × UpdateInfos))
      → is_finished d.state ≡ false
      → Deep api (length d.call_stack) t
      → let r = resumed to_finish (machines t) d in
        (r.0 ≡ ok tt)
        × (r.1.state ≡ running_tofinish)
        × (length r.1.call_stack ≡ depth_after (length d.call_stack) t)
  unfolding resumed
  to_finish_never_stops d t alive deep =
      resumed_lem to_finish (machines t) d
        (λ r.
          (r.0 ≡ ok tt)
          × (r.1.state ≡ running_tofinish)
          × (length r.1.call_stack ≡ depth_after (length d.call_stack) t))
        alive (ground (arith, rest))
    where
      rest :
          ((executed api garbage (machines t) (run_as to_finish d)).0 ≡ ok tt)
          × Enters
              (executed api garbage (machines t) (run_as to_finish d)).1
              running_tofinish
              d.step_over_depth
              d.breakpts
              (depth_after (length d.call_stack) t)
      rest =
          runs_on api garbage running_tofinish d.step_over_depth d.breakpts refl
            (run_as to_finish d) (length d.call_stack) t (run_as-Enters to_finish d)
            (Deep-Quiet api d.step_over_depth d.breakpts (length d.call_stack) t deep)
