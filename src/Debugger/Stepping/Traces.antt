-- ===== src/Debugger/Stepping/Traces.antt =====
-- Runs of instructions between a `resume` and the next stop.
use odb.Prelude.{ℕ, ◌≤◌, ◌≡◌, refl, true, false, List, [], ◌∷◌, ◌++◌, map, length, arith}
use odb.Prelude.Maps.{contains}
use odb.Prelude.Results.{Result, ok}
use odb.Types.{ResumeType.{}}
use odb.VmApi.{VmApi, UpdateInfos, UpdateState.{}}
use odb.Debugger.{Debugger, Method, State, pure, ◌>>◌, modify, >>=_ok, State.{stopped}}
use odb.Debugger.Flow.{on_update}
use odb.Debugger.Stepping.Moves.{is_running, IsIns, depth, should_stop, Moved, on_update-Moved}

module _ {Vm : Type 0} where
  abbrev pub depth_after : ℕ → List (Vm × UpdateInfos) → ℕ
  depth_after n [] = n
  depth_after n ((vm, u) ∷ t) = depth_after (depth n u.state) t

  abbrev pub machines : List (Vm × UpdateInfos) → List Vm
  machines = map (λ s. s.0)

  -- What a run up to the instruction `u` has done.
  pub record StoppedAt (u : UpdateInfos) (bkps : List ℕ) (n : ℕ)
      (r : Result (Unit {0}) × Debugger Vm) : Type 0 where
    pub returns : r.0 ≡ ok tt
    pub state : r.1.state ≡ stopped
    pub at_addr : r.1.ins_addr ≡ u.act_addr
    pub deep : length r.1.call_stack ≡ n
    pub same_breakpts : r.1.breakpts ≡ bkps

  -- The debugger `d` in the terms of a trace.
  pub record Enters (d : Debugger Vm) (st : State) (over : ℕ) (bkps : List ℕ) (n : ℕ) : Type 0 where
    pub mode : d.state ≡ st
    pub from_depth : d.step_over_depth ≡ over
    pub breakpts : d.breakpts ≡ bkps
    pub deep : length d.call_stack ≡ n

module _ {Vm : Type 0} (api : VmApi Vm) where
  -- The machine at `vm` reports `u`, which neither ended nor broke the program.
  abbrev pub Reports : Vm × UpdateInfos → Type 0
  Reports (vm, u) = ((api.get_update_infos vm).0 ≡ ok u) × IsIns u.state

  -- Instructions behind which a debugger in the mode `st` does not stop, from the depth `n` on.
  abbrev pub Quiet : State → ℕ → List ℕ → ℕ → List (Vm × UpdateInfos) → Type 0
  Quiet st over bkps n [] = Unit {0}
  Quiet st over bkps n ((vm, u) ∷ t) =
      Reports (vm, u)
      × (1 ≤ n)
      × (should_stop st over (depth n u.state) u.state (contains u.act_addr bkps) ≡ false)
      × Quiet st over bkps (depth n u.state) t

module _ {Vm : Type 0} (api : VmApi Vm) (garbage : ℕ) where
  -- The machine executes an instruction, which takes it to `vm`, and calls `on_update`; and so on.
  pub executed : List Vm → Method Vm (Unit {0})
  executed [] = pure tt
  executed (vm ∷ vms) = do modify (λ d. record d { vm = vm }); on_update api garbage; executed vms

  module _ (st : State) (over : ℕ) (bkps : List ℕ) (running : is_running st ≡ true) where
    pub last_step :
        (d : Debugger Vm) (n : ℕ) (vm : Vm) (u : UpdateInfos)
        → Enters d st over bkps n
        → 1 ≤ n
        → Reports api (vm, u)
        → Moved (record d { vm = vm }) u (on_update api garbage (record d { vm = vm }))
    last_step d n vm u en deep rep =
        on_update-Moved api garbage u (record d { vm = vm }) (ground (arith, en))
          (ground (arith, en)) rep.0 rep.1

    pub runs_until :
        (d : Debugger Vm) (n : ℕ) (t : List (Vm × UpdateInfos)) (vm : Vm) (u : UpdateInfos)
        → Enters d st over bkps n
        → Quiet api st over bkps n t
        → 1 ≤ depth_after n t
        → Reports api (vm, u)
        → should_stop st over (depth (depth_after n t) u.state) u.state (contains u.act_addr bkps)
          ≡ true
        → StoppedAt u bkps (depth (depth_after n t) u.state) (executed (machines t ++ (vm ∷ [])) d)
    unfolding executed
    runs_until d n [] vm u en q deep rep stop =
        let m = last_step d n vm u en deep rep in
        let d_vm : Debugger Vm = record d { vm = vm } in
        rw (>>=_ok (on_update api garbage) (λ _. executed []) d_vm m.returns)
          (ground (arith, m, en))
    runs_until d n ((vm', u') ∷ t) vm u en q deep rep stop =
        let m = last_step d n vm' u' en q.1 q.0 in
        let d_vm : Debugger Vm = record d { vm = vm' } in
        rw (>>=_ok (on_update api garbage) (λ _. executed (machines t ++ (vm ∷ []))) d_vm m.returns)
          (runs_until (on_update api garbage d_vm).1 (depth n u'.state) t vm u
            (ground (arith, m, en, q.2)) q.3 deep rep stop)

    -- A debugger stays in its mode along instructions behind which it does not stop.
    pub runs_on :
        (d : Debugger Vm) (n : ℕ) (t : List (Vm × UpdateInfos))
        → Enters d st over bkps n
        → Quiet api st over bkps n t
        → ((executed (machines t) d).0 ≡ ok tt)
          × Enters (executed (machines t) d).1 st over bkps (depth_after n t)
    unfolding executed
    runs_on d n [] en q = (refl, en)
    runs_on d n ((vm, u) ∷ t) en q =
        let m = last_step d n vm u en q.1 q.0 in
        let d_vm : Debugger Vm = record d { vm = vm } in
        rw (>>=_ok (on_update api garbage) (λ _. executed (machines t)) d_vm m.returns) (
          runs_on (on_update api garbage d_vm).1 (depth n u.state) t (ground (arith, m, en, q.2))
            q.3)
