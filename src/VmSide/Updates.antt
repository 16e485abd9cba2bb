-- ===== src/VmSide/Updates.antt =====
-- src/server/db-client-impl-vmside.cc: `check_stopped` and `connect`, which only look.
use odb.Prelude.{◌≡◌, ◌⊎◌, inl, inr, Bool-cases, true, false, arith}
use odb.Prelude.Results.{ok}
use odb.Types.{DbClientUpdate, StoppedState, StoppedState.{ready}}
use odb.Debugger.{Debugger, State, State.{}}
use odb.Debugger.Flow.{is_finished}
use odb.Debugger.Memory.{get_execution_point}
use odb.Debugger.Stepping.{is_running}
use odb.VmSide.{check_stopped, connect, stopped_state_of}

-- What an update tells of a debugger.
abbrev pub Tells : {Vm : Type 0} → Debugger Vm → DbClientUpdate → DbClientUpdate → Type 0
Tells d old udp =
    ((is_running d.state ≡ true) × (udp ≡ record old { stopped = false }))
    ⊎ ((is_running d.state ≡ false)
        × (udp.stopped ≡ true)
        × (udp.addr ≡ d.ins_addr)
        × (udp.stack ≡ d.call_stack)
        × (((udp.vm_state ≡ ready) × (is_finished d.state ≡ false))
            ⊎ (((udp.vm_state ≡ StoppedState.exit) × (d.state ≡ State.exit))
                ⊎ ((udp.vm_state ≡ StoppedState.error) × (d.state ≡ State.error)))))

module _ {Vm : Type 0} where
  -- `connect` returns and leaves the debugger as it is. It answers with the static data of the machine
  -- and an update: while the program runs, it tells only that; otherwise it tells the address of the next
  -- instruction, the whole call stack, and whether the program can go on, has exited or has failed.
  pub connect-Tells :
      (old : DbClientUpdate) (d : Debugger Vm)
      → (udp : DbClientUpdate) × (connect old d ≡ (ok (d.infos, udp), d)) × Tells d old udp
  unfolding connect check_stopped get_execution_point
  connect-Tells old d = elim (Bool-cases (is_running d.state)) [
    | inl runs ↦ (record old { stopped = false }, ground (arith, runs), ground (arith, runs))
    | inr stands ↦ (
      record {
        vm_state = stopped_state_of d.state;
        stopped = true;
        addr = d.ins_addr;
        stack = d.call_stack;
      },
      ground (arith, stands),
      ground (arith, stands),
    )
  ]
