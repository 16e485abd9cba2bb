-- ===== src/VmSide/Tests.antt =====
-- Requests to a debugger on a scripted machine, and the theorems at concrete inputs.
use odb.Prelude.{nat_eq, ◌≡◌, refl, inl, List, [], ◌∷◌, false, arith}
use odb.Prelude.Results.{Str, ok, throws, text}
use odb.Prelude.Maps.{contains}
use odb.Types.{DbClientUpdate, StoppedState.{ready}, ResumeType.{step}}
use odb.Debugger.{State}
use odb.Debugger.Flow.{create}
use odb.Debugger.Frames.{Control}
use odb.Debugger.Memory
use odb.RangeMap.{make}
use odb.RangeMap.Set.{make-IsValid}
use odb.Debugger.Invariant.{Inv}
use odb.Debugger.Scripted.{blank, scripted, paused}
use odb.VmSide.{connect, get_code_text, add_breakpoints}
use odb.VmSide.Requests.{Request, serve, serve_all}
use odb.VmSide.Updates.{Tells, connect-Tells}
use odb.VmSide.Histories.{serve_all-Inv, serve-Control, finished_for_clients}
use odb.VmSide.Batches.{with_all, add_breakpoints_all, add_breakpoints_stops}

abbrev unset : DbClientUpdate
unset = record { vm_state = ready; stopped = false; addr = 0; stack = [] }

-- Three instructions of four bytes, from 16 on.
three_lines :
    (get_code_text scripted 16 3 paused).0
    ≡ ok ((text "nop", 4) ∷ (text "nop", 4) ∷ (text "nop", 4) ∷ [])
unfolding get_code_text Memory.get_code_text
three_lines = refl

connect-Tells_example :
    (udp : DbClientUpdate) × (connect unset paused ≡ (ok (paused.infos, udp), paused))
    × Tells paused unset udp
connect-Tells_example = connect-Tells unset paused

abbrev session : List Request
session =
    Request.connect unset
    ∷ Request.add_breakpoints (40 ∷ 2000 ∷ 44 ∷ [])
    ∷ Request.get_regs (0 ∷ [])
    ∷ Request.read_mem ((16, 4) ∷ [])
    ∷ Request.resume step
    ∷ []

paused-Inv : Inv paused
unfolding create make contains
paused-Inv = record {
  started = refl;
  ranges = record {
    map = make 0 1023 0;
    there = refl;
    valid = (make-IsValid 0 1023 0 (omega arith)).0;
    bottom = refl;
    top = refl;
  };
  in_memory = λ a h. ground (arith, h);
}

serve_all-Inv_example : Inv (serve_all scripted blank session paused)
serve_all-Inv_example = serve_all-Inv scripted 0 blank session paused paused-Inv

access_of_paused : Control paused (serve scripted blank (Request.get_symbols_by_addr 0 100) paused)
access_of_paused = serve-Control scripted 0 blank (Request.get_symbols_by_addr 0 100) paused tt

session_of_failed :
    (serve_all scripted blank session (record paused { state = State.error })).state ≡ State.error
session_of_failed =
    finished_for_clients scripted 0 blank session (record paused { state = State.error }) refl

add_breakpoints_all_example :
    add_breakpoints (40 ∷ 44 ∷ []) paused ≡ (ok tt, with_all (40 ∷ 44 ∷ []) paused)
unfolding create contains
add_breakpoints_all_example =
    add_breakpoints_all (40 ∷ 44 ∷ []) paused (omega arith, refl, (omega arith, refl, tt))

add_breakpoints_stops_example :
    (e : Str) × (add_breakpoints (40 ∷ 2000 ∷ 44 ∷ []) paused
      ≡ (throws e, with_all (40 ∷ []) paused))
unfolding create contains
add_breakpoints_stops_example =
    add_breakpoints_stops (40 ∷ []) 2000 (44 ∷ []) paused (omega arith, refl, tt)
      (inl (omega arith))
