-- ===== src/DataClientHandler/Tests.antt =====
-- Requests that the handler of a scripted machine refuses.
use odb.Prelude.{ℕ, List, ◌++◌, true, false, ◌≢◌, refl, ◌≡◌, [], ◌∷◌, arith}
use odb.Prelude.Results.{ok, fails, Fault.{undefined}, text}
use odb.Debugger.Scripted.{blank, scripted, sevens, paused}
use odb.Serial.{in_buff, SerialInBuff, unserial_raw}
use odb.Serial.Formats.{byte_format}
use odb.RequestHandler.ServRecv
use odb.Serial.Structs.{db_client_update}
use odb.DataClientHandler.{run_command, check_stopped}
use odb.Debugger.Memory
use odb.VmSide
use odb.Requests
use odb.RequestHandler.{server_read_request}
use odb.Serial.ReqTypes.{ReqType, req_type}
use odb.DataClientHandler.Refusals.{
  error_response, run_command-bad, check_stopped-refuses, read_mem_of_three, write_mem_of_three,
  no_reads, no_writes,
}
use odb.DataClientHandler.Runner.{
  State, Point, VmThread, Runner, Event, Step, start, step, advance, on_connect, on_receive,
  on_call, on_load,
}
use odb.DataClientHandler.RunnerSafety.{
  Reach, no_assertion_fails, buffers_have_one_owner, responses-Paired, request_can_be_answered,
  is_waiting, Paired, HasSent, steps, exchange,
}
use odb.Requests.Structs.{ReqReadMem, ReqWriteMem}

run_command-bad_example :
    run_command scripted blank db_client_update.blank (in_buff (77 ∷ 1 ∷ [])) paused
    ≡ (ok (error_response (text "Bad API request")), paused)
run_command-bad_example =
    run_command-bad scripted blank db_client_update.blank 77 (1 ∷ []) paused (omega arith)
      (omega arith) (omega arith)

check_stopped-refuses_example :
    check_stopped db_client_update.blank (in_buff (19 ∷ 1 ∷ [])) paused ≡ (
      ok (error_response (text "Only stop and check stopped request can be sent while VM running")),
      paused,
    )
check_stopped-refuses_example =
    check_stopped-refuses db_client_update.blank 19 (1 ∷ []) paused (omega arith) (omega arith)
      (omega arith) (omega arith)

-- A number below 256 in 64 bits.
abbrev wide : ℕ → List ℕ
wide n = n ∷ 0 ∷ 0 ∷ 0 ∷ 0 ∷ 0 ∷ 0 ∷ 0 ∷ []

-- Three blocks of one byte, at 8, 9 and 10.
abbrev three_reads : List ℕ
three_reads = 9 ∷ 3 ∷ 0 ∷ wide 1 ++ wide 8 ++ wide 9 ++ wide 10

abbrev three_writes : List ℕ
three_writes = 11 ∷ 3 ∷ 0 ∷ wide 1 ++ wide 8 ++ wide 9 ++ wide 10 ++ 5 ∷ 6 ∷ 7 ∷ []

abbrev reads : ReqReadMem
reads = record {
  nbufs = 3;
  buf_size = 1;
  in_addrs = 8 ∷ 9 ∷ 10 ∷ [];
  out_bufs = (0 ∷ []) ∷ (0 ∷ []) ∷ (0 ∷ []) ∷ [];
}

abbrev writes : ReqWriteMem
writes = record {
  nbufs = 3;
  buf_size = 1;
  in_addrs = 8 ∷ 9 ∷ 10 ∷ [];
  in_bufs = (5 ∷ []) ∷ (6 ∷ []) ∷ (7 ∷ []) ∷ [];
}

-- The buffer at a position.
abbrev at_pos : List ℕ → ℕ → SerialInBuff
at_pos bytes n = record { data_bytes = bytes; pos = n }

reads_arrive :
    server_read_request true Requests.prepare_read_mem (at_pos three_reads 1) no_reads
    ≡ ok (reads, at_pos three_reads 35)
unfolding ServRecv.object_in unserial_raw ServRecv.buffer_in ServRecv.buffer_2d_out
reads_arrive = refl

writes_arrive :
    server_read_request true Requests.prepare_write_mem (at_pos three_writes 1) no_writes
    ≡ ok (writes, at_pos three_writes 38)
unfolding ServRecv.object_in unserial_raw ServRecv.buffer_in ServRecv.buffer_2d_in
writes_arrive = refl

reads_typed :
    req_type.unserialize ReqType.connect (in_buff three_reads)
    ≡ ok (ReqType.read_mem, at_pos three_reads 1)
unfolding byte_format
reads_typed = refl

writes_typed :
    req_type.unserialize ReqType.connect (in_buff three_writes)
    ≡ ok (ReqType.write_mem, at_pos three_writes 1)
unfolding byte_format
writes_typed = refl

read_mem_of_three_example :
    run_command sevens blank db_client_update.blank (in_buff three_reads) paused
    ≡ (fails undefined, paused)
unfolding VmSide.read_mem Memory.read_mem
read_mem_of_three_example =
    read_mem_of_three sevens blank db_client_update.blank (in_buff three_reads)
      (at_pos three_reads 1) (at_pos three_reads 35) reads 8 9 (10 ∷ []) paused reads_typed
      reads_arrive (omega arith) refl

write_mem_of_three_example :
    run_command sevens blank db_client_update.blank (in_buff three_writes) paused
    ≡ (fails undefined, paused)
unfolding VmSide.write_mem Memory.write_mem
write_mem_of_three_example =
    write_mem_of_three sevens blank db_client_update.blank (in_buff three_writes)
      (at_pos three_writes 1) (at_pos three_writes 38) writes 8 9 (10 ∷ []) (5 ∷ []) (6 ∷ [])
      ((7 ∷ []) ∷ []) paused writes_typed writes_arrive (omega arith) refl refl

-- A runner that has received a request, and the VM thread that has taken it.
abbrev got : Runner
got = record {
  state = State.no_req;
  stop = false;
  req = 1 ∷ [];
  res = [];
  point = Point.received;
  vm = VmThread.elsewhere;
  requests = (1 ∷ []) ∷ [];
  responses = [];
  answered = [];
}

abbrev at_point : Point → Runner
at_point p = record start { state = State.no_req; point = p }

got-Reach : Reach got
unfolding step advance on_connect on_receive
got-Reach =
    Reach.later (Event.receives (1 ∷ []))
      (Reach.later {r' = at_point Point.to_receive} Event.run
        (Reach.later {r' = at_point Point.outer} Event.run
          (Reach.later {r' = record start { point = Point.connected }} (Event.connects true)
            Reach.begins refl)
          refl)
        refl)
      refl

-- The request is published, and the VM thread stands in `run_command`.
abbrev taken_at : VmThread → Runner
taken_at vm = record got { state = State.has_req; point = Point.waiting; vm = vm }

abbrev taken : Runner
taken = taken_at VmThread.serving

loaded :
    {vm vm' : VmThread}
    → Reach (taken_at vm)
    → on_load vm (taken_at vm) ≡ Step.next (taken_at vm')
    → Reach (taken_at vm')
unfolding step
loaded reach loads = Reach.later Event.loads reach loads

taken-Reach : Reach taken
unfolding step advance on_call on_load
taken-Reach =
    loaded {vm = VmThread.getting_res}
      (loaded {vm = VmThread.getting_req}
        (loaded {vm = VmThread.testing}
          (loaded {vm = VmThread.seeking}
            (Reach.later {r' = taken_at VmThread.seeking} Event.commands
              (Reach.later {r' = taken_at VmThread.elsewhere} Event.run got-Reach refl) refl)
            refl)
          refl)
        refl)
      refl

no_assertion_fails_example : step (Event.answers (9 ∷ [])) taken ≢ Step.failed
no_assertion_fails_example = no_assertion_fails taken (Event.answers (9 ∷ [])) taken-Reach

buffers_have_one_owner_example :
    (is_waiting taken.point ≡ true) × (taken.state ≡ State.has_req) × (taken.stop ≡ false)
buffers_have_one_owner_example = buffers_have_one_owner taken taken-Reach refl

responses-Paired_example : Paired taken
responses-Paired_example = responses-Paired taken taken-Reach

request_can_be_answered_example :
    HasSent (steps (exchange VmThread.elsewhere (9 ∷ [])) got) (9 ∷ []) []
request_can_be_answered_example = request_can_be_answered got (9 ∷ []) got-Reach refl
