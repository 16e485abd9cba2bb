-- ===== src/DataClientHandler/Runner.antt =====
-- src/server/data-client-handler.cc: `DataClientServerRunner`, which receives requests and sends responses on
-- a thread of its own, and the thread of the VM, which answers them. The two share the atomics `_state` and
-- `_stop` and the two buffers. A step of the model is one access to an atomic, or one call of the connection;
-- the threads take their steps in any order. The VM thread also reads and writes the buffers in its steps. Left
-- out are the state of the handler itself, and `setup_connection`, which starts the runner and later only loads
-- its state.
use odb.Prelude.{ℕ, Bool, true, false, List, [], ◌∷◌, if◌then◌else◌}
use odb.Serial.{SerialOutBuff}

pub data State : Type 0 where
  connecting no_req sending_res has_req error : State

-- Where the thread of the runner stands in `loop`: before `connect`, before the store of `NO_REQ` behind it, at
-- the test of the outer `while`, before `recv_data`, before the store of `HAS_REQ`, at the two loads of the
-- inner `while`, at the test behind it, at the assertion, before `send_data`, before the store of `NO_REQ`, in
-- `stop` before each of its stores, and behind the end.
pub data Point : Type 0 where
  to_connect connected outer to_receive received waiting looking woken to_check to_send sent to_stop
        to_error finished :
      Point

-- Where the VM thread stands: outside of the calls of the handler, in `run_command` before each load of the
-- test of its `while`, in `check_stopped` before its first load, in both before the test for `ERROR`, at the
-- assertions of `get_req` and of `get_res`, at the request, which ends with the assertion of `signal_res`, and
-- in `signal_res` before its store.
pub data VmThread : Type 0 where
  elsewhere seeking not_found peeking testing getting_req getting_res serving signalling : VmThread

-- `requests` and `responses` are what was received and sent so far, and `answered` what the VM thread found in
-- `_in` and wrote to `_out`, the last one first: they are not in the source.
pub record Runner : Type 0 where
  pub state : State
  pub stop : Bool
  pub req : List ℕ
  pub res : SerialOutBuff
  pub point : Point
  pub vm : VmThread
  pub requests : List (List ℕ)
  pub responses : List SerialOutBuff
  pub answered : List (List ℕ × SerialOutBuff)

-- What happens next: a step of the runner, with what the connection does in it, or one of the VM thread, which
-- calls `run_command` or `check_stopped`, loads the state, answers the request, or stores the state.
pub data Event : Type 0 where
  run : Event
  loses : Event
  connects sends : Bool → Event
  receives : List ℕ → Event
  commands checks loads signals : Event
  answers : SerialOutBuff → Event

-- A step that cannot be taken now, a failed assertion, or the next state.
pub data Step : Type 0 where
  blocked failed : Step
  next : Runner → Step

-- `start`, when the thread begins.
abbrev pub start : Runner
start = record {
  state = State.connecting;
  stop = false;
  req = [];
  res = [];
  point = Point.to_connect;
  vm = VmThread.elsewhere;
  requests = [];
  responses = [];
  answered = [];
}

abbrev pub is_has_req : State → Bool
is_has_req State.has_req = true
is_has_req _ = false

abbrev pub is_error : State → Bool
is_error State.error = true
is_error _ = false

abbrev pub is_sending_res : State → Bool
is_sending_res State.sending_res = true
is_sending_res _ = false

-- A step of `loop` that calls nothing, at each point.
unfoldable pub advance : Point → Runner → Step
advance Point.connected r = next (record r { state = State.no_req; point = Point.outer })
advance Point.outer r =
    if r.stop
    then next (record r { point = Point.finished })
    else next (record r { point = Point.to_receive })
advance Point.received r = next (record r { state = State.has_req; point = Point.waiting })
advance Point.waiting r =
    if r.stop
    then next (record r { point = Point.woken })
    else next (record r { point = Point.looking })
advance Point.looking r =
    if is_has_req r.state
    then next (record r { point = Point.waiting })
    else next (record r { point = Point.woken })
advance Point.woken r =
    if r.stop
    then next (record r { point = Point.finished })
    else next (record r { point = Point.to_check })
advance Point.to_check r =
    if is_sending_res r.state then next (record r { point = Point.to_send }) else failed
advance Point.sent r = next (record r { state = State.no_req; point = Point.outer })
advance Point.to_stop r = next (record r { stop = true; point = Point.to_error })
advance Point.to_error r = next (record r { state = State.error; point = Point.finished })
advance _ r = blocked

-- The calls of the connection.
unfoldable pub on_connect : Bool → Point → Runner → Step
on_connect true Point.to_connect r = next (record r { point = Point.connected })
on_connect false Point.to_connect r = next (record r { point = Point.to_stop })
on_connect done _ r = blocked

unfoldable pub on_receive : List ℕ → Point → Runner → Step
on_receive bytes Point.to_receive r =
    next (record r { req = bytes; requests = bytes ∷ r.requests; point = Point.received })
on_receive bytes _ r = blocked

unfoldable pub on_lose : Point → Runner → Step
on_lose Point.to_receive r = next (record r { point = Point.to_stop })
on_lose _ r = blocked

unfoldable pub on_send : Bool → Point → Runner → Step
on_send true Point.to_send r =
    next (record r { responses = r.res ∷ r.responses; point = Point.sent })
on_send false Point.to_send r = next (record r { point = Point.to_stop })
on_send done _ r = blocked

-- A call of `run_command` or of `check_stopped` begins.
unfoldable pub on_call : VmThread → VmThread → Runner → Step
on_call inside VmThread.elsewhere r = next (record r { vm = inside })
on_call inside _ r = blocked

-- A load of the state by the VM thread, up to where it turns to the request. In state `ERROR` both calls return,
-- with the client disconnected.
unfoldable pub on_load : VmThread → Runner → Step
on_load VmThread.seeking r =
    if is_has_req r.state
    then next (record r { vm = VmThread.testing })
    else next (record r { vm = VmThread.not_found })
on_load VmThread.not_found r =
    if is_error r.state
    then next (record r { vm = VmThread.testing })
    else next (record r { vm = VmThread.seeking })
on_load VmThread.peeking r =
    if is_has_req r.state
    then next (record r { vm = VmThread.testing })
    else next (record r { vm = VmThread.elsewhere })
on_load VmThread.testing r =
    if is_error r.state
    then next (record r { vm = VmThread.elsewhere })
    else next (record r { vm = VmThread.getting_req })
on_load VmThread.getting_req r =
    if is_has_req r.state then next (record r { vm = VmThread.getting_res }) else failed
on_load VmThread.getting_res r =
    if is_has_req r.state then next (record r { vm = VmThread.serving }) else failed
on_load _ r = blocked

-- The response is written, and `signal_res` loads the state for its assertion.
unfoldable pub on_answer : SerialOutBuff → VmThread → Runner → Step
on_answer os VmThread.serving r =
    if is_has_req r.state
    then next (record r { res = os; vm = VmThread.signalling; answered = (r.req, os) ∷ r.answered })
    else failed
on_answer os _ r = blocked

unfoldable pub on_signal : VmThread → Runner → Step
on_signal VmThread.signalling r =
    next (record r { state = State.sending_res; vm = VmThread.elsewhere })
on_signal _ r = blocked

unfoldable pub step : Event → Runner → Step
unfolding advance on_connect on_receive on_lose on_send on_call on_load on_answer on_signal
step Event.run r = advance r.point r
step (Event.connects done) r = on_connect done r.point r
step (Event.receives bytes) r = on_receive bytes r.point r
step Event.loses r = on_lose r.point r
step (Event.sends done) r = on_send done r.point r
step Event.commands r = on_call VmThread.seeking r.vm r
step Event.checks r = on_call VmThread.peeking r.vm r
step Event.loads r = on_load r.vm r
step (Event.answers os) r = on_answer os r.vm r
step Event.signals r = on_signal r.vm r
