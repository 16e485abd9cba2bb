-- ===== src/DataClientHandler/RunnerSafety.antt =====
-- src/server/data-client-handler.cc: the two threads of `DataClientServerRunner` hand each request over and
-- each response back, in any order of their steps.
use odb.Prelude.{ℕ, Bool, true, false, ◌≡◌, refl, List, [], ◌∷◌, ◌⊎◌, arith}
use odb.Prelude.{◌≢◌, ◌++◌}
use mathlib.Core.Path.{subst}
use odb.Serial.{SerialOutBuff}
use odb.DataClientHandler.Runner.{
  State, Point, VmThread, Runner, Event, Step, start, step, advance, on_connect, on_receive,
  on_lose, on_send, on_call, on_load, on_answer, on_signal,
}

-- A sequence of steps from one state to another, the last one first.
pub data Reach : Runner → Type 0 where
  begins : Reach start
  later : {r r' : Runner} (e : Event) → Reach r → step e r ≡ Step.next r' → Reach r'

abbrev pub asked : List (List ℕ × SerialOutBuff) → List (List ℕ)
asked [] = []
asked ((req, res) ∷ rest) = req ∷ asked rest

abbrev pub replied : List (List ℕ × SerialOutBuff) → List SerialOutBuff
replied [] = []
replied ((req, res) ∷ rest) = res ∷ replied rest

-- All that was received is answered, and all answers are sent; the last request is not answered; the last
-- answer is not sent.
abbrev pub Settled : Runner → Type 0
Settled r = (asked r.answered ≡ r.requests) × (replied r.answered ≡ r.responses)

abbrev pub Owed : Runner → Type 0
Owed r = (r.req ∷ asked r.answered ≡ r.requests) × (replied r.answered ≡ r.responses)

abbrev pub Written : Runner → Type 0
Written r = (asked r.answered ≡ r.requests) × (replied r.answered ≡ r.res ∷ r.responses)

abbrev pub Ended : Runner → Type 0
Ended r = Settled r ⊎ Written r

-- What the VM thread holds: a request that it has found, or a response that it has written. In state `ERROR`
-- it has found none.
pub data Holding : Type 0 where
  nothing request response : Holding

abbrev pub holding : VmThread → State → Holding
holding VmThread.elsewhere st = Holding.nothing
holding VmThread.seeking st = Holding.nothing
holding VmThread.not_found st = Holding.nothing
holding VmThread.peeking st = Holding.nothing
holding VmThread.testing State.error = Holding.nothing
holding VmThread.signalling st = Holding.response
holding _ st = Holding.request

-- What holds at each point of the runner, with what the VM thread holds and the atomics as they are.
abbrev pub Phase : Point → Holding → State → Bool → Runner → Type 0
Phase Point.to_connect Holding.nothing State.connecting false r = Settled r
Phase Point.connected Holding.nothing State.connecting false r = Settled r
Phase Point.outer Holding.nothing State.no_req false r = Settled r
Phase Point.to_receive Holding.nothing State.no_req false r = Settled r
Phase Point.received Holding.nothing State.no_req false r = Owed r
Phase Point.waiting Holding.nothing State.has_req false r = Owed r
Phase Point.waiting Holding.request State.has_req false r = Owed r
Phase Point.waiting Holding.response State.has_req false r = Written r
Phase Point.waiting Holding.nothing State.sending_res false r = Written r
Phase Point.looking Holding.nothing State.has_req false r = Owed r
Phase Point.looking Holding.request State.has_req false r = Owed r
Phase Point.looking Holding.response State.has_req false r = Written r
Phase Point.looking Holding.nothing State.sending_res false r = Written r
Phase Point.woken Holding.nothing State.sending_res false r = Written r
Phase Point.to_check Holding.nothing State.sending_res false r = Written r
Phase Point.to_send Holding.nothing State.sending_res false r = Written r
Phase Point.sent Holding.nothing State.sending_res false r = Settled r
Phase Point.to_stop Holding.nothing State.connecting false r = Settled r
Phase Point.to_stop Holding.nothing State.no_req false r = Settled r
Phase Point.to_stop Holding.nothing State.sending_res false r = Written r
Phase Point.to_error Holding.nothing State.connecting true r = Settled r
Phase Point.to_error Holding.nothing State.no_req true r = Settled r
Phase Point.to_error Holding.nothing State.sending_res true r = Written r
Phase Point.finished Holding.nothing State.error true r = Ended r
Phase _ _ _ _ r = ⊥

abbrev pub Inv : Runner → Type 0
Inv r = Phase r.point (holding r.vm r.state) r.state r.stop r

-- A step from a state of the invariant keeps it, and fails no assertion.
abbrev pub Keeps : Step → Type 0
Keeps Step.blocked = Unit {0}
Keeps Step.failed = ⊥
Keeps (Step.next r) = Inv r

step-Keeps : (e : Event) (r : Runner) → Inv r → Keeps (step e r)
unfolding step advance on_connect on_receive on_lose on_send on_call on_load on_answer on_signal
step-Keeps Event.run r h = ground arith
step-Keeps Event.loses r h = ground arith
step-Keeps (Event.connects done) r h = ground arith
step-Keeps (Event.sends done) r h = ground arith
step-Keeps (Event.receives bytes) r h = ground arith
step-Keeps Event.commands r h = ground arith
step-Keeps Event.checks r h = ground arith
step-Keeps Event.loads r h = ground arith
step-Keeps Event.signals r h = ground arith
step-Keeps (Event.answers os) r h = ground arith

Reach-Inv : {r : Runner} → Reach r → Inv r
Reach-Inv Reach.begins = (refl, refl)
Reach-Inv (Reach.later {r} {r'} e reach taken) =
    subst Keeps taken (step-Keeps e r (Reach-Inv reach))

-- In no order of the steps of the two threads does an assertion of `DataClientServerRunner` fail: not that of
-- `loop`, and not those of `get_req`, `get_res` and `signal_res`, which the VM thread calls.
pub no_assertion_fails : (r : Runner) (e : Event) → Reach r → step e r ≢ Step.failed
no_assertion_fails r e reach failure = subst Keeps failure (step-Keeps e r (Reach-Inv reach))

-- From `get_req` to the end of `signal_res`.
abbrev pub is_busy : VmThread → Bool
is_busy VmThread.getting_req = true
is_busy VmThread.getting_res = true
is_busy VmThread.serving = true
is_busy VmThread.signalling = true
is_busy _ = false

abbrev pub is_waiting : Point → Bool
is_waiting Point.waiting = true
is_waiting Point.looking = true
is_waiting _ = false

busy_lem :
    (r : Runner)
    → Inv r
    → is_busy r.vm ≡ true
    → (is_waiting r.point ≡ true) × (r.state ≡ State.has_req) × (r.stop ≡ false)
busy_lem r h busy = ground arith

-- While the VM thread reads and writes the buffers, the runner is in its inner loop, which touches neither,
-- the state is `HAS_REQ` and the runner is not stopped.
pub buffers_have_one_owner :
    (r : Runner)
    → Reach r
    → is_busy r.vm ≡ true
    → (is_waiting r.point ≡ true) × (r.state ≡ State.has_req) × (r.stop ≡ false)
buffers_have_one_owner r reach busy = busy_lem r (Reach-Inv reach) busy

abbrev pub Paired : Runner → Type 0
Paired r =
    ((asked r.answered ≡ r.requests) ⊎ (r.req ∷ asked r.answered ≡ r.requests))
    × ((replied r.answered ≡ r.responses) ⊎ (replied r.answered ≡ r.res ∷ r.responses))

Inv-Paired : (r : Runner) → Inv r → Paired r
Inv-Paired r h = ground arith

-- Each request that was received was answered, in the order of the requests, but for the last one, which may
-- still wait; and each response that was sent is what the VM thread wrote for its request, in that order,
-- but for the last one, which may not be sent yet.
pub responses-Paired : (r : Runner) → Reach r → Paired r
responses-Paired r reach = Inv-Paired r (Reach-Inv reach)

-- Events one after the other, as far as they can be taken.
unfoldable pub steps : List Event → Runner → Step
unfolding step
steps [] r = Step.next r
steps (e ∷ es) r = elim (step e r) [
  | Step.next r' ↦ steps es r'
  | Step.failed ↦ Step.failed
  | Step.blocked ↦ Step.blocked
]

abbrev pub HasSent : Step → SerialOutBuff → List SerialOutBuff → Type 0
HasSent (Step.next r) os old = (r.responses ≡ os ∷ old) × (r.point ≡ Point.sent)
HasSent _ os old = ⊥

-- The steps of the VM thread up to the test for `ERROR` in a call that finds the state `HAS_REQ`, from where it
-- stands.
abbrev pub finds : VmThread → List Event
finds VmThread.elsewhere = Event.commands ∷ Event.loads ∷ []
finds VmThread.seeking = Event.loads ∷ []
finds VmThread.not_found = Event.loads ∷ Event.loads ∷ []
finds VmThread.peeking = Event.loads ∷ []
finds _ = []

-- The steps by which a request is answered: the runner publishes it, the VM thread finds it, answers and
-- signals, and the runner wakes and sends.
abbrev pub exchange : VmThread → SerialOutBuff → List Event
exchange vm os =
    Event.run ∷ finds vm
    ++ Event.loads
      ∷ Event.loads
      ∷ Event.loads
      ∷ Event.answers os
      ∷ Event.signals
      ∷ Event.run
      ∷ Event.run
      ∷ Event.run
      ∷ Event.run
      ∷ Event.sends true
      ∷ []

abbrev has_nothing : VmThread → Bool
has_nothing VmThread.elsewhere = true
has_nothing VmThread.seeking = true
has_nothing VmThread.not_found = true
has_nothing VmThread.peeking = true
has_nothing _ = false

received_lem :
    (r : Runner) → Inv r → r.point ≡ Point.received → (has_nothing r.vm ≡ true) × (r.stop ≡ false)
received_lem r h here = ground arith

exchange_sends :
    (r : Runner) (vm : VmThread) (os : SerialOutBuff)
    → r.vm ≡ vm
    → has_nothing vm ≡ true
    → r.point ≡ Point.received
    → r.stop ≡ false
    → HasSent (steps (exchange vm os) r) os r.responses
unfolding steps step advance on_call on_load on_answer on_signal on_send
exchange_sends r VmThread.elsewhere os at idle here on = ground (arith, at, here, on)
exchange_sends r VmThread.seeking os at idle here on = ground (arith, at, here, on)
exchange_sends r VmThread.not_found os at idle here on = ground (arith, at, here, on)
exchange_sends r VmThread.peeking os at idle here on = ground (arith, at, here, on)
exchange_sends r VmThread.testing os at idle here on = absurd (ground arith)
exchange_sends r VmThread.getting_req os at idle here on = absurd (ground arith)
exchange_sends r VmThread.getting_res os at idle here on = absurd (ground arith)
exchange_sends r VmThread.serving os at idle here on = absurd (ground arith)
exchange_sends r VmThread.signalling os at idle here on = absurd (ground arith)

-- No step of the exchange is blocked in a state in which the runner has received a request, wherever the VM
-- thread stands: taken one after the other they send the response that the VM thread gives, whatever it is.
pub request_can_be_answered :
    (r : Runner) (os : SerialOutBuff)
    → Reach r
    → r.point ≡ Point.received
    → HasSent (steps (exchange r.vm os) r) os r.responses
request_can_be_answered r os reach here =
    let free = received_lem r (Reach-Inv reach) here in
    exchange_sends r r.vm os refl free.0 here free.1
