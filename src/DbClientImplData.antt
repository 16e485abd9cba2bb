-- ===== src/DbClientImplData.antt =====
-- src/client/db-client-impl-data.cc: `DBClientImplData`, which sends the calls of a client to the server as
-- requests, and waits for the responses. The connection is an `AbstractDataClient`: a parameter, whose
-- methods may change it and may fail. An array and its length are a list; what a call gives back in
-- arrays of its caller comes back as the result, so the arrays that it is given are those of the result
-- before the call.
pub mod Calls
pub mod Loopback
pub mod Outcomes
pub mod RemoteWrites
pub mod RemoteReads
pub mod RemoteMoves
pub mod RemoteQueries
mod Tests
use odb.Prelude.{
  ℕ, Bool, true, false, List, [], ◌∷◌, length, ◌%◌, ◌^◌, ltb, ◌==◌, if◌then◌else◌, ◌||◌,
}
use odb.Prelude.Results.{Str, Result, ok, throws, fails, Fault.{undefined}, text}
use odb.Prelude.Results
use odb.Types.{RegInfos, SymbolInfos, VmInfos, DbClientUpdate, ResumeType}
use odb.Serial.{SerialOutBuff, SerialInBuff}
use odb.Serial.ReqTypes.{ReqType, req_type, req_type_byte}
use odb.RequestHandler.{Preparation, client_write_request, client_read_response}
use odb.Requests
use odb.Requests.Structs.{ReqErr}

-- include/odb/client/abstract-data-client.hh: whether each call succeeded, and the buffer that was
-- received.
pub record AbstractDataClient (Net : Type 0) : Type 0 where
  pub connect : Net → Bool × Net
  pub send_data : SerialOutBuff → Net → Bool × Net
  pub recv_data : Net → Bool × SerialInBuff × Net

abbrev pub Remote : Type 0 → Type 0 → Type 0
Remote Net A = Net → Result A × Net

module _ {Net : Type 0} where
  abbrev pub then_do : {A B : Type 0} → Result A × Net → (A → Remote Net B) → Result B × Net
  then_do (ok a, net) f = f a net
  then_do (throws e, net) f = (throws e, net)
  then_do (fails x, net) f = (fails x, net)

  infixl 5 ◌>>=◌ ◌>>◌
  abbrev pub ◌>>=◌ : {A B : Type 0} → Remote Net A → (A → Remote Net B) → Remote Net B
  ◌>>=◌ m f net = then_do (m net) f

  abbrev pub ◌>>◌ : {B : Type 0} → Remote Net (Unit {0}) → Remote Net B → Remote Net B
  m >> k = m >>= λ _. k

  abbrev pub pure : {A : Type 0} → A → Remote Net A
  pure a net = (ok a, net)

  abbrev pub lift : {A : Type 0} → Result A → Remote Net A
  lift r net = (r, net)

  -- `if (!done) throw VMApi::Error(e)`.
  abbrev pub or_throw : Bool → Str → Remote Net (Unit {0})
  or_throw true e net = (ok tt, net)
  or_throw false e net = (throws e, net)

  abbrev pub throw : {A : Type 0} → Str → Remote Net A
  throw e net = (throws e, net)

-- `handle_err`, which always throws or fails.
unfoldable pub handle_err : {Net A : Type 0} → SerialInBuff → Remote Net A
handle_err is = do
  (err, is') ← lift (client_read_response false Requests.prepare_err is (record { msg = [] }))
  throw err.msg

module _ {Net : Type 0} (dc : AbstractDataClient Net) where
  -- `DBClientImplData_Internal::connect`.
  unfoldable pub connect_dc : Remote Net (Unit {0})
  connect_dc net =
      let (done, net') = dc.connect net in
      or_throw done (text "Failed to connect to DB server") net'

  -- `send_data` and `recv_data`, with the errors of `send_req`.
  unfoldable pub send_or_throw : SerialOutBuff → Remote Net (Unit {0})
  send_or_throw os net =
      let (done, net') = dc.send_data os net in
      or_throw done (text "Failed to send request to DB server") net'

  unfoldable pub recv_or_throw : Remote Net SerialInBuff
  recv_or_throw net =
      let (done, is, net') = dc.recv_data net in
      (or_throw done (text "Failed to receive response from DB server") >>= λ _. pure is) net'

  -- The end of `send_req`, behind the type of the response.
  unfoldable pub read_response :
      {R : Type 0} → ReqType → Preparation R → R → ReqType → SerialInBuff → Remote Net R
  unfolding handle_err
  read_response sent prepare req res_ty is = do
    let matching = req_type_byte res_ty == req_type_byte sent
    let rest = do
      lift (Results.assert matching)
      (req', is') ← lift (client_read_response false prepare is req)
      pure req'
    if req_type_byte res_ty == req_type_byte ReqType.err then handle_err is else rest

  -- The first and the second half of `send_req`, with `T::REQ_TYPE` and with `prepare_request` at `T`.
  unfoldable pub send_request : {R : Type 0} → ReqType → Preparation R → R → Remote Net (Unit {0})
  unfolding send_or_throw
  send_request sent prepare req = do
    os ← lift (client_write_request false prepare (req_type.serialize [] sent) req)
    send_or_throw os

  unfoldable pub receive_response : {R : Type 0} → ReqType → Preparation R → R → Remote Net R
  unfolding recv_or_throw read_response
  receive_response sent prepare req = do
    is ← recv_or_throw
    (res_ty, is') ← lift (req_type.unserialize ReqType.connect is)
    read_response sent prepare req res_ty is'

  unfoldable pub send_req : {R : Type 0} → ReqType → Preparation R → R → Remote Net R
  unfolding send_request receive_response
  send_req sent prepare req = do send_request sent prepare req; receive_response sent prepare req
