-- ===== src/DbClientImplData/Loopback.antt =====
-- src/client/db-client-impl-data.cc with src/server/data-client-handler.cc: a connection that hands each
-- request to the handler of a debugger and the response back. A server that stops at a fault answers
-- nothing, and what comes back is one buffer for each request.
use odb.Prelude.{
  true, false, [], length, ◌^◌, ◌<◌, ◌≡◌, refl, sym, Option, none, some, arith, append_nil,
}
use odb.Prelude.Results.{Str, Result, ok, throws, fails, text}
use odb.Types.{RegInfos, DbClientUpdate}
use odb.VmApi.{VmApi}
use odb.Serial.{SerialOutBuff, SerialInBuff, in_buff}
use odb.Serial.Raw.{Begins, at_end}
use odb.Serial.Formats.{serialize_string, unserialize_string}
use odb.Serial.Sequences.{string-ReadsBack}
use odb.Serial.ReqTypes.{ReqType, req_type, IsReqType, req_type_byte, req_type_read_back}
use odb.RequestHandler.{Preparation}
use odb.RequestHandler.Passes.{Passes}
use odb.RequestHandler.ServSend
use odb.RequestHandler.CliRecv
use odb.Debugger.{Debugger, Method}
use odb.DataClientHandler.{serve, catch_error, run_case, run_command, what}
use odb.DbClientImplData.{
  AbstractDataClient, send_req, send_request, receive_response, send_or_throw, recv_or_throw,
  read_response, handle_err,
}

pub record Link (Vm : Type 0) : Type 0 where
  pub db : Debugger Vm
  pub response : Option SerialOutBuff

abbrev pub idle : {Vm : Type 0} → Debugger Vm → Link Vm
idle d = record { db = d; response = none }

abbrev pub sent_back : {Vm : Type 0} → Result SerialOutBuff × Debugger Vm → Link Vm
sent_back (ok os, d) = record { db = d; response = some os }
sent_back (throws e, d) = idle d
sent_back (fails x, d) = idle d

-- What a client sees of a call that ended on the server.
abbrev pub seen : {Vm R A : Type 0} → (R → A) → Result R × Debugger Vm → Result A × Link Vm
seen f (ok a, d) = (ok (f a), idle d)
seen f (throws e, d) = (throws (what e), idle d)
seen f (fails x, d) = (throws (text "Failed to receive response from DB server"), idle d)

-- The types of the requests that a client sends.
abbrev pub IsRequest : ReqType → Type 0
IsRequest ty = IsReqType ty × (req_type_byte ty < 100)

module _ {Vm : Type 0} (api : VmApi Vm) (blank : RegInfos) (udp : DbClientUpdate) where
  unfoldable pub loopback : AbstractDataClient (Link Vm)
  loopback = record {
    connect = λ link. (true, link);
    send_data = λ os link. (true, sent_back (run_command api blank udp (in_buff os) link.db));
    recv_data = λ link. elim link.response [
      | some os ↦ (true, in_buff os, idle link.db)
      | none ↦ (false, in_buff [], link)
    ];
  }

-- The bytes of an error.
abbrev pub err_bytes : Str → SerialOutBuff
err_bytes e = serialize_string (req_type.serialize [] ReqType.err) (what e)

module _ {Vm R : Type 0} (api : VmApi Vm) (blank : RegInfos) (udp : DbClientUpdate) (ty : ReqType)
    (p : Preparation R) {after answer_after : R → SerialOutBuff → SerialOutBuff}
    {fits answer_fits : R → R → Type 0} {merge answer_merge : R → R → R}
    (request : Passes p.cli_send p.serv_recv after fits merge)
    (response : Passes p.serv_send p.cli_recv answer_after answer_fits answer_merge) where
  -- The bytes of a request and of a response, each with its type.
  abbrev pub request_bytes : R → SerialOutBuff
  request_bytes r = after r (req_type.serialize [] ty)

  abbrev pub response_bytes : R → SerialOutBuff
  response_bytes m = answer_after m (req_type.serialize [] ty)

  -- The outcome fits the request `r` that waits for it, and is a buffer of less than 2 ^ 64 bytes.
  abbrev pub Arrives : R → Result R × Debugger Vm → Type 0
  Arrives r (ok m, d) = answer_fits m r × (length (response_bytes m) < 2 ^ 64)
  Arrives r (throws e, d) = length (err_bytes e) < 2 ^ 64
  Arrives r (fails x, d) = Unit {0}

  -- The response to a request that was served.
  abbrev pub answered : Result R × Debugger Vm → Result SerialOutBuff × Debugger Vm
  answered (ok m, d) = (ok (response_bytes m), d)
  answered (throws e, d) = (ok (err_bytes e), d)
  answered (fails x, d) = (fails x, d)

  -- A request that was served, before its errors are caught.
  abbrev pub served : Result R × Debugger Vm → Result SerialOutBuff × Debugger Vm
  served (ok m, d) = (p.serv_send m (req_type.serialize [] ty), d)
  served (throws e, d) = (throws e, d)
  served (fails x, d) = (fails x, d)

  catch_error-served :
      (r : R) (w : Result R × Debugger Vm) → Arrives r w → catch_error (served w) ≡ answered w
  unfolding catch_error ServSend.object_out
  catch_error-served r (ok m, d) h =
      let sent = response.sends m r (req_type.serialize [] ty) h.0 in ground (arith, sent)
  catch_error-served r (throws e, d) h = refl
  catch_error-served r (fails x, d) h = refl

  module _ (start : R) (work : R → Method Vm R) where
    serve_lem :
        (m : R) (d : Debugger Vm) (is is' : SerialInBuff)
        → p.serv_recv start is ≡ ok (m, is')
        → serve p start work ty is d ≡ served (work m d)
    unfolding serve
    serve_lem m d is is' got = ground (arith, got)

    -- The server reads what the client wrote, and answers with what its work on that ends in.
    pub run_command-answered :
        (r : R) (d : Debugger Vm)
        → IsRequest ty
        → ((is : SerialInBuff) → run_case api blank udp ty is ≡ serve p start work ty is)
        → fits r start
        → length (request_bytes r) < 2 ^ 64
        → Arrives r (work (merge r start) d)
        → run_command api blank udp (in_buff (request_bytes r)) d
          ≡ answered (work (merge r start) d)
    unfolding run_command
    run_command-answered r d known case fit small h =
        let os = req_type.serialize [] ty in
        let bytes = request_bytes r in
        let whole : Begins bytes bytes = ([], sym (append_nil bytes)) in
        let begins = request.begins bytes os r whole in
        let first = req_type_read_back bytes [] ReqType.connect ty known.0 begins small in
        let got = request.receives r start bytes os fit whole small in
        let m = merge r start in
        let done = serve_lem m d (at_end bytes os) (at_end bytes bytes) got in
        rw (first, case (at_end bytes os), done) (catch_error-served r (work m d) h)

  read_response-lem :
      {Net : Type 0} (dc : AbstractDataClient Net) (r m : R) (is is' : SerialInBuff) (net : Net)
      → IsRequest ty
      → p.cli_recv r is ≡ ok (m, is')
      → read_response dc ty p r ty is net ≡ (ok m, net)
  unfolding read_response
  read_response-lem dc r m is is' net known got = ground (arith, got, known.1)

  read_response-err :
      {Net : Type 0} (dc : AbstractDataClient Net) (r : R) (e : Str) (is is' : SerialInBuff)
      (net : Net)
      → unserialize_string [] is ≡ ok (e, is')
      → read_response dc ty p r ReqType.err is net ≡ (throws e, net)
  unfolding read_response handle_err CliRecv.object_out
  read_response-err dc r e is is' net got = rw got refl

  -- The client reads what was answered.
  receive_response-answered :
      (r : R) (w : Result R × Debugger Vm)
      → IsRequest ty
      → Arrives r w
      → receive_response (loopback api blank udp) ty p r (sent_back (answered w))
        ≡ seen (λ m. answer_merge m r) w
  unfolding receive_response recv_or_throw loopback
  receive_response-answered r (ok m, d) known h =
      let os = req_type.serialize [] ty in
      let bytes = response_bytes m in
      let whole : Begins bytes bytes = ([], sym (append_nil bytes)) in
      let begins = response.begins bytes os m whole in
      let first = req_type_read_back bytes [] ReqType.connect ty known.0 begins h.1 in
      let got = response.receives m r bytes os h.0 whole h.1 in
      rw first (
        read_response-lem (loopback api blank udp) r (answer_merge m r) (at_end bytes os)
          (at_end bytes bytes) (idle d) known got)
  receive_response-answered r (throws e, d) known h =
      let os = req_type.serialize [] ReqType.err in
      let bytes = err_bytes e in
      let whole : Begins bytes bytes = ([], sym (append_nil bytes)) in
      let begins = string-ReadsBack.begins bytes os (what e) whole in
      let first =
        req_type_read_back bytes [] ReqType.connect ReqType.err (omega arith, refl) begins h in
      let got = string-ReadsBack.reads bytes os [] (what e) tt whole h in
      rw first (
        read_response-err (loopback api blank udp) r (what e) (at_end bytes os) (at_end bytes bytes)
          (idle d) got)
  receive_response-answered r (fails x, d) known h = refl

  send_request-lem :
      (r : R) (d : Debugger Vm)
      → p.cli_send r (req_type.serialize [] ty) ≡ ok (request_bytes r)
      → send_request (loopback api blank udp) ty p r (idle d)
        ≡ (ok tt, sent_back (run_command api blank udp (in_buff (request_bytes r)) d))
  unfolding send_request send_or_throw loopback
  send_request-lem r d sent = rw sent refl

  -- A call of a client ends as the work of the server on its request does.
  pub send_req-seen :
      (start : R) (work : R → Method Vm R) (r : R) (d : Debugger Vm)
      → IsRequest ty
      → ((is : SerialInBuff) → run_case api blank udp ty is ≡ serve p start work ty is)
      → fits r start
      → length (request_bytes r) < 2 ^ 64
      → Arrives r (work (merge r start) d)
      → send_req (loopback api blank udp) ty p r (idle d)
        ≡ seen (λ m. answer_merge m r) (work (merge r start) d)
  unfolding send_req
  send_req-seen start work r d known case fit small h =
      let sent = send_request-lem r d (request.sends r start (req_type.serialize [] ty) fit) in
      let served = run_command-answered start work r d known case fit small h in
      rw (sent, served) (receive_response-answered r (work (merge r start) d) known h)
