-- ===== src/DbClientImplData/RemoteQueries.antt =====
-- src/client/db-client-impl-data.cc with src/server/data-client-handler.cc: over a connection that loses
-- nothing, a client learns where the program stands, and finds symbols by their names.
use odb.Prelude.{length-append, ◌++◌, ℕ, ◌^◌, ◌<◌, ◌≡◌, refl, List, [], length, arith, nat_eq}
use odb.Prelude.Results.{Str}
use odb.Types.{RegInfos, DbClientUpdate, SymbolInfos}
use odb.VmApi.{VmApi}
use odb.Serial.{serial_raw}
use odb.Serial.Formats.{serialize_items, byte_format}
use odb.Serial.Structs.{db_client_update, serialize_update, symbol_infos}
use odb.Serial.ReqTypes.{ReqType, req_type}
use odb.Serial.Sequences.{All}
use odb.Serial.RoundTrips.{IsUpdate, IsSymbol}
use odb.RequestHandler.CStrings.{IsCstr, cstr_bytes}
use odb.Requests
use odb.Requests.{char}
use odb.Requests.Structs.{ReqCheckStopped, ReqGetSymsByNames}
use odb.Requests.Arrivals.{U16, get_syms_by_names-request, check_stopped-request}
use odb.Requests.Answers.{get_syms_by_names-response, check_stopped-response}
use odb.Debugger.{Debugger}
use odb.VmSide
use odb.DataClientHandler.{run_case}
use odb.DataClientHandler.Cases
use odb.DataClientHandler.Cases.{triples, pairs}
use odb.DbClientImplData.Calls
use odb.DbClientImplData.Loopback.{idle, seen, loopback}
use odb.DbClientImplData.Outcomes.{
  length-req_type, Reportable, Reportable-map, mapped-bind, remote_lem, length-serial_raw,
}

names-length :
    (n : ℕ) (bytes : List ℕ)
    → length bytes < 2 ^ 16
    → length (
        serial_raw 2
          (serial_raw 2 (req_type.serialize [] ReqType.get_syms_by_names) n)
          (length bytes)
        ++ bytes)
      < 2 ^ 64
names-length n bytes small =
    let os0 = req_type.serialize [] ReqType.get_syms_by_names in
    let os1 = serial_raw 2 os0 n in
    omega (
      arith,
      length-req_type ReqType.get_syms_by_names,
      length-serial_raw 2 os0 n,
      length-serial_raw 2 os1 (length bytes),
      length-append (serial_raw 2 os1 (length bytes)) bytes,
    )

-- The symbols for `n` names: their numbers fit their types, and a buffer can hold them.
abbrev pub AreSymbols : ℕ → List SymbolInfos → Type 0
AreSymbols n infos =
    (length infos ≡ n)
    × All IsSymbol infos
    × (length (serialize_items symbol_infos (req_type.serialize [] ReqType.get_syms_by_names) infos)
        < 2 ^ 64)

-- An update whose numbers fit their types, and that a buffer can hold.
abbrev pub IsSentUpdate : DbClientUpdate → Type 0
IsSentUpdate udp =
    IsUpdate udp
    × (length (serialize_update (req_type.serialize [] ReqType.check_stopped) udp) < 2 ^ 64)

module _ {Vm : Type 0} (api : VmApi Vm) (blank : RegInfos) (udp : DbClientUpdate) where
  -- A client that asks the server for the symbols of `n` names, of which the texts take fewer than 2 ^ 16
  -- bytes, gets what the server's own call gives, in place of what its array held: with its errors as C
  -- strings, and a message for a server that died.
  pub get_symbols_by_names-seen :
      (names : List Str) (out_infos : List SymbolInfos) (n : ℕ) (d : Debugger Vm)
      → U16 n
      → length names ≡ n
      → All IsCstr names
      → length (cstr_bytes names) < 2 ^ 16
      → length out_infos ≡ n
      → Reportable (AreSymbols n) (VmSide.get_symbols_by_names api names d)
      → Calls.get_symbols_by_names (loopback api blank udp) names out_infos n (idle d)
        ≡ seen (λ infos. infos) (VmSide.get_symbols_by_names api names d)
  unfolding Calls.get_symbols_by_names run_case Cases.get_syms_by_names byte_format
  get_symbols_by_names-seen names out_infos n d small len strs text_len room fine =
      let r : ReqGetSymsByNames = record { nsyms = n; in_names = names; out_infos = out_infos } in
      let answer = λ (infos : List SymbolInfos). record r { out_infos = infos } in
      let cut : Calls.u16_of n ≡ n = omega (arith, small) in
      let m = VmSide.get_symbols_by_names api names in
      let works = mapped-bind m answer d in
      rw cut (
        remote_lem api blank udp ReqType.get_syms_by_names Requests.prepare_get_syms_by_names
          get_syms_by_names-request get_syms_by_names-response
          (record { nsyms = 0; in_names = []; out_infos = [] }) (Cases.get_syms_by_names api) m
          answer (λ r. r.out_infos) r d ((omega arith, refl), omega arith) (λ is. refl) works
          (small, len, strs, text_len) (names-length n (cstr_bytes names) text_len)
          (Reportable-map (m d) (λ infos h. ((refl, room, h.0, h.1), h.2)) fine))

  -- A client that asks the server where the program stands gets the state, the address and the call stack
  -- that the server's own call gives, over the update `udp` of the server's request.
  pub check_stopped-seen :
      (d : Debugger Vm)
      → Reportable IsSentUpdate (VmSide.check_stopped udp d)
      → Calls.check_stopped (loopback api blank udp) (idle d)
        ≡ seen (λ update. update) (VmSide.check_stopped udp d)
  unfolding Calls.check_stopped run_case Cases.check_stopped byte_format
  check_stopped-seen d fine =
      let r : ReqCheckStopped = record { out_udp = db_client_update.blank } in
      let answer : DbClientUpdate → ReqCheckStopped = λ update. record { out_udp = update } in
      let m = VmSide.check_stopped udp in
      let works = mapped-bind m answer d in
      remote_lem api blank udp ReqType.check_stopped Requests.prepare_check_stopped
        check_stopped-request check_stopped-response (record { out_udp = udp }) Cases.check_stopped
        m answer (λ r. r.out_udp) r d ((omega arith, refl), omega arith) (λ is. refl) works tt
        (omega arith) (Reportable-map (m d) (λ update h. h) fine)
