-- ===== src/DbClientImplData/RemoteMoves.antt =====
-- src/client/db-client-impl-data.cc with src/server/data-client-handler.cc: over a connection that loses
-- nothing, a client sets breakpoints and resumes the program, and cannot stop one that stands.
use odb.Prelude.{ℕ, ◌^◌, ◌<◌, ◌≡◌, refl, List, [], length, arith, nat_eq}
use odb.Types.{RegInfos, DbClientUpdate, ResumeType, ResumeType.{to_finish}}
use odb.VmApi.{VmApi}
use odb.Serial.{serial_raw}
use odb.Serial.Formats.{serialize_items, byte_format}
use odb.Serial.Structs.{u64}
use odb.Serial.ReqTypes.{ReqType, req_type}
use odb.Serial.RoundTrips.{U64}
use odb.Requests
use odb.Requests.{char}
use odb.Requests.Structs.{ReqAddBkps, ReqResume}
use odb.Requests.Arrivals.{U16, IsArray, IsResumeType, add_bkps-request, resume-request}
use odb.Requests.Answers.{add_bkps-response, resume-response}
use odb.Debugger.{Debugger}
use odb.VmSide
use odb.DataClientHandler.{run_case}
use odb.DataClientHandler.Cases
use odb.DataClientHandler.Cases.{triples, pairs}
use odb.DbClientImplData.Calls
use odb.DbClientImplData.Loopback.{idle, seen, loopback}
use odb.DbClientImplData.Outcomes.{
  length-req_type, Reportable, Reportable-map, mapped-bind, remote_lem, length-serial_raw,
  length-serialize_items,
}

add_bkps-length :
    (n : ℕ) (addrs : List ℕ)
    → U16 n
    → length addrs ≡ n
    → length (serialize_items u64 (serial_raw 2 (req_type.serialize [] ReqType.add_bkps) n) addrs)
      < 2 ^ 64
add_bkps-length n addrs small a =
    let os0 = req_type.serialize [] ReqType.add_bkps in
    let os1 = serial_raw 2 os0 n in
    omega (
      arith,
      length-req_type ReqType.add_bkps,
      length-serial_raw 2 os0 n,
      length-serialize_items 8 os1 addrs,
    )

module _ {Vm : Type 0} (api : VmApi Vm) (blank : RegInfos) (udp : DbClientUpdate) where
  -- A client that sets `n` breakpoints through the server, fewer than 2 ^ 16, gets what the server's own call
  -- gives, and leaves the debugger as that does: with its errors as C strings, and a message for a server
  -- that died.
  pub add_breakpoints-seen :
      (addrs : List ℕ) (n : ℕ) (d : Debugger Vm)
      → U16 n
      → IsArray U64 n addrs
      → Reportable (λ done. Unit {0}) (VmSide.add_breakpoints addrs d)
      → Calls.add_breakpoints (loopback api blank udp) addrs n (idle d)
        ≡ seen (λ done. done) (VmSide.add_breakpoints addrs d)
  unfolding Calls.add_breakpoints run_case Cases.add_bkps byte_format
  add_breakpoints-seen addrs n d small a fine =
      let r : ReqAddBkps = record { size = n; in_addrs = addrs } in
      let cut : Calls.u16_of n ≡ n = omega (arith, small) in
      let m = VmSide.add_breakpoints addrs in
      let works = mapped-bind m (λ done. r) d in
      rw cut (
        remote_lem api blank udp ReqType.add_bkps Requests.prepare_add_bkps add_bkps-request
          add_bkps-response (record { size = 0; in_addrs = [] }) Cases.add_bkps m (λ done. r)
          (λ r. tt) r d ((omega arith, refl), omega arith) (λ is. refl) works (small, a)
          (add_bkps-length n addrs small a.0)
          (Reportable-map (m d) (λ done h. (tt, omega arith)) fine))

  -- A client that resumes the program through the server, in any of the ways that a byte can name, gets what
  -- the server's own call gives, and leaves the debugger as that does: with its errors as C strings, and a
  -- message for a server that died.
  pub resume-seen :
      (type : ResumeType) (d : Debugger Vm)
      → IsResumeType type
      → Reportable (λ done. Unit {0}) (VmSide.resume type d)
      → Calls.resume (loopback api blank udp) type (idle d)
        ≡ seen (λ done. done) (VmSide.resume type d)
  unfolding Calls.resume run_case Cases.resume byte_format
  resume-seen type d fit fine =
      let r : ReqResume = record { type = type } in
      let m = VmSide.resume type in
      let works = mapped-bind m (λ done. r) d in
      remote_lem api blank udp ReqType.resume Requests.prepare_resume resume-request resume-response
        (record { type = to_finish }) Cases.resume m (λ done. r) (λ r. tt) r d
        ((omega arith, refl), omega arith) (λ is. refl) works fit (omega arith)
        (Reportable-map (m d) (λ done h. (tt, omega arith)) fine)
