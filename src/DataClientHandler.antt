-- ===== src/DataClientHandler.antt =====
-- src/server/data-client-handler.cc: `DataClientHandler`, from a request that was received to the response
-- that is sent: `run_command` and `check_stopped` from the line that makes the `DBClientImplVMSide` on, up
-- to `signal_res`. The thread that receives and sends is in Runner.
pub mod Cases
pub mod Refusals
pub mod Runner
pub mod RunnerSafety
mod Tests
use odb.Prelude.{ℕ, true, [], take}
use odb.Prelude.Results.{Str, Result, ok, throws, fails, text}
use odb.Types.{RegInfos, DbClientUpdate, ResumeType.{to_finish}}
use odb.VmApi.{VmApi}
use odb.Serial.{SerialOutBuff, SerialInBuff}
use odb.Serial.ReqTypes.{ReqType, req_type}
use odb.RequestHandler.{Preparation, server_read_request, server_write_response}
use odb.RequestHandler.Arrays.{strlen}
use odb.Requests
use odb.Debugger.{Debugger, Method, lift, throw, ◌>>=◌}

-- The frame of each `case`: the request is read, served and answered. `os` is empty when it starts.
unfoldable pub serve :
    {Vm R : Type 0}
    → Preparation R
    → R
    → (R → Method Vm R)
    → ReqType
    → SerialInBuff
    → Method Vm SerialOutBuff
serve prepare req work is_ty is = do
  (req, is') ← lift (server_read_request true prepare is req)
  req ← work req
  lift (server_write_response true prepare (req_type.serialize [] is_ty) req)

-- `e.what()`, which is a C string.
abbrev pub what : Str → Str
what e = take (strlen e) e

-- The `catch`: nothing was written yet when an error is thrown.
unfoldable pub catch_error :
    {Vm : Type 0} → Result SerialOutBuff × Debugger Vm → Result SerialOutBuff × Debugger Vm
unfolding strlen
catch_error (ok os, d) = (ok os, d)
catch_error (throws e, d) = (
  server_write_response true Requests.prepare_err (req_type.serialize [] ReqType.err)
      (record { msg = what e }),
  d,
)
catch_error (fails x, d) = (fails x, d)

-- `blank` is what a `RegInfos` with no initialiser holds, and `udp` a `DBClientUpdate`. The other fields of
-- a new request are written before they are read.
module _ {Vm : Type 0} (api : VmApi Vm) (blank : RegInfos) (udp : DbClientUpdate) where
  -- The `switch` of `run_command`.
  unfoldable pub run_case : ReqType → SerialInBuff → Method Vm SerialOutBuff
  unfolding serve
  run_case ReqType.connect is =
      serve Requests.prepare_connect (record { out_infos = Requests.vm_infos.blank; out_udp = udp })
        Cases.connect ReqType.connect is
  run_case ReqType.stop is = throw (text "Cannot stop already stopped program\n")
  run_case ReqType.check_stopped is =
      serve Requests.prepare_check_stopped (record { out_udp = udp }) Cases.check_stopped
        ReqType.check_stopped is
  run_case ReqType.get_regs is =
      serve Requests.prepare_get_regs (record { nregs = 0; reg_size = 0; ids = []; out_bufs = [] })
        (Cases.get_regs api blank) ReqType.get_regs is
  run_case ReqType.get_regs_var is =
      serve Requests.prepare_get_regs_var
        (record { nregs = 0; in_ids = []; in_regs_size = []; out_bufs = [] })
        (Cases.get_regs_var api blank) ReqType.get_regs_var is
  run_case ReqType.set_regs is =
      serve Requests.prepare_set_regs
        (record { nregs = 0; reg_size = 0; in_ids = []; in_bufs = [] }) (Cases.set_regs api)
        ReqType.set_regs is
  run_case ReqType.set_regs_var is =
      serve Requests.prepare_set_regs_var
        (record { nregs = 0; in_ids = []; in_regs_size = []; in_bufs = [] })
        (Cases.set_regs_var api) ReqType.set_regs_var is
  run_case ReqType.get_regs_infos is =
      serve Requests.prepare_get_regs_infos (record { nregs = 0; ids = []; out_infos = [] })
        (Cases.get_regs_infos api blank) ReqType.get_regs_infos is
  run_case ReqType.find_regs_ids is =
      serve Requests.prepare_find_regs_ids (record { nregs = 0; in_bufs = []; out_ids = [] })
        (Cases.find_regs_ids api blank) ReqType.find_regs_ids is
  run_case ReqType.read_mem is =
      serve Requests.prepare_read_mem
        (record { nbufs = 0; buf_size = 0; in_addrs = []; out_bufs = [] }) (Cases.read_mem api)
        ReqType.read_mem is
  run_case ReqType.read_mem_var is =
      serve Requests.prepare_read_mem_var
        (record { nbufs = 0; in_addrs = []; in_bufs_size = []; out_bufs = [] })
        (Cases.read_mem_var api) ReqType.read_mem_var is
  run_case ReqType.write_mem is =
      serve Requests.prepare_write_mem
        (record { nbufs = 0; buf_size = 0; in_addrs = []; in_bufs = [] }) (Cases.write_mem api)
        ReqType.write_mem is
  run_case ReqType.write_mem_var is =
      serve Requests.prepare_write_mem_var
        (record { nbufs = 0; in_addrs = []; in_bufs_size = []; in_bufs = [] })
        (Cases.write_mem_var api) ReqType.write_mem_var is
  run_case ReqType.get_syms_by_ids is =
      serve Requests.prepare_get_syms_by_ids (record { nsyms = 0; in_ids = []; out_infos = [] })
        (Cases.get_syms_by_ids api) ReqType.get_syms_by_ids is
  run_case ReqType.get_syms_by_addr is =
      serve Requests.prepare_get_syms_by_addr (record { addr = 0; size = 0; out_infos = [] })
        (Cases.get_syms_by_addr api) ReqType.get_syms_by_addr is
  run_case ReqType.get_syms_by_names is =
      serve Requests.prepare_get_syms_by_names (record { nsyms = 0; in_names = []; out_infos = [] })
        (Cases.get_syms_by_names api) ReqType.get_syms_by_names is
  run_case ReqType.get_code_text is =
      serve Requests.prepare_get_code_text
        (record { addr = 0; nins = 0; out_text = []; out_sizes = [] }) (Cases.get_code_text api)
        ReqType.get_code_text is
  run_case ReqType.add_bkps is =
      serve Requests.prepare_add_bkps (record { size = 0; in_addrs = [] }) Cases.add_bkps
        ReqType.add_bkps is
  run_case ReqType.del_bkps is =
      serve Requests.prepare_del_bkps (record { size = 0; in_addrs = [] }) Cases.del_bkps
        ReqType.del_bkps is
  run_case ReqType.resume is =
      serve Requests.prepare_resume (record { type = to_finish }) Cases.resume ReqType.resume is
  run_case ReqType.err is = throw (text "Bad API request")
  run_case (ReqType.other n) is = throw (text "Bad API request")

  unfoldable pub run_command : SerialInBuff → Method Vm SerialOutBuff
  unfolding catch_error run_case
  run_command is = do
    (is_ty, is') ← lift (req_type.unserialize ReqType.connect is)
    λ d. catch_error (run_case is_ty is' d)

module _ {Vm : Type 0} (udp : DbClientUpdate) where
  -- The `switch` of `check_stopped`.
  unfoldable pub check_case : ReqType → SerialInBuff → Method Vm SerialOutBuff
  unfolding serve
  check_case ReqType.stop is =
      serve Requests.prepare_stop (record { tag = 0 }) Cases.stop ReqType.stop is
  check_case ReqType.check_stopped is =
      serve Requests.prepare_check_stopped (record { out_udp = udp }) Cases.check_stopped
        ReqType.check_stopped is
  check_case _ is = throw (text "Only stop and check stopped request can be sent while VM running")

  unfoldable pub check_stopped : SerialInBuff → Method Vm SerialOutBuff
  unfolding catch_error check_case
  check_stopped is = do
    (is_ty, is') ← lift (req_type.unserialize ReqType.connect is)
    λ d. catch_error (check_case is_ty is' d)
