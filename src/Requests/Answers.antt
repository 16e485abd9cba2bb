-- ===== src/Requests/Answers.antt =====
-- src/mess/request.cc: the responses to the requests of Arrivals arrive in the request of the client.
use odb.Prelude.{◌≡◌, sym, ◌∙◌, length}
use odb.Types.{ResumeType.{}}
use odb.Serial.Structs.{serialize_update, symbol_infos, db_client_update}
use odb.Serial.Sequences.{All}
use odb.Serial.RoundTrips.{IsSymbol, symbol_infos-ReadsBack, IsUpdate, db_client_update-ReadsBack}
use odb.RequestHandler.Fields.{field, sends_nothing, reads_nothing}
use odb.RequestHandler.ReadBack.{sizes_of, joined}
use odb.Serial.Formats.{serialize_items}
use odb.RequestHandler.Passes.{Passes, both-Passes, nothing-Passes, Passes-when}
use odb.RequestHandler.ResponsePasses.{
  object_out-Passes, buffer_out-Passes, buffer_2dvar_out-Passes,
}
use odb.Requests.Structs.{
  ReqWriteMemVar, ReqReadMemVar, ReqAddBkps, ReqResume, ReqCheckStopped, ReqGetSymsByNames,
}
use odb.Requests.{
  char, prepare_write_mem_var, prepare_read_mem_var, prepare_add_bkps, prepare_resume,
  prepare_check_stopped, prepare_get_syms_by_names,
}
use odb.Requests.Arrivals.{char-ReadsBack, Byte}

module _ {R : Type 0} where
  quiet : Passes {R = R} sends_nothing reads_nothing (λ r os. os) (λ r s. Unit {0}) (λ r s. s)
  quiet = nothing-Passes

pub write_mem_var-response :
    Passes prepare_write_mem_var.serv_send prepare_write_mem_var.cli_recv
      (λ (r : ReqWriteMemVar) os. os)
      (λ (r s : ReqWriteMemVar). Unit {0})
      (λ r s. s)
write_mem_var-response =
    Passes-when (λ r s h. (tt, (tt, (tt, tt))))
      (both-Passes quiet (both-Passes quiet (both-Passes quiet quiet)))

pub read_mem_var-response :
    Passes prepare_read_mem_var.serv_send prepare_read_mem_var.cli_recv
      (λ (r : ReqReadMemVar) os. serialize_items char os (joined r.out_bufs))
      (λ (r s : ReqReadMemVar).
        (s.nbufs ≡ r.nbufs)
        × (s.in_bufs_size ≡ r.in_bufs_size)
        × (length r.in_bufs_size ≡ r.nbufs)
        × (sizes_of s.out_bufs ≡ r.in_bufs_size)
        × (sizes_of r.out_bufs ≡ r.in_bufs_size)
        × All (All Byte) r.out_bufs)
      (λ r s. record s { out_bufs = r.out_bufs })
read_mem_var-response =
    Passes-when
      (λ r s (n, e, len, room, got, bytes). (tt, (tt, (tt, (got, len, room ∙ sym e, n, e, bytes)))))
      (both-Passes quiet (
        both-Passes quiet (
          both-Passes quiet (
            buffer_2dvar_out-Passes char Byte char-ReadsBack
              (field (λ r. r.out_bufs) (λ x r. record r { out_bufs = x })) (λ r. r.nbufs)
              (λ r. r.in_bufs_size)))))

pub add_bkps-response :
    Passes prepare_add_bkps.serv_send prepare_add_bkps.cli_recv
      (λ (r : ReqAddBkps) os. os)
      (λ (r s : ReqAddBkps). Unit {0})
      (λ r s. s)
add_bkps-response = Passes-when (λ r s h. (tt, tt)) (both-Passes quiet quiet)

pub resume-response :
    Passes prepare_resume.serv_send prepare_resume.cli_recv
      (λ (r : ReqResume) os. os)
      (λ (r s : ReqResume). Unit {0})
      (λ r s. s)
resume-response = quiet

pub get_syms_by_names-response :
    Passes prepare_get_syms_by_names.serv_send prepare_get_syms_by_names.cli_recv
      (λ (r : ReqGetSymsByNames) os. serialize_items symbol_infos os r.out_infos)
      (λ (r s : ReqGetSymsByNames).
        (s.nsyms ≡ r.nsyms)
        × (length s.out_infos ≡ s.nsyms)
        × (length r.out_infos ≡ r.nsyms)
        × All IsSymbol r.out_infos)
      (λ r s. record s { out_infos = r.out_infos })
get_syms_by_names-response =
    Passes-when (λ r s (n, room, got, syms). (tt, (tt, (got, room, n, syms))))
      (both-Passes quiet (
        both-Passes quiet (
          buffer_out-Passes symbol_infos IsSymbol symbol_infos-ReadsBack
            (field (λ r. r.out_infos) (λ x r. record r { out_infos = x })) (λ r. r.nsyms))))

pub check_stopped-response :
    Passes prepare_check_stopped.serv_send prepare_check_stopped.cli_recv
      (λ (r : ReqCheckStopped) os. serialize_update os r.out_udp)
      (λ (r s : ReqCheckStopped). IsUpdate r.out_udp)
      (λ r s. r)
check_stopped-response =
    object_out-Passes db_client_update IsUpdate db_client_update-ReadsBack
      (field (λ r. r.out_udp) (λ x r. record r { out_udp = x }))
