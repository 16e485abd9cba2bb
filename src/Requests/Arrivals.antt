-- ===== src/Requests/Arrivals.antt =====
-- src/mess/request.cc: the requests that a client sends to move blocks of memory, to set
-- breakpoints, to look for symbols by their names and to resume arrive on the server as they were.
use odb.Prelude.{ℕ, ◌≡◌, ◌<◌, ◌^◌, refl, List, length, ◌++◌, replicate, arith}
use odb.Types.{ResumeType, ResumeType.{}}
use odb.Serial.{serial_raw}
use odb.Serial.Formats.{serialize_items, resume_type, resume_type_byte, byte_resume_type}
use odb.Serial.Structs.{u64, symbol_infos}
use odb.Serial.Sequences.{ReadsBack, All, raw-ReadsBack, byte_format-ReadsBack}
use odb.Serial.RoundTrips.{U64, u64-ReadsBack}
use odb.RequestHandler.Fields.{Field, field, sends_nothing, reads_nothing}
use odb.RequestHandler.CliSend
use odb.RequestHandler.ServRecv
use odb.RequestHandler.ReadBack.{sizes_of, joined}
use odb.RequestHandler.CStrings.{IsCstr, cstr_bytes}
use odb.RequestHandler.Passes.{
  Passes, both-Passes, nothing-Passes, Passes-when, object-Passes, buffer-Passes,
}
use odb.RequestHandler.ArrayPasses.{buffer_2dvar-Passes, cstrs-Passes}
use odb.RequestHandler.RoomPasses.{sum, rooms, buffer_room-Passes, buffer_2dvar_room-Passes}
use odb.Requests.Structs.{
  ReqWriteMemVar, ReqReadMemVar, ReqAddBkps, ReqResume, ReqCheckStopped, ReqGetSymsByNames,
}
use odb.Requests.{
  u16, char, prepare_write_mem_var, prepare_read_mem_var, prepare_add_bkps, prepare_resume,
  prepare_check_stopped, prepare_get_syms_by_names,
}

abbrev pub U16 : ℕ → Type 0
U16 n = n < 2 ^ 16

abbrev pub Byte : ℕ → Type 0
Byte b = b < 256

u16-ReadsBack : ReadsBack u16 U16
u16-ReadsBack = record {
  begins = (raw-ReadsBack 2).begins;
  reads = λ d os old a h. (raw-ReadsBack 2).reads d os old a (omega (arith, h));
}

pub char-ReadsBack : ReadsBack char Byte
char-ReadsBack = record {
  begins = (raw-ReadsBack 1).begins;
  reads = λ d os old a h. (raw-ReadsBack 1).reads d os old a (omega (arith, h));
}

-- An array of `n` numbers that fit their type.
abbrev pub IsArray : (ℕ → Type 0) → ℕ → List ℕ → Type 0
IsArray fits n xs = (length xs ≡ n) × All fits xs

-- `n` buffers of bytes with their sizes.
pub record AreBuffers (n : ℕ) (sizes : List ℕ) (bufs : List (List ℕ)) : Type 0 where
  pub count : U16 n
  pub sizes_fit : IsArray U64 n sizes
  pub as_sized : sizes_of bufs ≡ sizes
  pub together : length (joined bufs) < 2 ^ 63
  pub bytes : All (All Byte) bufs

-- The methods at the types that the requests have.
module _ {R : Type 0} where
  count_in :
      (item : Field R ℕ)
      → Passes
          (CliSend.object_in u16 item)
          (ServRecv.object_in u16 item)
          (λ r os. serial_raw 2 os (item.get r))
          (λ r s. U16 (item.get r))
          (λ r s. item.set (item.get r) s)
  count_in = object-Passes u16 U16 u16-ReadsBack

  addrs_in :
      (ptr : Field R (List ℕ)) (size : R → ℕ)
      → Passes
          (CliSend.buffer_in u64 ptr size)
          (ServRecv.buffer_in u64 ptr size)
          (λ r os. serialize_items u64 os (ptr.get r))
          (λ r s. (length (ptr.get r) ≡ size r) × (size s ≡ size r) × All U64 (ptr.get r))
          (λ r s. ptr.set (ptr.get r) s)
  addrs_in = buffer-Passes u64 U64 u64-ReadsBack

  quiet : Passes {R = R} sends_nothing reads_nothing (λ r os. os) (λ r s. Unit {0}) (λ r s. s)
  quiet = nothing-Passes

pub write_mem_var-request :
    Passes prepare_write_mem_var.cli_send prepare_write_mem_var.serv_recv
      (λ (r : ReqWriteMemVar) os.
        serialize_items char
          (serialize_items u64
            (serialize_items u64 (serial_raw 2 os r.nbufs) r.in_addrs)
            r.in_bufs_size)
          (joined r.in_bufs))
      (λ (r s : ReqWriteMemVar).
        IsArray U64 r.nbufs r.in_addrs × AreBuffers r.nbufs r.in_bufs_size r.in_bufs)
      (λ r s. r)
write_mem_var-request =
    Passes-when
      (λ r s (a, b). (
        b.count,
        (
          (a.0, refl, a.1),
          (
            (b.sizes_fit.0, refl, b.sizes_fit.1),
            (b.as_sized, b.sizes_fit.0, refl, refl, omega (arith, b.together), b.bytes),
          ),
        ),
      ))
      (both-Passes (count_in (field (λ r. r.nbufs) (λ x r. record r { nbufs = x }))) (
        both-Passes
          (addrs_in (field (λ r. r.in_addrs) (λ x r. record r { in_addrs = x })) (λ r. r.nbufs))
          (both-Passes
            (addrs_in (field (λ r. r.in_bufs_size) (λ x r. record r { in_bufs_size = x }))
              (λ r. r.nbufs))
            (buffer_2dvar-Passes char Byte char-ReadsBack
              (field (λ r. r.in_bufs) (λ x r. record r { in_bufs = x })) (λ r. r.nbufs)
              (λ r. r.in_bufs_size)))))

-- The server has room for what it reads.
pub read_mem_var-request :
    Passes prepare_read_mem_var.cli_send prepare_read_mem_var.serv_recv
      (λ (r : ReqReadMemVar) os.
        serialize_items u64
          (serialize_items u64 (serial_raw 2 os r.nbufs) r.in_addrs)
          r.in_bufs_size)
      (λ (r s : ReqReadMemVar).
        U16 r.nbufs
        × IsArray U64 r.nbufs r.in_addrs
        × IsArray U64 r.nbufs r.in_bufs_size
        × (sum r.in_bufs_size < 2 ^ 64))
      (λ r s. record r { out_bufs = rooms 0 r.in_bufs_size })
read_mem_var-request =
    Passes-when (λ r s (n, a, b, small). (n, ((a.0, refl, a.1), ((b.0, refl, b.1), (b.0, small)))))
      (both-Passes (count_in (field (λ r. r.nbufs) (λ x r. record r { nbufs = x }))) (
        both-Passes
          (addrs_in (field (λ r. r.in_addrs) (λ x r. record r { in_addrs = x })) (λ r. r.nbufs))
          (both-Passes
            (addrs_in (field (λ r. r.in_bufs_size) (λ x r. record r { in_bufs_size = x }))
              (λ r. r.nbufs))
            (buffer_2dvar_room-Passes char
              (field (λ r. r.out_bufs) (λ x r. record r { out_bufs = x })) (λ r. r.nbufs)
              (λ r. r.in_bufs_size)))))

pub add_bkps-request :
    Passes prepare_add_bkps.cli_send prepare_add_bkps.serv_recv
      (λ (r : ReqAddBkps) os. serialize_items u64 (serial_raw 2 os r.size) r.in_addrs)
      (λ (r s : ReqAddBkps). U16 r.size × IsArray U64 r.size r.in_addrs)
      (λ r s. r)
add_bkps-request =
    Passes-when (λ r s (n, a). (n, (a.0, refl, a.1)))
      (both-Passes (count_in (field (λ r. r.size) (λ x r. record r { size = x })))
        (addrs_in (field (λ r. r.in_addrs) (λ x r. record r { in_addrs = x })) (λ r. r.size)))

-- A value of the enumeration, or another one that a byte holds.
abbrev pub IsResumeType : ResumeType → Type 0
IsResumeType type =
    (resume_type_byte type < 256) × (byte_resume_type (resume_type_byte type) ≡ type)

pub resume-request :
    Passes prepare_resume.cli_send prepare_resume.serv_recv
      (λ (r : ReqResume) os. resume_type.serialize os r.type)
      (λ (r s : ReqResume). IsResumeType r.type)
      (λ r s. r)
resume-request =
    object-Passes resume_type IsResumeType
      (byte_format-ReadsBack ResumeType.to_finish resume_type_byte byte_resume_type)
      (field (λ r. r.type) (λ x r. record r { type = x }))

pub get_syms_by_names-request :
    Passes prepare_get_syms_by_names.cli_send prepare_get_syms_by_names.serv_recv
      (λ (r : ReqGetSymsByNames) os.
        serial_raw 2 (serial_raw 2 os r.nsyms) (length (cstr_bytes r.in_names))
        ++ cstr_bytes r.in_names)
      (λ (r s : ReqGetSymsByNames).
        U16 r.nsyms
        × (length r.in_names ≡ r.nsyms)
        × All IsCstr r.in_names
        × (length (cstr_bytes r.in_names) < 2 ^ 16))
      (λ r s. record r { out_infos = replicate r.nsyms symbol_infos.blank })
get_syms_by_names-request =
    Passes-when (λ r s (n, len, strs, small). (n, ((len, refl, small, strs), tt)))
      (both-Passes (count_in (field (λ r. r.nsyms) (λ x r. record r { nsyms = x }))) (
        both-Passes
          (cstrs-Passes (field (λ r. r.in_names) (λ x r. record r { in_names = x })) (λ r. r.nsyms))
          (buffer_room-Passes symbol_infos
            (field (λ r. r.out_infos) (λ x r. record r { out_infos = x })) (λ r. r.nsyms))))

pub check_stopped-request :
    Passes prepare_check_stopped.cli_send prepare_check_stopped.serv_recv
      (λ (r : ReqCheckStopped) os. os)
      (λ (r s : ReqCheckStopped). Unit {0})
      (λ r s. s)
check_stopped-request = quiet
