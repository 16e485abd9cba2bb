-- ===== src/Requests.antt =====
-- src/mess/request.cc: `prepare_request`, which names the fields of a request for the handler.
pub mod Structs
pub mod Arrivals
pub mod Answers
use odb.Prelude.{ℕ, false, []}
use odb.Types.{RegKind.{general}}
use odb.Serial.Formats.{Format, raw, string, vector, resume_type}
use odb.Serial.Structs.{
  u32, u64, symbol_infos, db_client_update, serialize_reg, unserialize_reg, serialize_vm,
  unserialize_vm,
}
use odb.Types.{RegInfos, VmInfos}
use odb.RequestHandler.Fields.{field}
use odb.RequestHandler.{
  Preparation, ◌>>◌, nothing, object_in, object_out, buffer_in, buffer_2d_in, buffer_2dvar_in,
  buffer_out, buffer_2d_out, buffer_2dvar_out, buffer_2d_in_cstr,
}
use odb.Requests.Structs.{
  ReqStop, ReqConnect, ReqCheckStopped, ReqGetRegs, ReqGetRegsVar, ReqSetRegs, ReqSetRegsVar,
  ReqGetRegsInfos, ReqFindRegsIds, ReqReadMem, ReqReadMemVar, ReqWriteMem, ReqWriteMemVar,
  ReqGetSymsByIds, ReqGetSymsByAddr, ReqGetSymsByNames, ReqGetCodeText, ReqAddBkps, ReqDelBkps,
  ReqResume, ReqErr,
}

-- `std::uint16_t` and `char`.
abbrev pub u16 : Format ℕ
u16 = raw 2

abbrev pub char : Format ℕ
char = raw 1

abbrev pub reg_infos : Format RegInfos
reg_infos = record {
  blank = record { idx = 0; name = []; size = 0; kind = general; val = [] };
  serialize = serialize_reg;
  unserialize = unserialize_reg;
}

abbrev pub vm_infos : Format VmInfos
vm_infos = record {
  blank = record {
    name = [];
    regs_count = 0;
    regs_general = [];
    regs_program_counter = [];
    regs_stack_pointer = [];
    regs_base_pointer = [];
    regs_flags = [];
    memory_size = 0;
    symbols_count = 0;
    pointer_size = 0;
    integer_size = 0;
    use_opcode = false;
  };
  serialize = serialize_vm;
  unserialize = unserialize_vm;
}

abbrev pub prepare_stop : Preparation ReqStop
prepare_stop = nothing

abbrev pub prepare_connect : Preparation ReqConnect
prepare_connect = do
  object_out vm_infos (field (λ r. r.out_infos) (λ x r. record r { out_infos = x }))
  object_out db_client_update (field (λ r. r.out_udp) (λ x r. record r { out_udp = x }))

abbrev pub prepare_check_stopped : Preparation ReqCheckStopped
prepare_check_stopped =
    object_out db_client_update (field (λ r. r.out_udp) (λ x r. record r { out_udp = x }))

abbrev pub prepare_get_regs : Preparation ReqGetRegs
prepare_get_regs = do
  object_in u16 (field (λ r. r.nregs) (λ x r. record r { nregs = x }))
  object_in u64 (field (λ r. r.reg_size) (λ x r. record r { reg_size = x }))
  buffer_in u32 (field (λ r. r.ids) (λ x r. record r { ids = x })) (λ r. r.nregs)
  buffer_2d_out char (field (λ r. r.out_bufs) (λ x r. record r { out_bufs = x })) (λ r. r.nregs)
      (λ r. r.reg_size)

abbrev pub prepare_get_regs_var : Preparation ReqGetRegsVar
prepare_get_regs_var = do
  object_in u16 (field (λ r. r.nregs) (λ x r. record r { nregs = x }))
  buffer_in u32 (field (λ r. r.in_ids) (λ x r. record r { in_ids = x })) (λ r. r.nregs)
  buffer_in u64 (field (λ r. r.in_regs_size) (λ x r. record r { in_regs_size = x })) (λ r. r.nregs)
  buffer_2dvar_out char (field (λ r. r.out_bufs) (λ x r. record r { out_bufs = x })) (λ r. r.nregs)
      (λ r. r.in_regs_size)

abbrev pub prepare_set_regs : Preparation ReqSetRegs
prepare_set_regs = do
  object_in u16 (field (λ r. r.nregs) (λ x r. record r { nregs = x }))
  object_in u64 (field (λ r. r.reg_size) (λ x r. record r { reg_size = x }))
  buffer_in u32 (field (λ r. r.in_ids) (λ x r. record r { in_ids = x })) (λ r. r.nregs)
  buffer_2d_in char (field (λ r. r.in_bufs) (λ x r. record r { in_bufs = x })) (λ r. r.nregs)
      (λ r. r.reg_size)

abbrev pub prepare_set_regs_var : Preparation ReqSetRegsVar
prepare_set_regs_var = do
  object_in u16 (field (λ r. r.nregs) (λ x r. record r { nregs = x }))
  buffer_in u32 (field (λ r. r.in_ids) (λ x r. record r { in_ids = x })) (λ r. r.nregs)
  buffer_in u64 (field (λ r. r.in_regs_size) (λ x r. record r { in_regs_size = x })) (λ r. r.nregs)
  buffer_2dvar_in char (field (λ r. r.in_bufs) (λ x r. record r { in_bufs = x })) (λ r. r.nregs)
      (λ r. r.in_regs_size)

abbrev pub prepare_get_regs_infos : Preparation ReqGetRegsInfos
prepare_get_regs_infos = do
  object_in u16 (field (λ r. r.nregs) (λ x r. record r { nregs = x }))
  buffer_in u32 (field (λ r. r.ids) (λ x r. record r { ids = x })) (λ r. r.nregs)
  buffer_out reg_infos (field (λ r. r.out_infos) (λ x r. record r { out_infos = x })) (λ r. r.nregs)

abbrev pub prepare_find_regs_ids : Preparation ReqFindRegsIds
prepare_find_regs_ids = do
  object_in u16 (field (λ r. r.nregs) (λ x r. record r { nregs = x }))
  buffer_2d_in_cstr (field (λ r. r.in_bufs) (λ x r. record r { in_bufs = x })) (λ r. r.nregs)
  buffer_out u32 (field (λ r. r.out_ids) (λ x r. record r { out_ids = x })) (λ r. r.nregs)

abbrev pub prepare_read_mem : Preparation ReqReadMem
prepare_read_mem = do
  object_in u16 (field (λ r. r.nbufs) (λ x r. record r { nbufs = x }))
  object_in u64 (field (λ r. r.buf_size) (λ x r. record r { buf_size = x }))
  buffer_in u64 (field (λ r. r.in_addrs) (λ x r. record r { in_addrs = x })) (λ r. r.nbufs)
  buffer_2d_out char (field (λ r. r.out_bufs) (λ x r. record r { out_bufs = x })) (λ r. r.nbufs)
      (λ r. r.buf_size)

abbrev pub prepare_read_mem_var : Preparation ReqReadMemVar
prepare_read_mem_var = do
  object_in u16 (field (λ r. r.nbufs) (λ x r. record r { nbufs = x }))
  buffer_in u64 (field (λ r. r.in_addrs) (λ x r. record r { in_addrs = x })) (λ r. r.nbufs)
  buffer_in u64 (field (λ r. r.in_bufs_size) (λ x r. record r { in_bufs_size = x })) (λ r. r.nbufs)
  buffer_2dvar_out char (field (λ r. r.out_bufs) (λ x r. record r { out_bufs = x })) (λ r. r.nbufs)
      (λ r. r.in_bufs_size)

abbrev pub prepare_write_mem : Preparation ReqWriteMem
prepare_write_mem = do
  object_in u16 (field (λ r. r.nbufs) (λ x r. record r { nbufs = x }))
  object_in u64 (field (λ r. r.buf_size) (λ x r. record r { buf_size = x }))
  buffer_in u64 (field (λ r. r.in_addrs) (λ x r. record r { in_addrs = x })) (λ r. r.nbufs)
  buffer_2d_in char (field (λ r. r.in_bufs) (λ x r. record r { in_bufs = x })) (λ r. r.nbufs)
      (λ r. r.buf_size)

abbrev pub prepare_write_mem_var : Preparation ReqWriteMemVar
prepare_write_mem_var = do
  object_in u16 (field (λ r. r.nbufs) (λ x r. record r { nbufs = x }))
  buffer_in u64 (field (λ r. r.in_addrs) (λ x r. record r { in_addrs = x })) (λ r. r.nbufs)
  buffer_in u64 (field (λ r. r.in_bufs_size) (λ x r. record r { in_bufs_size = x })) (λ r. r.nbufs)
  buffer_2dvar_in char (field (λ r. r.in_bufs) (λ x r. record r { in_bufs = x })) (λ r. r.nbufs)
      (λ r. r.in_bufs_size)

abbrev pub prepare_get_syms_by_ids : Preparation ReqGetSymsByIds
prepare_get_syms_by_ids = do
  object_in u16 (field (λ r. r.nsyms) (λ x r. record r { nsyms = x }))
  buffer_in u32 (field (λ r. r.in_ids) (λ x r. record r { in_ids = x })) (λ r. r.nsyms)
  buffer_out symbol_infos (field (λ r. r.out_infos) (λ x r. record r { out_infos = x }))
      (λ r. r.nsyms)

abbrev pub prepare_get_syms_by_addr : Preparation ReqGetSymsByAddr
prepare_get_syms_by_addr = do
  object_in u64 (field (λ r. r.addr) (λ x r. record r { addr = x }))
  object_in u64 (field (λ r. r.size) (λ x r. record r { size = x }))
  object_out (vector symbol_infos) (field (λ r. r.out_infos) (λ x r. record r { out_infos = x }))

abbrev pub prepare_get_syms_by_names : Preparation ReqGetSymsByNames
prepare_get_syms_by_names = do
  object_in u16 (field (λ r. r.nsyms) (λ x r. record r { nsyms = x }))
  buffer_2d_in_cstr (field (λ r. r.in_names) (λ x r. record r { in_names = x })) (λ r. r.nsyms)
  buffer_out symbol_infos (field (λ r. r.out_infos) (λ x r. record r { out_infos = x }))
      (λ r. r.nsyms)

abbrev pub prepare_get_code_text : Preparation ReqGetCodeText
prepare_get_code_text = do
  object_in u64 (field (λ r. r.addr) (λ x r. record r { addr = x }))
  object_in u64 (field (λ r. r.nins) (λ x r. record r { nins = x }))
  object_out (vector string) (field (λ r. r.out_text) (λ x r. record r { out_text = x }))
  object_out (vector u64) (field (λ r. r.out_sizes) (λ x r. record r { out_sizes = x }))

abbrev pub prepare_add_bkps : Preparation ReqAddBkps
prepare_add_bkps = do
  object_in u16 (field (λ r. r.size) (λ x r. record r { size = x }))
  buffer_in u64 (field (λ r. r.in_addrs) (λ x r. record r { in_addrs = x })) (λ r. r.size)

abbrev pub prepare_del_bkps : Preparation ReqDelBkps
prepare_del_bkps = do
  object_in u16 (field (λ r. r.size) (λ x r. record r { size = x }))
  buffer_in u64 (field (λ r. r.in_addrs) (λ x r. record r { in_addrs = x })) (λ r. r.size)

abbrev pub prepare_resume : Preparation ReqResume
prepare_resume = object_in resume_type (field (λ r. r.type) (λ x r. record r { type = x }))

abbrev pub prepare_err : Preparation ReqErr
prepare_err = object_out string (field (λ r. r.msg) (λ x r. record r { msg = x }))
