-- ===== src/Serial/ReqTypes.antt =====
-- include/odb/mess/request.hh and src/mess/request.cc: the type of a request, which is sent as a byte.
use odb.Prelude.{ℕ, ◌^◌, ◌<◌, ◌≡◌, List, length, ◌==◌, if◌then◌else◌}
use odb.Prelude.Results.{ok}
use odb.Serial.Raw.{Begins, at_end}
use odb.Serial.Formats.{Format, byte_format}
use odb.Serial.Sequences.{byte_format-ReadsBack}

-- `ReqType`. `other` is a byte that is no enumerator.
pub data ReqType : Type 0 where
  connect stop check_stopped get_regs get_regs_var set_regs set_regs_var get_regs_infos
        find_regs_ids read_mem read_mem_var write_mem write_mem_var get_syms_by_ids get_syms_by_addr
        get_syms_by_names get_code_text add_bkps del_bkps resume err :
      ReqType
  other : ℕ → ReqType

abbrev pub req_type_byte : ReqType → ℕ
req_type_byte ReqType.connect = 0
req_type_byte ReqType.stop = 1
req_type_byte ReqType.check_stopped = 2
req_type_byte ReqType.get_regs = 3
req_type_byte ReqType.get_regs_var = 4
req_type_byte ReqType.set_regs = 5
req_type_byte ReqType.set_regs_var = 6
req_type_byte ReqType.get_regs_infos = 7
req_type_byte ReqType.find_regs_ids = 8
req_type_byte ReqType.read_mem = 9
req_type_byte ReqType.read_mem_var = 10
req_type_byte ReqType.write_mem = 11
req_type_byte ReqType.write_mem_var = 12
req_type_byte ReqType.get_syms_by_ids = 13
req_type_byte ReqType.get_syms_by_addr = 14
req_type_byte ReqType.get_syms_by_names = 15
req_type_byte ReqType.get_code_text = 16
req_type_byte ReqType.add_bkps = 17
req_type_byte ReqType.del_bkps = 18
req_type_byte ReqType.resume = 19
req_type_byte ReqType.err = 100
req_type_byte (ReqType.other n) = n

abbrev pub byte_req_type : ℕ → ReqType
byte_req_type n =
    if n == 0
    then ReqType.connect
    else if n == 1
    then ReqType.stop
    else if n == 2
    then ReqType.check_stopped
    else if n == 3
    then ReqType.get_regs
    else if n == 4
    then ReqType.get_regs_var
    else if n == 5
    then ReqType.set_regs
    else if n == 6
    then ReqType.set_regs_var
    else if n == 7
    then ReqType.get_regs_infos
    else if n == 8
    then ReqType.find_regs_ids
    else if n == 9
    then ReqType.read_mem
    else if n == 10
    then ReqType.read_mem_var
    else if n == 11
    then ReqType.write_mem
    else if n == 12
    then ReqType.write_mem_var
    else if n == 13
    then ReqType.get_syms_by_ids
    else if n == 14
    then ReqType.get_syms_by_addr
    else if n == 15
    then ReqType.get_syms_by_names
    else if n == 16
    then ReqType.get_code_text
    else if n == 17
    then ReqType.add_bkps
    else if n == 18
    then ReqType.del_bkps
    else if n == 19
    then ReqType.resume
    else if n == 100
    then ReqType.err
    else ReqType.other n

abbrev pub req_type : Format ReqType
req_type = byte_format ReqType.connect req_type_byte byte_req_type

-- An enumerator, or another value that the cast to a byte keeps.
abbrev pub IsReqType : ReqType → Type 0
IsReqType e = (req_type_byte e < 256) × (byte_req_type (req_type_byte e) ≡ e)

-- The type of a request is read back from the byte that was written, whatever follows it.
pub req_type_read_back :
    (d os : List ℕ) (old type : ReqType)
    → IsReqType type
    → Begins d (req_type.serialize os type)
    → length d < 2 ^ 64
    → req_type.unserialize old (at_end d os) ≡ ok (type, at_end d (req_type.serialize os type))
req_type_read_back = (byte_format-ReadsBack ReqType.connect req_type_byte byte_req_type).reads
