-- ===== src/Serial/Structs.antt =====
-- src/mess/request.cc: `sb_serialize` and `sb_unserialize` of the structs, field by field.
use odb.Prelude.{ℕ, false, List, []}
use odb.Prelude.Results.{Result, ok, ◌>>=◌}
use odb.Types.{
  CallInfos,
  CallStack,
  RegInfos,
  SymbolInfos,
  VmInfos,
  DbClientUpdate,
  StoppedState.{ready},
  RegKind.{},
}
use odb.Serial.{SerialOutBuff, SerialInBuff}
use odb.Serial.Formats.{Format, raw, string, vector, bool, stopped_state, reg_kind}

-- `vm_reg_t` and `vm_sym_t`, `vm_ptr_t` and `vm_size_t`, and the lists of registers.
abbrev pub u32 : Format ℕ
u32 = raw 4

abbrev pub u64 : Format ℕ
u64 = raw 8

abbrev pub regs : Format (List ℕ)
regs = vector u32

-- `CallInfos`.
unfoldable pub serialize_call : SerialOutBuff → CallInfos → SerialOutBuff
serialize_call os ci = u64.serialize (u64.serialize os ci.caller_start_addr) ci.call_addr

unfoldable pub unserialize_call : CallInfos → SerialInBuff → Result (CallInfos × SerialInBuff)
unserialize_call ci is = do
  (caller, is) ← u64.unserialize ci.caller_start_addr is
  (call, is) ← u64.unserialize ci.call_addr is
  ok (record { caller_start_addr = caller; call_addr = call }, is)

abbrev pub call_infos : Format CallInfos
call_infos = record {
  blank = record { caller_start_addr = 0; call_addr = 0 };
  serialize = serialize_call;
  unserialize = unserialize_call;
}

abbrev pub call_stack : Format CallStack
call_stack = vector call_infos

-- `SymbolInfos`.
unfoldable pub serialize_symbol : SerialOutBuff → SymbolInfos → SerialOutBuff
serialize_symbol os sym =
    u64.serialize (string.serialize (u32.serialize os sym.idx) sym.name) sym.addr

unfoldable pub unserialize_symbol : SymbolInfos → SerialInBuff → Result (SymbolInfos × SerialInBuff)
unserialize_symbol sym is = do
  (idx, is) ← u32.unserialize sym.idx is
  (name, is) ← string.unserialize sym.name is
  (addr, is) ← u64.unserialize sym.addr is
  ok (record { idx = idx; name = name; addr = addr }, is)

abbrev pub symbol_infos : Format SymbolInfos
symbol_infos = record {
  blank = record { idx = 0; name = []; addr = 0 };
  serialize = serialize_symbol;
  unserialize = unserialize_symbol;
}

-- `RegInfos`, whose value stays behind.
unfoldable pub serialize_reg : SerialOutBuff → RegInfos → SerialOutBuff
serialize_reg os reg =
    reg_kind.serialize
      (u64.serialize (string.serialize (u32.serialize os reg.idx) reg.name) reg.size) reg.kind

unfoldable pub unserialize_reg : RegInfos → SerialInBuff → Result (RegInfos × SerialInBuff)
unserialize_reg reg is = do
  (idx, is) ← u32.unserialize reg.idx is
  (name, is) ← string.unserialize reg.name is
  (size, is) ← u64.unserialize reg.size is
  (kind, is) ← reg_kind.unserialize reg.kind is
  ok (record { idx = idx; name = name; size = size; kind = kind; val = reg.val }, is)

-- `DBClientUpdate`.
unfoldable pub serialize_update : SerialOutBuff → DbClientUpdate → SerialOutBuff
serialize_update os udp =
    call_stack.serialize
      (u64.serialize (bool.serialize (stopped_state.serialize os udp.vm_state) udp.stopped)
        udp.addr)
      udp.stack

unfoldable pub unserialize_update :
    DbClientUpdate → SerialInBuff → Result (DbClientUpdate × SerialInBuff)
unserialize_update udp is = do
  (vm_state, is) ← stopped_state.unserialize udp.vm_state is
  (stopped, is) ← bool.unserialize udp.stopped is
  (addr, is) ← u64.unserialize udp.addr is
  (stack, is) ← call_stack.unserialize udp.stack is
  ok (record { vm_state = vm_state; stopped = stopped; addr = addr; stack = stack }, is)

abbrev pub db_client_update : Format DbClientUpdate
db_client_update = record {
  blank = record { vm_state = ready; stopped = false; addr = 0; stack = [] };
  serialize = serialize_update;
  unserialize = unserialize_update;
}

-- `VMInfos`: the names and the registers, and then the sizes.
unfoldable pub serialize_regs : SerialOutBuff → VmInfos → SerialOutBuff
serialize_regs os infos =
    let os = u32.serialize (string.serialize os infos.name) infos.regs_count in
    let os = regs.serialize os infos.regs_general in
    let os = regs.serialize os infos.regs_program_counter in
    let os = regs.serialize os infos.regs_stack_pointer in
    let os = regs.serialize os infos.regs_base_pointer in regs.serialize os infos.regs_flags

unfoldable pub serialize_sizes : SerialOutBuff → VmInfos → SerialOutBuff
serialize_sizes os infos =
    let os = u32.serialize (u64.serialize os infos.memory_size) infos.symbols_count in
    bool.serialize (u64.serialize (u64.serialize os infos.pointer_size) infos.integer_size)
      infos.use_opcode

unfoldable pub serialize_vm : SerialOutBuff → VmInfos → SerialOutBuff
unfolding serialize_regs serialize_sizes
serialize_vm os infos = serialize_sizes (serialize_regs os infos) infos

unfoldable pub unserialize_regs : VmInfos → SerialInBuff → Result (VmInfos × SerialInBuff)
unserialize_regs infos is = do
  (name, is) ← string.unserialize infos.name is
  (count, is) ← u32.unserialize infos.regs_count is
  (general_regs, is) ← regs.unserialize infos.regs_general is
  (program_counter, is) ← regs.unserialize infos.regs_program_counter is
  (stack_pointer, is) ← regs.unserialize infos.regs_stack_pointer is
  (base_pointer, is) ← regs.unserialize infos.regs_base_pointer is
  (flags, is) ← regs.unserialize infos.regs_flags is
  ok (
    record infos {
      name = name;
      regs_count = count;
      regs_general = general_regs;
      regs_program_counter = program_counter;
      regs_stack_pointer = stack_pointer;
      regs_base_pointer = base_pointer;
      regs_flags = flags;
    },
    is,
  )

unfoldable pub unserialize_sizes : VmInfos → SerialInBuff → Result (VmInfos × SerialInBuff)
unserialize_sizes infos is = do
  (memory_size, is) ← u64.unserialize infos.memory_size is
  (symbols_count, is) ← u32.unserialize infos.symbols_count is
  (pointer_size, is) ← u64.unserialize infos.pointer_size is
  (integer_size, is) ← u64.unserialize infos.integer_size is
  (use_opcode, is) ← bool.unserialize infos.use_opcode is
  ok (
    record infos {
      memory_size = memory_size;
      symbols_count = symbols_count;
      pointer_size = pointer_size;
      integer_size = integer_size;
      use_opcode = use_opcode;
    },
    is,
  )

unfoldable pub unserialize_vm : VmInfos → SerialInBuff → Result (VmInfos × SerialInBuff)
unfolding unserialize_regs unserialize_sizes
unserialize_vm infos is = do (infos, is) ← unserialize_regs infos is; unserialize_sizes infos is
