-- ===== src/Types.antt =====
-- include/odb/server/fwd.hh: the data that the VM, the debugger and the clients exchange, and the
-- `DBClientUpdate` of include/odb/mess/db-client.hh.
-- `vm_reg_t` and `vm_sym_t` are 32 bits wide, `vm_ptr_t` and `vm_size_t` 64; a `std::string` and a
-- vector of bytes are lists of numbers below 256.
use odb.Prelude.{ℕ, ◌-◌, ◌^◌, Bool, List}
use odb.Prelude.Results.{Str}

-- `VM_SYM_NULL` and `SYM_ID_NONE`: `static_cast<vm_sym_t>(-1)`.
abbrev pub vm_sym_null : ℕ
vm_sym_null = 2 ^ 32 - 1

pub record CallInfos : Type 0 where
  pub caller_start_addr : ℕ
  pub call_addr : ℕ

abbrev pub CallStack : Type 0
CallStack = List CallInfos

-- The enumerations are read from a byte of the wire with no check, so a value may be none of the
-- enumerators; `other` is such a value.
pub data RegKind : Type 0 where
  general program_counter stack_pointer base_pointer flags : RegKind
  other : ℕ → RegKind

pub data StoppedState : Type 0 where
  ready exit error : StoppedState
  other : ℕ → StoppedState

pub data ResumeType : Type 0 where
  to_finish continue step step_over step_out : ResumeType
  other : ℕ → ResumeType

pub record RegInfos : Type 0 where
  pub idx : ℕ
  pub name : Str
  pub size : ℕ
  pub kind : RegKind
  pub val : List ℕ

pub record SymbolInfos : Type 0 where
  pub idx : ℕ
  pub name : Str
  pub addr : ℕ

pub record VmInfos : Type 0 where
  pub name : Str
  pub regs_count : ℕ
  pub regs_general : List ℕ
  pub regs_program_counter : List ℕ
  pub regs_stack_pointer : List ℕ
  pub regs_base_pointer : List ℕ
  pub regs_flags : List ℕ
  pub memory_size : ℕ
  pub symbols_count : ℕ
  pub pointer_size : ℕ
  pub integer_size : ℕ
  pub use_opcode : Bool

pub record DbClientUpdate : Type 0 where
  pub vm_state : StoppedState
  pub stopped : Bool
  pub addr : ℕ
  pub stack : CallStack
