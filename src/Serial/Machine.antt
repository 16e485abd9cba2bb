-- ===== src/Serial/Machine.antt =====
-- src/mess/request.cc: the static data of a machine is read back as it was written.
use odb.Prelude.{ℕ, ◌^◌, ◌<◌, ◌≡◌, List, length, arith}
use odb.Prelude.Results.{ok}
use odb.Types.{VmInfos}
use odb.Serial.Raw.{Begins, at_end}
use odb.Serial.Formats.{string}
use odb.Serial.Structs.{
  u32, u64, regs, serialize_regs, serialize_sizes, serialize_vm, unserialize_regs,
  unserialize_sizes, unserialize_vm,
}
use odb.Serial.Sequences.{ReadsBack, All, string-ReadsBack, vector-ReadsBack}
use odb.Serial.RoundTrips.{U32, U64, u32-ReadsBack, u64-ReadsBack, bool-ReadsBack}

-- A list of registers that fits.
abbrev pub IsRegs : List ℕ → Type 0
IsRegs v = (length v < 2 ^ 64) × All U32 v

regs-ReadsBack : ReadsBack regs IsRegs
regs-ReadsBack = vector-ReadsBack u32 U32 u32-ReadsBack

-- The numbers of the struct fit their types.
pub record IsVmInfos (infos : VmInfos) : Type 0 where
  pub regs_count : U32 infos.regs_count
  pub regs_general : IsRegs infos.regs_general
  pub regs_program_counter : IsRegs infos.regs_program_counter
  pub regs_stack_pointer : IsRegs infos.regs_stack_pointer
  pub regs_base_pointer : IsRegs infos.regs_base_pointer
  pub regs_flags : IsRegs infos.regs_flags
  pub memory_size : U64 infos.memory_size
  pub symbols_count : U32 infos.symbols_count
  pub pointer_size : U64 infos.pointer_size
  pub integer_size : U64 infos.integer_size

-- The first half of an object from one, and the second half from another.
abbrev halves : VmInfos → VmInfos → VmInfos
halves infos old = record infos {
  memory_size = old.memory_size;
  symbols_count = old.symbols_count;
  pointer_size = old.pointer_size;
  integer_size = old.integer_size;
  use_opcode = old.use_opcode;
}

sizes-Begins : (d os : List ℕ) (infos : VmInfos) → Begins d (serialize_sizes os infos) → Begins d os
unfolding serialize_sizes
sizes-Begins d os infos b = u64-ReadsBack.begins d os infos.memory_size (
    u32-ReadsBack.begins d _ infos.symbols_count (
      u64-ReadsBack.begins d _ infos.pointer_size (
        u64-ReadsBack.begins d _ infos.integer_size
          (bool-ReadsBack.begins d _ infos.use_opcode b))))

sizes-reads :
    (d os : List ℕ) (old infos : VmInfos)
    → IsVmInfos infos
    → Begins d (serialize_sizes os infos)
    → length d < 2 ^ 64
    → unserialize_sizes old (at_end d os)
      ≡ ok (halves old infos, at_end d (serialize_sizes os infos))
unfolding serialize_sizes unserialize_sizes
sizes-reads d os old infos h b small =
    let b4 = bool-ReadsBack.begins d _ infos.use_opcode b in
    let b3 = u64-ReadsBack.begins d _ infos.integer_size b4 in
    let b2 = u64-ReadsBack.begins d _ infos.pointer_size b3 in
    let b1 = u32-ReadsBack.begins d (u64.serialize os infos.memory_size) infos.symbols_count b2 in
    let r0 = u64-ReadsBack.reads d os old.memory_size infos.memory_size h.memory_size b1 small in
    let r1 =
      u32-ReadsBack.reads d _ old.symbols_count infos.symbols_count h.symbols_count b2 small in
    let r2 = u64-ReadsBack.reads d _ old.pointer_size infos.pointer_size h.pointer_size b3 small in
    let r3 = u64-ReadsBack.reads d _ old.integer_size infos.integer_size h.integer_size b4 small in
    let r4 = bool-ReadsBack.reads d _ old.use_opcode infos.use_opcode tt b small in
    ground (arith, r0, r1, r2, r3, r4)

regs-reads :
    (d os : List ℕ) (old infos : VmInfos)
    → IsVmInfos infos
    → Begins d (serialize_regs os infos)
    → length d < 2 ^ 64
    → unserialize_regs old (at_end d os) ≡ ok (halves infos old, at_end d (serialize_regs os infos))
unfolding serialize_regs unserialize_regs
regs-reads d os old infos h b small =
    let b6 = regs-ReadsBack.begins d _ infos.regs_flags b in
    let b5 = regs-ReadsBack.begins d _ infos.regs_base_pointer b6 in
    let b4 = regs-ReadsBack.begins d _ infos.regs_stack_pointer b5 in
    let b3 = regs-ReadsBack.begins d _ infos.regs_program_counter b4 in
    let b2 = regs-ReadsBack.begins d _ infos.regs_general b3 in
    let b1 = u32-ReadsBack.begins d (string.serialize os infos.name) infos.regs_count b2 in
    let r0 = string-ReadsBack.reads d os old.name infos.name tt b1 small in
    let r1 = u32-ReadsBack.reads d _ old.regs_count infos.regs_count h.regs_count b2 small in
    let r2 = regs-ReadsBack.reads d _ old.regs_general infos.regs_general h.regs_general b3 small in
    let r3 =
      regs-ReadsBack.reads d _ old.regs_program_counter infos.regs_program_counter
        h.regs_program_counter b4 small in
    let r4 =
      regs-ReadsBack.reads d _ old.regs_stack_pointer infos.regs_stack_pointer h.regs_stack_pointer
        b5 small in
    let r5 =
      regs-ReadsBack.reads d _ old.regs_base_pointer infos.regs_base_pointer h.regs_base_pointer b6
        small in
    let r6 = regs-ReadsBack.reads d _ old.regs_flags infos.regs_flags h.regs_flags b small in
    ground (arith, r0, r1, r2, r3, r4, r5, r6)

-- The static data of a machine whose numbers fit their types are read back from what was written, over
-- any old object and whatever follows them, up to their last byte.
pub unserialize_vm-serialize_vm :
    (d os : List ℕ) (old infos : VmInfos)
    → IsVmInfos infos
    → Begins d (serialize_vm os infos)
    → length d < 2 ^ 64
    → unserialize_vm old (at_end d os) ≡ ok (infos, at_end d (serialize_vm os infos))
unfolding serialize_vm unserialize_vm
unserialize_vm-serialize_vm d os old infos h b small =
    let first = regs-reads d os old infos h (sizes-Begins d _ infos b) small in
    let second = sizes-reads d (serialize_regs os infos) (halves infos old) infos h b small in
    ground (arith, first, second)
