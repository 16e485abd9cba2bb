-- ===== src/Serial/Tests.antt =====
-- Runs of the formats, and the theorems at concrete inputs.
use odb.Prelude.{nat_eq, ◌≡◌, refl, List, [], ◌∷◌, ◌++◌, true, arith}
use odb.Prelude.Results.{ok, fails, Fault.{assertion}, text}
use odb.Types.{
  RegInfos,
  SymbolInfos,
  VmInfos,
  DbClientUpdate,
  StoppedState,
  RegKind.{general, flags},
}
use odb.Serial.{in_buff, serial_raw, unserial_raw}
use odb.Serial.Raw.{at_end}
use odb.Serial.Formats.{serialize_string, serialize_vector, unserialize_vector, byte_format}
use odb.Serial.Structs.{
  serialize_reg, unserialize_reg, serialize_update, unserialize_update, serialize_call,
  serialize_symbol, symbol_infos, serialize_vm, unserialize_vm,
}
use odb.Serial.RoundTrips.{
  unserialize_reg-serialize_reg, unserialize_update-serialize_update, symbols_read_back,
}
use odb.Serial.Machine.{IsVmInfos, unserialize_vm-serialize_vm}

-- 0x1234 in four bytes, the lowest one first.
number_bytes : serial_raw 4 [] 4660 ≡ 52 ∷ 18 ∷ 0 ∷ 0 ∷ []
unfolding serial_raw
number_bytes = refl

too_short : unserial_raw 4 (in_buff (1 ∷ 2 ∷ 3 ∷ [])) ≡ fails assertion
unfolding unserial_raw
too_short = refl

abbrev zero_flag : RegInfos
zero_flag = record { idx = 18; name = text "zf"; size = 4; kind = flags; val = 1 ∷ 0 ∷ 0 ∷ 0 ∷ [] }

abbrev unread : RegInfos
unread = record { idx = 0; name = []; size = 0; kind = general; val = 9 ∷ [] }

unserialize_reg-serialize_reg_example :
    unserialize_reg unread (at_end (serialize_reg (7 ∷ []) zero_flag ++ (5 ∷ [])) (7 ∷ []))
    ≡ ok (
      record zero_flag { val = 9 ∷ [] },
      at_end (serialize_reg (7 ∷ []) zero_flag ++ (5 ∷ [])) (serialize_reg (7 ∷ []) zero_flag),
    )
unfolding serialize_reg serialize_string byte_format text
unserialize_reg-serialize_reg_example =
    unserialize_reg-serialize_reg (serialize_reg (7 ∷ []) zero_flag ++ (5 ∷ [])) (7 ∷ []) unread
      zero_flag (omega arith) (omega arith) (omega arith, refl) (5 ∷ [], refl) (omega arith)

abbrev stopped_update : DbClientUpdate
stopped_update = record {
  vm_state = StoppedState.exit;
  stopped = true;
  addr = 4096;
  stack = record { caller_start_addr = 8; call_addr = 12 } ∷ [];
}

abbrev old_update : DbClientUpdate
old_update = record { vm_state = StoppedState.other 77; stopped = true; addr = 1; stack = [] }

unserialize_update-serialize_update_example :
    unserialize_update old_update (at_end (serialize_update [] stopped_update ++ []) [])
    ≡ ok (
      stopped_update,
      at_end (serialize_update [] stopped_update ++ []) (serialize_update [] stopped_update),
    )
unfolding serialize_update serialize_vector serialize_call byte_format
unserialize_update-serialize_update_example =
    unserialize_update-serialize_update (serialize_update [] stopped_update ++ []) [] old_update
      stopped_update
      ((omega arith, refl), omega arith, omega arith, ((omega arith, omega arith), tt)) ([], refl)
      (omega arith)

abbrev two_symbols : List SymbolInfos
two_symbols =
    record { idx = 1; name = text "main"; addr = 0 } ∷ record { idx = 2; name = []; addr = 64 } ∷ []

symbols_read_back_example :
    unserialize_vector symbol_infos []
      (at_end (serialize_vector symbol_infos (3 ∷ []) two_symbols ++ (4 ∷ [])) (3 ∷ []))
    ≡ ok (
      two_symbols,
      at_end
          (serialize_vector symbol_infos (3 ∷ []) two_symbols ++ (4 ∷ []))
          (serialize_vector symbol_infos (3 ∷ []) two_symbols),
    )
unfolding serialize_vector serialize_symbol serialize_string text
symbols_read_back_example =
    symbols_read_back (serialize_vector symbol_infos (3 ∷ []) two_symbols ++ (4 ∷ [])) (3 ∷ []) []
      two_symbols (omega arith) ((omega arith, omega arith), ((omega arith, omega arith), tt))
      (4 ∷ [], refl) (omega arith)

abbrev machine : VmInfos
machine = record {
  name = text "mvm0";
  regs_count = 19;
  regs_general = 0 ∷ 1 ∷ [];
  regs_program_counter = 16 ∷ [];
  regs_stack_pointer = 17 ∷ [];
  regs_base_pointer = [];
  regs_flags = 18 ∷ [];
  memory_size = 1048576;
  symbols_count = 3;
  pointer_size = 4;
  integer_size = 4;
  use_opcode = true;
}

abbrev unknown_machine : VmInfos
unknown_machine = record machine { name = []; regs_general = 5 ∷ []; memory_size = 0 }

machine-IsVmInfos : IsVmInfos machine
machine-IsVmInfos = record {
  regs_count = omega arith;
  regs_general = (omega arith, (omega arith, (omega arith, tt)));
  regs_program_counter = (omega arith, (omega arith, tt));
  regs_stack_pointer = (omega arith, (omega arith, tt));
  regs_base_pointer = (omega arith, tt);
  regs_flags = (omega arith, (omega arith, tt));
  memory_size = omega arith;
  symbols_count = omega arith;
  pointer_size = omega arith;
  integer_size = omega arith;
}

unserialize_vm-serialize_vm_example :
    unserialize_vm unknown_machine (at_end (serialize_vm [] machine ++ []) [])
    ≡ ok (machine, at_end (serialize_vm [] machine ++ []) (serialize_vm [] machine))
unfolding serialize_vm serialize_string serialize_vector byte_format text
unserialize_vm-serialize_vm_example =
    unserialize_vm-serialize_vm (serialize_vm [] machine ++ []) [] unknown_machine machine
      machine-IsVmInfos ([], refl) (omega arith)
