-- ===== src/Debugger/Scripted.antt =====
-- A scripted machine for the tests, and debuggers that are connected to it.
use odb.Prelude.{nat_eq, replicate, ℕ, [], ◌∷◌, some, true}
use odb.Prelude.Results.{ok, throws, text}
use odb.RangeMap.{make}
use odb.Types.{RegInfos, RegKind.{general}, VmInfos, ResumeType.{}}
use odb.VmApi.{VmApi, UpdateInfos, UpdateState, UpdateState.{ok_ins}}
use odb.Debugger.{Debugger, State.{stopped}}
use odb.Debugger.Flow.{create, frame}

abbrev pub blank : RegInfos
blank = record { idx = 0; name = []; size = 0; kind = general; val = [] }

abbrev pub vm_infos : VmInfos
vm_infos = record {
  name = text "scripted";
  regs_count = 1;
  regs_general = 0 ∷ [];
  regs_program_counter = [];
  regs_stack_pointer = [];
  regs_base_pointer = [];
  regs_flags = [];
  memory_size = 1024;
  symbols_count = 1;
  pointer_size = 4;
  integer_size = 4;
  use_opcode = true;
}

-- A machine that is the next thing it reports. It has the register 0, and the symbol 5 at 40.
abbrev pub scripted : VmApi UpdateInfos
scripted = record {
  get_vm_infos = λ vm. (ok vm_infos, vm);
  get_update_infos = λ vm. (ok vm, vm);
  get_reg =
      λ idx infos val_only vm. (ok tt, record infos { size = 4; val = 1 ∷ 2 ∷ 3 ∷ 4 ∷ [] }, vm);
  set_reg = λ idx val vm. (ok tt, vm);
  find_reg_id = λ name vm. (ok 0, vm);
  read_mem = λ addr size vm. (throws (text "no memory"), vm);
  write_mem = λ addr size buf vm. (throws (text "no memory"), vm);
  get_symbols = λ addr size vm. (ok (5 ∷ []), vm);
  get_symb_infos = λ id vm. (ok (record { idx = id; name = text "f"; addr = 40 }), vm);
  find_sym_id = λ name vm. (ok 5, vm);
  get_code_text = λ addr vm. (ok (text "nop", 4), vm);
}

-- A machine with a memory of sevens.
abbrev pub sevens : VmApi UpdateInfos
sevens = record scripted {
  read_mem = λ addr size vm. (ok (replicate size 7), vm);
  write_mem = λ addr size buf vm. (ok tt, vm);
}

abbrev pub reports : UpdateState → ℕ → UpdateInfos
reports state addr = record { state = state; act_addr = addr }

abbrev pub fresh : Debugger UpdateInfos
fresh = create (reports ok_ins 8) vm_infos 0 0

-- A program that stands at 16, in the subroutine that was called from `main`.
abbrev pub paused : Debugger UpdateInfos
paused = record fresh {
  state = stopped;
  ins_addr = 16;
  call_stack = frame 12 0 ∷ frame 0 16 ∷ [];
  syms_ranges = some (make 0 1023 0);
  breakpts = 100 ∷ [];
}
