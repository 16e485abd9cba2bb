-- ===== src/Debugger/Memory.antt =====
-- src/server/debugger.cc: the memory, the code, and the static data of the VM.
use odb.Prelude.{ℕ, Bool, List}
use odb.Prelude.Results.{Str}
use odb.VmApi.{VmApi}
use odb.Debugger.{Method, call, gets}

module _ {Vm : Type 0} where
  unfoldable pub get_memory_size : Method Vm ℕ
  get_memory_size = gets (λ d. d.infos.memory_size)

  unfoldable pub symbols_count : Method Vm ℕ
  symbols_count = gets (λ d. d.infos.symbols_count)

  unfoldable pub get_execution_point : Method Vm ℕ
  get_execution_point = gets (λ d. d.ins_addr)

  unfoldable pub pointer_size : Method Vm ℕ
  pointer_size = gets (λ d. d.infos.pointer_size)

  unfoldable pub integer_size : Method Vm ℕ
  integer_size = gets (λ d. d.infos.integer_size)

  unfoldable pub use_opcode : Method Vm Bool
  use_opcode = gets (λ d. d.infos.use_opcode)

module _ {Vm : Type 0} (api : VmApi Vm) where
  unfoldable pub read_mem : ℕ → ℕ → Method Vm (List ℕ)
  read_mem addr size = call (api.read_mem addr size)

  unfoldable pub write_mem : ℕ → ℕ → List ℕ → Method Vm (Unit {0})
  write_mem addr size buf = call (api.write_mem addr size buf)

  -- The text and the number of bytes that it stands for.
  unfoldable pub get_code_text : ℕ → Method Vm (Str × ℕ)
  get_code_text addr = call (api.get_code_text addr)
