-- ===== src/DbClient/Calls.antt =====
-- src/mess/db-client.cc: the methods of `DBClient` that connect, move the program and pass calls on. All but
-- three want a program that is stopped.
use odb.Prelude.{ℕ, Bool, List, length, if◌then◌else◌}
use odb.Prelude.Results.{Str, text, throws}
use odb.Prelude.Results
use odb.Types.{
  SymbolInfos,
  CallStack,
  StoppedState,
  ResumeType,
  RegKind,
  RegKind.{general, program_counter, stack_pointer, base_pointer, flags},
}
use odb.DbClient.{
  DbClientImpl, Method, State, is_stopped, is_running, is_new, ◌>>=◌, ◌>>◌, lift, gets, modify,
  call, assert_state,
}
use odb.DbClient.Cache.{discard_tmp_cache}

module _ {Impl : Type 0} (impl : DbClientImpl Impl) where
  unfoldable pub connect : Method Impl (Unit {0})
  connect = do
    assert_state is_new
    udp ← gets (λ c. c.udp)
    (infos, udp') ← call (impl.connect udp)
    modify λ c. record c {
      vm_infos = infos;
      udp = udp';
      state = if udp'.stopped then State.vm_stopped else State.vm_running;
    }

  -- `_impl->check_stopped(_udp)`.
  unfoldable pub update : Method Impl (Unit {0})
  update = do
    udp ← gets (λ c. c.udp)
    udp' ← call (impl.check_stopped udp)
    modify (λ c. record c { udp = udp' })

  unfoldable pub stop : Method Impl (Unit {0})
  unfolding update
  stop = do
    assert_state is_running
    call impl.stop
    modify (λ c. record c { state = State.vm_stopped })
    update
    λ c. (Results.assert c.udp.stopped, c)

  unfoldable pub check_stopped : Method Impl (Unit {0})
  unfolding update discard_tmp_cache
  check_stopped = do
    assert_state is_running
    update
    udp ← gets (λ c. c.udp)
    if udp.stopped
        then (do modify (λ c. record c { state = State.vm_stopped }); discard_tmp_cache)
        else modify (λ c. record c { state = State.vm_running })

  unfoldable pub read_mem : List ℕ → List ℕ → List (List ℕ) → Method Impl (List (List ℕ))
  read_mem src_addrs bufs_sizes out_bufs = do
    assert_state is_stopped
    call (impl.read_mem src_addrs bufs_sizes out_bufs (length src_addrs))

  unfoldable pub write_mem : List ℕ → List ℕ → List (List ℕ) → Method Impl (Unit {0})
  write_mem dst_addrs bufs_sizes in_bufs = do
    assert_state is_stopped
    call (impl.write_mem dst_addrs bufs_sizes in_bufs (length dst_addrs))

  unfoldable pub get_symbols_by_addr : ℕ → ℕ → Method Impl (List SymbolInfos)
  get_symbols_by_addr addr size = do
    assert_state is_stopped
    call (impl.get_symbols_by_addr addr size)

  unfoldable pub get_symbols_by_ids : List ℕ → List SymbolInfos → Method Impl (List SymbolInfos)
  get_symbols_by_ids ids out_infos = do
    assert_state is_stopped
    call (impl.get_symbols_by_ids ids out_infos (length ids))

  unfoldable pub get_symbols_by_names : List Str → List SymbolInfos → Method Impl (List SymbolInfos)
  get_symbols_by_names names out_infos = do
    assert_state is_stopped
    call (impl.get_symbols_by_names names out_infos (length names))

  unfoldable pub get_code_text : ℕ → ℕ → Method Impl (List Str × List ℕ)
  get_code_text addr nins = do assert_state is_stopped; call (impl.get_code_text addr nins)

  unfoldable pub add_breakpoints : List ℕ → Method Impl (Unit {0})
  add_breakpoints addrs = do
    assert_state is_stopped
    call (impl.add_breakpoints addrs (length addrs))

  unfoldable pub del_breakpoints : List ℕ → Method Impl (Unit {0})
  del_breakpoints addrs = do
    assert_state is_stopped
    call (impl.del_breakpoints addrs (length addrs))

  unfoldable pub resume : ResumeType → Method Impl (Unit {0})
  resume type = do
    assert_state is_stopped
    call (impl.resume type)
    modify (λ c. record c { state = State.vm_running })

module _ {Impl : Type 0} where
  unfoldable pub get_execution_point : Method Impl ℕ
  get_execution_point = do assert_state is_stopped; gets (λ c. c.udp.addr)

  unfoldable pub get_stopped_state : Method Impl StoppedState
  get_stopped_state = do assert_state is_stopped; gets (λ c. c.udp.vm_state)

  unfoldable pub get_call_stack : Method Impl CallStack
  get_call_stack = do assert_state is_stopped; gets (λ c. c.udp.stack)

  unfoldable pub registers_count : Method Impl ℕ
  registers_count = do assert_state is_stopped; gets (λ c. c.vm_infos.regs_count)

  abbrev pub regs_of : RegKind → Method Impl (List ℕ)
  regs_of general = gets (λ c. c.vm_infos.regs_general)
  regs_of program_counter = gets (λ c. c.vm_infos.regs_program_counter)
  regs_of stack_pointer = gets (λ c. c.vm_infos.regs_stack_pointer)
  regs_of base_pointer = gets (λ c. c.vm_infos.regs_base_pointer)
  regs_of flags = gets (λ c. c.vm_infos.regs_flags)
  regs_of (RegKind.other n) = lift (throws (text "list_regs: invalid reg kind"))

  unfoldable pub list_regs : RegKind → Method Impl (List ℕ)
  list_regs kind = do assert_state is_stopped; regs_of kind

  unfoldable pub memory_size : Method Impl ℕ
  memory_size = do assert_state is_stopped; gets (λ c. c.vm_infos.memory_size)

  unfoldable pub symbols_count : Method Impl ℕ
  symbols_count = do assert_state is_stopped; gets (λ c. c.vm_infos.symbols_count)

  unfoldable pub pointer_size : Method Impl ℕ
  pointer_size = do assert_state is_stopped; gets (λ c. c.vm_infos.pointer_size)

  unfoldable pub integer_size : Method Impl ℕ
  integer_size = do assert_state is_stopped; gets (λ c. c.vm_infos.integer_size)

  unfoldable pub use_opcode : Method Impl Bool
  use_opcode = do assert_state is_stopped; gets (λ c. c.vm_infos.use_opcode)
