-- ===== src/Debugger/Invariant/Histories.antt =====
-- src/server/debugger.cc: all operations against the invariant of a debugger that has started.
use odb.Prelude.{ℕ, ◌≡◌, refl, false, List, [], ◌∷◌, some, arith, nat_eq, sym, ◌||◌, not}
use mathlib.Core.Path.{subst}
use odb.Prelude.Maps.{contains}
use odb.Prelude.Results.{Str, ok, Fault.{}}
use odb.RangeMap.{make}
use odb.RangeMap.Set.{make-IsValid}
use odb.Types.{RegInfos, VmInfos}
use odb.VmApi.{VmApi, UpdateInfos}
use odb.Debugger.{Debugger, gets, assert, call, ◌>>=◌, ◌>>◌}
use odb.Debugger.Flow.{
  is_not_started, is_finished, is_stopped, on_update, on_init, create, update, track_calls,
}
use odb.Debugger.Registers.{get_reg, get_reg_infos, set_reg, find_reg_id}
use odb.Debugger.Memory.{read_mem, write_mem, get_code_text}
use odb.Debugger.Symbols.{load_symbol, sub_ptr}
use odb.Debugger.Frames.{
  bind-Within, get_reg-Control, get_reg_infos-Control, find_reg_id-Control, load_symbol-Control,
  get_symbol_at-Within, get_symbols-Within, get_symbol_infos-Within, find_sym_id-Within,
}
use odb.Debugger.Operations.{Operation, perform, history}
use odb.Debugger.Invariant.{
  Inv, Keeps, Keeps-trans, members-Inv, Control-Inv, mark-Inv, add_breakpoint-Inv,
  del_breakpoint-Inv, resume-Inv, stop-Inv, has_breakpoint-Inv, vm-Inv,
}

module _ {Vm : Type 0} (api : VmApi Vm) (garbage : ℕ) (blank : RegInfos) where
  on_init_again : (d : Debugger Vm) → is_not_started d.state ≡ false → (on_init api garbage d).1 ≡ d
  unfolding on_init
  on_init_again d h = ground (arith, h)

  update-Inv : (u : UpdateInfos) (d : Debugger Vm) → Inv d → Inv (update garbage u d).1
  unfolding update track_calls
  update-Inv u d v =
      members-Inv d (update garbage u d).1 (ground (arith, v.started)) (ground arith) (ground arith)
        (λ a h. ground (arith, v.in_memory a)) v

  on_update-Inv : (d : Debugger Vm) → Inv d → Inv (on_update api garbage d).1
  unfolding on_update
  on_update-Inv =
      bind-Within Keeps Keeps-trans (gets (λ d. d.state))
        (λ st.
          assert (not (is_not_started st || is_stopped st || is_finished st))
          >> (call api.get_update_infos >>= λ u. update garbage u))
        (λ d v. v)
        (λ st.
          bind-Within Keeps Keeps-trans
            (assert (not (is_not_started st || is_stopped st || is_finished st)))
            (λ _. call api.get_update_infos >>= λ u. update garbage u) (λ d v. v)
            (λ _.
              bind-Within Keeps Keeps-trans (call api.get_update_infos) (λ u. update garbage u)
                (λ d. vm-Inv d _) update-Inv))

  load_symbol-Inv : (id : ℕ) (d : Debugger Vm) → Inv d → Inv (load_symbol api id d).1
  unfolding load_symbol
  load_symbol-Inv id d =
      Control-Inv d (load_symbol api id d).1 (load_symbol-Control api id d) (ground arith)

  get_reg-Inv : (id : ℕ) (d : Debugger Vm) → Inv d → Inv (get_reg api blank id d).1
  unfolding get_reg
  get_reg-Inv id d =
      Control-Inv d (get_reg api blank id d).1 (get_reg-Control api blank id d) (ground arith)

  get_reg_infos-Inv : (id : ℕ) (d : Debugger Vm) → Inv d → Inv (get_reg_infos api blank id d).1
  unfolding get_reg_infos
  get_reg_infos-Inv id d =
      Control-Inv d (get_reg_infos api blank id d).1 (get_reg_infos-Control api blank id d)
        (ground arith)

  find_reg_id-Inv : (name : Str) (d : Debugger Vm) → Inv d → Inv (find_reg_id api blank name d).1
  unfolding find_reg_id
  find_reg_id-Inv name d =
      Control-Inv d (find_reg_id api blank name d).1 (find_reg_id-Control api blank name d)
        (ground arith)

  -- Every operation of a debugger that has started, however it ends, keeps the invariant: the map of the
  -- loaded memory is a valid one from 0 to the last address, each breakpoint is below the memory size,
  -- and the debugger does not become NOT_STARTED again.
  pub perform-Inv :
      (op : Operation) (d : Debugger Vm) → Inv d → Inv (perform api garbage blank op d)
  unfolding perform set_reg read_mem write_mem get_code_text
  perform-Inv Operation.on_init d v = subst Inv (sym (on_init_again d v.started)) v
  perform-Inv Operation.on_update d v = on_update-Inv d v
  perform-Inv Operation.stop d v = stop-Inv d v
  perform-Inv (Operation.resume type) d v = resume-Inv type d v
  perform-Inv (Operation.add_breakpoint addr) d v = add_breakpoint-Inv addr d v
  perform-Inv (Operation.del_breakpoint addr) d v = del_breakpoint-Inv addr d v
  perform-Inv (Operation.has_breakpoint addr) d v = has_breakpoint-Inv addr d v
  perform-Inv (Operation.get_reg idx) d v = get_reg-Inv idx d v
  perform-Inv (Operation.get_reg_infos idx) d v = get_reg_infos-Inv idx d v
  perform-Inv (Operation.set_reg idx val) d v = vm-Inv d _ v
  perform-Inv (Operation.find_reg_id name) d v = find_reg_id-Inv name d v
  perform-Inv (Operation.find_sym_id name) d v =
      find_sym_id-Within api Keeps (λ d v. v) Keeps-trans vm-Inv load_symbol-Inv mark-Inv name d v
  perform-Inv (Operation.read_mem addr size) d v = vm-Inv d _ v
  perform-Inv (Operation.write_mem addr size buf) d v = vm-Inv d _ v
  perform-Inv (Operation.get_symbol_at addr) d v =
      get_symbol_at-Within api Keeps (λ d v. v) Keeps-trans vm-Inv load_symbol-Inv mark-Inv addr d v
  perform-Inv (Operation.get_symbol_infos idx) d v =
      get_symbol_infos-Within api Keeps (λ d v. v) Keeps-trans vm-Inv load_symbol-Inv mark-Inv idx d
        v
  perform-Inv (Operation.get_code_text addr) d v = vm-Inv d _ v
  perform-Inv (Operation.get_symbols addr size) d v =
      get_symbols-Within api Keeps (λ d v. v) Keeps-trans vm-Inv load_symbol-Inv mark-Inv addr size
        d v

  history-Inv :
      (ops : List Operation) (d : Debugger Vm) → Inv d → Inv (history api garbage blank ops d)
  unfolding history
  history-Inv [] d v = v
  history-Inv (op ∷ ops) d v = history-Inv ops (perform api garbage blank op d) (perform-Inv op d v)

  -- What a successful `on_init` leaves behind.
  on_init-Spans :
      (d : Debugger Vm)
      → (on_init api garbage d).0 ≡ ok tt
      → let d' = (on_init api garbage d).1 in
        (is_not_started d'.state ≡ false)
        × (d'.syms_ranges ≡ some (make 0 (sub_ptr d'.infos.memory_size 1) 0))
        × (d'.breakpts ≡ d.breakpts)
  unfolding on_init
  on_init-Spans d h = ground (arith, h)

  on_init-Inv :
      (vm : Vm) (infos : VmInfos) (ins_addr over : ℕ)
      → (on_init api garbage (create vm infos ins_addr over)).0 ≡ ok tt
      → Inv (on_init api garbage (create vm infos ins_addr over)).1
  unfolding create make contains
  on_init-Inv vm infos ins_addr over h =
      let d : Debugger Vm = create vm infos ins_addr over in
      let d' = (on_init api garbage d).1 in
      let start = on_init-Spans d h in
      record {
        started = start.0;
        ranges = record {
          map = make 0 (sub_ptr d'.infos.memory_size 1) 0;
          there = start.1;
          valid = (make-IsValid 0 (sub_ptr d'.infos.memory_size 1) 0 (omega arith)).0;
          bottom = refl;
          top = refl;
        };
        in_memory = λ a c. absurd (ground (arith, start.2));
      }

  -- After a successful `on_init` of a new debugger, the invariant holds through any sequence of
  -- operations, whether they return, throw or fail.
  pub history-Inv_from_create :
      (vm : Vm) (infos : VmInfos) (ins_addr over : ℕ) (ops : List Operation)
      → (on_init api garbage (create vm infos ins_addr over)).0 ≡ ok tt
      → Inv (history api garbage blank ops (on_init api garbage (create vm infos ins_addr over)).1)
  history-Inv_from_create vm infos ins_addr over ops h =
      history-Inv ops (on_init api garbage (create vm infos ins_addr over)).1
        (on_init-Inv vm infos ins_addr over h)
