-- ===== src/VmSide/Keeps.antt =====
-- What every request keeps: a relation between the object before and after each operation of the debugger
-- also holds between the object before and after each request.
use odb.Prelude.{ℕ, zero, suc, List, [], ◌∷◌, ◌≡◌, sym, arith}
use mathlib.Core.Path.{subst}
use odb.Types.{RegInfos}
use odb.VmApi.{VmApi}
use odb.Debugger.{Debugger, Method, pure, ◌>>=◌}
use odb.Debugger.Breakpoints
use odb.Debugger.Registers
use odb.Debugger.Memory
use odb.Debugger.Symbols
use odb.Debugger.Frames.{Within, bind-Within}
use odb.Debugger.Operations.{Operation, perform}
use odb.Debugger.Lifecycle.{IsAccess}
use odb.VmSide.{
  for_each, run_each, check_stopped, connect, stop, resume, add_breakpoints, del_breakpoints,
  set_regs, read_mem, write_mem, get_symbols_by_ids, get_symbols_by_addr, get_symbol_by_name,
  get_symbols_by_names, get_code_text, get_regs, get_regs_infos, find_regs_ids,
}
use odb.VmSide.Requests.{Request, IsRead, serve}

module _ {Vm : Type 0} (R : Debugger Vm → Debugger Vm → Type 0) (R_refl : (d : Debugger Vm) → R d d)
    (R_trans : (a b c : Debugger Vm) → R a b → R b c → R a c) where
  -- A method that only looks.
  unchanged : {A : Type 0} (m : Method Vm A) → ((d : Debugger Vm) → (m d).1 ≡ d) → Within R m
  unchanged m h d = subst (λ x. R d x) (sym (h d)) (R_refl d)

  for_each-Within :
      {A B : Type 0} (method : A → Method Vm B) (xs : List A)
      → ((x : A) → Within R (method x))
      → Within R (for_each method xs)
  unfolding for_each
  for_each-Within method [] h = R_refl
  for_each-Within method (x ∷ xs) h =
      bind-Within R R_trans (method x) (λ y. for_each method xs >>= λ ys. pure (y ∷ ys)) (h x)
        (λ y.
          bind-Within R R_trans (for_each method xs) (λ ys. pure (y ∷ ys))
            (for_each-Within method xs h) (λ ys. R_refl))

  run_each-Within :
      {A : Type 0} (method : A → Method Vm (Unit {0})) (xs : List A)
      → ((x : A) → Within R (method x))
      → Within R (run_each method xs)
  unfolding run_each
  run_each-Within method [] h = R_refl
  run_each-Within method (x ∷ xs) h =
      bind-Within R R_trans (method x) (λ _. run_each method xs) (h x)
        (λ _. run_each-Within method xs h)

  module _ (api : VmApi Vm) (garbage : ℕ) (blank : RegInfos)
      (access : (op : Operation)
        → IsAccess op
        → (d : Debugger Vm) → R d (perform api garbage blank op d)) where
    get_code_text-Within : (addr nins : ℕ) → Within R (get_code_text api addr nins)
    unfolding get_code_text perform
    get_code_text-Within addr zero = R_refl
    get_code_text-Within addr (suc nins) =
        bind-Within R R_trans (Memory.get_code_text api addr)
          (λ (line, dist). get_code_text api (Symbols.add_ptr addr dist) nins >>= λ rest.
            pure ((line, dist) ∷ rest))
          (access (Operation.get_code_text addr) tt)
          (λ (line, dist).
            bind-Within R R_trans (get_code_text api (Symbols.add_ptr addr dist) nins)
              (λ rest. pure ((line, dist) ∷ rest))
              (get_code_text-Within (Symbols.add_ptr addr dist) nins) (λ rest. R_refl))

    pub read-Within : (req : Request) → IsRead req → (d : Debugger Vm) → R d (serve api blank req d)
    unfolding serve perform connect check_stopped Memory.get_execution_point set_regs read_mem
        write_mem get_symbols_by_ids get_symbols_by_addr get_symbols_by_names get_regs
        get_regs_infos find_regs_ids
    read-Within (Request.connect udp) q = unchanged (connect udp) (λ d. ground arith)
    read-Within (Request.check_stopped udp) q = unchanged (check_stopped udp) (λ d. ground arith)
    read-Within Request.stop q = absurd q
    read-Within (Request.get_regs ids) q =
        for_each-Within (Registers.get_reg api blank) ids (λ idx. access (Operation.get_reg idx) tt)
    read-Within (Request.get_regs_infos ids) q =
        for_each-Within (Registers.get_reg_infos api blank) ids
          (λ idx. access (Operation.get_reg_infos idx) tt)
    read-Within (Request.set_regs regs) q =
        run_each-Within (λ (id, buf). Registers.set_reg api id buf) regs
          (λ (id, buf). access (Operation.set_reg id buf) tt)
    read-Within (Request.find_regs_ids names) q =
        for_each-Within (Registers.find_reg_id api blank) names
          (λ name. access (Operation.find_reg_id name) tt)
    read-Within (Request.get_symbols_by_names names) q =
        for_each-Within (get_symbol_by_name api) names (λ name.
          bind-Within R R_trans (Symbols.find_sym_id api name) (Symbols.get_symbol_infos api)
            (access (Operation.find_sym_id name) tt)
            (λ id. access (Operation.get_symbol_infos id) tt))
    read-Within (Request.read_mem ranges) q =
        for_each-Within (λ (addr, len). Memory.read_mem api addr len) ranges
          (λ (addr, len). access (Operation.read_mem addr len) tt)
    read-Within (Request.write_mem ranges) q =
        run_each-Within (λ (addr, len, buf). Memory.write_mem api addr len buf) ranges
          (λ (addr, len, buf). access (Operation.write_mem addr len buf) tt)
    read-Within (Request.get_symbols_by_ids ids) q =
        for_each-Within (Symbols.get_symbol_infos api) ids
          (λ idx. access (Operation.get_symbol_infos idx) tt)
    read-Within (Request.add_breakpoints addrs) q = absurd q
    read-Within (Request.del_breakpoints addrs) q = absurd q
    read-Within (Request.get_symbols_by_addr addr size) q =
        bind-Within R R_trans (Symbols.get_symbols api addr size) (get_symbols_by_ids api)
          (access (Operation.get_symbols addr size) tt)
          (λ ids.
            for_each-Within (Symbols.get_symbol_infos api) ids
              (λ idx. access (Operation.get_symbol_infos idx) tt))
    read-Within (Request.get_code_text addr nins) q = get_code_text-Within addr nins
    read-Within (Request.resume type) q = absurd q

    -- With the operations that move the program or change the breakpoints, all requests.
    pub serve-Within :
        ((op : Operation) (d : Debugger Vm) → R d (perform api garbage blank op d))
        → (req : Request) (d : Debugger Vm) → R d (serve api blank req d)
    unfolding serve perform stop resume add_breakpoints del_breakpoints
    serve-Within all Request.stop = all Operation.stop
    serve-Within all (Request.resume type) = all (Operation.resume type)
    serve-Within all (Request.add_breakpoints addrs) =
        run_each-Within Breakpoints.add_breakpoint addrs
          (λ addr. all (Operation.add_breakpoint addr))
    serve-Within all (Request.del_breakpoints addrs) =
        run_each-Within Breakpoints.del_breakpoint addrs
          (λ addr. all (Operation.del_breakpoint addr))
    serve-Within all (Request.connect udp) = read-Within (Request.connect udp) tt
    serve-Within all (Request.check_stopped udp) = read-Within (Request.check_stopped udp) tt
    serve-Within all (Request.get_regs ids) = read-Within (Request.get_regs ids) tt
    serve-Within all (Request.get_regs_infos ids) = read-Within (Request.get_regs_infos ids) tt
    serve-Within all (Request.set_regs regs) = read-Within (Request.set_regs regs) tt
    serve-Within all (Request.find_regs_ids names) = read-Within (Request.find_regs_ids names) tt
    serve-Within all (Request.get_symbols_by_names names) =
        read-Within (Request.get_symbols_by_names names) tt
    serve-Within all (Request.read_mem ranges) = read-Within (Request.read_mem ranges) tt
    serve-Within all (Request.write_mem ranges) = read-Within (Request.write_mem ranges) tt
    serve-Within all (Request.get_symbols_by_ids ids) =
        read-Within (Request.get_symbols_by_ids ids) tt
    serve-Within all (Request.get_symbols_by_addr addr size) =
        read-Within (Request.get_symbols_by_addr addr size) tt
    serve-Within all (Request.get_code_text addr nins) =
        read-Within (Request.get_code_text addr nins) tt
