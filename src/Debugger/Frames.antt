-- ===== src/Debugger/Frames.antt =====
-- What the methods that read and write the machine leave alone: the state of the run and the breakpoints.
use odb.Prelude.{
  ℕ, ◌≡◌, List, [], ◌∷◌, nat_eq, ltb, ◌==◌, ◌||◌, none, some, Bool, true, false, if◌then◌else◌,
  arith,
}
use odb.Prelude.Maps.{find, lower_bound}
use odb.Prelude.Results.{Str, Result, ok, throws, fails, Fault.{undefined, assertion}}
use odb.RangeMap.{RangeMap, Range}
use odb.RangeMap
use odb.Types.{RegInfos, vm_sym_null}
use odb.VmApi.{VmApi}
use odb.Debugger.{Debugger, Method, ◌>>=◌, ◌>>◌, call, pure, gets}
use odb.Debugger.Registers.{load_reg, get_reg, get_reg_infos, find_reg_id}
use odb.Debugger.Symbols.{
  load_symbol, load_symbols, mark, range_at, preload, preload_up_to, preload_from, preload_symbols,
  preload_around, get_symbol_at, get_symbols, get_symbol_infos, find_sym_id, add_ptr, sub_ptr,
  last_addr, sym_load_size, symbols_before,
}

module _ {Vm : Type 0} where
  -- Everything but the machine and the caches.
  pub record Control (d d' : Debugger Vm) : Type 0 where
    pub infos : d'.infos ≡ d.infos
    pub state : d'.state ≡ d.state
    pub call_stack : d'.call_stack ≡ d.call_stack
    pub ins_addr : d'.ins_addr ≡ d.ins_addr
    pub breakpts : d'.breakpts ≡ d.breakpts
    pub step_over_depth : d'.step_over_depth ≡ d.step_over_depth

  pub Control-refl : (d : Debugger Vm) → Control d d
  Control-refl d = ground arith

  pub Control-trans : (a b c : Debugger Vm) → Control a b → Control b c → Control a c
  Control-trans a b c h k = ground (arith, h, k)

  -- A relation that a method keeps between the object before and after it, however it ends.
  abbrev pub Within : {A : Type 0} → (Debugger Vm → Debugger Vm → Type 0) → Method Vm A → Type 0
  Within R m = (d : Debugger Vm) → R d (m d).1

  module _ (R : Debugger Vm → Debugger Vm → Type 0)
      (R_trans : (a b c : Debugger Vm) → R a b → R b c → R a c) where
    pub bind-Within :
        {A B : Type 0} (m : Method Vm A) (f : A → Method Vm B)
        → Within R m
        → ((a : A) → Within R (f a))
        → Within R (m >>= f)
    bind-Within {A = A} {B = B} m f hm hf d = go (m d).0 (m d).1 (hm d)
      where
        go :
            (r : Result A) (d' : Debugger Vm)
            → R d d'
            → R d
                (elim r as (λ r. Result B × Debugger Vm) [
                  | ok a ↦ f a d'
                  | throws e ↦ (throws e, d')
                  | fails x ↦ (fails x, d')
                ]).1
        go (ok a) d' h = R_trans d d' (f a d').1 h (hf a d')
        go (throws e) d' h = h
        go (fails x) d' h = h

module _ {Vm : Type 0} (api : VmApi Vm) (blank : RegInfos) where
  pub load_reg-Control : (id : ℕ) → Within Control (load_reg api blank id)
  unfolding load_reg
  load_reg-Control id d = ground arith

  pub get_reg-Control : (id : ℕ) → Within Control (get_reg api blank id)
  unfolding get_reg
  get_reg-Control id d = ground arith

  pub get_reg_infos-Control : (id : ℕ) → Within Control (get_reg_infos api blank id)
  unfolding get_reg_infos
  get_reg_infos-Control id d = ground arith

  pub find_reg_id-Control : (name : Str) → Within Control (find_reg_id api blank name)
  unfolding find_reg_id
  find_reg_id-Control name d = ground arith

module _ {Vm : Type 0} where
  pub mark-Control : (addr end : ℕ) → Within Control (mark {Vm = Vm} addr end)
  unfolding mark
  mark-Control addr end d = ground arith

module _ {Vm : Type 0} (api : VmApi Vm) where
  pub load_symbol-Control : (id : ℕ) → Within Control (load_symbol api id)
  unfolding load_symbol
  load_symbol-Control id d = ground arith

  -- The methods on symbols keep whatever the calls of the machine, `_load_symbol` and `set` keep.
  module _ (R : Debugger Vm → Debugger Vm → Type 0) (R_refl : (a : Debugger Vm) → R a a)
      (R_trans : (a b c : Debugger Vm) → R a b → R b c → R a c)
      (R_vm : (a : Debugger Vm) (vm : Vm) → R a (record a { vm = vm }))
      (R_load : (id : ℕ) → Within R (load_symbol api id))
      (R_mark : (addr end : ℕ) → Within R (mark {Vm = Vm} addr end)) where
    pub load_symbols-Within : (ids : List ℕ) → Within R (load_symbols api ids)
    unfolding load_symbols
    load_symbols-Within [] = λ d. R_refl d
    load_symbols-Within (id ∷ ids) =
        bind-Within R R_trans (load_symbol api id) (λ _. load_symbols api ids) (R_load id)
          (λ _. load_symbols-Within ids)

    pub preload-Within : (addr end : ℕ) → Within R (preload api addr end)
    unfolding preload
    preload-Within addr end =
        bind-Within R R_trans (call (api.get_symbols addr (add_ptr (sub_ptr end addr) 1)))
          (λ syms. mark addr end >> load_symbols api syms) (λ d. R_vm d _)
          (λ syms.
            bind-Within R R_trans (mark addr end) (λ _. load_symbols api syms) (R_mark addr end)
              (λ _. load_symbols-Within syms))

    range_at-Within : (addr : ℕ) → Within R (range_at {Vm = Vm} addr)
    unfolding range_at
    range_at-Within addr d =
        elim d.syms_ranges
          as (λ o.
            R d
              (elim o as (λ o. Result (Range ℕ) × Debugger Vm) [
                | none ↦ (fails undefined, d)
                | some m ↦ (RangeMap.range_of m addr, d)
              ]).1) [ none ↦ R_refl d | some m ↦ R_refl d ]

    if-Within :
        (b : Bool) (m : Method Vm (Unit {0})) → Within R m → Within R (if b then pure tt else m)
    if-Within true m h = R_refl
    if-Within false m h = h

    preload_up_to-Within : (addr end : ℕ) → Within R (preload_up_to api addr end)
    unfolding preload_up_to
    preload_up_to-Within addr end =
        bind-Within R R_trans (range_at end)
          (λ high_range.
            let end' = if high_range.val == 1 then sub_ptr high_range.low 1 else end in
            let done =
              if high_range.val == 1 then high_range.low == 0 || ltb end' addr else false in
            if done then pure tt else preload api addr end')
          (range_at-Within end) (λ high_range. if-Within _ _ (preload-Within addr _))

    preload_from-Within : (addr end : ℕ) → Within R (preload_from api addr end)
    unfolding preload_from
    preload_from-Within addr end =
        bind-Within R R_trans (range_at addr)
          (λ low_range.
            let addr' = if low_range.val == 1 then add_ptr low_range.high 1 else addr in
            let done = if low_range.val == 1 then addr' == 0 || ltb end addr' else false in
            if done then pure tt else preload_up_to api addr' end)
          (range_at-Within addr) (λ low_range. if-Within _ _ (preload_up_to-Within _ end))

    pub preload_symbols-Within : (addr size : ℕ) → Within R (preload_symbols api addr size)
    unfolding preload_symbols
    preload_symbols-Within addr size d =
        preload_from-Within addr (last_addr d.infos.memory_size addr size) d

    pub get_symbol_at-Within : (addr : ℕ) → Within R (get_symbol_at api addr)
    unfolding get_symbol_at preload_around
    get_symbol_at-Within addr =
        bind-Within R R_trans (preload_around api addr)
          (λ _. gets (λ d. elim (find addr d.syms_pos) [ none ↦ vm_sym_null | some id ↦ id ]))
          (preload_symbols-Within _ sym_load_size) (λ _. R_refl)

    pub get_symbols-Within : (addr size : ℕ) → Within R (get_symbols api addr size)
    unfolding get_symbols
    get_symbols-Within addr size =
        bind-Within R R_trans (preload_symbols api addr size)
          (λ _. gets (λ d. symbols_before (add_ptr addr size) (lower_bound addr d.syms_pos)))
          (preload_symbols-Within addr size) (λ _. R_refl)

    pub get_symbol_infos-Within : (idx : ℕ) → Within R (get_symbol_infos api idx)
    unfolding get_symbol_infos
    get_symbol_infos-Within idx =
        bind-Within R R_trans (load_symbol api idx)
          (λ _ d.
            (elim (find idx d.map_syms) [ none ↦ fails assertion | some infos ↦ ok infos ], d))
          (R_load idx) (λ _. R_refl)

    pub find_sym_id-Within : (name : Str) → Within R (find_sym_id api name)
    unfolding find_sym_id
    find_sym_id-Within name =
        bind-Within R R_trans (call (api.find_sym_id name)) (λ id. load_symbol api id >> pure id)
          (λ d. R_vm d _)
          (λ id.
            bind-Within R R_trans (load_symbol api id) (λ _. pure id) (R_load id) (λ _. R_refl))
