-- ===== src/Debugger/SymbolCache/Start.antt =====
-- src/server/debugger.cc: `on_init` leaves caches behind that agree with any machine.
use odb.Prelude.{nat_eq, ℕ, ◌≡◌, refl, sym, Option, some, [], arith}
use mathlib.Core.Path.{subst}
use odb.Prelude.Maps.{find, Sorted}
use odb.Prelude.Results.{ok}
use odb.RangeMap.{make, get}
use odb.RangeMap.Set.{make-IsValid}
use odb.Types.{VmInfos}
use odb.VmApi.{VmApi}
use odb.Debugger.{Debugger}
use odb.Debugger.Flow.{create, on_init}
use odb.Debugger.Symbols.{sub_ptr}
use odb.Debugger.SymbolCache.Table.{Loaded}
use odb.Debugger.SymbolCache.Preload.{Agrees}

module _ {Vm : Type 0} (api : VmApi Vm) (garbage : ℕ) (sym_at : ℕ → Option ℕ) where
  empty-Agrees :
      (d : Debugger Vm)
      → d.syms_pos ≡ []
      → d.map_syms ≡ []
      → d.syms_ranges ≡ some (make 0 (sub_ptr d.infos.memory_size 1) 0)
      → Agrees d.infos.memory_size sym_at d
  unfolding find make get
  empty-Agrees d pos syms ranges = record {
    sound = record {
      sorted = subst (Sorted 0) (sym pos) tt;
      placed = λ a s h. ground (arith, h, pos);
      kept = λ s i h. ground (arith, h, syms);
    };
    complete = λ k s l e.
        let l' : get (make 0 (sub_ptr d.infos.memory_size 1) 0) k ≡ ok 1 =
          subst (λ o. Loaded o k) ranges l in
        absurd (ground (arith, l'));
    ranges = record {
      map = make 0 (sub_ptr d.infos.memory_size 1) 0;
      there = ranges;
      valid = (make-IsValid 0 (sub_ptr d.infos.memory_size 1) 0 (omega arith)).0;
      bottom = refl;
      top = refl;
    };
    size = refl;
  }

  -- A new debugger whose `on_init` returned has caches that agree with any machine of that memory size,
  -- whatever its symbols are.
  pub on_init-Agrees :
      (vm : Vm) (infos : VmInfos) (ins_addr over : ℕ)
      → (on_init api garbage (create vm infos ins_addr over)).0 ≡ ok tt
      → Agrees
          (on_init api garbage (create vm infos ins_addr over)).1.infos.memory_size
          sym_at
          (on_init api garbage (create vm infos ins_addr over)).1
  unfolding on_init create
  on_init-Agrees vm infos ins_addr over h =
      empty-Agrees (on_init api garbage (create vm infos ins_addr over)).1 (ground (arith, h))
        (ground (arith, h)) (ground (arith, h))
