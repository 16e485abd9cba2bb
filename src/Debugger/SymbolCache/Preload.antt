-- ===== src/Debugger/SymbolCache/Preload.antt =====
-- src/server/debugger.cc: `_preload_symbols`, which asks for the parts of a stretch that are not loaded.
use mathlib.Core.Path.{subst}
use odb.Prelude.{
  ℕ, ◌+◌, ◌-◌, ◌^◌, ◌≤◌, ◌<◌, ◌≡◌, refl, sym, ◌∙◌, true, inl, inr, List, Option, some, nat_eq,
  arith, Bool-cases,
}
use odb.Prelude.Maps.{contains, find}
use odb.Prelude.Results.{Result, ok}
use odb.RangeMap.{RangeMap, get, set}
use odb.RangeMap.Spec.{inside}
use odb.RangeMap.Set.{Sets, set-Sets}
use odb.VmApi.{VmApi}
use odb.Debugger.{Debugger}
use odb.Debugger.Invariant.{Spans}
use odb.Debugger.Symbols.{load_symbols, mark, preload, add_ptr, sub_ptr}
use odb.Debugger.SymbolCache.Table.{HasSymbols, IsSound, IsComplete, Loaded}
use odb.Debugger.SymbolCache.Load.{HasAll, load_symbols-HasAll}

-- A debugger whose caches agree with the machine.
pub record Agrees {Vm : Type 0} (memory_size : ℕ) (sym_at : ℕ → Option ℕ) (d : Debugger Vm)
    : Type 0 where
  pub sound : IsSound sym_at d
  pub complete : IsComplete sym_at d
  pub ranges : Spans memory_size d.syms_ranges
  pub size : d.infos.memory_size ≡ memory_size

-- A call on `d` that returned, with the symbols from `low` to `high` loaded, and all others that were.
pub record Covers {Vm : Type 0} (memory_size : ℕ) (sym_at : ℕ → Option ℕ) (d : Debugger Vm)
    (low high : ℕ) (r : Result (Unit {0}) × Debugger Vm) : Type 0 where
  pub returns : r.0 ≡ ok tt
  pub agrees : Agrees memory_size sym_at r.1
  pub loaded : (k : ℕ) → low ≤ k → k ≤ high → Loaded r.1.syms_ranges k
  pub stays : (k : ℕ) → Loaded d.syms_ranges k → Loaded r.1.syms_ranges k

module _ {Vm : Type 0} (api : VmApi Vm) (memory_size : ℕ) (sym_at : ℕ → Option ℕ)
    (table : HasSymbols api memory_size sym_at) (fits : memory_size + 256 ≤ 2 ^ 64) where
  -- The debugger before its symbols are loaded.
  abbrev before : Debugger Vm → Vm → RangeMap ℕ → Debugger Vm
  before d vm m = record d { vm = vm; syms_ranges = some m }

  preload-load_symbols :
      (addr end : ℕ) (d : Debugger Vm) (map m' : RangeMap ℕ) (ids : List ℕ)
      → addr ≤ end
      → end < memory_size
      → d.syms_ranges ≡ some map
      → set map addr end 1 ≡ ok m'
      → (api.get_symbols addr (end - addr + 1) d.vm).0 ≡ ok ids
      → preload api addr end d
        ≡ load_symbols api ids (before d (api.get_symbols addr (end - addr + 1) d.vm).1 m')
  unfolding preload mark
  preload-load_symbols addr end d map m' ids le lt there sets got =
      let size : end - addr + 1 ≡ add_ptr (sub_ptr end addr) 1 = ground (arith, fits) in
      let got' : (api.get_symbols addr (add_ptr (sub_ptr end addr) 1) d.vm).0 ≡ ok ids =
        subst (λ n. (api.get_symbols addr n d.vm).0 ≡ ok ids) size got in
      subst
        (λ n.
          preload api addr end d
          ≡ load_symbols api ids (before d (api.get_symbols addr n d.vm).1 m'))
        (sym size) (ground (arith, got', there, sets))

  Sets-Agrees :
      (addr end : ℕ) (map m' : RangeMap ℕ) (ids : List ℕ) (d d2 : Debugger Vm)
      (r : Result (Unit {0}) × Debugger Vm)
      → Sets map addr end 1 m'
      → Agrees memory_size sym_at d
      → d.syms_ranges ≡ some map
      → ((a s : ℕ)
          → addr ≤ a
          → a < addr + (end - addr + 1)
          → sym_at a ≡ some s
          → contains s ids ≡ true)
      → HasAll api memory_size sym_at table ids d2 r
      → d2.syms_pos ≡ d.syms_pos
      → d2.syms_ranges ≡ some m'
      → d2.infos ≡ d.infos
      → addr ≤ end
      → Covers memory_size sym_at d addr end r
  Sets-Agrees addr end map m' ids d d2 r (e, reads, valid, reduced, bottom, top) ag there listed
        (loads, all) pos ranges infos le =
      record {
        returns = loads.returns;
        agrees = record {
          sound = loads.sound;
          complete = λ k s l at.
              let l' : get m' k ≡ ok 1 = subst (λ o. Loaded o k) (loads.same_ranges ∙ ranges) l in
              elim (Bool-cases (inside addr end k)) [
                | inl i ↦ all k s (listed k s (ground (arith, i)) (ground (arith, i)) at) at
                | inr o ↦ loads.remembers k s (
                    subst (λ p. find k p ≡ some s) (sym pos)
                      (ag.complete k s
                        (subst (λ o. Loaded o k) (sym there) (ground (arith, l', o, reads k))) at))
              ];
          ranges = subst (Spans memory_size) (sym (loads.same_ranges ∙ ranges)) (record {
            map = m';
            there = refl;
            valid = valid;
            bottom = ground (arith, bottom, there, ag.ranges.there, ag.ranges.bottom);
            top = ground (arith, top, there, ag.ranges.there, ag.ranges.top);
          });
          size = ground (arith, loads.same_infos, infos, ag.size);
        };
        loaded = λ k lo hi.
            subst (λ o. Loaded o k) (sym (loads.same_ranges ∙ ranges)) (ground (arith, reads k));
        stays = λ k l.
            let l' : get map k ≡ ok 1 = subst (λ o. Loaded o k) there l in
            subst (λ o. Loaded o k) (sym (loads.same_ranges ∙ ranges))
              (ground (arith, l', reads k));
      }

  -- What lies between two addresses is loaded.
  pub preload-Covers :
      (addr end : ℕ) (d : Debugger Vm)
      → Agrees memory_size sym_at d
      → addr ≤ end
      → end < memory_size
      → Covers memory_size sym_at d addr end (preload api addr end d)
  preload-Covers addr end d ag le lt =
      let (ids, got, listed, known) =
        table.range addr (end - addr + 1) d.vm (omega (arith, le, lt)) in
      let map = ag.ranges.map in
      let (m', sets) =
        set-Sets map addr end 1 ag.ranges.valid (ground (arith, ag.ranges.bottom)) le
          (ground (arith, ag.ranges.top, fits, lt)) in
      let d2 = before d (api.get_symbols addr (end - addr + 1) d.vm).1 m' in
      let sound2 : IsSound sym_at d2 = record {
        sorted = ag.sound.sorted;
        placed = ag.sound.placed;
        kept = ag.sound.kept;
      } in
      subst (Covers memory_size sym_at d addr end)
        (sym (preload-load_symbols addr end d map m' ids le lt ag.ranges.there sets.0 got))
        (Sets-Agrees addr end map m' ids d d2 (load_symbols api ids d2) sets ag ag.ranges.there
          listed (load_symbols-HasAll api memory_size sym_at table ids d2 sound2 known) refl refl
          refl le)
