-- ===== src/Debugger/SymbolCache/Table.antt =====
-- The symbols of a machine, and when the caches agree with them.
use odb.Prelude.{ℕ, ◌+◌, ◌≤◌, ◌<◌, ◌≡◌, true, List, Option, none, some, nat_eq}
use odb.Prelude.Maps.{contains, find, Sorted}
use odb.Prelude.Results.{ok}
use odb.RangeMap.{RangeMap, get}
use odb.Types.{SymbolInfos}
use odb.VmApi.{VmApi}
use odb.Debugger.{Debugger}

-- A machine with the symbols `sym_at`, at most one at an address: it lists all symbols of a range of the
-- memory and none that it does not have, and tells the address of each.
pub record HasSymbols {Vm : Type 0} (api : VmApi Vm) (memory_size : ℕ) (sym_at : ℕ → Option ℕ)
    : Type 0 where
  pub range :
      (addr size : ℕ) (vm : Vm)
      → addr + size ≤ memory_size
      → (ids : List ℕ) × ((api.get_symbols addr size vm).0 ≡ ok ids)
        × ((a s : ℕ) → addr ≤ a → a < addr + size → sym_at a ≡ some s → contains s ids ≡ true)
        × ((s : ℕ) → contains s ids ≡ true → (a : ℕ) × (sym_at a ≡ some s))
  pub symbol :
      (a s : ℕ) (vm : Vm)
      → sym_at a ≡ some s
      → (infos : SymbolInfos) × ((api.get_symb_infos s vm).0 ≡ ok infos) × (infos.addr ≡ a)

-- The stretch of memory around `k` has been asked for.
abbrev pub Loaded : Option (RangeMap ℕ) → ℕ → Type 0
Loaded none k = ⊥
Loaded (some m) k = get m k ≡ ok 1

-- No cache tells what the machine would not.
pub record IsSound {Vm : Type 0} (sym_at : ℕ → Option ℕ) (d : Debugger Vm) : Type 0 where
  pub sorted : Sorted 0 d.syms_pos
  pub placed : (a s : ℕ) → find a d.syms_pos ≡ some s → sym_at a ≡ some s
  pub kept :
      (s : ℕ) (infos : SymbolInfos)
      → find s d.map_syms ≡ some infos
      → find infos.addr d.syms_pos ≡ some s

-- Where memory has been asked for, the cache knows all symbols.
abbrev pub IsComplete : {Vm : Type 0} → (ℕ → Option ℕ) → Debugger Vm → Type 0
IsComplete sym_at d =
    (k s : ℕ) → Loaded d.syms_ranges k → sym_at k ≡ some s → find k d.syms_pos ≡ some s
