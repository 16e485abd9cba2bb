-- ===== src/Debugger/Symbols.antt =====
-- src/server/debugger.cc: the symbols, which are loaded by stretches of memory; `syms_ranges` maps each
-- address to 1 once its stretch has been asked for.
use odb.Prelude.{
  ℕ, ◌+◌, ◌-◌, ◌/◌, ◌%◌, ◌^◌, false, ◌||◌, List, [], ◌∷◌, none, some, ltb, ◌==◌, if◌then◌else◌, min,
  max, nat_eq,
}
use odb.Prelude.Maps.{find, emplace, emplace_sorted, lower_bound, str_eq}
use odb.Prelude.Results.{Str, ok, throws, fails, Fault.{undefined, assertion}}
use odb.RangeMap.{RangeMap, Range}
use odb.RangeMap
use odb.Types.{SymbolInfos, vm_sym_null}
use odb.VmApi.{VmApi}
use odb.Debugger.{Method, pure, lift, ◌>>=◌, ◌>>◌, gets, modify, call}

abbrev pub sym_load_size : ℕ
sym_load_size = 256

-- `vm_ptr_t` arithmetic.
abbrev pub add_ptr : ℕ → ℕ → ℕ
add_ptr a b = (a + b) % 2 ^ 64

abbrev pub sub_ptr : ℕ → ℕ → ℕ
sub_ptr a b = (a + 2 ^ 64 - b) % 2 ^ 64

-- The last address of the stretch that is asked for.
abbrev pub last_addr : ℕ → ℕ → ℕ → ℕ
last_addr memory_size addr size =
    min (sub_ptr (add_ptr addr (max size sym_load_size)) 1) (sub_ptr memory_size 1)

-- The symbols of a walk that began at `lower_bound`, up to `end`.
unfoldable pub symbols_before : ℕ → List (ℕ × ℕ) → List ℕ
symbols_before end [] = []
symbols_before end ((addr, id) ∷ rest) = if ltb addr end then id ∷ symbols_before end rest else []

module _ {Vm : Type 0} where
  -- `_syms_ranges->range_of(addr)`, through a null pointer before `on_init`.
  unfoldable pub range_at : ℕ → Method Vm (Range ℕ)
  range_at addr d = elim d.syms_ranges [
    | none ↦ (fails undefined, d)
    | some m ↦ (RangeMap.range_of m addr, d)
  ]

  -- `_syms_ranges->set(addr, end, 1)`.
  unfoldable pub mark : ℕ → ℕ → Method Vm (Unit {0})
  mark addr end d = elim d.syms_ranges [
    | none ↦ (fails undefined, d)
    | some m ↦ elim (RangeMap.set m addr end 1) [
      | ok m' ↦ (ok tt, record d { syms_ranges = some m' })
      | throws e ↦ (throws e, d)
      | fails x ↦ (fails x, d)
    ]
  ]

module _ {Vm : Type 0} (api : VmApi Vm) where
  -- `_load_symbol` where the symbol is not in the map yet.
  unfoldable pub fetch_symbol : ℕ → Method Vm (Unit {0})
  fetch_symbol id = do
    infos ← call (api.get_symb_infos id)
    modify λ d. record d {
      map_syms = emplace id infos d.map_syms;
      smap_syms = emplace infos.name id d.smap_syms;
      syms_pos = emplace_sorted infos.addr id d.syms_pos;
    }

  unfoldable pub load_symbol : ℕ → Method Vm (Unit {0})
  unfolding fetch_symbol
  load_symbol id d = elim (find id d.map_syms) [ some _ ↦ (ok tt, d) | none ↦ fetch_symbol id d ]

  -- `for (const auto &s : syms) _load_symbol(s)`.
  unfoldable pub load_symbols : List ℕ → Method Vm (Unit {0})
  load_symbols [] = pure tt
  load_symbols (s ∷ syms) = load_symbol s >> load_symbols syms

  -- The end of `_preload_symbols`, once both ends of the stretch are known.
  unfoldable pub preload : ℕ → ℕ → Method Vm (Unit {0})
  unfolding mark load_symbols
  preload addr end = do
    syms ← call (api.get_symbols addr (add_ptr (sub_ptr end addr) 1))
    mark addr end
    load_symbols syms

  -- From `high_range` on.
  unfoldable pub preload_up_to : ℕ → ℕ → Method Vm (Unit {0})
  unfolding preload range_at
  preload_up_to addr end = do
    high_range ← range_at end
    let end' = if high_range.val == 1 then sub_ptr high_range.low 1 else end
    let done = if high_range.val == 1 then high_range.low == 0 || ltb end' addr else false
    if done then pure tt else preload addr end'

  -- From `low_range` on.
  unfoldable pub preload_from : ℕ → ℕ → Method Vm (Unit {0})
  unfolding preload_up_to range_at
  preload_from addr end = do
    low_range ← range_at addr
    let addr' = if low_range.val == 1 then add_ptr low_range.high 1 else addr
    let done = if low_range.val == 1 then addr' == 0 || ltb end addr' else false
    if done then pure tt else preload_up_to addr' end

  unfoldable pub preload_symbols : ℕ → ℕ → Method Vm (Unit {0})
  unfolding preload_from
  preload_symbols addr size = do
    memory_size ← gets (λ d. d.infos.memory_size)
    preload_from addr (last_addr memory_size addr size)

  -- `_preload_symbols` with `addr` in the middle of the stretch.
  unfoldable pub preload_around : ℕ → Method Vm (Unit {0})
  unfolding preload_symbols
  preload_around addr =
      preload_symbols (if ltb addr (sym_load_size / 2) then 0 else addr - sym_load_size / 2)
        sym_load_size

  unfoldable pub get_symbol_at : ℕ → Method Vm ℕ
  unfolding preload_around
  get_symbol_at addr = do
    preload_around addr
    gets (λ d. elim (find addr d.syms_pos) [ none ↦ vm_sym_null | some id ↦ id ])

  unfoldable pub get_symbols : ℕ → ℕ → Method Vm (List ℕ)
  unfolding preload_symbols symbols_before
  get_symbols addr size = do
    preload_symbols addr size
    gets (λ d. symbols_before (add_ptr addr size) (lower_bound addr d.syms_pos))

  unfoldable pub get_symbol_infos : ℕ → Method Vm SymbolInfos
  unfolding load_symbol
  get_symbol_infos idx = do
    load_symbol idx
    found ← gets (λ d. find idx d.map_syms)
    lift (elim found [ none ↦ fails assertion | some infos ↦ ok infos ])

  unfoldable pub find_sym_id : Str → Method Vm ℕ
  unfolding load_symbol
  find_sym_id name = do id ← call (api.find_sym_id name); load_symbol id; pure id
