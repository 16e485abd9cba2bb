-- ===== src/Debugger/SymbolCache/Tests.antt =====
-- The symbols of the scripted machine: one, at 40.
use odb.Prelude.{
  nat_eq, true, ◌↔◌, ◌≤◌, ◌<◌, List, ℕ, ◌≡◌, refl, Option, none, some, ◌==◌, if◌then◌else◌, arith,
}
use odb.Prelude.Maps.{contains, find}
use odb.Prelude.Results.{ok}
use odb.RangeMap.{make, get}
use odb.RangeMap.Set.{make-IsValid}
use odb.VmApi.{UpdateState.{ok_ins}}
use odb.Debugger.Flow.{create, on_init}
use odb.Debugger.Symbols.{get_symbol_at, get_symbols}
use odb.Debugger.SymbolCache.Ranges.{get_symbols-sym_at}
use odb.Debugger.Scripted.{scripted, paused, fresh, reports, vm_infos}
use odb.Debugger.SymbolCache.Table.{HasSymbols}
use odb.Debugger.SymbolCache.Preload.{Agrees}
use odb.Debugger.SymbolCache.Lookup.{get_symbol_at-sym_at}
use odb.Debugger.SymbolCache.Start.{on_init-Agrees}

abbrev one_symbol : ℕ → Option ℕ
one_symbol a = if a == 40 then some 5 else none

one_symbol_at : (a s : ℕ) → one_symbol a ≡ some s → (a ≡ 40) × (s ≡ 5)
one_symbol_at a s h = (ground (arith, h), ground (arith, h))

scripted-HasSymbols : HasSymbols scripted 1024 one_symbol
unfolding contains
scripted-HasSymbols = record {
  range = λ addr size vm h.
      (_, refl, λ a s lo hi e. ground (arith, one_symbol_at a s e), λ s h. (40, ground (arith, h)));
  symbol = λ a s vm e. (_, refl, ground (arith, one_symbol_at a s e));
}

paused-Agrees : Agrees 1024 one_symbol paused
unfolding create make get find
paused-Agrees = record {
  sound = record {
    sorted = tt;
    placed = λ a s h. ground (arith, h);
    kept = λ s i h. ground (arith, h);
  };
  complete = λ k s l e. absurd (ground (arith, l));
  ranges = record {
    map = make 0 1023 0;
    there = refl;
    valid = (make-IsValid 0 1023 0 (omega arith)).0;
    bottom = refl;
    top = refl;
  };
  size = refl;
}

get_symbol_at-sym_at_example :
    ((get_symbol_at scripted 40 paused).0 ≡ ok 5)
    × Agrees 1024 one_symbol (get_symbol_at scripted 40 paused).1
get_symbol_at-sym_at_example =
    get_symbol_at-sym_at scripted 1024 one_symbol scripted-HasSymbols (omega arith) 40 paused
      paused-Agrees (omega arith)

init_answers : (on_init scripted 0 fresh).0 ≡ ok tt
unfolding on_init create
init_answers = refl

on_init-Agrees_example : Agrees 1024 one_symbol (on_init scripted 0 fresh).1
unfolding on_init create
on_init-Agrees_example =
    on_init-Agrees scripted 0 one_symbol (reports ok_ins 8) vm_infos 0 0 init_answers

get_symbols-sym_at_example :
    (ids : List ℕ) × ((get_symbols scripted 16 64 paused).0 ≡ ok ids)
    × ((s : ℕ)
        → (contains s ids ≡ true) ↔ ((a : ℕ) × (16 ≤ a) × (a < 80) × (one_symbol a ≡ some s)))
    × Agrees 1024 one_symbol (get_symbols scripted 16 64 paused).1
get_symbols-sym_at_example =
    get_symbols-sym_at scripted 1024 one_symbol scripted-HasSymbols (omega arith) 16 64 paused
      paused-Agrees (omega arith) (omega arith)
