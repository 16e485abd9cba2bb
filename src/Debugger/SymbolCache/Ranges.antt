-- ===== src/Debugger/SymbolCache/Ranges.antt =====
-- src/server/debugger.cc: `get_symbols` answers as the machine would.
use mathlib.Core.Path.{subst}
use odb.Prelude.{
  ℕ, suc, ◌+◌, ◌^◌, ◌≤◌, ◌<◌, ◌≡◌, ◌↔◌, refl, sym, ap, ◌∙◌, true, inl, inr, List, [], ◌∷◌, Option,
  some, nat_eq, arith, ltb, ◌==◌, Bool-cases,
}
use odb.Prelude.Maps.{contains, find, find_below, Sorted, lower_bound}
use odb.Prelude.Results.{ok}
use odb.VmApi.{VmApi}
use odb.Debugger.{Debugger}
use odb.Debugger.Symbols.{preload_symbols, get_symbols, symbols_before, add_ptr}
use odb.Debugger.SymbolCache.Table.{HasSymbols}
use odb.Debugger.SymbolCache.Preload.{Agrees}
use odb.Debugger.SymbolCache.Lookup.{preload_symbols-Covers}

-- The keys from `addr` on are found behind `lower_bound` as before.
lower_bound-Sorted : (b addr : ℕ) (m : List (ℕ × ℕ)) → Sorted b m → Sorted addr (lower_bound addr m)
unfolding lower_bound
lower_bound-Sorted b addr [] h = tt
lower_bound-Sorted b addr ((j, w) ∷ m) h = ground (arith, h, lower_bound-Sorted (suc j) addr m h.1)

find-lower_bound :
    (addr a : ℕ) (m : List (ℕ × ℕ)) → addr ≤ a → find a (lower_bound addr m) ≡ find a m
unfolding lower_bound find
find-lower_bound addr a [] h = refl
find-lower_bound addr a ((j, w) ∷ m) h = ground (arith, h, find-lower_bound addr a m h)

-- The walk up to `end` meets what is found there, and nothing else.
walk_finds :
    (b end s : ℕ) (m : List (ℕ × ℕ))
    → Sorted b m
    → contains s (symbols_before end m) ≡ true
    → (a : ℕ) × (b ≤ a) × (a < end) × (find a m ≡ some s)
unfolding symbols_before find contains
walk_finds b end s [] h c = absurd (ground (arith, c))
walk_finds b end s ((j, w) ∷ m) h c = elim (Bool-cases (ltb j end)) [
  | inr far ↦ absurd (ground (arith, c, far))
  | inl near ↦ elim (Bool-cases (w == s)) [
    | inl same ↦ (j, ground (arith, h), ground (arith, near), ground (arith, same))
    | inr other ↦
        let (a, le, lt, e) = walk_finds (suc j) end s m h.1 (ground (arith, c, near, other)) in
        (a, ground (arith, h, le), lt, ground (arith, le, e))
  ]
]

walk_meets :
    (b end s a : ℕ) (m : List (ℕ × ℕ))
    → Sorted b m
    → a < end
    → find a m ≡ some s
    → contains s (symbols_before end m) ≡ true
unfolding symbols_before find contains
walk_meets b end s a [] h lt e = absurd (ground (arith, e))
walk_meets b end s a ((j, w) ∷ m) h lt e = elim (Bool-cases (j == a)) [
  | inl here ↦ ground (arith, here, e, lt)
  | inr other ↦ elim (Bool-cases (ltb j a)) [
    | inl later ↦
        ground (arith, later, lt, walk_meets (suc j) end s a m h.1 lt (ground (arith, other, e)))
    | inr before ↦ absurd (ground (arith, other, before, e, find_below (suc j) a m h.1))
  ]
]

module _ {Vm : Type 0} (api : VmApi Vm) (memory_size : ℕ) (sym_at : ℕ → Option ℕ)
    (table : HasSymbols api memory_size sym_at) (fits : memory_size + 256 ≤ 2 ^ 64) where
  -- On a machine that lists the symbols of each range and has at most one at an address, and whose memory
  -- ends at least 256 bytes before 2 ^ 64, a debugger whose caches agree with the machine answers for a
  -- range that begins in the memory and does not leave it with exactly the symbols that the machine has
  -- there; it never fails, whatever has been loaded before, and the caches still agree.
  pub get_symbols-sym_at :
      (addr size : ℕ) (d : Debugger Vm)
      → Agrees memory_size sym_at d
      → addr < memory_size
      → addr + size ≤ memory_size
      → (ids : List ℕ) × ((get_symbols api addr size d).0 ≡ ok ids)
        × ((s : ℕ)
            → (contains s ids ≡ true)
              ↔ ((a : ℕ) × (addr ≤ a) × (a < addr + size) × (sym_at a ≡ some s)))
        × Agrees memory_size sym_at (get_symbols api addr size d).1
  unfolding get_symbols
  get_symbols-sym_at addr size d ag lt inside =
      let c =
        preload_symbols-Covers api memory_size sym_at table fits addr size d ag lt
          (omega (arith, inside, fits)) in
      let d' = (preload_symbols api addr size d).1 in
      let end : add_ptr addr size ≡ addr + size = ground (arith, inside, fits) in
      let tail = lower_bound addr d'.syms_pos in
      let ordered : Sorted addr tail =
        lower_bound-Sorted 0 addr d'.syms_pos c.agrees.sound.sorted in
      let e : get_symbols api addr size d ≡ (ok (symbols_before (addr + size) tail), d') =
        ground (arith, c.returns, end) in
      (
        symbols_before (addr + size) tail,
        ap (λ r. r.0) e,
        λ s. (
          λ h.
              let (a, le, lt, f) = walk_finds addr (addr + size) s tail ordered h in
              (
                a,
                le,
                lt,
                c.agrees.sound.placed a s (sym (find-lower_bound addr a d'.syms_pos le) ∙ f),
              ),
          λ (a, le, lt, at). walk_meets addr (addr + size) s a tail ordered lt (
              find-lower_bound addr a d'.syms_pos le
              ∙ c.agrees.complete a s (c.loaded a le (ground (arith, lt, inside, fits))) at),
        ),
        subst (Agrees memory_size sym_at) (sym (ap (λ r. r.1) e)) c.agrees,
      )
