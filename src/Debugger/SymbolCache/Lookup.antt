-- ===== src/Debugger/SymbolCache/Lookup.antt =====
-- src/server/debugger.cc: `_preload_symbols` skips what is loaded, and `get_symbol_at` answers as the
-- machine would.
use mathlib.Core.Path.{subst}
use odb.Prelude.{
  ℕ, ◌+◌, ◌-◌, ◌/◌, ◌^◌, ◌≤◌, ◌<◌, ◌≡◌, refl, sym, ap, ◌∙◌, ◌⊎◌, inl, inr, Option, none, some,
  nat_eq, arith, ltb, leb, ◌==◌, if◌then◌else◌, Option-cases, Bool-cases,
}
use odb.Prelude.Maps.{find}
use odb.Prelude.Results.{Result, ok}
use odb.RangeMap.{Range}
use odb.RangeMap.Ranges.{range_of-IsRun}
use odb.Types.{vm_sym_null}
use odb.VmApi.{VmApi}
use odb.Debugger.{Debugger}
use odb.Debugger.Symbols.{
  preload, preload_up_to, preload_from, preload_symbols, preload_around, get_symbol_at, range_at,
  last_addr, sym_load_size,
}
use odb.Debugger.SymbolCache.Table.{HasSymbols, Loaded}
use odb.Debugger.SymbolCache.Preload.{Agrees, Covers, preload-Covers}

module _ {Vm : Type 0} (api : VmApi Vm) (memory_size : ℕ) (sym_at : ℕ → Option ℕ)
    (table : HasSymbols api memory_size sym_at) (fits : memory_size + 256 ≤ 2 ^ 64) where
  -- The run around an address of the memory.
  run_at :
      (d : Debugger Vm) (addr : ℕ)
      → Agrees memory_size sym_at d
      → addr < memory_size
      → (r : Range ℕ) × (range_at addr d ≡ (ok r, d))
        × (r.low ≤ addr)
        × (addr ≤ r.high)
        × (r.high < memory_size)
        × ((k : ℕ) → r.low ≤ k → k ≤ r.high → r.val ≡ 1 → Loaded d.syms_ranges k)
  unfolding range_at
  run_at d addr ag lt =
      let (r, e, low, high, run, maximal) =
        range_of-IsRun ag.ranges.map addr ag.ranges.valid (ground (arith, ag.ranges.bottom))
          (ground (arith, ag.ranges.top, fits, lt)) in
      (
        r,
        ground (arith, e, ag.ranges.there),
        low,
        high,
        ground (arith, run, ag.ranges.top, fits, lt),
        λ k lo hi one.
            subst (λ o. Loaded o k) (sym ag.ranges.there) (run.constant k lo hi ∙ ap ok one),
      )

  -- Nothing to do.
  covered :
      (d : Debugger Vm) (low high : ℕ)
      → Agrees memory_size sym_at d
      → ((k : ℕ) → low ≤ k → k ≤ high → Loaded d.syms_ranges k)
      → Covers memory_size sym_at d low high (ok tt, d)
  covered d low high ag loaded = record {
    returns = refl;
    agrees = ag;
    loaded = loaded;
    stays = λ k l. l;
  }

  -- A longer stretch, of which the rest is loaded already.
  extended :
      (d : Debugger Vm) (low high low' high' : ℕ) (r : Result (Unit {0}) × Debugger Vm)
      → Covers memory_size sym_at d low' high' r
      → ((k : ℕ) → low ≤ k → k ≤ high → ((low' ≤ k) × (k ≤ high')) ⊎ Loaded d.syms_ranges k)
      → Covers memory_size sym_at d low high r
  extended d low high low' high' r c rest = record {
    returns = c.returns;
    agrees = c.agrees;
    loaded = λ k lo hi. elim (rest k lo hi) [ inl i ↦ c.loaded k i.0 i.1 | inr l ↦ c.stays k l ];
    stays = c.stays;
  }

  below_or : (a k : ℕ) → (k < a) ⊎ (a ≤ k)
  below_or a k = ground arith

  preload_up_to-Covers :
      (addr end : ℕ) (d : Debugger Vm)
      → Agrees memory_size sym_at d
      → addr ≤ end
      → end < memory_size
      → Covers memory_size sym_at d addr end (preload_up_to api addr end d)
  unfolding preload_up_to
  preload_up_to-Covers addr end d ag le lt =
      let (r, e, low, high, below, loaded) = run_at d end ag lt in
      elim (Bool-cases (r.val == 1)) [
        | inr fresh ↦
            subst (Covers memory_size sym_at d addr end) (sym (ground (arith, e, fresh)))
              (preload-Covers api memory_size sym_at table fits addr end d ag le lt)
        | inl known ↦ elim (Bool-cases (leb r.low addr)) [
          | inl all ↦
              subst (Covers memory_size sym_at d addr end) (sym (ground (arith, e, known, all))) (
                covered d addr end ag (λ k lo hi.
                  loaded k (ground (arith, lo, all)) (omega (arith, hi, high))
                    (ground (arith, known))))
          | inr part ↦
              let shorter : preload_up_to api addr end d ≡ preload api addr (r.low - 1) d =
                ground (arith, e, known, part, low, lt, fits) in
              subst (Covers memory_size sym_at d addr end) (sym shorter) (
                extended d addr end addr (r.low - 1) (preload api addr (r.low - 1) d)
                  (preload-Covers api memory_size sym_at table fits addr (r.low - 1) d ag
                    (ground (arith, part)) (omega (arith, low, lt)))
                  (λ k lo hi. elim (below_or r.low k) [
                    | inl b ↦ inl (lo, omega (arith, b))
                    | inr a ↦ inr (loaded k a (omega (arith, hi, high)) (ground (arith, known)))
                  ]))
        ]
      ]

  preload_from-Covers :
      (addr end : ℕ) (d : Debugger Vm)
      → Agrees memory_size sym_at d
      → addr ≤ end
      → end < memory_size
      → Covers memory_size sym_at d addr end (preload_from api addr end d)
  unfolding preload_from
  preload_from-Covers addr end d ag le lt =
      let (r, e, low, high, below, loaded) = run_at d addr ag (omega (arith, le, lt)) in
      elim (Bool-cases (r.val == 1)) [
        | inr fresh ↦
            subst (Covers memory_size sym_at d addr end) (sym (ground (arith, e, fresh)))
              (preload_up_to-Covers addr end d ag le lt)
        | inl known ↦ elim (Bool-cases (leb end r.high)) [
          | inl all ↦
              subst (Covers memory_size sym_at d addr end)
                (sym (ground (arith, e, known, all, below, fits)))
                (covered d addr end ag (λ k lo hi.
                  loaded k (omega (arith, lo, low)) (ground (arith, hi, all))
                    (ground (arith, known))))
          | inr part ↦
              let shorter : preload_from api addr end d ≡ preload_up_to api (r.high + 1) end d =
                ground (arith, e, known, part, below, fits) in
              subst (Covers memory_size sym_at d addr end) (sym shorter) (
                extended d addr end (r.high + 1) end (preload_up_to api (r.high + 1) end d)
                  (preload_up_to-Covers (r.high + 1) end d ag (ground (arith, part)) lt)
                  (λ k lo hi. elim (below_or (r.high + 1) k) [
                    | inl b ↦ inr (
                        loaded k (omega (arith, lo, low)) (omega (arith, b))
                          (ground (arith, known)))
                    | inr a ↦ inl (a, hi)
                  ]))
        ]
      ]

  -- Whatever is asked for inside the memory is loaded.
  pub preload_symbols-Covers :
      (addr size : ℕ) (d : Debugger Vm)
      → Agrees memory_size sym_at d
      → addr < memory_size
      → addr + size ≤ 2 ^ 64
      → Covers memory_size sym_at d addr
          (last_addr memory_size addr size)
          (preload_symbols api addr size d)
  unfolding preload_symbols
  preload_symbols-Covers addr size d ag lt small =
      subst
        (λ m.
          Covers memory_size sym_at d addr (last_addr memory_size addr size)
            (preload_from api addr (last_addr m addr size) d))
        (sym ag.size)
        (preload_from-Covers addr (last_addr memory_size addr size) d ag
          (ground (arith, lt, small, fits)) (ground (arith, lt, small, fits)))

  -- The beginning of the stretch around an address.
  abbrev around : ℕ → ℕ
  around addr = if ltb addr (sym_load_size / 2) then 0 else addr - sym_load_size / 2

  preload_around-Covers :
      (addr : ℕ) (d : Debugger Vm)
      → Agrees memory_size sym_at d
      → addr < memory_size
      → Covers memory_size sym_at d addr addr (preload_around api addr d)
  unfolding preload_around
  preload_around-Covers addr d ag lt =
      let c =
        preload_symbols-Covers (around addr) sym_load_size d ag (ground (arith, lt))
          (ground (arith, lt, fits)) in
      extended d addr addr (around addr) (last_addr memory_size (around addr) sym_load_size)
        (preload_symbols api (around addr) sym_load_size d) c
        (λ k lo hi. inl (ground (arith, lo, hi), ground (arith, lo, hi, lt, fits)))

  -- Where the stretch is loaded, the cache answers as the machine.
  answered :
      (addr : ℕ) (d : Debugger Vm)
      → Agrees memory_size sym_at d
      → Loaded d.syms_ranges addr
      → elim (find addr d.syms_pos) as (λ o. ℕ) [ none ↦ vm_sym_null | some id ↦ id ]
        ≡ elim (sym_at addr) as (λ o. ℕ) [ none ↦ vm_sym_null | some s ↦ s ]
  answered addr d ag l = ap (λ o. elim o as (λ o. ℕ) [ none ↦ vm_sym_null | some s ↦ s ]) same
    where
      same : find addr d.syms_pos ≡ sym_at addr
      same = elim (Option-cases (sym_at addr)) [
        | inr (s, e) ↦ ag.complete addr s l e ∙ sym e
        | inl e ↦ elim (Option-cases (find addr d.syms_pos)) [
          | inl f ↦ f ∙ sym e
          | inr (w, f) ↦ absurd (ground (arith, e, ag.sound.placed addr w f))
        ]
      ]

  -- On a machine that lists the symbols of each range and has at most one at an address, and whose memory
  -- ends at least 256 bytes before 2 ^ 64, a debugger whose caches agree with the machine answers for an
  -- address of the memory with the symbol that the machine has there, or with VM_SYM_NULL where it has
  -- none; it never fails, whatever has been loaded before, and the caches still agree.
  pub get_symbol_at-sym_at :
      (addr : ℕ) (d : Debugger Vm)
      → Agrees memory_size sym_at d
      → addr < memory_size
      → ((get_symbol_at api addr d).0 ≡ ok (elim (sym_at addr) [ none ↦ vm_sym_null | some s ↦ s ]))
        × Agrees memory_size sym_at (get_symbol_at api addr d).1
  unfolding get_symbol_at
  get_symbol_at-sym_at addr d ag lt =
      let c = preload_around-Covers addr d ag lt in
      let d' = (preload_around api addr d).1 in
      let e : get_symbol_at api addr d ≡ (
        ok (elim (find addr d'.syms_pos) as (λ o. ℕ) [ none ↦ vm_sym_null | some id ↦ id ]),
        d',
      ) =
        ground (arith, c.returns) in
      (
        ap (λ r. r.0) e
            ∙ ap ok (answered addr d' c.agrees (c.loaded addr (omega arith) (omega arith))),
        subst (Agrees memory_size sym_at) (sym (ap (λ r. r.1) e)) c.agrees,
      )
