-- ===== src/Debugger/SymbolCache/Load.antt =====
-- src/server/debugger.cc: `_load_symbol`, and the loop over the symbols of a stretch.
use mathlib.Core.Path.{subst}
use odb.Prelude.{
  ℕ, ◌≡◌, refl, sym, ap, ◌∙◌, true, inl, inr, List, [], ◌∷◌, Option, some, nat_eq, arith, ◌==◌,
  Option-cases, Bool-cases,
}
use odb.Prelude.Maps.{
  str_eq, contains, find, Sorted, emplace, emplace_sorted, find-emplace, find-emplace_sorted,
  emplace_sorted-Sorted,
}
use odb.Prelude.Results.{Result, ok}
use odb.Types.{SymbolInfos}
use odb.VmApi.{VmApi}
use odb.Debugger.{Debugger, >>=_ok}
use odb.Debugger.Symbols.{load_symbol, load_symbols, fetch_symbol}
use odb.Debugger.SymbolCache.Table.{HasSymbols, IsSound}

module _ {Vm : Type 0} (sym_at : ℕ → Option ℕ) where
  -- What loading does: it returns, keeps the caches sound and the map of the memory as it is, and
  -- forgets no symbol.
  pub record Loads (d : Debugger Vm) (r : Result (Unit {0}) × Debugger Vm) : Type 0 where
    pub returns : r.0 ≡ ok tt
    pub sound : IsSound sym_at r.1
    pub same_ranges : r.1.syms_ranges ≡ d.syms_ranges
    pub same_infos : r.1.infos ≡ d.infos
    pub remembers : (a s : ℕ) → find a d.syms_pos ≡ some s → find a r.1.syms_pos ≡ some s

module _ (sym_at : ℕ → Option ℕ) (pos : List (ℕ × ℕ)) (sorted : Sorted 0 pos)
    (placed : (a s : ℕ) → find a pos ≡ some s → sym_at a ≡ some s) where
  -- A symbol of the machine is found at its address once it has been emplaced there.
  emplaced_there : (a s : ℕ) → sym_at a ≡ some s → find a (emplace_sorted a s pos) ≡ some s
  emplaced_there a s at = elim (Option-cases (find a pos)) [
    | inl e ↦ ground (arith, e, find-emplace_sorted 0 a a s pos sorted)
    | inr (w, e) ↦ ground (arith, e, at, placed a w e, find-emplace_sorted 0 a a s pos sorted)
  ]

  emplaced_keeps : (a s b t : ℕ) → find b pos ≡ some t → find b (emplace_sorted a s pos) ≡ some t
  emplaced_keeps a s b t e = ground (arith, e, find-emplace_sorted 0 a b s pos sorted)

  emplaced_placed :
      (a s b t : ℕ)
      → sym_at a ≡ some s
      → find b (emplace_sorted a s pos) ≡ some t
      → sym_at b ≡ some t
  emplaced_placed a s b t at h = elim (Option-cases (find b pos)) [
    | inl e ↦ ground (arith, e, h, at, find-emplace_sorted 0 a b s pos sorted)
    | inr (w, e) ↦ ground (arith, e, h, placed b w e, find-emplace_sorted 0 a b s pos sorted)
  ]

module _ {Vm : Type 0} (api : VmApi Vm) (memory_size : ℕ) (sym_at : ℕ → Option ℕ)
    (table : HasSymbols api memory_size sym_at) where
  -- A symbol is loaded, and found at its address.
  Has : ℕ → ℕ → Debugger Vm → Result (Unit {0}) × Debugger Vm → Type 0
  Has a s d r = Loads sym_at d r × (find a r.1.syms_pos ≡ some s)

  -- The debugger with one more symbol.
  abbrev with_symbol : ℕ → SymbolInfos → Debugger Vm → Vm → Debugger Vm
  with_symbol s infos d vm = record d {
    vm = vm;
    map_syms = emplace s infos d.map_syms;
    smap_syms = emplace infos.name s d.smap_syms;
    syms_pos = emplace_sorted infos.addr s d.syms_pos;
  }

  with_symbol-IsSound :
      (d : Debugger Vm) (vm : Vm) (s : ℕ) (infos : SymbolInfos)
      → IsSound sym_at d
      → sym_at infos.addr ≡ some s
      → IsSound sym_at (with_symbol s infos d vm)
  with_symbol-IsSound d vm s infos sound at = record {
    sorted = emplace_sorted-Sorted 0 infos.addr s d.syms_pos sound.sorted (omega arith);
    placed =
        λ b t h. emplaced_placed sym_at d.syms_pos sound.sorted sound.placed infos.addr s b t at h;
    kept = λ t i h. elim (Option-cases (find t d.map_syms)) [
      | inl e ↦ ground (
        arith,
        e,
        h,
        find-emplace s t infos d.map_syms,
        emplaced_there sym_at d.syms_pos sound.sorted sound.placed infos.addr s at,
      )
      | inr (w, e) ↦ ground (
        arith,
        e,
        h,
        find-emplace s t infos d.map_syms,
        emplaced_keeps sym_at d.syms_pos sound.sorted sound.placed infos.addr s w.addr t
            (sound.kept t w e),
      )
    ];
  }

  fetch_symbol-Has :
      (d : Debugger Vm) (a s : ℕ)
      → IsSound sym_at d
      → sym_at a ≡ some s
      → Has a s d (fetch_symbol api s d)
  unfolding Has fetch_symbol
  fetch_symbol-Has d a s sound at =
      let (infos, got, place) = table.symbol a s d.vm at in
      let vm = (api.get_symb_infos s d.vm).1 in
      let e : fetch_symbol api s d ≡ (ok tt, with_symbol s infos d vm) = ground (arith, got) in
      let at' : sym_at infos.addr ≡ some s = ap sym_at place ∙ at in
      subst (λ r. Loads sym_at d r × (find a r.1.syms_pos ≡ some s)) (sym e)
        (
          record {
            returns = refl;
            sound = with_symbol-IsSound d vm s infos sound at';
            same_ranges = refl;
            same_infos = refl;
            remembers = emplaced_keeps sym_at d.syms_pos sound.sorted sound.placed infos.addr s;
          },
          subst (λ x. find x (emplace_sorted infos.addr s d.syms_pos) ≡ some s) place
              (emplaced_there sym_at d.syms_pos sound.sorted sound.placed infos.addr s at'),
        )

  -- A symbol that the map of symbols has is at its address.
  kept_there :
      (d : Debugger Vm) (a s : ℕ) (infos : SymbolInfos)
      → IsSound sym_at d
      → sym_at a ≡ some s
      → find s d.map_syms ≡ some infos
      → find a d.syms_pos ≡ some s
  kept_there d a s infos sound at e =
      let there = sound.kept s infos e in
      let (i1, got1, place1) = table.symbol infos.addr s d.vm (sound.placed infos.addr s there) in
      let (i2, got2, place2) = table.symbol a s d.vm at in
      let same : infos.addr ≡ a = ground (arith, got1, got2, place1, place2) in
      subst (λ x. find x d.syms_pos ≡ some s) same there

  load_symbol-Has :
      (d : Debugger Vm) (a s : ℕ)
      → IsSound sym_at d
      → sym_at a ≡ some s
      → Has a s d (load_symbol api s d)
  unfolding Has load_symbol
  load_symbol-Has d a s sound at = elim (Option-cases (find s d.map_syms)) [
    | inl e ↦
        subst (λ r. Loads sym_at d r × (find a r.1.syms_pos ≡ some s)) (sym (ground (arith, e)))
          (fetch_symbol-Has d a s sound at)
    | inr (infos, e) ↦
        subst (λ r. Loads sym_at d r × (find a r.1.syms_pos ≡ some s)) (sym (ground (arith, e)))
          (
            record {
              returns = refl;
              sound = sound;
              same_ranges = refl;
              same_infos = refl;
              remembers = λ b t h. h;
            },
            kept_there d a s infos sound at e,
          )
  ]

  -- All these symbols are loaded, and each is found at its address.
  abbrev pub HasAll : List ℕ → Debugger Vm → Result (Unit {0}) × Debugger Vm → Type 0
  HasAll ids d r =
      Loads sym_at d r
      × ((a s : ℕ) → contains s ids ≡ true → sym_at a ≡ some s → find a r.1.syms_pos ≡ some s)

  -- The loop loads all the symbols, which the machine has.
  pub load_symbols-HasAll :
      (ids : List ℕ) (d : Debugger Vm)
      → IsSound sym_at d
      → ((s : ℕ) → contains s ids ≡ true → (a : ℕ) × (sym_at a ≡ some s))
      → HasAll ids d (load_symbols api ids d)
  unfolding load_symbols Has contains
  load_symbols-HasAll [] d sound known = (
    record {
      returns = refl;
      sound = sound;
      same_ranges = refl;
      same_infos = refl;
      remembers = λ b t h. h;
    },
    λ a s h at. absurd (ground (arith, h)),
  )
  load_symbols-HasAll (id ∷ ids) d sound known =
      let (a0, at0) = known id (ground arith) in
      let d1 = (load_symbol api id d).1 in
      let (first, there) = load_symbol-Has d a0 id sound at0 in
      let (rest, all) =
        load_symbols-HasAll ids d1 first.sound (λ s h. known s (ground (arith, h))) in
      subst (HasAll (id ∷ ids) d)
        (sym (>>=_ok (load_symbol api id) (λ _. load_symbols api ids) d first.returns))
        (
          record {
            returns = rest.returns;
            sound = rest.sound;
            same_ranges = rest.same_ranges ∙ first.same_ranges;
            same_infos = rest.same_infos ∙ first.same_infos;
            remembers = λ b t h. rest.remembers b t (first.remembers b t h);
          },
          λ a s h at. elim (Bool-cases (id == s)) [
            | inl same ↦ rest.remembers a s (
                subst (λ x. find a d1.syms_pos ≡ some x) (ground (arith, same))
                  (load_symbol-Has d a id sound (ground (arith, same, at))).1)
            | inr other ↦ all a s (ground (arith, h, other)) at
          ],
        )
