-- ===== src/RangeMap/Index.antt =====
-- `operator[]` and `size`: the runs in key order.
use odb.Prelude.{
  ℕ, zero, suc, ◌≤◌, ◌<◌, ◌≡◌, refl, List, [], ◌∷◌, some, none, get_elem?, arith, length,
}
use odb.Prelude.Results.{ok, Fault.{}}
use odb.RangeMap.{Node, RangeMap, Range, advance, find_node, end_key, range_of, at, size}
use odb.RangeMap.Spec.{Chain, IsValid}

module _ {T : Type 0} where
  advance_zero :
      (b top key : ℕ) (ns : List (Node T)) → Chain b top ns → key ≤ b → advance ns key ≡ 0
  unfolding advance
  advance_zero b top key [] c h = refl
  advance_zero b top key (m ∷ ms) c h = ground arith

  -- A node is found by the key at which it begins.
  advance-get_elem? :
      (n : Node T) (ns : List (Node T)) (top i : ℕ) (x : Node T)
      → Chain n.beg_key top ns
      → n.beg_key ≤ top
      → get_elem? (n ∷ ns) i ≡ some x
      → (advance ns x.beg_key ≡ i) × (n.beg_key ≤ x.beg_key) × (x.beg_key ≤ top)
  unfolding advance
  advance-get_elem? n [] top zero x c t h = ground arith
  advance-get_elem? n [] top (suc i) x c t h = cc
  advance-get_elem? n (m ∷ ms) top zero x c t h =
      ground (arith, advance_zero n.beg_key top n.beg_key (m ∷ ms) c)
  advance-get_elem? n (m ∷ ms) top (suc i) x c t h =
      ground (arith, advance-get_elem? m ms top i x c.2)

  get_elem?_total :
      (ns : List (Node T)) (i : ℕ) → i < length ns → (x : Node T) × (get_elem? ns i ≡ some x)
  get_elem?_total [] i h = absurd (omega arith)
  get_elem?_total (n ∷ ns) zero h = (n, refl)
  get_elem?_total (n ∷ ns) (suc i) h = get_elem?_total ns i (omega arith)

  get_elem?-none : (ns : List (Node T)) (i : ℕ) → length ns ≤ i → get_elem? ns i ≡ none
  get_elem?-none [] i h = refl
  get_elem?-none (n ∷ ns) zero h = absurd (omega arith)
  get_elem?-none (n ∷ ns) (suc i) h = get_elem?-none ns i (omega arith)

  get_elem?_later :
      (n : Node T) (ns : List (Node T)) (top i : ℕ) (x : Node T)
      → Chain n.beg_key top ns
      → get_elem? ns i ≡ some x
      → n.beg_key < x.beg_key
  get_elem?_later n [] top i x c h = cc
  get_elem?_later n (m ∷ ms) top i x c h = omega (arith, advance-get_elem? m ms top i x c.2 c.1 h)

  -- What `operator[]` says of the `i`-th run: it is the one that `range_of` returns for its first key,
  -- and the runs tile the bounds.
  pub record IsTile (m : RangeMap T) (i : ℕ) (r : Range T) : Type 0 where
    pub listed : at m i ≡ ok r
    pub found : range_of m r.low ≡ ok r
    pub first : i ≡ 0 → r.low ≡ m.min_key
    pub last : suc i ≡ size m → r.high ≡ m.max_key
    pub next : suc i < size m → (r' : Range T) × (at m (suc i) ≡ ok r') × (r'.low ≡ suc r.high)

  at-IsTile_nodes :
      (bottom top : ℕ) (ns : List (Node T)) (i : ℕ)
      → let m : RangeMap T = record { min_key = bottom; max_key = top; ranges = ns } in
        IsValid m → i < length ns → (r : Range T) × IsTile m i r
  unfolding at range_of find_node end_key size
  at-IsTile_nodes bottom top [] i w h = absurd (omega arith)
  at-IsTile_nodes bottom top (n ∷ ns) i w h =
      let m : RangeMap T = record { min_key = bottom; max_key = top; ranges = n ∷ ns } in
      let (x, e) = get_elem?_total (n ∷ ns) i h in
      let place =
        advance-get_elem? n ns top i x w.covers.1 (ground (arith, w.covers.0, w.inhabited)) e in
      (
        record { low = x.beg_key; high = end_key m i; val = x.val },
        record {
          listed = ground arith;
          found = ground (arith, place);
          first = λ z. ground (arith, w.covers.0);
          last = λ z. ground (arith, get_elem?-none ns i (omega arith));
          next = λ z.
              let (y, f) = get_elem?_total ns i (omega arith) in
              (
                record { low = y.beg_key; high = end_key m (suc i); val = y.val },
                ground arith,
                ground (arith, get_elem?_later n ns top i y w.covers.1 f),
              );
        },
      )

  -- In a valid map, for each index below the number of runs, `operator[]` returns the run that `range_of`
  -- returns for its first key. Run 0 begins at the first key of the bounds, each run begins right behind
  -- the end of the one before it, and the last one ends at the last key.
  pub at-IsTile : (m : RangeMap T) (i : ℕ) → IsValid m → i < size m → (r : Range T) × IsTile m i r
  unfolding size
  at-IsTile m i w h = at-IsTile_nodes m.min_key m.max_key m.ranges i w h
