-- ===== src/RangeMap/Set.antt =====
-- `set` behind its contract: what it returns, what `get` reads afterwards, and the shape of the vector.
use odb.Prelude.{ℕ, suc, ◌≤◌, ◌<◌, ◌≡◌, refl, List, [], ◌∷◌, ◌⊎◌, arith, if◌then◌else◌, Eq}
use odb.Prelude.Results.{ok, fails, Fault.{assertion}}
use odb.RangeMap.{Node, RangeMap, make, find_node, get, fix, set}
use odb.RangeMap.Spec.{node_at, Chain, HasKey, IsValid, IsReduced, inside}
use odb.RangeMap.Walk.{get-node_at, node_at-le, node_at_last}
use odb.RangeMap.Update.{
  cut_rest, cut-cut_rest, cut_rest-Chain, cut_rest-val, cut_rest-HasKey, paint_node, paint,
  advance-below, fill-paint_first, node_at-paint, paint-Chain, fix_rest, fix_from-fix_rest,
  fix_rest-Chain, fix_rest-val, fix_rest-Differ,
}
use odb.RangeMap.Cuts.{
  high_rest, cut_high-high_rest, high_rest-Chain, high_rest-val, high_rest-HasKey, high_rest_stop,
}

module _ {T : Type 0} ⦃e : Eq T⦄ (bottom top low high : ℕ) (v : T) (n : Node T)
    (ns : List (Node T)) where
  abbrev cuts : List (Node T)
  cuts = high_rest n (cut_rest n ns low) top high

  abbrev written : List (Node T)
  written =
      paint_node low (suc high) v n
      ∷ fix_rest (paint_node low (suc high) v n) (paint low (suc high) v cuts)

  module _ (c : Chain n.beg_key top ns) (b : n.beg_key ≡ bottom) (lo : bottom ≤ low)
      (lh : low ≤ high) (hi : high ≤ top) where
    cuts-Chain : Chain n.beg_key top cuts
    cuts-Chain =
        high_rest-Chain bottom top high n (cut_rest n ns low) []
          (cut_rest-Chain n ns top low c (omega arith) (omega arith)) (omega arith) hi

    cuts-HasKey : HasKey low n cuts
    cuts-HasKey =
        high_rest-HasKey bottom top high n (cut_rest n ns low) []
          (cut_rest-Chain n ns top low c (omega arith) (omega arith)) (omega arith) hi low
          (omega arith) lh (cut_rest-HasKey n ns low (omega arith))

    set-written :
        set (record { min_key = bottom; max_key = top; ranges = n ∷ ns }) low high v
        ≡ ok (record { min_key = bottom; max_key = top; ranges = written })
    unfolding set find_node fix
    set-written = ground (
      arith,
      cut-cut_rest n ns top low c,
      cut_high-high_rest bottom top high n (cut_rest n ns low) (n ∷ ns)
          (cut_rest-Chain n ns top low c (omega arith) (omega arith)) (omega arith) hi,
      advance-below n cuts top low cuts-Chain (omega arith) cuts-HasKey,
      fill-paint_first n top low (suc high) v cuts cuts-Chain,
      fix_from-fix_rest (paint_node low (suc high) v n) (paint low (suc high) v cuts),
    )

    written-val :
        (key : ℕ)
        → bottom ≤ key
        → key ≤ top
        → (node_at
            (paint_node low (suc high) v n)
            (fix_rest (paint_node low (suc high) v n) (paint low (suc high) v cuts))
            key).val
          ≡ (if inside low high key then v else (node_at n ns key).val)
    written-val key bk kt = ground (
      arith,
      fix_rest-val (paint_node low (suc high) v n) n.beg_key top (paint low (suc high) v cuts) key
          (paint-Chain n.beg_key top low (suc high) v cuts cuts-Chain),
      node_at-paint n cuts low (suc high) v key,
      node_at-le n cuts key,
      node_at_last n cuts top low key cuts-Chain (omega arith) cuts-HasKey,
      high_rest_stop bottom top high n (cut_rest n ns low) []
          (cut_rest-Chain n ns top low c (omega arith) (omega arith)) (omega arith) hi key kt,
      high_rest-val bottom top high n (cut_rest n ns low) []
          (cut_rest-Chain n ns top low c (omega arith) (omega arith)) (omega arith) hi key,
      cut_rest-val n ns low key,
    )

module _ {T : Type 0} ⦃e : Eq T⦄ where
  -- What a `set` within the bounds does to the map.
  abbrev pub Sets : RangeMap T → ℕ → ℕ → T → RangeMap T → Type 0
  Sets m low high v m' =
      (set m low high v ≡ ok m')
      × ((key : ℕ) → get m' key ≡ (if inside low high key then ok v else get m key))
      × IsValid m'
      × IsReduced m'.ranges
      × (m'.min_key ≡ m.min_key)
      × (m'.max_key ≡ m.max_key)

  get_outside :
      (m : RangeMap T) (key : ℕ)
      → (key < m.min_key) ⊎ (m.max_key < key)
      → get m key ≡ fails assertion
  unfolding get
  get_outside m key h = ground arith

  set-Sets_nodes :
      (bottom top : ℕ) (ns : List (Node T)) (low high : ℕ) (v : T)
      → IsValid (record { min_key = bottom; max_key = top; ranges = ns })
      → bottom ≤ low
      → low ≤ high
      → high ≤ top
      → (m' : RangeMap T) × Sets
          (record { min_key = bottom; max_key = top; ranges = ns })
          low
          high
          v
          m'
  set-Sets_nodes bottom top [] low high v w lo lh hi = absurd w.covers
  set-Sets_nodes bottom top (n ∷ ns) low high v w lo lh hi = (
    record { min_key = bottom; max_key = top; ranges = result },
    (
      set-written bottom top low high v n ns w.covers.1 w.covers.0 lo lh hi,
      reads,
      record {
        inhabited = w.inhabited;
        covers = (
          w.covers.0,
          fix_rest-Chain p n.beg_key top (paint low (suc high) v (cuts bottom top low high v n ns))
              (paint-Chain n.beg_key top low (suc high) v (cuts bottom top low high v n ns)
                (cuts-Chain bottom top low high v n ns w.covers.1 w.covers.0 lo lh hi)),
        );
      },
      fix_rest-Differ p (paint low (suc high) v (cuts bottom top low high v n ns)),
      refl,
      refl,
    ),
  )
    where
      p : Node T
      p = paint_node low (suc high) v n

      result : List (Node T)
      result = written bottom top low high v n ns

      reads :
          (key : ℕ)
          → get (record { min_key = bottom; max_key = top; ranges = result }) key ≡ (
              if inside low high key
              then ok v
              else get (record { min_key = bottom; max_key = top; ranges = n ∷ ns }) key)
      reads key = ground (
        arith,
        get-node_at bottom top n ns key,
        get-node_at bottom top p
            (fix_rest p (paint low (suc high) v (cuts bottom top low high v n ns))) key,
        written-val bottom top low high v n ns w.covers.1 w.covers.0 lo lh hi key,
        get_outside (record { min_key = bottom; max_key = top; ranges = n ∷ ns }) key,
        get_outside (record { min_key = bottom; max_key = top; ranges = result }) key,
      )

  -- In a valid map, a `set` within the bounds returns a map in which `get` reads the value at each key
  -- of the range and what it read before at every other key; the new map is valid, has the same bounds,
  -- and no two neighbouring runs hold equal values.
  pub set-Sets :
      (m : RangeMap T) (low high : ℕ) (v : T)
      → IsValid m
      → m.min_key ≤ low
      → low ≤ high
      → high ≤ m.max_key
      → (m' : RangeMap T) × Sets m low high v m'
  set-Sets m low high v w lo lh hi =
      set-Sets_nodes m.min_key m.max_key m.ranges low high v w lo lh hi

  -- A `set` of a range that is empty or leaves the bounds of the map fails an assertion.
  pub set_out_of_bounds :
      (m : RangeMap T) (low high : ℕ) (v : T)
      → ((low < m.min_key) ⊎ ((m.max_key < high) ⊎ (high < low)))
      → set m low high v ≡ fails assertion
  unfolding set
  set_out_of_bounds m low high v h = ground arith

  pub make-IsValid :
      (bottom top : ℕ) (v : T)
      → bottom ≤ top
      → IsValid (make bottom top v) × IsReduced (make bottom top v).ranges
  unfolding make
  make-IsValid bottom top v h = (record { inhabited = h; covers = (refl, tt) }, tt)
