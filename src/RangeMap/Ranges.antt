-- ===== src/RangeMap/Ranges.antt =====
-- `range_of` and `operator[]`: the runs that a caller sees.
use odb.Prelude.{ℕ, suc, ◌-◌, ◌≤◌, ◌<◌, ◌≡◌, ◌≢◌, refl, List, [], ◌∷◌, arith, leb, if◌then◌else◌}
use odb.Prelude.Results.{ok, Fault.{}}
use odb.RangeMap.{Node, RangeMap, Range, advance, find_node, get, end_key, range_of}
use odb.RangeMap.Spec.{node_at, Chain, IsValid, Differ, IsReduced}
use odb.RangeMap.Walk.{get_elem?-advance, get-node_at, node_at-le, node_at-ge, node_at_before}

module _ {T : Type 0} where
  -- The last key of the run that holds `key`.
  abbrev end_of : List (Node T) → ℕ → ℕ → ℕ
  end_of [] top key = top
  end_of (m ∷ ms) top key = if leb m.beg_key key then end_of ms top key else m.beg_key - 1

  end_key-end_of :
      (bottom top : ℕ) (n : Node T) (ns : List (Node T)) (key : ℕ)
      → end_key (record { min_key = bottom; max_key = top; ranges = n ∷ ns }) (advance ns key)
        ≡ end_of ns top key
  unfolding end_key advance
  end_key-end_of bottom top n [] key = refl
  end_key-end_of bottom top n (m ∷ ms) key = ground (arith, end_key-end_of bottom top m ms key)

  end_of-ge :
      (b top key : ℕ) (ns : List (Node T))
      → Chain b top ns
      → b ≤ key
      → key ≤ top
      → (key ≤ end_of ns top key) × (end_of ns top key ≤ top)
  end_of-ge b top key [] c h k = omega arith
  end_of-ge b top key (m ∷ ms) c h k = ground (arith, end_of-ge m.beg_key top key ms c.2)

  -- Every key of the run is held by the same node.
  node_at-same :
      (n : Node T) (ns : List (Node T)) (top key k : ℕ)
      → Chain n.beg_key top ns
      → n.beg_key ≤ key
      → (node_at n ns key).beg_key ≤ k
      → k ≤ end_of ns top key
      → node_at n ns k ≡ node_at n ns key
  node_at-same n [] top key k c nk lo hi = refl
  node_at-same n (m ∷ ms) top key k c nk lo hi =
      ground (arith, node_at-same m ms top key k c.2, node_at-ge m ms top key c.2)

  -- The run that begins where the first one does is the first one.
  node_at_reached :
      (n : Node T) (ns : List (Node T)) (top key : ℕ)
      → Chain n.beg_key top ns
      → (node_at n ns key).beg_key ≤ n.beg_key
      → node_at n ns key ≡ n
  node_at_reached n [] top key c h = refl
  node_at_reached n (m ∷ ms) top key c h = ground (arith, node_at-ge m ms top key c.2)

  -- In a reduced map the neighbouring runs hold other values.
  node_at-next :
      (n : Node T) (ns : List (Node T)) (top key : ℕ)
      → Chain n.beg_key top ns
      → n.beg_key ≤ key
      → key ≤ top
      → Differ n ns
      → end_of ns top key < top
      → (node_at n ns (suc (end_of ns top key))).val ≢ (node_at n ns key).val
  node_at-next n [] top key c nk kt d h = absurd (omega arith)
  node_at-next n (m ∷ ms) top key c nk kt d h = ground (
    arith,
    node_at-next m ms top key c.2,
    end_of-ge m.beg_key top key ms c.2,
    node_at_before m ms m.beg_key top m.beg_key c.2,
  )

  node_at-previous :
      (n : Node T) (ns : List (Node T)) (top key : ℕ)
      → Chain n.beg_key top ns
      → n.beg_key ≤ key
      → Differ n ns
      → n.beg_key < (node_at n ns key).beg_key
      → (node_at n ns ((node_at n ns key).beg_key - 1)).val ≢ (node_at n ns key).val
  node_at-previous n [] top key c nk d h = absurd (omega arith)
  node_at-previous n (m ∷ ms) top key c nk d h = ground (
    arith,
    node_at-previous m ms top key c.2,
    node_at-ge m ms top key c.2,
    node_at_reached m ms top key c.2,
  )

  -- A run of a map, by the keys that it holds.
  pub record IsRun (m : RangeMap T) (r : Range T) : Type 0 where
    pub within : (m.min_key ≤ r.low) × (r.low ≤ r.high) × (r.high ≤ m.max_key)
    pub constant : (k : ℕ) → r.low ≤ k → k ≤ r.high → get m k ≡ ok r.val

  -- The keys next to a run hold other values.
  pub record IsMaximal (m : RangeMap T) (r : Range T) : Type 0 where
    pub before : m.min_key < r.low → get m (r.low - 1) ≢ ok r.val
    pub behind : r.high < m.max_key → get m (suc r.high) ≢ ok r.val

  range_of-IsRun_nodes :
      (bottom top : ℕ) (ns : List (Node T)) (key : ℕ)
      → let m : RangeMap T = record { min_key = bottom; max_key = top; ranges = ns } in
        IsValid m
        → bottom ≤ key
        → key ≤ top
        → (r : Range T) × (range_of m key ≡ ok r)
          × (r.low ≤ key)
          × (key ≤ r.high)
          × IsRun m r
          × (IsReduced ns → IsMaximal m r)
  unfolding range_of find_node
  range_of-IsRun_nodes bottom top [] key w bk kt = absurd w.covers
  range_of-IsRun_nodes bottom top (n ∷ ns) key w bk kt = (
    record {
      low = (node_at n ns key).beg_key;
      high = end_of ns top key;
      val = (node_at n ns key).val;
    },
    ground (arith, get_elem?-advance n ns key, end_key-end_of bottom top n ns key),
    node_at-le n ns key (omega arith),
    (end_of-ge n.beg_key top key ns w.covers.1 (omega arith) kt).0,
    record {
      within = (
        omega (arith, node_at-ge n ns top key w.covers.1),
        omega (arith, node_at-le n ns key, end_of-ge n.beg_key top key ns w.covers.1),
        omega (arith, end_of-ge n.beg_key top key ns w.covers.1),
      );
      constant = λ k lo hi. ground (
        arith,
        node_at-ge n ns top key w.covers.1,
        end_of-ge n.beg_key top key ns w.covers.1,
        get-node_at bottom top n ns k,
        node_at-same n ns top key k w.covers.1,
      );
    },
    λ d. record {
      before = λ h. ground (
        arith,
        node_at-le n ns key,
        get-node_at bottom top n ns ((node_at n ns key).beg_key - 1),
        node_at-previous n ns top key w.covers.1,
      );
      behind = λ h. ground (
        arith,
        end_of-ge n.beg_key top key ns w.covers.1,
        get-node_at bottom top n ns (suc (end_of ns top key)),
        node_at-next n ns top key w.covers.1,
      );
    },
  )

  -- In a valid map, `range_of` of a key within the bounds returns a run that holds the key and that lies
  -- within the bounds, and `get` reads the value of the run at each of its keys. Where no two
  -- neighbouring runs hold equal values, the run is the longest one: the key before it and the key
  -- behind it, where the bounds have them, hold another value.
  pub range_of-IsRun :
      (m : RangeMap T) (key : ℕ)
      → IsValid m
      → m.min_key ≤ key
      → key ≤ m.max_key
      → (r : Range T) × (range_of m key ≡ ok r)
        × (r.low ≤ key)
        × (key ≤ r.high)
        × IsRun m r
        × (IsReduced m.ranges → IsMaximal m r)
  range_of-IsRun m key w bk kt = range_of-IsRun_nodes m.min_key m.max_key m.ranges key w bk kt
