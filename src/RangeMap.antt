-- ===== src/RangeMap.antt =====
-- include/odb/utils/range-map.hh: a map from an interval of keys, kept as the runs of equal values.
-- A vector iterator is its distance from `begin()`, and `end()` is the length. Keys are `std::size_t`:
-- no sum or difference below wraps while the keys are at most `max_key`, which is itself a `size_t`.
pub mod Spec
pub mod Walk
pub mod Update
pub mod Cuts
pub mod Set
pub mod Ranges
pub mod Index
mod Tests
use odb.Prelude.{
  ℕ, zero, suc, ◌-◌, ◌+◌, Bool, true, false, not, List, [], ◌∷◌, Option, none, some, leb, ltb, ◌==◌,
  if◌then◌else◌, length, get_elem?, insert_at, Eq,
}
use odb.Prelude.Results.{Result, ok, fails, Fault.{undefined}, ◌>>=◌, ◌>>◌, assert}

-- `RangeMap::Node`: a run begins at `beg_key`, and ends where the next one begins.
pub record Node (T : Type 0) : Type 0 where
  pub beg_key : ℕ
  pub val : T

pub record RangeMap (T : Type 0) : Type 0 where
  pub min_key : ℕ
  pub max_key : ℕ
  pub ranges : List (Node T)

-- `RangeMap::Range`.
pub record Range (T : Type 0) : Type 0 where
  pub low : ℕ
  pub high : ℕ
  pub val : T

module _ {T : Type 0} where
  -- The constructor.
  unfoldable pub make : ℕ → ℕ → T → RangeMap T
  make min_key max_key val = record {
    min_key = min_key;
    max_key = max_key;
    ranges = record { beg_key = min_key; val = val } ∷ [];
  }

  unfoldable pub size : RangeMap T → ℕ
  size m = length m.ranges

  -- The loop of `_find_node`, over the nodes behind `it`: how far `it` moves on.
  pub advance : List (Node T) → ℕ → ℕ
  advance [] key = 0
  advance (next ∷ rest) key = if leb next.beg_key key then suc (advance rest key) else 0

  pub find_node : List (Node T) → ℕ → ℕ
  unfolding advance
  find_node [] key = 0
  find_node (first ∷ rest) key = advance rest key

  -- `*it`.
  abbrev pub deref : List (Node T) → ℕ → Result (Node T)
  deref ns it = elim (get_elem? ns it) [ none ↦ fails undefined | some n ↦ ok n ]

  unfoldable pub get : RangeMap T → ℕ → Result T
  unfolding find_node
  get m key = do
    assert (leb m.min_key key)
    assert (leb key m.max_key)
    node ← deref m.ranges (find_node m.ranges key)
    ok node.val

  -- The step that `set` makes at `low` and at `high + 1`: find the node of `key`, and where `key` lies
  -- in its middle, cut it in two. Returns the vector and the iterator of the node that begins at `key`.
  pub cut : List (Node T) → ℕ → Result (List (Node T) × ℕ)
  unfolding find_node
  cut ns key = do
    let it = find_node ns key
    node ← deref ns it
    ok (
        if node.beg_key == key
        then (ns, it)
        else (insert_at (suc it) (record { beg_key = key; val = node.val }) ns, suc it))

  -- `for (auto it = low_it; it != high_it; ++it) it->val = val`, where `low_it` is not behind `high_it`.
  pub fill : ℕ → ℕ → T → List (Node T) → List (Node T)
  fill it zero val ns = ns
  fill it (suc stop) val [] = []
  fill zero (suc stop) val (n ∷ ns) = record n { val = val } ∷ fill zero stop val ns
  fill (suc it) (suc stop) val (n ∷ ns) = n ∷ fill it stop val ns

  -- The end of the range to write: `end()` where `high` is the last key, or else the cut at `high + 1`.
  pub cut_high : RangeMap T → List (Node T) → ℕ → Result (List (Node T) × ℕ)
  unfolding cut
  cut_high m ns high = if high == m.max_key then ok (ns, length ns) else cut ns (suc high)

  -- The key at which the run of the node at `it` ends.
  pub end_key : RangeMap T → ℕ → ℕ
  end_key m it = elim (get_elem? m.ranges (suc it)) [
    | none ↦ m.max_key
    | some next ↦ next.beg_key - 1
  ]

  unfoldable pub range_of : RangeMap T → ℕ → Result (Range T)
  unfolding find_node end_key
  range_of m key = do
    assert (leb m.min_key key)
    assert (leb key m.max_key)
    let it = find_node m.ranges key
    node ← deref m.ranges it
    ok (record { low = node.beg_key; high = end_key m it; val = node.val })

  -- `operator[]`.
  unfoldable pub at : RangeMap T → ℕ → Result (Range T)
  unfolding end_key
  at m i = do
    assert (ltb i (length m.ranges))
    node ← deref m.ranges i
    ok (record { low = node.beg_key; high = end_key m i; val = node.val })

  module _ ⦃e : Eq T⦄ where
    -- `_fix` from the node `cur` at `idx` on: a following node with the same value is erased.
    pub fix_from : Node T → List (Node T) → List (Node T)
    fix_from cur [] = cur ∷ []
    fix_from cur (next ∷ rest) = elim (e.beq cur.val next.val) [
      | true ↦ fix_from cur rest
      | false ↦ cur ∷ fix_from next rest
    ]

    pub fix : List (Node T) → List (Node T)
    unfolding fix_from
    fix [] = []
    fix (n ∷ ns) = fix_from n ns

    unfoldable pub set : RangeMap T → ℕ → ℕ → T → Result (RangeMap T)
    unfolding cut cut_high find_node fill fix
    set m low high val = do
      assert (leb m.min_key low)
      assert (leb high m.max_key)
      assert (leb low high)
      (low_cut, low_it) ← cut m.ranges low
      (nodes, high_it) ← cut_high m low_cut high
      ok (record m { ranges = fix (fill (find_node nodes low) high_it val nodes) })
