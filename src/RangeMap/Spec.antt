-- ===== src/RangeMap/Spec.antt =====
-- What a range map stands for, and the shape that its vector keeps. `n` is the node that a walk has
-- reached and `ns` the nodes behind it.
use odb.Prelude.{ℕ, ◌≤◌, ◌<◌, ◌≡◌, ◌≢◌, Bool, ◌&&◌, List, [], ◌∷◌, leb, if◌then◌else◌}
use odb.RangeMap.{Node, RangeMap}

module _ {T : Type 0} where
  -- The node whose run holds `key`: the last one that begins at or before it.
  abbrev pub node_at : Node T → List (Node T) → ℕ → Node T
  node_at n [] key = n
  node_at n (m ∷ ms) key = if leb m.beg_key key then node_at m ms key else n

  -- The runs begin one after the other, behind `b` and not behind `top`.
  abbrev pub Chain : ℕ → ℕ → List (Node T) → Type 0
  Chain b top [] = Unit {0}
  Chain b top (m ∷ ms) = (b < m.beg_key) × (m.beg_key ≤ top) × Chain m.beg_key top ms

  -- The first run begins at `bottom`.
  abbrev pub Covers : ℕ → ℕ → List (Node T) → Type 0
  Covers bottom top [] = ⊥
  Covers bottom top (n ∷ ns) = (n.beg_key ≡ bottom) × Chain n.beg_key top ns

  -- The vector covers exactly the keys from `min_key` to `max_key`.
  pub record IsValid (m : RangeMap T) : Type 0 where
    pub inhabited : m.min_key ≤ m.max_key
    pub covers : Covers m.min_key m.max_key m.ranges

  -- No run could be joined with the one behind it.
  abbrev pub Differ : Node T → List (Node T) → Type 0
  Differ n [] = Unit {0}
  Differ n (m ∷ ms) = (n.val ≢ m.val) × Differ m ms

  abbrev pub IsReduced : List (Node T) → Type 0
  IsReduced [] = Unit {0}
  IsReduced (n ∷ ns) = Differ n ns

  abbrev pub HasKey : ℕ → Node T → List (Node T) → Type 0
  HasKey key n ns = (node_at n ns key).beg_key ≡ key

abbrev pub inside : ℕ → ℕ → ℕ → Bool
inside low high key = leb low key && leb key high
