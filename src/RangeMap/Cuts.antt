-- ===== src/RangeMap/Cuts.antt =====
-- The cut that `set` makes behind its range, in the terms of `node_at`.
use odb.Prelude.{ℕ, suc, ◌≤◌, ◌≡◌, List, ◌∷◌, arith, ◌==◌, if◌then◌else◌}
use odb.Prelude.Results.{ok, Fault.{}}
use odb.RangeMap.{Node, cut_high}
use odb.RangeMap.Spec.{node_at, Chain, HasKey}
use odb.RangeMap.Walk.{node_at_last}
use odb.RangeMap.Update.{
  cut_rest, cut-cut_rest, cut_rest-Chain, cut_rest-val, cut_rest-HasKey, cut_rest-HasKey_keep,
  below, advance-below, length-below,
}

module _ {T : Type 0} where
  -- The nodes behind the first one after the cut at `high + 1`, which is left out at the last key.
  abbrev pub high_rest : Node T → List (Node T) → ℕ → ℕ → List (Node T)
  high_rest n ns top high = if high == top then ns else cut_rest n ns (suc high)

  module _ (bottom top high : ℕ) (n : Node T) (ns whole : List (Node T))
      (c : Chain n.beg_key top ns) (le : n.beg_key ≤ high) (h : high ≤ top) where
    pub cut_high-high_rest :
        cut_high (record { min_key = bottom; max_key = top; ranges = whole }) (n ∷ ns) high
        ≡ ok (n ∷ high_rest n ns top high, below (suc high) (n ∷ high_rest n ns top high))
    unfolding cut_high
    cut_high-high_rest = ground (
      arith,
      cut-cut_rest n ns top (suc high) c,
      cut_rest-Chain n ns top (suc high) c,
      cut_rest-HasKey n ns (suc high),
      advance-below n (cut_rest n ns (suc high)) top (suc high),
      length-below n.beg_key top ns c,
    )

    pub high_rest-Chain : Chain n.beg_key top (high_rest n ns top high)
    high_rest-Chain = ground (arith, cut_rest-Chain n ns top (suc high) c)

    pub high_rest-val :
        (key : ℕ) → (node_at n (high_rest n ns top high) key).val ≡ (node_at n ns key).val
    high_rest-val key = ground (arith, cut_rest-val n ns (suc high) key)

    pub high_rest-HasKey :
        (low : ℕ)
        → n.beg_key ≤ low
        → low ≤ high
        → HasKey low n ns
        → HasKey low n (high_rest n ns top high)
    high_rest-HasKey low l lh k = ground (arith, cut_rest-HasKey_keep n ns top low (suc high) c l)

    -- No run that holds a key up to the last one crosses `high + 1`.
    pub high_rest_stop :
        (key : ℕ)
        → key ≤ top
        → suc high ≤ key
        → suc high ≤ (node_at n (high_rest n ns top high) key).beg_key
    high_rest_stop key kt hk = ground (
      arith,
      cut_rest-HasKey n ns (suc high),
      cut_rest-Chain n ns top (suc high) c,
      node_at_last n (cut_rest n ns (suc high)) top (suc high) key,
    )
