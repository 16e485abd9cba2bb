-- ===== src/RangeMap/Walk.antt =====
-- `_find_node` and `get` against `node_at`.
use odb.Prelude.{ℕ, ◌≤◌, ◌≡◌, refl, List, [], ◌∷◌, some, arith, get_elem?}
use odb.Prelude.Results.{ok}
use odb.RangeMap.{Node, advance, find_node, get}
use odb.RangeMap.Spec.{node_at, Chain, HasKey}

module _ {T : Type 0} where
  pub get_elem?-advance :
      (n : Node T) (ns : List (Node T)) (key : ℕ)
      → get_elem? (n ∷ ns) (advance ns key) ≡ some (node_at n ns key)
  unfolding advance
  get_elem?-advance n [] key = refl
  get_elem?-advance n (m ∷ ms) key = ground (arith, get_elem?-advance m ms key)

  -- Within the bounds `get` reads the value of the run that holds the key.
  pub get-node_at :
      (bottom top : ℕ) (n : Node T) (ns : List (Node T)) (key : ℕ)
      → bottom ≤ key
      → key ≤ top
      → get (record { min_key = bottom; max_key = top; ranges = n ∷ ns }) key
        ≡ ok (node_at n ns key).val
  unfolding get find_node
  get-node_at bottom top n ns key lo hi = ground (arith, get_elem?-advance n ns key)

  pub node_at-le :
      (n : Node T) (ns : List (Node T)) (key : ℕ)
      → n.beg_key ≤ key
      → (node_at n ns key).beg_key ≤ key
  node_at-le n [] key h = h
  node_at-le n (m ∷ ms) key h = ground (arith, node_at-le m ms key)

  pub node_at-ge :
      (n : Node T) (ns : List (Node T)) (top key : ℕ)
      → Chain n.beg_key top ns
      → n.beg_key ≤ (node_at n ns key).beg_key
  node_at-ge n [] top key c = omega arith
  node_at-ge n (m ∷ ms) top key c = ground (arith, node_at-ge m ms top key c.2)

  -- No run behind the one that holds a key begins before the key.
  pub node_at_last :
      (n : Node T) (ns : List (Node T)) (top start key : ℕ)
      → Chain n.beg_key top ns
      → n.beg_key ≤ start
      → HasKey start n ns
      → start ≤ key
      → start ≤ (node_at n ns key).beg_key
  node_at_last n [] top start key c le e h = omega arith
  node_at_last n (m ∷ ms) top start key c le e h =
      ground (arith, node_at_last m ms top start key c.2, node_at-ge m ms top key c.2)

  -- Keys before the first run behind `n` are in the run of `n`.
  pub node_at_before :
      (n : Node T) (ns : List (Node T)) (b top key : ℕ)
      → Chain b top ns
      → key ≤ b
      → node_at n ns key ≡ n
  node_at_before n [] b top key c h = refl
  node_at_before n (m ∷ ms) b top key c h = ground arith

  -- The node reached depends on where the walk began only if it stays there.
  pub node_at_val :
      (n m : Node T) (ns : List (Node T)) (key : ℕ)
      → n.val ≡ m.val
      → (node_at n ns key).val ≡ (node_at m ns key).val
  node_at_val n m [] key e = e
  node_at_val n m (x ∷ xs) key e = ground arith

  pub Chain-mono : (b b' top : ℕ) (ns : List (Node T)) → b' ≤ b → Chain b top ns → Chain b' top ns
  Chain-mono b b' top [] h c = tt
  Chain-mono b b' top (m ∷ ms) h c = (omega arith, c.1, c.2)
