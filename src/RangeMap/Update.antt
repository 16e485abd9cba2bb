-- ===== src/RangeMap/Update.antt =====
-- The three stages of `set`: the cuts, the writes, and the joining of runs.
use odb.Prelude.{
  ℕ, suc, ◌≤◌, ◌≡◌, refl, true, false, ◌&&◌, List, [], ◌∷◌, arith, leb, ltb, ◌==◌, if◌then◌else◌,
  length, insert_at, Eq, map,
}
use odb.Prelude.Results.{ok}
use odb.RangeMap.{Node, advance, find_node, cut, fill, fix_from}
use odb.RangeMap.Spec.{node_at, Chain, HasKey, Differ}
use odb.RangeMap.Walk.{get_elem?-advance, node_at_before, node_at_val, Chain-mono}

module _ {T : Type 0} where
  -- The nodes behind the first one after a cut at `key`.
  abbrev pub cut_rest : Node T → List (Node T) → ℕ → List (Node T)
  cut_rest n [] key = if n.beg_key == key then [] else record { beg_key = key; val = n.val } ∷ []
  cut_rest n (m ∷ ms) key =
      if leb m.beg_key key
      then m ∷ cut_rest m ms key
      else if n.beg_key == key
      then m ∷ ms
      else record { beg_key = key; val = n.val } ∷ m ∷ ms

  insert_at-cut_rest :
      (n : Node T) (ns : List (Node T)) (key : ℕ)
      → (if (node_at n ns key).beg_key == key
          then n ∷ ns
          else insert_at
              (suc (advance ns key))
              (record { beg_key = key; val = (node_at n ns key).val })
              (n ∷ ns))
        ≡ n ∷ cut_rest n ns key
  unfolding advance
  insert_at-cut_rest n [] key = ground arith
  insert_at-cut_rest n (m ∷ ms) key = ground (arith, insert_at-cut_rest m ms key)

  advance-cut_rest :
      (n : Node T) (ns : List (Node T)) (top key : ℕ)
      → Chain n.beg_key top ns
      → n.beg_key ≤ key
      → (if (node_at n ns key).beg_key == key then advance ns key else suc (advance ns key))
        ≡ advance (cut_rest n ns key) key
  unfolding advance
  advance-cut_rest n [] top key c h = ground arith
  advance-cut_rest n (m ∷ ms) top key c h = ground (arith, advance-cut_rest m ms top key c.2)

  pub cut-cut_rest :
      (n : Node T) (ns : List (Node T)) (top key : ℕ)
      → Chain n.beg_key top ns
      → n.beg_key ≤ key
      → cut (n ∷ ns) key ≡ ok (n ∷ cut_rest n ns key, advance (cut_rest n ns key) key)
  unfolding cut find_node
  cut-cut_rest n ns top key c h = ground (
    arith,
    get_elem?-advance n ns key,
    insert_at-cut_rest n ns key,
    advance-cut_rest n ns top key c h,
  )

  pub cut_rest-Chain :
      (n : Node T) (ns : List (Node T)) (top key : ℕ)
      → Chain n.beg_key top ns
      → n.beg_key ≤ key
      → key ≤ top
      → Chain n.beg_key top (cut_rest n ns key)
  cut_rest-Chain n [] top key c h k = ground arith
  cut_rest-Chain n (m ∷ ms) top key c h k = ground (arith, cut_rest-Chain m ms top key c.2)

  -- A cut changes no value.
  pub cut_rest-val :
      (n : Node T) (ns : List (Node T)) (key k : ℕ)
      → (node_at n (cut_rest n ns key) k).val ≡ (node_at n ns k).val
  cut_rest-val n [] key k = ground arith
  cut_rest-val n (m ∷ ms) key k = ground (arith, cut_rest-val m ms key k)

  -- A run begins at the cut.
  pub cut_rest-HasKey :
      (n : Node T) (ns : List (Node T)) (key : ℕ)
      → n.beg_key ≤ key
      → HasKey key n (cut_rest n ns key)
  cut_rest-HasKey n [] key h = ground arith
  cut_rest-HasKey n (m ∷ ms) key h = ground (arith, cut_rest-HasKey m ms key)

  -- A later cut keeps the run that begins at `start`.
  pub cut_rest-HasKey_keep :
      (n : Node T) (ns : List (Node T)) (top start key : ℕ)
      → Chain n.beg_key top ns
      → n.beg_key ≤ start
      → start ≤ key
      → HasKey start n ns
      → HasKey start n (cut_rest n ns key)
  cut_rest-HasKey_keep n [] top start key c le lt h = ground arith
  cut_rest-HasKey_keep n (m ∷ ms) top start key c le lt h =
      ground (arith, cut_rest-HasKey_keep m ms top start key c.2)

  -- The runs that begin before `stop`: for a key at which a run begins, its position.
  abbrev pub below : ℕ → List (Node T) → ℕ
  below stop [] = 0
  below stop (m ∷ ms) = if ltb m.beg_key stop then suc (below stop ms) else 0

  -- What the writes do, by keys.
  abbrev pub paint_node : ℕ → ℕ → T → Node T → Node T
  paint_node start stop v n = record n {
    val = if leb start n.beg_key && ltb n.beg_key stop then v else n.val;
  }

  abbrev pub paint : ℕ → ℕ → T → List (Node T) → List (Node T)
  paint start stop v = map (paint_node start stop v)

  pub advance-below :
      (n : Node T) (ns : List (Node T)) (top key : ℕ)
      → Chain n.beg_key top ns
      → n.beg_key ≤ key
      → HasKey key n ns
      → advance ns key ≡ below key (n ∷ ns)
  unfolding advance
  advance-below n [] top key c le h = ground arith
  advance-below n (m ∷ ms) top key c le h = ground (arith, advance-below m ms top key c.2)

  pub length-below :
      (b top : ℕ) (ns : List (Node T)) → Chain b top ns → length ns ≡ below (suc top) ns
  length-below b top [] c = refl
  length-below b top (m ∷ ms) c = ground (arith, length-below m.beg_key top ms c.2)

  below_none :
      (b top key : ℕ) (ns : List (Node T)) → Chain b top ns → key ≤ suc b → below key ns ≡ 0
  below_none b top key [] c h = refl
  below_none b top key (m ∷ ms) c h = ground arith

  paint_none :
      (b top start stop : ℕ) (v : T) (ns : List (Node T))
      → Chain b top ns
      → stop ≤ suc b
      → paint start stop v ns ≡ ns
  paint_none b top start stop v [] c h = refl
  paint_none b top start stop v (m ∷ ms) c h =
      ground (arith, paint_none m.beg_key top start stop v ms c.2)

  pub fill-paint :
      (b top start stop : ℕ) (v : T) (ns : List (Node T))
      → Chain b top ns
      → start ≤ stop
      → fill (below start ns) (below stop ns) v ns ≡ paint start stop v ns
  unfolding fill
  fill-paint b top start stop v [] c h = refl
  fill-paint b top start stop v (m ∷ ms) c h = ground (
    arith,
    fill-paint m.beg_key top start stop v ms c.2 h,
    below_none m.beg_key top start ms c.2,
    paint_none m.beg_key top start stop v ms c.2,
  )

  pub fill-paint_first :
      (n : Node T) (top start stop : ℕ) (v : T) (ns : List (Node T))
      → Chain n.beg_key top ns
      → start ≤ stop
      → fill (below start (n ∷ ns)) (below stop (n ∷ ns)) v (n ∷ ns) ≡ paint start stop v (n ∷ ns)
  unfolding fill
  fill-paint_first n top start stop v ns c h = ground (
    arith,
    fill-paint n.beg_key top start stop v ns c h,
    below_none n.beg_key top start ns c,
    paint_none n.beg_key top start stop v ns c,
  )

  pub node_at-paint :
      (n : Node T) (ns : List (Node T)) (start stop : ℕ) (v : T) (key : ℕ)
      → node_at (paint_node start stop v n) (paint start stop v ns) key
        ≡ paint_node start stop v (node_at n ns key)
  node_at-paint n [] start stop v key = refl
  node_at-paint n (m ∷ ms) start stop v key = ground (arith, node_at-paint m ms start stop v key)

  pub paint-Chain :
      (b top start stop : ℕ) (v : T) (ns : List (Node T))
      → Chain b top ns
      → Chain b top (paint start stop v ns)
  paint-Chain b top start stop v [] c = tt
  paint-Chain b top start stop v (m ∷ ms) c =
      (c.0, c.1, paint-Chain m.beg_key top start stop v ms c.2)

module _ {T : Type 0} ⦃e : Eq T⦄ where
  -- The nodes behind `n` once the runs of equal values are joined.
  pub fix_rest : Node T → List (Node T) → List (Node T)
  fix_rest n [] = []
  fix_rest n (m ∷ ms) = elim (e.beq n.val m.val) [
    | true ↦ fix_rest n ms
    | false ↦ m ∷ fix_rest m ms
  ]

  pub fix_from-fix_rest : (n : Node T) (ns : List (Node T)) → fix_from n ns ≡ n ∷ fix_rest n ns
  unfolding fix_from fix_rest
  fix_from-fix_rest n [] = refl
  fix_from-fix_rest n (m ∷ ms) = ground (arith, fix_from-fix_rest n ms, fix_from-fix_rest m ms)

  pub fix_rest-Chain :
      (n : Node T) (b top : ℕ) (ns : List (Node T)) → Chain b top ns → Chain b top (fix_rest n ns)
  unfolding fix_rest
  fix_rest-Chain n b top [] c = tt
  fix_rest-Chain n b top (m ∷ ms) c = ground (
    arith,
    fix_rest-Chain n m.beg_key top ms c.2,
    fix_rest-Chain m m.beg_key top ms c.2,
    Chain-mono m.beg_key b top (fix_rest n ms),
  )

  -- Joining runs changes no value.
  pub fix_rest-val :
      (n : Node T) (b top : ℕ) (ns : List (Node T)) (key : ℕ)
      → Chain b top ns
      → (node_at n (fix_rest n ns) key).val ≡ (node_at n ns key).val
  unfolding fix_rest
  fix_rest-val n b top [] key c = refl
  fix_rest-val n b top (m ∷ ms) key c = ground (
    arith,
    e.beq_iff n.val m.val,
    fix_rest-val n m.beg_key top ms key c.2,
    fix_rest-val m m.beg_key top ms key c.2,
    node_at_val n m ms key,
    node_at_before n ms m.beg_key top key c.2,
  )

  pub fix_rest-Differ : (n : Node T) (ns : List (Node T)) → Differ n (fix_rest n ns)
  unfolding fix_rest
  fix_rest-Differ n [] = tt
  fix_rest-Differ n (m ∷ ms) =
      ground (arith, e.beq_iff n.val m.val, fix_rest-Differ n ms, fix_rest-Differ m ms)
