-- ===== src/Prelude/Maps.antt =====
-- `std::map` and `std::set`. A map that the program only looks up is an association list; one that it
-- walks in key order is kept sorted.
use Prim.Native.Nat.{ℕ, suc, ◌≤◌, ◌<◌}
use mathlib.Core.Path.{◌≡◌, refl}
use mathlib.Core.Logic.{◌↔◌}
use mathlib.Core.Bool.{Bool, true, false, ◌&&◌}
use mathlib.Core.Option.{Option, none, some}
use mathlib.Core.List.{List, [], ◌∷◌}
use native.Mathlib.Omega.{arith}
use odb.Prelude.Tests.{Eq, nat_eq, ltb, ◌==◌, if◌then◌else◌}

unfoldable pub list_beq : List ℕ → List ℕ → Bool
list_beq [] [] = true
list_beq [] (y ∷ ys) = false
list_beq (x ∷ xs) [] = false
list_beq (x ∷ xs) (y ∷ ys) = x == y && list_beq xs ys

pub list_beq_iff : (xs ys : List ℕ) → (list_beq xs ys ≡ true) ↔ (xs ≡ ys)
unfolding list_beq
list_beq_iff [] [] = (λ _. refl, λ _. refl)
list_beq_iff [] (y ∷ ys) = (λ h. cc, λ h. cc)
list_beq_iff (x ∷ xs) [] = (λ h. cc, λ h. cc)
list_beq_iff (x ∷ xs) (y ∷ ys) =
    (λ h. ground (arith, list_beq_iff xs ys), λ h. ground (arith, list_beq_iff xs ys))

instance abbrev pub str_eq : Eq (List ℕ)
str_eq = record { beq = list_beq; beq_iff = list_beq_iff }

module _ {K V : Type 0} ⦃e : Eq K⦄ where
  unfoldable pub find : K → List (K × V) → Option V
  find k [] = none
  find k ((j, v) ∷ m) = if e.beq j k then some v else find k m

  -- Keeps the entry that is there.
  unfoldable pub emplace : K → V → List (K × V) → List (K × V)
  emplace k v [] = (k, v) ∷ []
  emplace k v ((j, w) ∷ m) = if e.beq j k then (j, w) ∷ m else (j, w) ∷ emplace k v m

  -- A write through a reference to the entry of `k`.
  unfoldable pub assign : K → V → List (K × V) → List (K × V)
  assign k v [] = []
  assign k v ((j, w) ∷ m) = if e.beq j k then (j, v) ∷ m else (j, w) ∷ assign k v m

  pub find-emplace :
      (k j : K) (v : V) (m : List (K × V))
      → find j (emplace k v m)
        ≡ elim (find j m) [ some w ↦ some w | none ↦ if e.beq k j then some v else none ]
  unfolding find emplace
  find-emplace k j v [] = ground arith
  find-emplace k j v ((i, w) ∷ m) =
      ground (arith, e.beq_iff k j, e.beq_iff i k, e.beq_iff i j, find-emplace k j v m)

-- Sorted by key, for maps that are walked in order.
module _ {V : Type 0} where
  unfoldable pub emplace_sorted : ℕ → V → List (ℕ × V) → List (ℕ × V)
  emplace_sorted k v [] = (k, v) ∷ []
  emplace_sorted k v ((j, w) ∷ m) =
      if ltb k j
      then (k, v) ∷ (j, w) ∷ m
      else if j == k
      then (j, w) ∷ m
      else (j, w) ∷ emplace_sorted k v m

  -- `lower_bound`: the entries from the first key that is not before `k` on.
  unfoldable pub lower_bound : ℕ → List (ℕ × V) → List (ℕ × V)
  lower_bound k [] = []
  lower_bound k ((j, w) ∷ m) = if ltb j k then lower_bound k m else (j, w) ∷ m

  abbrev pub Sorted : ℕ → List (ℕ × V) → Type 0
  Sorted b [] = Unit {0}
  Sorted b ((j, w) ∷ m) = (b ≤ j) × Sorted (suc j) m

  pub find_below : (b j : ℕ) (m : List (ℕ × V)) → Sorted b m → j < b → find j m ≡ none
  unfolding find
  find_below b j [] s h = refl
  find_below b j ((i, w) ∷ m) s h = ground (arith, find_below (suc i) j m s.1)

  pub emplace_sorted-Sorted :
      (b k : ℕ) (v : V) (m : List (ℕ × V)) → Sorted b m → b ≤ k → Sorted b (emplace_sorted k v m)
  unfolding emplace_sorted
  emplace_sorted-Sorted b k v [] s h = (h, tt)
  emplace_sorted-Sorted b k v ((j, w) ∷ m) s h =
      ground (arith, emplace_sorted-Sorted (suc j) k v m s.1)

  pub find-emplace_sorted :
      (b k j : ℕ) (v : V) (m : List (ℕ × V))
      → Sorted b m
      → find j (emplace_sorted k v m)
        ≡ elim (find j m) [ some w ↦ some w | none ↦ if k == j then some v else none ]
  unfolding find emplace_sorted
  find-emplace_sorted b k j v [] s = ground arith
  find-emplace_sorted b k j v ((i, w) ∷ m) s =
      ground (arith, find-emplace_sorted (suc i) k j v m s.1, find_below (suc i) j m s.1)

-- `std::set<vm_ptr_t>`.
unfoldable pub contains : ℕ → List ℕ → Bool
contains a [] = false
contains a (x ∷ xs) = if x == a then true else contains a xs

-- `erase` of a key that is in the set.
unfoldable pub erase : ℕ → List ℕ → List ℕ
erase a [] = []
erase a (x ∷ xs) = if x == a then erase a xs else x ∷ erase a xs

pub contains-erase :
    (a b : ℕ) (xs : List ℕ) → contains b (erase a xs) ≡ (if a == b then false else contains b xs)
unfolding contains erase
contains-erase a b [] = ground arith
contains-erase a b (x ∷ xs) = ground (arith, contains-erase a b xs)
