-- ===== src/RangeMap/Tests.antt =====
-- Runs of the range map on small maps, as src/utils/test_range_map.cc makes them, and the theorems at
-- concrete inputs.
use odb.Prelude.{nat_eq, ℕ, ◌≤◌, ◌≡◌, refl, inl, inr, [], ◌∷◌, arith}
use odb.Prelude.Results.{ok, fails, Fault.{assertion}}
use odb.RangeMap.{Node, RangeMap, Range, make, set, range_of, at, size}
use odb.RangeMap.Spec.{IsValid, IsReduced}
use odb.RangeMap.Set.{Sets, set-Sets, set_out_of_bounds}
use odb.RangeMap.Ranges.{IsRun, IsMaximal, range_of-IsRun}
use odb.RangeMap.Index.{IsTile, at-IsTile}

abbrev run : ℕ → ℕ → Node ℕ
run beg val = record { beg_key = beg; val = val }

abbrev loaded : RangeMap ℕ
loaded = record { min_key = 0; max_key = 99; ranges = run 0 0 ∷ run 20 1 ∷ run 60 0 ∷ [] }

loaded-IsValid : IsValid loaded
loaded-IsValid = record { inhabited = omega arith; covers = omega arith }

set_fresh : set (make 0 99 0) 20 59 1 ≡ ok loaded
unfolding make set
set_fresh = refl

set_joins :
    set loaded 60 99 1 ≡ ok (record { min_key = 0; max_key = 99; ranges = run 0 0 ∷ run 20 1 ∷ [] })
unfolding set
set_joins = refl

set_everything :
    set loaded 0 99 4 ≡ ok (record { min_key = 0; max_key = 99; ranges = run 0 4 ∷ [] })
unfolding set
set_everything = refl

range_of_middle : range_of loaded 33 ≡ ok (record { low = 20; high = 59; val = 1 })
unfolding range_of
range_of_middle = refl

at_last : at loaded 2 ≡ ok (record { low = 60; high = 99; val = 0 })
unfolding at
at_last = refl

set-Sets_example : (m : RangeMap ℕ) × Sets loaded 50 70 2 m
set-Sets_example = set-Sets loaded 50 70 2 loaded-IsValid (omega arith) (omega arith) (omega arith)

set_behind_map : set loaded 50 100 2 ≡ fails assertion
set_behind_map = set_out_of_bounds loaded 50 100 2 (inr (inl (omega arith)))

range_of-IsRun_example :
    (r : Range ℕ) × (range_of loaded 33 ≡ ok r)
    × (r.low ≤ 33)
    × (33 ≤ r.high)
    × IsRun loaded r
    × (IsReduced loaded.ranges → IsMaximal loaded r)
range_of-IsRun_example = range_of-IsRun loaded 33 loaded-IsValid (omega arith) (omega arith)

at-IsTile_example : (r : Range ℕ) × IsTile loaded 1 r
unfolding size
at-IsTile_example = at-IsTile loaded 1 loaded-IsValid (omega arith)
