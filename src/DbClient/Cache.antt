-- ===== src/DbClient/Cache.antt =====
-- src/mess/db-client.cc: the cache of the registers, whose values are discarded when the program has moved.
use odb.Prelude.{
  ℕ, zero, suc, Bool, true, false, List, [], ◌∷◌, ◌++◌, length, map, replicate, none, some,
  get_elem?, if◌then◌else◌, nat_eq,
}
use odb.Prelude.Maps.{find, emplace, str_eq}
use odb.Prelude.Results.{Str, Result, ok, fails, Fault.{assertion, undefined}}
use odb.Prelude.Results
use odb.Types.{RegInfos}
use odb.Requests.{reg_infos}
use odb.DbClient.{DbClient, DbClientImpl, Method, ◌>>=◌, ◌>>◌, pure, gets, modify, call}

abbrev pub clear_val : RegInfos → RegInfos
clear_val inf = record inf { val = [] }

-- `_discard_tmp_cache`.
unfoldable pub discard_tmp_cache : {Impl : Type 0} → Method Impl (Unit {0})
discard_tmp_cache = modify λ c. record c { regi_arr = map clear_val c.regi_arr }

-- The keys that are not in the map.
unfoldable pub misses : List (ℕ × ℕ) → List ℕ → List ℕ
unfolding find
misses known [] = []
misses known (id ∷ ids) =
    let rest = misses known ids in elim (find id known) [ none ↦ id ∷ rest | some i ↦ rest ]

unfoldable pub missing_names : List (Str × ℕ) → List Str → List Str
unfolding find
missing_names known [] = []
missing_names known (name ∷ names) =
    let rest = missing_names known names in
    elim (find name known) [ none ↦ name ∷ rest | some i ↦ rest ]

-- `_regi_idx_map.emplace(inf.idx, i)` and `_regi_name_map.emplace(inf.name, i)`, from the position `i` on.
unfoldable pub emplace_idxs : ℕ → List RegInfos → List (ℕ × ℕ) → List (ℕ × ℕ)
unfolding emplace
emplace_idxs i [] m = m
emplace_idxs i (inf ∷ infos) m = emplace_idxs (suc i) infos (emplace inf.idx i m)

unfoldable pub emplace_names : ℕ → List RegInfos → List (Str × ℕ) → List (Str × ℕ)
unfolding emplace
emplace_names i [] m = m
emplace_names i (inf ∷ infos) m = emplace_names (suc i) infos (emplace inf.name i m)

-- The end of `_fetch_reg_infos_by_id`.
unfoldable pub add_to_cache : {Impl : Type 0} → List RegInfos → DbClient Impl → DbClient Impl
unfolding emplace_idxs emplace_names
add_to_cache infos c = record c {
  regi_arr = c.regi_arr ++ infos;
  regi_idx_map = emplace_idxs (length c.regi_arr) infos c.regi_idx_map;
  regi_name_map = emplace_names (length c.regi_arr) infos c.regi_name_map;
}

-- `_regi_arr[it->second]`, where the entry is asserted to be there.
unfoldable pub cached_reg : {Impl : Type 0} → ℕ → DbClient Impl → Result RegInfos
unfolding find
cached_reg id c = elim (find id c.regi_idx_map) [
  | none ↦ fails assertion
  | some i ↦ elim (get_elem? c.regi_arr i) [ none ↦ fails undefined | some reg ↦ ok reg ]
]

-- A write through a reference to that entry.
unfoldable pub set_val_at : ℕ → List ℕ → List RegInfos → List RegInfos
set_val_at i val [] = []
set_val_at zero val (reg ∷ regs) = record reg { val = val } ∷ regs
set_val_at (suc i) val (reg ∷ regs) = reg ∷ set_val_at i val regs

unfoldable pub set_val : {Impl : Type 0} → ℕ → List ℕ → DbClient Impl → DbClient Impl
unfolding find set_val_at
set_val id val c = elim (find id c.regi_idx_map) [
  | none ↦ c
  | some i ↦ record c { regi_arr = set_val_at i val c.regi_arr }
]

abbrev pub is_empty : {A : Type 0} → List A → Bool
is_empty [] = true
is_empty (x ∷ xs) = false

-- The registers without a value: their `idx` and `size`.
unfoldable pub missing_vals : {Impl : Type 0} → List ℕ → DbClient Impl → Result (List (ℕ × ℕ))
unfolding cached_reg
missing_vals [] c = ok []
missing_vals (id ∷ ids) c = Results.◌>>=◌ (cached_reg id c) (λ reg.
    Results.◌>>=◌ (missing_vals ids c)
      (λ rest. ok (if is_empty reg.val then (reg.idx, reg.size) ∷ rest else rest)))

-- The values are written to the cache.
unfoldable pub add_vals : {Impl : Type 0} → List ℕ → List (List ℕ) → Method Impl (Unit {0})
unfolding cached_reg set_val
add_vals [] vals = pure tt
add_vals (id ∷ ids) [] = pure tt
add_vals (id ∷ ids) (val ∷ vals) = do
  reg ← (λ c. (cached_reg id c, c))
  modify (set_val id val)
  add_vals ids vals

module _ {Impl : Type 0} (impl : DbClientImpl Impl) where
  unfoldable pub load_reg_infos : List ℕ → Method Impl (Unit {0})
  unfolding add_to_cache
  load_reg_infos [] = pure tt
  load_reg_infos (id ∷ miss) = do
    infos ← call (
        impl.get_regs_infos (id ∷ miss) (replicate (length (id ∷ miss)) reg_infos.blank)
          (length (id ∷ miss)))
    modify (add_to_cache (map clear_val infos))

  unfoldable pub fetch_reg_infos_by_id : List ℕ → Method Impl (Unit {0})
  unfolding misses load_reg_infos
  fetch_reg_infos_by_id idxs = do miss ← gets (λ c. misses c.regi_idx_map idxs); load_reg_infos miss

  unfoldable pub load_reg_names : List Str → Method Impl (Unit {0})
  unfolding fetch_reg_infos_by_id
  load_reg_names [] = pure tt
  load_reg_names (name ∷ miss) = do
    idxs ← call (
        impl.find_regs_ids (name ∷ miss) (replicate (length (name ∷ miss)) 0)
          (length (name ∷ miss)))
    fetch_reg_infos_by_id idxs

  unfoldable pub fetch_reg_infos_by_name : List Str → Method Impl (Unit {0})
  unfolding missing_names load_reg_names
  fetch_reg_infos_by_name names = do
    miss ← gets (λ c. missing_names c.regi_name_map names)
    load_reg_names miss

  -- With the indices and the sizes of the registers whose values are missing.
  unfoldable pub load_reg_vals : List (ℕ × ℕ) → Method Impl (Unit {0})
  unfolding add_vals
  load_reg_vals [] = pure tt
  load_reg_vals (reg ∷ regs) = do
    let miss = map (λ (r : ℕ × ℕ). r.0) (reg ∷ regs)
    let miss_size = map (λ (r : ℕ × ℕ). r.1) (reg ∷ regs)
    let miss_bufs = map (λ n. replicate n 0) miss_size
    vals ← call (impl.get_regs miss miss_bufs miss_size (length miss))
    add_vals miss vals

  unfoldable pub fetch_reg_vals_by_id : List ℕ → Method Impl (Unit {0})
  unfolding fetch_reg_infos_by_id missing_vals load_reg_vals
  fetch_reg_vals_by_id idxs = do
    fetch_reg_infos_by_id idxs
    miss ← (λ c. (missing_vals idxs c, c))
    load_reg_vals miss
