-- ===== src/DbClient/Registers.antt =====
-- src/mess/db-client.cc: the methods of `DBClient` on registers, which go through the cache.
use odb.Prelude.{
  ℕ, suc, List, [], ◌∷◌, ◌++◌, length, take, drop, replicate, get_elem?, none, some, ltb, ◌==◌, not,
  if◌then◌else◌, nat_eq,
}
use odb.Prelude.Maps.{find, str_eq}
use odb.Prelude.Results.{Str, Result, ok, fails, assert, Fault.{assertion, undefined}}
use odb.Prelude.Results
use odb.Types.{RegInfos}
use odb.DbClient.{
  DbClient, DbClientImpl, Method, is_stopped, ◌>>=◌, ◌>>◌, pure, lift, modify, call, assert_state,
}
use odb.DbClient.Cache.{
  cached_reg, set_val, is_empty, fetch_reg_infos_by_id, fetch_reg_infos_by_name,
  fetch_reg_vals_by_id,
}

-- `nregs > 1 && regs_size[1] == 0 ? regs_size[0] : regs_size[i]`.
abbrev pub item : List ℕ → ℕ → Result ℕ
item sizes i = elim (get_elem? sizes i) [ none ↦ fails undefined | some n ↦ ok n ]

unfoldable pub reg_size_at : ℕ → List ℕ → ℕ → Result ℕ
reg_size_at nregs regs_size i =
    if ltb 1 nregs
    then Results.◌>>=◌ (item regs_size 1)
        (λ n. if n == 0 then item regs_size 0 else item regs_size i)
    else item regs_size i

-- `memcpy(out, val, size)`.
unfoldable pub memcpy : List ℕ → List ℕ → ℕ → Result (List ℕ)
memcpy out val size =
    if ltb (length val) size
    then fails undefined
    else if ltb (length out) size
    then fails undefined
    else ok (take size val ++ drop size out)

-- The loop of `get_regs`, from register `i` on.
unfoldable pub copy_vals :
    {Impl : Type 0} → ℕ → List ℕ → ℕ → List ℕ → List (List ℕ) → Method Impl (List (List ℕ))
unfolding reg_size_at cached_reg memcpy
copy_vals nregs regs_size i [] out_bufs = pure out_bufs
copy_vals nregs regs_size i (id ∷ ids) [] = lift (fails undefined)
copy_vals nregs regs_size i (id ∷ ids) (out ∷ out_bufs) = do
  size ← lift (reg_size_at nregs regs_size i)
  reg ← (λ c. (cached_reg id c, c))
  lift (assert (not (is_empty reg.val)))
  out' ← lift (memcpy out reg.val size)
  rest ← copy_vals nregs regs_size (suc i) ids out_bufs
  pure (out' ∷ rest)

-- The loop of `set_regs`, from register `i` on.
unfoldable pub store_vals :
    {Impl : Type 0} → ℕ → List ℕ → ℕ → List ℕ → List (List ℕ) → Method Impl (Unit {0})
unfolding reg_size_at cached_reg memcpy set_val
store_vals nregs regs_size i [] in_bufs = pure tt
store_vals nregs regs_size i (id ∷ ids) [] = lift (fails undefined)
store_vals nregs regs_size i (id ∷ ids) (buf ∷ in_bufs) = do
  size ← lift (reg_size_at nregs regs_size i)
  reg ← (λ c. (cached_reg id c, c))
  lift (assert (size == reg.size))
  val ← lift (memcpy (replicate size 0) buf size)
  modify (set_val id val)
  store_vals nregs regs_size (suc i) ids in_bufs

unfoldable pub cached_regs : {Impl : Type 0} → List ℕ → Method Impl (List RegInfos)
unfolding cached_reg
cached_regs [] = pure []
cached_regs (id ∷ ids) = do
  reg ← (λ c. (cached_reg id c, c))
  rest ← cached_regs ids
  pure (reg ∷ rest)

-- The index of the register that a name stands for in the cache.
unfoldable pub cached_name : {Impl : Type 0} → Str → DbClient Impl → Result ℕ
unfolding find
cached_name name c = elim (find name c.regi_name_map) [
  | none ↦ fails assertion
  | some i ↦ elim (get_elem? c.regi_arr i) [ none ↦ fails undefined | some reg ↦ ok reg.idx ]
]

unfoldable pub cached_names : {Impl : Type 0} → List Str → Method Impl (List ℕ)
unfolding cached_name
cached_names [] = pure []
cached_names (name ∷ names) = do
  id ← (λ c. (cached_name name c, c))
  rest ← cached_names names
  pure (id ∷ rest)

module _ {Impl : Type 0} (impl : DbClientImpl Impl) where
  unfoldable pub get_regs : List ℕ → List (List ℕ) → List ℕ → Method Impl (List (List ℕ))
  unfolding fetch_reg_vals_by_id copy_vals
  get_regs ids out_bufs regs_size = do
    assert_state is_stopped
    fetch_reg_vals_by_id impl ids
    copy_vals (length ids) regs_size 0 ids out_bufs

  unfoldable pub set_regs : List ℕ → List (List ℕ) → List ℕ → Method Impl (Unit {0})
  unfolding fetch_reg_infos_by_id store_vals
  set_regs ids in_bufs regs_size = do
    assert_state is_stopped
    fetch_reg_infos_by_id impl ids
    call (impl.set_regs ids in_bufs regs_size (length ids))
    store_vals (length ids) regs_size 0 ids in_bufs

  unfoldable pub get_regs_infos : List ℕ → Method Impl (List RegInfos)
  unfolding fetch_reg_infos_by_id cached_regs
  get_regs_infos ids = do assert_state is_stopped; fetch_reg_infos_by_id impl ids; cached_regs ids

  unfoldable pub find_regs_ids : List Str → Method Impl (List ℕ)
  unfolding fetch_reg_infos_by_name cached_names
  find_regs_ids reg_names = do
    assert_state is_stopped
    fetch_reg_infos_by_name impl reg_names
    cached_names reg_names
