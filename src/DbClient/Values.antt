-- ===== src/DbClient/Values.antt =====
-- src/mess/db-client.cc: when the values of registers in the cache are forgotten, and when they are not.
use odb.Prelude.{
  ℕ, zero, suc, ◌≤◌, ◌≡◌, ◌≢◌, refl, Option-cases, Bool-cases, inl, inr, true, false, List, [], ◌∷◌,
  ◌++◌, map, length, take, drop, get_elem?, some, nat_eq, arith,
}
use odb.Prelude.Maps.{find}
use odb.Prelude.Results.{ok}
use odb.Types.{RegInfos, DbClientUpdate}
use odb.DbClient.{DbClient, DbClientImpl, State}
use odb.DbClient.Cache.{
  discard_tmp_cache, clear_val, cached_reg, misses, missing_vals, load_reg_infos, load_reg_vals,
  fetch_reg_infos_by_id, fetch_reg_vals_by_id,
}
use odb.DbClient.Calls
use odb.DbClient.Registers.{reg_size_at, memcpy, copy_vals, get_regs}

-- No register of the cache has a value.
abbrev pub IsForgotten : {Impl : Type 0} → DbClient Impl → Type 0
IsForgotten c = (id : ℕ) (reg : RegInfos) → cached_reg id c ≡ ok reg → reg.val ≡ []

get_elem?-map_clear :
    (regs : List RegInfos) (i : ℕ) (reg : RegInfos)
    → get_elem? (map clear_val regs) i ≡ some reg
    → reg.val ≡ []
get_elem?-map_clear [] i reg e = absurd (ground arith)
get_elem?-map_clear (r ∷ regs) zero reg e = ground (arith, e)
get_elem?-map_clear (r ∷ regs) (suc i) reg e = get_elem?-map_clear regs i reg e

length-map_clear : (regs : List RegInfos) → length (map clear_val regs) ≡ length regs
length-map_clear [] = refl
length-map_clear (reg ∷ regs) = let rest = length-map_clear regs in omega (arith, rest)

kept_in_map :
    (regs : List RegInfos) (i : ℕ) (reg : RegInfos)
    → get_elem? regs i ≡ some reg
    → get_elem? (map clear_val regs) i ≡ some (record reg { val = [] })
kept_in_map [] i reg e = absurd (ground (arith, e))
kept_in_map (r ∷ regs) zero reg e = ground (arith, e)
kept_in_map (r ∷ regs) (suc i) reg e = kept_in_map regs i reg e

cleared-IsForgotten :
    {Impl : Type 0} (c : DbClient Impl) (regs : List RegInfos)
    → c.regi_arr ≡ map clear_val regs
    → IsForgotten c
unfolding cached_reg
cleared-IsForgotten c regs e id reg got = elim (Option-cases (find id c.regi_idx_map)) [
  | inl p ↦ absurd (ground (arith, got, p))
  | inr (i, p) ↦
      let there : get_elem? (map clear_val regs) i ≡ some reg = ground (arith, got, e, p) in
      get_elem?-map_clear regs i reg there
]

module _ {Impl : Type 0} (impl : DbClientImpl Impl) where
  -- The two maps are as before, and so is each entry of the array but for its value.
  abbrev pub KeepsInfos : DbClient Impl → DbClient Impl → Type 0
  KeepsInfos c c' =
      (c'.regi_idx_map ≡ c.regi_idx_map)
      × (c'.regi_name_map ≡ c.regi_name_map)
      × (length c'.regi_arr ≡ length c.regi_arr)
      × ((i : ℕ) (reg : RegInfos)
          → get_elem? c.regi_arr i ≡ some reg
          → get_elem? c'.regi_arr i ≡ some (record reg { val = [] }))

  -- The outcome of `check_stopped` on what the implementation says.
  abbrev pub Checked : DbClient Impl → DbClientUpdate → Impl → DbClient Impl → Type 0
  Checked c udp after c' =
      (c'.impl ≡ after)
      × (c'.udp ≡ udp)
      × (c'.vm_infos ≡ c.vm_infos)
      × (udp.stopped ≡ true → (c'.state ≡ State.vm_stopped) × IsForgotten c' × KeepsInfos c c')
      × (udp.stopped ≡ false → c' ≡ record c { impl = after; udp = udp; state = State.vm_running })

  -- A client that asks whether the program has stopped keeps the answer. If the program has, it forgets the
  -- values of all registers in its cache and keeps what else it knows of each, under the same index and
  -- name; if it has not, nothing of the cache changes.
  pub check_stopped-Checked :
      (c : DbClient Impl) (udp : DbClientUpdate) (after : Impl)
      → c.state ≡ State.vm_running
      → impl.check_stopped c.udp c.impl ≡ (ok udp, after)
      → (c' : DbClient Impl) × (Calls.check_stopped impl c ≡ (ok tt, c')) × Checked c udp after c'
  unfolding Calls.check_stopped Calls.update discard_tmp_cache
  check_stopped-Checked c udp after running said = elim (Bool-cases udp.stopped) [
    | inl halted ↦ (
      forgetting,
      ground (arith, running, said, halted),
      (
        refl,
        refl,
        refl,
        λ h. (
          refl,
          cleared-IsForgotten forgetting c.regi_arr refl,
          (refl, refl, length-map_clear c.regi_arr, kept_in_map c.regi_arr),
        ),
        λ h. absurd (ground (arith, h, halted)),
      ),
    )
    | inr going ↦ (
      keeping,
      ground (arith, running, said, going),
      (refl, refl, refl, λ h. absurd (ground (arith, h, going)), λ h. refl),
    )
  ]
    where
      forgetting : DbClient Impl
      forgetting = record c {
        impl = after;
        udp = udp;
        state = State.vm_stopped;
        regi_arr = map clear_val c.regi_arr;
      }

      keeping : DbClient Impl
      keeping = record c { impl = after; udp = udp; state = State.vm_running }

  -- A register with a value in the cache, at position `i`.
  abbrev pub IsCached : DbClient Impl → ℕ → ℕ → RegInfos → Type 0
  IsCached c id i reg =
      (find id c.regi_idx_map ≡ some i) × (get_elem? c.regi_arr i ≡ some reg) × (reg.val ≢ [])

  -- A stopped client answers for it without a question.
  get_regs-cached :
      (c : DbClient Impl) (id i size : ℕ) (reg : RegInfos) (out : List ℕ)
      → c.state ≡ State.vm_stopped
      → IsCached c id i reg
      → size ≤ length reg.val
      → size ≤ length out
      → get_regs impl (id ∷ []) (out ∷ []) (size ∷ []) c
        ≡ (ok ((take size reg.val ++ drop size out) ∷ []), c)
  unfolding get_regs fetch_reg_vals_by_id fetch_reg_infos_by_id misses load_reg_infos missing_vals
      cached_reg load_reg_vals copy_vals reg_size_at memcpy
  get_regs-cached c id i size reg out stopped h fits room =
      ground (arith, stopped, h.0, h.1, h.2, fits, room)

  -- A client that stops a running program keeps the values that it has in its cache: it then answers for such
  -- a register with the value from before the program ran, and asks nobody, whatever the implementation
  -- would say now.
  pub stop_remembers :
      (c : DbClient Impl) (udp : DbClientUpdate) (told after : Impl) (id i size : ℕ)
      (reg : RegInfos) (out : List ℕ)
      → c.state ≡ State.vm_running
      → impl.stop c.impl ≡ (ok tt, told)
      → impl.check_stopped c.udp told ≡ (ok udp, after)
      → udp.stopped ≡ true
      → IsCached c id i reg
      → size ≤ length reg.val
      → size ≤ length out
      → (c' : DbClient Impl) × (Calls.stop impl c ≡ (ok tt, c'))
        × (c'.state ≡ State.vm_stopped)
        × (get_regs impl (id ∷ []) (out ∷ []) (size ∷ []) c'
            ≡ (ok ((take size reg.val ++ drop size out) ∷ []), c'))
  unfolding Calls.stop Calls.update
  stop_remembers c udp told after id i size reg out running stops says yes_stopped h fits room =
      let c' : DbClient Impl = record c { impl = after; udp = udp; state = State.vm_stopped } in
      (
        c',
        ground (arith, running, stops, says, yes_stopped),
        refl,
        get_regs-cached c' id i size reg out refl h fits room,
      )
