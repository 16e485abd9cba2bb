-- ===== src/VmSide/Batches.antt =====
-- src/server/db-client-impl-vmside.cc: the breakpoints of one request are added one by one.
use odb.Prelude.{
  ℕ, ◌<◌, ◌≤◌, ◌≡◌, refl, ap, ◌∙◌, true, false, ◌⊎◌, inl, inr, List, [], ◌∷◌, ◌++◌, nat_eq, arith,
}
use odb.Prelude.Maps.{contains}
use odb.Prelude.Results.{Str, ok, throws}
use odb.Debugger.{Debugger, >>=_ok}
use odb.Debugger.Breakpoints.{add_breakpoint}
use odb.Debugger.BreakpointSet.{Refused, add_breakpoint_cases}
use odb.VmSide.{run_each, add_breakpoints}

-- Addresses of the memory that are neither in the set nor twice in the list.
abbrev pub Fresh : ℕ → List ℕ → List ℕ → Type 0
Fresh memory_size bkps [] = Unit {0}
Fresh memory_size bkps (addr ∷ addrs) =
    (addr < memory_size) × (contains addr bkps ≡ false) × Fresh memory_size (addr ∷ bkps) addrs

module _ {Vm : Type 0} where
  -- Where adding the addresses one by one leads.
  abbrev pub with_all : List ℕ → Debugger Vm → Debugger Vm
  with_all [] d = d
  with_all (addr ∷ addrs) d = with_all addrs (record d { breakpts = addr ∷ d.breakpts })

  added :
      (addr : ℕ) (d : Debugger Vm)
      → addr < d.infos.memory_size
      → contains addr d.breakpts ≡ false
      → add_breakpoint addr d ≡ (ok tt, record d { breakpts = addr ∷ d.breakpts })
  unfolding add_breakpoint
  added addr d low free = ground (arith, free)

  refused :
      (addr : ℕ) (d : Debugger Vm)
      → (d.infos.memory_size ≤ addr) ⊎ (contains addr d.breakpts ≡ true)
      → Refused d (add_breakpoint addr d)
  refused addr d bad = elim (add_breakpoint_cases addr d) [
    | inl (low, free, changed) ↦ absurd (ground (arith, low, free, bad))
    | inr (why, threw) ↦ threw
  ]

  one_more :
      (addr : ℕ) (addrs : List ℕ) (d : Debugger Vm)
      → addr < d.infos.memory_size
      → contains addr d.breakpts ≡ false
      → add_breakpoints (addr ∷ addrs) d
        ≡ add_breakpoints addrs (record d { breakpts = addr ∷ d.breakpts })
  unfolding add_breakpoints run_each
  one_more addr addrs d low free =
      let e = added addr d low free in
      >>=_ok (add_breakpoint addr) (λ _. run_each add_breakpoint addrs) d (ap (λ r. r.0) e)
      ∙ ap (λ r. run_each add_breakpoint addrs r.1) e

  -- A request to add breakpoints at addresses of the memory which have none, and which are not twice in
  -- the request, returns and adds them all.
  pub add_breakpoints_all :
      (addrs : List ℕ) (d : Debugger Vm)
      → Fresh d.infos.memory_size d.breakpts addrs
      → add_breakpoints addrs d ≡ (ok tt, with_all addrs d)
  unfolding add_breakpoints run_each
  add_breakpoints_all [] d fresh = refl
  add_breakpoints_all (addr ∷ addrs) d fresh =
      one_more addr addrs d fresh.0 fresh.1
      ∙ add_breakpoints_all addrs (record d { breakpts = addr ∷ d.breakpts }) fresh.2

  -- A request to add breakpoints throws at an address that is outside of the memory or has one,
  -- where those before it in the request are in the memory, have none, and are not twice in the
  -- request: the breakpoints before it are added and stay, and those behind it are not added.
  pub add_breakpoints_stops :
      (good : List ℕ) (bad : ℕ) (more : List ℕ) (d : Debugger Vm)
      → Fresh d.infos.memory_size d.breakpts good
      → (d.infos.memory_size ≤ bad) ⊎ (contains bad (with_all good d).breakpts ≡ true)
      → (e : Str) × (add_breakpoints (good ++ (bad ∷ more)) d ≡ (throws e, with_all good d))
  unfolding add_breakpoints run_each
  add_breakpoints_stops [] bad more d fresh why =
      let (e, threw) = refused bad d why in (e, ground (arith, threw))
  add_breakpoints_stops (addr ∷ good) bad more d fresh why =
      let rest =
        add_breakpoints_stops good bad more (record d { breakpts = addr ∷ d.breakpts }) fresh.2
          why in
      (rest.0, one_more addr (good ++ (bad ∷ more)) d fresh.0 fresh.1 ∙ rest.1)
