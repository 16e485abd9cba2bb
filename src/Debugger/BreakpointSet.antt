-- ===== src/Debugger/BreakpointSet.antt =====
-- src/server/debugger.cc: the breakpoints as a set of addresses of the memory.
use odb.Prelude.{
  ℕ, ◌≤◌, ◌<◌, ◌≡◌, Bool, true, false, not, ◌&&◌, ◌||◌, ◌==◌, ◌⊎◌, inl, inr, arith, nat_eq, leb,
  Bool-cases,
}
use odb.Prelude.Maps.{contains, contains-erase}
use odb.Prelude.Results.{Str, Result, ok, throws, text}
use odb.Debugger.{Debugger}
use odb.Debugger.Breakpoints.{add_breakpoint, del_breakpoint}

module _ {Vm : Type 0} where
  -- The call threw, and left the debugger as it was.
  abbrev pub Refused : {A : Type 0} → Debugger Vm → Result A × Debugger Vm → Type 0
  Refused d r = (e : Str) × (r ≡ (throws e, d))

  -- The call returned, and changed the breakpoints only.
  pub record Changed (d : Debugger Vm) (has : ℕ → Bool) (r : Result (Unit {0}) × Debugger Vm)
      : Type 0 where
    pub returns : r.0 ≡ ok tt
    pub members : (a : ℕ) → contains a r.1.breakpts ≡ has a
    pub rest : record r.1 { breakpts = d.breakpts } ≡ d

  -- `add_breakpoint` adds the address to the set where it is in the memory and not in the set, and throws
  -- and changes nothing otherwise.
  pub add_breakpoint_cases :
      (addr : ℕ) (d : Debugger Vm)
      → ((addr < d.infos.memory_size)
          × (contains addr d.breakpts ≡ false)
          × Changed d (λ a. a == addr || contains a d.breakpts) (add_breakpoint addr d))
        ⊎ (((d.infos.memory_size ≤ addr) ⊎ (contains addr d.breakpts ≡ true))
            × Refused d (add_breakpoint addr d))
  unfolding add_breakpoint contains
  add_breakpoint_cases addr d = elim (Bool-cases (leb d.infos.memory_size addr)) [
    | inl outside ↦ inr (
      inl (ground arith),
      (text "cannot add breakpoint: address outside of memory range", ground arith),
    )
    | inr inside ↦ elim (Bool-cases (contains addr d.breakpts)) [
      | inl have ↦ inr (
        inr have,
        (text "cannot add breakpoint: There is already one at this address", ground arith),
      )
      | inr have ↦ inl (
        ground arith,
        have,
        record { returns = ground arith; members = λ a. ground arith; rest = ground arith },
      )
    ]
  ]

  -- `del_breakpoint` removes the address from the set where it is in the memory and in the set, and
  -- throws and changes nothing otherwise.
  pub del_breakpoint_cases :
      (addr : ℕ) (d : Debugger Vm)
      → ((addr < d.infos.memory_size)
          × (contains addr d.breakpts ≡ true)
          × Changed d (λ a. not (a == addr) && contains a d.breakpts) (del_breakpoint addr d))
        ⊎ (((d.infos.memory_size ≤ addr) ⊎ (contains addr d.breakpts ≡ false))
            × Refused d (del_breakpoint addr d))
  unfolding del_breakpoint
  del_breakpoint_cases addr d = elim (Bool-cases (leb d.infos.memory_size addr)) [
    | inl outside ↦ inr (
      inl (ground arith),
      (text "cannot delete breakpoint: address outside of memory range", ground arith),
    )
    | inr inside ↦ elim (Bool-cases (contains addr d.breakpts)) [
      | inl have ↦ inl (
        ground arith,
        have,
        record {
          returns = ground arith;
          members = λ a. ground (arith, contains-erase addr a d.breakpts);
          rest = ground arith;
        },
      )
      | inr have ↦
          inr (
            inr have,
            (text "cannot delete breakpoint: there is none at this address", ground arith),
          )
    ]
  ]
