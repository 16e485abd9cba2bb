-- ===== src/Debugger.antt =====
-- include/odb/server/debugger.hh: the state of the debugger, and what a method of it is. The methods are
-- those of src/server/debugger.cc, in the children below. `Vm` is the machine behind the `VMApi`.
pub mod Flow
pub mod Breakpoints
pub mod Registers
pub mod Memory
pub mod Symbols
pub mod Frames
pub mod Operations
pub mod Lifecycle
pub mod Invariant
pub mod BreakpointSet
pub mod Stepping
pub mod SymbolCache
pub mod Scripted
mod Tests
use odb.Prelude.{ℕ, Bool, List, Option, ◌≡◌, arith}
use odb.Prelude.Results.{Str, Result, ok, throws, fails, Fault.{assertion}}
use odb.Prelude.Results
use odb.RangeMap.{RangeMap}
use odb.Types.{CallStack, RegInfos, SymbolInfos, VmInfos}

-- `Debugger::State`.
pub data State : Type 0 where
  not_started stopped running_tofinish running_bkp running_step running_step_over running_step_out
        error exit :
      State

-- The maps are sorted association lists where they are walked in order, `syms_ranges` is empty before
-- `on_init`, and the set of breakpoints is a list. `call_stack` is in the order of the vector.
pub record Debugger (Vm : Type 0) : Type 0 where
  pub vm : Vm
  pub infos : VmInfos
  pub state : State
  pub call_stack : CallStack
  pub ins_addr : ℕ
  pub map_regs : List (ℕ × RegInfos)
  pub smap_regs : List (Str × ℕ)
  pub map_syms : List (ℕ × SymbolInfos)
  pub smap_syms : List (Str × ℕ)
  pub syms_ranges : Option (RangeMap ℕ)
  pub syms_pos : List (ℕ × ℕ)
  pub breakpts : List ℕ
  pub step_over_depth : ℕ

-- A method: what it ends in, and the object it leaves behind, also after a throw.
abbrev pub Method : Type 0 → Type 0 → Type 0
Method Vm A = Debugger Vm → Result A × Debugger Vm

module _ {Vm : Type 0} where
  abbrev pub pure : {A : Type 0} → A → Method Vm A
  pure a d = (ok a, d)

  abbrev pub lift : {A : Type 0} → Result A → Method Vm A
  lift r d = (r, d)

  abbrev pub throw : {A : Type 0} → Str → Method Vm A
  throw e d = (throws e, d)

  infixl 5 ◌>>=◌ ◌>>◌
  abbrev pub ◌>>=◌ : {A B : Type 0} → Method Vm A → (A → Method Vm B) → Method Vm B
  ◌>>=◌ m f d =
      let (r, d') = m d in
      elim r [ ok a ↦ f a d' | throws e ↦ (throws e, d') | fails x ↦ (fails x, d') ]

  abbrev pub ◌>>◌ : {B : Type 0} → Method Vm (Unit {0}) → Method Vm B → Method Vm B
  m >> k = m >>= λ _. k

  abbrev pub gets : {A : Type 0} → (Debugger Vm → A) → Method Vm A
  gets f d = (ok (f d), d)

  abbrev pub modify : (Debugger Vm → Debugger Vm) → Method Vm (Unit {0})
  modify f d = (ok tt, f d)

  abbrev pub assert : Bool → Method Vm (Unit {0})
  assert b = lift (Results.assert b)

  -- A call of a `VMApi` method.
  abbrev pub call : {A : Type 0} → (Vm → Result A × Vm) → Method Vm A
  call f d = let (r, vm') = f d.vm in (r, record d { vm = vm' })

  -- A call that returns hands its value and its object on.
  pub >>=_ok :
      {A B : Type 0} (m : Method Vm A) (f : A → Method Vm B) (d : Debugger Vm) {a : A}
      → (m d).0 ≡ ok a
      → (m >>= f) d ≡ f a (m d).1
  >>=_ok m f d e = ground (arith, e)
