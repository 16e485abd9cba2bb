-- ===== src/VmSide/Histories.antt =====
-- src/server/db-client-impl-vmside.cc: what no sequence of requests can break.
use odb.Prelude.{ℕ, ◌≡◌, refl, ap, ◌∙◌, true, List, [], ◌∷◌}
use odb.Types.{RegInfos}
use odb.VmApi.{VmApi}
use odb.Debugger.{Debugger}
use odb.Debugger.Flow.{is_finished}
use odb.Debugger.Frames.{Control, Control-refl, Control-trans}
use odb.Debugger.Lifecycle.{perform-Control, finished_step}
use odb.Debugger.Invariant.{Inv, Keeps, Keeps-trans}
use odb.Debugger.Invariant.Histories.{perform-Inv}
use odb.VmSide.Requests.{Request, IsRead, serve, serve_all}
use odb.VmSide.Keeps.{read-Within, serve-Within}

module _ {Vm : Type 0} where
  -- A program that has finished keeps its state.
  abbrev Stays : Debugger Vm → Debugger Vm → Type 0
  Stays a b = is_finished a.state ≡ true → b.state ≡ a.state

  Stays-trans : (a b c : Debugger Vm) → Stays a b → Stays b c → Stays a c
  Stays-trans a b c h k e = k (ap is_finished (h e) ∙ e) ∙ h e

module _ {Vm : Type 0} (api : VmApi Vm) (garbage : ℕ) (blank : RegInfos) where
  -- Any sequence of requests, however each of them ends, keeps the invariant of a debugger that has
  -- started: the map of the loaded memory is a valid one over the whole memory, and each breakpoint is
  -- below the memory size.
  pub serve_all-Inv :
      (reqs : List Request) (d : Debugger Vm) → Inv d → Inv (serve_all api blank reqs d)
  unfolding serve_all
  serve_all-Inv [] d v = v
  serve_all-Inv (req ∷ reqs) d v = serve_all-Inv reqs (serve api blank req d) (
      serve-Within Keeps (λ d v. v) Keeps-trans api garbage blank
        (λ op q. perform-Inv api garbage blank op) (perform-Inv api garbage blank) req d v)

  -- A request that reads or writes registers, memory, symbols or code, or asks for the state, leaves
  -- the state, the call stack, the address and the breakpoints of the debugger as they were, however it ends.
  pub serve-Control :
      (req : Request) (d : Debugger Vm) → IsRead req → Control d (serve api blank req d)
  serve-Control req d q =
      read-Within Control Control-refl Control-trans api garbage blank
        (λ op q d. perform-Control api garbage blank op d q) req q d

  -- No sequence of requests changes the state of a program that has exited or failed.
  pub finished_for_clients :
      (reqs : List Request) (d : Debugger Vm)
      → is_finished d.state ≡ true
      → (serve_all api blank reqs d).state ≡ d.state
  unfolding serve_all
  finished_for_clients [] d h = refl
  finished_for_clients (req ∷ reqs) d h =
      let step =
        serve-Within Stays (λ d h. refl) Stays-trans api garbage blank
          (λ op q d. finished_step api garbage blank op d) (finished_step api garbage blank) req d
          h in
      finished_for_clients reqs (serve api blank req d) (ap is_finished step ∙ h) ∙ step
