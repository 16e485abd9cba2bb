-- ===== src/Debugger/Breakpoints.antt =====
-- src/server/debugger.cc: the breakpoints.
use odb.Prelude.{ℕ, Bool, ◌∷◌, leb, not, if◌then◌else◌}
use odb.Prelude.Maps.{contains, erase}
use odb.Prelude.Results.{text}
use odb.Debugger.{Debugger, Method, throw, ◌>>=◌, gets, modify}

module _ {Vm : Type 0} where
  -- `addr >= _infos.memory_size`.
  abbrev pub is_outside : ℕ → Debugger Vm → Bool
  is_outside addr d = leb d.infos.memory_size addr

  unfoldable pub add_breakpoint : ℕ → Method Vm (Unit {0})
  add_breakpoint addr = do
    outside ← gets (is_outside addr)
    there ← gets (λ d. contains addr d.breakpts)
    if outside
        then throw (text "cannot add breakpoint: address outside of memory range")
        else if there
        then throw (text "cannot add breakpoint: There is already one at this address")
        else modify (λ d. record d { breakpts = addr ∷ d.breakpts })

  unfoldable pub has_breakpoint : ℕ → Method Vm Bool
  has_breakpoint addr = do
    outside ← gets (is_outside addr)
    if outside
        then throw (text "cannot get breakpoint: address outside of memory range")
        else gets (λ d. contains addr d.breakpts)

  unfoldable pub del_breakpoint : ℕ → Method Vm (Unit {0})
  del_breakpoint addr = do
    outside ← gets (is_outside addr)
    there ← gets (λ d. contains addr d.breakpts)
    if outside
        then throw (text "cannot delete breakpoint: address outside of memory range")
        else if not there
        then throw (text "cannot delete breakpoint: there is none at this address")
        else modify (λ d. record d { breakpts = erase addr d.breakpts })
