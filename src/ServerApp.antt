-- ===== src/ServerApp.antt =====
-- include/odb/server/client-handler.hh and include/odb/server/server-app.hh: what a `ClientHandler` is, and the
-- configuration and the members of a `ServerApp`. The two handlers of clients that talk to the debugger are
-- parameters.
pub mod Config
pub mod MultiClient
pub mod Loop
pub mod Returns
mod Tests
use odb.Prelude.{ℕ, Bool, true, false, Option}
use odb.Prelude.Results.{Result, ok, throws, fails}
use odb.Debugger.{Debugger}

-- `ClientHandler::State`.
pub data State : Type 0 where
  not_connected connected disconnected : State

abbrev pub is_not_connected : State → Bool
is_not_connected State.not_connected = true
is_not_connected _ = false

abbrev pub is_connected : State → Bool
is_connected State.connected = true
is_connected _ = false

abbrev pub is_disconnected : State → Bool
is_disconnected State.disconnected = true
is_disconnected _ = false

-- A client of type `H` with its debugger.
pub record Session (Vm H : Type 0) : Type 0 where
  pub db : Debugger Vm
  pub client : H

abbrev pub Method : Type 0 → Type 0 → Type 0 → Type 0
Method Vm H A = Session Vm H → Result A × Session Vm H

pub record ClientHandler (Vm H : Type 0) : Type 0 where
  pub get_state : H → State
  pub setup_connection : Method Vm H (Unit {0})
  pub run_command : Method Vm H (Unit {0})
  pub check_stopped : Method Vm H (Unit {0})

module _ {Vm H : Type 0} where
  abbrev pub then_do :
      {A B : Type 0} → Result A × Session Vm H → (A → Method Vm H B) → Result B × Session Vm H
  then_do (ok a, s) f = f a s
  then_do (throws e, s) f = (throws e, s)
  then_do (fails x, s) f = (fails x, s)

  infixl 5 ◌>>=◌ ◌>>◌
  abbrev pub ◌>>=◌ : {A B : Type 0} → Method Vm H A → (A → Method Vm H B) → Method Vm H B
  ◌>>=◌ m f s = then_do (m s) f

  abbrev pub ◌>>◌ : {B : Type 0} → Method Vm H (Unit {0}) → Method Vm H B → Method Vm H B
  m >> k = m >>= λ _. k

  abbrev pub pure : {A : Type 0} → A → Method Vm H A
  pure a s = (ok a, s)

  -- A call of a method of the debugger.
  abbrev pub on_db : {A : Type 0} → (Debugger Vm → Result A × Debugger Vm) → Method Vm H A
  on_db m s = let (r, db) = m s.db in (r, record s { db = db })

pub record ServerConfig : Type 0 where
  pub enabled : Bool
  pub nostart : Bool
  pub mode_server_cli : Bool
  pub server_cli_sighandler : Bool
  pub mode_tcp : Bool
  pub tcp_port : ℕ

-- The pointers `_db` and `_client` may be null.
pub record ServerApp (Vm H : Type 0) : Type 0 where
  pub conf : ServerConfig
  pub db : Option (Debugger Vm)
  pub client : Option H
