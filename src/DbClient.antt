-- ===== src/DbClient.antt =====
-- include/odb/mess/db-client.hh and src/mess/db-client.cc: `DBClient`, which a user calls. It keeps the state of
-- the connection, the last update, and a cache of the registers. The `DBClientImpl` behind it is a parameter:
-- DbClientImplData is one. An array and its count are a list.
pub mod Cache
pub mod Calls
pub mod Registers
pub mod Values
pub mod Remote
mod Tests
use odb.Prelude.{ℕ, Bool, true, false, List}
use odb.Prelude.Results.{Str, Result, ok, throws, fails}
use odb.Prelude.Results
use odb.Types.{RegInfos, SymbolInfos, VmInfos, DbClientUpdate, ResumeType}

-- include/odb/mess/db-client-impl.hh. The arrays that a method fills come back, and so does an update that it
-- may leave as it was. The last number of a method is the count.
pub record DbClientImpl (Impl : Type 0) : Type 0 where
  pub connect : DbClientUpdate → Impl → Result (VmInfos × DbClientUpdate) × Impl
  pub stop : Impl → Result (Unit {0}) × Impl
  pub check_stopped : DbClientUpdate → Impl → Result DbClientUpdate × Impl
  pub get_regs : List ℕ → List (List ℕ) → List ℕ → ℕ → Impl → Result (List (List ℕ)) × Impl
  pub set_regs : List ℕ → List (List ℕ) → List ℕ → ℕ → Impl → Result (Unit {0}) × Impl
  pub get_regs_infos : List ℕ → List RegInfos → ℕ → Impl → Result (List RegInfos) × Impl
  pub find_regs_ids : List Str → List ℕ → ℕ → Impl → Result (List ℕ) × Impl
  pub read_mem : List ℕ → List ℕ → List (List ℕ) → ℕ → Impl → Result (List (List ℕ)) × Impl
  pub write_mem : List ℕ → List ℕ → List (List ℕ) → ℕ → Impl → Result (Unit {0}) × Impl
  pub get_symbols_by_ids : List ℕ → List SymbolInfos → ℕ → Impl → Result (List SymbolInfos) × Impl
  pub get_symbols_by_addr : ℕ → ℕ → Impl → Result (List SymbolInfos) × Impl
  pub get_symbols_by_names :
      List Str → List SymbolInfos → ℕ → Impl → Result (List SymbolInfos) × Impl
  pub get_code_text : ℕ → ℕ → Impl → Result (List Str × List ℕ) × Impl
  pub add_breakpoints : List ℕ → ℕ → Impl → Result (Unit {0}) × Impl
  pub del_breakpoints : List ℕ → ℕ → Impl → Result (Unit {0}) × Impl
  pub resume : ResumeType → Impl → Result (Unit {0}) × Impl

-- `DBClient::State`.
pub data State : Type 0 where
  not_connected disconnected vm_stopped vm_running : State

abbrev pub is_stopped : State → Bool
is_stopped State.vm_stopped = true
is_stopped _ = false

abbrev pub is_running : State → Bool
is_running State.vm_running = true
is_running _ = false

abbrev pub is_new : State → Bool
is_new State.not_connected = true
is_new _ = false

-- The maps are association lists to the positions in `regi_arr`.
pub record DbClient (Impl : Type 0) : Type 0 where
  pub impl : Impl
  pub state : State
  pub udp : DbClientUpdate
  pub vm_infos : VmInfos
  pub regi_arr : List RegInfos
  pub regi_idx_map : List (ℕ × ℕ)
  pub regi_name_map : List (Str × ℕ)

abbrev pub Method : Type 0 → Type 0 → Type 0
Method Impl A = DbClient Impl → Result A × DbClient Impl

module _ {Impl : Type 0} where
  abbrev pub then_do :
      {A B : Type 0} → Result A × DbClient Impl → (A → Method Impl B) → Result B × DbClient Impl
  then_do (ok a, c) f = f a c
  then_do (throws e, c) f = (throws e, c)
  then_do (fails x, c) f = (fails x, c)

  infixl 5 ◌>>=◌ ◌>>◌
  abbrev pub ◌>>=◌ : {A B : Type 0} → Method Impl A → (A → Method Impl B) → Method Impl B
  ◌>>=◌ m f c = then_do (m c) f

  abbrev pub ◌>>◌ : {B : Type 0} → Method Impl (Unit {0}) → Method Impl B → Method Impl B
  m >> k = m >>= λ _. k

  abbrev pub pure : {A : Type 0} → A → Method Impl A
  pure a c = (ok a, c)

  abbrev pub lift : {A : Type 0} → Result A → Method Impl A
  lift r c = (r, c)

  abbrev pub gets : {A : Type 0} → (DbClient Impl → A) → Method Impl A
  gets f c = (ok (f c), c)

  abbrev pub modify : (DbClient Impl → DbClient Impl) → Method Impl (Unit {0})
  modify f c = (ok tt, f c)

  -- A call of `_impl`.
  abbrev pub call : {A : Type 0} → (Impl → Result A × Impl) → Method Impl A
  call f c = let (r, impl) = f c.impl in (r, record c { impl = impl })

  -- `assert(_state == …)`.
  abbrev pub assert_state : (State → Bool) → Method Impl (Unit {0})
  assert_state test c = (Results.assert (test c.state), c)
