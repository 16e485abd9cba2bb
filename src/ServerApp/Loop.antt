-- ===== src/ServerApp/Loop.antt =====
-- src/server/server-app.cc: `ServerApp::loop`, which the VM calls before each instruction. Two of its loops wait
-- for a client, who may never do what ends them: they run on fuel, and a call that is still in them is `looping`.
use odb.Prelude.{ℕ, zero, suc, Bool, true, false, not, ◌||◌, ◌&&◌, none, some, if◌then◌else◌}
use odb.Prelude.Results.{Result, ok, throws, fails, Fault.{undefined}, assert}
use odb.Types.{VmInfos, ResumeType.{to_finish}}
use odb.VmApi.{VmApi}
use odb.Debugger.{Debugger}
use odb.Debugger
use odb.Debugger.Flow.{is_stopped, is_finished, create, on_init, on_update, stop, resume}
use odb.ServerApp.{
  Method, ClientHandler, ServerConfig, ServerApp, is_connected, is_not_connected, is_disconnected,
  ◌>>=◌, ◌>>◌, pure, on_db,
}
use odb.ServerApp.MultiClient.{Multi, is_empty, make, multi_handler}

pub data Progress : Type 0 where
  returned looping : Progress

-- One round of the loop over commands breaks, goes on to the next, or is still waiting for a client.
pub data Round : Type 0 where
  breaks goes_on waits : Round

unfoldable pub db_is_stopped : {Vm : Type 0} → Debugger Vm → Bool
db_is_stopped d = is_stopped d.state || is_finished d.state

unfoldable pub stop_db : {Vm : Type 0} → Debugger.Method Vm (Unit {0})
unfolding db_is_stopped
stop_db d = if db_is_stopped d then (ok tt, d) else stop d

abbrev pub when : {Vm C : Type 0} → Bool → Method Vm C (Unit {0}) → Method Vm C (Unit {0})
when b m s = if b then m s else (ok tt, s)

module _ {Vm C : Type 0} (handler : ClientHandler Vm C) where
  -- The loop of `_connect`: whether a client is there in the end.
  unfoldable pub wait_connection : ℕ → Method Vm C Bool
  wait_connection zero = pure false
  wait_connection (suc tries) = do
    handler.setup_connection
    (λ s.
        let later = wait_connection tries s in
        if is_connected (handler.get_state s.client) then (ok true, s) else later)

  unfoldable pub connect : ℕ → Method Vm C Bool
  unfolding wait_connection
  connect tries = do
    (λ s. (assert (not (is_disconnected (handler.get_state s.client))), s))
    (λ s.
        if is_connected (handler.get_state s.client) then (ok true, s) else wait_connection tries s)

  -- Blocks until the client is connected, and runs commands.
  unfoldable pub command : ℕ → Method Vm C Round
  unfolding connect
  command tries = do
    there ← connect tries
    if there
        then (do
          (λ s. (assert (is_connected (handler.get_state s.client)), s))
          handler.run_command
          pure Round.goes_on)
        else pure Round.waits

  unfoldable pub check : ℕ → Method Vm C Round
  unfolding command db_is_stopped
  check tries = do
    (λ s.
        when (not (db_is_stopped s.db) && is_connected (handler.get_state s.client))
          handler.check_stopped s)
    (λ s. if db_is_stopped s.db then command tries s else (ok Round.breaks, s))

  unfoldable pub round : ℕ → Method Vm C Round
  unfolding check
  round tries s =
      if is_disconnected (handler.get_state s.client) then (ok Round.breaks, s) else check tries s

  unfoldable pub commands : ℕ → ℕ → Method Vm C Progress
  unfolding round
  commands tries zero = pure Progress.looping
  commands tries (suc fuel) = do
    r ← round tries
    elim r [
      | breaks ↦ pure Progress.returned
      | goes_on ↦ commands tries fuel
      | waits ↦ pure Progress.looping
    ]

  -- Switching from disconnected to connected stops the program.
  unfoldable pub greet : Method Vm C (Unit {0})
  unfolding stop_db
  greet s =
      if is_not_connected (handler.get_state s.client)
      then (handler.setup_connection
            >> (λ s'. when (is_connected (handler.get_state s'.client)) (on_db stop_db) s'))
          s
      else (ok tt, s)

  -- A program that a client has left stopped is resumed.
  unfoldable pub leave : Method Vm C (Unit {0})
  unfolding resume
  leave s =
      when (is_disconnected (handler.get_state s.client) && is_stopped s.db.state)
        (on_db (resume to_finish)) s

  -- The rest of `loop`.
  unfoldable pub attend : ℕ → ℕ → Method Vm C Progress
  unfolding greet commands leave
  attend tries fuel = do
    greet
    p ← commands tries fuel
    elim p [ looping ↦ pure Progress.looping | returned ↦ leave >> pure Progress.returned ]

-- A call on the whole object.
abbrev pub AppMethod : Type 0 → Type 0 → Type 0 → Type 0
AppMethod Vm H A = ServerApp Vm H → Result A × ServerApp Vm H

-- `_shutdown`.
abbrev pub shutdown : {Vm C : Type 0} → ServerApp Vm C → ServerApp Vm C
shutdown app = record { conf = record app.conf { enabled = false }; db = none; client = none }

module _ {Vm H : Type 0} (handler : ClientHandler Vm H) where
  -- `loop` behind `_init` or `on_update`, where `_client` is used.
  unfoldable pub attend_client : ℕ → ℕ → Debugger Vm → AppMethod Vm (Multi H) Progress
  unfolding attend
  attend_client tries fuel d app = elim app.client [
    | none ↦ (fails undefined, record app { db = some d })
    | some m ↦
        let (r, s) = attend (multi_handler handler) tries fuel (record { db = d; client = m }) in
        (r, record app { db = some s.db; client = some s.client })
  ]

-- A `VMApi` that is built, the fields that a `Debugger` starts with, and the handlers of clients.
module _ {Vm H : Type 0} (api : VmApi Vm) (garbage : ℕ) (api_builder : Result Vm) (infos : VmInfos)
    (ins_addr depth : ℕ) (handler : ClientHandler Vm H) (cli data_server : ServerConfig → H) where
  -- `_init`, behind the construction of the debugger.
  unfoldable pub init_db : ServerConfig → Debugger.Method Vm (Unit {0})
  unfolding stop_db on_init
  init_db conf d =
      let (r, d') = on_init api garbage d in
      elim r [
        | ok _ ↦ if conf.nostart then stop_db d' else (ok tt, d')
        | throws e ↦ (throws e, d')
        | fails x ↦ (fails x, d')
      ]

  unfoldable pub init : AppMethod Vm (Multi H) (Unit {0})
  unfolding init_db create
  init app = elim api_builder [
    | ok vm ↦
        let (r, d) = init_db app.conf (create vm infos ins_addr depth) in
        elim r [
          | ok _ ↦
              let multi = make cli data_server app.conf in
              if is_empty multi
              then (ok tt, shutdown app)
              else (ok tt, record app { db = some d; client = some multi })
          | throws e ↦ (throws e, record app { db = some d })
          | fails x ↦ (fails x, record app { db = some d })
        ]
    | throws e ↦ (throws e, app)
    | fails x ↦ (fails x, app)
  ]

  -- The first call of `loop`. `enabled` is tested again behind `_init`.
  unfoldable pub first_loop : ℕ → ℕ → AppMethod Vm (Multi H) Progress
  unfolding init attend_client
  first_loop tries fuel app =
      let (r, app') = init app in
      elim r [
        | ok _ ↦ elim app'.db [
          | none ↦ (ok Progress.returned, app')
          | some d ↦ attend_client handler tries fuel d app'
        ]
        | throws e ↦ (throws e, app')
        | fails x ↦ (fails x, app')
      ]

  unfoldable pub next_loop : ℕ → ℕ → Debugger Vm → AppMethod Vm (Multi H) Progress
  unfolding on_update attend_client
  next_loop tries fuel d app =
      let (r, d') = on_update api garbage d in
      elim r [
        | ok _ ↦ attend_client handler tries fuel d' app
        | throws e ↦ (throws e, record app { db = some d' })
        | fails x ↦ (fails x, record app { db = some d' })
      ]

  unfoldable pub loop : ℕ → ℕ → AppMethod Vm (Multi H) Progress
  unfolding first_loop next_loop
  loop tries fuel app =
      if app.conf.enabled
      then elim app.db [ none ↦ first_loop tries fuel app | some d ↦ next_loop tries fuel d app ]
      else (ok Progress.returned, app)
