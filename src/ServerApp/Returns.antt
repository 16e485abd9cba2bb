-- ===== src/ServerApp/Returns.antt =====
-- src/server/server-app.cc: when `loop` returns to the VM, the program goes on.
use odb.Prelude.{
  ℕ, zero, suc, true, false, some, ◌≡◌, ◌⊎◌, inl, inr, Option-cases, if◌then◌else◌, arith,
}
use odb.Prelude.Results.{Result, ok}
use odb.Types.{VmInfos, ResumeType.{to_finish}}
use odb.VmApi.{VmApi}
use odb.Debugger.{Debugger}
use odb.Debugger.Flow.{is_stopped, on_update, resume, run_as}
use odb.ServerApp.{Session, ClientHandler, ServerConfig, ServerApp, State, is_disconnected}
use odb.ServerApp.MultiClient.{Multi, multi_handler}
use odb.ServerApp.Loop.{
  Progress.{returned},
  Round.{breaks},
  db_is_stopped,
  round,
  check,
  command,
  commands,
  greet,
  leave,
  attend,
  attend_client,
  init,
  first_loop,
  next_loop,
  loop,
}

module _ {Vm C : Type 0} (handler : ClientHandler Vm C) where
  -- The client is gone, or the program has not stopped.
  abbrev IsDone : Session Vm C → Type 0
  IsDone s = (is_disconnected (handler.get_state s.client) ≡ true) ⊎ (db_is_stopped s.db ≡ false)

  round-IsDone :
      (tries : ℕ) (s : Session Vm C)
      → (round handler tries s).0 ≡ ok breaks
      → IsDone (round handler tries s).1
  unfolding round check command
  round-IsDone tries s e = ground arith

  commands-IsDone :
      (tries fuel : ℕ) (s : Session Vm C)
      → (commands handler tries fuel s).0 ≡ ok returned
      → IsDone (commands handler tries fuel s).1
  unfolding commands
  commands-IsDone tries zero s e = absurd (ground arith)
  commands-IsDone tries (suc fuel) s e =
      ground (arith, e, round-IsDone tries s, commands-IsDone tries fuel (round handler tries s).1)

  leave-runs : (s : Session Vm C) → IsDone s → is_stopped (leave handler s).1.db.state ≡ false
  unfolding leave resume db_is_stopped
  leave-runs s h = ground (arith, h)

  attend-runs :
      (tries fuel : ℕ) (s : Session Vm C)
      → (attend handler tries fuel s).0 ≡ ok returned
      → is_stopped (attend handler tries fuel s).1.db.state ≡ false
  unfolding attend
  attend-runs tries fuel s e = ground (
    arith,
    e,
    commands-IsDone tries fuel (greet handler s).1,
    leave-runs (commands handler tries fuel (greet handler s).1).1,
  )

  -- A client that is gone is not asked for anything.
  attend-gone :
      (tries fuel : ℕ) (s : Session Vm C)
      → is_disconnected (handler.get_state s.client) ≡ true
      → attend handler tries (suc fuel) s ≡ (ok returned, (leave handler s).1)
  unfolding attend greet commands round leave resume
  attend-gone tries fuel s gone = ground (arith, gone)

-- The program goes on: the debugger has not stopped it, or there is no debugger any more.
abbrev pub GoesOn : {Vm C : Type 0} → ServerApp Vm C → Type 0
GoesOn app = (d : Debugger _) → app.db ≡ some d → is_stopped d.state ≡ false

-- What becomes of a program whose client is gone: stopped, it is resumed for good.
abbrev pub set_free : {Vm : Type 0} → Debugger Vm → Debugger Vm
set_free d = if is_stopped d.state then run_as to_finish d else d

module _ {Vm H : Type 0} (handler : ClientHandler Vm H) where
  attend_client-GoesOn :
      (tries fuel : ℕ) (d : Debugger Vm) (app : ServerApp Vm (Multi H))
      → (attend_client handler tries fuel d app).0 ≡ ok returned
      → GoesOn (attend_client handler tries fuel d app).1
  unfolding attend_client
  attend_client-GoesOn tries fuel d app e = elim (Option-cases app.client) [
    | inl p ↦ absurd (ground (arith, e, p))
    | inr (m, p) ↦ λ d' q. ground (
      arith,
      e,
      p,
      q,
      attend-runs (multi_handler handler) tries fuel (record { db = d; client = m }),
    )
  ]

module _ {Vm H : Type 0} (api : VmApi Vm) (garbage : ℕ) (api_builder : Result Vm) (infos : VmInfos)
    (ins_addr depth : ℕ) (handler : ClientHandler Vm H) (cli data_server : ServerConfig → H) where
  first_loop-GoesOn :
      (tries fuel : ℕ) (app : ServerApp Vm (Multi H))
      → (first_loop api garbage api_builder infos ins_addr depth handler cli data_server tries fuel
          app).0
        ≡ ok returned
      → GoesOn
          (first_loop api garbage api_builder infos ins_addr depth handler cli data_server tries
            fuel app).1
  unfolding first_loop
  first_loop-GoesOn tries fuel app e =
      let app' =
        (init api garbage api_builder infos ins_addr depth handler cli data_server app).1 in
      elim (Option-cases app'.db) [
        | inl p ↦ λ d q. absurd (ground (arith, e, p, q))
        | inr (d, p) ↦ ground (arith, e, p, attend_client-GoesOn handler tries fuel d app')
      ]

  -- When the VM calls `loop` on a debugger that is enabled, then at the return of this call the debugger, if
  -- it is still there, has not stopped the program: it runs on until the next call.
  pub loop-GoesOn :
      (tries fuel : ℕ) (app : ServerApp Vm (Multi H))
      → app.conf.enabled ≡ true
      → (loop api garbage api_builder infos ins_addr depth handler cli data_server tries fuel app).0
        ≡ ok returned
      → GoesOn
          (loop api garbage api_builder infos ins_addr depth handler cli data_server tries fuel
            app).1
  unfolding loop next_loop
  loop-GoesOn tries fuel app on e = elim (Option-cases app.db) [
    | inl p ↦ ground (arith, on, e, p, first_loop-GoesOn tries fuel app)
    | inr (d, p) ↦
        ground
          (arith, on, e, p, attend_client-GoesOn handler tries fuel (on_update api garbage d).1 app)
  ]

  -- Once the client of an enabled debugger is disconnected, each call of `loop` in which the update of the
  -- debugger returns does so too, with one round of its loop, and asks no client. A program that has stopped
  -- there is resumed to run to its finish, and any other is left as it is.
  pub loop-gone :
      (tries fuel : ℕ) (app : ServerApp Vm (Multi H)) (d d' : Debugger Vm) (m : Multi H)
      → app.conf.enabled ≡ true
      → app.db ≡ some d
      → app.client ≡ some m
      → m.state ≡ State.disconnected
      → on_update api garbage d ≡ (ok tt, d')
      → loop api garbage api_builder infos ins_addr depth handler cli data_server tries
          (suc fuel)
          app
        ≡ (ok returned, record app { db = some (set_free d'); client = some m })
  unfolding loop next_loop attend_client leave resume
  loop-gone tries fuel app d d' m on has_db has_client gone updates = ground (
    arith,
    on,
    has_db,
    has_client,
    gone,
    updates,
    attend-gone (multi_handler handler) tries fuel (record { db = d'; client = m }),
  )
