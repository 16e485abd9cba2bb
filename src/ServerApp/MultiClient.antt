-- ===== src/ServerApp/MultiClient.antt =====
-- src/server/multi-client-handler.cc: `MultiClientHandler`, a handler made of handlers, of which the first that
-- gets a client stays.
use odb.Prelude.{Bool, true, false, List, [], ◌∷◌, ◌++◌, Option, none, some, if◌then◌else◌}
use odb.Prelude.Results.{Result, ok, throws, fails, Fault.{assertion}}
use odb.Debugger.{Debugger}
use odb.ServerApp.{
  State, is_connected, is_disconnected, Session, Method, ClientHandler, ServerConfig,
}

pub record Multi (H : Type 0) : Type 0 where
  pub wait : List H
  pub main : Option H
  pub state : State

unfoldable pub is_empty : {H : Type 0} → Multi H → Bool
is_empty m = elim m.wait [ [] ↦ elim m.main [ none ↦ true | some h ↦ false ] | h ∷ hs ↦ false ]

-- The constructor, with those of `CLIClientHandler` and of `DataClientHandler`.
unfoldable pub make :
    {H : Type 0} → (ServerConfig → H) → (ServerConfig → H) → ServerConfig → Multi H
make cli data_server conf = record {
  wait =
      (if conf.mode_server_cli then cli conf ∷ [] else [])
      ++ (if conf.mode_tcp then data_server conf ∷ [] else []);
  main = none;
  state = State.not_connected;
}

module _ {Vm H : Type 0} (handler : ClientHandler Vm H) where
  -- The loop of `setup_connection`: the handler that is connected, or else all of them.
  unfoldable pub setup_wait : List H → Debugger Vm → Result (Option H) × Session Vm (List H)
  setup_wait [] d = (ok none, record { db = d; client = [] })
  setup_wait (h ∷ hs) d =
      let (r, s) = handler.setup_connection (record { db = d; client = h }) in
      let (found, rest) = setup_wait hs s.db in
      elim r [
        | ok _ ↦
            if is_connected (handler.get_state s.client)
            then (ok (some s.client), record { db = s.db; client = s.client ∷ hs })
            else (found, record rest { client = s.client ∷ rest.client })
        | throws e ↦ (throws e, record { db = s.db; client = s.client ∷ hs })
        | fails x ↦ (fails x, record { db = s.db; client = s.client ∷ hs })
      ]

  unfoldable pub setup_connection : Method Vm (Multi H) (Unit {0})
  unfolding setup_wait
  setup_connection s = elim s.client.main [
    | some h ↦ (fails assertion, s)
    | none ↦
        let (r, s') = setup_wait s.client.wait s.db in
        elim r [
          | ok found ↦ elim found [
            | none ↦ (ok tt, record { db = s'.db; client = record s.client { wait = s'.client } })
            | some h ↦ (
              ok tt,
              record {
                db = s'.db;
                client = record { wait = []; main = some h; state = State.connected };
              },
            )
          ]
          | throws e ↦
              (throws e, record { db = s'.db; client = record s.client { wait = s'.client } })
          | fails x ↦
              (fails x, record { db = s'.db; client = record s.client { wait = s'.client } })
        ]
  ]

  -- Behind a call of the main handler, `_client_disconnected` if that is disconnected.
  unfoldable pub follow : H → Multi H → Multi H
  follow h m = record m {
    main = some h;
    state = if is_disconnected (handler.get_state h) then State.disconnected else m.state;
  }

  -- `run_command` and `check_stopped` do the same around a method of the main handler.
  unfoldable pub delegate : Method Vm H (Unit {0}) → Method Vm (Multi H) (Unit {0})
  unfolding follow
  delegate m s = elim s.client.main [
    | none ↦ (fails assertion, s)
    | some h ↦
        let (r, s') = m (record { db = s.db; client = h }) in
        elim r [
          | ok _ ↦ (ok tt, record { db = s'.db; client = follow s'.client s.client })
          | throws e ↦
              (throws e, record { db = s'.db; client = record s.client { main = some s'.client } })
          | fails x ↦
              (fails x, record { db = s'.db; client = record s.client { main = some s'.client } })
        ]
  ]

  abbrev pub multi_handler : ClientHandler Vm (Multi H)
  multi_handler = record {
    get_state = λ m. m.state;
    setup_connection = setup_connection;
    run_command = delegate handler.run_command;
    check_stopped = delegate handler.check_stopped;
  }
