-- ===== src/ServerApp/Tests.antt =====
-- An app with a scripted machine, and a client that connects, quits at its first command, and is gone.
use odb.Prelude.{ℕ, ◌≡◌, refl, true, some, Option, [], ◌∷◌}
use odb.Prelude.Maps.{list_beq}
use odb.Prelude.Results.{Str, Result, ok, text}
use odb.VmApi.{UpdateInfos, UpdateState.{ok_ins}}
use odb.Debugger.{Debugger, State.{running_bkp}}
use odb.Debugger.Flow.{on_update, stop}
use odb.Debugger.Scripted.{scripted, vm_infos, reports, paused}
use odb.ServerApp.{ServerApp, ClientHandler, State}
use odb.ServerApp.Config
use odb.ServerApp.Config.{conf_default}
use odb.ServerApp.MultiClient.{Multi}
use odb.ServerApp.MultiClient
use odb.ServerApp.Loop.{Progress, Progress.{returned}, loop}
use odb.ServerApp.Returns.{GoesOn, set_free, loop-GoesOn, loop-gone}

abbrev quitter : ClientHandler UpdateInfos State
quitter = record {
  get_state = λ st. st;
  setup_connection = λ s. (ok tt, record s { client = State.connected });
  run_command = λ s. (ok tt, record s { client = State.disconnected });
  check_stopped = λ s. (ok tt, s);
}

-- The environment enables the debugger, and has the program stopped at its start.
abbrev environment : Str → Option Str
environment name = some (text "1")

abbrev app : ServerApp UpdateInfos (Multi State)
app = Config.make environment (λ port. 80) conf_default

abbrev run_loop :
    ℕ → ServerApp UpdateInfos (Multi State) → Result Progress × ServerApp UpdateInfos (Multi State)
run_loop fuel =
    loop scripted 0 (ok (reports ok_ins 8)) vm_infos 0 0 quitter (λ conf. State.not_connected)
      (λ conf. State.not_connected) 1 fuel

app-enabled : app.conf.enabled ≡ true
unfolding Config.make Config.flag list_beq text
app-enabled = refl

-- The second round finds that the client is gone.
first_call : (run_loop 2 app).0 ≡ ok returned
unfolding loop Config.make Config.flag list_beq text stop MultiClient.is_empty MultiClient.make
    MultiClient.setup_connection MultiClient.delegate
first_call = refl

loop-GoesOn_example : GoesOn (run_loop 2 app).1
loop-GoesOn_example =
    loop-GoesOn scripted 0 (ok (reports ok_ins 8)) vm_infos 0 0 quitter
      (λ conf. State.not_connected) (λ conf. State.not_connected) 1 2 app app-enabled first_call

-- A client that has left a breakpoint behind, which the program reaches.
abbrev left_behind : Debugger UpdateInfos
left_behind = record paused { state = running_bkp; breakpts = 8 ∷ []; vm = reports ok_ins 8 }

abbrev gone : Multi State
gone = record { wait = []; main = some State.disconnected; state = State.disconnected }

abbrev abandoned : ServerApp UpdateInfos (Multi State)
abandoned = record {
  conf = record conf_default { enabled = true };
  db = some left_behind;
  client = some gone;
}

abbrev updated : Debugger UpdateInfos
updated = (on_update scripted 0 left_behind).1

updates : on_update scripted 0 left_behind ≡ (ok tt, updated)
unfolding on_update
updates = refl

loop-gone_example :
    run_loop 1 abandoned
    ≡ (ok returned, record abandoned { db = some (set_free updated); client = some gone })
loop-gone_example =
    loop-gone scripted 0 (ok (reports ok_ins 8)) vm_infos 0 0 quitter (λ conf. State.not_connected)
      (λ conf. State.not_connected) 1 0 abandoned left_behind updated gone refl refl refl refl
      updates
