-- ===== src/DbClientImplData/Tests.antt =====
-- The calls of a client over a connection to a scripted machine.
use odb.Prelude.{◌≡◌, refl, [], ◌∷◌, arith}
use odb.Prelude.Results.{text}
use odb.Types.{ResumeType.{step}}
use odb.Debugger.Scripted.{blank, scripted, paused}
use odb.Debugger.Memory
use odb.Debugger.Symbols
use odb.Debugger.Breakpoints
use odb.Debugger.Flow
use odb.Prelude.Maps.{contains, find, emplace}
use odb.Serial.{serial_raw}
use odb.Serial.Formats.{serialize_items, serialize_string, serialize_vector, byte_format}
use odb.Serial.Structs.{
  serialize_symbol, serialize_update, serialize_call, db_client_update, symbol_infos,
}
use odb.VmSide
use odb.DbClientImplData.Calls
use odb.DbClientImplData.Loopback.{loopback, idle, seen}
use odb.DbClientImplData.RemoteMoves.{add_breakpoints-seen, resume-seen}
use odb.DbClientImplData.RemoteQueries.{get_symbols_by_names-seen, check_stopped-seen}

add_breakpoints_over_link :
    Calls.add_breakpoints
      (loopback scripted blank db_client_update.blank)
      (40 ∷ 44 ∷ [])
      2
      (idle paused)
    ≡ seen (λ done. done) (VmSide.add_breakpoints (40 ∷ 44 ∷ []) paused)
unfolding VmSide.add_breakpoints Breakpoints.add_breakpoint Flow.create contains
add_breakpoints_over_link =
    add_breakpoints-seen scripted blank db_client_update.blank (40 ∷ 44 ∷ []) 2 paused (omega arith)
      (refl, omega arith) tt

resume_over_link :
    Calls.resume (loopback scripted blank db_client_update.blank) step (idle paused)
    ≡ seen (λ done. done) (VmSide.resume step paused)
unfolding VmSide.resume Flow.resume
resume_over_link =
    resume-seen scripted blank db_client_update.blank step paused (omega arith, refl) tt

get_symbols_by_names-seen_example :
    Calls.get_symbols_by_names
      (loopback scripted blank db_client_update.blank)
      (text "f" ∷ [])
      (symbol_infos.blank ∷ [])
      1
      (idle paused)
    ≡ seen (λ infos. infos) (VmSide.get_symbols_by_names scripted (text "f" ∷ []) paused)
unfolding VmSide.get_symbols_by_names text Symbols.find_sym_id find Flow.create
    Symbols.get_symbol_infos emplace serialize_items serialize_symbol serial_raw serialize_string
    byte_format
get_symbols_by_names-seen_example =
    get_symbols_by_names-seen scripted blank db_client_update.blank (text "f" ∷ [])
      (symbol_infos.blank ∷ []) 1 paused (omega arith) refl (omega arith) (omega arith) refl
      (refl, omega arith, omega arith)

check_stopped_over_link :
    Calls.check_stopped (loopback scripted blank db_client_update.blank) (idle paused)
    ≡ seen (λ update. update) (VmSide.check_stopped db_client_update.blank paused)
unfolding VmSide.check_stopped Memory.get_execution_point Flow.create serialize_update
    serialize_vector serialize_items serialize_call serial_raw byte_format
check_stopped_over_link =
    check_stopped-seen scripted blank db_client_update.blank paused
      (((omega arith, refl), omega arith, omega arith, omega arith), omega arith)
