-- ===== src/RequestHandler.antt =====
-- include/odb/mess/request-handler.hh: `RequestHandler`. A call of one of its methods does what the handler
-- of the current mode does with it, so it is four actions, of which the mode takes one. The modes are set
-- by the four functions that call `prepare_request`.
pub mod Fields
pub mod Arrays
pub mod CliSend
pub mod CliRecv
pub mod ServRecv
pub mod ServSend
pub mod ReadBack
pub mod CStrings
pub mod Passes
pub mod RoomPasses
pub mod ArrayPasses
pub mod ResponsePasses
use odb.Prelude.{ℕ, Bool, not, List}
use odb.Prelude.Results.{Str, Result, ok, assert, ◌>>=◌}
use odb.Serial.{SerialOutBuff, SerialInBuff}
use odb.Serial.Formats.{Format}
use odb.RequestHandler.Fields.{Field, Sending, Receiving, sends_nothing, reads_nothing}

pub record Preparation (R : Type 0) : Type 0 where
  pub cli_recv : Receiving R
  pub cli_send : Sending R
  pub serv_recv : Receiving R
  pub serv_send : Sending R

-- The actions of one mode, one after the other.
abbrev pub send_both : {R : Type 0} → Sending R → Sending R → Sending R
send_both send then_send r os = do os' ← send r os; then_send r os'

abbrev pub recv_both : {R : Type 0} → Receiving R → Receiving R → Receiving R
recv_both recv then_recv r is = do (r', is') ← recv r is; then_recv r' is'

infixl 5 ◌>>◌
abbrev pub ◌>>◌ : {R : Type 0} → Preparation R → Preparation R → Preparation R
h >> k = record {
  cli_recv = recv_both h.cli_recv k.cli_recv;
  cli_send = send_both h.cli_send k.cli_send;
  serv_recv = recv_both h.serv_recv k.serv_recv;
  serv_send = send_both h.serv_send k.serv_send;
}

-- A body with no call.
abbrev pub nothing : {R : Type 0} → Preparation R
nothing = record {
  cli_recv = reads_nothing;
  cli_send = sends_nothing;
  serv_recv = reads_nothing;
  serv_send = sends_nothing;
}

module _ {R A : Type 0} (f : Format A) where
  abbrev pub object_in : Field R A → Preparation R
  object_in item = record nothing {
    cli_send = CliSend.object_in f item;
    serv_recv = ServRecv.object_in f item;
  }

  abbrev pub object_out : Field R A → Preparation R
  object_out item = record nothing {
    cli_recv = CliRecv.object_out f item;
    serv_send = ServSend.object_out f item;
  }

  abbrev pub buffer_in : Field R (List A) → (R → ℕ) → Preparation R
  buffer_in ptr size = record nothing {
    cli_send = CliSend.buffer_in f ptr size;
    serv_recv = ServRecv.buffer_in f ptr size;
  }

  abbrev pub buffer_2d_in : Field R (List (List A)) → (R → ℕ) → (R → ℕ) → Preparation R
  buffer_2d_in ptr size1 size2 = record nothing {
    cli_send = CliSend.buffer_2d_in f ptr size1 size2;
    serv_recv = ServRecv.buffer_2d_in f ptr size1 size2;
  }

  abbrev pub buffer_2dvar_in : Field R (List (List A)) → (R → ℕ) → (R → List ℕ) → Preparation R
  buffer_2dvar_in ptr size1 sizes2 = record nothing {
    cli_send = CliSend.buffer_2dvar_in f ptr size1 sizes2;
    serv_recv = ServRecv.buffer_2dvar_in f ptr size1 sizes2;
  }

  abbrev pub buffer_out : Field R (List A) → (R → ℕ) → Preparation R
  buffer_out ptr size = record {
    cli_recv = CliRecv.buffer_out f ptr size;
    cli_send = sends_nothing;
    serv_recv = ServRecv.buffer_out f ptr size;
    serv_send = ServSend.buffer_out f ptr size;
  }

  abbrev pub buffer_2d_out : Field R (List (List A)) → (R → ℕ) → (R → ℕ) → Preparation R
  buffer_2d_out ptr size1 size2 = record {
    cli_recv = CliRecv.buffer_2d_out f ptr size1 size2;
    cli_send = sends_nothing;
    serv_recv = ServRecv.buffer_2d_out f ptr size1 size2;
    serv_send = ServSend.buffer_2d_out f ptr size1 size2;
  }

  abbrev pub buffer_2dvar_out : Field R (List (List A)) → (R → ℕ) → (R → List ℕ) → Preparation R
  buffer_2dvar_out ptr size1 sizes2 = record {
    cli_recv = CliRecv.buffer_2dvar_out f ptr size1 sizes2;
    cli_send = sends_nothing;
    serv_recv = ServRecv.buffer_2dvar_out f ptr size1 sizes2;
    serv_send = ServSend.buffer_2dvar_out f ptr size1 sizes2;
  }

abbrev pub buffer_2d_in_cstr : {R : Type 0} → Field R (List Str) → (R → ℕ) → Preparation R
buffer_2d_in_cstr ptr size = record nothing {
  cli_send = CliSend.buffer_2d_in_cstr ptr size;
  serv_recv = ServRecv.buffer_2d_in_cstr ptr size;
}

-- With `_server`, and with `prepare_request` at the type of the request.
module _ {R : Type 0} (server : Bool) (prepare_request : Preparation R) where
  abbrev pub client_write_request : SerialOutBuff → R → Result SerialOutBuff
  client_write_request os r = assert (not server) >>= λ _. prepare_request.cli_send r os

  abbrev pub client_read_response : SerialInBuff → R → Result (R × SerialInBuff)
  client_read_response is r = assert (not server) >>= λ _. prepare_request.cli_recv r is

  abbrev pub server_read_request : SerialInBuff → R → Result (R × SerialInBuff)
  server_read_request is r = assert server >>= λ _. prepare_request.serv_recv r is

  abbrev pub server_write_response : SerialOutBuff → R → Result SerialOutBuff
  server_write_response os r = assert server >>= λ _. prepare_request.serv_send r os
