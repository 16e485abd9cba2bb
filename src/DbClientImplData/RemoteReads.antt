-- ===== src/DbClientImplData/RemoteReads.antt =====
-- src/client/db-client-impl-data.cc with src/server/data-client-handler.cc: over a connection that loses
-- nothing, a client reads the memory that the server's debugger reads.
use odb.Prelude.{ℕ, ◌≡◌, List, nat_eq}
use odb.VmApi.{VmApi}
use odb.Serial.Sequences.{All}
use odb.RequestHandler.ReadBack.{sizes_of}
use odb.Requests
use odb.Requests.Arrivals.{Byte, read_mem_var-request, read_mem_var-request}
use odb.Requests.Answers.{read_mem_var-response, read_mem_var-response}
use odb.Debugger.{Debugger}
use odb.VmSide
use odb.DataClientHandler.Cases
use odb.DataClientHandler.Cases.{triples}
use odb.DbClientImplData
use odb.DbClientImplData.Calls

-- The values that a machine gives for blocks of these sizes.
abbrev pub AreValues : List ℕ → List (List ℕ) → Type 0
AreValues sizes vals = (sizes_of vals ≡ sizes) × All (All Byte) vals
