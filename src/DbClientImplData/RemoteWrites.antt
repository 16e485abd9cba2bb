-- ===== src/DbClientImplData/RemoteWrites.antt =====
-- src/client/db-client-impl-data.cc with src/server/data-client-handler.cc: over a connection that loses
-- nothing, a client gets what a client of the debugger in the same process gets.
use odb.Prelude.{nat_eq}
use odb.VmApi.{VmApi}
use odb.Requests
use odb.Debugger.{Debugger}
use odb.VmSide
use odb.DataClientHandler.Cases
use odb.DataClientHandler.Cases.{pairs}
use odb.DbClientImplData
use odb.DbClientImplData.Calls
