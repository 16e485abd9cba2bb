-- ===== src/Lib.antt =====
-- ODB, a debugger server for virtual machines (C++). A virtual machine implements the interface `VMApi`
-- and calls `Debugger::on_init` before its first instruction and `Debugger::on_update` behind each one.
-- The debugger keeps the state of the program (a state machine, the call stack, the breakpoints) and
-- caches of what it has asked the machine (registers, symbols). Which stretches of the memory have been
-- asked for symbols is kept in a `RangeMap`.
--
-- Files of this library, and the code that each models:
--   RangeMap       include/odb/utils/range-map.hh: the constructor, get, set, range_of, operator[],
--                  _find_node and _fix, over any type of values with an equality
--   Types          include/odb/server/fwd.hh: the structs and enumerations, and the DBClientUpdate of
--                  include/odb/mess/db-client.hh
--   VmApi          include/odb/server/vm-api.hh: the interface of the machine, a record of functions
--   Debugger       include/odb/server/debugger.hh: the members as a record, and methods as functions
--                  from the object to a result and the object
--   Debugger/Flow, Breakpoints, Registers, Memory, Symbols
--                  src/server/debugger.cc: all methods, under their names
--   Debugger/Frames, Operations, Lifecycle, Invariant, BreakpointSet, Stepping, SymbolCache
--                  what the methods keep, and what they promise together
--   Serial         include/odb/mess/serial.hh: the byte buffers and the raw integers
--   Serial/Formats, Structs, ReqTypes
--                  src/mess/request.cc: sb_serialize and sb_unserialize of each type
--   Serial/Raw, Sequences, RoundTrips, Machine
--                  that what is written is read back
--   VmSide         src/server/db-client-impl-vmside.cc: DBClientImplVMSide, which answers the requests of
--                  a client from a debugger
--   VmSide/Requests, Keeps, Histories, Batches, Updates
--                  the requests as data, and what they promise
--   RequestHandler include/odb/mess/request-handler.hh: the handler of requests in its four modes
--   RequestHandler/Fields, Arrays, CliSend, CliRecv, ServRecv, ServSend
--                  the fields that a method is given, its loops, and the methods of each mode
--   RequestHandler/ReadBack, CStrings, Passes, RoomPasses, ArrayPasses, ResponsePasses
--                  that what one side sends arrives on the other
--   Requests       src/mess/request.cc: prepare_request of each request; the structs in Requests/Structs
--                  are those of include/odb/mess/request.hh
--   Requests/Arrivals, Answers
--                  that requests arrive on the server, and responses on the client
--   DataClientHandler
--                  src/server/data-client-handler.cc: run_command and check_stopped from a request to its
--                  response, with the calls of each type of request in DataClientHandler/Cases
--   DataClientHandler/Runner, RunnerSafety
--                  the same file: the thread that receives and sends, beside the thread of the VM, as a
--                  step relation, and what holds in any order of their steps
--   DataClientHandler/Refusals
--                  the requests that are refused
--   DbClientImplData
--                  src/client/db-client-impl-data.cc: the calls of a client as requests over a connection,
--                  which are in DbClientImplData/Calls
--   DbClientImplData/Loopback, Outcomes, RemoteWrites, RemoteReads, RemoteMoves, RemoteQueries
--                  the client, the bytes and the server together
--   DbClient       include/odb/mess/db-client.hh and src/mess/db-client.cc: the client with its caches, in
--                  DbClient/Cache, Calls, Registers, Values; in DbClient/Remote it is put on
--                  DbClientImplData
--   ServerApp      src/server/server-app.cc: the loop that the VM calls, and the configuration; in
--                  ServerApp/MultiClient src/server/multi-client-handler.cc
--   ServerApp/Returns
--                  when the loop returns, and in which state it leaves the program
--   TcpTransfer    src/mess/tcp-transfer.cc: the loops that send and receive a buffer; what they promise
--                  over a stream of bytes is in TcpTransfer/Stream
--   Prelude        lists, comparisons, maps and results that the other files share
--
-- A call ends in a value, a thrown `VMApi::Error` with its message, or a fault: a failed `assert`, or a
-- step that C++ leaves undefined (`back` of an empty vector, a null pointer, a read behind a vector).
-- The object that a throw leaves behind is part of the result. A `std::map` that is only looked up is an
-- association list, one that is walked is a sorted one, and the set of breakpoints is a list.
-- Integers are natural numbers; where the code can wrap (the addresses in `_preload_symbols`,
-- `memory_size - 1`) the wrap at 2 ^ 64 is written out. The fields that the constructor leaves
-- uninitialised, and the `call_addr` of a new frame, are arguments.
--
-- A request travels as bytes. Integers are written in the order of the host, which is little-endian here,
-- and memory for a buffer or a vector is always found. `unserialize` takes the object that it writes into.
--
-- The parts meet thus. A `DbClient` calls a `DbClientImpl`, which is a parameter. `DbClientImplData`
-- is one: it writes each call as a request, sends it over a connection, which is a parameter too, and reads
-- the response. On the server `DataClientHandler` reads the request, calls `DbClientImplVmSide`, which calls
-- the `Debugger`, and writes the response. Writing and reading a request go through the same
-- `prepare_request` in four modes of the `RequestHandler`. `DbClientImplData.Loopback` is the connection that
-- hands a request right to the handler of a debugger.
--
-- The machine is a parameter: any record of functions on any type `Vm`. A test machine is in
-- Debugger/Scripted. The calls `read` and `send` of a socket are parameters of the loops in TcpTransfer,
-- with the law that a `send` takes no more than it is given.
-- These loops are on fuel: one round more than there are bytes, which is enough, as each round that goes on
-- moves a byte. `ServerApp::loop` waits for a client, who may never come or never resume the program; its
-- rounds are on fuel too, and a call that has used it up is one that is still looping. With a client that is
-- gone one round is enough. All other loops are structural.
--
-- Not modelled: the class Message, the handlers of clients but those above, the text commands, the set-up
-- and the closing of sockets, the C interface, the terminal program and the test machine mvm0. They are glue
-- over the parts above, calls of the operating system, or text for a terminal. The logging macros only
-- print.
pub mod Prelude
pub mod RangeMap
pub mod Types
pub mod VmApi
pub mod Debugger
pub mod DataClientHandler
pub mod DbClient
pub mod DbClientImplData
pub mod RequestHandler
pub mod Requests
pub mod Serial
pub mod ServerApp
pub mod TcpTransfer
pub mod VmSide
