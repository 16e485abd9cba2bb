-- ===== src/Debugger/SymbolCache.antt =====
-- src/server/debugger.cc: the loaded symbols against the symbol table of the machine.
pub mod Table
pub mod Load
pub mod Preload
pub mod Lookup
pub mod Ranges
pub mod Start
mod Tests
