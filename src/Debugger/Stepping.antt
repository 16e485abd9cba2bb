-- ===== src/Debugger/Stepping.antt =====
-- What `on_update` does to the state machine and to the depth of the call stack.
mod Moves
pub mod Traces
pub mod Modes
pub use Moves.*
