-- ===== src/Stop/Handles.antt =====
-- macoro/detail/stop_source.cpp and stop_token.cpp: the handles on stop states, which count
-- themselves in the state that they point to.
mod Defs
pub mod Account
pub mod Effects
pub mod Moves
mod Exchange
pub mod Lifetime
pub mod Tests
pub use Defs.*
