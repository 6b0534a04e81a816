-- ===== src/Sequence/Mpsc.antt =====
-- macoro/sequence_mpsc.h: the array of published numbers and the claims of many producers; in
-- Waiting the operation of a consumer that waits.
mod Defs
pub mod Claims
pub mod Published
pub mod Publish
pub mod Waiting
pub mod Reacquire
pub mod Tests
pub use Defs.*
