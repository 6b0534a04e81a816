-- ===== src/Sequence/Mpsc/Waiting.antt =====
-- macoro/sequence_mpsc.h: the operation of one consumer that waits for a number, and the producers that
-- publish. Numbers are counted without a wrap, and a number that was published stays so: a producer
-- cannot reuse its slot before the consumer hands it back.
mod Defs
pub mod Knows
pub mod Places
pub mod Producers
pub mod Runs
pub mod Wakeup
pub mod Tests
pub use Defs.*
