-- ===== src/Sequence/Barrier.antt =====
-- macoro/sequence_barrier.h: one producer that publishes, and any number of wait operations, each
-- run by a thread of its own. A step is one access to shared memory with the local work after it,
-- and threads interleave in any order. `memory_order_seq_cst` and the acquire and release pairs are
-- read as sequential consistency. A coroutine that `resume()` continues runs as its own thread from
-- then on, which allows more orders than the nested call of the program. A list of awaiters linked
-- by `m_next` is a list of operations, a tail pointer an append at the end; a compare-exchange that
-- fails changes nothing, so only the one that succeeds is a step.
mod Defs
pub mod Split
pub mod Local
pub mod Counts
pub mod Wakeup
pub mod Told
pub mod Delivery
pub mod Tests
pub use Defs.*
