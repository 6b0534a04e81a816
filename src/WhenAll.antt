-- ===== src/WhenAll.antt =====
-- macoro/detail/when_all_awaitable.h with the promise of macoro/detail/when_all_task.h: a coroutine
-- starts `n` tasks and waits until all of them have ended. A step is one access to shared memory.
mod Defs
pub mod Invariant
pub mod Tests
pub use Defs.*
