-- ===== src/Barrier.antt =====
-- macoro/barrier.h: a counter whose last decrement resumes the coroutine that waits. There are `n`
-- holders of the count, each of which decrements it once, and one coroutine that awaits it; nobody
-- adds to the count meanwhile. A step is one access to shared memory.
mod Defs
pub mod Invariant
pub mod Tests
pub use Defs.*
