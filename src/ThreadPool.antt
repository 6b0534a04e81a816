-- ===== src/ThreadPool.antt =====
-- macoro/thread_pool.h: the queue of handles, the heap of delayed handles and the threads that run
-- them. What happens under the mutex is one step.
mod Defs
pub mod Conserved
pub mod Tests
pub use Defs.*
