-- ===== src/EagerTask.antt =====
-- macoro/task.h: the eager task, its final suspension and the coroutine that awaits it.
mod Defs
pub mod Guarantees
pub mod Tests
pub use Defs.*
