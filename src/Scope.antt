-- ===== src/Scope.antt =====
-- macoro/async_scope.h and macoro/detail/scoped_task_promise.h: tasks that start at once, the handles of
-- their owners, and the join of all of them.
mod Promise
mod Defs
pub mod States
pub mod Task
pub mod Join
pub mod Waiting
pub mod Quiet
pub mod Guarantees
pub mod Tests
pub use Promise.*
pub use Defs.*
