-- ===== src/Overlapped.antt =====
-- macoro/detail/win32_overlapped_operation.h: a cancellable operation of the system, its completion and
-- the request to cancel it. The operation itself (try_start, cancel, the time of its completion) is
-- code of the system: a step may take either outcome.
mod Defs
pub mod Guarantees
pub mod Tests
pub use Defs.*
