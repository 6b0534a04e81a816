-- ===== src/Frame.antt =====
-- macoro/coroutine_handle.h and macoro/coro_frame.h: handles that tell a coroutine of the compiler from
-- one of the library by the lowest bit of an address, and the frame of a coroutine of the library with
-- the awaiters that stand on it.
pub mod Handle
pub mod Resume
pub mod Awaiters
pub mod Reverse
pub mod Nested
pub mod Tests
