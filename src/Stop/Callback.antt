-- ===== src/Stop/Callback.antt =====
-- macoro/detail/stop_callback.h with `try_register_callback`, `deregister_callback` and
-- `request_stop` of stop_state.cpp: one thread that is the first to request the stop, and any number
-- of callbacks, each registered and deregistered by a thread of its own. A step is one access to
-- shared memory, and threads interleave in any order. Registration `i` owns slot `i`: how
-- `add_registration` finds a free slot is modelled apart. A slot in a chunk that the notifier does
-- not reach, since it was linked later, is a slot that was visited while it was empty.
mod Defs
pub mod Invariant
pub mod Guarantees
pub mod Tests
pub use Defs.*
