-- ===== src/Channel.antt =====
-- macoro/channel.h over macoro/sequence_mpsc.h: the slots of the ring, the pushes of any number of
-- senders, and the pops of one receiver.
mod Defs
pub mod Views
pub mod Ring
pub mod Receiver
pub mod Guarantees
pub mod Tests
pub use Defs.*
