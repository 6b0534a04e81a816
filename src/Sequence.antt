-- ===== src/Sequence.antt =====
-- Sequence numbers: macoro/sequence_traits.h and macoro/sequence_range.h, and the primitives on
-- them, each in a module of its own.
pub mod Traits
pub mod Range
pub mod Wait
pub mod Barrier
pub mod Slots
pub mod Spsc
pub mod Mpsc
pub mod Tests
