-- ===== src/Sequence/Traits.antt =====
-- macoro/sequence_traits.h: the wrap-around order of sequence numbers, with `SEQUENCE` the 64-bit
-- `std::size_t`.
use macoro.Common.{ℕ, ◌-◌, ◌<◌, ◌≤◌, ◌≡◌, refl, Bool, true, false, ltb, arith}
use macoro.Common.Word.{word_mod, half_mod, sub_word}
use macoro.Common.Int.{ℤ, pos, to_signed, is_negative, is_positive}

-- `static_cast<value_type>(-1)`
abbrev pub initial_sequence : ℕ
initial_sequence = word_mod - 1

unfoldable pub difference : ℕ → ℕ → ℤ
difference a b = to_signed (sub_word a b)

unfoldable pub precedes : ℕ → ℕ → Bool
unfolding difference
precedes a b = is_negative (difference a b)

-- The distance from `base` up to `w`, around the wrap.
abbrev pub offset : ℕ → ℕ → ℕ
offset base w = sub_word w base

-- Word `w` lies in the half of the numbers that starts at `base`.
abbrev pub InSpan : ℕ → ℕ → Type 0
InSpan base w = (w < word_mod) × (offset base w < half_mod)

-- Two sequence numbers of one span of 2^63 numbers are ordered by their distance from its base,
-- also where the wrap from 2^64 - 1 to 0 lies inside the span.
pub precedes-eq-ltb :
    (base a b : ℕ)
    → InSpan base a
    → InSpan base b
    → precedes a b ≡ ltb (offset base a) (offset base b)
unfolding precedes
precedes-eq-ltb base a b p q = ground arith

pub difference-eq-pos :
    (base a b : ℕ)
    → InSpan base a
    → InSpan base b
    → offset base b ≤ offset base a
    → difference a b ≡ pos (offset base a - offset base b)
unfolding difference
difference-eq-pos base a b p q h = ground arith

pub is_positive-difference :
    (base a b : ℕ)
    → InSpan base a
    → InSpan base b
    → is_positive (difference a b) ≡ ltb (offset base b) (offset base a)
unfolding difference
is_positive-difference base a b p q = ground arith

pub precedes_irrefl : (a : ℕ) → a < word_mod → precedes a a ≡ false
unfolding precedes
precedes_irrefl a p = ground arith

initial-precedes-zero : precedes initial_sequence 0 ≡ true
unfolding precedes
initial-precedes-zero = refl
