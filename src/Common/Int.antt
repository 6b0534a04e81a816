-- ===== src/Common/Int.antt =====
-- Signed integers over the native numbers: what a cast to a signed type yields.
use macoro.Common.{ℕ, ◌+◌, ◌-◌, ◌<◌, Bool, true, false, ltb, if◌then◌else◌, ◌≡◌, arith}
use macoro.Common.Word.{word_mod, half_mod}

-- `negsuc n` is -(n + 1).
pub data ℤ : Type 0 where
  pos : ℕ → ℤ
  negsuc : ℕ → ℤ

-- `static_cast<std::ptrdiff_t>` of a word.
abbrev pub to_signed : ℕ → ℤ
to_signed w = if ltb w half_mod then pos w else negsuc (word_mod - w - 1)

-- `static_cast<std::size_t>` of a signed number.
abbrev pub to_unsigned : ℤ → ℕ
to_unsigned (pos n) = n
to_unsigned (negsuc n) = word_mod - (n + 1)

abbrev pub is_negative : ℤ → Bool
is_negative (pos n) = false
is_negative (negsuc n) = true

abbrev pub is_positive : ℤ → Bool
is_positive (pos n) = ltb 0 n
is_positive (negsuc n) = false

abbrev pub lt_int : ℤ → ℤ → Bool
lt_int (pos a) (pos b) = ltb a b
lt_int (pos a) (negsuc b) = false
lt_int (negsuc a) (pos b) = true
lt_int (negsuc a) (negsuc b) = ltb b a

pub to_unsigned-to_signed : (w : ℕ) → w < word_mod → to_unsigned (to_signed w) ≡ w
to_unsigned-to_signed w h = ground arith
