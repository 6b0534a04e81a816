-- ===== src/Common/Word.antt =====
-- `std::size_t` as a native number below `2 ^ 64`: every operation writes its wrap-around out.
use macoro.Common.{ℕ, ◌+◌, ◌-◌, ◌%◌, ◌^◌, ◌<◌, ◌≡◌, arith}

abbrev pub word_mod : ℕ
word_mod = 2 ^ 64

-- Half the range: a difference from here on is negative as a signed number.
abbrev pub half_mod : ℕ
half_mod = 2 ^ 63

abbrev pub add_word : ℕ → ℕ → ℕ
add_word a b = (a + b) % word_mod

abbrev pub sub_word : ℕ → ℕ → ℕ
sub_word a b = (a + (word_mod - b % word_mod)) % word_mod

pub sub_word-add_word : (a b : ℕ) → a < word_mod → b < word_mod → sub_word (add_word a b) b ≡ a
sub_word-add_word a b p q = omega arith

pub add_word-sub_word : (a b : ℕ) → a < word_mod → b < word_mod → add_word (sub_word a b) b ≡ a
add_word-sub_word a b p q = omega arith
