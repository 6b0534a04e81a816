-- ===== src/Stop/State.antt =====
-- macoro/detail/stop_state.h and stop_state.cpp: the atomic word `m_state`. Bit 0 says that a stop
-- was requested, bit 1 that the callbacks were notified, bits 2 to 32 count the stop sources and
-- bits 33 to 63 the tokens and callbacks. A mask of low ones is a remainder, its complement what the
-- remainder leaves.
use macoro.Common.{ℕ, ◌+◌, ◌-◌, ◌%◌, ◌^◌, Bool, not, ◌==◌}
use macoro.Common.Word.{add_word, sub_word}

abbrev pub cancellation_requested_flag : ℕ
cancellation_requested_flag = 1

abbrev pub cancellation_notification_complete_flag : ℕ
cancellation_notification_complete_flag = 2

abbrev pub stop_source_ref_increment : ℕ
stop_source_ref_increment = 4

abbrev pub stop_token_ref_increment : ℕ
stop_token_ref_increment = 2 ^ 33

-- `state & cancellation_ref_count_mask`
abbrev pub ref_counts : ℕ → ℕ
ref_counts state = state - state % 4

-- The constructor: one stop source.
unfoldable pub create : ℕ
create = stop_source_ref_increment

unfoldable pub add_token_ref : ℕ → ℕ
add_token_ref state = add_word state stop_token_ref_increment

-- The new word, and whether the state deletes itself.
unfoldable pub release_token_ref : ℕ → ℕ × Bool
release_token_ref old_state =
    (sub_word old_state stop_token_ref_increment, ref_counts old_state == stop_token_ref_increment)

unfoldable pub add_source_ref : ℕ → ℕ
add_source_ref state = add_word state stop_source_ref_increment

unfoldable pub release_source_ref : ℕ → ℕ × Bool
release_source_ref old_state = (
  sub_word old_state stop_source_ref_increment,
  ref_counts old_state == stop_source_ref_increment,
)

-- `(state & stop_possible_mask) != 0`
unfoldable pub stop_possible : ℕ → Bool
stop_possible state = not (state % stop_token_ref_increment == 0)

unfoldable pub stop_requested : ℕ → Bool
stop_requested state = not (state % 2 == 0)

unfoldable pub is_cancellation_notification_complete : ℕ → Bool
is_cancellation_notification_complete state = not (state % 4 - state % 2 == 0)

-- `fetch_or(cancellation_requested_flag)`: the new word, and whether this caller is the first.
unfoldable pub set_requested : ℕ → ℕ × Bool
set_requested old_state = (old_state + (1 - old_state % 2), old_state % 2 == 0)

-- `fetch_add(cancellation_notification_complete_flag)` at the end of `request_stop`.
unfoldable pub set_complete : ℕ → ℕ
set_complete state = add_word state cancellation_notification_complete_flag
