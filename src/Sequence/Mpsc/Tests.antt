-- ===== src/Sequence/Mpsc/Tests.antt =====
-- A ring of four slots that starts at the wrap.
use macoro.Common.{ℕ, ◌+◌, ◌-◌, ◌<◌, ◌≤◌, ◌≡◌, ◌≢◌, refl, true, false, arith, some, get_or, [], ◌∷◌}
use macoro.Common.Word.{word_mod, add_word}
use macoro.Sequence.Traits.{precedes}
use macoro.Sequence.Range.{SequenceRange, size}
use macoro.Sequence.Wait.{await_ready}
use macoro.Sequence.Slots.{slot, IsRing}
use macoro.Sequence.Mpsc.Defs.{
  SequenceMpsc, is_published, last_published_after, scan, publish_range, claim_one, any_available,
}
use macoro.Sequence.Mpsc.Claims.{IsSound}
use macoro.Sequence.Mpsc.Published.{IsRun, last_published_after-IsRun}
use macoro.Sequence.Mpsc.Publish.{publish_range-is_published}

four-IsRing : IsRing 4
four-IsRing = record { positive = omega arith; below_half = omega arith; divides = refl }

-- Number `2^64 - 1` and number 1 are published, number 0 is claimed only.
abbrev one_missing : SequenceMpsc
one_missing = record {
  buffer_size = 4;
  published = λ i. get_or ((word_mod - 4) ∷ 1 ∷ (word_mod - 2) ∷ (word_mod - 1) ∷ []) i 0;
  next_to_claim = 2;
}

last_published_after-IsRun_example :
    (n : ℕ) × (n ≤ 4)
    × (last_published_after 5 one_missing (word_mod - 2) ≡ some (add_word (word_mod - 2) n))
    × IsRun one_missing (word_mod - 2) n
last_published_after-IsRun_example =
    last_published_after-IsRun one_missing (word_mod - 2) 0 (omega arith) four-IsRing

run_found : last_published_after 5 one_missing (word_mod - 2) ≡ some (word_mod - 1)
unfolding last_published_after scan is_published
run_found = refl

abbrev zero_and_one : SequenceRange
zero_and_one = record { begin = 0; end = 2 }

two_numbers : size zero_and_one ≡ 2
unfolding size
two_numbers = refl

publish_range-is_published_example :
    (t : SequenceMpsc) × (publish_range (size zero_and_one + 0) one_missing zero_and_one ≡ some t)
    × ((i : ℕ) → i < size zero_and_one → is_published t (add_word 0 i) ≡ true)
    × ((y : ℕ)
        → ((i : ℕ) → i < size zero_and_one → slot 4 (add_word 0 i) ≢ slot 4 y)
        → is_published t y ≡ is_published one_missing y)
publish_range-is_published_example =
    publish_range-is_published one_missing zero_and_one 0 (omega arith) (omega arith) four-IsRing
      (omega (arith, two_numbers))

-- Three of the four slots are in use.
one_missing-IsSound : IsSound one_missing (word_mod - 2)
one_missing-IsSound = record {
  known_word = omega arith;
  next_word = omega arith;
  size_positive = omega arith;
  size_bound = omega arith;
  in_use_bound = omega arith;
}

-- One slot is left: a claim goes on at once, and yet none is said to be available.
one_slot_left :
    (await_ready (word_mod - 2) (claim_one one_missing).1 ≡ true)
    × (any_available one_missing (word_mod - 2) ≡ false)
unfolding claim_one any_available await_ready precedes
one_slot_left = (refl, refl)
