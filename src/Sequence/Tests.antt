-- ===== src/Sequence/Tests.antt =====
-- Ranges and the order at the wrap from 2^64 - 1 to 0.
use macoro.Common.{◌+◌, ◌-◌, ◌≡◌, refl, true, ltb, some, [], ◌∷◌, min, arith}
use macoro.Common.Word.{word_mod}
use macoro.Sequence.Traits.{precedes, offset, initial_sequence, precedes-eq-ltb}
use macoro.Sequence.Wait.{await_ready}
use macoro.Sequence.Spsc
use macoro.Sequence.Range.{SequenceRange, front, size, iterate, run_from, iterate-range}

abbrev wrapping : SequenceRange
wrapping = record { begin = word_mod - 2; end = 3 }

iterate_wrapping :
    iterate 5 (word_mod - 2) 3 ≡ some ((word_mod - 2) ∷ (word_mod - 1) ∷ 0 ∷ 1 ∷ 2 ∷ [])
unfolding iterate
iterate_wrapping = refl

precedes-eq-ltb_example :
    precedes initial_sequence 4
    ≡ ltb (offset (word_mod - 8) initial_sequence) (offset (word_mod - 8) 4)
precedes-eq-ltb_example =
    precedes-eq-ltb (word_mod - 8) initial_sequence 4 (omega arith) (omega arith)

iterate-range_example :
    iterate (size wrapping + 7) (word_mod - 2) 3 ≡ some (run_from (front wrapping) (size wrapping))
iterate-range_example = iterate-range wrapping 7 (omega arith) (omega arith)

-- Four slots, of which three are in use behind `2^64 - 2`.
abbrev one_free : Spsc.SequenceSpsc
one_free = record { buffer_size = 4; next_to_claim = 2; last_published = 1 }

one_free-IsSound : Spsc.IsSound one_free (word_mod - 2)
one_free-IsSound = record {
  known_word = omega arith;
  next_word = omega arith;
  size_bound = omega arith;
  in_use_bound = omega arith;
}

one_free_ready : await_ready (word_mod - 2) (Spsc.claim_target one_free) ≡ true
unfolding await_ready precedes Spsc.claim_target
one_free_ready = refl

claim_resume-IsSound_example :
    (front (Spsc.claim_resume one_free (word_mod - 2) 3).0 ≡ 2)
    × (size (Spsc.claim_resume one_free (word_mod - 2) 3).0
        ≡ min 3 (4 - Spsc.in_use 2 (word_mod - 2)))
    × Spsc.IsSound (Spsc.claim_resume one_free (word_mod - 2) 3).1 (word_mod - 2)
claim_resume-IsSound_example =
    Spsc.claim_resume-IsSound one_free (word_mod - 2) 3 one_free-IsSound (omega arith)
      one_free_ready
