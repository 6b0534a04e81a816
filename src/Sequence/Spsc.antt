-- ===== src/Sequence/Spsc.antt =====
-- macoro/sequence_spsc.h: the single producer's counter, what it waits for on the consumer's
-- barrier, and the ranges it claims. `known` is the number that the wait on that barrier yields.
use macoro.Common.{ℕ, ◌-◌, ◌<◌, ◌≤◌, ◌≡◌, refl, ◌∙◌, true, ltb, min, arith}
use macoro.Common.Word.{word_mod, half_mod, add_word, sub_word}
use macoro.Sequence.Traits.{precedes}
use macoro.Sequence.Range.{SequenceRange, front, back, size, size-sub_word}
use macoro.Sequence.Wait.{await_ready}

pub record SequenceSpsc : Type 0 where
  pub buffer_size : ℕ
  pub next_to_claim : ℕ
  pub last_published : ℕ

unfoldable pub create : ℕ → ℕ → SequenceSpsc
create size initial = record {
  buffer_size = size;
  next_to_claim = add_word initial 1;
  last_published = initial;
}

-- What both claims wait for: the number whose slot the next one takes over.
unfoldable pub claim_target : SequenceSpsc → ℕ
claim_target s = sub_word s.next_to_claim s.buffer_size

unfoldable pub claim_one_resume : SequenceSpsc → ℕ × SequenceSpsc
claim_one_resume s = (s.next_to_claim, record s { next_to_claim = add_word s.next_to_claim 1 })

unfoldable pub claim_resume : SequenceSpsc → ℕ → ℕ → SequenceRange × SequenceSpsc
claim_resume s known count =
    let last_available = add_word known s.buffer_size in
    let available = add_word (sub_word last_available s.next_to_claim) 1 in
    let end = add_word s.next_to_claim (min count available) in
    (record { begin = s.next_to_claim; end = end }, record s { next_to_claim = end })

unfoldable pub publish_one : SequenceSpsc → ℕ → SequenceSpsc
publish_one s seq = record s { last_published = seq }

unfoldable pub publish_range : SequenceSpsc → SequenceRange → SequenceSpsc
publish_range s r = record s { last_published = back r }

-- How many numbers are claimed behind `known`: the slots in use.
abbrev pub in_use : ℕ → ℕ → ℕ
in_use next known = sub_word next (add_word known 1)

-- The counter and the consumer's number are words, and no more slots are in use than there are.
pub record IsSound (s : SequenceSpsc) (known : ℕ) : Type 0 where
  pub known_word : known < word_mod
  pub next_word : s.next_to_claim < word_mod
  pub size_bound : s.buffer_size < half_mod
  pub in_use_bound : in_use s.next_to_claim known ≤ s.buffer_size

-- A claim is ready exactly when a slot is free.
pub await_ready-claim_target :
    (s : SequenceSpsc) (known : ℕ)
    → IsSound s known
    → await_ready known (claim_target s) ≡ ltb (in_use s.next_to_claim known) s.buffer_size
unfolding await_ready claim_target precedes
await_ready-claim_target s known v = ground (arith, v)

-- A claim that was ready gets a range that starts at the counter, holds the count asked for or all
-- the free slots, and at least one of them when one was asked for; afterwards no more slots are in
-- use than there are, so that no number is claimed whose slot the consumer still reads.
pub claim_resume-IsSound :
    (s : SequenceSpsc) (known count : ℕ)
    → IsSound s known
    → count < word_mod
    → await_ready known (claim_target s) ≡ true
    → (front (claim_resume s known count).0 ≡ s.next_to_claim)
      × (size (claim_resume s known count).0
          ≡ min count (s.buffer_size - in_use s.next_to_claim known))
      × IsSound (claim_resume s known count).1 known
unfolding front claim_resume
claim_resume-IsSound s known count v c h =
    let free : in_use s.next_to_claim known < s.buffer_size =
      ground (arith, await_ready-claim_target s known v) in
    let available : add_word (sub_word (add_word known s.buffer_size) s.next_to_claim) 1
        ≡ s.buffer_size - in_use s.next_to_claim known =
      omega (arith, v) in
    let sized = size-sub_word (claim_resume s known count).0 v.next_word (omega arith) in
    (
      refl,
      sized ∙ omega (arith, available),
      record {
        known_word = v.known_word;
        next_word = omega arith;
        size_bound = v.size_bound;
        in_use_bound = omega (arith, available);
      },
    )
