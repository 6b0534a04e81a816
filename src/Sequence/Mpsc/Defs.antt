-- ===== src/Sequence/Mpsc/Defs.antt =====
-- The sequencer and its operations. `published` is the array; an index is `seq & m_sequenceMask`.
use macoro.Common.{
  ℕ, zero, suc, ◌-◌, Bool, ltb, ◌==◌, if◌then◌else◌, Option, none, some, List, [], ◌∷◌,
}
use macoro.Common.Word.{add_word, sub_word}
use macoro.Common.Family.{update}
use macoro.Sequence.Traits.{precedes}
use macoro.Sequence.Range.{SequenceRange, front, back, size, empty, skip, iterate}
use macoro.Sequence.Slots.{slot}

pub record SequenceMpsc : Type 0 where
  pub buffer_size : ℕ
  pub published : ℕ → ℕ
  pub next_to_claim : ℕ

-- `m_published[seq & m_sequenceMask].store(seq)`
unfoldable pub store : SequenceMpsc → ℕ → SequenceMpsc
store s seq = record s { published = update s.published (slot s.buffer_size seq) seq }

unfoldable pub store_all : SequenceMpsc → List ℕ → SequenceMpsc
store_all s [] = s
store_all s (seq ∷ rest) = store_all (store s seq) rest

-- The loop of the constructor: `do { ... } while (seq++ != initialSequence)`. The fuel counts the
-- rounds; `none` means that it ran out.
unfoldable pub fill_from : ℕ → ℕ → ℕ → SequenceMpsc → Option SequenceMpsc
unfolding store
fill_from zero seq initial s = none
fill_from (suc f) seq initial s =
    let rest = fill_from f (add_word seq 1) initial (store s seq) in
    if seq == initial then some (store s seq) else rest

unfoldable pub create : ℕ → ℕ → ℕ → Option SequenceMpsc
create f size initial =
    fill_from f (sub_word initial (size - 1)) initial
      record { buffer_size = size; published = λ _. 0; next_to_claim = add_word initial 1 }

-- The slot of `seq` holds `seq`.
unfoldable pub is_published : SequenceMpsc → ℕ → Bool
is_published s seq = s.published (slot s.buffer_size seq) == seq

-- The loop of `last_published_after`, with `seq` and `lastKnownPublished`.
unfoldable pub scan : ℕ → SequenceMpsc → ℕ → ℕ → Option ℕ
scan zero s seq known = none
scan (suc f) s seq known =
    let rest = scan f s (add_word seq 1) seq in if is_published s seq then rest else some known

unfoldable pub last_published_after : ℕ → SequenceMpsc → ℕ → Option ℕ
last_published_after f s known = scan f s (add_word known 1) known

unfoldable pub publish_one : SequenceMpsc → ℕ → SequenceMpsc
publish_one s seq = store s seq

-- All numbers but the first, in the order of the range, and then the first.
unfoldable pub publish_range : ℕ → SequenceMpsc → SequenceRange → Option SequenceMpsc
publish_range f s r = if empty r then some s else elim (iterate f (front (skip r 1)) r.end) [
  | none ↦ none
  | some seqs ↦ some (store (store_all s seqs) (front r))
]

-- `co_await claim_one()`: the number, what it waits for at the consumer's barrier, the new counter.
unfoldable pub claim_one : SequenceMpsc → ℕ × ℕ × SequenceMpsc
claim_one s = (
  s.next_to_claim,
  sub_word s.next_to_claim s.buffer_size,
  record s { next_to_claim = add_word s.next_to_claim 1 },
)

-- `co_await claim_up_to(count)`
unfoldable pub claim_up_to : SequenceMpsc → ℕ → SequenceRange × ℕ × SequenceMpsc
claim_up_to s count =
    let m = if ltb count s.buffer_size then count else s.buffer_size in
    let range : SequenceRange = record {
      begin = s.next_to_claim;
      end = add_word s.next_to_claim m;
    } in
    (range, sub_word (back range) s.buffer_size, record s { next_to_claim = range.end })

-- `consumer_published` is the number of the consumer's barrier.
unfoldable pub any_available : SequenceMpsc → ℕ → Bool
any_available s consumer_published =
    precedes s.next_to_claim (add_word consumer_published s.buffer_size)
