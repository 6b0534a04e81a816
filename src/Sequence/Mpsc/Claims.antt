-- ===== src/Sequence/Mpsc/Claims.antt =====
-- The counter of the producers: what their claims get, and when the claimed slots are free.
use macoro.Common.{
  ℕ, ◌+◌, ◌^◌, ◌<◌, ◌≡◌, refl, ap, ◌∙◌, ltb, leb, min, List, [], ◌∷◌, ◌++◌, arith, if◌then◌else◌,
}
use macoro.Common.Word.{word_mod, add_word, sub_word}
use macoro.Sequence.Traits.{precedes}
use macoro.Sequence.Range.{front, back, size, run_from, run_from-append, size-sub_word}
use macoro.Sequence.Wait.{await_ready}
use macoro.Sequence.Mpsc.Defs.{SequenceMpsc, claim_one, claim_up_to, any_available}

pub data Claim : Type 0 where
  one : Claim
  up_to : (count : ℕ) → Claim

-- A claim of one producer: the numbers that it gets, and the counter behind it.
pub claim : Claim → SequenceMpsc → List ℕ × SequenceMpsc
unfolding claim_one claim_up_to
claim Claim.one s = ((claim_one s).0 ∷ [], (claim_one s).2)
claim (Claim.up_to count) s = (
  run_from (front (claim_up_to s count).0) (size (claim_up_to s count).0),
  (claim_up_to s count).2,
)

pub claim_all : List Claim → SequenceMpsc → List ℕ × SequenceMpsc
unfolding claim
claim_all [] s = ([], s)
claim_all (c ∷ cs) s =
    ((claim c s).0 ++ (claim_all cs (claim c s).1).0, (claim_all cs (claim c s).1).1)

pub claimed_count : Claim → ℕ → ℕ
claimed_count Claim.one size = 1
claimed_count (Claim.up_to count) size = min count size

pub claimed_total : List Claim → ℕ → ℕ
unfolding claimed_count
claimed_total [] size = 0
claimed_total (c ∷ cs) size = claimed_count c size + claimed_total cs size

claim-run_from :
    (c : Claim) (s : SequenceMpsc)
    → s.next_to_claim < word_mod
    → s.buffer_size < word_mod
    → ((claim c s).0 ≡ run_from s.next_to_claim (claimed_count c s.buffer_size))
      × ((claim c s).1
          ≡ record s { next_to_claim = add_word s.next_to_claim (claimed_count c s.buffer_size) })
unfolding claim claimed_count run_from claim_one claim_up_to front
claim-run_from Claim.one s p q = (refl, refl)
claim-run_from (Claim.up_to count) s p q =
    let capped : (if ltb count s.buffer_size then count else s.buffer_size)
        ≡ min count s.buffer_size =
      ground arith in
    let bounded : min count s.buffer_size < word_mod = omega arith in
    let sized : size (claim_up_to s count).0 ≡ min count s.buffer_size =
      size-sub_word (claim_up_to s count).0 p (omega arith) ∙ rw capped (omega arith) in
    (
      ap (run_from s.next_to_claim) sized,
      ap (λ x. record s { next_to_claim = add_word s.next_to_claim x }) capped,
    )

-- Claims of any number of producers, in the order in which they reach the counter, get the numbers
-- behind the counter one after the other, `count` of them or as many as the buffer has slots: none
-- is left out and none is given twice before the numbers wrap.
pub claim_all-run_from :
    (cs : List Claim) (s : SequenceMpsc)
    → s.next_to_claim < word_mod
    → s.buffer_size < word_mod
    → ((claim_all cs s).0 ≡ run_from s.next_to_claim (claimed_total cs s.buffer_size))
      × ((claim_all cs s).1.next_to_claim
          ≡ add_word s.next_to_claim (claimed_total cs s.buffer_size))
unfolding claim_all claimed_total run_from
claim_all-run_from [] s p q = (refl, omega arith)
claim_all-run_from (c ∷ cs) s p q =
    let (got, moved) = claim-run_from c s p q in
    let n = claimed_count c s.buffer_size in
    let (rest, end) =
      claim_all-run_from cs (record s { next_to_claim = add_word s.next_to_claim n }) (omega arith)
        q in
    (
      rw (got, moved) (ap (run_from s.next_to_claim n ++◌) rest ∙ run_from-append _ n _ p),
      rw moved (end ∙ omega arith),
    )

-- How many numbers are claimed behind the consumers' number.
abbrev pub in_use : SequenceMpsc → ℕ → ℕ
in_use s known = sub_word s.next_to_claim (add_word known 1)

-- No more than 2^62 numbers are claimed ahead, and the buffer is no larger.
pub record IsSound (s : SequenceMpsc) (known : ℕ) : Type 0 where
  pub known_word : known < word_mod
  pub next_word : s.next_to_claim < word_mod
  pub size_positive : 0 < s.buffer_size
  pub size_bound : s.buffer_size < 2 ^ 62
  pub in_use_bound : in_use s known < 2 ^ 62

-- `claim_one` goes on exactly when a slot is free, while `any_available` wants two of them.
pub any_available-claim_one :
    (s : SequenceMpsc) (known : ℕ)
    → IsSound s known
    → (await_ready known (claim_one s).1 ≡ ltb (in_use s known) s.buffer_size)
      × (any_available s known ≡ ltb (in_use s known + 1) s.buffer_size)
unfolding await_ready claim_one any_available precedes
any_available-claim_one s known v = (ground (arith, v), ground (arith, v))

-- `claim_up_to` of some slots goes on exactly when all of the slots that it claims are free.
pub await_ready-claim_up_to :
    (s : SequenceMpsc) (known count : ℕ)
    → IsSound s known
    → 0 < count
    → await_ready known (claim_up_to s count).1
      ≡ leb (in_use s known + min count s.buffer_size) s.buffer_size
unfolding await_ready claim_up_to back precedes
await_ready-claim_up_to s known count v c = ground (arith, v)
