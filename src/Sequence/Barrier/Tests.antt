-- ===== src/Sequence/Barrier/Tests.antt =====
-- A run of the barrier: operation 0 waits for number 0, which is published while it queues up, and
-- operation 1 for number 1, which is not published.
use macoro.Common.{
  ℕ, zero, suc, ◌+◌, ◌≤◌, ◌≡◌, ◌⊎◌, true, false, if◌then◌else◌, ◌==◌, ==_ne, refl, arith, [], ◌∷◌,
}
use macoro.Sequence.Traits.{precedes, initial_sequence, InSpan}
use macoro.Sequence.Barrier.Defs.{System, init, publish_store, publish_at, await_at, Step, Reach}
use macoro.Sequence.Barrier.Counts.{places}
use macoro.Sequence.Barrier.Delivery.{
  IsQuiet, not_started, has_returned, Quiescent, continued_at_most_once, no_lost_wakeup,
}

abbrev targets : ℕ → ℕ
targets i = if i == 0 then 0 else 1

targets-InSpan : (j : ℕ) → InSpan initial_sequence (targets j)
targets-InSpan j = ground arith

initial-InSpan : InSpan initial_sequence initial_sequence
initial-InSpan = omega arith

abbrev Run : Type 0
Run = (s : System) × Reach targets initial_sequence 2 initial_sequence s

begin : Run
begin = (_, Reach.here)

wait_0 : Run → Run
wait_0 (s, r) = (_, Reach.next r (Step.await 0 (omega arith)))

wait_1 : Run → Run
wait_1 (s, r) = (_, Reach.next r (Step.await 1 (omega arith)))

produce : Run → Run
produce (s, r) = (_, Reach.next r Step.producer)

-- Both operations queue up; operation 0 has not yet looked at the number again.
queued : Run
unfolding begin wait_0 wait_1
queued = wait_1 (wait_1 (wait_1 (wait_1 (wait_1 (wait_0 (wait_0 begin))))))

published : Run
unfolding queued init await_at publish_store precedes
published = (_, Reach.next queued.1 (Step.publish 0 refl (omega arith) refl))

-- The producer takes the list and puts operation 1 back; operation 0 takes it and puts it back as
-- well; the producer and operation 0 meet at the flag of operation 0.
requeued : Run
unfolding published produce
requeued = wait_0 (wait_0 (wait_0 (wait_0 (wait_0 (produce (produce (produce published)))))))

finished : Run
unfolding requeued
finished = produce (wait_0 (produce requeued))

final_counts :
    (finished.0.waits.continued 0 ≡ 1)
    × (finished.0.waits.continued 1 ≡ 0)
    × (finished.0.awaiters ≡ 1 ∷ [])
unfolding finished publish_at
final_counts = (refl, refl, refl)

finished-IsQuiet : (i : ℕ) → IsQuiet (finished.0.pc i)
unfolding finished publish_at
finished-IsQuiet zero = has_returned
finished-IsQuiet (suc zero) = has_returned
finished-IsQuiet (suc (suc i)) =
    rw (==_ne 0 (suc (suc i)) (omega arith), ==_ne 1 (suc (suc i)) (omega arith)) not_started

finished-Quiescent : Quiescent finished.0
unfolding finished publish_at
finished-Quiescent = record { producer_idle = refl; all_quiet = finished-IsQuiet }

continued_at_most_once_example :
    (finished.0.waits.continued 0 ≤ 1) × (places 2 0 finished.0 + finished.0.waits.continued 0 ≤ 1)
continued_at_most_once_example =
    continued_at_most_once targets initial_sequence 2 initial_sequence finished.1 0

no_lost_wakeup_example :
    ((finished.0.waits.continued 1 ≡ 1)
      × (precedes (finished.0.waits.last_known_published 1) (targets 1) ≡ false))
    ⊎ ((finished.0.waits.continued 1 ≡ 0) × (precedes finished.0.last_published (targets 1) ≡ true))
unfolding finished publish_at
no_lost_wakeup_example =
    no_lost_wakeup targets initial_sequence 2 initial_sequence targets-InSpan initial-InSpan
      finished.1 finished-Quiescent 1 refl
