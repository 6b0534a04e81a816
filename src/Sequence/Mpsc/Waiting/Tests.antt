-- ===== src/Sequence/Mpsc/Waiting/Tests.antt =====
-- A consumer waits for number 1; number 1 is published before number 0.
use macoro.Common.{ℕ, ◌<◌, ◌≤◌, ◌≡◌, ◌⊎◌, ◌↔◌, true, ◌==◌, if◌then◌else◌, [], ◌∷◌, All, refl, arith}
use macoro.Sequence.Traits.{difference, precedes}
use macoro.Sequence.Mpsc.Reacquire.{reacquire, split_ready, IsReady, reacquire-eq-split_ready}
use macoro.Sequence.Mpsc.Waiting.Defs.{
  Publisher, System, init, publish_store, publish_at, await_at, Step, Reach,
}
use macoro.Sequence.Mpsc.Waiting.Knows.{Prefix}
use macoro.Sequence.Mpsc.Waiting.Wakeup.{IsQuiet, woken_once, none_forgotten}

abbrev Run : Type 0
Run = (s : System) × Reach 1 1 0 s

begin : Run
begin = (_, Reach.here)

one : 0 < 1
one = omega arith

module _ (q : Run) where
  await : Run
  await = (_, Reach.next q.1 Step.await)

  store : (i : ℕ) → q.0.publisher 0 ≡ Publisher.idle → Run
  store i e = (_, Reach.next q.1 (Step.store i 0 one e))

  publish : Run
  publish = (_, Reach.next q.1 (Step.publish 0 one))

-- The consumer suspends; the producer that publishes number 1 takes the operation and puts it back.
suspended : Run
unfolding begin await init await_at
suspended = await (await (await (await begin)))

requeued : Run
unfolding suspended store publish publish_store publish_at
requeued = publish (publish (publish (publish (publish (store suspended 1 refl)))))

requeued_state : (requeued.0.queued ≡ true) × (requeued.0.continued ≡ 0)
unfolding requeued
requeued_state = (refl, refl)

requeued-IsQuiet : IsQuiet 1 1 requeued.0
unfolding requeued
requeued-IsQuiet j lt = ground (arith, lt)

resumed : Run
unfolding requeued
resumed =
    publish (publish (publish (publish (publish (publish (publish (store requeued 0 refl)))))))

resumed_state : (resumed.0.continued ≡ 1) × (resumed.0.known ≡ 2)
unfolding resumed
resumed_state = (refl, refl)

woken_once_example :
    (resumed.0.continued ≤ 1)
    × (resumed.0.continued ≡ 1 → (1 < resumed.0.known) × Prefix resumed.0.published resumed.0.known)
woken_once_example = woken_once 1 1 resumed.1

none_forgotten_example :
    (requeued.0.continued ≡ 1) ⊎ ((requeued.0.continued ≡ 0) × (Prefix requeued.0.published 2 → ⊥))
unfolding requeued
none_forgotten_example = none_forgotten 1 1 requeued.1 requeued-IsQuiet refl

-- Operation 0 waits for number 1, operation 1 for number 5; number 1 is the last one published when
-- operation 0 acquires the list.
abbrev targets : ℕ → ℕ
targets j = if j == 0 then 1 else 5

resumed_early :
    (reacquire 1 1 (0 ∷ 1 ∷ []) ≡ ([], 0 ∷ 1 ∷ []))
    × (split_ready targets 1 (0 ∷ 1 ∷ []) ≡ (1 ∷ [], 0 ∷ []))
unfolding reacquire split_ready difference
resumed_early = (refl, refl)

reacquire-eq-split_ready_example :
    (reacquire 1 1 (0 ∷ 1 ∷ []) ≡ ([], 0 ∷ 1 ∷ []))
    × ((reacquire 1 1 (0 ∷ 1 ∷ []) ≡ split_ready targets 1 (0 ∷ 1 ∷ []))
        ↔ All (IsReady targets 1) (0 ∷ 1 ∷ []))
unfolding precedes
reacquire-eq-split_ready_example =
    reacquire-eq-split_ready targets 0 1 1 (0 ∷ 1 ∷ []) (omega arith) (omega arith) refl
