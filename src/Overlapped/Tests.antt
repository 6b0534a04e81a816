-- ===== src/Overlapped/Tests.antt =====
-- The stop request comes while the operation is being started; the operation completes afterwards.
use macoro.Common.{◌≤◌, ◌≡◌, true, false, refl}
use macoro.Overlapped.Defs.{
  Suspender, Completion, Canceller, Operation, create, is_released, cancel, is_completed,
  publish_started, republish_started, await_at, complete_load, complete_at, look, transfer,
  cancel_at, is_registered, is_running, Step, Reach,
}
use macoro.Overlapped.Guarantees.{is_outside, continued_once_with_code, cancel_not_lost}

abbrev Run : Type 0
Run = (o : Operation) × Reach false true o

begin : Run
begin = (_, Reach.here)

module _ (q : Run) where
  await : (q.0.suspender ≡ Suspender.gone_on → is_running q.0.canceller ≡ false) → Run
  await e = (_, Reach.next q.1 (Step.await_step true e))

  finish : q.0.issued ≡ true → Run
  finish e = (_, Reach.next q.1 (Step.complete_step e))

  request :
      (q.0.canceller ≡ Canceller.idle
        → (q.0.can_be_cancelled ≡ true) × (is_registered q.0.suspender ≡ true))
      → Run
  request e = (_, Reach.next q.1 (Step.cancel_step e))

registered : Run
unfolding begin await create is_running await_at is_completed
registered = await (await begin (λ e. refl)) (λ e. refl)

requested : Run
unfolding registered request is_registered cancel_at look transfer
requested =
    request (request (request registered (λ e. (refl, refl))) (λ e. (refl, refl)))
      (λ e. (refl, refl))

suspended_run : Run
unfolding requested await cancel publish_started republish_started is_released
suspended_run =
    await (await (await (await requested (λ e. refl)) (λ e. refl)) (λ e. refl)) (λ e. refl)

suspended_state :
    (suspended_run.0.suspender ≡ Suspender.suspended)
    × (suspended_run.0.canceller ≡ Canceller.done)
    × (suspended_run.0.cancels ≡ 1)
unfolding suspended_run
suspended_state = (refl, refl, refl)

resumed : Run
unfolding suspended_run finish publish_started republish_started cancel is_released complete_at
    complete_load
resumed = finish (finish (finish (finish suspended_run refl) refl) refl) refl

resumed_state : (resumed.0.continued ≡ 1) × (resumed.0.completion ≡ Completion.fired)
unfolding resumed
resumed_state = (refl, refl)

continued_once_with_code_example :
    (resumed.0.continued ≤ 1)
    × (resumed.0.continued ≡ 1 → resumed.0.issued ≡ true → resumed.0.has_error_code ≡ true)
    × (resumed.0.completion ≡ Completion.fired
        → is_outside resumed.0.suspender ≡ true
        → resumed.0.continued ≡ 1)
continued_once_with_code_example = continued_once_with_code resumed.1

cancel_not_lost_example :
    (suspended_run.0.cancels ≤ 1)
    × (suspended_run.0.canceller ≡ Canceller.done
        → suspended_run.0.suspender ≡ Suspender.suspended
        → suspended_run.0.completion ≡ Completion.pending
        → suspended_run.0.cancels ≡ 1)
    × (suspended_run.0.cancelled_wrongly ≡ false)
cancel_not_lost_example = cancel_not_lost suspended_run.1
