-- ===== src/EagerTask/Tests.antt =====
-- A task that ends while it is awaited, and one whose end is seen before its final suspension is over.
use macoro.Common.{◌≤◌, ◌≡◌, true, false, refl}
use macoro.EagerTask.Defs.{Awaiter, Eager, start_eager, is_done, finish_at, awaiter_at, Step, Reach}
use macoro.EagerTask.Guarantees.{is_over, is_waiting, resumed_with_result}

abbrev Run : Type 0
Run = (t : Eager) × Reach t

module _ (q : Run) where
  finish : Run
  finish = (_, Reach.next q.1 (Step.finish_step false))

  await : Run
  await = (_, Reach.next q.1 Step.await_step)

begin : Run
begin = (_, Reach.here)

-- The coroutine suspends, and the task resumes it.
awaited : Run
unfolding begin finish await
awaited = await (finish (finish (await (finish (await (await begin))))))

awaited_result : (awaited.0.resumed ≡ 1) × (awaited.0.awaiter ≡ Awaiter.consumed)
unfolding awaited start_eager is_done finish_at awaiter_at
awaited_result = (refl, refl)

-- The coroutine sees done() before the task has exchanged the flag, and destroys the task.
seen_done : Run
unfolding begin finish await
seen_done = finish (await (await (await (finish begin))))

destroyed_early : (seen_done.0.late ≡ true) × (seen_done.0.resumed ≡ 1)
unfolding seen_done start_eager is_done finish_at awaiter_at
destroyed_early = (refl, refl)

awaited_soundly : awaited.0.late ≡ false
unfolding awaited start_eager is_done finish_at awaiter_at
awaited_soundly = refl

resumed_with_result_example :
    (awaited.0.resumed ≤ 1)
    × (awaited.0.resumed ≡ 1 → awaited.0.has_result ≡ true)
    × (is_over awaited.0.runner ≡ true → is_waiting awaited.0.awaiter ≡ false)
    × (awaited.0.null_resumed ≡ false)
    × (awaited.0.empty_read ≡ false)
resumed_with_result_example = resumed_with_result awaited.1 awaited_soundly
