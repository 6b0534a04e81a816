-- ===== src/Scope/Tests.antt =====
-- Runs of a scope: a task that throws and is dropped, a join that is awaited before the exception is
-- there, and an owner that is done with a task whose final await_suspend has not run.
use macoro.Common.{◌<◌, ◌≤◌, ◌≡◌, true, false, [], ◌∷◌, length, refl, arith}
use macoro.Scope.Promise.{
  Runner, Exit, start, or_completed, or_continuation, complete, decide, runner_at, Choice,
  after_drop, settle, owner_at,
}
use macoro.Scope.Defs.{
  Joiner, Scope, init, runner_effect, owner_effect, wake, drop_count, test_continuation, is_joining,
  apply, add, join_at, Step, Reach,
}
use macoro.Scope.States.{failed}
use macoro.Scope.Join.{is_counted, reports}
use macoro.Scope.Guarantees.{used_soundly, joined_after_all}

abbrev Run : Type 0
Run = (s : Scope) × Reach s

module _ (q : Run) where
  new : Run
  new = (_, Reach.next q.1 Step.new_task)

  join : Run
  join = (_, Reach.next q.1 Step.join_scope)

  drop : 0 < q.0.drops → Run
  drop lt = (_, Reach.next q.1 (Step.drop_own lt))

  resume : 0 < q.0.resumers → Run
  resume lt = (_, Reach.next q.1 (Step.resume_joiner lt))

  module _ (lt : 0 < q.0.added) where
    throw : Run
    throw = (_, Reach.next q.1 (Step.complete_task 0 lt true))

    run : Run
    run = (_, Reach.next q.1 (Step.run_task 0 lt))

    own : Choice → Run
    own c = (_, Reach.next q.1 (Step.own_task 0 lt c))

one_task : Run
unfolding new
one_task = new (_, Reach.here)

there : 0 < 1
there = omega arith

-- The owner drops its handle; the joining coroutine makes its awaiter and suspends; then the task
-- throws.
joining : Run
unfolding one_task own join drop init add owner_at apply owner_effect join_at start or_continuation
    after_drop drop_count
joining =
    drop (join (join (join (own (own one_task there Choice.drop) there Choice.drop)))) (omega arith)

last_decrement : Run
unfolding joining throw run new start join_at complete runner_at after_drop or_continuation
    runner_effect or_completed decide
last_decrement = run (run (run (throw joining there) there) there) there

joined_run : Run
unfolding last_decrement resume drop_count
joined_run = resume (run last_decrement there) (omega arith)

-- The join throws nothing: the exception came after its awaiter was made, and it is still in the list.
thrown_later : Run
unfolding joined_run apply wake test_continuation
thrown_later = run (join joined_run) there

exception_missed :
    (thrown_later.0.thrown ≡ [])
    × (thrown_later.0.exceptions ≡ 0 ∷ [])
    × (thrown_later.0.joiner ≡ Joiner.no_join)
unfolding thrown_later
exception_missed = (refl, refl, refl)

-- The owner drops the handle of a task that is between its handshake and its final suspension.
dropped_late : Run
unfolding one_task throw run own init add start complete runner_at runner_effect or_completed decide
    apply owner_at owner_effect or_continuation after_drop settle
dropped_late =
    own
      (own
        (own (own (run (run (run (throw one_task there) there) there) there) there Choice.drop)
          there Choice.drop)
        there Choice.drop)
      there Choice.drop

destroyed_before_suspended :
    ((dropped_late.0.task 0).destroyed ≡ 1)
    × ((dropped_late.0.task 0).runner ≡ Runner.finishing Exit.keep)
unfolding dropped_late wake
destroyed_before_suspended = (refl, refl)

late_suspension : Run
unfolding dropped_late wake
late_suspension = run dropped_late there

late_suspension_is_late : (late_suspension.0.task 0).late ≡ true
unfolding late_suspension
late_suspension_is_late = refl

used_soundly_example :
    ((late_suspension.0.task 0).misused ≡ false)
    × ((late_suspension.0.task 0).destroyed ≤ 1)
    × ((late_suspension.0.task 0).resumed ≤ 1)
    × (length (late_suspension.0.task 0).received ≤ (late_suspension.0.task 0).resumed)
    × (reports 0 late_suspension.0 ≤ failed (late_suspension.0.task 0).result)
used_soundly_example = used_soundly late_suspension.1 0

joined_after_all_example : is_counted (joined_run.0.task 0) ≡ 0
unfolding joined_run test_continuation wake is_joining
joined_after_all_example = joined_after_all joined_run.1 refl refl 0 there

-- The only task leaves the barrier; before its thread has tested for a coroutine that waits, a second
-- task is added and a join stores its handle. The test finds it, and the join goes on too early.
left_alone : Run
unfolding one_task throw run start init add complete runner_at runner_effect or_completed decide
    apply drop_count
left_alone = run (run (run (throw one_task there) there) there) there

joined_early : Run
unfolding left_alone new join resume join_at add
joined_early = resume (join (join (join (new left_alone)))) (omega arith)

joined_with_task :
    (joined_early.0.joiner ≡ Joiner.joined)
    × (is_counted (joined_early.0.task 1) ≡ 1)
    × (joined_early.0.disturbed ≡ true)
unfolding joined_early test_continuation wake is_joining
joined_with_task = (refl, refl, refl)
