-- ===== src/WhenAll/Tests.antt =====
-- Runs with two tasks: the last report resumes the awaiting coroutine, or it never suspends.
use macoro.Common.{ℕ, suc, ◌≤◌, ◌≡◌, true, false, refl, arith}
use macoro.WhenAll.Defs.{System, Starter, init, start_at, report_at, resume_awaiting, Step, Reach}
use macoro.WhenAll.Invariant.{is_started, is_inside, still_open, about_to_notify, resumed_after_all}

abbrev Run : Type 0
Run = (s : System) × Reach 2 s

begin : Run
begin = (_, Reach.here)

parent : Run → Run
parent (s, r) = (_, Reach.next r Step.start)

task_0 : Run → Run
task_0 (s, r) = (_, Reach.next r (Step.report 0 (omega arith)))

task_1 : Run → Run
task_1 (s, r) = (_, Reach.next r (Step.report 1 (omega arith)))

-- Task 0 ends before task 1 starts; task 1 ends after the awaiting coroutine has suspended.
late : Run
unfolding begin parent task_0 task_1
late = task_1 (task_1 (parent (parent (parent (parent (task_0 (parent begin)))))))

late_counts : (late.0.resumed ≡ 1) × (late.0.count ≡ 0) × (late.0.starter ≡ Starter.suspended)
unfolding late init start_at report_at resume_awaiting
late_counts = (refl, refl, refl)

-- Both tasks end before the awaiting coroutine leaves its `await_suspend`.
early : Run
unfolding begin parent task_0 task_1
early = parent (task_1 (parent (parent (parent (task_0 (parent begin))))))

early_counts : (early.0.resumed ≡ 1) × (early.0.count ≡ 0) × (early.0.starter ≡ Starter.gone)
unfolding early init start_at report_at resume_awaiting
early_counts = (refl, refl, refl)

-- Without tasks the awaiting coroutine goes on at once.
no_tasks : (start_at 0 Starter.leaving (start_at 0 Starter.storing (init 0))).starter ≡ Starter.gone
unfolding init start_at
no_tasks = refl

resumed_after_all_example :
    (late.0.resumed ≤ 1)
    × (late.0.resumed ≡ 1 → still_open 2 late.0 ≡ 0)
    × (is_inside late.0.starter ≡ false
        → ((i : ℕ) → suc i ≤ 2 → is_started (late.0.task i) ≡ true)
          × (still_open 2 late.0 ≡ 0 → about_to_notify 2 late.0 ≡ 0 → late.0.resumed ≡ 1))
    × (late.0.crashed ≡ false)
resumed_after_all_example = resumed_after_all 2 late.1
