-- ===== src/Barrier/Tests.antt =====
-- One holder, whose decrement comes while the waiter suspends.
use macoro.Common.{◌≤◌, ◌≡◌, refl, arith}
use macoro.Barrier.Defs.{
  Waiter, System, init, decrement_at, suspend_at, resume_continuation, Step, Reach,
}
use macoro.Barrier.Invariant.{held, tested, resumed_with_last}

abbrev Run : Type 0
Run = (s : System) × Reach 1 s

suspend : Run → Run
suspend (s, r) = (_, Reach.next r Step.suspend)

decrement : Run → Run
decrement (s, r) = (_, Reach.next r (Step.decrement 0 (omega arith)))

ended : Run
unfolding suspend decrement
ended = suspend (suspend (suspend (decrement (suspend (suspend (_, Reach.here))))))

went_on : ended.0.resumed ≡ 1
unfolding ended init decrement_at suspend_at resume_continuation
went_on = refl

resumed_with_last_example :
    (ended.0.resumed ≤ 1)
    × (ended.0.resumed ≡ 1 → held 1 ended.0 ≡ 0)
    × (ended.0.waiter ≡ Waiter.gone
        → held 1 ended.0 ≡ 0
        → tested 1 ended.0 ≡ 0
        → ended.0.resumed ≡ 1)
resumed_with_last_example = resumed_with_last 1 ended.1
