-- ===== src/Event/Tests.antt =====
-- Operation 0 queues up before the event is set, operation 1 comes to its compare-exchange after.
use macoro.Common.{◌+◌, ◌≤◌, ◌≡◌, ◌⊎◌, false, refl, arith, count}
use macoro.Event.Defs.{System, init, is_set, set_event, resume_next, await_at, Step, Reach}
use macoro.Event.Places.{waiting, taken}
use macoro.Event.Guarantees.{IsQuiet, continued_once, none_left_waiting}

abbrev Run : Type 0
Run = (s : System) × Reach 2 1 false s

wait_0 : Run → Run
wait_0 (s, r) = (_, Reach.next r (Step.await_call 0 (omega arith)))

wait_1 : Run → Run
wait_1 (s, r) = (_, Reach.next r (Step.await_call 1 (omega arith)))

both_loaded : Run
unfolding wait_0 wait_1
both_loaded = wait_1 (wait_1 (wait_0 (wait_0 (wait_0 (_, Reach.here)))))

event_set : Run
unfolding both_loaded init await_at is_set
event_set = (_, Reach.next both_loaded.1 (Step.set_call 0 (omega arith) refl))

finished : Run
unfolding event_set wait_1
finished = (_, Reach.next (wait_1 event_set).1 (Step.resume_call 0 (omega arith)))

both_went_on : (finished.0.continued 0 ≡ 1) × (finished.0.continued 1 ≡ 1)
unfolding finished set_event resume_next
both_went_on = (refl, refl)

finished-IsQuiet : IsQuiet finished.0
unfolding finished set_event resume_next
finished-IsQuiet j = ground arith

continued_once_example :
    (finished.0.continued 0 + count 0 (waiting finished.0.state) + taken 1 0 finished.0 ≤ 1)
    × (finished.0.was_set ≡ false → finished.0.continued 0 ≡ 0)
continued_once_example = continued_once 2 1 finished.1 0

none_left_waiting_example :
    (finished.0.continued 0 ≡ 1)
    ⊎ ((finished.0.continued 0 ≡ 0) × (is_set finished.0.state ≡ false))
unfolding finished event_set both_loaded wait_0 wait_1 init await_at is_set set_event resume_next
none_left_waiting_example = none_left_waiting 2 1 finished.1 finished-IsQuiet 0 refl
