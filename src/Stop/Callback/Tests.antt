-- ===== src/Stop/Callback/Tests.antt =====
-- Runs with two callbacks: callback 0 is registered before the request and run by the notifier,
-- callback 1 registers during the notification.
use macoro.Common.{◌≤◌, ◌≡◌, inl, true, false, refl, arith}
use macoro.Stop.Callback.Defs.{
  Pc, System, init, notify_at, register_at, deregister, is_calling, is_started, Step, Reach,
}
use macoro.Stop.Callback.Guarantees.{
  executed_at_most_once, no_callback_missed, destroyed-is_calling, waiting_started, is_reporting,
}

abbrev Run : Type 0
Run = (s : System) × Reach 2 s

begin : Run
begin = (_, Reach.here)

construct_0 : Run → Run
construct_0 (s, r) = (_, Reach.next r (Step.register 0 (omega arith)))

construct_1 : Run → Run
construct_1 (s, r) = (_, Reach.next r (Step.register 1 (omega arith)))

-- Callback 0 is registered; object 1 has passed its first test.
registered_0 : Run
unfolding begin construct_0 construct_1
registered_0 =
    construct_1
      (construct_1 (construct_0 (construct_0 (construct_0 (construct_0 (construct_0 begin))))))

requested : Run
unfolding registered_0 init register_at
requested = (_, Reach.next registered_0.1 (Step.request refl refl))

notified : (r : Run) → is_started r.0.notifier ≡ true → Run
notified (s, r) h = (_, Reach.next r (Step.notify h))

-- The notifier is inside callback 0.
calling_0 : Run
unfolding requested notified notify_at init register_at
calling_0 = notified (notified (notified requested refl) refl) refl

-- The destructor of object 0 starts meanwhile.
destroying_0 : Run
unfolding calling_0 notified notify_at init register_at
destroying_0 = (_, Reach.next calling_0.1 (Step.destroy 0 (omega arith) refl))

waiting_started_example :
    (is_reporting destroying_0.0.notifier ≡ true)
    × (destroying_0.0.executed 0 ≡ 1)
    × (destroying_0.0.slot 0 ≡ false)
unfolding destroying_0 deregister calling_0 notified notify_at init register_at
waiting_started_example = waiting_started 2 destroying_0.1 0 (omega arith) refl

-- Object 1 stores its registration, sees the request and takes the registration back; the notifier
-- finishes.
completed : Run
unfolding destroying_0 deregister notified notify_at init register_at
completed =
    notified
      (notified (notified (construct_1 (construct_1 (construct_1 (construct_1 destroying_0)))) refl)
        refl)
      refl

destroyed_0 : Run
unfolding completed
destroyed_0 = construct_0 completed

executed_at_most_once_example : completed.0.executed 1 ≤ 1
executed_at_most_once_example = executed_at_most_once 2 completed.1 1 (omega arith)

destroyed-is_calling_example : is_calling 0 destroyed_0.0.notifier ≡ false
unfolding destroyed_0 completed destroying_0 deregister calling_0 notified notify_at init
    register_at
destroyed-is_calling_example = destroyed-is_calling 2 destroyed_0.1 0 (omega arith) refl

-- Object 0 stays registered until the notifier is done.
kept : Run
unfolding calling_0 notified notify_at init register_at
kept = notified (notified (notified calling_0 refl) refl) refl

no_callback_missed_example : (kept.0.executed 0 ≡ 1) × (kept.0.slot 0 ≡ false)
unfolding kept calling_0 notified notify_at init register_at
no_callback_missed_example = no_callback_missed 2 kept.1 (inl refl) 0 (omega arith) refl

final_counts : (completed.0.executed 1 ≡ 1) × (completed.0.pc 1 ≡ Pc.ran_inline)
unfolding completed
final_counts = (refl, refl)
