-- ===== src/Overlapped/Guarantees.antt =====
-- The coroutine goes on exactly once, and a request to cancel is not lost.
use macoro.Common.{ℕ, ◌+◌, ◌≤◌, ◌≡◌, ◌⊎◌, Bool, true, false, ◌&&◌, arith}
use macoro.Overlapped.Defs.{
  State, Suspender, Completion, Canceller, Operation, create, is_released, cancel, is_completed,
  publish_started, republish_started, await_at, complete_load, complete_exchange, complete_at, look,
  transfer, cancel_at, is_registered, is_running, Step, Reach,
}

-- The completion may have run, but has not found the state started.
abbrev Racing : State → Completion → Type 0
Racing State.not_started c =
    (c ≡ Completion.pending) ⊎ ((c ≡ Completion.loading) ⊎ (c ≡ Completion.exchanging))
Racing State.cancellation_requested c =
    (c ≡ Completion.pending) ⊎ ((c ≡ Completion.loading) ⊎ (c ≡ Completion.exchanging))
Racing State.completed c = c ≡ Completion.fired
Racing State.started c = ⊥

abbrev Handed : State → Completion → Type 0
Handed State.started c =
    (c ≡ Completion.pending)
    ⊎ ((c ≡ Completion.loading) ⊎ ((c ≡ Completion.storing) ⊎ (c ≡ Completion.exchanging)))
Handed State.completed c = c ≡ Completion.resuming
Handed _ c = ⊥

abbrev is_not_started : State → Bool
is_not_started State.not_started = true
is_not_started _ = false

abbrev is_requested : State → Bool
is_requested State.cancellation_requested = true
is_requested _ = false

abbrev is_started : State → Bool
is_started State.started = true
is_started _ = false

abbrev Startable : Bool → State → Type 0
Startable true s = (is_started s ≡ false) × (is_completed s ≡ false)
Startable false s = s ≡ State.started

abbrev Over : State → Completion → Bool → Bool → Type 0
Over s c can i =
    ((i ≡ false) × (c ≡ Completion.pending) × (is_started s && can ≡ false))
    ⊎ ((i ≡ true) × (c ≡ Completion.fired) × (s ≡ State.completed))

-- The state and the completion, by the place of the coroutine.
abbrev Core : Suspender → State → Completion → Bool → Bool → ℕ → Type 0
Core Suspender.fresh s c can i r =
    ((s ≡ State.not_started) ⊎ (s ≡ State.completed))
    × (c ≡ Completion.pending)
    × (i ≡ false)
    × (r ≡ 0)
Core Suspender.registering s c can i r =
    (s ≡ State.not_started) × (c ≡ Completion.pending) × (i ≡ false) × (r ≡ 0)
Core Suspender.starting s c can i r =
    Startable can s × (c ≡ Completion.pending) × (i ≡ false) × (r ≡ 0)
Core Suspender.publishing s c can i r = Racing s c × (can ≡ true) × (i ≡ true) × (r ≡ 0)
Core Suspender.cancelling s c can i r =
    Racing s c × (is_not_started s ≡ false) × (can ≡ true) × (i ≡ true) × (r ≡ 0)
Core Suspender.rechecking s c can i r =
    Racing s c × (is_not_started s ≡ false) × (can ≡ true) × (i ≡ true) × (r ≡ 0)
Core Suspender.suspended s c can i r = Handed s c × (i ≡ true) × (r ≡ 0)
Core Suspender.gone_on s c can i r = Over s c can i × (r ≡ 1)
Core Suspender.released s c can i r = Over s c can i × (r ≡ 1)

-- Who calls `cancel`, by the place of the cancellation callback.
abbrev cancelled_at : Suspender → ℕ
cancelled_at Suspender.rechecking = 1
cancelled_at _ = 0

abbrev is_cancelling : Suspender → Bool
is_cancelling Suspender.cancelling = true
is_cancelling Suspender.rechecking = true
is_cancelling _ = false

-- Whether the coroutine is about to call `cancel`.
abbrev to_cancel : Suspender → ℕ
to_cancel Suspender.cancelling = 1
to_cancel _ = 0

abbrev has_left : Suspender → Bool
has_left Suspender.gone_on = true
has_left Suspender.released = true
has_left _ = false

abbrev Cancelled : Canceller → Suspender → State → Bool → Bool → ℕ → Type 0
Cancelled Canceller.idle p s can i n =
    (is_requested s ≡ false) × (is_cancelling p ≡ false) × (n ≡ 0)
Cancelled Canceller.looking p s can i n =
    (is_requested s ≡ false)
    × (is_cancelling p ≡ false)
    × (n ≡ 0)
    × (can ≡ true)
    × (is_registered p ≡ true)
Cancelled Canceller.transferring p s can i n =
    (is_requested s ≡ false)
    × (is_cancelling p ≡ false)
    × (n ≡ 0)
    × (can ≡ true)
    × (is_registered p ≡ true)
Cancelled Canceller.requesting p s can i n =
    (is_requested s ≡ false)
    × (is_cancelling p ≡ false)
    × (n ≡ 0)
    × (can ≡ true)
    × (is_not_started s ≡ false)
    × (i ≡ true)
    × (is_registered p ≡ true)
Cancelled Canceller.done p s can i n =
    (n + to_cancel p ≤ 1)
    × (can ≡ true)
    × ((has_left p ≡ true)
        ⊎ ((s ≡ State.completed)
            ⊎ (((s ≡ State.started) × (n ≡ 1)) ⊎ ((is_requested s ≡ true) × (n ≡ cancelled_at p)))))

abbrev has_run : Completion → Bool
has_run Completion.pending = false
has_run _ = true

-- What holds of every state that is reached.
abbrev Ok : Suspender → State → Completion → Canceller → Bool → Bool → Bool → ℕ → ℕ → Bool → Type 0
Ok p s c k can i h r n w =
    Core p s c can i r × Cancelled k p s can i n × (h ≡ has_run c) × (w ≡ false)

abbrev Holds : Operation → Type 0
Holds o =
    Ok o.suspender o.state o.completion o.canceller o.can_be_cancelled o.issued o.has_error_code
      o.continued o.cancels o.cancelled_wrongly

module _ (p : Suspender) (s : State) (c : Completion) (k : Canceller) (can i h : Bool) (r n : ℕ)
    (w : Bool) where
  abbrev whole : Operation
  whole = record {
    state = s;
    suspender = p;
    completion = c;
    canceller = k;
    can_be_cancelled = can;
    issued = i;
    has_error_code = h;
    continued = r;
    cancels = n;
    cancelled_wrongly = w;
  }

  complete_at-Holds : i ≡ true → Ok p s c k can i h r n w → Holds (complete_at c whole)
  unfolding complete_at complete_load complete_exchange is_registered
  complete_at-Holds e v = ground arith

  cancel_at-Holds :
      (k ≡ Canceller.idle → (can ≡ true) × (is_registered p ≡ true))
      → Ok p s c k can i h r n w
      → Holds (cancel_at k whole)
  unfolding cancel_at look transfer cancel is_registered is_released is_completed
  cancel_at-Holds e v = ground arith

  await_at-Holds :
      (a : Bool)
      → (p ≡ Suspender.gone_on → is_running k ≡ false)
      → Ok p s c k can i h r n w
      → Holds (await_at a p whole)
  unfolding await_at publish_started republish_started cancel is_completed is_registered is_released
      is_running
  await_at-Holds a e v = ground arith

create-Holds : (requested possible : Bool) → Holds (create requested possible)
unfolding create
create-Holds requested possible = ground arith

Reach-Holds : {requested possible : Bool} {o : Operation} → Reach requested possible o → Holds o
Reach-Holds {requested = a} {possible = b} Reach.here = create-Holds a b
Reach-Holds (Reach.next {o = o} q (Step.await_step a e)) =
    await_at-Holds o.suspender o.state o.completion o.canceller o.can_be_cancelled o.issued
      o.has_error_code o.continued o.cancels o.cancelled_wrongly a e (Reach-Holds q)
Reach-Holds (Reach.next {o = o} q (Step.complete_step e)) =
    complete_at-Holds o.suspender o.state o.completion o.canceller o.can_be_cancelled o.issued
      o.has_error_code o.continued o.cancels o.cancelled_wrongly e (Reach-Holds q)
Reach-Holds (Reach.next {o = o} q (Step.cancel_step e)) =
    cancel_at-Holds o.suspender o.state o.completion o.canceller o.can_be_cancelled o.issued
      o.has_error_code o.continued o.cancels o.cancelled_wrongly e (Reach-Holds q)

-- Whether the coroutine has left `await_suspend`.
abbrev pub is_outside : Suspender → Bool
is_outside Suspender.suspended = true
is_outside Suspender.gone_on = true
is_outside Suspender.released = true
is_outside _ = false

module _ (p : Suspender) (s : State) (c : Completion) (k : Canceller) (can i h : Bool) (r n : ℕ)
    (w : Bool) where
  once :
      Ok p s c k can i h r n w
      → (r ≤ 1)
        × (r ≡ 1 → i ≡ true → h ≡ true)
        × (c ≡ Completion.fired → is_outside p ≡ true → r ≡ 1)
  once v = ground arith

  one_cancel :
      Ok p s c k can i h r n w
      → (n ≤ 1)
        × (k ≡ Canceller.done → p ≡ Suspender.suspended → c ≡ Completion.pending → n ≡ 1)
        × (w ≡ false)
  one_cancel v = ground arith

-- The coroutine that awaits the operation goes on at most once, and if the system has the operation
-- only when its error code is stored; when the completion has run and `await_suspend` has been left, it
-- has gone on.
pub continued_once_with_code :
    {requested possible : Bool} {o : Operation}
    → Reach requested possible o
    → (o.continued ≤ 1)
      × (o.continued ≡ 1 → o.issued ≡ true → o.has_error_code ≡ true)
      × (o.completion ≡ Completion.fired → is_outside o.suspender ≡ true → o.continued ≡ 1)
continued_once_with_code {o = o} q =
    once o.suspender o.state o.completion o.canceller o.can_be_cancelled o.issued o.has_error_code
      o.continued o.cancels o.cancelled_wrongly (Reach-Holds q)

-- `cancel` is called at most once, never on an operation that the system was not given, and never
-- when the coroutine has released it; the operation may have completed by then. When the
-- cancellation callback has run, the coroutine is suspended and the operation has not completed,
-- `cancel` was called.
pub cancel_not_lost :
    {requested possible : Bool} {o : Operation}
    → Reach requested possible o
    → (o.cancels ≤ 1)
      × (o.canceller ≡ Canceller.done
          → o.suspender ≡ Suspender.suspended
          → o.completion ≡ Completion.pending
          → o.cancels ≡ 1)
      × (o.cancelled_wrongly ≡ false)
cancel_not_lost {o = o} q =
    one_cancel o.suspender o.state o.completion o.canceller o.can_be_cancelled o.issued
      o.has_error_code o.continued o.cancels o.cancelled_wrongly (Reach-Holds q)
