-- ===== src/Overlapped/Defs.antt =====
-- The state word with the coroutine that awaits the operation, the completion callback and the
-- cancellation callback. A step is one access to the state or one call of the operation.
use macoro.Common.{ℕ, suc, ◌≡◌, Bool, true, false, not, ◌||◌, if◌then◌else◌}

pub data State : Type 0 where
  not_started started cancellation_requested completed : State

-- Where the coroutine stands that awaits the operation.
pub data Suspender : Type 0 where
  fresh : Suspender  -- before `await_ready`
  registering : Suspender  -- in `await_suspend`, before the callback is registered
  starting : Suspender  -- before `try_start`
  publishing : Suspender  -- before the first compare-exchange
  cancelling : Suspender  -- before its call of `cancel`
  rechecking : Suspender  -- before the second compare-exchange
  suspended : Suspender
  gone_on : Suspender  -- before `await_resume` resets the callback
  released : Suspender  -- behind it

-- Where `on_operation_completed` stands.
pub data Completion : Type 0 where
  pending : Completion
  loading : Completion
  storing : Completion  -- the state was started: before the store
  exchanging : Completion
  resuming : Completion
  fired : Completion

-- Where `on_cancellation_requested` stands.
pub data Canceller : Type 0 where
  idle : Canceller
  looking : Canceller  -- before the load
  transferring : Canceller  -- before the compare-exchange
  requesting : Canceller  -- before its call of `cancel`
  done : Canceller

pub record Operation : Type 0 where
  pub state : State
  pub suspender : Suspender
  pub completion : Completion
  pub canceller : Canceller
  pub can_be_cancelled : Bool
  pub issued : Bool  -- the system was given the operation
  pub has_error_code : Bool  -- the completion has stored its code
  pub continued : ℕ  -- how often the coroutine went on
  pub cancels : ℕ  -- how often `cancel` was called
  pub cancelled_wrongly : Bool  -- on an operation never given to the system, or already released

unfoldable pub create : Bool → Bool → Operation
create stop_requested stop_possible = record {
  state = if stop_requested then State.completed else State.not_started;
  suspender = Suspender.fresh;
  completion = Completion.pending;
  canceller = Canceller.idle;
  can_be_cancelled = stop_possible;
  issued = false;
  has_error_code = false;
  continued = 0;
  cancels = 0;
  cancelled_wrongly = false;
}

unfoldable pub is_released : Suspender → Bool
is_released Suspender.released = true
is_released _ = false

abbrev pub go_on : Operation → Operation
go_on o = record o { suspender = Suspender.gone_on; continued = suc o.continued }

-- A call of `cancel`. The operation may have completed already, which the system allows as long as the
-- awaiter is there.
unfoldable pub cancel : Operation → Operation
unfolding is_released
cancel o = record o {
  cancels = suc o.cancels;
  cancelled_wrongly = o.cancelled_wrongly || not o.issued || is_released o.suspender;
}

unfoldable pub is_completed : State → Bool
is_completed State.completed = true
is_completed _ = false

-- The compare-exchanges of `await_suspend`.
unfoldable pub publish_started : State → Operation → Operation
publish_started State.not_started o = record o {
  state = State.started;
  suspender = Suspender.suspended;
}
publish_started State.cancellation_requested o = record o { suspender = Suspender.cancelling }
publish_started _ o = go_on o

unfoldable pub republish_started : State → Operation → Operation
republish_started State.cancellation_requested o = record o {
  state = State.started;
  suspender = Suspender.suspended;
}
republish_started _ o = go_on o

-- `await_ready`, `await_suspend` and the reset of the callback in `await_resume`. `asynchronously` is
-- what `try_start` returns.
unfoldable pub await_at : Bool → Suspender → Operation → Operation
unfolding cancel publish_started republish_started is_completed
await_at asynchronously Suspender.fresh o =
    if is_completed o.state then go_on o else record o { suspender = Suspender.registering }
await_at asynchronously Suspender.registering o = record o {
  suspender = Suspender.starting;
  state = if o.can_be_cancelled then o.state else State.started;
}
await_at false Suspender.starting o = go_on o
await_at true Suspender.starting o = record o {
  issued = true;
  suspender = if o.can_be_cancelled then Suspender.publishing else Suspender.suspended;
}
await_at asynchronously Suspender.publishing o = publish_started o.state o
await_at asynchronously Suspender.cancelling o = record (cancel o) {
  suspender = Suspender.rechecking;
}
await_at asynchronously Suspender.rechecking o = republish_started o.state o
await_at asynchronously Suspender.suspended o = o
await_at asynchronously Suspender.gone_on o = record o { suspender = Suspender.released }
await_at asynchronously Suspender.released o = o

unfoldable pub complete_load : State → Completion
complete_load State.started = Completion.storing
complete_load _ = Completion.exchanging

unfoldable pub complete_exchange : State → Completion
complete_exchange State.started = Completion.resuming
complete_exchange _ = Completion.fired

unfoldable pub complete_at : Completion → Operation → Operation
unfolding complete_load complete_exchange
complete_at Completion.pending o = record o {
  completion = Completion.loading;
  has_error_code = true;
}
complete_at Completion.loading o = record o { completion = complete_load o.state }
complete_at Completion.storing o = record o {
  state = State.completed;
  completion = Completion.resuming;
}
complete_at Completion.exchanging o = record o {
  completion = complete_exchange o.state;
  state = State.completed;
}
complete_at Completion.resuming o = record (go_on o) { completion = Completion.fired }
complete_at Completion.fired o = o

-- The last test of `on_cancellation_requested`.
unfoldable pub look : State → Canceller
look State.not_started = Canceller.transferring
look State.completed = Canceller.done
look _ = Canceller.requesting

unfoldable pub transfer : State → Operation → Operation
transfer State.not_started o = record o {
  state = State.cancellation_requested;
  canceller = Canceller.done;
}
transfer State.completed o = record o { canceller = Canceller.done }
transfer _ o = record o { canceller = Canceller.requesting }

unfoldable pub cancel_at : Canceller → Operation → Operation
unfolding look transfer cancel
cancel_at Canceller.idle o = record o { canceller = Canceller.looking }
cancel_at Canceller.looking o = record o { canceller = look o.state }
cancel_at Canceller.transferring o = transfer o.state o
cancel_at Canceller.requesting o = record (cancel o) { canceller = Canceller.done }
cancel_at Canceller.done o = o

-- Whether the callback is registered, and whether it runs.
unfoldable pub is_registered : Suspender → Bool
is_registered Suspender.fresh = false
is_registered Suspender.registering = false
is_registered Suspender.released = false
is_registered _ = true

unfoldable pub is_running : Canceller → Bool
is_running Canceller.idle = false
is_running Canceller.done = false
is_running _ = true

-- The completion runs once the system has the operation. The cancellation callback starts while it is
-- registered, and its destructor waits until it does not run.
pub data Step (o : Operation) : Operation → Type 0 where
  await_step :
      (asynchronously : Bool)
      → (o.suspender ≡ Suspender.gone_on → is_running o.canceller ≡ false)
      → Step o (await_at asynchronously o.suspender o)
  complete_step : o.issued ≡ true → Step o (complete_at o.completion o)
  cancel_step :
      (o.canceller ≡ Canceller.idle
        → (o.can_be_cancelled ≡ true) × (is_registered o.suspender ≡ true))
      → Step o (cancel_at o.canceller o)

pub data Reach (stop_requested stop_possible : Bool) : Operation → Type 0 where
  here : Reach stop_requested stop_possible (create stop_requested stop_possible)
  next :
      {o u : Operation}
      → Reach stop_requested stop_possible o
      → Step o u
      → Reach stop_requested stop_possible u
