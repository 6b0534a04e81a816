-- ===== src/Scope/Promise.antt =====
-- The promise of a task, the thread that runs it and the owner of its handle. A step is one access to
-- shared memory.
use macoro.Common.{ℕ, suc, Bool, true, false, ◌||◌, ltb, if◌then◌else◌, List, [], ◌∷◌}

-- `m_completion_state`, a word of which two bits are used: 0, 1, 2 and 3.
pub data CompletionState : Type 0 where
  inprogress has_continuation_or_dropped has_completed both_bits : CompletionState

unfoldable pub or_completed : CompletionState → CompletionState
or_completed CompletionState.inprogress = CompletionState.has_completed
or_completed CompletionState.has_continuation_or_dropped = CompletionState.both_bits
or_completed CompletionState.has_completed = CompletionState.has_completed
or_completed CompletionState.both_bits = CompletionState.both_bits

unfoldable pub or_continuation : CompletionState → CompletionState
or_continuation CompletionState.inprogress = CompletionState.has_continuation_or_dropped
or_continuation CompletionState.has_continuation_or_dropped =
    CompletionState.has_continuation_or_dropped
or_continuation CompletionState.has_completed = CompletionState.both_bits
or_continuation CompletionState.both_bits = CompletionState.both_bits

-- `m_result_type`: whether the task has returned or thrown.
pub data ResultType : Type 0 where
  empty value exception : ResultType

-- What `final_awaitable::await_ready` leaves to do: nothing, `m_run_continutation`, or `done`.
pub data Exit : Type 0 where
  keep run_continuation destroy : Exit

-- Where the thread stands that runs the task.
pub data Runner : Type 0 where
  running : Runner
  completing : Runner  -- before the fetch_or of the final await_ready
  deciding : (b : CompletionState) → Runner  -- behind it
  recording : Runner  -- before the lock of the scope's list of exceptions
  decrementing : (e : Exit) → Runner  -- before the decrement of the scope's barrier
  finishing : (e : Exit) → Runner  -- in await_suspend, or at the end of the coroutine
  finished : (e : Exit) → Runner

-- Where the owner of the scoped_task stands.
pub data Owner : Type 0 where
  holding : Owner
  joining : Owner  -- it has stored its continuation, before the fetch_or
  waiting : Owner
  resuming : Owner  -- before `await_resume`
  consumed : Owner  -- before the awaiter is destroyed
  dropping : Owner  -- the destructor has stored null, before the fetch_or
  settling : Owner  -- the task has completed before: the destructor looks for an exception
  destroying : Owner  -- before the destructor destroys the coroutine
  gone : Owner

pub record Task : Type 0 where
  pub completion : CompletionState
  pub continuation : Bool  -- whether m_continuation is set
  pub result : ResultType
  pub runner : Runner
  pub owner : Owner
  pub destroyed : ℕ  -- how often the coroutine frame was destroyed
  pub resumed : ℕ  -- how often the owner was resumed
  pub received : List ResultType  -- what await_resume has returned or thrown
  pub recorded : ℕ  -- how often the exception was put in the scope's list
  pub misused : Bool  -- whether a destroyed frame was used
  pub late : Bool  -- whether await_suspend ran in a destroyed frame

unfoldable pub start : Task
start = record {
  completion = CompletionState.inprogress;
  continuation = false;
  result = ResultType.empty;
  runner = Runner.running;
  owner = Owner.holding;
  destroyed = 0;
  resumed = 0;
  received = [];
  recorded = 0;
  misused = false;
  late = false;
}

-- An access to the coroutine frame.
abbrev pub touch : Task → Task
touch t = record t { misused = t.misused || ltb 0 t.destroyed }

-- `return_value`, `return_void` or `unhandled_exception`
unfoldable pub complete : Bool → Runner → Task → Task
complete threw Runner.running t = record (touch t) {
  result = if threw then ResultType.exception else ResultType.value;
  runner = Runner.completing;
}
complete threw _ t = t

-- The branches of `final_awaitable::await_ready` behind a handle that was awaited or dropped.
unfoldable pub decide : Bool → ResultType → Runner
decide true r = Runner.decrementing Exit.run_continuation
decide false ResultType.exception = Runner.recording
decide false _ = Runner.decrementing Exit.destroy

-- The end of the task: `final_awaitable`.
unfoldable pub runner_at : Runner → Task → Task
unfolding or_completed decide
runner_at Runner.running t = t
runner_at Runner.completing t = record (touch t) {
  completion = or_completed t.completion;
  runner = Runner.deciding t.completion;
}
runner_at (Runner.deciding CompletionState.has_continuation_or_dropped) t = record (touch t) {
  runner = decide t.continuation t.result;
}
runner_at (Runner.deciding _) t = record t { runner = Runner.decrementing Exit.keep }
runner_at Runner.recording t = record (touch t) {
  recorded = suc t.recorded;
  runner = Runner.decrementing Exit.destroy;
}
runner_at (Runner.decrementing e) t = record t { runner = Runner.finishing e }
runner_at (Runner.finishing Exit.keep) t = record t {
  late = t.late || ltb 0 t.destroyed;
  runner = Runner.finished Exit.keep;
}
runner_at (Runner.finishing Exit.run_continuation) t = record (touch t) {
  owner = Owner.resuming;
  resumed = suc t.resumed;
  runner = Runner.finished Exit.run_continuation;
}
runner_at (Runner.finishing Exit.destroy) t = record (touch t) {
  destroyed = suc t.destroyed;
  runner = Runner.finished Exit.destroy;
}
runner_at (Runner.finished e) t = t

-- `co_await std::move(task)`, or its destructor.
pub data Choice : Type 0 where
  await drop : Choice

-- The end of `await_suspend`, which resumes the owner at once if the task has completed.
unfoldable pub after_join : CompletionState → Task → Task
after_join CompletionState.has_completed t = record t {
  owner = Owner.resuming;
  resumed = suc t.resumed;
}
after_join _ t = record t { owner = Owner.waiting }

-- The destructor behind its fetch_or.
unfoldable pub after_drop : CompletionState → Task → Task
after_drop CompletionState.has_completed t = record t { owner = Owner.settling }
after_drop _ t = record t { owner = Owner.gone }

unfoldable pub settle : ResultType → Task → Task
settle ResultType.exception t = record t { recorded = suc t.recorded; owner = Owner.destroying }
settle _ t = record t { owner = Owner.destroying }

abbrev pub set_continuation : Task → Task
set_continuation t = record (touch t) { completion = or_continuation t.completion }

unfoldable pub owner_at : Choice → Owner → Task → Task
unfolding or_continuation after_join after_drop settle
owner_at Choice.await Owner.holding t = record (touch t) {
  continuation = true;
  owner = Owner.joining;
}
owner_at Choice.drop Owner.holding t = record (touch t) {
  continuation = false;
  owner = Owner.dropping;
}
owner_at c Owner.joining t = after_join t.completion (set_continuation t)
owner_at c Owner.waiting t = t
owner_at c Owner.resuming t = record (touch t) {
  received = t.result ∷ t.received;
  owner = Owner.consumed;
}
owner_at c Owner.consumed t = record (touch t) { destroyed = suc t.destroyed; owner = Owner.gone }
owner_at c Owner.dropping t = after_drop t.completion (set_continuation t)
owner_at c Owner.settling t = settle t.result (touch t)
owner_at c Owner.destroying t = record (touch t) { destroyed = suc t.destroyed; owner = Owner.gone }
owner_at c Owner.gone t = t
