-- ===== src/EagerTask/Defs.antt =====
-- The promise, the thread that ends the task and the awaiting coroutine. A step is one access to shared
-- memory.
use macoro.Common.{ℕ, suc, Bool, true, false, not, ◌||◌, if◌then◌else◌}

-- Where the thread stands that runs the task.
pub data EagerRunner : Type 0 where
  running : EagerRunner
  returned : EagerRunner  -- suspended at its end, before the exchange of the final await_suspend
  continuing : EagerRunner  -- the exchange returned true: before the continuation is resumed
  finished : EagerRunner

-- Where the awaiting coroutine stands.
pub data Awaiter : Type 0 where
  fresh : Awaiter  -- before `await_ready`
  storing : Awaiter  -- before the store of m_continuation
  exchanging : Awaiter  -- before the exchange
  waiting : Awaiter
  went_on : Awaiter  -- before `result`
  consumed : Awaiter  -- before the task is destroyed
  gone : Awaiter

pub record Eager : Type 0 where
  pub flag : Bool  -- has_completed_or_continutation
  pub continuation : Bool  -- whether m_continuation is set
  pub has_result : Bool
  pub runner : EagerRunner
  pub awaiter : Awaiter
  pub resumed : ℕ  -- how often the awaiting coroutine went on
  pub destroyed : Bool
  pub late : Bool  -- whether the end of the task used a destroyed frame
  pub null_resumed : Bool  -- whether a null handle was resumed
  pub empty_read : Bool  -- whether `result` found no result

unfoldable pub start_eager : Eager
start_eager = record {
  flag = false;
  continuation = false;
  has_result = false;
  runner = EagerRunner.running;
  awaiter = Awaiter.fresh;
  resumed = 0;
  destroyed = false;
  late = false;
  null_resumed = false;
  empty_read = false;
}

-- `m_coroutine.done()`
unfoldable pub is_done : EagerRunner → Bool
is_done EagerRunner.running = false
is_done _ = true

-- `return_value` or `unhandled_exception`, and `final_awaitable::await_suspend`. The exchange on a
-- promise that was destroyed is undefined: it may read any `stray` value.
unfoldable pub finish_at : Bool → EagerRunner → Eager → Eager
finish_at stray EagerRunner.running t = record t {
  has_result = true;
  runner = EagerRunner.returned;
}
finish_at stray EagerRunner.returned t = record t {
  late = t.late || t.destroyed;
  flag = true;
  runner =
      if (if t.destroyed then stray else t.flag)
      then EagerRunner.continuing
      else EagerRunner.finished;
}
finish_at stray EagerRunner.continuing t = record t {
  null_resumed = t.null_resumed || not t.continuation;
  resumed = suc t.resumed;
  awaiter = Awaiter.went_on;
  runner = EagerRunner.finished;
}
finish_at stray EagerRunner.finished t = t

-- `await_ready`, `await_suspend` and `await_resume`, and the destructor of the task.
unfoldable pub awaiter_at : Awaiter → Eager → Eager
unfolding is_done
awaiter_at Awaiter.fresh t =
    if is_done t.runner
    then record t { awaiter = Awaiter.went_on; resumed = suc t.resumed }
    else record t { awaiter = Awaiter.storing }
awaiter_at Awaiter.storing t = record t { continuation = true; awaiter = Awaiter.exchanging }
awaiter_at Awaiter.exchanging t =
    if t.flag
    then record t { awaiter = Awaiter.went_on; resumed = suc t.resumed }
    else record t { flag = true; awaiter = Awaiter.waiting }
awaiter_at Awaiter.waiting t = t
awaiter_at Awaiter.went_on t = record t {
  empty_read = t.empty_read || not t.has_result;
  awaiter = Awaiter.consumed;
}
awaiter_at Awaiter.consumed t = record t { destroyed = true; awaiter = Awaiter.gone }
awaiter_at Awaiter.gone t = t

pub data Step (t : Eager) : Eager → Type 0 where
  finish_step : (stray : Bool) → Step t (finish_at stray t.runner t)
  await_step : Step t (awaiter_at t.awaiter t)

pub data Reach : Eager → Type 0 where
  here : Reach start_eager
  next : {t u : Eager} → Reach t → Step t u → Reach u
