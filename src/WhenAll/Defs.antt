-- ===== src/WhenAll/Defs.antt =====
-- The counter, the tasks and the coroutine that awaits them.
use macoro.Common.{ℕ, suc, ◌+◌, ◌-◌, ◌<◌, Bool, true, false, ltb, ◌==◌, if◌then◌else◌}
use macoro.Common.Family.{update}

-- A task: its coroutine is suspended at its start, runs, has taken the count to zero and is about to
-- resume the awaiting coroutine, or has reported its end.
pub data Task : Type 0 where
  unstarted running notifying reported : Task

-- The awaiting coroutine inside `await_suspend`.
pub data Starter : Type 0 where
  starting : (k : ℕ) → Starter  -- before the start of task k
  storing : Starter  -- before the store of m_awaitingCoroutine
  leaving : Starter  -- before its own decrement
  suspended : Starter
  gone : Starter  -- it went on without suspending

pub record System : Type 0 where
  pub count : ℕ
  pub awaiting : Bool  -- whether m_awaitingCoroutine is set
  pub resumed : ℕ  -- how often the awaiting coroutine went on
  pub crashed : Bool  -- whether a null handle was resumed
  pub task : ℕ → Task
  pub starter : Starter

unfoldable pub init : ℕ → System
init n = record {
  count = n + 1;
  awaiting = false;
  resumed = 0;
  crashed = false;
  task = λ _. Task.unstarted;
  starter = Starter.starting 0;
}

abbrev pub set_task : System → ℕ → Task → System
set_task s i t = record s { task = update s.task i t }

-- `m_awaitingCoroutine.resume()`
unfoldable pub resume_awaiting : System → System
resume_awaiting s =
    if s.awaiting then record s { resumed = suc s.resumed } else record s { crashed = true }

-- `try_await` over `n` tasks, with its start of the tasks.
unfoldable pub start_at : ℕ → Starter → System → System
start_at n (Starter.starting k) s =
    if ltb k n
    then record (set_task s k Task.running) { starter = Starter.starting (suc k) }
    else record s { starter = Starter.storing }
start_at n Starter.storing s = record s { awaiting = true; starter = Starter.leaving }
start_at n Starter.leaving s =
    if ltb 1 s.count
    then record s { count = s.count - 1; starter = Starter.suspended }
    else record s { count = s.count - 1; starter = Starter.gone; resumed = suc s.resumed }
start_at n Starter.suspended s = s
start_at n Starter.gone s = s

-- `notify_awaitable_completed` at the end of task `i`.
unfoldable pub report_at : Task → ℕ → System → System
unfolding resume_awaiting
report_at Task.unstarted i s = s
report_at Task.running i s =
    set_task (record s { count = s.count - 1 }) i
      (if s.count == 1 then Task.notifying else Task.reported)
report_at Task.notifying i s = set_task (resume_awaiting s) i Task.reported
report_at Task.reported i s = s

pub data Step (n : ℕ) (s : System) : System → Type 0 where
  start : Step n s (start_at n s.starter s)
  report : (i : ℕ) → i < n → Step n s (report_at (s.task i) i s)

pub data Reach (n : ℕ) : System → Type 0 where
  here : Reach n (init n)
  next : {s t : System} → Reach n s → Step n s t → Reach n t
