-- ===== src/Barrier/Defs.antt =====
-- The barrier, its holders and its waiter.
use macoro.Common.{ℕ, suc, ◌-◌, ◌<◌, Bool, true, false, ltb, ◌==◌, if◌then◌else◌}
use macoro.Common.Family.{update}

-- Where a thread stands that calls `decrement`.
pub data Holder : Type 0 where
  holding : Holder  -- before the decrement
  testing : Holder  -- it took the count to zero, and is before the test of m_continuation
  finished : Holder

-- Where `await_suspend` stands; `kept` says that it has stored the continuation, and returns another.
pub data Waiter : Type 0 where
  unstarted : Waiter
  storing : Waiter
  leaving : (kept : Bool) → Waiter
  checking : (kept : Bool) → Waiter
  returning : (kept : Bool) → Waiter
  gone : Waiter

pub record System : Type 0 where
  pub count : ℕ
  pub continuation : Bool
  pub resumed : ℕ  -- how often the waiting coroutine went on
  pub holder : ℕ → Holder
  pub waiter : Waiter

unfoldable pub init : ℕ → System
init n = record {
  count = n;
  continuation = false;
  resumed = 0;
  holder = λ _. Holder.holding;
  waiter = Waiter.unstarted;
}

-- `if (... && m_continuation) std::exchange(m_continuation, nullptr).resume()`
unfoldable pub resume_continuation : System → System
resume_continuation s =
    if s.continuation then record s { continuation = false; resumed = suc s.resumed } else s

abbrev pub set_holder : System → ℕ → Holder → System
set_holder s i p = record s { holder = update s.holder i p }

-- `decrement()` of holder `i`.
unfoldable pub decrement_at : Holder → ℕ → System → System
unfolding resume_continuation
decrement_at Holder.holding i s =
    set_holder (record s { count = s.count - 1 }) i
      (if s.count == 1 then Holder.testing else Holder.finished)
decrement_at Holder.testing i s = set_holder (resume_continuation s) i Holder.finished
decrement_at Holder.finished i s = s

-- `await_suspend`, with the `decrement()` inside it.
unfoldable pub suspend_at : Waiter → System → System
unfolding resume_continuation
suspend_at Waiter.unstarted s = record s {
  count = suc s.count;
  waiter = if ltb 1 (suc s.count) then Waiter.storing else Waiter.leaving false;
}
suspend_at Waiter.storing s = record s { continuation = true; waiter = Waiter.leaving true }
suspend_at (Waiter.leaving kept) s = record s {
  count = s.count - 1;
  waiter = if s.count == 1 then Waiter.checking kept else Waiter.returning kept;
}
suspend_at (Waiter.checking kept) s = record (resume_continuation s) {
  waiter = Waiter.returning kept;
}
suspend_at (Waiter.returning kept) s = record s {
  resumed = if kept then s.resumed else suc s.resumed;
  waiter = Waiter.gone;
}
suspend_at Waiter.gone s = s

pub data Step (n : ℕ) (s : System) : System → Type 0 where
  decrement : (i : ℕ) → i < n → Step n s (decrement_at (s.holder i) i s)
  suspend : Step n s (suspend_at s.waiter s)

pub data Reach (n : ℕ) : System → Type 0 where
  here : Reach n (init n)
  next : {s t : System} → Reach n s → Step n s t → Reach n t
