-- ===== src/Event/Defs.antt =====
-- The event, its awaiters and the threads that set it.
use macoro.Common.{ℕ, suc, ◌<◌, ◌≡◌, Bool, true, false, if◌then◌else◌, List, [], ◌∷◌}
use macoro.Common.Family.{update}

-- `m_state`: the event itself, or the list of the waiting operations, which null ends.
pub data EventState : Type 0 where
  set_state : EventState
  not_set : (waiters : List ℕ) → EventState

-- Where an operation stands.
pub data Pc : Type 0 where
  fresh : Pc  -- before `await_ready`
  suspending : Pc  -- before the load in `await_suspend`
  enqueuing : Pc  -- before the compare-exchange
  returned : Pc  -- it goes on without having been queued
  queued : Pc  -- `await_suspend` returned true

pub record System : Type 0 where
  pub state : EventState
  pub pc : ℕ → Pc
  pub resuming : ℕ → List ℕ  -- what is left of the list of each thread inside `set`
  pub continued : ℕ → ℕ  -- how often the coroutine of an operation went on
  pub was_set : Bool  -- whether the event has ever been set

unfoldable pub init : Bool → System
init initially_set = record {
  state = if initially_set then EventState.set_state else EventState.not_set [];
  pc = λ _. Pc.fresh;
  resuming = λ _. [];
  continued = λ _. 0;
  was_set = initially_set;
}

abbrev pub at : System → ℕ → Pc → System
at s i p = record s { pc = update s.pc i p }

abbrev pub go_on : System → ℕ → System
go_on s i = record s { continued = update s.continued i (suc (s.continued i)) }

unfoldable pub is_set : EventState → Bool
is_set EventState.set_state = true
is_set (EventState.not_set waiters) = false

-- The exchange of `set()` by thread `j`.
unfoldable pub set_event : EventState → ℕ → System → System
set_event EventState.set_state j s = record s { was_set = true }
set_event (EventState.not_set waiters) j s = record s {
  state = EventState.set_state;
  resuming = update s.resuming j waiters;
  was_set = true;
}

-- The loop of `set()`: one coroutine is resumed.
unfoldable pub resume_next : List ℕ → ℕ → System → System
resume_next [] j s = s
resume_next (a ∷ rest) j s = go_on (record s { resuming = update s.resuming j rest }) a

unfoldable pub reset_event : EventState → System → System
reset_event EventState.set_state s = record s { state = EventState.not_set [] }
reset_event (EventState.not_set waiters) s = s

-- A step of operation `i`. The compare-exchange of the loop fails when the state is not what was
-- loaded, and the loop goes around with the state that it saw.
unfoldable pub await_at : Pc → EventState → ℕ → System → System
unfolding is_set
await_at Pc.fresh e i s = if is_set e then at (go_on s i) i Pc.returned else at s i Pc.suspending
await_at Pc.suspending e i s =
    if is_set e then at (go_on s i) i Pc.returned else at s i Pc.enqueuing
await_at Pc.enqueuing EventState.set_state i s = at (go_on s i) i Pc.returned
await_at Pc.enqueuing (EventState.not_set waiters) i s =
    at (record s { state = EventState.not_set (i ∷ waiters) }) i Pc.queued
await_at Pc.returned e i s = s
await_at Pc.queued e i s = s

-- `n` operations, and `m` threads that call `set`, each of which ends a call before the next.
pub data Step (n m : ℕ) (s : System) : System → Type 0 where
  set_call : (j : ℕ) → j < m → s.resuming j ≡ [] → Step n m s (set_event s.state j s)
  resume_call : (j : ℕ) → j < m → Step n m s (resume_next (s.resuming j) j s)
  reset_call : Step n m s (reset_event s.state s)
  await_call : (i : ℕ) → i < n → Step n m s (await_at (s.pc i) s.state i s)

pub data Reach (n m : ℕ) (initially_set : Bool) : System → Type 0 where
  here : Reach n m initially_set (init initially_set)
  next : {s t : System} → Reach n m initially_set s → Step n m s t → Reach n m initially_set t
