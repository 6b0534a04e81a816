-- ===== src/Scope/Defs.antt =====
-- The scope, its tasks and the coroutine that joins it; one coroutine joins at a time, so a join that
-- takes the last count itself (`checking`) finds no handle.
use macoro.Common.{
  ℕ, suc, ◌+◌, ◌-◌, ◌<◌, Bool, true, false, ◌||◌, ◌&&◌, ltb, ◌==◌, if◌then◌else◌, List, [], ◌∷◌,
  ◌++◌,
}
use macoro.Common.Family.{update}
use macoro.Scope.Promise.{
  ResultType, Runner, Owner, Task, start, complete, runner_at, Choice, owner_at,
}

-- What a step does to the scope.
pub data Effect : Type 0 where
  no_effect : Effect
  push : Effect  -- the exception is appended to m_exceptions under the mutex
  decrement : Effect  -- the fetch_sub of m_barrier.decrement()

unfoldable pub runner_effect : Runner → Effect
runner_effect Runner.recording = Effect.push
runner_effect (Runner.decrementing e) = Effect.decrement
runner_effect _ = Effect.no_effect

unfoldable pub owner_effect : Owner → ResultType → Effect
owner_effect Owner.settling ResultType.exception = Effect.push
owner_effect _ r = Effect.no_effect

-- Where the coroutine stands that joins the scope.
pub data Joiner : Type 0 where
  no_join : Joiner
  made : Joiner  -- it has its join_awaiter
  storing : Joiner  -- its increment returned more than one: before the store of its handle
  passing : Joiner  -- its increment returned one: before its own decrement
  checking : Joiner  -- that was the last one: before its test of m_continuation
  suspended : Joiner  -- its handle is stored; its await_suspend may still be about to decrement
  joined : Joiner  -- it goes on, before `await_resume`

pub record Scope : Type 0 where
  pub added : ℕ  -- how many tasks were added
  pub task : ℕ → Task
  pub barrier : ℕ  -- the count of m_barrier
  pub continuation : Bool  -- whether m_continuation of m_barrier is set
  pub drops : ℕ  -- how many calls of await_suspend have stored the handle and not decremented
  pub resumers : ℕ  -- how many decrements were the last one and have not tested m_continuation
  pub disturbed : Bool  -- whether a task was added with none counted, in a join or before such a test
  pub exceptions : List ℕ  -- the tasks whose exceptions are in m_exceptions
  pub joiner : Joiner
  pub taken : List ℕ  -- m_exceptions of the join_awaiter
  pub thrown : List ℕ  -- what joins have thrown

unfoldable pub init : Scope
unfolding start
init = record {
  added = 0;
  task = λ _. start;
  barrier = 0;
  continuation = false;
  drops = 0;
  resumers = 0;
  disturbed = false;
  exceptions = [];
  joiner = Joiner.no_join;
  taken = [];
  thrown = [];
}

unfoldable pub wake : Joiner → Joiner
wake Joiner.suspended = Joiner.joined
wake j = j

abbrev pub set_task : Scope → ℕ → Task → Scope
set_task s i t = record s { task = update s.task i t }

-- `barrier::decrement` in two accesses: the fetch_sub, and if it took the last count the test of
-- m_continuation. The thread may do what follows in its task before that test.
unfoldable pub drop_count : Scope → Scope
drop_count s = record s {
  barrier = s.barrier - 1;
  resumers = if s.barrier == 1 then suc s.resumers else s.resumers;
}

unfoldable pub test_continuation : Scope → Scope
unfolding wake
test_continuation s = record s {
  resumers = s.resumers - 1;
  continuation = false;
  joiner = if s.continuation then wake s.joiner else s.joiner;
}

unfoldable pub apply : Effect → ℕ → Scope → Scope
unfolding drop_count
apply Effect.no_effect i s = s
apply Effect.push i s = record s { exceptions = s.exceptions ++ (i ∷ []) }
apply Effect.decrement i s = drop_count s

-- The count that the joining coroutine holds itself.
abbrev pub join_count : Joiner → ℕ
join_count Joiner.storing = 1
join_count Joiner.passing = 1
join_count _ = 0

unfoldable pub is_joining : Joiner → Bool
is_joining Joiner.no_join = false
is_joining _ = true

-- `add`: the constructor of the promise increments the barrier, and the coroutine starts.
unfoldable pub add : Scope → Scope
unfolding start is_joining
add s = record s {
  disturbed =
      s.disturbed
      || ((s.barrier == join_count s.joiner + s.drops)
          && (is_joining s.joiner || ltb 0 s.resumers));
  added = suc s.added;
  task = update s.task s.added start;
  barrier = suc s.barrier;
}

-- `co_await scope`: the awaiter is made, `barrier_awaiter::await_suspend` counts itself, stores the handle
-- if there are others, and decrements; `await_resume` throws what the awaiter holds.
unfoldable pub join_at : Joiner → Scope → Scope
join_at Joiner.no_join s = record s { joiner = Joiner.made; taken = s.exceptions; exceptions = [] }
join_at Joiner.made s = record s {
  barrier = suc s.barrier;
  joiner = if s.barrier == 0 then Joiner.passing else Joiner.storing;
}
join_at Joiner.storing s = record s {
  continuation = true;
  drops = suc s.drops;
  joiner = Joiner.suspended;
}
join_at Joiner.passing s = record s {
  barrier = s.barrier - 1;
  joiner = if s.barrier == 1 then Joiner.checking else Joiner.joined;
}
join_at Joiner.checking s = record s { joiner = Joiner.joined }
join_at Joiner.suspended s = s
join_at Joiner.joined s = record s {
  joiner = Joiner.no_join;
  taken = [];
  thrown = s.thrown ++ s.taken;
}

pub data Step (s : Scope) : Scope → Type 0 where
  new_task : Step s (add s)
  complete_task :
      (i : ℕ)
      → i < s.added
      → (threw : Bool) → Step s (set_task s i (complete threw (s.task i).runner (s.task i)))
  run_task :
      (i : ℕ)
      → i < s.added
      → Step s (
          apply
            (runner_effect (s.task i).runner)
            i
            (set_task s i (runner_at (s.task i).runner (s.task i))))
  own_task :
      (i : ℕ)
      → i < s.added
      → (c : Choice)
      → Step s (
          apply
            (owner_effect (s.task i).owner (s.task i).result)
            i
            (set_task s i (owner_at c (s.task i).owner (s.task i))))
  join_scope : Step s (join_at s.joiner s)
  drop_own : 0 < s.drops → Step s (drop_count (record s { drops = s.drops - 1 }))
  resume_joiner : 0 < s.resumers → Step s (test_continuation s)

pub data Reach : Scope → Type 0 where
  here : Reach init
  next : {s t : Scope} → Reach s → Step s t → Reach t
