-- ===== src/Scope/Join.antt =====
-- All tasks of a scope: the barrier counts the tasks that have not ended, and every exception is in one
-- place.
use macoro.Common.{
  ℕ, suc, ◌+◌, ◌-◌, ◌<◌, ◌≤◌, ◌≡◌, inl, inr, refl, sym, ap, ◌∙◌, Bool, true, false, ◌==◌, ==_iff,
  ==_ne, if◌then◌else◌, Bool-cases, [], ◌∷◌, count, count-append, arith,
}
use macoro.Common.Family.{update, update_ind, tally, tally-update, tally_bound, tally_next}
use macoro.Scope.Promise.{
  Runner, Owner, Task, start, complete, decide, runner_at, Choice, after_join, after_drop, settle,
  owner_at,
}
use macoro.Scope.Defs.{
  Effect, runner_effect, owner_effect, Joiner, join_count, Scope, init, set_task, drop_count, apply,
  add,
}
use macoro.Scope.Task.{IsSound, start-IsSound}

-- Whether the barrier still counts the task.
abbrev pub runs : Runner → ℕ
runs (Runner.finishing e) = 0
runs (Runner.finished e) = 0
runs _ = 1

abbrev pub is_counted : Task → ℕ
is_counted t = runs t.runner

-- A move from `t` to `u` and what it does to the scope.
abbrev pub Matches : Effect → Task → Task → Type 0
Matches Effect.no_effect t u = (u.recorded ≡ t.recorded) × (is_counted u ≡ is_counted t)
Matches Effect.push t u = (u.recorded ≡ suc t.recorded) × (is_counted u ≡ is_counted t)
Matches Effect.decrement t u = (u.recorded ≡ t.recorded) × (is_counted t ≡ 1) × (is_counted u ≡ 0)

pub complete-Matches :
    (threw : Bool) (p : Runner) (t : Task)
    → t.runner ≡ p
    → Matches Effect.no_effect t (complete threw p t)
unfolding complete
complete-Matches threw p t e = ground (arith, ap runs e)

pub runner_at-Matches :
    (p : Runner) (t : Task) → t.runner ≡ p → Matches (runner_effect p) t (runner_at p t)
unfolding runner_at runner_effect decide
runner_at-Matches p t e = ground (arith, ap runs e)

pub owner_at-Matches :
    (c : Choice) (p : Owner) (t : Task) → Matches (owner_effect p t.result) t (owner_at c p t)
unfolding owner_at owner_effect after_join after_drop settle
owner_at-Matches c p t = ground arith

abbrev pub is_suspended : Joiner → Bool
is_suspended Joiner.suspended = true
is_suspended _ = false

-- Where the exception of a task can be: in the scope's list, in the join_awaiter, or thrown by a join.
abbrev pub reports : ℕ → Scope → ℕ
reports i s = count i s.exceptions + count i s.taken + count i s.thrown

-- A coroutine that waits has its handle stored, and the barrier will come to test for it.
abbrev pub Awaited : Joiner → Bool → ℕ → ℕ → Type 0
Awaited Joiner.suspended k b r = (k ≡ true) × (0 < b + r)
Awaited _ k b r = k ≡ false

pub record Inv (s : Scope) : Type 0 where
  pub sound : (i : ℕ) → IsSound (s.task i)
  pub counted : s.barrier ≡ tally is_counted s.task s.added + join_count s.joiner + s.drops
  pub reported : (i : ℕ) → reports i s ≡ (s.task i).recorded
  pub waits : Awaited s.joiner s.continuation s.barrier s.resumers
  pub idle : s.joiner ≡ Joiner.no_join → s.taken ≡ []
  pub unadded : (i : ℕ) → s.added ≤ i → (s.task i).recorded ≡ 0

pub init-Inv : Inv init
unfolding init start
init-Inv = record {
  sound = λ i. start-IsSound;
  counted = omega (arith, tally_bound is_counted (λ _. start) (λ j. omega arith) 0);
  reported = λ i. refl;
  waits = refl;
  idle = λ e. refl;
  unadded = λ i le. refl;
}

-- One more exception of task `i`.
more_recorded :
    (f : ℕ → Task) (i : ℕ) (u : Task)
    → u.recorded ≡ suc (f i).recorded
    → (j : ℕ) → (update f i u j).recorded ≡ count j (i ∷ []) + (f j).recorded
more_recorded f i u e j = elim (Bool-cases (i == j)) [
  | inl same ↦ rw same (e ∙ ap (λ k. suc (f k).recorded) ((==_iff i j).0 same) ∙ omega arith)
  | inr other ↦ rw other omega arith
]

kept_recorded :
    (f : ℕ → Task) (i : ℕ) (u : Task)
    → u.recorded ≡ (f i).recorded
    → (j : ℕ) → (f j).recorded ≡ (update f i u j).recorded
kept_recorded f i u e j = ground arith

module _ (j : Joiner) (k : Bool) (b r : ℕ) where
  -- A fetch_sub by one that was counted.
  pub dropped_waiting : Awaited j k b r → 0 < b → Awaited j k (b - 1) (if b == 1 then suc r else r)
  dropped_waiting h lt = ground arith

  pub added_waiting : Awaited j k b r → Awaited j k (suc b) r
  added_waiting h = ground arith

pub apply-Inv :
    (e : Effect) (i : ℕ) (s : Scope) (u : Task)
    → i < s.added
    → Inv s
    → IsSound u
    → Matches e (s.task i) u
    → Inv (apply e i (set_task s i u))
unfolding apply drop_count
apply-Inv Effect.no_effect i s u lt v g (same, weight) =
    let moved = tally-update is_counted s.task i u s.added lt in
    record {
      sound = update_ind s.task i u IsSound v.sound g;
      counted = omega (arith, moved, weight, v.counted);
      reported = λ j. v.reported j ∙ kept_recorded s.task i u same j;
      waits = v.waits;
      idle = v.idle;
      unadded = λ j le. sym (kept_recorded s.task i u same j) ∙ v.unadded j le;
    }
apply-Inv Effect.push i s u lt v g (more, weight) =
    let moved = tally-update is_counted s.task i u s.added lt in
    record {
      sound = update_ind s.task i u IsSound v.sound g;
      counted = omega (arith, moved, weight, v.counted);
      reported = λ j.
          let listed = count-append j s.exceptions (i ∷ []) in
          omega (arith, v.reported j, listed, more_recorded s.task i u more j);
      waits = v.waits;
      idle = v.idle;
      unadded = λ j le. rw (==_ne i j (omega (arith, lt, le))) (v.unadded j le);
    }
apply-Inv Effect.decrement i s u lt v g (same, was, is) =
    let moved = tally-update is_counted s.task i u s.added lt in
    record {
      sound = update_ind s.task i u IsSound v.sound g;
      counted = omega (arith, moved, was, is, v.counted);
      reported = λ j. v.reported j ∙ kept_recorded s.task i u same j;
      waits =
          dropped_waiting s.joiner s.continuation s.barrier s.resumers v.waits
            (omega (arith, moved, was, is, v.counted));
      idle = v.idle;
      unadded = λ j le. sym (kept_recorded s.task i u same j) ∙ v.unadded j le;
    }

pub add-Inv : (s : Scope) → Inv s → Inv (add s)
unfolding add
add-Inv s v = record {
  sound = update_ind s.task s.added start IsSound v.sound start-IsSound;
  counted = omega (arith, v.counted, tally_next is_counted s.task s.added start);
  reported = λ j.
      v.reported j ∙ kept_recorded s.task s.added start (sym (v.unadded s.added (omega arith))) j;
  waits = added_waiting s.joiner s.continuation s.barrier s.resumers v.waits;
  idle = v.idle;
  unadded = λ j le.
      sym (kept_recorded s.task s.added start (sym (v.unadded s.added (omega arith))) j)
      ∙ v.unadded j (omega (arith, le));
}
