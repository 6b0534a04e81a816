-- ===== src/Scope/Quiet.antt =====
-- A scope to which no task is added in a join when none is counted (async_scope.h over barrier.h): the coroutine that
-- joins goes on when no task is counted any more.
use macoro.Common.{
  ℕ, suc, ◌+◌, ◌-◌, ◌<◌, ◌≡◌, ◌⊎◌, inl, inr, refl, sym, ap, subst, Bool, true, ◌||◌, ◌&&◌, ltb,
  ◌==◌, if◌then◌else◌, arith,
}
use macoro.Common.Family.{tally, tally-update, tally_next}
use macoro.Scope.Promise.{Task, start, complete, runner_at, owner_at}
use macoro.Scope.Defs.{
  Effect, runner_effect, owner_effect, Joiner, join_count, Scope, init, wake, set_task, drop_count,
  test_continuation, apply, is_joining, add, join_at, Step, Reach,
}
use macoro.Scope.Waiting.{Reach-Inv}
use macoro.Scope.Join.{
  is_counted, Matches, Awaited, Inv, complete-Matches, runner_at-Matches, owner_at-Matches,
}

-- By the place of the coroutine: how many decrements are about to test for it, how many calls of
-- await_suspend are about to decrement, and how many tasks are counted.
abbrev pub Quiet : Joiner → ℕ → ℕ → ℕ → Type 0
Quiet Joiner.no_join r d t = (d ≡ 0) × ((r ≡ 0) ⊎ (t ≡ 0))
Quiet Joiner.made r d t = (d ≡ 0) × ((r ≡ 0) ⊎ (t ≡ 0))
Quiet Joiner.storing r d t = (d ≡ 0) × (r ≡ 0)
Quiet Joiner.passing r d t = (d ≡ 0) × (t ≡ 0)
Quiet Joiner.checking r d t = (d ≡ 0) × (t ≡ 0)
Quiet Joiner.suspended r d t =
    ((d ≡ 1) × (r ≡ 0)) ⊎ (((d ≡ 0) × (r ≡ 0) × (0 < t)) ⊎ ((d ≡ 0) × (r ≡ 1) × (t ≡ 0)))
Quiet Joiner.joined r d t = (d ≡ 0) × (t ≡ 0)

abbrev pub QuietIf : Bool → Joiner → ℕ → ℕ → ℕ → Type 0
QuietIf disturbed j r d t = (disturbed ≡ true) ⊎ Quiet j r d t

abbrev pub counts : Scope → ℕ
counts s = tally is_counted s.task s.added

abbrev pub Holds : Scope → Type 0
Holds s = QuietIf s.disturbed s.joiner s.resumers s.drops (counts s)

-- The steps on the numbers, with `b` the count of the barrier.
module _ (b : ℕ) (x : Bool) (j : Joiner) (k : Bool) (r d t : ℕ) where
  task_drops :
      (u : ℕ)
      → t ≡ suc u
      → b ≡ t + join_count j + d
      → QuietIf x j r d t
      → QuietIf x j (if b == 1 then suc r else r) d u
  task_drops u e c h = ground arith

  task_added :
      b ≡ t + join_count j + d
      → QuietIf x j r d t
      → QuietIf (x || ((b == join_count j + d) && (is_joining j || ltb 0 r))) j r d (suc t)
  unfolding is_joining
  task_added c h = ground arith

  own_drops :
      0 < d
      → b ≡ t + join_count j + d
      → QuietIf x j r d t
      → QuietIf x j (if b == 1 then suc r else r) (d - 1) t
  own_drops lt c h = ground arith

  tests :
      0 < r → Awaited j k b r → QuietIf x j r d t → QuietIf x (if k then wake j else j) (r - 1) d t
  unfolding wake
  tests lt w h = ground arith

made_step :
    (b : ℕ) (x : Bool) (r d t : ℕ)
    → b ≡ t + d
    → QuietIf x Joiner.made r d t
    → QuietIf x (if b == 0 then Joiner.passing else Joiner.storing) r d t
made_step b x r d t c h = ground arith

passing_step :
    (b : ℕ) (x : Bool) (r d t : ℕ)
    → QuietIf x Joiner.passing r d t
    → QuietIf x (if b == 1 then Joiner.checking else Joiner.joined) r d t
passing_step b x r d t h = ground arith

apply-Holds :
    (e : Effect) (i : ℕ) (s : Scope) (u : Task)
    → i < s.added
    → Inv s
    → Matches e (s.task i) u
    → Holds s
    → Holds (apply e i (set_task s i u))
unfolding apply drop_count
apply-Holds Effect.no_effect i s u lt v (_, weight) h =
    let moved = tally-update is_counted s.task i u s.added lt in
    let same : counts (set_task s i u) ≡ counts s = omega (arith, moved, weight) in
    subst (QuietIf s.disturbed s.joiner s.resumers s.drops) (sym same) h
apply-Holds Effect.push i s u lt v (_, weight) h =
    let moved = tally-update is_counted s.task i u s.added lt in
    let same : counts (set_task s i u) ≡ counts s = omega (arith, moved, weight) in
    subst (QuietIf s.disturbed s.joiner s.resumers s.drops) (sym same) h
apply-Holds Effect.decrement i s u lt v (_, was, is) h =
    let moved = tally-update is_counted s.task i u s.added lt in
    task_drops s.barrier s.disturbed s.joiner s.continuation s.resumers s.drops (counts s)
      (counts (set_task s i u)) (omega (arith, moved, was, is)) v.counted h

join_at-Holds : (j : Joiner) (s : Scope) → s.joiner ≡ j → Inv s → Holds s → Holds (join_at j s)
unfolding join_at
join_at-Holds Joiner.no_join s e v h =
    let q = subst (λ j. QuietIf s.disturbed j s.resumers s.drops (counts s)) e h in q
join_at-Holds Joiner.made s e v h =
    let q = subst (λ j. QuietIf s.disturbed j s.resumers s.drops (counts s)) e h in
    made_step s.barrier s.disturbed s.resumers s.drops (counts s)
      (omega (arith, v.counted, ap join_count e)) q
join_at-Holds Joiner.storing s e v h =
    let q = subst (λ j. QuietIf s.disturbed j s.resumers s.drops (counts s)) e h in
    ground (arith, q)
join_at-Holds Joiner.passing s e v h =
    let q = subst (λ j. QuietIf s.disturbed j s.resumers s.drops (counts s)) e h in
    passing_step s.barrier s.disturbed s.resumers s.drops (counts s) q
join_at-Holds Joiner.checking s e v h =
    let q = subst (λ j. QuietIf s.disturbed j s.resumers s.drops (counts s)) e h in q
join_at-Holds Joiner.suspended s e v h = h
join_at-Holds Joiner.joined s e v h =
    let q = subst (λ j. QuietIf s.disturbed j s.resumers s.drops (counts s)) e h in
    ground (arith, q)

add-Holds : (s : Scope) → Inv s → Holds s → Holds (add s)
unfolding add start
add-Holds s v h =
    let grown : counts (add s) ≡ suc (counts s) =
      omega (arith, tally_next is_counted s.task s.added start) in
    subst (QuietIf (add s).disturbed s.joiner s.resumers s.drops) (sym grown) (
      task_added s.barrier s.disturbed s.joiner s.continuation s.resumers s.drops (counts s)
        v.counted h)

pub Reach-Holds : {s : Scope} → Reach s → Holds s
unfolding apply drop_count test_continuation init
Reach-Holds Reach.here = inr (refl, inl refl)
Reach-Holds (Reach.next {s = s} r Step.new_task) = add-Holds s (Reach-Inv r) (Reach-Holds r)
Reach-Holds (Reach.next {s = s} r (Step.complete_task i lt threw)) =
    let t = s.task i in
    apply-Holds Effect.no_effect i s (complete threw t.runner t) lt (Reach-Inv r)
      (complete-Matches threw t.runner t refl) (Reach-Holds r)
Reach-Holds (Reach.next {s = s} r (Step.run_task i lt)) =
    let t = s.task i in
    apply-Holds (runner_effect t.runner) i s (runner_at t.runner t) lt (Reach-Inv r)
      (runner_at-Matches t.runner t refl) (Reach-Holds r)
Reach-Holds (Reach.next {s = s} r (Step.own_task i lt c)) =
    let t = s.task i in
    apply-Holds (owner_effect t.owner t.result) i s (owner_at c t.owner t) lt (Reach-Inv r)
      (owner_at-Matches c t.owner t) (Reach-Holds r)
Reach-Holds (Reach.next {s = s} r Step.join_scope) =
    join_at-Holds s.joiner s refl (Reach-Inv r) (Reach-Holds r)
Reach-Holds (Reach.next {s = s} r (Step.drop_own lt)) =
    own_drops s.barrier s.disturbed s.joiner s.continuation s.resumers s.drops (counts s) lt
      (Inv.counted (Reach-Inv r)) (Reach-Holds r)
Reach-Holds (Reach.next {s = s} r (Step.resume_joiner lt)) =
    tests s.barrier s.disturbed s.joiner s.continuation s.resumers s.drops (counts s) lt
      (Inv.waits (Reach-Inv r)) (Reach-Holds r)
