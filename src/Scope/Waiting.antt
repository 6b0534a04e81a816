-- ===== src/Scope/Waiting.antt =====
-- The join of a scope: how the coroutine waits at the barrier, and what holds in every state that is
-- reached.
use macoro.Common.{
  ℕ, ◌-◌, ◌<◌, ◌≡◌, refl, ap, subst, Bool, false, if◌then◌else◌, count, count-append, arith,
}
use macoro.Scope.Promise.{complete, runner_at, owner_at}
use macoro.Scope.Defs.{
  Effect, runner_effect, owner_effect, Joiner, join_count, Scope, wake, drop_count,
  test_continuation, apply, join_at, Step, Reach,
}
use macoro.Scope.Task.{complete-IsSound, runner_at-IsSound, owner_at-IsSound}
use macoro.Scope.Join.{
  Awaited, Inv, complete-Matches, runner_at-Matches, owner_at-Matches, dropped_waiting, init-Inv,
  apply-Inv, add-Inv,
}

module _ (j : Joiner) (k : Bool) (b r : ℕ) where
  tested_waiting : Awaited j k b r → Awaited (if k then wake j else j) false b (r - 1)
  unfolding wake
  tested_waiting h = ground arith

  tested_holding : Awaited j k b r → join_count (if k then wake j else j) ≡ join_count j
  unfolding wake
  tested_holding h = ground arith

  tested_idle : (if k then wake j else j) ≡ Joiner.no_join → j ≡ Joiner.no_join
  unfolding wake
  tested_idle e = ground arith

join_at-Inv : (j : Joiner) (s : Scope) → s.joiner ≡ j → Inv s → Inv (join_at j s)
unfolding join_at
join_at-Inv Joiner.no_join s e v =
    let w = subst (λ j. Awaited j s.continuation s.barrier s.resumers) e v.waits in
    record {
      sound = v.sound;
      counted = ground (arith, v.counted, ap join_count e);
      reported = λ j. omega (arith, v.reported j, ap (count j) (v.idle e));
      waits = w;
      idle = λ e. ground arith;
      unadded = v.unadded;
    }
join_at-Inv Joiner.made s e v =
    let w = subst (λ j. Awaited j s.continuation s.barrier s.resumers) e v.waits in
    record {
      sound = v.sound;
      counted = ground (arith, v.counted, ap join_count e);
      reported = v.reported;
      waits = ground (arith, w);
      idle = λ e. ground arith;
      unadded = v.unadded;
    }
join_at-Inv Joiner.storing s e v =
    let w = subst (λ j. Awaited j s.continuation s.barrier s.resumers) e v.waits in
    record {
      sound = v.sound;
      counted = ground (arith, v.counted, ap join_count e);
      reported = v.reported;
      waits = (refl, ground (arith, v.counted, ap join_count e));
      idle = λ e. ground arith;
      unadded = v.unadded;
    }
join_at-Inv Joiner.passing s e v =
    let w = subst (λ j. Awaited j s.continuation s.barrier s.resumers) e v.waits in
    record {
      sound = v.sound;
      counted = ground (arith, v.counted, ap join_count e);
      reported = v.reported;
      waits = ground (arith, w);
      idle = λ e. ground arith;
      unadded = v.unadded;
    }
join_at-Inv Joiner.checking s e v =
    let w = subst (λ j. Awaited j s.continuation s.barrier s.resumers) e v.waits in
    record {
      sound = v.sound;
      counted = ground (arith, v.counted, ap join_count e);
      reported = v.reported;
      waits = w;
      idle = λ e. ground arith;
      unadded = v.unadded;
    }
join_at-Inv Joiner.suspended s e v = v
join_at-Inv Joiner.joined s e v =
    let w = subst (λ j. Awaited j s.continuation s.barrier s.resumers) e v.waits in
    record {
      sound = v.sound;
      counted = ground (arith, v.counted, ap join_count e);
      reported = λ j. omega (arith, v.reported j, count-append j s.thrown s.taken);
      waits = w;
      idle = λ e. refl;
      unadded = v.unadded;
    }

drop_count-Inv :
    (s : Scope) → Inv s → 0 < s.drops → Inv (drop_count (record s { drops = s.drops - 1 }))
unfolding drop_count
drop_count-Inv s v lt = record {
  sound = v.sound;
  counted = omega (arith, v.counted, lt);
  reported = v.reported;
  waits =
      dropped_waiting s.joiner s.continuation s.barrier s.resumers v.waits
        (omega (arith, v.counted, lt));
  idle = v.idle;
  unadded = v.unadded;
}

test_continuation-Inv : (s : Scope) → Inv s → Inv (test_continuation s)
unfolding test_continuation
test_continuation-Inv s v = record {
  sound = v.sound;
  counted =
      omega (arith, v.counted, tested_holding s.joiner s.continuation s.barrier s.resumers v.waits);
  reported = v.reported;
  waits = tested_waiting s.joiner s.continuation s.barrier s.resumers v.waits;
  idle = λ e. v.idle (tested_idle s.joiner s.continuation s.barrier s.resumers e);
  unadded = v.unadded;
}

pub Reach-Inv : {s : Scope} → Reach s → Inv s
unfolding apply
Reach-Inv Reach.here = init-Inv
Reach-Inv (Reach.next {s = s} r Step.new_task) = add-Inv s (Reach-Inv r)
Reach-Inv (Reach.next {s = s} r (Step.complete_task i lt threw)) =
    let v = Reach-Inv r in
    let t = s.task i in
    apply-Inv Effect.no_effect i s (complete threw t.runner t) lt v
      (complete-IsSound threw t.runner t refl (v.sound i)) (complete-Matches threw t.runner t refl)
Reach-Inv (Reach.next {s = s} r (Step.run_task i lt)) =
    let v = Reach-Inv r in
    let t = s.task i in
    apply-Inv (runner_effect t.runner) i s (runner_at t.runner t) lt v
      (runner_at-IsSound t.runner t refl (v.sound i)) (runner_at-Matches t.runner t refl)
Reach-Inv (Reach.next {s = s} r (Step.own_task i lt c)) =
    let v = Reach-Inv r in
    let t = s.task i in
    apply-Inv (owner_effect t.owner t.result) i s (owner_at c t.owner t) lt v
      (owner_at-IsSound c t.owner t refl (v.sound i)) (owner_at-Matches c t.owner t)
Reach-Inv (Reach.next {s = s} r Step.join_scope) = join_at-Inv s.joiner s refl (Reach-Inv r)
Reach-Inv (Reach.next {s = s} r (Step.drop_own lt)) = drop_count-Inv s (Reach-Inv r) lt
Reach-Inv (Reach.next {s = s} r (Step.resume_joiner lt)) = test_continuation-Inv s (Reach-Inv r)
