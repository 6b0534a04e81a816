-- ===== src/Scope/Task.antt =====
-- Every step of the runner and of the owner keeps a task sound: it is in one of the states, and no
-- destroyed frame has been used.
use macoro.Common.{ℕ, ◌≡◌, refl, subst, Bool, false, ◌||◌, ltb, arith}
use macoro.Scope.Promise.{
  CompletionState, or_continuation, ResultType, Exit, Runner, Owner, Task, start, complete,
  runner_at, Choice, after_join, after_drop, settle, touch, set_continuation, owner_at,
}
use macoro.Scope.States.{
  with_failure, Ok, Holds, AfterJoin, AfterDrop, completing_ok, deciding_ok, recording_ok,
  decrementing_ok, continuing_ok, destroying_ok, choosing_ok, resuming_ok, consumed_ok,
  destroyed_ok, settling_ok, joining_ok, dropping_ok,
}

pub record IsSound (t : Task) : Type 0 where
  pub ok : Holds t.runner t.owner t
  pub well_used : t.misused ≡ false

at_runner : {p : Runner} (t : Task) → t.runner ≡ p → IsSound t → Holds p t.owner t
at_runner t e v = subst (λ x. Holds x t.owner t) e v.ok

at_owner : {o : Owner} (t : Task) → t.owner ≡ o → IsSound t → Holds t.runner o t
at_owner t e v = subst (λ x. Holds t.runner x t) e v.ok

-- The frame that is accessed is there.
used_well : (m : Bool) (d : ℕ) → m ≡ false → d ≡ 0 → m || ltb 0 d ≡ false
used_well m d e f = ground arith

pub start-IsSound : IsSound start
unfolding start
start-IsSound = record { ok = (refl, (refl, refl, refl, refl)); well_used = refl }

-- Every step of the runner and of the owner keeps a task sound.
pub complete-IsSound :
    (threw : Bool) (p : Runner) (t : Task) → t.runner ≡ p → IsSound t → IsSound (complete threw p t)
unfolding complete
complete-IsSound threw Runner.running t e v =
    let h = at_runner t e v in
    record { ok = h; well_used = used_well t.misused t.destroyed v.well_used h.1.0 }
complete-IsSound threw Runner.completing t e v = v
complete-IsSound threw (Runner.deciding b) t e v = v
complete-IsSound threw Runner.recording t e v = v
complete-IsSound threw (Runner.decrementing x) t e v = v
complete-IsSound threw (Runner.finishing x) t e v = v
complete-IsSound threw (Runner.finished x) t e v = v

pub runner_at-IsSound : (p : Runner) (t : Task) → t.runner ≡ p → IsSound t → IsSound (runner_at p t)
unfolding runner_at
runner_at-IsSound Runner.running t e v = v
runner_at-IsSound Runner.completing t e v =
    let (h, there) =
      completing_ok t.owner t.completion t.continuation t.result t.destroyed t.resumed t.received
        t.recorded (at_runner t e v) in
    record { ok = h; well_used = used_well t.misused t.destroyed v.well_used there }
runner_at-IsSound (Runner.deciding CompletionState.has_continuation_or_dropped) t e v =
    let (h, there) =
      deciding_ok t.owner t.completion t.continuation t.result t.destroyed t.resumed t.received
        t.recorded (at_runner t e v) in
    record { ok = h; well_used = used_well t.misused t.destroyed v.well_used there }
runner_at-IsSound (Runner.deciding CompletionState.inprogress) t e v = record {
  ok = at_runner t e v;
  well_used = v.well_used;
}
runner_at-IsSound (Runner.deciding CompletionState.has_completed) t e v = absurd (at_runner t e v)
runner_at-IsSound (Runner.deciding CompletionState.both_bits) t e v = absurd (at_runner t e v)
runner_at-IsSound Runner.recording t e v =
    let (h, there) =
      recording_ok t.owner t.completion t.continuation t.result t.destroyed t.resumed t.received
        t.recorded (at_runner t e v) in
    record { ok = h; well_used = used_well t.misused t.destroyed v.well_used there }
runner_at-IsSound (Runner.decrementing x) t e v = record {
  ok =
      decrementing_ok t.owner t.completion t.continuation t.result t.destroyed t.resumed t.received
        t.recorded x (at_runner t e v);
  well_used = v.well_used;
}
runner_at-IsSound (Runner.finishing Exit.keep) t e v = record {
  ok = at_runner t e v;
  well_used = v.well_used;
}
runner_at-IsSound (Runner.finishing Exit.run_continuation) t e v =
    let (h, there) =
      continuing_ok t.owner t.completion t.continuation t.result t.destroyed t.resumed t.received
        t.recorded (at_runner t e v) in
    record { ok = h; well_used = used_well t.misused t.destroyed v.well_used there }
runner_at-IsSound (Runner.finishing Exit.destroy) t e v =
    let (h, there) =
      destroying_ok t.owner t.completion t.continuation t.result t.destroyed t.resumed t.received
        t.recorded (at_runner t e v) in
    record { ok = h; well_used = used_well t.misused t.destroyed v.well_used there }
runner_at-IsSound (Runner.finished x) t e v = v

-- The branches on what the completion state and the result were.
module _ (t : Task) (u : t.misused ≡ false) (z : t.destroyed ≡ 0) where
  after_join-IsSound :
      (c : CompletionState)
      → t.completion ≡ c
      → AfterJoin t.owner c t.continuation t.result t.destroyed t.resumed t.received t.recorded
          t.runner c
      → IsSound (after_join c (set_continuation t))
  unfolding after_join or_continuation
  after_join-IsSound CompletionState.inprogress e h = record {
    ok = rw e h;
    well_used = used_well t.misused t.destroyed u z;
  }
  after_join-IsSound CompletionState.has_continuation_or_dropped e h = record {
    ok = rw e h;
    well_used = used_well t.misused t.destroyed u z;
  }
  after_join-IsSound CompletionState.has_completed e h = record {
    ok = rw e h;
    well_used = used_well t.misused t.destroyed u z;
  }
  after_join-IsSound CompletionState.both_bits e h = record {
    ok = rw e h;
    well_used = used_well t.misused t.destroyed u z;
  }

  after_drop-IsSound :
      (c : CompletionState)
      → t.completion ≡ c
      → AfterDrop t.owner c t.continuation t.result t.destroyed t.resumed t.received t.recorded
          t.runner c
      → IsSound (after_drop c (set_continuation t))
  unfolding after_drop or_continuation
  after_drop-IsSound CompletionState.inprogress e h = record {
    ok = rw e h;
    well_used = used_well t.misused t.destroyed u z;
  }
  after_drop-IsSound CompletionState.has_continuation_or_dropped e h = record {
    ok = rw e h;
    well_used = used_well t.misused t.destroyed u z;
  }
  after_drop-IsSound CompletionState.has_completed e h = record {
    ok = rw e h;
    well_used = used_well t.misused t.destroyed u z;
  }
  after_drop-IsSound CompletionState.both_bits e h = record {
    ok = rw e h;
    well_used = used_well t.misused t.destroyed u z;
  }

  settle-IsSound :
      (r : ResultType)
      → t.result ≡ r
      → Ok t.runner Owner.destroying t.completion t.continuation r t.destroyed t.resumed t.received
          (with_failure r t.recorded)
      → IsSound (settle r (touch t))
  unfolding settle
  settle-IsSound ResultType.empty e h = record {
    ok = rw e h;
    well_used = used_well t.misused t.destroyed u z;
  }
  settle-IsSound ResultType.value e h = record {
    ok = rw e h;
    well_used = used_well t.misused t.destroyed u z;
  }
  settle-IsSound ResultType.exception e h = record {
    ok = rw e h;
    well_used = used_well t.misused t.destroyed u z;
  }

pub owner_at-IsSound :
    (c : Choice) (p : Owner) (t : Task) → t.owner ≡ p → IsSound t → IsSound (owner_at c p t)
unfolding owner_at
owner_at-IsSound Choice.await Owner.holding t e v =
    let (joins, drops, there) =
      choosing_ok t.owner t.completion t.continuation t.result t.destroyed t.resumed t.received
        t.recorded t.runner (at_owner t e v) in
    record { ok = joins; well_used = used_well t.misused t.destroyed v.well_used there }
owner_at-IsSound Choice.drop Owner.holding t e v =
    let (joins, drops, there) =
      choosing_ok t.owner t.completion t.continuation t.result t.destroyed t.resumed t.received
        t.recorded t.runner (at_owner t e v) in
    record { ok = drops; well_used = used_well t.misused t.destroyed v.well_used there }
owner_at-IsSound c Owner.joining t e v =
    let (h, there) =
      joining_ok t.owner t.completion t.continuation t.result t.destroyed t.resumed t.received
        t.recorded t.runner (at_owner t e v) in
    after_join-IsSound t v.well_used there t.completion refl h
owner_at-IsSound c Owner.dropping t e v =
    let (h, there) =
      dropping_ok t.owner t.completion t.continuation t.result t.destroyed t.resumed t.received
        t.recorded t.runner (at_owner t e v) in
    after_drop-IsSound t v.well_used there t.completion refl h
owner_at-IsSound c Owner.settling t e v =
    let (h, there) =
      settling_ok t.owner t.completion t.continuation t.result t.destroyed t.resumed t.received
        t.recorded t.runner (at_owner t e v) in
    settle-IsSound t v.well_used there t.result refl h
owner_at-IsSound c Owner.resuming t e v =
    let (h, there) =
      resuming_ok t.owner t.completion t.continuation t.result t.destroyed t.resumed t.received
        t.recorded t.runner (at_owner t e v) in
    record { ok = h; well_used = used_well t.misused t.destroyed v.well_used there }
owner_at-IsSound c Owner.consumed t e v =
    let (h, there) =
      consumed_ok t.owner t.completion t.continuation t.result t.destroyed t.resumed t.received
        t.recorded t.runner (at_owner t e v) in
    record { ok = h; well_used = used_well t.misused t.destroyed v.well_used there }
owner_at-IsSound c Owner.destroying t e v =
    let (h, there) =
      destroyed_ok t.owner t.completion t.continuation t.result t.destroyed t.resumed t.received
        t.recorded t.runner (at_owner t e v) in
    record { ok = h; well_used = used_well t.misused t.destroyed v.well_used there }
owner_at-IsSound c Owner.waiting t e v = v
owner_at-IsSound c Owner.gone t e v = v
