-- ===== src/Scope/Guarantees.antt =====
-- What a scope guarantees to the owners of its tasks and to the coroutine that joins it.
use macoro.Common.{
  ℕ, ◌+◌, ◌<◌, ◌≤◌, ◌≡◌, ◌⊎◌, sym, subst, Bool, true, false, List, [], ◌∷◌, length, arith,
}
use macoro.Common.Family.{le_tally, tally_pos}
use macoro.Scope.Promise.{CompletionState, ResultType, Runner, Owner}
use macoro.Scope.Defs.{Joiner, join_count, Scope, Reach}
use macoro.Scope.States.{failed, Ok}
use macoro.Scope.Join.{is_counted, is_suspended, reports, Awaited}
use macoro.Scope.Waiting.{Reach-Inv}
use macoro.Scope.Quiet.{QuietIf, Reach-Holds}

abbrev pub is_finished : Runner → Bool
is_finished (Runner.finished e) = true
is_finished _ = false

-- The owner was resumed and has the result, or the scope has the exception if there is one.
abbrev pub Delivered : ResultType → ℕ → List ResultType → ℕ → Type 0
Delivered r m v n = ((m ≡ 1) × (v ≡ r ∷ []) × (n ≡ 0)) ⊎ ((m ≡ 0) × (v ≡ []) × (n ≡ failed r))

bounded :
    (p : Runner) (o : Owner) (c : CompletionState) (k : Bool) (r : ResultType) (d m : ℕ)
    (v : List ResultType) (n : ℕ)
    → Ok p o c k r d m v n
    → (d ≤ 1) × (m ≤ 1) × (length v ≤ m) × (n ≤ failed r)
bounded p o c k r d m v n h = ground arith

-- At every time a frame was destroyed at most once, its owner was resumed at most once and received at
-- most one result, and an exception was reported at most once and only if the task threw; outside the
-- final await_suspend, no frame was used after it was destroyed.
pub used_soundly :
    {s : Scope}
    → Reach s
    → (i : ℕ)
    → ((s.task i).misused ≡ false)
      × ((s.task i).destroyed ≤ 1)
      × ((s.task i).resumed ≤ 1)
      × (length (s.task i).received ≤ (s.task i).resumed)
      × (reports i s ≤ failed (s.task i).result)
used_soundly {s} r i =
    let v = Reach-Inv r in
    let t = s.task i in
    let (d, m, l, n) =
      bounded t.runner t.owner t.completion t.continuation t.result t.destroyed t.resumed t.received
        t.recorded (v.sound i).ok in
    ((v.sound i).well_used, d, m, l, subst (λ n. n ≤ failed t.result) (sym (v.reported i)) n)

abbrev pub is_joined : Joiner → Bool
is_joined Joiner.joined = true
is_joined _ = false

nobody_left :
    (x : Bool) (j : Joiner) (r d t : ℕ) → x ≡ false → is_joined j ≡ true → QuietIf x j r d t → t ≡ 0
nobody_left x j r d t calm e h = ground arith

-- When the coroutine that joins the scope goes on, no task that was added is still counted: each has run
-- its final handshake and left the barrier. This holds as long as no task was added while none was counted
-- during a join, or between the last decrement of the barrier and its test for a coroutine that waits;
-- a task that is counted may always add others.
pub joined_after_all :
    {s : Scope}
    → Reach s
    → s.disturbed ≡ false
    → is_joined s.joiner ≡ true
    → (i : ℕ) → i < s.added
    → is_counted (s.task i) ≡ 0
joined_after_all {s} r calm e i lt =
    let none_left = nobody_left s.disturbed s.joiner s.resumers s.drops _ calm e (Reach-Holds r) in
    omega (arith, none_left, le_tally is_counted s.task s.added i lt)

some_pending :
    (j : Joiner) (k : Bool) (b r : ℕ) → is_suspended j ≡ true → Awaited j k b r → 0 < b + r
some_pending j k b r e h = ground arith

no_own_count : (j : Joiner) → is_suspended j ≡ true → join_count j ≡ 0
no_own_count j e = ground arith

-- While the coroutine that joins the scope is suspended, and no await_suspend is about to decrement and
-- no decrement is about to test for the coroutine, some task that was added is still counted.
pub suspended_while_counted :
    {s : Scope}
    → Reach s
    → is_suspended s.joiner ≡ true
    → s.drops ≡ 0
    → s.resumers ≡ 0
    → (i : ℕ) × (i < s.added) × (0 < is_counted (s.task i))
suspended_while_counted {s} r e d z =
    let v = Reach-Inv r in
    tally_pos is_counted s.task s.added (
      omega (
        arith,
        v.counted,
        d,
        z,
        no_own_count s.joiner e,
        some_pending s.joiner s.continuation s.barrier s.resumers e v.waits,
      ))
