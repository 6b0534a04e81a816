-- ===== src/Scope/States.antt =====
-- The states that a task can be in, by the place of its runner and of its owner, and the moves between
-- them.
use macoro.Common.{ℕ, suc, ◌≡◌, ◌⊎◌, Bool, true, false, List, [], ◌∷◌, arith}
use macoro.Scope.Promise.{
  CompletionState, or_completed, or_continuation, ResultType, Exit, Runner, Owner, Task, decide,
}

abbrev pub failed : ResultType → ℕ
failed ResultType.exception = 1
failed _ = 0

abbrev pub with_failure : ResultType → ℕ → ℕ
with_failure ResultType.exception n = suc n
with_failure _ n = n

-- Nothing was resumed, received, recorded or destroyed.
abbrev Untouched : ℕ → ℕ → List ResultType → ℕ → Type 0
Untouched d m v n = (d ≡ 0) × (m ≡ 0) × (v ≡ []) × (n ≡ 0)

-- Before the task sets its bit.
abbrev Early : Owner → CompletionState → Bool → Type 0
Early Owner.holding c k = c ≡ CompletionState.inprogress
Early Owner.joining c k = (c ≡ CompletionState.inprogress) × (k ≡ true)
Early Owner.dropping c k = (c ≡ CompletionState.inprogress) × (k ≡ false)
Early Owner.waiting c k = (c ≡ CompletionState.has_continuation_or_dropped) × (k ≡ true)
Early Owner.gone c k = (c ≡ CompletionState.has_continuation_or_dropped) × (k ≡ false)
Early _ c k = ⊥

-- The task has set its bit first.
abbrev Late : Owner → CompletionState → ResultType → ℕ → ℕ → List ResultType → ℕ → Type 0
Late Owner.holding c r d m v n = (c ≡ CompletionState.has_completed) × Untouched d m v n
Late Owner.joining c r d m v n = (c ≡ CompletionState.has_completed) × Untouched d m v n
Late Owner.dropping c r d m v n = (c ≡ CompletionState.has_completed) × Untouched d m v n
Late Owner.waiting c r d m v n = ⊥
Late Owner.resuming c r d m v n = (d ≡ 0) × (m ≡ 1) × (v ≡ []) × (n ≡ 0)
Late Owner.consumed c r d m v n = (d ≡ 0) × (m ≡ 1) × (v ≡ r ∷ []) × (n ≡ 0)
Late Owner.settling c r d m v n = Untouched d m v n
Late Owner.destroying c r d m v n = (d ≡ 0) × (m ≡ 0) × (v ≡ []) × (n ≡ failed r)
Late Owner.gone c r d m v n =
    (d ≡ 1) × (((m ≡ 1) × (v ≡ r ∷ []) × (n ≡ 0)) ⊎ ((m ≡ 0) × (v ≡ []) × (n ≡ failed r)))

-- The owner has stored a continuation first.
abbrev Continued : Owner → ResultType → ℕ → ℕ → List ResultType → ℕ → Type 0
Continued Owner.resuming r d m v n = (d ≡ 0) × (m ≡ 1) × (v ≡ []) × (n ≡ 0)
Continued Owner.consumed r d m v n = (d ≡ 0) × (m ≡ 1) × (v ≡ r ∷ []) × (n ≡ 0)
Continued Owner.gone r d m v n = (d ≡ 1) × (m ≡ 1) × (v ≡ r ∷ []) × (n ≡ 0)
Continued _ r d m v n = ⊥

abbrev pub Ok :
    Runner → Owner → CompletionState → Bool → ResultType → ℕ → ℕ → List ResultType → ℕ → Type 0
Ok Runner.running o c k r d m v n = Early o c k × Untouched d m v n
Ok Runner.completing o c k r d m v n = Early o c k × Untouched d m v n
Ok (Runner.deciding CompletionState.inprogress) o c k r d m v n = Late o c r d m v n
Ok (Runner.deciding CompletionState.has_continuation_or_dropped) o c k r d m v n =
    (((o ≡ Owner.waiting) × (k ≡ true)) ⊎ ((o ≡ Owner.gone) × (k ≡ false))) × Untouched d m v n
Ok (Runner.deciding _) o c k r d m v n = ⊥
Ok Runner.recording o c k r d m v n =
    (o ≡ Owner.gone) × (r ≡ ResultType.exception) × Untouched d m v n
Ok (Runner.decrementing Exit.keep) o c k r d m v n = Late o c r d m v n
Ok (Runner.finishing Exit.keep) o c k r d m v n = Late o c r d m v n
Ok (Runner.finished Exit.keep) o c k r d m v n = Late o c r d m v n
Ok (Runner.decrementing Exit.run_continuation) o c k r d m v n =
    (o ≡ Owner.waiting) × Untouched d m v n
Ok (Runner.finishing Exit.run_continuation) o c k r d m v n =
    (o ≡ Owner.waiting) × Untouched d m v n
Ok (Runner.finished Exit.run_continuation) o c k r d m v n = Continued o r d m v n
Ok (Runner.decrementing Exit.destroy) o c k r d m v n =
    (o ≡ Owner.gone) × (d ≡ 0) × (m ≡ 0) × (v ≡ []) × (n ≡ failed r)
Ok (Runner.finishing Exit.destroy) o c k r d m v n =
    (o ≡ Owner.gone) × (d ≡ 0) × (m ≡ 0) × (v ≡ []) × (n ≡ failed r)
Ok (Runner.finished Exit.destroy) o c k r d m v n =
    (o ≡ Owner.gone) × (d ≡ 1) × (m ≡ 0) × (v ≡ []) × (n ≡ failed r)

-- A task whose runner stands at `p` and whose owner at `o`.
abbrev pub Holds : Runner → Owner → Task → Type 0
Holds p o t =
    Ok p o t.completion t.continuation t.result t.destroyed t.resumed t.received t.recorded

module _ (o : Owner) (c : CompletionState) (k : Bool) (r : ResultType) (d m : ℕ)
    (v : List ResultType) (n : ℕ) where
  pub completing_ok :
      Ok Runner.completing o c k r d m v n
      → Ok (Runner.deciding c) o (or_completed c) k r d m v n × (d ≡ 0)
  unfolding or_completed
  completing_ok h = ground arith

  pub deciding_ok :
      Ok (Runner.deciding CompletionState.has_continuation_or_dropped) o c k r d m v n
      → Ok (decide k r) o c k r d m v n × (d ≡ 0)
  unfolding decide
  deciding_ok h = ground arith

  pub recording_ok :
      Ok Runner.recording o c k r d m v n
      → Ok (Runner.decrementing Exit.destroy) o c k r d m v (suc n) × (d ≡ 0)
  recording_ok h = ground arith

  pub decrementing_ok :
      (e : Exit)
      → Ok (Runner.decrementing e) o c k r d m v n
      → Ok (Runner.finishing e) o c k r d m v n
  decrementing_ok e h = ground arith

  pub continuing_ok :
      Ok (Runner.finishing Exit.run_continuation) o c k r d m v n
      → Ok (Runner.finished Exit.run_continuation) Owner.resuming c k r d (suc m) v n × (d ≡ 0)
  continuing_ok h = ground arith

  pub destroying_ok :
      Ok (Runner.finishing Exit.destroy) o c k r d m v n
      → Ok (Runner.finished Exit.destroy) o c k r (suc d) m v n × (d ≡ 0)
  destroying_ok h = ground arith

  -- What the owner does, wherever the runner stands.
  pub choosing_ok :
      (p : Runner)
      → Ok p Owner.holding c k r d m v n
      → Ok p Owner.joining c true r d m v n × Ok p Owner.dropping c false r d m v n × (d ≡ 0)
  choosing_ok p h = ground arith

  pub resuming_ok :
      (p : Runner)
      → Ok p Owner.resuming c k r d m v n
      → Ok p Owner.consumed c k r d m (r ∷ v) n × (d ≡ 0)
  resuming_ok p h = ground arith

  pub consumed_ok :
      (p : Runner)
      → Ok p Owner.consumed c k r d m v n
      → Ok p Owner.gone c k r (suc d) m v n × (d ≡ 0)
  consumed_ok p h = ground arith

  pub destroyed_ok :
      (p : Runner)
      → Ok p Owner.destroying c k r d m v n
      → Ok p Owner.gone c k r (suc d) m v n × (d ≡ 0)
  destroyed_ok p h = ground arith

  pub settling_ok :
      (p : Runner)
      → Ok p Owner.settling c k r d m v n
      → Ok p Owner.destroying c k r d m v (with_failure r n) × (d ≡ 0)
  settling_ok p h = ground arith

  abbrev pub AfterJoin : Runner → CompletionState → Type 0
  AfterJoin p CompletionState.has_completed =
      Ok p Owner.resuming CompletionState.both_bits k r d (suc m) v n
  AfterJoin p x = Ok p Owner.waiting (or_continuation x) k r d m v n

  pub joining_ok : (p : Runner) → Ok p Owner.joining c k r d m v n → AfterJoin p c × (d ≡ 0)
  unfolding or_continuation
  joining_ok p h = ground arith

  abbrev pub AfterDrop : Runner → CompletionState → Type 0
  AfterDrop p CompletionState.has_completed =
      Ok p Owner.settling CompletionState.both_bits k r d m v n
  AfterDrop p x = Ok p Owner.gone (or_continuation x) k r d m v n

  pub dropping_ok : (p : Runner) → Ok p Owner.dropping c k r d m v n → AfterDrop p c × (d ≡ 0)
  unfolding or_continuation
  dropping_ok p h = ground arith
