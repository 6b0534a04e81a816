-- ===== src/EagerTask/Guarantees.antt =====
-- The awaiting coroutine goes on exactly once, and with a result, unless the end of the task has used
-- a destroyed frame.
use macoro.Common.{ℕ, ◌≤◌, ◌≡◌, ◌⊎◌, inl, inr, refl, sym, ◌∙◌, Bool, true, false, arith}
use mathlib.Core.Bool.{false≢true}
use macoro.EagerTask.Defs.{
  EagerRunner, Awaiter, Eager, start_eager, is_done, finish_at, awaiter_at, Step, Reach,
}

-- Before the task has exchanged the flag.
abbrev Open : Awaiter → Bool → Bool → ℕ → Type 0
Open Awaiter.fresh f k r = (f ≡ false) × (r ≡ 0)
Open Awaiter.storing f k r = (f ≡ false) × (r ≡ 0)
Open Awaiter.exchanging f k r = (f ≡ false) × (k ≡ true) × (r ≡ 0)
Open Awaiter.waiting f k r = (f ≡ true) × (k ≡ true) × (r ≡ 0)
Open _ f k r = ⊥

abbrev pub has_gone_on : Awaiter → Bool
has_gone_on Awaiter.went_on = true
has_gone_on Awaiter.consumed = true
has_gone_on Awaiter.gone = true
has_gone_on _ = false

abbrev Done : Awaiter → Bool → Bool → ℕ → Type 0
Done Awaiter.fresh f k r = (f ≡ true) × (r ≡ 0)
Done Awaiter.storing f k r = (f ≡ true) × (r ≡ 0)
Done Awaiter.exchanging f k r = (f ≡ true) × (r ≡ 0)
Done Awaiter.waiting f k r = ⊥
Done _ f k r = r ≡ 1

abbrev Ok : EagerRunner → Awaiter → Bool → Bool → Bool → ℕ → Type 0
Ok EagerRunner.running a f k h r = Open a f k r
Ok EagerRunner.returned a f k h r =
    (h ≡ true) × (Open a f k r ⊎ ((has_gone_on a ≡ true) × (f ≡ false) × (r ≡ 1)))
Ok EagerRunner.continuing a f k h r = (h ≡ true) × (a ≡ Awaiter.waiting) × (k ≡ true) × (r ≡ 0)
Ok EagerRunner.finished a f k h r = (h ≡ true) × Done a f k r

-- What holds of every state that is reached.
abbrev Holds : EagerRunner → Awaiter → Eager → Type 0
Holds p a t =
    (t.late ≡ true)
    ⊎ (Ok p a t.flag t.continuation t.has_result t.resumed
        × (t.destroyed ≡ true → a ≡ Awaiter.gone)
        × (t.null_resumed ≡ false)
        × (t.empty_read ≡ false))

finish_at-Holds :
    (stray : Bool) (p : EagerRunner) (a : Awaiter) (f k h d l n e : Bool) (r : ℕ)
    → let t : Eager = record {
      flag = f;
      continuation = k;
      has_result = h;
      runner = p;
      awaiter = a;
      resumed = r;
      destroyed = d;
      late = l;
      null_resumed = n;
      empty_read = e;
    } in
      Holds p a t
      → Holds (finish_at stray p t).runner (finish_at stray p t).awaiter (finish_at stray p t)
unfolding finish_at
finish_at-Holds stray p a f k h d l n e r v = ground arith

awaiter_at-Holds :
    (p : EagerRunner) (a : Awaiter) (f k h d l n e : Bool) (r : ℕ)
    → let t : Eager = record {
      flag = f;
      continuation = k;
      has_result = h;
      runner = p;
      awaiter = a;
      resumed = r;
      destroyed = d;
      late = l;
      null_resumed = n;
      empty_read = e;
    } in
      Holds p a t → Holds (awaiter_at a t).runner (awaiter_at a t).awaiter (awaiter_at a t)
unfolding awaiter_at is_done
awaiter_at-Holds p a f k h d l n e r v = ground arith

Reach-Holds : {t : Eager} → Reach t → Holds t.runner t.awaiter t
unfolding start_eager
Reach-Holds Reach.here = inr ((refl, refl), (λ e. absurd (false≢true e)), refl, refl)
Reach-Holds (Reach.next {t = t} q (Step.finish_step stray)) =
    finish_at-Holds stray t.runner t.awaiter t.flag t.continuation t.has_result t.destroyed t.late
      t.null_resumed t.empty_read t.resumed (Reach-Holds q)
Reach-Holds (Reach.next {t = t} q Step.await_step) =
    awaiter_at-Holds t.runner t.awaiter t.flag t.continuation t.has_result t.destroyed t.late
      t.null_resumed t.empty_read t.resumed (Reach-Holds q)

abbrev pub is_over : EagerRunner → Bool
is_over EagerRunner.finished = true
is_over _ = false

abbrev pub is_waiting : Awaiter → Bool
is_waiting Awaiter.waiting = true
is_waiting _ = false

summary :
    (p : EagerRunner) (a : Awaiter) (f k h : Bool) (r : ℕ)
    → Ok p a f k h r
    → (r ≤ 1) × (r ≡ 1 → h ≡ true) × (is_over p ≡ true → is_waiting a ≡ false)
summary p a f k h r v = ground arith

-- As long as the end of an eager task has not used a destroyed frame, the coroutine that awaits it goes
-- on at most once, and only when the task has a result; when the task has run its final await_suspend,
-- the coroutine does not wait any more. No null handle is resumed, and no result is read that is not
-- there.
pub resumed_with_result :
    {t : Eager}
    → Reach t
    → t.late ≡ false
    → (t.resumed ≤ 1)
      × (t.resumed ≡ 1 → t.has_result ≡ true)
      × (is_over t.runner ≡ true → is_waiting t.awaiter ≡ false)
      × (t.null_resumed ≡ false)
      × (t.empty_read ≡ false)
resumed_with_result {t} q sound = elim (Reach-Holds q) [
  | inl late ↦ absurd (false≢true (sym sound ∙ late))
  | inr (ok, _, null, empty) ↦
      let (once, set, over) =
        summary t.runner t.awaiter t.flag t.continuation t.has_result t.resumed ok in
      (once, set, over, null, empty)
]
