-- ===== src/Sequence/Mpsc/Reacquire.antt =====
-- macoro/sequence_mpsc.h: how `resume_ready_awaiters` and `add_awaiter` split the list of awaiters that
-- they have acquired. `target j` is m_targetSequence of operation `j`.
use macoro.Common.{
  ℕ, ◌≡◌, ◌↔◌, refl, sym, ap, ◌∙◌, Bool, true, false, if◌then◌else◌, List, [], ◌∷◌, All,
}
use macoro.Common.Int.{is_positive}
use macoro.Sequence.Traits.{difference, precedes, InSpan, precedes-eq-ltb, is_positive-difference}

-- The awaiters to enqueue again and those to resume, by the target of the caller.
unfoldable pub reacquire : ℕ → ℕ → List ℕ → List ℕ × List ℕ
reacquire caller_target known [] = ([], [])
reacquire caller_target known (j ∷ js) =
    let (enqueue, resume) = reacquire caller_target known js in
    if is_positive (difference caller_target known)
    then (j ∷ enqueue, resume)
    else (enqueue, j ∷ resume)

reacquire_all :
    (t known : ℕ) (js : List ℕ)
    → is_positive (difference t known) ≡ false
    → reacquire t known js ≡ ([], js)
unfolding reacquire
reacquire_all t known [] e = refl
reacquire_all t known (j ∷ js) e = rw (e, reacquire_all t known js e) refl

abbrev put : Bool → ℕ → List ℕ × List ℕ → List ℕ × List ℕ
put b j r = if b then (j ∷ r.0, r.1) else (r.0, j ∷ r.1)

picked : (b : Bool) (j : ℕ) (r : List ℕ × List ℕ) → (put b j r).0 ≡ [] → (b ≡ false) × (r.0 ≡ [])
picked true j r e = absurd (cc e)
picked false j r e = (refl, e)

module _ (target : ℕ → ℕ) where
  -- The awaiters to requeue and those to resume, by the target of each.
  unfoldable pub split_ready : ℕ → List ℕ → List ℕ × List ℕ
  split_ready known [] = ([], [])
  split_ready known (j ∷ js) =
      let (requeue, resume) = split_ready known js in
      if is_positive (difference (target j) known)
      then (j ∷ requeue, resume)
      else (requeue, j ∷ resume)

  abbrev pub IsReady : ℕ → ℕ → Type 0
  IsReady known j = is_positive (difference (target j) known) ≡ false

  split_ready-All :
      (known : ℕ) (js : List ℕ) → All (IsReady known) js → split_ready known js ≡ ([], js)
  unfolding split_ready
  split_ready-All known [] h = refl
  split_ready-All known (j ∷ js) (e, h) = rw (e, split_ready-All known js h) refl

  All-IsReady : (known : ℕ) (js : List ℕ) → (split_ready known js).0 ≡ [] → All (IsReady known) js
  unfolding split_ready
  All-IsReady known [] h = tt
  All-IsReady known (j ∷ js) h =
      let (e, rest) =
        picked (is_positive (difference (target j) known)) j (split_ready known js) h in
      (e, All-IsReady known js rest)

  -- When the number that `add_awaiter` waits for is published, it resumes every operation that it
  -- acquires: it splits the list as `resume_ready_awaiters` does exactly when the target of each of
  -- them is reached.
  pub reacquire-eq-split_ready :
      (base t known : ℕ) (js : List ℕ)
      → InSpan base t
      → InSpan base known
      → precedes known t ≡ false
      → (reacquire t known js ≡ ([], js))
        × ((reacquire t known js ≡ split_ready known js) ↔ All (IsReady known) js)
  reacquire-eq-split_ready base t known js p q e =
      let reached : is_positive (difference t known) ≡ false =
        is_positive-difference base t known p q ∙ sym (precedes-eq-ltb base known t q p) ∙ e in
      let all = reacquire_all t known js reached in
      (
        all,
        (
          λ h. All-IsReady known js (ap (λ x. x.0) (sym h ∙ all)),
          λ h. all ∙ sym (split_ready-All known js h),
        ),
      )
