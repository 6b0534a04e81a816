-- ===== src/Sequence/Barrier/Split.antt =====
-- The two loops that split the acquired awaiters: they lose none, and put each on the right list.
use macoro.Common.{
  ℕ, ◌+◌, ◌<◌, ◌≤◌, ◌≡◌, true, false, ltb, if◌then◌else◌, List, [], ◌∷◌, ◌++◌, arith, All,
  All-append, All-mono, ltb→lt, ltb-false, sym, ◌∙◌, ◌-◌, count, count-append, Bool-cases, inl, inr,
  refl,
}
use macoro.Common.Word.{half_mod}
use macoro.Common.Int.{ℤ, pos, is_positive, lt_int}
use macoro.Sequence.Traits.{
  difference, precedes, offset, InSpan, precedes-eq-ltb, difference-eq-pos, is_positive-difference,
}
use macoro.Sequence.Barrier.Defs.{split_published, split_known}

-- The operation's target lies behind `seq`, or `seq` has reached it.
abbrev pub IsAfter : (ℕ → ℕ) → ℕ → ℕ → ℕ → Type 0
IsAfter target base seq j = offset base seq < offset base (target j)

abbrev pub IsReached : (ℕ → ℕ) → ℕ → ℕ → ℕ → Type 0
IsReached target base seq j = offset base (target j) ≤ offset base seq

module _ (target : ℕ → ℕ) where
  pub split_published-count :
      (i seq : ℕ) (js q r : List ℕ)
      → count i (split_published target seq js q r).to_requeue
          + count i (split_published target seq js q r).to_resume
        ≡ count i q + count i r + count i js
  unfolding split_published
  split_published-count i seq [] q r = omega arith
  split_published-count i seq (j ∷ js) q r = ground (
    arith,
    split_published-count i seq js (q ++ j ∷ []) r,
    split_published-count i seq js q (r ++ j ∷ []),
    count-append i q (j ∷ []),
    count-append i r (j ∷ []),
  )

  pub split_known-count :
      (i known : ℕ) (js q r : List ℕ) (m : ℤ)
      → count i (split_known target known js q r m).to_requeue
          + count i (split_known target known js q r m).to_resume
        ≡ count i q + count i r + count i js
  unfolding split_known
  split_known-count i known [] q r m = omega arith
  split_known-count i known (j ∷ js) q r m =
      elim (Bool-cases (is_positive (difference (target j) known))) [
        | inl e ↦
            rw (e, split_known)
              (omega
                (arith, split_known-count i known js (q ++ j ∷ []) r _, count-append i q (j ∷ [])))
        | inr e ↦
            rw (e, split_known)
              (omega
                (arith, split_known-count i known js q (r ++ j ∷ []) m, count-append i r (j ∷ [])))
      ]

  module _ (base : ℕ) (spans : (j : ℕ) → InSpan base (target j)) where
    IsAfter-of_precedes :
        (seq j : ℕ) → InSpan base seq → precedes seq (target j) ≡ true → IsAfter target base seq j
    IsAfter-of_precedes seq j h e =
        ltb→lt _ _ (sym (precedes-eq-ltb base seq (target j) h (spans j)) ∙ e)

    IsReached-of_precedes :
        (seq j : ℕ)
        → InSpan base seq
        → precedes seq (target j) ≡ false
        → IsReached target base seq j
    IsReached-of_precedes seq j h e =
        ltb-false _ _ (sym (precedes-eq-ltb base seq (target j) h (spans j)) ∙ e)

    pub split_published-All :
        (seq : ℕ) (js q r : List ℕ)
        → InSpan base seq
        → All (IsAfter target base seq) q
        → All (IsReached target base seq) r
        → All (IsAfter target base seq) (split_published target seq js q r).to_requeue
          × All (IsReached target base seq) (split_published target seq js q r).to_resume
    unfolding split_published
    split_published-All seq [] q r h p t = (p, t)
    split_published-All seq (j ∷ js) q r h p t = elim (Bool-cases (precedes seq (target j))) [
      | inl e ↦
          rw (e, split_published)
            (split_published-All seq js (q ++ j ∷ []) r h
              (All-append _ q (j ∷ []) p (IsAfter-of_precedes seq j h e, tt)) t)
      | inr e ↦
          rw (e, split_published)
            (split_published-All seq js q (r ++ j ∷ []) h p
              (All-append _ r (j ∷ []) t (IsReached-of_precedes seq j h e, tt)))
    ]

    -- What the split for `known` yields: the least difference bounds every target that is requeued.
    abbrev pub IsLeast : ℕ → List ℕ → ℤ → Type 0
    IsLeast known q m =
        (d : ℕ) × (m ≡ pos d)
        × (d < half_mod)
        × All (λ j. offset base known + d ≤ offset base (target j)) q

    lower :
        (known d d' : ℕ) (q : List ℕ)
        → d' ≤ d
        → All (λ j. offset base known + d ≤ offset base (target j)) q
        → All (λ j. offset base known + d' ≤ offset base (target j)) q
    lower known d d' q h = All-mono q (λ j p. omega arith)

    IsLeast-step :
        (known j : ℕ) (q : List ℕ) (m : ℤ)
        → InSpan base known
        → offset base known < offset base (target j)
        → IsLeast known q m
        → IsLeast known
            (q ++ j ∷ [])
            (if lt_int (difference (target j) known) m then difference (target j) known else m)
    IsLeast-step known j q m h lt (d, e, b, p) =
        let here = difference-eq-pos base (target j) known (spans j) h (omega arith) in
        let new : ℕ = offset base (target j) - offset base known in
        elim (Bool-cases (ltb new d)) [
          | inl less ↦
              rw (here, e, less)
                (
                  new,
                  refl,
                  omega (arith, (spans j).1),
                  All-append _ q (j ∷ []) (lower known d new q (omega (arith, ltb→lt new d less)) p)
                      (omega arith, tt),
                )
          | inr more ↦
              rw (here, e, more)
                (d, refl, b, All-append _ q (j ∷ []) p (omega (arith, ltb-false new d more), tt))
        ]

    pub split_known-All :
        (known : ℕ) (js q r : List ℕ) (m : ℤ)
        → InSpan base known
        → IsLeast known q m
        → All (IsReached target base known) r
        → IsLeast known
            (split_known target known js q r m).to_requeue
            (split_known target known js q r m).min_diff
          × All (IsReached target base known) (split_known target known js q r m).to_resume
    unfolding split_known
    split_known-All known [] q r m h p t = (p, t)
    split_known-All known (j ∷ js) q r m h p t =
        let sign = is_positive-difference base (target j) known (spans j) h in
        elim (Bool-cases (is_positive (difference (target j) known))) [
          | inl e ↦
              rw (e, split_known)
                (split_known-All known js (q ++ j ∷ []) r _ h
                  (IsLeast-step known j q m h (ltb→lt _ _ (sym sign ∙ e)) p) t)
          | inr e ↦
              rw (e, split_known)
                (split_known-All known js q (r ++ j ∷ []) m h p
                  (All-append _ r (j ∷ []) t (ltb-false _ _ (sym sign ∙ e), tt)))
        ]
