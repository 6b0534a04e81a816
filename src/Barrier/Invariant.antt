-- ===== src/Barrier/Invariant.antt =====
-- The count against the threads that have not decremented it, and who resumes the coroutine.
use macoro.Common.{
  ℕ, suc, ◌+◌, ◌<◌, ◌≤◌, ◌≡◌, ◌⊎◌, inl, inr, refl, sym, ap, ◌∙◌, ==_iff, subst, Bool-cases, Bool,
  true, false, ◌==◌, arith,
}
use macoro.Common.Family.{update, tally, tally-update, tally-eq-zero, tally_constant}
use macoro.Barrier.Defs.{
  Holder, Waiter, System, init, resume_continuation, decrement_at, suspend_at, Step, Reach,
}

abbrev pub holds : Holder → ℕ
holds Holder.holding = 1
holds _ = 0

abbrev pub tests : Holder → ℕ
tests Holder.testing = 1
tests _ = 0

-- The count that `await_suspend` itself holds.
abbrev own_count : Waiter → ℕ
own_count Waiter.storing = 1
own_count (Waiter.leaving kept) = 1
own_count _ = 0

-- `h` threads hold the count and `t` are before the test of the continuation, which is stored and
-- still to be resumed, or was resumed.
abbrev Settled : Bool → ℕ → ℕ → ℕ → Type 0
Settled continuation resumed h t =
    ((continuation ≡ true) × (resumed ≡ 0) × (((0 < h) × (t ≡ 0)) ⊎ ((h ≡ 0) × (t ≡ 1))))
    ⊎ ((continuation ≡ false) × (resumed ≡ 1) × (h ≡ 0))

abbrev Ok : Waiter → Bool → ℕ → ℕ → ℕ → Type 0
Ok Waiter.unstarted k r h t = (k ≡ false) × (r ≡ 0) × (0 < h → t ≡ 0)
Ok Waiter.storing k r h t = (k ≡ false) × (r ≡ 0) × (t ≡ 0)
Ok (Waiter.leaving true) k r h t = (k ≡ true) × (r ≡ 0) × (t ≡ 0)
Ok (Waiter.checking true) k r h t = (k ≡ true) × (r ≡ 0) × (t ≡ 0) × (h ≡ 0)
Ok (Waiter.returning true) k r h t = Settled k r h t
Ok Waiter.gone k r h t = Settled k r h t
Ok _ k r h t = (k ≡ false) × (r ≡ 0) × (h ≡ 0)

-- The decrement that takes the count to zero, another one, and the test of the continuation.
last_decrement :
    (w : Waiter) (k : Bool) (r h t h' t' : ℕ)
    → h + own_count w ≡ 1
    → 1 + h' ≡ h
    → t' ≡ 1 + t
    → Ok w k r h t
    → Ok w k r h' t'
last_decrement w k r h t h' t' c d f v = ground arith

other_decrement :
    (w : Waiter) (k : Bool) (r h t h' t' : ℕ)
    → (h + own_count w == 1) ≡ false
    → 1 + h' ≡ h
    → t' ≡ t
    → Ok w k r h t
    → Ok w k r h' t'
other_decrement w k r h t h' t' c d f v = ground arith

tested_true : (w : Waiter) (r h t t' : ℕ) → t ≡ 1 + t' → Ok w true r h t → Ok w false (suc r) h t'
tested_true w r h t t' f v = ground arith

tested_false : (w : Waiter) (r h t t' : ℕ) → t ≡ 1 + t' → Ok w false r h t → Ok w false r h t'
tested_false w r h t t' f v = ground arith

module _ (n : ℕ) where
  abbrev pub held : System → ℕ
  held s = tally holds s.holder n

  abbrev pub tested : System → ℕ
  tested s = tally tests s.holder n

  pub record Inv (s : System) : Type 0 where
    counted : s.count ≡ held s + own_count s.waiter
    ok : Ok s.waiter s.continuation s.resumed (held s) (tested s)

  suspend-Inv : (w : Waiter) (s : System) → s.waiter ≡ w → Inv s → Inv (suspend_at w s)
  unfolding suspend_at resume_continuation
  suspend-Inv Waiter.unstarted s e v =
      let h : Ok Waiter.unstarted s.continuation s.resumed (held s) (tested s) =
        subst (λ x. Ok x s.continuation s.resumed (held s) (tested s)) e v.ok in
      let c : s.count ≡ held s + own_count Waiter.unstarted =
        subst (λ x. s.count ≡ held s + own_count x) e v.counted in
      record { counted = ground (arith, h, c); ok = ground (arith, h, c) }
  suspend-Inv Waiter.storing s e v =
      let h : Ok Waiter.storing s.continuation s.resumed (held s) (tested s) =
        subst (λ x. Ok x s.continuation s.resumed (held s) (tested s)) e v.ok in
      let c : s.count ≡ held s + own_count Waiter.storing =
        subst (λ x. s.count ≡ held s + own_count x) e v.counted in
      record { counted = ground (arith, h, c); ok = ground (arith, h, c) }
  suspend-Inv (Waiter.leaving kept) s e v =
      let h : Ok (Waiter.leaving kept) s.continuation s.resumed (held s) (tested s) =
        subst (λ x. Ok x s.continuation s.resumed (held s) (tested s)) e v.ok in
      let c : s.count ≡ held s + own_count (Waiter.leaving kept) =
        subst (λ x. s.count ≡ held s + own_count x) e v.counted in
      record { counted = ground (arith, h, c); ok = ground (arith, h, c) }
  suspend-Inv (Waiter.checking kept) s e v =
      let h : Ok (Waiter.checking kept) s.continuation s.resumed (held s) (tested s) =
        subst (λ x. Ok x s.continuation s.resumed (held s) (tested s)) e v.ok in
      let c : s.count ≡ held s + own_count (Waiter.checking kept) =
        subst (λ x. s.count ≡ held s + own_count x) e v.counted in
      record { counted = ground (arith, h, c); ok = ground (arith, h, c) }
  suspend-Inv (Waiter.returning kept) s e v =
      let h : Ok (Waiter.returning kept) s.continuation s.resumed (held s) (tested s) =
        subst (λ x. Ok x s.continuation s.resumed (held s) (tested s)) e v.ok in
      let c : s.count ≡ held s + own_count (Waiter.returning kept) =
        subst (λ x. s.count ≡ held s + own_count x) e v.counted in
      record { counted = ground (arith, h, c); ok = ground (arith, h, c) }
  suspend-Inv Waiter.gone s e v = v

  decrement-Inv :
      (i : ℕ)
      → i < n
      → (p : Holder) (s : System) → s.holder i ≡ p
      → Inv s
      → Inv (decrement_at p i s)
  unfolding decrement_at resume_continuation
  decrement-Inv i lt Holder.holding s e v =
      let was_held : holds (s.holder i) ≡ 1 = ap holds e in
      let was_tested : tests (s.holder i) ≡ 0 = ap tests e in
      elim (Bool-cases (s.count == 1)) [
        | inl last ↦
            let fewer = tally-update holds s.holder i Holder.testing n lt in
            let more = tally-update tests s.holder i Holder.testing n lt in
            rw last record {
              counted = omega (arith, fewer, was_held, v.counted);
              ok =
                  last_decrement s.waiter _ _ (held s) (tested s) _ _
                    (sym v.counted ∙ (==_iff s.count 1).0 last) (omega (arith, fewer, was_held))
                    (omega (arith, more, was_tested)) v.ok;
            }
        | inr other ↦
            let fewer = tally-update holds s.holder i Holder.finished n lt in
            let same = tally-update tests s.holder i Holder.finished n lt in
            rw other record {
              counted = omega (arith, fewer, was_held, v.counted);
              ok =
                  other_decrement s.waiter _ _ (held s) (tested s) _ _
                    (subst (λ x. (x == 1) ≡ false) v.counted other) (omega (arith, fewer, was_held))
                    (omega (arith, same, was_tested)) v.ok;
            }
      ]
  decrement-Inv i lt Holder.testing s e v =
      let was_held : holds (s.holder i) ≡ 0 = ap holds e in
      let was_tested : tests (s.holder i) ≡ 1 = ap tests e in
      let same = tally-update holds s.holder i Holder.finished n lt in
      let fewer = tally-update tests s.holder i Holder.finished n lt in
      let kept : tally holds (update s.holder i Holder.finished) n ≡ held s =
        omega (arith, same, was_held) in
      let gone : tested s ≡ 1 + tally tests (update s.holder i Holder.finished) n =
        omega (arith, fewer, was_tested) in
      elim (Bool-cases s.continuation) [
        | inl stored ↦ rw stored record {
          counted = omega (arith, kept, v.counted);
          ok = rw kept (
              tested_true s.waiter _ (held s) (tested s) _ gone
                (subst (λ x. Ok s.waiter x s.resumed (held s) (tested s)) stored v.ok));
        }
        | inr none ↦ rw none record {
          counted = omega (arith, kept, v.counted);
          ok = rw kept (
              tested_false s.waiter _ (held s) (tested s) _ gone
                (subst (λ x. Ok s.waiter x s.resumed (held s) (tested s)) none v.ok));
        }
      ]
  decrement-Inv i lt Holder.finished s e v = v

  init-Inv : Inv (init n)
  unfolding init
  init-Inv =
      let all = tally_constant holds (init n).holder (λ j. refl) n in
      let none = tally-eq-zero tests (init n).holder (λ j. refl) n in
      record { counted = omega (arith, all); ok = (refl, refl, λ lt. none) }

  pub Reach-Inv : {s : System} → Reach n s → Inv s
  Reach-Inv Reach.here = init-Inv
  Reach-Inv (Reach.next {s = s} r (Step.decrement i lt)) =
      decrement-Inv i lt (s.holder i) s refl (Reach-Inv r)
  Reach-Inv (Reach.next {s = s} r Step.suspend) = suspend-Inv s.waiter s refl (Reach-Inv r)

  once : (w : Waiter) (k : Bool) (r h t : ℕ) → Ok w k r h t → (r ≤ 1) × (r ≡ 1 → h ≡ 0)
  once w k r h t v = ground arith

  ended : (k : Bool) (r h t : ℕ) → h ≡ 0 → t ≡ 0 → Settled k r h t → r ≡ 1
  ended k r h t e f v = ground arith

  -- The waiting coroutine goes on at most once, and only when every holder has decremented the
  -- count; it has gone on once `await_suspend` has returned and every holder's `decrement` has.
  pub resumed_with_last :
      {s : System}
      → Reach n s
      → (s.resumed ≤ 1)
        × (s.resumed ≡ 1 → held s ≡ 0)
        × (s.waiter ≡ Waiter.gone → held s ≡ 0 → tested s ≡ 0 → s.resumed ≡ 1)
  resumed_with_last {s} r =
      let v = (Reach-Inv r).ok in
      let (at_most, last) = once s.waiter s.continuation s.resumed (held s) (tested s) v in
      (
        at_most,
        last,
        λ e f g.
            ended s.continuation s.resumed (held s) (tested s) f g
              (subst (λ w. Ok w s.continuation s.resumed (held s) (tested s)) e v),
      )
