-- ===== src/Sequence/Barrier/Delivery.antt =====
-- What the barrier promises to the coroutines that wait on it, in every interleaving.
use macoro.Common.{
  ℕ, ◌+◌, ◌<◌, ◌≤◌, ◌≡◌, ◌⊎◌, inl, inr, Bool, true, false, arith, refl, sym, ◌∙◌, subst, count,
  All-count, ap, ◌==◌, ==_iff, Bool-cases, le→ltb,
}
use macoro.Common.Family.{tally-eq-zero}
use macoro.Sequence.Traits.{precedes, InSpan, precedes-eq-ltb}
use macoro.Sequence.Barrier.Defs.{System, Producer, Pc, Reach}
use macoro.Sequence.Barrier.Counts.{held, held_producer, places, bit, Phase, Reach-Counts}
use macoro.Sequence.Barrier.Wakeup.{watch_pc, watch_producer, watchers, Reach-Watched}
use macoro.Sequence.Barrier.Told.{IsDelivered, Reach-Told}

-- No call of `publish` or `await_suspend` is under way.
pub data IsQuiet : Pc → Type 0 where
  not_started : IsQuiet Pc.start
  has_returned : IsQuiet Pc.returned

pub record Quiescent (s : System) : Type 0 where
  pub producer_idle : s.producer ≡ Producer.idle
  pub all_quiet : (i : ℕ) → IsQuiet (s.pc i)

quiet-held : (i : ℕ) {p : Pc} → IsQuiet p → held i p ≡ 0
quiet-held i not_started = refl
quiet-held i has_returned = refl

quiet-watch : (last : ℕ) {p : Pc} → IsQuiet p → watch_pc last p ≡ 0
quiet-watch last not_started = refl
quiet-watch last has_returned = refl

module _ (target : ℕ → ℕ) (base n initial : ℕ) where
  -- A coroutine goes on at most once behind its `co_await`, and until then its operation is in
  -- exactly one place, from its start on.
  pub continued_at_most_once :
      {s : System}
      → Reach target base n initial s
      → (i : ℕ) → (s.waits.continued i ≤ 1) × (places n i s + s.waits.continued i ≤ 1)
  continued_at_most_once {s} r i =
      phase_bounds (s.pc i) _ _ _ (Reach-Counts target n base initial s r i)
    where
      phase_bounds : (p : Pc) (k c : ℕ) (ready : Bool) → Phase p k ready c → (c ≤ 1) × (k + c ≤ 1)
      phase_bounds p k c ready h = ground arith

  module _ (spans : (j : ℕ) → InSpan base (target j)) (start : InSpan base initial) where
    -- No wake-up is lost: when no call is under way, an operation behind `await_suspend` whose
    -- coroutine did not go on waits for a number that is not published yet.
    pub no_lost_wakeup :
        {s : System}
        → Reach target base n initial s
        → Quiescent s
        → (i : ℕ) → s.pc i ≡ Pc.returned
        → ((s.waits.continued i ≡ 1)
            × (precedes (s.waits.last_known_published i) (target i) ≡ false))
          ⊎ ((s.waits.continued i ≡ 0) × (precedes s.last_published (target i) ≡ true))
    no_lost_wakeup {s} r quiet i e = elim (Bool-cases (s.waits.continued i == 1)) [
      | inl went_on ↦
          let one = (==_iff _ _).0 went_on in
          let told = Reach-Told target base spans n initial s start r i (
            subst (λ p. IsDelivered p (s.waits.ready_to_resume i) (s.waits.continued i)) (sym e)
              one) in
          inl (one, precedes-eq-ltb base _ _ told.1 (spans i) ∙ le→ltb _ _ told.0)
      | inr waits ↦ inr (ground (arith, phase), still_ahead (ground (arith, phase, queued)))
    ]
      where
        phase :
            (s.waits.continued i + places n i s ≡ 1)
            × (places n i s ≤ bit (s.waits.ready_to_resume i))
        phase =
            subst (λ p. Phase p (places n i s) (s.waits.ready_to_resume i) (s.waits.continued i)) e
              (Reach-Counts target n base initial s r i)

        queued : places n i s ≡ count i s.awaiters
        queued = omega (
          arith,
          ap (held_producer i) quiet.producer_idle,
          tally-eq-zero (held i) s.pc (λ j. quiet-held i (quiet.all_quiet j)) n,
        )

        nobody : watchers n s ≡ 0
        nobody = omega (
          arith,
          ap watch_producer quiet.producer_idle,
          tally-eq-zero (watch_pc s.last_published) s.pc
              (λ j. quiet-watch s.last_published (quiet.all_quiet j)) n,
        )

        still_ahead : 0 < count i s.awaiters → precedes s.last_published (target i) ≡ true
        still_ahead stands = elim (Bool-cases (precedes s.last_published (target i))) [
          | inl ahead ↦ ahead
          | inr now ↦ absurd (
              omega (
                arith,
                nobody,
                All-count _ i s.awaiters (Reach-Watched target n base spans initial s start r)
                    stands now,
              ))
        ]
