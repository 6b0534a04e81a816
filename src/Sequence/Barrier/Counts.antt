-- ===== src/Sequence/Barrier/Counts.antt =====
-- Every step keeps the places of the operations.
mod Moves
pub use Moves.{held, held_producer, places, bit, Phase, Counts, IsBusy, add_requeue-IsBusy}
use Moves.{keep, resumed, stepped, same_phases, places-after, after, init-Counts, add_requeue-held}
use macoro.Common.{
  ℕ, suc, ◌+◌, ◌<◌, ◌≤◌, ◌≡◌, Bool, true, false, if◌then◌else◌, List, [], ◌∷◌, ◌++◌, arith, ◌==◌,
  Bool-cases, inl, inr, refl, sym, ap, ◌∙◌, subst, count, count-append, ==_iff, ==_refl, if_ind,
}
use macoro.Common.Family.{update, tally, tally-update, tally-eq-zero}
use macoro.Common.Int.{ℤ}
use macoro.Sequence.Traits.{precedes}
use macoro.Sequence.Wait.{Waits, resume, finish_suspend, set_known, continue_op, await_ready, fresh}
use macoro.Sequence.Barrier.Defs.{
  System, Producer, Pc, init, at, set_awaiters, max_diff, publish_at, publish_store, publish_seen,
  publish_acquired, publish_requeue, after_split, await_at, add_acquired, add_requeue, Step, Reach,
  split_known, split_published, resume_with,
}
use macoro.Sequence.Barrier.Split.{split_published-count, split_known-count}

module _ (target : ℕ → ℕ) (n : ℕ) where
  await_at-Counts :
      (s : System) (i : ℕ) (p : Pc)
      → i < n
      → s.pc i ≡ p
      → Counts n s
      → Counts n (await_at target p i s)
  unfolding await_at add_acquired
  await_at-Counts s i Pc.start lt e v =
      if_ind (Counts n) (await_ready s.last_published (target i)) _ _
        (λ _.
          stepped n s (continue_op told i) i Pc.start Pc.returned lt e (λ k d h. ground arith)
            (λ j other. ground arith) v)
        (λ _.
          stepped n s told i Pc.start (Pc.enqueue (target i) (i ∷ []) []) lt e
            (λ k d h. ground arith) (λ j other. ground arith) v)
    where
      told : Waits
      told = set_known s.waits i s.last_published
  await_at-Counts s i (Pc.enqueue t q r) lt e v =
      keep n s (q ++ s.awaiters) i (Pc.enqueue t q r) (Pc.enqueued t r) lt e tt tt
        (λ j. omega (arith, count-append j q s.awaiters)) v
  await_at-Counts s i (Pc.enqueued t r) lt e v =
      if_ind (λ p. Counts n (at s i p)) (precedes s.last_published t)
        (Pc.resuming s.last_published r) (Pc.acquiring s.last_published r)
        (λ _. keep n s s.awaiters i (Pc.enqueued t r) _ lt e tt tt (λ j. refl) v)
        (λ _. keep n s s.awaiters i (Pc.enqueued t r) _ lt e tt tt (λ j. refl) v)
  await_at-Counts s i (Pc.acquiring known r) lt e v =
      let p = split_known target known s.awaiters [] r max_diff in
      keep n s [] i (Pc.acquiring known r) (add_acquired known p) lt e tt
        (add_requeue-IsBusy known p.to_requeue p.to_resume p.min_diff)
        (λ j. omega (
          arith,
          add_requeue-held j known p.to_requeue p.to_resume p.min_diff,
          split_known-count target j known s.awaiters [] r max_diff,
        ))
        v
  await_at-Counts s i (Pc.resuming known []) lt e v =
      keep n s s.awaiters i (Pc.resuming known []) Pc.suspending lt e tt tt (λ j. refl) v
  await_at-Counts s i (Pc.resuming known (a ∷ r)) lt e v =
      resumed n s (after s s.awaiters (resume_with s.waits known a) i (Pc.resuming known r)) known a
        refl (same_phases n s i (Pc.resuming known (a ∷ r)) (Pc.resuming known r) e tt tt)
        (λ j. omega (
          arith,
          places-after n s s.awaiters (resume_with s.waits known a) i (Pc.resuming known (a ∷ r))
              (Pc.resuming known r) j lt e,
        ))
        v
  await_at-Counts s i Pc.suspending lt e v =
      stepped n s (finish_suspend s.waits i) i Pc.suspending Pc.returned lt e
        (λ k d h. ground arith) (λ j other. ground arith) v
  await_at-Counts s i Pc.returned lt e v = v

  publish_requeue-held :
      (j seq : ℕ) (q r : List ℕ) → held_producer j (publish_requeue seq q r) ≡ count j q + count j r
  unfolding publish_requeue
  publish_requeue-held j seq [] r = omega arith
  publish_requeue-held j seq (a ∷ q) r = refl

  -- A move of the producer that resumes nobody.
  published :
      (s : System) (last : ℕ) (js : List ℕ) (p : Producer)
      → ((j : ℕ) → count j js + held_producer j p ≡ count j s.awaiters + held_producer j s.producer)
      → Counts n s
      → Counts n
          (record s { barrier = record { last_published = last; awaiters = js }; producer = p })
  published s last js p h v j = rw same_places (v j)
    where
      same_places : count j js + held_producer j p + tally (held j) s.pc n ≡ places n j s
      same_places = omega (arith, h j)

  publish_seen-Counts :
      (s : System) (seq : ℕ) (js : List ℕ)
      → ((j : ℕ) → held_producer j s.producer ≡ 0)
      → Counts n s
      → Counts n (publish_seen s seq js)
  unfolding publish_seen
  publish_seen-Counts s seq [] h v =
      published s s.last_published s.awaiters Producer.idle (λ j. omega (arith, h j)) v
  publish_seen-Counts s seq (a ∷ js) h v =
      published s s.last_published s.awaiters (Producer.acquiring seq) (λ j. omega (arith, h j)) v

  publish_acquired-Counts :
      (s : System) (seq : ℕ) (js : List ℕ)
      → js ≡ s.awaiters
      → ((j : ℕ) → held_producer j s.producer ≡ 0)
      → Counts n s
      → Counts n (publish_acquired target s seq js)
  unfolding publish_acquired after_split
  publish_acquired-Counts s seq [] e h v =
      published s s.last_published s.awaiters Producer.idle (λ j. omega (arith, h j)) v
  publish_acquired-Counts s seq (a ∷ js) e h v =
      let p = split_published target seq (a ∷ js) [] [] in
      published s s.last_published [] (after_split seq p)
        (λ j. omega (
          arith,
          h j,
          ap (count j) e,
          publish_requeue-held j seq p.to_requeue p.to_resume,
          split_published-count target j seq (a ∷ js) [] [],
        ))
        v

  publish_at-Counts :
      (s : System) (p : Producer) → s.producer ≡ p → Counts n s → Counts n (publish_at target p s)
  unfolding publish_at
  publish_at-Counts s Producer.idle e v = v
  publish_at-Counts s (Producer.stored seq) e v =
      publish_seen-Counts s seq s.awaiters (λ j. ap (held_producer j) e) v
  publish_at-Counts s (Producer.acquiring seq) e v =
      publish_acquired-Counts s seq s.awaiters refl (λ j. ap (held_producer j) e) v
  publish_at-Counts s (Producer.requeueing seq q r) e v =
      published s s.last_published (q ++ s.awaiters) (Producer.resuming seq r)
        (λ j. omega (arith, ap (held_producer j) e, count-append j q s.awaiters)) v
  publish_at-Counts s (Producer.resuming seq []) e v =
      published s s.last_published s.awaiters Producer.idle
        (λ j. omega (arith, ap (held_producer j) e)) v
  publish_at-Counts s (Producer.resuming seq (a ∷ r)) e v =
      resumed n s
        (record s { producer = Producer.resuming seq r; waits = resume_with s.waits seq a }) seq a
        refl (λ j k c ready h. h) (λ j. omega (arith, ap (held_producer j) e)) v

  pub Step-Counts : (base : ℕ) (s t : System) → Step target base n s t → Counts n s → Counts n t
  unfolding publish_store
  Step-Counts base s _ (Step.publish seq e _ _) v =
      published s seq s.awaiters (Producer.stored seq) (λ j. omega (arith, ap (held_producer j) e))
        v
  Step-Counts base s _ Step.producer v = publish_at-Counts s s.producer refl v
  Step-Counts base s _ (Step.await i lt) v = await_at-Counts s i (s.pc i) lt refl v

  pub Reach-Counts : (base initial : ℕ) (s : System) → Reach target base n initial s → Counts n s
  Reach-Counts base initial _ Reach.here = init-Counts n initial
  Reach-Counts base initial _ (Reach.next r st) =
      Step-Counts base _ _ st (Reach-Counts base initial _ r)
