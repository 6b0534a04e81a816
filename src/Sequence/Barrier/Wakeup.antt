-- ===== src/Sequence/Barrier/Wakeup.antt =====
-- While the target of an operation in the queue is published, some thread is about to look at the
-- queue again: the producer between its store and its exchange of the queue, or an operation that
-- has just queued up.
use macoro.Common.{
  ℕ, ◌+◌, ◌<◌, ◌≤◌, ◌≡◌, true, false, if◌then◌else◌, List, [], ◌∷◌, ◌++◌, arith, refl, sym, ap, ◌∙◌,
  subst, All, All-of, All-nil, All-append, All-mono, if_ind, lt→ltb, le→ltb, ltb-false,
}
use mathlib.Core.Bool.{false≢true}
use macoro.Common.Family.{update, tally, tally-update}
use macoro.Sequence.Traits.{precedes, offset, InSpan, precedes-eq-ltb}
use macoro.Sequence.Wait.{Waits, await_ready}
use macoro.Sequence.Barrier.Defs.{
  System, Producer, Pc, init, at, set_awaiters, publish_at, publish_store, publish_seen,
  publish_acquired, await_at, Step, Reach,
}
use macoro.Sequence.Barrier.Split.{IsAfter}
use macoro.Sequence.Barrier.Local.{Local, ProducerOk, PcOk, Reach-Local}

abbrev pub watch_producer : Producer → ℕ
watch_producer (Producer.stored seq) = 1
watch_producer (Producer.acquiring seq) = 1
watch_producer _ = 0

abbrev pub watch_pc : ℕ → Pc → ℕ
watch_pc last (Pc.enqueued t r) = if precedes last t then 0 else 1
watch_pc last (Pc.acquiring known r) = 1
watch_pc last _ = 0

-- How many threads are about to look at the queue.
abbrev pub watchers : ℕ → System → ℕ
watchers n s = watch_producer s.producer + tally (watch_pc s.last_published) s.pc n

abbrev pub Watched : (ℕ → ℕ) → ℕ → System → Type 0
Watched target n s =
    All (λ j. precedes s.last_published (target j) ≡ false → 0 < watchers n s) s.awaiters

module _ (target : ℕ → ℕ) (n base : ℕ) (spans : (j : ℕ) → InSpan base (target j)) where
  -- A step of thread `i` that leaves the queue alone and watches no less.
  moved-Watched :
      (s : System) (w : Waits) (i : ℕ) (p p' : Pc)
      → i < n
      → s.pc i ≡ p
      → watch_pc s.last_published p ≤ watch_pc s.last_published p'
      → Watched target n s
      → Watched target n (at (record s { waits = w }) i p')
  moved-Watched s w i p p' lt e le v =
      All-mono s.awaiters
        (λ j h r. omega (
          arith,
          h r,
          tally-update (watch_pc s.last_published) s.pc i p' n lt,
          ap (watch_pc s.last_published) e,
        ))
        v

  target_reached :
      (last t j : ℕ)
      → InSpan base last
      → InSpan base t
      → offset base t ≤ offset base (target j)
      → precedes last (target j) ≡ false
      → precedes last t ≡ false
  target_reached last t j a b le h =
      precedes-eq-ltb base last t a b
      ∙ le→ltb _ _ (
          omega (arith, ltb-false _ _ (sym (precedes-eq-ltb base last (target j) a (spans j)) ∙ h)))

  enqueued-Watched :
      (s : System) (i t : ℕ) (q r : List ℕ)
      → i < n
      → s.pc i ≡ Pc.enqueue t q r
      → PcOk target base s.last_published (Pc.enqueue t q r)
      → InSpan base s.last_published
      → Watched target n s
      → Watched target n (at (set_awaiters s (q ++ s.awaiters)) i (Pc.enqueued t r))
  enqueued-Watched s i t q r lt e o h v =
      All-append _ q s.awaiters
        (All-mono q
          (λ j le now.
            let seen : watch_pc s.last_published (Pc.enqueued t r) ≡ 1 =
              rw (target_reached s.last_published t j h o.0 le now) in
            omega (arith, seen, counted))
          o.1)
        (All-mono s.awaiters (λ j was now. omega (arith, was now, counted)) v)
    where
      last : ℕ
      last = s.last_published

      counted :
          tally (watch_pc last) (update s.pc i (Pc.enqueued t r)) n + 0
          ≡ tally (watch_pc last) s.pc n + watch_pc last (Pc.enqueued t r)
      counted =
          omega (
            arith,
            tally-update (watch_pc last) s.pc i (Pc.enqueued t r) n lt,
            ap (watch_pc last) e,
          )

  await_at-Watched :
      (s : System) (i : ℕ) (p : Pc)
      → i < n
      → s.pc i ≡ p
      → PcOk target base s.last_published p
      → InSpan base s.last_published
      → Watched target n s
      → Watched target n (await_at target p i s)
  unfolding await_at
  await_at-Watched s i Pc.start lt e o h v =
      if_ind (Watched target n) (await_ready s.last_published (target i)) _ _
        (λ _. moved-Watched s s.waits i Pc.start Pc.returned lt e (omega arith) v)
        (λ _.
          moved-Watched s s.waits i Pc.start (Pc.enqueue (target i) (i ∷ []) []) lt e (omega arith)
            v)
  await_at-Watched s i (Pc.enqueue t q r) lt e o h v = enqueued-Watched s i t q r lt e o h v
  await_at-Watched s i (Pc.enqueued t r) lt e o h v =
      moved-Watched s s.waits i (Pc.enqueued t r) _ lt e (ground arith) v
  await_at-Watched s i (Pc.acquiring known r) lt e o h v = tt
  await_at-Watched s i (Pc.resuming known []) lt e o h v =
      moved-Watched s s.waits i (Pc.resuming known []) Pc.suspending lt e (omega arith) v
  await_at-Watched s i (Pc.resuming known (a ∷ r)) lt e o h v =
      moved-Watched s s.waits i (Pc.resuming known (a ∷ r)) (Pc.resuming known r) lt e (omega arith)
        v
  await_at-Watched s i Pc.suspending lt e o h v =
      moved-Watched s s.waits i Pc.suspending Pc.returned lt e (omega arith) v
  await_at-Watched s i Pc.returned lt e o h v = v

  publish_seen-Watched :
      (s : System) (seq : ℕ) (js : List ℕ)
      → js ≡ s.awaiters
      → Watched target n (publish_seen s seq js)
  unfolding publish_seen
  publish_seen-Watched s seq [] e = All-nil _ s.awaiters e
  publish_seen-Watched s seq (a ∷ js) e = All-of s.awaiters (λ j now. omega arith)

  publish_acquired-Watched :
      (s : System) (seq : ℕ) (js : List ℕ)
      → js ≡ s.awaiters
      → Watched target n (publish_acquired target s seq js)
  unfolding publish_acquired
  publish_acquired-Watched s seq [] e = All-nil _ s.awaiters e
  publish_acquired-Watched s seq (a ∷ js) e = tt

  publish_at-Watched :
      (s : System) (p : Producer)
      → s.producer ≡ p
      → ProducerOk target base s.last_published p
      → InSpan base s.last_published
      → Watched target n s
      → Watched target n (publish_at target p s)
  unfolding publish_at
  publish_at-Watched s Producer.idle e o h v = v
  publish_at-Watched s (Producer.stored seq) e o h v = publish_seen-Watched s seq s.awaiters refl
  publish_at-Watched s (Producer.acquiring seq) e o h v =
      publish_acquired-Watched s seq s.awaiters refl
  publish_at-Watched s (Producer.requeueing seq q r) e o h v =
      All-append _ q s.awaiters
        (All-mono q (λ j later now. absurd (false≢true (sym now ∙ behind j later))) o.1)
        (All-mono s.awaiters (λ j was now. omega (arith, was now, ap watch_producer e)) v)
    where
      behind : (j : ℕ) → IsAfter target base seq j → precedes s.last_published (target j) ≡ true
      behind j later =
          precedes-eq-ltb base _ _ h (spans j)
          ∙ lt→ltb _ _ (subst (λ x. offset base x < offset base (target j)) o.0 later)
  publish_at-Watched s (Producer.resuming seq []) e o h v =
      All-mono s.awaiters (λ j was now. omega (arith, was now, ap watch_producer e)) v
  publish_at-Watched s (Producer.resuming seq (a ∷ r)) e o h v =
      All-mono s.awaiters (λ j was now. omega (arith, was now, ap watch_producer e)) v

  pub Step-Watched :
      (s t : System)
      → Step target base n s t
      → Local target base s
      → Watched target n s
      → Watched target n t
  unfolding publish_store
  Step-Watched s _ (Step.publish seq e _ _) l v = All-of s.awaiters (λ j now. omega arith)
  Step-Watched s _ Step.producer l v = publish_at-Watched s s.producer refl l.producer_ok l.span v
  Step-Watched s _ (Step.await i lt) l v =
      await_at-Watched s i (s.pc i) lt refl (l.pc_ok i) l.span v

  pub Reach-Watched :
      (initial : ℕ) (s : System)
      → InSpan base initial
      → Reach target base n initial s
      → Watched target n s
  unfolding init
  Reach-Watched initial _ h Reach.here = tt
  Reach-Watched initial _ h (Reach.next r st) =
      Step-Watched _ _ st (Reach-Local target base spans n initial _ h r)
        (Reach-Watched initial _ h r)
