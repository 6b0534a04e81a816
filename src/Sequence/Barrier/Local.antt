-- ===== src/Sequence/Barrier/Local.antt =====
-- What each thread's local variables say about the last published number, kept by every step.
use macoro.Common.{
  ℕ, ◌≤◌, ◌≡◌, false, List, [], ◌∷◌, arith, All, All-mono, if_ind, refl, sym, ◌∙◌, ltb-false, subst,
}
use macoro.Common.Family.{update_ind}
use macoro.Common.Int.{ℤ}
use macoro.Sequence.Traits.{precedes, offset, InSpan, precedes-eq-ltb}
use macoro.Sequence.Wait.{await_ready}
use macoro.Sequence.Barrier.Defs.{
  System, Producer, Pc, init, at, max_diff, publish_at, publish_store, publish_seen,
  publish_acquired, publish_requeue, after_split, await_at, add_acquired, add_requeue, Reach, Step,
}
use macoro.Sequence.Barrier.Split.{
  IsAfter, IsReached, IsLeast, split_published-All, split_known-All,
}

module _ (target : ℕ → ℕ) (base : ℕ) where
  abbrev pub ProducerOk : ℕ → Producer → Type 0
  ProducerOk last (Producer.idle) = Unit
  ProducerOk last (Producer.stored seq) = seq ≡ last
  ProducerOk last (Producer.acquiring seq) = seq ≡ last
  ProducerOk last (Producer.requeueing seq q r) =
      (seq ≡ last) × All (IsAfter target base seq) q × All (IsReached target base seq) r
  ProducerOk last (Producer.resuming seq r) = (seq ≡ last) × All (IsReached target base seq) r

  abbrev pub PcOk : ℕ → Pc → Type 0
  PcOk last Pc.start = Unit
  PcOk last (Pc.enqueue t q r) =
      InSpan base t
      × All (λ j. offset base t ≤ offset base (target j)) q
      × All (IsReached target base last) r
  PcOk last (Pc.enqueued t r) = InSpan base t × All (IsReached target base last) r
  PcOk last (Pc.acquiring known r) =
      InSpan base known
      × (offset base known ≤ offset base last)
      × All (IsReached target base known) r
  PcOk last (Pc.resuming known r) =
      InSpan base known
      × (offset base known ≤ offset base last)
      × All (IsReached target base known) r
  PcOk last Pc.suspending = Unit
  PcOk last Pc.returned = Unit

  pub record Local (s : System) : Type 0 where
    pub span : InSpan base s.last_published
    pub producer_ok : ProducerOk s.last_published s.producer
    pub pc_ok : (i : ℕ) → PcOk s.last_published (s.pc i)

  init-Local : (initial : ℕ) → InSpan base initial → Local (init initial)
  unfolding init
  init-Local initial h = record { span = h; producer_ok = tt; pc_ok = λ i. tt }

  -- A later publication keeps what the locals say.
  PcOk-mono :
      (last later : ℕ)
      → offset base last ≤ offset base later
      → (p : Pc) → PcOk last p
      → PcOk later p
  PcOk-mono last later h Pc.start v = tt
  PcOk-mono last later h (Pc.enqueue t q r) v = (v.0, v.1, All-mono r (λ j p. omega arith) v.2)
  PcOk-mono last later h (Pc.enqueued t r) v = (v.0, All-mono r (λ j p. omega arith) v.1)
  PcOk-mono last later h (Pc.acquiring known r) v = (v.0, omega arith, v.2)
  PcOk-mono last later h (Pc.resuming known r) v = (v.0, omega arith, v.2)
  PcOk-mono last later h Pc.suspending v = tt
  PcOk-mono last later h Pc.returned v = tt

  publish_store-Local :
      (s : System) (seq : ℕ)
      → InSpan base seq
      → precedes seq s.last_published ≡ false
      → Local s
      → Local (publish_store s seq)
  unfolding publish_store
  publish_store-Local s seq h e v = record {
    span = h;
    producer_ok = refl;
    pc_ok = λ i. PcOk-mono s.last_published seq later (s.pc i) (v.pc_ok i);
  }
    where
      later : offset base s.last_published ≤ offset base seq
      later = ltb-false _ _ (sym (precedes-eq-ltb base seq s.last_published h v.span) ∙ e)

  module _ (spans : (j : ℕ) → InSpan base (target j)) where
    publish_requeue-Ok :
        (last seq : ℕ) (q r : List ℕ)
        → seq ≡ last
        → All (IsAfter target base seq) q
        → All (IsReached target base seq) r
        → ProducerOk last (publish_requeue seq q r)
    unfolding publish_requeue
    publish_requeue-Ok last seq [] r e a b = (e, b)
    publish_requeue-Ok last seq (j ∷ q) r e a b = (e, a, b)

    acquired-Local :
        (s : System) (seq : ℕ) (js : List ℕ)
        → seq ≡ s.last_published
        → Local s
        → Local (publish_acquired target s seq js)
    unfolding publish_acquired after_split
    acquired-Local s seq [] e v = record { span = v.span; producer_ok = tt; pc_ok = v.pc_ok }
    acquired-Local s seq (j ∷ js) e v =
        let h =
          split_published-All target base spans seq (j ∷ js) [] []
            (subst (InSpan base) (sym e) v.span) tt tt in
        record {
          span = v.span;
          producer_ok = publish_requeue-Ok _ seq _ _ e h.0 h.1;
          pc_ok = v.pc_ok;
        }

    seen-Local :
        (s : System) (seq : ℕ) (js : List ℕ)
        → seq ≡ s.last_published
        → Local s
        → Local (publish_seen s seq js)
    unfolding publish_seen
    seen-Local s seq [] e v = record { span = v.span; producer_ok = tt; pc_ok = v.pc_ok }
    seen-Local s seq (j ∷ js) e v = record { span = v.span; producer_ok = e; pc_ok = v.pc_ok }

    publish_at-Local :
        (s : System) (p : Producer)
        → ProducerOk s.last_published p
        → Local s
        → Local (publish_at target p s)
    unfolding publish_at
    publish_at-Local s Producer.idle o v = v
    publish_at-Local s (Producer.stored seq) o v = seen-Local s seq s.awaiters o v
    publish_at-Local s (Producer.acquiring seq) o v = acquired-Local s seq s.awaiters o v
    publish_at-Local s (Producer.requeueing seq q r) o v = record {
      span = v.span;
      producer_ok = (o.0, o.2);
      pc_ok = v.pc_ok;
    }
    publish_at-Local s (Producer.resuming seq []) o v = record {
      span = v.span;
      producer_ok = tt;
      pc_ok = v.pc_ok;
    }
    publish_at-Local s (Producer.resuming seq (a ∷ r)) o v = record {
      span = v.span;
      producer_ok = (o.0, o.1.1);
      pc_ok = v.pc_ok;
    }

    moved : (s : System) (i : ℕ) (p : Pc) → PcOk s.last_published p → Local s → Local (at s i p)
    moved s i p o v = record {
      span = v.span;
      producer_ok = v.producer_ok;
      pc_ok = update_ind s.pc i p (PcOk s.last_published) v.pc_ok o;
    }

    -- Only the barrier's number and the threads' locals count.
    other_fields :
        (s t : System)
        → t.last_published ≡ s.last_published
        → t.producer ≡ s.producer
        → t.pc ≡ s.pc
        → Local s
        → Local t
    other_fields s t e f g v = record {
      span = subst (InSpan base) (sym e) v.span;
      producer_ok = rw (e, f) v.producer_ok;
      pc_ok = rw (e, g) v.pc_ok;
    }

    add_requeue-Ok :
        (last known : ℕ) (q r : List ℕ) (m : ℤ)
        → InSpan base known
        → offset base known ≤ offset base last
        → IsLeast target base spans known q m
        → All (IsReached target base known) r
        → PcOk last (add_requeue known q r m)
    unfolding add_requeue
    add_requeue-Ok last known [] r m h le w b = (h, le, b)
    add_requeue-Ok last known (j ∷ q) r m h le (d, e, lt, all) b =
        subst (λ m. PcOk last (add_requeue known (j ∷ q) r m)) (sym e)
          (
            (omega arith, omega arith),
            (omega arith, All-mono q (λ i p. omega arith) all.1),
            All-mono r (λ i p. omega arith) b,
          )

    await_at-Local :
        (s : System) (i : ℕ) (p : Pc)
        → PcOk s.last_published p
        → Local s
        → Local (await_at target p i s)
    unfolding await_at add_acquired
    await_at-Local s i Pc.start o v =
        if_ind Local (await_ready s.last_published (target i)) _ _
          (λ e. moved _ i Pc.returned tt (other_fields s _ refl refl refl v))
          (λ e.
            moved _ i (Pc.enqueue (target i) (i ∷ []) []) (spans i, (omega arith, tt), tt)
              (other_fields s _ refl refl refl v))
    await_at-Local s i (Pc.enqueue t q r) o v =
        moved _ i _ (o.0, o.2) (other_fields s _ refl refl refl v)
    await_at-Local s i (Pc.enqueued t r) o v =
        moved s i _
          (if_ind (PcOk s.last_published) (precedes s.last_published t)
            (Pc.resuming s.last_published r) (Pc.acquiring s.last_published r)
            (λ e. (v.span, omega arith, o.1)) (λ e. (v.span, omega arith, o.1)))
          v
    await_at-Local s i (Pc.acquiring known r) o v =
        let h =
          split_known-All target base spans known s.awaiters [] r max_diff o.0
            (_, refl, omega arith, tt) o.2 in
        moved _ i _ (add_requeue-Ok _ known _ _ _ o.0 o.1 h.0 h.1)
          (other_fields s _ refl refl refl v)
    await_at-Local s i (Pc.resuming known []) o v = moved s i _ tt v
    await_at-Local s i (Pc.resuming known (a ∷ r)) o v =
        moved _ i _ (o.0, o.1, o.2.1) (other_fields s _ refl refl refl v)
    await_at-Local s i Pc.suspending o v = moved _ i _ tt (other_fields s _ refl refl refl v)
    await_at-Local s i Pc.returned o v = v

    -- What the locals say is kept by every step.
    pub Step-Local : (n : ℕ) (s t : System) → Step target base n s t → Local s → Local t
    Step-Local n s _ (Step.publish seq idle h e) v = publish_store-Local s seq h e v
    Step-Local n s _ Step.producer v = publish_at-Local s s.producer v.producer_ok v
    Step-Local n s _ (Step.await i lt) v = await_at-Local s i (s.pc i) (v.pc_ok i) v

    pub Reach-Local :
        (n initial : ℕ) (s : System) → InSpan base initial → Reach target base n initial s → Local s
    Reach-Local n initial _ h Reach.here = init-Local initial h
    Reach-Local n initial _ h (Reach.next r st) = Step-Local n _ _ st (Reach-Local n initial _ h r)
