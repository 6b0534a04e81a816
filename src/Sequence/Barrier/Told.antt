-- ===== src/Sequence/Barrier/Told.antt =====
-- What `await_resume` returns: the number that an operation was told has reached its target, and
-- is one that was published.
use macoro.Common.{
  ℕ, ◌≤◌, ◌≡◌, Bool, true, false, if◌then◌else◌, List, [], ◌∷◌, arith, ◌==◌, Bool-cases, inl, inr,
  refl, sym, ap, ◌∙◌, subst, ==_iff, ==_refl, ltb-false, if_ind,
}
use macoro.Common.Family.{update}
use macoro.Sequence.Traits.{precedes, offset, InSpan, precedes-eq-ltb}
use macoro.Sequence.Wait.{Waits, set_known, continue_op, await_ready, resume, finish_suspend}
use macoro.Sequence.Barrier.Defs.{
  System, Producer, Pc, init, at, publish_at, publish_store, publish_seen, publish_acquired,
  await_at, add_acquired, Step, Reach, split_known, max_diff, resume_with,
}
use macoro.Sequence.Barrier.Split.{IsReached}
use macoro.Sequence.Barrier.Local.{Local, ProducerOk, PcOk, Reach-Local}
use macoro.Sequence.Barrier.Counts.{Counts, Phase, IsBusy, add_requeue-IsBusy, Reach-Counts}

-- The coroutine of the operation went on, or was told to go on before it suspended.
abbrev pub IsDelivered : Pc → Bool → ℕ → Type 0
IsDelivered Pc.start ready c = ⊥
IsDelivered Pc.returned ready c = c ≡ 1
IsDelivered _ ready c = ready ≡ true

abbrev pub IsTold : (ℕ → ℕ) → ℕ → ℕ → ℕ → ℕ → Type 0
IsTold target base last known j =
    IsReached target base known j × InSpan base known × (offset base known ≤ offset base last)

abbrev pub Told : (ℕ → ℕ) → ℕ → ℕ → Waits → (ℕ → Pc) → Type 0
Told target base last w pc =
    (j : ℕ)
    → IsDelivered (pc j) (w.ready_to_resume j) (w.continued j)
    → IsTold target base last (w.last_known_published j) j

resume_with-ready :
    (w : Waits) (known a j : ℕ)
    → (resume_with w known a).ready_to_resume j ≡ (if a == j then true else w.ready_to_resume j)
unfolding resume_with resume set_known
resume_with-ready w known a j = ground arith

resume_with-known :
    (w : Waits) (known a j : ℕ)
    → (resume_with w known a).last_known_published j
      ≡ (if a == j then known else w.last_known_published j)
unfolding resume_with resume set_known
resume_with-known w known a j = ground arith

resume_with-continued :
    (w : Waits) (known a j : ℕ)
    → (a == j) ≡ false
    → (resume_with w known a).continued j ≡ w.continued j
unfolding resume_with resume set_known
resume_with-continued w known a j e = ground arith

finish_suspend-known :
    (w : Waits) (i j : ℕ) → (finish_suspend w i).last_known_published j ≡ w.last_known_published j
unfolding finish_suspend
finish_suspend-known w i j = ground arith

finish_suspend-was_ready :
    (w : Waits) (i : ℕ)
    → w.continued i ≡ 0
    → (finish_suspend w i).continued i ≡ 1
    → w.ready_to_resume i ≡ true
unfolding finish_suspend
finish_suspend-was_ready w i e h = ground arith

busy_same :
    (p p' : Pc) (c : ℕ) (ready : Bool)
    → IsBusy p
    → IsBusy p'
    → IsDelivered p' ready c
    → IsDelivered p ready c
busy_same p p' c ready a b d = ground arith

busy_back :
    (pc : ℕ → Pc) (i : ℕ) (p p' : Pc)
    → pc i ≡ p
    → IsBusy p
    → IsBusy p'
    → (j c : ℕ) (ready : Bool) → IsDelivered (update pc i p' j) ready c
    → IsDelivered (pc j) ready c
busy_back pc i p p' e a b j c ready = elim (Bool-cases (i == j)) [
  | inl same ↦ rw (same, sym (ap pc ((==_iff i j).0 same)) ∙ e) (busy_same p p' c ready a b)
  | inr other ↦ rw other (λ d. d)
]

module _ (target : ℕ → ℕ) (base last : ℕ) where
  -- A resumption of `a` by a thread whose number has reached its target.
  resumed-Told :
      (w : Waits) (pc pc' : ℕ → Pc) (known a : ℕ)
      → ((j c : ℕ) (ready : Bool) → IsDelivered (pc' j) ready c → IsDelivered (pc j) ready c)
      → IsTold target base last known a
      → Told target base last w pc
      → Told target base last (resume_with w known a) pc'
  resumed-Told w pc pc' known a back told v j = elim (Bool-cases (a == j)) [
    | inl same ↦ λ _.
        rw (resume_with-known w known a j, same)
          (subst (IsTold target base last known) ((==_iff a j).0 same) told)
    | inr other ↦
        rw
          (
            resume_with-known w known a j,
            resume_with-ready w known a j,
            resume_with-continued w known a j other,
            other,
          )
          (λ d. v j (back j _ _ d))
  ]

  -- A move of thread `i` that leaves alone what is kept of the operations.
  moved-Told :
      (w : Waits) (pc : ℕ → Pc) (i : ℕ) (p p' : Pc)
      → pc i ≡ p
      → IsBusy p
      → IsBusy p'
      → Told target base last w pc
      → Told target base last w (update pc i p')
  moved-Told w pc i p p' e a b v j d = v j (busy_back pc i p p' e a b j _ _ d)

  -- A step that changes what is kept for operation `i` alone.
  stepped-Told :
      (w w' : Waits) (pc : ℕ → Pc) (i : ℕ) (p' : Pc)
      → (IsDelivered p' (w'.ready_to_resume i) (w'.continued i)
          → IsTold target base last (w'.last_known_published i) i)
      → ((j : ℕ)
          → (i == j) ≡ false
          → (w'.ready_to_resume j ≡ w.ready_to_resume j)
            × (w'.continued j ≡ w.continued j)
            × (w'.last_known_published j ≡ w.last_known_published j))
      → Told target base last w pc
      → Told target base last w' (update pc i p')
  stepped-Told w w' pc i p' own others v j = elim (Bool-cases (i == j)) [
    | inl same ↦
        subst
          (λ x.
            IsDelivered (update pc i p' x) (w'.ready_to_resume x) (w'.continued x)
            → IsTold target base last (w'.last_known_published x) x)
          ((==_iff i j).0 same) (rw (==_refl i) own)
    | inr other ↦ let (r, c, k) = others j other in rw (r, c, k, other) (v j)
  ]

abbrev pub SystemTold : (ℕ → ℕ) → ℕ → System → Type 0
SystemTold target base s = Told target base s.last_published s.waits s.pc

module _ (target : ℕ → ℕ) (base : ℕ) where
  start-Told :
      (spans : (j : ℕ) → InSpan base (target j)) (s : System) (i k : ℕ)
      → InSpan base s.last_published
      → Phase Pc.start k (s.waits.ready_to_resume i) (s.waits.continued i)
      → SystemTold target base s
      → SystemTold target base (await_at target Pc.start i s)
  unfolding await_at
  start-Told spans s i k h q v =
      if_ind (SystemTold target base) (await_ready s.last_published (target i)) _ _
        (λ ready.
          stepped-Told target base last s.waits (continue_op told i) s.pc i Pc.returned
            (λ d. rw (==_refl i) (now ready, h, omega arith)) (λ j other. ground arith) v)
        (λ wait.
          stepped-Told target base last s.waits told s.pc i (Pc.enqueue (target i) (i ∷ []) [])
            (λ d. cc (q.1)) (λ j other. ground arith) v)
    where
      last : ℕ
      last = s.last_published

      told : Waits
      told = set_known s.waits i last

      now : await_ready last (target i) ≡ true → IsReached target base last i
      now ready =
          ltb-false _ _ (sym (precedes-eq-ltb base last (target i) h (spans i)) ∙ ground arith)

  await_at-Told :
      (spans : (j : ℕ) → InSpan base (target j)) (s : System) (i k : ℕ) (p : Pc)
      → s.pc i ≡ p
      → PcOk target base s.last_published p
      → InSpan base s.last_published
      → Phase p k (s.waits.ready_to_resume i) (s.waits.continued i)
      → SystemTold target base s
      → SystemTold target base (await_at target p i s)
  unfolding await_at add_acquired
  await_at-Told spans s i k Pc.start e o h q v = start-Told spans s i k h q v
  await_at-Told spans s i k (Pc.enqueue t q r) e o h _ v =
      moved-Told target base _ s.waits s.pc i (Pc.enqueue t q r) (Pc.enqueued t r) e tt tt v
  await_at-Told spans s i k (Pc.enqueued t r) e o h _ v =
      if_ind (λ p. SystemTold target base (at s i p)) (precedes s.last_published t)
        (Pc.resuming s.last_published r) (Pc.acquiring s.last_published r)
        (λ _. moved-Told target base _ s.waits s.pc i (Pc.enqueued t r) _ e tt tt v)
        (λ _. moved-Told target base _ s.waits s.pc i (Pc.enqueued t r) _ e tt tt v)
  await_at-Told spans s i k (Pc.acquiring known r) e o h _ v =
      let p = split_known target known s.awaiters [] r max_diff in
      moved-Told target base _ s.waits s.pc i (Pc.acquiring known r) (add_acquired known p) e tt
        (add_requeue-IsBusy known p.to_requeue p.to_resume p.min_diff) v
  await_at-Told spans s i k (Pc.resuming known []) e o h _ v =
      moved-Told target base _ s.waits s.pc i (Pc.resuming known []) Pc.suspending e tt tt v
  await_at-Told spans s i k (Pc.resuming known (a ∷ r)) e o h _ v =
      resumed-Told target base _ s.waits s.pc _ known a
        (busy_back s.pc i (Pc.resuming known (a ∷ r)) (Pc.resuming known r) e tt tt)
        (o.2.0, o.0, o.1) v
  await_at-Told spans s i k Pc.suspending e o h q v =
      stepped-Told target base _ s.waits (finish_suspend s.waits i) s.pc i Pc.returned
        (λ d. rw (finish_suspend-known s.waits i i) (
          v i (
            subst (λ p. IsDelivered p (s.waits.ready_to_resume i) (s.waits.continued i)) (sym e)
              (finish_suspend-was_ready s.waits i q.0 d))))
        (λ j other. ground arith) v
  await_at-Told spans s i k Pc.returned e o h _ v = v

  publish_at-Told :
      (s : System) (p : Producer)
      → s.producer ≡ p
      → ProducerOk target base s.last_published p
      → InSpan base s.last_published
      → SystemTold target base s
      → SystemTold target base (publish_at target p s)
  unfolding publish_at
  publish_at-Told s Producer.idle e o h v = v
  publish_at-Told s (Producer.stored seq) e o h v = seen s.awaiters
    where
      seen : (js : List ℕ) → SystemTold target base (publish_seen s seq js)
      seen [] = v
      seen (a ∷ js) = v
  publish_at-Told s (Producer.acquiring seq) e o h v = acquired s.awaiters
    where
      acquired : (js : List ℕ) → SystemTold target base (publish_acquired target s seq js)
      acquired [] = v
      acquired (a ∷ js) = v
  publish_at-Told s (Producer.requeueing seq q r) e o h v = v
  publish_at-Told s (Producer.resuming seq []) e o h v = v
  publish_at-Told s (Producer.resuming seq (a ∷ r)) e o h v =
      resumed-Told target base _ s.waits s.pc s.pc seq a (λ j c ready d. d)
        (o.1.0, subst (InSpan base) (sym o.0) h, omega (arith, ap (offset base) o.0)) v

  pub Step-Told :
      (spans : (j : ℕ) → InSpan base (target j)) (n : ℕ) (s t : System)
      → Step target base n s t
      → Local target base s
      → Counts n s
      → SystemTold target base s
      → SystemTold target base t
  unfolding publish_store
  Step-Told spans n s _ (Step.publish seq e h later) l c v =
      λ j d. let told = v j d in (told.0, told.1, omega (arith, told.2, grown))
    where
      grown : offset base s.last_published ≤ offset base seq
      grown = ltb-false _ _ (sym (precedes-eq-ltb base seq s.last_published h l.span) ∙ later)
  Step-Told spans n s _ Step.producer l c v =
      publish_at-Told s s.producer refl l.producer_ok l.span v
  Step-Told spans n s _ (Step.await i lt) l c v =
      await_at-Told spans s i _ (s.pc i) refl (l.pc_ok i) l.span (c i) v

  pub Reach-Told :
      (spans : (j : ℕ) → InSpan base (target j)) (n initial : ℕ) (s : System)
      → InSpan base initial
      → Reach target base n initial s
      → SystemTold target base s
  unfolding init
  Reach-Told spans n initial _ h Reach.here = λ j d. absurd d
  Reach-Told spans n initial _ h (Reach.next r st) =
      Step-Told spans n _ _ st (Reach-Local target base spans n initial _ h r)
        (Reach-Counts target n base initial _ r) (Reach-Told spans n initial _ h r)
