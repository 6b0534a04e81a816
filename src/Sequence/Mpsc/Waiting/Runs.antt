-- ===== src/Sequence/Mpsc/Waiting/Runs.antt =====
-- Every step of the consumer keeps the invariant, and so does every run.
use macoro.Common.{
  ℕ, suc, ◌+◌, ◌<◌, ◌≡◌, ◌⊎◌, inl, inr, refl, sym, ap, subst, ◌∙◌, Bool, true, false, ltb,
  if◌then◌else◌, Bool-cases, arith,
}
use macoro.Common.Family.{le_tally}
use macoro.Sequence.Mpsc.Waiting.Defs.{Consumer, System, await_at, Step, Reach}
use macoro.Sequence.Mpsc.Waiting.Knows.{
  holds, owns, is_fresh, Untold, Phase, Prefix, prefix_next, AtPublisher, AtConsumer, other_known,
}
use macoro.Sequence.Mpsc.Waiting.Places.{
  weight_of, weigh, flagged_self, finished, suspending, bounded, held, places, init-Inv, Inv,
}
use macoro.Sequence.Mpsc.Waiting.Producers.{store-Inv, publish_at-Inv}

module _ (target n : ℕ) where
  -- The consumer moves on.
  consumer-Inv :
      (s : System) (p : Consumer) (q : Bool) (k : ℕ) (r : Bool) (c : ℕ)
      → Inv target n s
      → Phase p r c (weight_of q + held target n s + owns p)
      → Prefix s.published k
      → (weight_of q + held target n s + owns p ≡ 0 → is_fresh p ≡ false → target < k)
      → AtConsumer target p s.published k
      → (k ≡ s.known) ⊎ (owns s.consumer ≡ 1)
      → Inv target n (record s { queued = q; known = k; ready = r; continued = c; consumer = p })
  consumer-Inv s p q k r c v h x t a w = record {
    phase = h;
    known = x;
    told = t;
    each = λ i lt. elim w [
      | inl e ↦ subst (AtPublisher target (s.publisher i) s.published) (sym e) (v.each i lt)
      | inr e ↦
          other_known target (s.publisher i) s.published s.known k
            (omega (
              arith,
              e,
              bounded s.consumer s.ready s.continued (places target n s) v.phase,
              le_tally holds s.publisher n i lt,
            ))
            (v.each i lt)
    ];
    mine = a;
  }

  -- What holds at the consumer's place.
  phase_at :
      {x : Consumer} (s : System)
      → s.consumer ≡ x
      → Inv target n s
      → Phase x s.ready s.continued (weight_of s.queued + held target n s + owns x)
  phase_at s e v =
      subst (λ p. Phase p s.ready s.continued (weight_of s.queued + held target n s + owns p)) e
        v.phase

  told_at :
      {x : Consumer} (s : System)
      → s.consumer ≡ x
      → Inv target n s
      → weight_of s.queued + held target n s + owns x ≡ 0
      → is_fresh x ≡ false
      → target < s.known
  told_at s e v =
      subst
        (λ p.
          weight_of s.queued + held target n s + owns p ≡ 0 → is_fresh p ≡ false → target < s.known)
        e v.told

  mine_at :
      {x : Consumer} (s : System)
      → s.consumer ≡ x
      → Inv target n s
      → AtConsumer target x s.published s.known
  mine_at s e v = subst (λ p. AtConsumer target p s.published s.known) e v.mine

  -- A move of the consumer that changes nothing else.
  kept :
      {x : Consumer} (s : System)
      → s.consumer ≡ x
      → Inv target n s
      → (p : Consumer) → owns p ≡ owns x
      → is_fresh p ≡ is_fresh x
      → Phase p s.ready s.continued (weight_of s.queued + held target n s + owns p)
      → AtConsumer target p s.published s.known
      → Inv target n (record s { consumer = p })
  kept s e v p o f h a =
      consumer-Inv s p s.queued s.known s.ready s.continued v h v.known
        (λ z g. told_at s e v (omega (arith, z, o)) (sym f ∙ g)) a (inl refl)

  abbrev last_step : System → Bool → System
  last_step s b =
      if b
      then record s { consumer = Consumer.gone; continued = suc s.continued }
      else record s { ready = true; consumer = Consumer.suspended }

  await_at-Inv :
      (x : Consumer) (s : System)
      → s.consumer ≡ x
      → Inv target n s
      → Inv target n (await_at target x s)
  unfolding await_at
  await_at-Inv Consumer.fresh s e v =
      let h = phase_at s e v in
      elim (Bool-cases (ltb target s.known)) [
        | inl ready ↦ rw ready (
            consumer-Inv s Consumer.gone s.queued s.known s.ready (suc s.continued) v
              (h.0, omega (arith, h.2)) v.known (λ z f. ground (arith, ready)) tt (inl refl))
        | inr early ↦ rw early (
            consumer-Inv s Consumer.enqueuing s.queued s.known s.ready s.continued v
              (omega (arith, h.0), h.1, h.2) v.known (λ z f. absurd (omega (arith, z))) tt
              (inl refl))
      ]
  await_at-Inv Consumer.enqueuing s e v =
      let h = phase_at s e v in
      consumer-Inv s (Consumer.scanning s.known) true s.known s.ready s.continued v
        (inl (omega (arith, h.0), h.1, h.2)) v.known (λ z f. absurd (omega (arith, z))) v.known
        (inl refl)
  await_at-Inv (Consumer.scanning x) s e v = elim (Bool-cases (s.published x)) [
    | inl more ↦ rw more (
        kept s e v (Consumer.scanning (suc x)) refl refl (phase_at s e v)
          (prefix_next s.published x (mine_at s e v) more))
    | inr last ↦ rw last (elim (Bool-cases (ltb target x)) [
      | inl ready ↦ rw ready (
          kept s e v (Consumer.reacquiring x) refl refl (phase_at s e v)
            (mine_at s e v, ground (arith, ready)))
      | inr early ↦ rw early (kept s e v Consumer.finishing refl refl (phase_at s e v) tt)
    ])
  ]
  await_at-Inv (Consumer.reacquiring x) s e v = elim (Bool-cases s.queued) [
    | inl full ↦
        let q = weigh s.queued true full in
        subst
          (λ b. Inv target n (record s {
            queued = false;
            consumer = if b then Consumer.resuming x else Consumer.finishing;
          }))
          (sym full)
          (consumer-Inv s (Consumer.resuming x) false s.known s.ready s.continued v
            (subst (Untold s.ready s.continued) (omega (arith, q)) (phase_at s e v)) v.known
            (λ z f. absurd (omega (arith, z))) (mine_at s e v) (inl refl))
    | inr empty ↦
        let q = weigh s.queued false empty in
        subst
          (λ b. Inv target n (record s {
            queued = false;
            consumer = if b then Consumer.resuming x else Consumer.finishing;
          }))
          (sym empty)
          (consumer-Inv s Consumer.finishing false s.known s.ready s.continued v
            (subst (Untold s.ready s.continued) (omega (arith, q)) (phase_at s e v)) v.known
            (λ z f. told_at s e v (omega (arith, z, q)) refl) tt (inl refl))
  ]
  await_at-Inv (Consumer.resuming x) s e v =
      let (p, h) = mine_at s e v in
      consumer-Inv s Consumer.flagging s.queued x s.ready s.continued v (phase_at s e v) p
        (λ z f. h) h (inr (ap owns e))
  await_at-Inv Consumer.flagging s e v =
      consumer-Inv s Consumer.finishing s.queued s.known true
        (if s.ready then suc s.continued else s.continued) v
        (subst (Untold true (if s.ready then suc s.continued else s.continued)) (omega arith)
          (flagged_self s.ready s.continued _ (phase_at s e v)))
        v.known (λ z f. mine_at s e v) tt (inl refl)
  await_at-Inv Consumer.finishing s e v = elim (Bool-cases s.ready) [
    | inl is_told ↦
        subst (λ b. Inv target n (last_step s b)) (sym is_told)
          (consumer-Inv s Consumer.gone s.queued s.known s.ready (suc s.continued) v
            (finished s.ready s.continued _ is_told (phase_at s e v)) v.known
            (λ z f. told_at s e v z refl) tt (inl refl))
    | inr untold ↦
        subst (λ b. Inv target n (last_step s b)) (sym untold)
          (consumer-Inv s Consumer.suspended s.queued s.known true s.continued v
            (suspending s.ready s.continued _ untold (phase_at s e v)) v.known
            (λ z f. told_at s e v z refl) tt (inl refl))
  ]
  await_at-Inv Consumer.suspended s e v = v
  await_at-Inv Consumer.gone s e v = v

  pub Reach-Inv : {k : ℕ} {s : System} → Reach target n k s → Inv target n s
  Reach-Inv {k = k} Reach.here = init-Inv target n k
  Reach-Inv (Reach.next {s = s} q (Step.store i j lt e)) =
      store-Inv target n i j s lt e (Reach-Inv q)
  Reach-Inv (Reach.next {s = s} q (Step.publish j lt)) =
      publish_at-Inv target n (s.publisher j) j s refl lt (Reach-Inv q)
  Reach-Inv (Reach.next {s = s} q Step.await) = await_at-Inv s.consumer s refl (Reach-Inv q)
