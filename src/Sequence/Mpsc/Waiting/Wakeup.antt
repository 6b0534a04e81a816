-- ===== src/Sequence/Mpsc/Waiting/Wakeup.antt =====
-- An operation in the list whose number is published has a thread that will look at the list again.
use macoro.Common.{
  ℕ, suc, ◌+◌, ◌<◌, ◌≤◌, ◌≡◌, ◌⊎◌, inl, inr, refl, sym, ap, subst, ◌∙◌, Bool, true, false, ltb,
  ◌==◌, Bool-cases, arith,
}
use mathlib.Core.Bool.{false≢true}
use macoro.Common.Family.{update, tally, tally-update, tally_pos}
use macoro.Sequence.Mpsc.Waiting.Defs.{
  Publisher, Consumer, System, init, publish_store, publish_at, await_at, Step, Reach,
}
use macoro.Sequence.Mpsc.Waiting.Knows.{
  holds, owns, is_fresh, Phase, Prefix, AtPublisher, AtConsumer,
}
use macoro.Sequence.Mpsc.Waiting.Places.{places, weight_of}
use macoro.Sequence.Mpsc.Waiting.Runs.{Reach-Inv}

abbrev attends : Publisher → ℕ
attends Publisher.loading = 1
attends Publisher.acquiring = 1
attends (Publisher.rescanning e) = 1
attends Publisher.reacquiring = 1
attends _ = 0

abbrev looks : Consumer → ℕ
looks (Consumer.scanning e) = 1
looks (Consumer.reacquiring e) = 1
looks _ = 0

module _ (target n : ℕ) where
  abbrev Wake : Bool → (ℕ → Bool) → (ℕ → Publisher) → Consumer → Type 0
  Wake q f p c = q ≡ true → Prefix f (suc target) → 0 < tally attends p n + looks c

  abbrev Awake : System → Type 0
  Awake s = Wake s.queued s.published s.publisher s.consumer

  -- A producer that goes on attending.
  moves :
      (s : System) (j : ℕ) (p : Publisher)
      → j < n
      → attends (s.publisher j) ≤ attends p
      → Awake s
      → Wake s.queued s.published (update s.publisher j p) s.consumer
  moves s j p lt le h q f = omega (arith, h q f, le, tally-update attends s.publisher j p n lt)

  -- A producer that attends.
  attending :
      (f : ℕ → Publisher) (j : ℕ) (p : Publisher) (c : Consumer)
      → j < n
      → attends p ≡ 1
      → attends (f j) ≡ 0
      → 0 < tally attends (update f j p) n + looks c
  attending f j p c lt e z = omega (arith, e, z, tally-update attends f j p n lt)

  publish_at-Awake :
      (x : Publisher) (j : ℕ) (s : System)
      → s.publisher j ≡ x
      → j < n
      → AtPublisher target x s.published s.known
      → Awake s
      → Awake (publish_at target x j s)
  unfolding publish_at
  publish_at-Awake Publisher.idle j s e lt a h = h
  publish_at-Awake Publisher.loading j s e lt a h =
      λ q f. rw q (moves s j Publisher.acquiring lt (omega (arith, ap attends e)) h q f)
  publish_at-Awake Publisher.acquiring j s e lt a h = λ q f. absurd (false≢true q)
  publish_at-Awake (Publisher.scanning x) j s e lt a h = elim (Bool-cases (s.published x)) [
    | inl more ↦ rw more (moves s j (Publisher.scanning (suc x)) lt (omega (arith, ap attends e)) h)
    | inr last ↦ rw last (elim (Bool-cases (ltb target x)) [
      | inl ready ↦ rw ready (moves s j (Publisher.resuming x) lt (omega (arith, ap attends e)) h)
      | inr early ↦ rw early (moves s j (Publisher.requeuing x) lt (omega (arith, ap attends e)) h)
    ])
  ]
  publish_at-Awake (Publisher.requeuing x) j s e lt a h =
      λ q f. attending s.publisher j (Publisher.rescanning x) s.consumer lt refl (ap attends e)
  publish_at-Awake (Publisher.rescanning x) j s e lt a h = λ q f.
      rw (f x (omega (arith, a))) (elim (Bool-cases (x == target)) [
        | inl all ↦ rw all (moves s j Publisher.reacquiring lt (omega (arith, ap attends e)) h q f)
        | inr some ↦
            rw some
              (moves s j (Publisher.rescanning (suc x)) lt (omega (arith, ap attends e)) h q f)
      ])
  publish_at-Awake Publisher.reacquiring j s e lt a h = λ q f. absurd (false≢true q)
  publish_at-Awake (Publisher.resuming x) j s e lt a h =
      moves s j Publisher.flagging lt (omega (arith, ap attends e)) h
  publish_at-Awake Publisher.flagging j s e lt a h =
      moves s j Publisher.idle lt (omega (arith, ap attends e)) h

  -- The consumer goes on looking.
  goes_on :
      (x p : Consumer) (s : System)
      → s.consumer ≡ x
      → looks x ≤ looks p
      → Awake s
      → Wake s.queued s.published s.publisher p
  goes_on x p s e le h q f = omega (arith, h q f, ap looks e, le)

  await_at-Awake :
      (x : Consumer) (s : System)
      → s.consumer ≡ x
      → AtConsumer target x s.published s.known
      → Awake s
      → Awake (await_at target x s)
  unfolding await_at
  await_at-Awake Consumer.fresh s e a h = elim (Bool-cases (ltb target s.known)) [
    | inl ready ↦ rw ready (goes_on Consumer.fresh Consumer.gone s e (omega arith) h)
    | inr early ↦ rw early (goes_on Consumer.fresh Consumer.enqueuing s e (omega arith) h)
  ]
  await_at-Awake Consumer.enqueuing s e a h = λ q f. omega arith
  await_at-Awake (Consumer.scanning x) s e a h = λ q f. elim (Bool-cases (s.published x)) [
    | inl more ↦ rw more (omega arith)
    | inr last ↦ rw last (elim (Bool-cases (ltb target x)) [
      | inl ready ↦ rw ready (omega arith)
      | inr early ↦ absurd (false≢true (sym last ∙ f x (ground (arith, early))))
    ])
  ]
  await_at-Awake (Consumer.reacquiring x) s e a h = λ q f. absurd (false≢true q)
  await_at-Awake (Consumer.resuming x) s e a h =
      goes_on (Consumer.resuming x) Consumer.flagging s e (omega arith) h
  await_at-Awake Consumer.flagging s e a h =
      goes_on Consumer.flagging Consumer.finishing s e (omega arith) h
  await_at-Awake Consumer.finishing s e a h = elim (Bool-cases s.ready) [
    | inl is_told ↦ rw is_told (goes_on Consumer.finishing Consumer.gone s e (omega arith) h)
    | inr untold ↦ rw untold (goes_on Consumer.finishing Consumer.suspended s e (omega arith) h)
  ]
  await_at-Awake Consumer.suspended s e a h = h
  await_at-Awake Consumer.gone s e a h = h

  Reach-Awake : {k : ℕ} {s : System} → Reach target n k s → Awake s
  unfolding init publish_store
  Reach-Awake Reach.here = λ q f. absurd (false≢true q)
  Reach-Awake (Reach.next {s = s} r (Step.store i j lt e)) =
      λ q f. attending s.publisher j Publisher.loading s.consumer lt refl (ap attends e)
  Reach-Awake (Reach.next {s = s} r (Step.publish j lt)) =
      publish_at-Awake (s.publisher j) j s refl lt ((Reach-Inv target n r).each j lt)
        (Reach-Awake r)
  Reach-Awake (Reach.next {s = s} r Step.await) =
      await_at-Awake s.consumer s refl (Reach-Inv target n r).mine (Reach-Awake r)

  -- No producer is inside `publish`.
  abbrev pub IsQuiet : System → Type 0
  IsQuiet s = (j : ℕ) → j < n → s.publisher j ≡ Publisher.idle

  idle_zero :
      (w : Publisher → ℕ) (s : System)
      → w Publisher.idle ≡ 0
      → IsQuiet s
      → tally w s.publisher n ≡ 0
  idle_zero w s z h = elim (Bool-cases (ltb 0 (tally w s.publisher n))) [
    | inl some ↦
        let (i, lt, p) = tally_pos w s.publisher n (ground (arith, some)) in
        absurd (omega (arith, p, z, ap w (h i lt)))
    | inr none ↦ ground (arith, none)
  ]

  waits_or_went :
      (r : Bool) (c m : ℕ) → Phase Consumer.suspended r c m → ((m ≡ 1) × (c ≡ 0)) ⊎ (c ≡ 1)
  waits_or_went r c m h = ground arith

  went_on :
      (p : Consumer) (r : Bool) (c m : ℕ)
      → Phase p r c m
      → (c ≤ 1) × (c ≡ 1 → (m ≡ 0) × (is_fresh p ≡ false))
  went_on p r c m h = ground arith

  -- The consumer goes on at most once, and then all numbers up to its target are published: those below
  -- the number behind the one that it has learned, which is greater than its target.
  pub woken_once :
      {k : ℕ} {s : System}
      → Reach target n k s
      → (s.continued ≤ 1) × (s.continued ≡ 1 → (target < s.known) × Prefix s.published s.known)
  woken_once {s = s} r =
      let v = Reach-Inv target n r in
      let (once, over) = went_on s.consumer s.ready s.continued (places target n s) v.phase in
      (once, λ e. (v.told (over e).0 (over e).1, v.known))

  -- When no producer is inside `publish` and the consumer is suspended in `await_suspend`, it has gone
  -- on, or not all numbers up to its target are published.
  pub none_forgotten :
      {k : ℕ} {s : System}
      → Reach target n k s
      → IsQuiet s
      → s.consumer ≡ Consumer.suspended
      → (s.continued ≡ 1) ⊎ ((s.continued ≡ 0) × (Prefix s.published (suc target) → ⊥))
  none_forgotten {s = s} r h e =
      let v = Reach-Inv target n r in
      elim (waits_or_went s.ready s.continued (places target n s)
        (subst (λ p. Phase p s.ready s.continued (places target n s)) e v.phase)) [
          | inl (one, zero_times) ↦ inr (
            zero_times,
            λ f. elim (Bool-cases s.queued) [
              | inl full ↦
                  absurd
                    (omega (arith, Reach-Awake r full f, idle_zero attends s refl h, ap looks e))
              | inr empty ↦
                  absurd
                    (omega (arith, one, ap weight_of empty, idle_zero holds s refl h, ap owns e))
            ],
          )
          | inr once ↦ inl once
        ]
