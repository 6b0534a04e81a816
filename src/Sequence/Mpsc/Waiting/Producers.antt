-- ===== src/Sequence/Mpsc/Waiting/Producers.antt =====
-- Every step of a producer keeps the invariant.
use macoro.Common.{
  ℕ, suc, ◌<◌, ◌≡◌, inl, inr, refl, sym, ap, subst, true, false, ltb, ◌==◌, if◌then◌else◌,
  Bool-cases, arith,
}
use macoro.Common.Family.{tally-update, le_tally}
use macoro.Sequence.Mpsc.Waiting.Defs.{Publisher, System, move, publish_store, publish_at}
use macoro.Sequence.Mpsc.Waiting.Knows.{
  holds, Phase, Prefix, prefix_next, prefix_store, AtPublisher, AtPublisher-store, AtConsumer-store,
}
use macoro.Sequence.Mpsc.Waiting.Places.{weigh, flagged, bounded, places, not_owned, move-Inv, Inv}

module _ (target n : ℕ) where
  -- What a producer knows at its place.
  here :
      {x : Publisher} (s : System) (j : ℕ)
      → s.publisher j ≡ x
      → j < n
      → Inv target n s
      → AtPublisher target x s.published s.known
  here s j e lt v = subst (λ p. AtPublisher target p s.published s.known) e (v.each j lt)

  -- A move that neither takes the operation nor gives it away.
  quiet-Inv :
      (s : System) (j : ℕ) (p : Publisher)
      → j < n
      → Inv target n s
      → holds p ≡ holds (s.publisher j)
      → AtPublisher target p s.published s.known
      → Inv target n (move s j p)
  quiet-Inv s j p lt v e a =
      let m = tally-update holds s.publisher j p n lt in
      move-Inv target n s j p s.queued s.known s.ready s.continued lt v
        (subst (Phase s.consumer s.ready s.continued) (omega (arith, m, e)) v.phase) v.known
        (λ z f. v.told (omega (arith, z, m, e)) f) a (inl refl)

  -- The exchange with null.
  exchange-Inv :
      (s : System) (j : ℕ)
      → j < n
      → Inv target n s
      → holds (s.publisher j) ≡ 0
      → Inv target n (
          move
            (record s { queued = false })
            j
            (if s.queued then Publisher.scanning s.known else Publisher.idle))
  exchange-Inv s j lt v e = elim (Bool-cases s.queued) [
    | inl full ↦
        let m = tally-update holds s.publisher j (Publisher.scanning s.known) n lt in
        let q = weigh s.queued true full in
        subst
          (λ b. Inv target n (
            move (record s { queued = false }) j
              (if b then Publisher.scanning s.known else Publisher.idle)))
          (sym full)
          (move-Inv target n s j (Publisher.scanning s.known) false s.known s.ready s.continued lt v
            (subst (Phase s.consumer s.ready s.continued) (omega (arith, m, e, q)) v.phase) v.known
            (λ z f. absurd (omega (arith, z, m))) v.known (inl refl))
    | inr empty ↦
        let m = tally-update holds s.publisher j Publisher.idle n lt in
        let q = weigh s.queued false empty in
        subst
          (λ b. Inv target n (
            move (record s { queued = false }) j
              (if b then Publisher.scanning s.known else Publisher.idle)))
          (sym empty)
          (move-Inv target n s j Publisher.idle false s.known s.ready s.continued lt v
            (subst (Phase s.consumer s.ready s.continued) (omega (arith, m, e, q)) v.phase) v.known
            (λ z f. v.told (omega (arith, z, m, e, q)) f) tt (inl refl))
  ]

  -- A move with the operation in hand that writes what is known.
  known-Inv :
      (s : System) (j k : ℕ) (p : Publisher)
      → j < n
      → Inv target n s
      → holds (s.publisher j) ≡ 1
      → holds p ≡ 1
      → Prefix s.published k
      → AtPublisher target p s.published k
      → Inv target n (move (record s { known = k }) j p)
  known-Inv s j k p lt v e e' x a =
      let m = tally-update holds s.publisher j p n lt in
      move-Inv target n s j p s.queued k s.ready s.continued lt v
        (subst (Phase s.consumer s.ready s.continued) (omega (arith, m, e, e')) v.phase) x
        (λ z f. absurd (omega (arith, z, m, e, e', le_tally holds s.publisher n j lt))) a (inr e)

  pub publish_at-Inv :
      (x : Publisher) (j : ℕ) (s : System)
      → s.publisher j ≡ x
      → j < n
      → Inv target n s
      → Inv target n (publish_at target x j s)
  unfolding publish_at
  publish_at-Inv Publisher.idle j s e lt v = v
  publish_at-Inv Publisher.loading j s e lt v = elim (Bool-cases s.queued) [
    | inl full ↦
        subst (λ b. Inv target n (move s j (if b then Publisher.acquiring else Publisher.idle)))
          (sym full) (quiet-Inv s j Publisher.acquiring lt v (sym (ap holds e)) tt)
    | inr empty ↦
        subst (λ b. Inv target n (move s j (if b then Publisher.acquiring else Publisher.idle)))
          (sym empty) (quiet-Inv s j Publisher.idle lt v (sym (ap holds e)) tt)
  ]
  publish_at-Inv Publisher.acquiring j s e lt v = exchange-Inv s j lt v (ap holds e)
  publish_at-Inv (Publisher.scanning x) j s e lt v = elim (Bool-cases (s.published x)) [
    | inl more ↦ rw more (
        quiet-Inv s j (Publisher.scanning (suc x)) lt v (sym (ap holds e))
          (prefix_next s.published x (here s j e lt v) more))
    | inr last ↦ rw last (elim (Bool-cases (ltb target x)) [
      | inl ready ↦ rw ready (
          known-Inv s j x (Publisher.resuming x) lt v (ap holds e) refl (here s j e lt v)
            (here s j e lt v, ground (arith, ready)))
      | inr early ↦ rw early (
          known-Inv s j x (Publisher.requeuing x) lt v (ap holds e) refl (here s j e lt v)
            (ground (arith, early)))
    ])
  ]
  publish_at-Inv (Publisher.requeuing x) j s e lt v =
      let m = tally-update holds s.publisher j (Publisher.rescanning x) n lt in
      let alone = bounded s.consumer s.ready s.continued (places target n s) v.phase in
      let one = le_tally holds s.publisher n j lt in
      move-Inv target n s j (Publisher.rescanning x) true s.known s.ready s.continued lt v
        (subst (Phase s.consumer s.ready s.continued) (omega (arith, m, ap holds e, alone, one))
          v.phase)
        v.known (λ z f. absurd (omega (arith, z))) (here s j e lt v) (inl refl)
  publish_at-Inv (Publisher.rescanning x) j s e lt v = elim (Bool-cases (s.published x)) [
    | inl more ↦ rw more (elim (Bool-cases (x == target)) [
      | inl all ↦ rw all (quiet-Inv s j Publisher.reacquiring lt v (sym (ap holds e)) tt)
      | inr some ↦ rw some (
          quiet-Inv s j (Publisher.rescanning (suc x)) lt v (sym (ap holds e))
            (let h = here s j e lt v in ground (arith, some, h)))
    ])
    | inr last ↦ rw last (quiet-Inv s j Publisher.idle lt v (sym (ap holds e)) tt)
  ]
  publish_at-Inv Publisher.reacquiring j s e lt v = exchange-Inv s j lt v (ap holds e)
  publish_at-Inv (Publisher.resuming x) j s e lt v =
      let (p, h) = here s j e lt v in known-Inv s j x Publisher.flagging lt v (ap holds e) refl p h
  publish_at-Inv Publisher.flagging j s e lt v =
      let m = tally-update holds s.publisher j Publisher.idle n lt in
      move-Inv target n s j Publisher.idle s.queued s.known true
        (if s.ready then suc s.continued else s.continued) lt v
        (flagged s.consumer s.ready s.continued (places target n s) _ v.phase
          (omega (arith, m, ap holds e)) (not_owned target n s j lt v (ap holds e)))
        v.known (λ z f. here s j e lt v) tt (inl refl)

  pub store-Inv :
      (i j : ℕ) (s : System)
      → j < n
      → s.publisher j ≡ Publisher.idle
      → Inv target n s
      → Inv target n (publish_store i j s)
  unfolding publish_store
  store-Inv i j s lt e v =
      let m = tally-update holds s.publisher j Publisher.loading n lt in
      record {
        phase = subst (Phase s.consumer s.ready s.continued) (omega (arith, m, ap holds e)) v.phase;
        known = prefix_store s.published i s.known v.known;
        told = λ z f. v.told (omega (arith, z, m, ap holds e)) f;
        each = λ k lt'. elim (Bool-cases (j == k)) [
          | inl same ↦ rw same tt
          | inr other ↦
              rw other
                (AtPublisher-store target (s.publisher k) s.published s.known i (v.each k lt'))
        ];
        mine = AtConsumer-store target s.consumer s.published s.known i v.mine;
      }
