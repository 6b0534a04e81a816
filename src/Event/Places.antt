-- ===== src/Event/Places.antt =====
-- Where each operation is: on the list of the event, on that of a thread in `set`, or gone on.
use macoro.Common.{
  ℕ, suc, ◌+◌, ◌<◌, ◌≡◌, refl, sym, ap, subst, ◌∙◌, Bool, true, false, ◌==◌, ==_iff, ==_refl,
  if◌then◌else◌, List, [], ◌∷◌, count, Bool-cases, inl, inr, arith,
}
use mathlib.Core.Bool.{false≢true}
use macoro.Common.Family.{update, tally, tally-update, le_tally, tally-eq-zero}
use macoro.Event.Defs.{
  EventState, Pc, System, init, at, go_on, is_set, set_event, resume_next, reset_event, await_at,
  Step, Reach,
}

abbrev pub waiting : EventState → List ℕ
waiting EventState.set_state = []
waiting (EventState.not_set waiters) = waiters

-- An operation that was queued or went on is in one place, any other in none.
abbrev pub entered : Pc → ℕ
entered Pc.returned = 1
entered Pc.queued = 1
entered _ = 0

module _ (m : ℕ) where
  -- How often operation `i` is on a list of a thread in `set`.
  abbrev pub taken : ℕ → System → ℕ
  taken i s = tally (count i) s.resuming m

  abbrev pub places : ℕ → System → ℕ
  places i s = count i (waiting s.state) + taken i s + s.continued i

  pub record Inv (s : System) : Type 0 where
    pub placed : (i : ℕ) → places i s ≡ entered (s.pc i)
    pub not_before_set : s.was_set ≡ false → (i : ℕ) → (s.continued i ≡ 0) × (taken i s ≡ 0)
    pub set_seen : is_set s.state ≡ true → s.was_set ≡ true

  init-Inv : (b : Bool) → Inv (init b)
  unfolding init is_set
  init-Inv b = record {
    placed =
        λ i. let none = tally-eq-zero (count i) (init b).resuming (λ j. refl) m in nowhere b i none;
    not_before_set = λ h i. (refl, tally-eq-zero (count i) (init b).resuming (λ j. refl) m);
    set_seen = seen b;
  }
    where
      nowhere :
          (b : Bool) (i : ℕ)
          → taken i (init b) ≡ 0
          → count i (waiting (init b).state) + taken i (init b) + 0 ≡ 0
      nowhere true i e = omega (arith, e)
      nowhere false i e = omega (arith, e)

      seen : (b : Bool) → is_set (init b).state ≡ true → b ≡ true
      seen true e = refl
      seen false e = e

  set-Inv :
      (e : EventState) (j : ℕ)
      → j < m
      → (s : System) → s.state ≡ e
      → s.resuming j ≡ []
      → Inv s
      → Inv (set_event e j s)
  unfolding set_event
  set-Inv EventState.set_state j lt s e h v = record {
    placed = v.placed;
    not_before_set = λ h i. absurd (false≢true (sym h));
    set_seen = λ h. refl;
  }
  set-Inv (EventState.not_set ws) j lt s e h v = record {
    placed = λ i.
        let moved = tally-update (count i) s.resuming j ws m lt in
        let was_empty : count i (s.resuming j) ≡ 0 = ap (count i) h in
        let listed : count i (waiting s.state) ≡ count i ws = ap (λ x. count i (waiting x)) e in
        omega (arith, moved, was_empty, listed, v.placed i);
    not_before_set = λ b i. absurd (false≢true (sym b));
    set_seen = λ b. refl;
  }

  -- A place that passes from a list to the count of continuations.
  one_more :
      (a i : ℕ) (f : ℕ → ℕ) (l t t' c : ℕ)
      → t ≡ (if a == i then 1 else 0) + t'
      → l + t + f i ≡ c
      → l + t' + update f a (suc (f a)) i ≡ c
  one_more a i f h p = elim (Bool-cases (a == i)) [
    | inl e ↦ let same : f a ≡ f i = ap f ((==_iff a i).0 e) in ground (arith, h, p, e, same)
    | inr e ↦ ground (arith, h, p, e)
  ]

  resume-Inv :
      (l : List ℕ) (j : ℕ)
      → j < m
      → (s : System) → s.resuming j ≡ l
      → Inv s
      → Inv (resume_next l j s)
  unfolding resume_next
  resume-Inv [] j lt s h v = v
  resume-Inv (a ∷ rest) j lt s h v = record {
    placed = λ i.
        let moved = tally-update (count i) s.resuming j rest m lt in
        let had : count i (s.resuming j) ≡ (if a == i then 1 else 0) + count i rest =
          ap (count i) h in
        one_more a i s.continued _ _ _ _ (omega (arith, moved, had)) (v.placed i);
    not_before_set = λ b i.
        let none = (v.not_before_set b a).1 in
        let some_left = le_tally (count a) s.resuming m j lt in
        let had : count a (s.resuming j) ≡ (if a == a then 1 else 0) + count a rest =
          ap (count a) h in
        absurd (ground (arith, none, some_left, had, ==_refl a));
    set_seen = v.set_seen;
  }

  reset-Inv : (e : EventState) (s : System) → s.state ≡ e → Inv s → Inv (reset_event e s)
  unfolding reset_event is_set
  reset-Inv EventState.set_state s e v = record {
    placed = λ i.
        let listed : count i (waiting s.state) ≡ 0 = ap (λ x. count i (waiting x)) e in
        omega (arith, listed, v.placed i);
    not_before_set = v.not_before_set;
    set_seen = λ b. absurd (false≢true b);
  }
  reset-Inv (EventState.not_set ws) s e v = v

  -- Operation `i` goes on, joins the list, or takes a step that changes no place.
  module _ (i : ℕ) (s : System) (v : Inv s) where
    going : (s.was_set ≡ true) → entered (s.pc i) ≡ 0 → Inv (at (go_on s i) i Pc.returned)
    going b out = record {
      placed = λ k. elim (Bool-cases (i == k)) [
        | inl e ↦
            let here = v.placed i in
            subst
              (λ k. places k (at (go_on s i) i Pc.returned) ≡ entered (update s.pc i Pc.returned k))
              ((==_iff i k).0 e) (ground (arith, here, out, ==_refl i))
        | inr e ↦ rw e (v.placed k)
      ];
      not_before_set = λ c k. absurd (false≢true (sym c ∙ b));
      set_seen = v.set_seen;
    }

    joining :
        (ws : List ℕ)
        → s.state ≡ EventState.not_set ws
        → entered (s.pc i) ≡ 0
        → Inv (at (record s { state = EventState.not_set (i ∷ ws) }) i Pc.queued)
    unfolding is_set
    joining ws e out = record {
      placed = λ k.
          let listed : count k (waiting s.state) ≡ count k ws = ap (λ x. count k (waiting x)) e in
          elim (Bool-cases (i == k)) [
            | inl h ↦
                let same : s.pc i ≡ s.pc k = ap s.pc ((==_iff i k).0 h) in
                let outside : entered (s.pc k) ≡ 0 = ap entered (sym same) ∙ out in
                rw h (omega (arith, listed, outside, v.placed k))
            | inr h ↦ rw h (omega (arith, listed, v.placed k))
          ];
      not_before_set = v.not_before_set;
      set_seen = λ b. absurd (false≢true b);
    }

    moving : (p : Pc) → entered p ≡ entered (s.pc i) → Inv (at s i p)
    moving p e = record {
      placed = λ k. elim (Bool-cases (i == k)) [
        | inl h ↦ rw h (v.placed k ∙ ap (λ x. entered (s.pc x)) (sym ((==_iff i k).0 h)) ∙ sym e)
        | inr h ↦ rw h (v.placed k)
      ];
      not_before_set = v.not_before_set;
      set_seen = v.set_seen;
    }

  await-Inv :
      (p : Pc) (e : EventState) (i : ℕ) (s : System)
      → s.pc i ≡ p
      → s.state ≡ e
      → Inv s
      → Inv (await_at p e i s)
  unfolding await_at is_set
  await-Inv Pc.fresh EventState.set_state i s f g v =
      going i s v (v.set_seen (ap is_set g)) (ap entered f)
  await-Inv Pc.fresh (EventState.not_set ws) i s f g v =
      moving i s v Pc.suspending (sym (ap entered f))
  await-Inv Pc.suspending EventState.set_state i s f g v =
      going i s v (v.set_seen (ap is_set g)) (ap entered f)
  await-Inv Pc.suspending (EventState.not_set ws) i s f g v =
      moving i s v Pc.enqueuing (sym (ap entered f))
  await-Inv Pc.enqueuing EventState.set_state i s f g v =
      going i s v (v.set_seen (ap is_set g)) (ap entered f)
  await-Inv Pc.enqueuing (EventState.not_set ws) i s f g v = joining i s v ws g (ap entered f)
  await-Inv Pc.returned e i s f g v = v
  await-Inv Pc.queued e i s f g v = v

  pub Reach-Inv : {n : ℕ} {b : Bool} {s : System} → Reach n m b s → Inv s
  Reach-Inv {b = b} Reach.here = init-Inv b
  Reach-Inv (Reach.next {s = s} r (Step.set_call j lt h)) =
      set-Inv s.state j lt s refl h (Reach-Inv r)
  Reach-Inv (Reach.next {s = s} r (Step.resume_call j lt)) =
      resume-Inv (s.resuming j) j lt s refl (Reach-Inv r)
  Reach-Inv (Reach.next {s = s} r Step.reset_call) = reset-Inv s.state s refl (Reach-Inv r)
  Reach-Inv (Reach.next {s = s} r (Step.await_call i lt)) =
      await-Inv (s.pc i) s.state i s refl refl (Reach-Inv r)
