-- ===== src/WhenAll/Invariant.antt =====
-- The count against the tasks that have not reported, and who resumes the awaiting coroutine.
use macoro.Common.{
  ℕ, suc, ◌+◌, ◌<◌, ◌≤◌, ◌≡◌, ◌⊎◌, inl, inr, refl, sym, ap, subst, ◌∙◌, Bool, true, false, ltb,
  ◌==◌, ==_iff, ==_ne, Bool-cases, arith,
}
use mathlib.Core.Bool.{false≢true}
use macoro.Common.Family.{update, tally, tally-update, tally-eq-zero, tally_constant}
use macoro.WhenAll.Defs.{
  Task, Starter, System, init, resume_awaiting, start_at, report_at, Step, Reach,
}

abbrev pub is_open : Task → ℕ
is_open Task.unstarted = 1
is_open Task.running = 1
is_open _ = 0

abbrev pub notifies : Task → ℕ
notifies Task.notifying = 1
notifies _ = 0

-- The count that the awaiting coroutine itself holds.
abbrev own_count : Starter → ℕ
own_count Starter.suspended = 0
own_count Starter.gone = 0
own_count _ = 1

-- `h` tasks have not decremented the count and `t` are about to resume the coroutine.
abbrev Ok : Starter → Bool → ℕ → ℕ → ℕ → Type 0
Ok (Starter.starting k) a r h t = (a ≡ false) × (r ≡ 0) × (t ≡ 0)
Ok Starter.storing a r h t = (a ≡ false) × (r ≡ 0) × (t ≡ 0)
Ok Starter.leaving a r h t = (a ≡ true) × (r ≡ 0) × (t ≡ 0)
Ok Starter.suspended a r h t =
    (a ≡ true)
    × (((0 < h) × (t ≡ 0) × (r ≡ 0)) ⊎ ((h ≡ 0) × ((t ≡ 1) × (r ≡ 0) ⊎ ((t ≡ 0) × (r ≡ 1)))))
Ok Starter.gone a r h t = (a ≡ true) × (h ≡ 0) × (t ≡ 0) × (r ≡ 1)

-- How many tasks the loop has started, of `n`.
abbrev pub started : ℕ → Starter → ℕ
started n (Starter.starting k) = k
started n _ = n

abbrev pub is_started : Task → Bool
is_started Task.unstarted = false
is_started _ = true

-- Whether the awaiting coroutine has not left its `await_suspend`.
abbrev pub is_inside : Starter → Bool
is_inside Starter.suspended = false
is_inside Starter.gone = false
is_inside _ = true

-- Behind the loop's place no task is started.
abbrev IsFresh : Starter → (ℕ → Task) → Type 0
IsFresh (Starter.starting k) f = (i : ℕ) → k ≤ i → f i ≡ Task.unstarted
IsFresh _ f = Unit

-- A task that moves on keeps what holds of the others.
module _ (f : ℕ → Task) (i : ℕ) (x : Task) (h : is_started (f i) ≡ true) where
  kept_fresh : (p : Starter) → IsFresh p f → IsFresh p (update f i x)
  kept_fresh (Starter.starting k) v = λ j le. elim (Bool-cases (i == j)) [
    | inl e ↦
        let here = v i (subst (λ z. k ≤ z) (sym ((==_iff i j).0 e)) le) in
        absurd (false≢true (sym (ap is_started here) ∙ h))
    | inr e ↦ rw e (v j le)
  ]
  kept_fresh Starter.storing v = v
  kept_fresh Starter.leaving v = v
  kept_fresh Starter.suspended v = v
  kept_fresh Starter.gone v = v

  kept_begun :
      is_started x ≡ true → (j : ℕ) → is_started (f j) ≡ true → is_started (update f i x j) ≡ true
  kept_begun g j b = elim (Bool-cases (i == j)) [ inl e ↦ rw e g | inr e ↦ rw e b ]

-- What the last decrement, another one and a resumption do.
last_report :
    (p : Starter) (a : Bool) (r h t h' t' : ℕ)
    → h + own_count p ≡ 1
    → 1 + h' ≡ h
    → t' ≡ 1 + t
    → Ok p a r h t
    → Ok p a r h' t'
last_report p a r h t h' t' c d f v = ground arith

other_report :
    (p : Starter) (a : Bool) (r h t h' t' : ℕ)
    → (h + own_count p == 1) ≡ false
    → 1 + h' ≡ h
    → t' ≡ t
    → Ok p a r h t
    → Ok p a r h' t'
other_report p a r h t h' t' c d f v = ground arith

notified : (p : Starter) (r h t t' : ℕ) → t ≡ 1 + t' → Ok p true r h t → Ok p true (suc r) h t'
notified p r h t t' f v = ground arith

not_null : (p : Starter) (r h t t' : ℕ) → t ≡ 1 + t' → Ok p false r h t → ⊥
not_null p r h t t' f v = ground arith

module _ (n : ℕ) where
  abbrev pub still_open : System → ℕ
  still_open s = tally is_open s.task n

  abbrev pub about_to_notify : System → ℕ
  about_to_notify s = tally notifies s.task n

  pub record Inv (s : System) : Type 0 where
    counted : s.count ≡ still_open s + own_count s.starter
    ok : Ok s.starter s.awaiting s.resumed (still_open s) (about_to_notify s)
    no_crash : s.crashed ≡ false
    begun : (i : ℕ) → i < started n s.starter → is_started (s.task i) ≡ true
    fresh : IsFresh s.starter s.task

  init-Inv : Inv (init n)
  unfolding init
  init-Inv =
      let all = tally_constant is_open (init n).task (λ j. refl) n in
      let none = tally-eq-zero notifies (init n).task (λ j. refl) n in
      record {
        counted = omega (arith, all);
        ok = (refl, refl, none);
        no_crash = refl;
        begun = λ i lt. absurd (omega arith);
        fresh = λ i le. refl;
      }

  start-Inv : (x : Starter) (s : System) → s.starter ≡ x → Inv s → Inv (start_at n x s)
  unfolding start_at
  start-Inv (Starter.starting k) s e v =
      let c : s.count ≡ still_open s + own_count (Starter.starting k) =
        subst (λ x. s.count ≡ still_open s + own_count x) e v.counted in
      let h : Ok (Starter.starting k) s.awaiting s.resumed (still_open s) (about_to_notify s) =
        subst (λ x. Ok x s.awaiting s.resumed (still_open s) (about_to_notify s)) e v.ok in
      let b : (i : ℕ) → i < started n (Starter.starting k) → is_started (s.task i) ≡ true =
        subst (λ x. (i : ℕ) → i < started n x → is_started (s.task i) ≡ true) e v.begun in
      let f : IsFresh (Starter.starting k) s.task = subst (λ x. IsFresh x s.task) e v.fresh in
      elim (Bool-cases (ltb k n)) [
        | inl more ↦
            let lt : k < n = ground (arith, more) in
            let was_open : is_open (s.task k) ≡ 1 = ap is_open (f k (omega arith)) in
            let was_quiet : notifies (s.task k) ≡ 0 = ap notifies (f k (omega arith)) in
            let opened = tally-update is_open s.task k Task.running n lt in
            let quiet = tally-update notifies s.task k Task.running n lt in
            rw more record {
              counted = omega (arith, c, was_open, opened);
              ok = (h.0, h.1, omega (arith, h.2, was_quiet, quiet));
              no_crash = v.no_crash;
              begun = λ i le. elim (Bool-cases (k == i)) [
                | inl same ↦ rw same refl
                | inr other ↦ rw other (b i (ground (arith, other, le)))
              ];
              fresh = λ i le. rw (==_ne k i (omega (arith, le))) (f i (omega (arith, le)));
            }
        | inr last ↦ rw last record {
          counted = c;
          ok = h;
          no_crash = v.no_crash;
          begun = λ i le. b i (ground (arith, last, le));
          fresh = tt;
        }
      ]
  start-Inv Starter.storing s e v =
      let c : s.count ≡ still_open s + own_count Starter.storing =
        subst (λ x. s.count ≡ still_open s + own_count x) e v.counted in
      let h : Ok Starter.storing s.awaiting s.resumed (still_open s) (about_to_notify s) =
        subst (λ x. Ok x s.awaiting s.resumed (still_open s) (about_to_notify s)) e v.ok in
      let b : (i : ℕ) → i < started n Starter.storing → is_started (s.task i) ≡ true =
        subst (λ x. (i : ℕ) → i < started n x → is_started (s.task i) ≡ true) e v.begun in
      record { counted = c; ok = (refl, h.1, h.2); no_crash = v.no_crash; begun = b; fresh = tt }
  start-Inv Starter.leaving s e v =
      let c : s.count ≡ still_open s + own_count Starter.leaving =
        subst (λ x. s.count ≡ still_open s + own_count x) e v.counted in
      let h : Ok Starter.leaving s.awaiting s.resumed (still_open s) (about_to_notify s) =
        subst (λ x. Ok x s.awaiting s.resumed (still_open s) (about_to_notify s)) e v.ok in
      let b : (i : ℕ) → i < started n Starter.leaving → is_started (s.task i) ≡ true =
        subst (λ x. (i : ℕ) → i < started n x → is_started (s.task i) ≡ true) e v.begun in
      elim (Bool-cases (ltb 1 s.count)) [
        | inl more ↦ rw more record {
          counted = ground (arith, c, more);
          ok = ground (arith, c, h, more);
          no_crash = v.no_crash;
          begun = b;
          fresh = tt;
        }
        | inr last ↦ rw last record {
          counted = ground (arith, c, last);
          ok = ground (arith, c, h, last);
          no_crash = v.no_crash;
          begun = b;
          fresh = tt;
        }
      ]
  start-Inv Starter.suspended s e v = v
  start-Inv Starter.gone s e v = v

  report-Inv :
      (x : Task) (i : ℕ) (s : System) → i < n → s.task i ≡ x → Inv s → Inv (report_at x i s)
  unfolding report_at resume_awaiting
  report-Inv Task.unstarted i s lt e v = v
  report-Inv Task.running i s lt e v =
      let was_open : is_open (s.task i) ≡ 1 = ap is_open e in
      let was_quiet : notifies (s.task i) ≡ 0 = ap notifies e in
      let was_started : is_started (s.task i) ≡ true = ap is_started e in
      elim (Bool-cases (s.count == 1)) [
        | inl last ↦
            let closed = tally-update is_open s.task i Task.notifying n lt in
            let more = tally-update notifies s.task i Task.notifying n lt in
            rw last record {
              counted = omega (arith, closed, was_open, v.counted);
              ok =
                  last_report s.starter _ _ (still_open s) (about_to_notify s) _ _
                    (sym v.counted ∙ (==_iff s.count 1).0 last) (omega (arith, closed, was_open))
                    (omega (arith, more, was_quiet)) v.ok;
              no_crash = v.no_crash;
              begun = λ j le. kept_begun s.task i Task.notifying was_started refl j (v.begun j le);
              fresh = kept_fresh s.task i Task.notifying was_started s.starter v.fresh;
            }
        | inr other ↦
            let closed = tally-update is_open s.task i Task.reported n lt in
            let same = tally-update notifies s.task i Task.reported n lt in
            rw other record {
              counted = omega (arith, closed, was_open, v.counted);
              ok =
                  other_report s.starter _ _ (still_open s) (about_to_notify s) _ _
                    (subst (λ x. (x == 1) ≡ false) v.counted other)
                    (omega (arith, closed, was_open)) (omega (arith, same, was_quiet)) v.ok;
              no_crash = v.no_crash;
              begun = λ j le. kept_begun s.task i Task.reported was_started refl j (v.begun j le);
              fresh = kept_fresh s.task i Task.reported was_started s.starter v.fresh;
            }
      ]
  report-Inv Task.notifying i s lt e v =
      let was_open : is_open (s.task i) ≡ 0 = ap is_open e in
      let was_quiet : notifies (s.task i) ≡ 1 = ap notifies e in
      let was_started : is_started (s.task i) ≡ true = ap is_started e in
      let same = tally-update is_open s.task i Task.reported n lt in
      let fewer = tally-update notifies s.task i Task.reported n lt in
      let kept : tally is_open (update s.task i Task.reported) n ≡ still_open s =
        omega (arith, same, was_open) in
      let gone : about_to_notify s ≡ 1 + tally notifies (update s.task i Task.reported) n =
        omega (arith, fewer, was_quiet) in
      elim (Bool-cases s.awaiting) [
        | inl stored ↦ rw stored record {
          counted = omega (arith, kept, v.counted);
          ok = rw kept (
              notified s.starter _ (still_open s) (about_to_notify s) _ gone (
                subst (λ x. Ok s.starter x s.resumed (still_open s) (about_to_notify s)) stored
                  v.ok));
          no_crash = v.no_crash;
          begun = λ j le. kept_begun s.task i Task.reported was_started refl j (v.begun j le);
          fresh = kept_fresh s.task i Task.reported was_started s.starter v.fresh;
        }
        | inr null ↦ absurd (
            not_null s.starter _ (still_open s) (about_to_notify s) _ gone
              (subst (λ x. Ok s.starter x s.resumed (still_open s) (about_to_notify s)) null v.ok))
      ]
  report-Inv Task.reported i s lt e v = v

  pub Reach-Inv : {s : System} → Reach n s → Inv s
  Reach-Inv Reach.here = init-Inv
  Reach-Inv (Reach.next {s = s} r Step.start) = start-Inv s.starter s refl (Reach-Inv r)
  Reach-Inv (Reach.next {s = s} r (Step.report i lt)) =
      report-Inv (s.task i) i s lt refl (Reach-Inv r)

  once :
      (p : Starter) (a : Bool) (r h t : ℕ)
      → Ok p a r h t
      → (r ≤ 1) × (r ≡ 1 → h ≡ 0) × (is_inside p ≡ false → h ≡ 0 → t ≡ 0 → r ≡ 1)
  once p a r h t v = ground arith

  outside : (p : Starter) → is_inside p ≡ false → started n p ≡ n
  outside p e = ground arith

  -- The awaiting coroutine goes on at most once, and only when every task has ended; it has gone on
  -- once it is out of `await_suspend` and every task has ended and reported, and `await_suspend`
  -- leaves no task unstarted. No null handle is ever resumed.
  pub resumed_after_all :
      {s : System}
      → Reach n s
      → (s.resumed ≤ 1)
        × (s.resumed ≡ 1 → still_open s ≡ 0)
        × (is_inside s.starter ≡ false
            → ((i : ℕ) → i < n → is_started (s.task i) ≡ true)
              × (still_open s ≡ 0 → about_to_notify s ≡ 0 → s.resumed ≡ 1))
        × (s.crashed ≡ false)
  resumed_after_all {s} r =
      let v = Reach-Inv r in
      let (at_most, last, ended) =
        once s.starter s.awaiting s.resumed (still_open s) (about_to_notify s) v.ok in
      (
        at_most,
        last,
        λ e. ((λ i lt. v.begun i (subst (λ x. i < x) (sym (outside s.starter e)) lt)), ended e),
        v.no_crash,
      )
