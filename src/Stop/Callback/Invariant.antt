-- ===== src/Stop/Callback/Invariant.antt =====
-- What holds of each registration, whatever the order of the steps.
use macoro.Common.{
  ℕ, suc, ◌<◌, ◌≤◌, ◌≡◌, ◌⊎◌, inl, inr, Bool, true, false, ltb, ◌==◌, ==_iff, refl, ap, ◌∙◌, subst,
  arith, Bool-cases,
}
use macoro.Stop.Callback.Defs.{
  Notifier, Pc, System, init, notify_at, register_at, deregister, is_calling, is_started, Step,
  Reach,
}

-- The notifier has left slot `i` behind, or has taken what was in it; it looks at none without a
-- registration state.
abbrev pub passed : ℕ → Notifier → Bool
passed i Notifier.idle = false
passed i Notifier.flagged = false
passed i (Notifier.visiting k) = ltb i k
passed i (Notifier.exchanging k) = ltb i k
passed i (Notifier.calling k) = ltb i (suc k)
passed i Notifier.skipped = true
passed i Notifier.done = true

abbrev pub taken : ℕ → Notifier → Bool
taken i Notifier.skipped = false
taken i nt = passed i nt

-- The registration stands in its slot, or the notifier took it and ran its callback.
abbrev pub IsHeld : Bool → ℕ → Bool → Type 0
IsHeld slot runs gone = ((slot ≡ true) × (runs ≡ 0)) ⊎ ((slot ≡ false) × (runs ≡ 1) × (gone ≡ true))

abbrev pub Ok : Pc → ℕ → Bool → Bool → Notifier → Bool → ℕ → Type 0
Ok Pc.storing i req al nt slot runs = (slot ≡ false) × (runs ≡ 0) × (al ≡ true)
Ok Pc.rechecking i req al nt slot runs = (al ≡ true) × IsHeld slot runs (taken i nt)
Ok Pc.removing i req al nt slot runs = (al ≡ true) × (req ≡ true) × IsHeld slot runs (taken i nt)
Ok Pc.registered i req al nt slot runs =
    (al ≡ true) × IsHeld slot runs (taken i nt) × (slot ≡ true → passed i nt ≡ false)
Ok Pc.ran_inline i req al nt slot runs = (slot ≡ false) × (runs ≡ 1)
Ok Pc.waiting i req al nt slot runs = (slot ≡ false) × (runs ≡ 1) × (taken i nt ≡ true)
Ok (Pc.destroyed inside) i req al nt slot runs =
    (slot ≡ false) × (runs ≤ 1) × (inside ≡ false → is_calling i nt ≡ false)
Ok _ i req al nt slot runs = (slot ≡ false) × (runs ≡ 0)

-- The end of the notification.
abbrev pub is_done : Notifier → Bool
is_done Notifier.done = true
is_done _ = false

abbrev pub AllOk : ℕ → System → Type 0
AllOk n s =
    (i : ℕ) → i < n → Ok (s.pc i) i s.requested s.allocated s.notifier (s.slot i) (s.executed i)

pub record Inv (n : ℕ) (s : System) : Type 0 where
  pub request_seen : s.requested ≡ is_started s.notifier
  pub completed : s.complete ≡ is_done s.notifier
  pub all_ok : AllOk n s

init-Inv : (n : ℕ) → Inv n init
unfolding init
init-Inv n = record { request_seen = refl; completed = refl; all_ok = λ i lt. (refl, refl) }

-- What a step of the notifier keeps of one registration.
module _ (n : ℕ) (s : System) (i : ℕ) (lt : i < n) where
  abbrev Kept : Pc → System → Type 0
  Kept p t = Ok p i t.requested t.allocated t.notifier (t.slot i) (t.executed i)

  notify-Ok :
      (nt : Notifier) (p : Pc)
      → s.notifier ≡ nt
      → s.requested ≡ is_started nt
      → Kept p s
      → Kept p (notify_at n nt s)
  unfolding notify_at
  notify-Ok Notifier.idle p e r v = ground arith
  notify-Ok Notifier.flagged p e r v = ground arith
  notify-Ok Notifier.skipped p e r v = v
  notify-Ok (Notifier.visiting k) p e r v = ground arith
  notify-Ok (Notifier.exchanging k) p e r v = ground arith
  notify-Ok (Notifier.calling k) p e r v = ground arith
  notify-Ok Notifier.done p e r v = v

abbrev OwnOk : ℕ → System → Type 0
OwnOk i s = Ok (s.pc i) i s.requested s.allocated s.notifier (s.slot i) (s.executed i)

-- Registration `j` sees nothing of the step, or only that the registration state was allocated.
record Untouched (j : ℕ) (s t : System) : Type 0 where
  same_pc : t.pc j ≡ s.pc j
  same_slot : t.slot j ≡ s.slot j
  same_executed : t.executed j ≡ s.executed j
  same_requested : t.requested ≡ s.requested
  same_notifier : t.notifier ≡ s.notifier
  allocated_stays : s.allocated ≡ true → t.allocated ≡ true

Ok-allocated :
    (p : Pc) (i : ℕ) (req al al' : Bool) (nt : Notifier) (slot : Bool) (runs : ℕ)
    → (al ≡ true → al' ≡ true)
    → Ok p i req al nt slot runs
    → Ok p i req al' nt slot runs
Ok-allocated p i req al al' nt slot runs h v = ground arith

Untouched-Ok : (j : ℕ) (s t : System) → Untouched j s t → OwnOk j s → OwnOk j t
Untouched-Ok j s t u v =
    rw (u.same_pc, u.same_slot, u.same_executed, u.same_requested, u.same_notifier)
      (Ok-allocated (s.pc j) j _ _ _ _ _ _ u.allocated_stays v)

module _ (s : System) (i : ℕ) where
  register-Ok :
      (p : Pc)
      → s.pc i ≡ p
      → s.requested ≡ is_started s.notifier
      → s.complete ≡ is_done s.notifier
      → Ok p i s.requested s.allocated s.notifier (s.slot i) (s.executed i)
      → OwnOk i (register_at p i s)
  unfolding register_at
  register-Ok Pc.fresh e r c v = ground arith
  register-Ok p e r c v = ground arith

  register-Untouched : (p : Pc) (j : ℕ) → (i == j) ≡ false → Untouched j s (register_at p i s)
  unfolding register_at
  register-Untouched Pc.fresh j e = ground arith
  register-Untouched p j e = ground arith

  deregister-Ok :
      (inside : Bool) → s.pc i ≡ Pc.registered → OwnOk i s → OwnOk i (deregister inside i s)
  unfolding deregister
  deregister-Ok inside e v = ground arith

  deregister-Untouched :
      (inside : Bool) (j : ℕ) → (i == j) ≡ false → Untouched j s (deregister inside i s)
  unfolding deregister
  deregister-Untouched inside j e = ground arith

  -- Fields that neither a registration nor a deregistration writes.
  register-notifier :
      (p : Pc)
      → ((register_at p i s).requested ≡ s.requested)
        × ((register_at p i s).complete ≡ s.complete)
        × ((register_at p i s).notifier ≡ s.notifier)
  unfolding register_at
  register-notifier Pc.fresh = ground arith
  register-notifier p = ground arith

  deregister-notifier :
      (inside : Bool)
      → ((deregister inside i s).requested ≡ s.requested)
        × ((deregister inside i s).complete ≡ s.complete)
        × ((deregister inside i s).notifier ≡ s.notifier)
  unfolding deregister
  deregister-notifier inside = ground arith

module _ (n : ℕ) where
  -- A step of object `i` alone.
  one_object :
      (s t : System) (i : ℕ)
      → (t.requested ≡ s.requested) × (t.complete ≡ s.complete) × (t.notifier ≡ s.notifier)
      → (i < n → OwnOk i t)
      → ((j : ℕ) → (i == j) ≡ false → Untouched j s t)
      → Inv n s
      → Inv n t
  one_object s t i (r, c, e) own others v = record {
    request_seen = rw (r, e) v.request_seen;
    completed = rw (c, e) v.completed;
    all_ok = λ j lt. elim (Bool-cases (i == j)) [
      | inl same ↦ subst (λ x. x < n → OwnOk x t) ((==_iff i j).0 same) own lt
      | inr other ↦ Untouched-Ok j s t (others j other) (v.all_ok j lt)
    ];
  }

  notify-fields :
      (nt : Notifier) (s : System)
      → s.requested ≡ is_started nt
      → s.complete ≡ is_done nt
      → s.notifier ≡ nt
      → ((notify_at n nt s).requested ≡ is_started (notify_at n nt s).notifier)
        × ((notify_at n nt s).complete ≡ is_done (notify_at n nt s).notifier)
        × ((notify_at n nt s).pc ≡ s.pc)
  unfolding notify_at
  notify-fields Notifier.idle s r c e = ground arith
  notify-fields nt s r c e = ground arith

  notify-Inv : (nt : Notifier) (s : System) → s.notifier ≡ nt → Inv n s → Inv n (notify_at n nt s)
  notify-Inv nt s e v =
      let (r, c, p) =
        notify-fields nt s (v.request_seen ∙ ap is_started e) (v.completed ∙ ap is_done e) e in
      record {
        request_seen = r;
        completed = c;
        all_ok = λ i lt.
            rw p
              (notify-Ok n s i lt nt (s.pc i) e (v.request_seen ∙ ap is_started e) (v.all_ok i lt));
      }

  pub Step-Inv : {s t : System} → Step n s t → Inv n s → Inv n t
  Step-Inv (Step.sources_gone e) v = record {
    request_seen = v.request_seen;
    completed = v.completed;
    all_ok = v.all_ok;
  }
  Step-Inv {s} (Step.request e _) v = notify-Inv Notifier.idle s e v
  Step-Inv {s} (Step.notify _) v = notify-Inv s.notifier s refl v
  Step-Inv {s} (Step.register i lt) v =
      one_object s (register_at (s.pc i) i s) i (register-notifier s i (s.pc i))
        (λ lt. register-Ok s i (s.pc i) refl v.request_seen v.completed (v.all_ok i lt))
        (register-Untouched s i (s.pc i)) v
  Step-Inv {s} (Step.destroy i lt e) v =
      one_object s (deregister false i s) i (deregister-notifier s i false)
        (λ lt. deregister-Ok s i false e (v.all_ok i lt)) (deregister-Untouched s i false) v
  Step-Inv {s} (Step.destroy_inside i k lt e _) v =
      one_object s (deregister true i s) i (deregister-notifier s i true)
        (λ lt. deregister-Ok s i true e (v.all_ok i lt)) (deregister-Untouched s i true) v

  pub Reach-Inv : {s : System} → Reach n s → Inv n s
  Reach-Inv Reach.here = init-Inv n
  Reach-Inv (Reach.next r st) = Step-Inv st (Reach-Inv r)
