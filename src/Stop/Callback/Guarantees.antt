-- ===== src/Stop/Callback/Guarantees.antt =====
-- What a stop_callback may rely on, in every interleaving.
use macoro.Common.{ℕ, ◌<◌, ◌≤◌, ◌≡◌, ◌⊎◌, inl, inr, Bool, true, false, ap, arith}
use macoro.Stop.Callback.Defs.{Notifier, Pc, System, is_calling, Reach}
use macoro.Stop.Callback.Invariant.{Reach-Inv, Ok, passed}

-- The constructor of the object has returned with the callback registered, and the destructor has
-- not started.
abbrev pub is_live : Pc → Bool
is_live Pc.registered = true
is_live _ = false

module _ (i : ℕ) (req al : Bool) (nt : Notifier) (slot : Bool) (runs : ℕ) where
  Ok-runs : (p : Pc) → Ok p i req al nt slot runs → runs ≤ 1
  Ok-runs p v = ground arith

  Ok-done :
      (p : Pc)
      → is_live p ≡ true
      → passed i nt ≡ true
      → Ok p i req al nt slot runs
      → (runs ≡ 1) × (slot ≡ false)
  Ok-done p e h v = ground arith

-- A callback runs at most once: the notifier and the constructor never both run it.
pub executed_at_most_once : (n : ℕ) {s : System} → Reach n s → (i : ℕ) → i < n → s.executed i ≤ 1
executed_at_most_once n {s} r i lt =
    Ok-runs i s.requested s.allocated s.notifier (s.slot i) (s.executed i) (s.pc i)
      ((Reach-Inv n r).all_ok i lt)

-- When the notification is complete or found no registration, every callback whose constructor has
-- registered it has run exactly once and left its slot: none is missed.
pub no_callback_missed :
    (n : ℕ) {s : System}
    → Reach n s
    → (s.notifier ≡ Notifier.done) ⊎ (s.notifier ≡ Notifier.skipped)
    → (i : ℕ) → i < n
    → s.pc i ≡ Pc.registered
    → (s.executed i ≡ 1) × (s.slot i ≡ false)
no_callback_missed n {s} r h i lt e =
    Ok-done i s.requested s.allocated s.notifier (s.slot i) (s.executed i) (s.pc i) (ap is_live e)
      (gone h) ((Reach-Inv n r).all_ok i lt)
  where
    gone :
        (s.notifier ≡ Notifier.done) ⊎ (s.notifier ≡ Notifier.skipped) → passed i s.notifier ≡ true
    gone (inl d) = ap (passed i) d
    gone (inr d) = ap (passed i) d

-- A destructor that runs outside of the callback itself has returned only when the notifier is not
-- inside that callback: it never outlives its object.
pub destroyed-is_calling :
    (n : ℕ) {s : System}
    → Reach n s
    → (i : ℕ) → i < n
    → s.pc i ≡ Pc.destroyed false
    → is_calling i s.notifier ≡ false
destroyed-is_calling n {s} r i lt e = let v = Reach-Inv n r in elim_ok (s.pc i) e (v.all_ok i lt)
  where
    elim_ok :
        (p : Pc)
        → p ≡ Pc.destroyed false
        → Ok p i s.requested s.allocated s.notifier (s.slot i) (s.executed i)
        → is_calling i s.notifier ≡ false
    elim_ok p e v = ground arith

-- The notifier has looked at the slots, so that it reports the notification complete at the end.
abbrev pub is_reporting : Notifier → Bool
is_reporting Notifier.idle = false
is_reporting Notifier.flagged = false
is_reporting Notifier.skipped = false
is_reporting _ = true

-- A destructor waits only for a callback that the notifier has started, and only for a notifier
-- that goes through the slots and reports the notification complete at their end.
pub waiting_started :
    (n : ℕ) {s : System}
    → Reach n s
    → (i : ℕ) → i < n
    → s.pc i ≡ Pc.waiting
    → (is_reporting s.notifier ≡ true) × (s.executed i ≡ 1) × (s.slot i ≡ false)
waiting_started n {s} r i lt e =
    let v = Reach-Inv n r in elim_ok (s.pc i) s.notifier e (v.all_ok i lt)
  where
    elim_ok :
        (p : Pc) (nt : Notifier)
        → p ≡ Pc.waiting
        → Ok p i s.requested s.allocated nt (s.slot i) (s.executed i)
        → (is_reporting nt ≡ true) × (s.executed i ≡ 1) × (s.slot i ≡ false)
    elim_ok p nt e v = ground arith
