-- ===== src/Stop/Callback/Defs.antt =====
-- The state, and the steps of the notifier and of the registrations.
use macoro.Common.{ℕ, suc, ◌<◌, ◌≡◌, ◌==◌, Bool, true, false, ltb, if◌then◌else◌}
use macoro.Common.Family.{update}

-- Where the thread stands that calls `request_stop` first.
pub data Notifier : Type 0 where
  idle : Notifier
  flagged : Notifier  -- before the load of m_registrationState
  skipped : Notifier  -- there was no registration state
  visiting : (k : ℕ) → Notifier  -- before the load of slot k
  exchanging : (k : ℕ) → Notifier  -- before the exchange of slot k
  calling : (k : ℕ) → Notifier  -- inside callback k
  done : Notifier

-- Where a stop_callback object stands.
pub data Pc : Type 0 where
  fresh : Pc  -- before the test of stop_possible
  unattached : Pc  -- no stop is possible any more: m_state is null
  checking : Pc  -- before the first test of the request
  loading : Pc  -- before the load of m_registrationState
  storing : Pc  -- before the registration is stored in its slot
  rechecking : Pc  -- before the second test of the request
  removing : Pc  -- before the compare-exchange that takes the registration back
  registered : Pc
  ran_inline : Pc  -- the constructor ran the callback: m_state is null
  waiting : Pc  -- in the destructor, until the notification is complete
  destroyed : (inside : Bool) → Pc  -- inside: by the notifier, in a callback

pub record System : Type 0 where
  pub possible : Bool
  pub requested : Bool
  pub allocated : Bool
  pub complete : Bool
  pub slot : ℕ → Bool
  pub executed : ℕ → ℕ
  pub notifier : Notifier
  pub pc : ℕ → Pc

unfoldable pub init : System
init = record {
  possible = true;
  requested = false;
  allocated = false;
  complete = false;
  slot = λ _. false;
  executed = λ _. 0;
  notifier = Notifier.idle;
  pc = λ _. Pc.fresh;
}

abbrev pub at : System → ℕ → Pc → System
at s i p = record s { pc = update s.pc i p }

abbrev pub fill : System → ℕ → Bool → System
fill s i b = record s { slot = update s.slot i b }

abbrev pub execute : System → ℕ → System
execute s i = record s { executed = update s.executed i (suc (s.executed i)) }

-- One step of `request_stop`, over `n` slots.
unfoldable pub notify_at : ℕ → Notifier → System → System
notify_at n Notifier.idle s = record s { requested = true; notifier = Notifier.flagged }
notify_at n Notifier.flagged s = record s {
  notifier = if s.allocated then Notifier.visiting 0 else Notifier.skipped;
}
notify_at n Notifier.skipped s = s
notify_at n (Notifier.visiting k) s =
    if ltb k n
    then record s {
      notifier = if s.slot k then Notifier.exchanging k else Notifier.visiting (suc k);
    }
    else record s { complete = true; notifier = Notifier.done }
notify_at n (Notifier.exchanging k) s =
    if s.slot k
    then record (execute (fill s k false) k) { notifier = Notifier.calling k }
    else record s { notifier = Notifier.visiting (suc k) }
notify_at n (Notifier.calling k) s = record s { notifier = Notifier.visiting (suc k) }
notify_at n Notifier.done s = s

-- One step of the constructor of object `i`, and of the wait in its destructor.
unfoldable pub register_at : Pc → ℕ → System → System
register_at Pc.fresh i s = at s i (if s.possible then Pc.checking else Pc.unattached)
register_at Pc.checking i s =
    if s.requested then at (execute s i) i Pc.ran_inline else at s i Pc.loading
register_at Pc.loading i s = at (record s { allocated = true }) i Pc.storing
register_at Pc.storing i s = at (fill s i true) i Pc.rechecking
register_at Pc.rechecking i s = at s i (if s.requested then Pc.removing else Pc.registered)
register_at Pc.removing i s =
    if s.slot i then at (execute (fill s i false) i) i Pc.ran_inline else at s i Pc.registered
register_at Pc.waiting i s = if s.complete then at s i (Pc.destroyed false) else s
register_at p i s = s

-- `deregister_callback`: the compare-exchange of the slot, and the test of the calling thread.
unfoldable pub deregister : Bool → ℕ → System → System
deregister inside i s =
    if s.slot i
    then at (fill s i false) i (Pc.destroyed inside)
    else at s i (if inside then Pc.destroyed true else Pc.waiting)

abbrev pub is_calling : ℕ → Notifier → Bool
is_calling i (Notifier.calling k) = i == k
is_calling i _ = false

-- The stop was requested.
abbrev pub is_started : Notifier → Bool
is_started Notifier.idle = false
is_started _ = true

pub data Step (n : ℕ) (s : System) : System → Type 0 where
  -- The last stop source goes; without one nobody can request a stop.
  sources_gone : s.notifier ≡ Notifier.idle → Step n s (record s { possible = false })
  request : s.notifier ≡ Notifier.idle → s.possible ≡ true → Step n s (notify_at n Notifier.idle s)
  notify : is_started s.notifier ≡ true → Step n s (notify_at n s.notifier s)
  register : (i : ℕ) → i < n → Step n s (register_at (s.pc i) i s)
  destroy : (i : ℕ) → i < n → s.pc i ≡ Pc.registered → Step n s (deregister false i s)
  destroy_inside :
      (i k : ℕ)
      → i < n
      → s.pc i ≡ Pc.registered
      → s.notifier ≡ Notifier.calling k
      → Step n s (deregister true i s)

pub data Reach (n : ℕ) : System → Type 0 where
  here : Reach n init
  next : {s t : System} → Reach n s → Step n s t → Reach n t
