-- ===== src/Stop/Handles/Account.antt =====
-- One stop state against the numbers of its sources and tokens.
use macoro.Common.{
  ℕ, suc, ◌+◌, ◌-◌, ◌<◌, ◌≡◌, refl, sym, ap, ◌∙◌, Bool, true, false, ◌==◌, if◌then◌else◌, arith,
}
use macoro.Stop.State.{create, set_requested, set_complete, is_cancellation_notification_complete}
use macoro.Stop.Refs.{
  Refs, Fits, encode, RefOp, exec, counted, last_gone, max_refs, exec-encode, set_requested-encode,
  set_complete-encode, queries-encode,
}
use macoro.Stop.Handles.Defs.{Kind, add_op, release_op}

-- The word counts `cs` sources and `ct` tokens, and the state was deleted once or not at all,
-- as nobody or somebody points to it.
pub record Accounted (cs ct w d : ℕ) : Type 0 where
  pub requested : Bool
  pub complete : Bool
  pub counts :
      w ≡ encode record { requested = requested; complete = complete; sources = cs; tokens = ct }
  pub deleted_once : d ≡ (if cs + ct == 0 then 1 else 0)

-- The references of a kind.
abbrev pub held : Kind → ℕ → ℕ → ℕ
held Kind.source cs ct = cs
held Kind.token cs ct = ct

-- The counts with a reference of a kind more, or less.
abbrev pub sources_with : Kind → ℕ → ℕ
sources_with Kind.source x = suc x
sources_with Kind.token x = x

abbrev pub tokens_with : Kind → ℕ → ℕ
tokens_with Kind.source x = x
tokens_with Kind.token x = suc x

abbrev pub sources_without : Kind → ℕ → ℕ
sources_without Kind.source x = x - 1
sources_without Kind.token x = x

abbrev pub tokens_without : Kind → ℕ → ℕ
tokens_without Kind.source x = x
tokens_without Kind.token x = x - 1

pub created-Accounted : Accounted 1 0 create 0
unfolding create encode
created-Accounted = record {
  requested = false;
  complete = false;
  counts = refl;
  deleted_once = refl;
}

module _ (cs ct w d : ℕ) (p : suc cs < max_refs) (q : suc ct < max_refs)
    (a : Accounted cs ct w d) where
  abbrev refs : Refs
  refs = record { requested = a.requested; complete = a.complete; sources = cs; tokens = ct }

  refs-Fits : Fits refs
  refs-Fits = record { sources_fit = omega arith; tokens_fit = omega arith }

  pub add-Accounted :
      (c : Kind)
      → 0 < cs + ct
      → Accounted (sources_with c cs) (tokens_with c ct) (exec (add_op c) w).0 d
  unfolding counted
  add-Accounted Kind.source alive = record {
    requested = a.requested;
    complete = a.complete;
    counts = rw a.counts (exec-encode RefOp.add_source refs refs-Fits p).0;
    deleted_once = ground (arith, a);
  }
  add-Accounted Kind.token alive = record {
    requested = a.requested;
    complete = a.complete;
    counts = rw a.counts (exec-encode RefOp.add_token refs refs-Fits q).0;
    deleted_once = ground (arith, a);
  }

  pub release-Accounted :
      (c : Kind)
      → 0 < held c cs ct
      → Accounted
          (sources_without c cs)
          (tokens_without c ct)
          (exec (release_op c) w).0
          (if (exec (release_op c) w).1 then suc d else d)
  unfolding counted last_gone
  release-Accounted Kind.source h = record {
    requested = a.requested;
    complete = a.complete;
    counts = rw a.counts (exec-encode RefOp.release_source refs refs-Fits h).0;
    deleted_once =
        rw (a.counts, (exec-encode RefOp.release_source refs refs-Fits h).1) (ground (arith, a));
  }
  release-Accounted Kind.token h = record {
    requested = a.requested;
    complete = a.complete;
    counts = rw a.counts (exec-encode RefOp.release_token refs refs-Fits h).0;
    deleted_once =
        rw (a.counts, (exec-encode RefOp.release_token refs refs-Fits h).1) (ground (arith, a));
  }

pub request-Accounted :
    (cs ct w d : ℕ)
    → cs < max_refs
    → ct < max_refs
    → Accounted cs ct w d
    → Accounted cs ct (set_requested w).0 d
request-Accounted cs ct w d p q a =
    let r : Refs = record {
      requested = a.requested;
      complete = a.complete;
      sources = cs;
      tokens = ct;
    } in
    let (e, _) = set_requested-encode r record { sources_fit = p; tokens_fit = q } in
    record {
      requested = true;
      complete = a.complete;
      counts = rw a.counts e;
      deleted_once = a.deleted_once;
    }

pub complete-Accounted :
    (cs ct w d : ℕ)
    → cs < max_refs
    → ct < max_refs
    → is_cancellation_notification_complete w ≡ false
    → Accounted cs ct w d
    → Accounted cs ct (set_complete w) d
complete-Accounted cs ct w d p q once a =
    let r : Refs = record {
      requested = a.requested;
      complete = a.complete;
      sources = cs;
      tokens = ct;
    } in
    let fits : Fits r = record { sources_fit = p; tokens_fit = q } in
    let (_, seen, _) = queries-encode r fits in
    let not_yet : a.complete ≡ false =
      sym seen ∙ ap is_cancellation_notification_complete (sym a.counts) ∙ once in
    record {
      requested = a.requested;
      complete = true;
      counts = rw a.counts (set_complete-encode r fits not_yet);
      deleted_once = a.deleted_once;
    }
