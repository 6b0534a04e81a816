-- ===== src/Stop/Handles/Effects.antt =====
-- How the calls on one handle change the account of a stop state.
use macoro.Common.{
  ℕ, suc, ◌+◌, ◌<◌, ◌≤◌, ◌≡◌, sym, subst, Bool, true, false, not, ◌&&◌, ◌==◌, ==_iff, if◌then◌else◌,
  Option, none, some, Bool-cases, inl, inr, arith,
}
use macoro.Stop.State.{
  set_requested, set_complete, stop_requested, is_cancellation_notification_complete,
}
use macoro.Stop.Refs.{max_refs, exec}
use macoro.Stop.Handles.Defs.{
  Kind, Handle, Heap, add_ref, release_ref, request, notify_complete, is_notifying, add_op,
  release_op,
}
use macoro.Stop.Handles.Account.{
  Accounted, held, sources_with, tokens_with, sources_without, tokens_without, add-Accounted,
  release-Accounted, request-Accounted, complete-Accounted,
}

abbrev pub hit : Option ℕ → ℕ → Bool
hit none k = false
hit (some j) k = j == k

abbrev pub source_weight : Kind → Bool → ℕ
source_weight Kind.source true = 1
source_weight _ _ = 0

abbrev pub token_weight : Kind → Bool → ℕ
token_weight Kind.token true = 1
token_weight _ _ = 0

abbrev pub sources_at : ℕ → Handle → ℕ
sources_at k x = source_weight x.kind (hit x.state k)

abbrev pub tokens_at : ℕ → Handle → ℕ
tokens_at k x = token_weight x.kind (hit x.state k)

-- State `k` with `cs` sources and `ct` tokens.
pub record At (k cs ct : ℕ) (h : Heap) : Type 0 where
  pub old : k < h.created → Accounted cs ct (h.word k) (h.deletions k)
  pub new : h.created ≤ k → (cs + ct ≡ 0) × (h.deletions k ≡ 0)

-- What the changes of a reference do to the account of every state.
module _ (k cs ct : ℕ) (h : Heap) (p : suc cs < max_refs) (q : suc ct < max_refs)
    (a : At k cs ct h) where
  pub add_ref-At :
      (c : Kind) (x : Option ℕ)
      → (hit x k ≡ true → 0 < cs + ct)
      → At k
          (if hit x k then sources_with c cs else cs)
          (if hit x k then tokens_with c ct else ct)
          (add_ref c x h)
  unfolding add_ref
  add_ref-At c none alive = record { old = a.old; new = a.new }
  add_ref-At c (some j) alive = elim (Bool-cases (j == k)) [
    | inl e ↦ rw e record {
      old = λ lt. rw e (
          subst
            (λ i.
              Accounted (sources_with c cs) (tokens_with c ct) (exec (add_op c) (h.word i)).0
                (h.deletions k))
            (sym ((==_iff j k).0 e)) (add-Accounted cs ct _ _ p q (a.old lt) c (alive e)));
      new = λ le. absurd (omega (arith, (a.new le).0, alive e));
    }
    | inr e ↦ rw e record { old = λ lt. rw e (a.old lt); new = a.new }
  ]

  pub release_ref-At :
      (c : Kind) (x : Option ℕ)
      → (hit x k ≡ true → 0 < held c cs ct)
      → At k
          (if hit x k then sources_without c cs else cs)
          (if hit x k then tokens_without c ct else ct)
          (release_ref c x h)
  unfolding release_ref
  release_ref-At c none has = record { old = a.old; new = a.new }
  release_ref-At c (some j) has = elim (Bool-cases (j == k)) [
    | inl e ↦ rw e record {
      old = λ lt. rw e (
          subst
            (λ i.
              Accounted (sources_without c cs) (tokens_without c ct)
                (exec (release_op c) (h.word i)).0
                (if (exec (release_op c) (h.word i)).1 then suc (h.deletions i) else h.deletions i))
            (sym ((==_iff j k).0 e)) (release-Accounted cs ct _ _ p q (a.old lt) c (has e)));
      new = λ le. absurd (none_held c (a.new le).0 (has e));
    }
    | inr e ↦ rw e record { old = λ lt. rw e (a.old lt); new = λ le. rw e (a.new le) }
  ]
    where
      none_held : (c : Kind) → cs + ct ≡ 0 → 0 < held c cs ct → ⊥
      none_held Kind.source z lt = omega arith
      none_held Kind.token z lt = omega arith

  pub request-At : (x : Option ℕ) → At k cs ct (request x h)
  unfolding request
  request-At none = record { old = a.old; new = a.new }
  request-At (some j) = elim (Bool-cases (j == k)) [
    | inl e ↦ record {
      old = λ lt. rw e (
          subst (λ i. Accounted cs ct (set_requested (h.word i)).0 (h.deletions k))
            (sym ((==_iff j k).0 e))
            (request-Accounted cs ct _ _ (omega arith) (omega arith) (a.old lt)));
      new = a.new;
    }
    | inr e ↦ record { old = λ lt. rw e (a.old lt); new = a.new }
  ]

  pub complete-At : (x : Option ℕ) → is_notifying x h ≡ true → At k cs ct (notify_complete x h)
  unfolding notify_complete is_notifying
  complete-At none f = record { old = a.old; new = a.new }
  complete-At (some j) f = elim (Bool-cases (j == k)) [
    | inl e ↦ record {
      old = λ lt. rw e (
          subst (λ i. Accounted cs ct (set_complete (h.word i)) (h.deletions k))
            (sym ((==_iff j k).0 e))
            (complete-Accounted cs ct _ _ (omega arith) (omega arith)
              (subst (λ i. is_cancellation_notification_complete (h.word i) ≡ false)
                ((==_iff j k).0 e) (ends (stop_requested (h.word j)) _ f))
              (a.old lt)));
      new = a.new;
    }
    | inr e ↦ record { old = λ lt. rw e (a.old lt); new = a.new }
  ]
    where
      ends : (r c : Bool) → (r && not c) ≡ true → c ≡ false
      ends r c e = ground arith
