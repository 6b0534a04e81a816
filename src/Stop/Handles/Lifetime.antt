-- ===== src/Stop/Handles/Lifetime.antt =====
-- Every stop state counts the handles that point to it, and is deleted when the last one goes.
use macoro.Common.{
  ℕ, suc, ◌+◌, ◌<◌, ◌≡◌, refl, sym, ap, ◌∙◌, subst, Bool, true, false, ◌==◌, ==_iff, if◌then◌else◌,
  Option, none, some, Bool-cases, inl, inr, if_ind, arith,
}
use mathlib.Core.Bool.{false≢true}
use macoro.Common.Family.{update, tally-update, tally-eq-zero}
use macoro.Stop.State.{create}
use macoro.Stop.Refs.{max_refs}
use macoro.Stop.Handles.Defs.{
  Kind, Handle, Heap, add_ref, point, construct, copy, move, destroy, copy_assign, move_assign,
  same_state, request, register, notify_complete, is_notifying, Step, Reach, init,
}
use macoro.Stop.Handles.Account.{created-Accounted}
use macoro.Stop.Handles.Effects.{
  hit, source_weight, token_weight, sources_at, tokens_at, At, request-At, complete-At,
}
use macoro.Stop.Handles.Moves.{
  sources, tokens, Inv, hit_other, release_none, pointed_alive, retarget, take_over, request-handle,
  complete-handle, sources_small, tokens_small, sources_left, tokens_left,
}
use macoro.Stop.Handles.Exchange.{exchange}

-- A handle that did not point to `k` leaves its counts as they were.
left_alive :
    (c : Kind) (cs ct : ℕ) (was : Bool)
    → was ≡ false
    → 0 < cs + ct
    → 0 < sources_left c was cs + tokens_left c was ct
left_alive c cs ct was e h = rw e h

source_weight-false : (c : Kind) → source_weight c false ≡ 0
source_weight-false c = ground arith

token_weight-false : (c : Kind) → token_weight c false ≡ 0
token_weight-false c = ground arith

init-Inv : (n : ℕ) (kind : ℕ → Kind) → Inv n (init kind)
init-Inv n kind k =
    let no_sources : sources n (init kind).handle k ≡ 0 =
      tally-eq-zero (sources_at k) (init kind).handle (λ j. source_weight-false (kind j)) n in
    let no_tokens : tokens n (init kind).handle k ≡ 0 =
      tally-eq-zero (tokens_at k) (init kind).handle (λ j. token_weight-false (kind j)) n in
    record {
      old = λ lt. absurd (omega arith);
      new = λ le. (omega (arith, no_sources, no_tokens), refl);
    }

-- A new state and its first source.
module _ (h : Heap) (k cs ct : ℕ) (a : At k cs ct h) (hs : ℕ → Handle) where
  abbrev born : Heap
  born = record h { created = suc h.created; word = update h.word h.created create; handle = hs }

  born-At :
      (cs' ct' : ℕ)
      → cs' ≡ source_weight Kind.source (h.created == k) + cs
      → ct' ≡ ct
      → At k cs' ct' born
  born-At cs' ct' e f = elim (Bool-cases (h.created == k)) [
    | inl new_one ↦
        let here = (==_iff h.created k).0 new_one in
        let (empty, kept) = a.new (omega (arith, here)) in
        let one : cs' ≡ 1 = ground (arith, e, new_one, empty) in
        let zero_tokens : ct' ≡ 0 = omega (arith, f, empty) in
        rw (one, zero_tokens)
          record {
            old = λ lt. rw (new_one, kept) created-Accounted;
            new = λ le. absurd (omega (arith, here, le));
          }
    | inr old_one ↦
        let same : cs' ≡ cs = ground (arith, e, old_one) in
        rw (same, f)
          record {
            old = λ lt. rw old_one (a.old (ground (arith, old_one, lt)));
            new = λ le. a.new (omega (arith, le));
          }
  ]

module _ (n : ℕ) (small : suc n < max_refs) (h : Heap) (inv : Inv n h) where
  copy-Inv : (i j : ℕ) → i < n → j < n → (h.handle i).state ≡ none → Inv n (copy i j h)
  unfolding copy
  copy-Inv i j lt ltj e =
      subst
        (λ t. Inv n (add_ref (h.handle i).kind (h.handle j).state (point i (h.handle j).state t)))
        (release_none (h.handle i).kind (h.handle i).state h e)
        (retarget n small h inv i lt (h.handle j).state (λ k p.
          left_alive (h.handle i).kind _ _ _ (ap (λ x. hit x k) e)
            (pointed_alive n small h inv j k ltj p)))

  move-Inv :
      (i j : ℕ)
      → i < n
      → j < n
      → (i == j) ≡ false
      → (h.handle i).state ≡ none
      → (h.handle i).kind ≡ (h.handle j).kind
      → Inv n (move i j h)
  unfolding move
  move-Inv i j lt ltj ne e same =
      subst (λ t. Inv n (point j none (point i (h.handle j).state t)))
        (release_none (h.handle i).kind (h.handle i).state h e)
        (take_over n small h inv i lt j ltj ne same)

  destroy-Inv : (i : ℕ) → i < n → Inv n (destroy i h)
  unfolding destroy add_ref
  destroy-Inv i lt = retarget n small h inv i lt none (λ k p. absurd (false≢true p))

  copy_assign-Inv : (i j : ℕ) → i < n → j < n → Inv n (copy_assign i j h)
  unfolding copy_assign
  copy_assign-Inv i j lt ltj =
      elim (Bool-cases (same_state (h.handle i).state (h.handle j).state)) [
        | inl e ↦ rw e inv
        | inr e ↦ rw e (
            retarget n small h inv i lt (h.handle j).state (λ k p.
              left_alive (h.handle i).kind _ _ _ (hit_other _ _ k e p)
                (pointed_alive n small h inv j k ltj p)))
      ]

  move_assign-Inv :
      (i j : ℕ) → i < n → j < n → (h.handle i).kind ≡ (h.handle j).kind → Inv n (move_assign i j h)
  unfolding move_assign
  move_assign-Inv i j lt ltj same =
      if_ind (Inv n) (i == j) h _ (λ e. inv) (λ e. take_over n small h inv i lt j ltj e same)

  request-Inv : (x : Option ℕ) → Inv n (request x h)
  request-Inv x k =
      subst (λ f. At k (sources n f k) (tokens n f k) (request x h)) (sym (request-handle x h))
        (request-At k _ _ h (sources_small n small h inv k) (tokens_small n small h inv k) (inv k)
          x)

  complete-Inv : (x : Option ℕ) → is_notifying x h ≡ true → Inv n (notify_complete x h)
  complete-Inv x e k =
      subst (λ f. At k (sources n f k) (tokens n f k) (notify_complete x h))
        (sym (complete-handle x h))
        (complete-At k _ _ h (sources_small n small h inv k) (tokens_small n small h inv k) (inv k)
          x e)

  register-Inv :
      (registered : Bool) (i j : ℕ)
      → i < n
      → j < n
      → (i == j) ≡ false
      → h.handle i ≡ record { kind = Kind.token; state = none }
      → (h.handle j).kind ≡ Kind.token
      → Inv n (register registered i j h)
  unfolding register
  register-Inv false i j lt ltj ne e f = inv
  register-Inv true i j lt ltj ne e f =
      move-Inv i j lt ltj ne (ap (λ x. x.state) e) (ap (λ x. x.kind) e ∙ sym f)

  construct-Inv :
      (i : ℕ)
      → i < n
      → h.handle i ≡ record { kind = Kind.source; state = none }
      → Inv n (construct i h)
  unfolding construct
  construct-Inv i lt e k =
      let me : Handle = record { kind = (h.handle i).kind; state = some h.created } in
      let is_source : (h.handle i).kind ≡ Kind.source = ap (λ x. x.kind) e in
      let no_source : sources_at k (h.handle i) ≡ 0 = rw e refl in
      let no_token : tokens_at k (h.handle i) ≡ 0 = rw e refl in
      let source_here : sources_at k me ≡ source_weight Kind.source (h.created == k) =
        ap (λ c. source_weight c (h.created == k)) is_source in
      let no_token_here : tokens_at k me ≡ 0 =
        ap (λ c. token_weight c (h.created == k)) is_source in
      born-At h k _ _ (inv k) _ _ _
        (omega (arith, tally-update (sources_at k) h.handle i me n lt, no_source, source_here))
        (omega (arith, tally-update (tokens_at k) h.handle i me n lt, no_token, no_token_here))

  pub Step-Inv : {t : Heap} → Step n h t → Inv n t
  Step-Inv (Step.construct_call i lt e) = construct-Inv i lt e
  Step-Inv (Step.copy_call i j lt ltj e) = copy-Inv i j lt ltj e
  Step-Inv (Step.move_call i j lt ltj ne e same) = move-Inv i j lt ltj ne e same
  Step-Inv (Step.destroy_call i lt) = destroy-Inv i lt
  Step-Inv (Step.copy_assign_call i j lt ltj _) = copy_assign-Inv i j lt ltj
  Step-Inv (Step.move_assign_call i j lt ltj same) = move_assign-Inv i j lt ltj same
  Step-Inv (Step.swap_call i j lt ltj ne e f) = exchange n h inv i j lt ltj ne (e ∙ sym f)
  Step-Inv (Step.register_call registered i j lt ltj ne e f) =
      register-Inv registered i j lt ltj ne e f
  Step-Inv (Step.complete_call i lt e) = complete-Inv (h.handle i).state e
  Step-Inv (Step.request_call i lt) = request-Inv (h.handle i).state

pub Reach-Inv : (n : ℕ) (kind : ℕ → Kind) → suc n < max_refs → {h : Heap} → Reach n kind h → Inv n h
Reach-Inv n kind small Reach.here = init-Inv n kind
Reach-Inv n kind small (Reach.next {h = h} r st) = Step-Inv n small h (Reach-Inv n kind small r) st

-- For `n` handles with n + 1 < 2^31, in any order of construction, copy, move, both assignments, swap,
-- destruction, `get_token`, registration of a callback that takes over the reference of its token, and
-- the changes of the word at the begin and the end of `request_stop`: a state that was created is deleted
-- exactly once as soon as no source, token or callback points to it, and never while one does.
pub deleted_with_last_handle :
    (n : ℕ) (kind : ℕ → Kind)
    → suc n < max_refs
    → {h : Heap} → Reach n kind h
    → (k : ℕ) → k < h.created
    → h.deletions k ≡ (if sources n h.handle k + tokens n h.handle k == 0 then 1 else 0)
deleted_with_last_handle n kind small r k lt = ((Reach-Inv n kind small r k).old lt).deleted_once
