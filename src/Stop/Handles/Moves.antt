-- ===== src/Stop/Handles/Moves.antt =====
-- The counts of all stop states when one handle changes what it points to.
use macoro.Common.{
  ℕ, suc, ◌+◌, ◌<◌, ◌≤◌, ◌≡◌, refl, sym, ap, subst, ◌∙◌, Bool, true, false, ◌==◌, if◌then◌else◌,
  Option, none, some, arith,
}
use mathlib.Core.Bool.{false≢true}
use macoro.Common.Family.{update, tally, tally-update, le_tally, tally_bound}
use macoro.Stop.Refs.{max_refs}
use macoro.Stop.Handles.Defs.{
  Kind, Handle, Heap, add_ref, release_ref, point, same_state, request, notify_complete,
}
use macoro.Stop.Handles.Account.{held, sources_with, tokens_with, sources_without, tokens_without}
use macoro.Stop.Handles.Effects.{
  hit, source_weight, token_weight, sources_at, tokens_at, At, add_ref-At, release_ref-At,
}

add_ref-handle : (c : Kind) (x : Option ℕ) (h : Heap) → (add_ref c x h).handle ≡ h.handle
unfolding add_ref
add_ref-handle c none h = refl
add_ref-handle c (some k) h = refl

release_ref-handle : (c : Kind) (x : Option ℕ) (h : Heap) → (release_ref c x h).handle ≡ h.handle
unfolding release_ref
release_ref-handle c none h = refl
release_ref-handle c (some k) h = refl

pub request-handle : (x : Option ℕ) (h : Heap) → (request x h).handle ≡ h.handle
unfolding request
request-handle none h = refl
request-handle (some k) h = refl

pub complete-handle : (x : Option ℕ) (h : Heap) → (notify_complete x h).handle ≡ h.handle
unfolding notify_complete
complete-handle none h = refl
complete-handle (some k) h = refl

-- How many handles of each kind point to state `k`.
module _ (n : ℕ) where
  abbrev pub sources : (ℕ → Handle) → ℕ → ℕ
  sources f k = tally (sources_at k) f n

  abbrev pub tokens : (ℕ → Handle) → ℕ → ℕ
  tokens f k = tally (tokens_at k) f n

  abbrev pub Inv : Heap → Type 0
  Inv h = (k : ℕ) → At k (sources h.handle k) (tokens h.handle k) h

source_weight-bound : (c : Kind) (b : Bool) → source_weight c b ≤ 1
source_weight-bound c b = ground arith

token_weight-bound : (c : Kind) (b : Bool) → token_weight c b ≤ 1
token_weight-bound c b = ground arith

-- The counts behind a release by a handle that was one of them or not.
abbrev pub sources_left : Kind → Bool → ℕ → ℕ
sources_left c was cs = if was then sources_without c cs else cs

abbrev pub tokens_left : Kind → Bool → ℕ → ℕ
tokens_left c was ct = if was then tokens_without c ct else ct

held_positive :
    (c : Kind) (was : Bool) (cs ct : ℕ)
    → source_weight c was ≤ cs
    → token_weight c was ≤ ct
    → was ≡ true
    → 0 < held c cs ct
held_positive c was cs ct g h e = ground arith

-- The counts behind a release and a new reference of one handle.
module _ (c : Kind) (was is : Bool) (cs ct : ℕ) where
  settle :
      (cs' ct' : ℕ)
      → source_weight c was + cs' ≡ source_weight c is + cs
      → token_weight c was + ct' ≡ token_weight c is + ct
      → source_weight c was ≤ cs
      → token_weight c was ≤ ct
      → (cs' ≡ (if is then sources_with c (sources_left c was cs) else sources_left c was cs))
        × (ct' ≡ (if is then tokens_with c (tokens_left c was ct) else tokens_left c was ct))
  settle cs' ct' e f g h = ground arith

  settle_move :
      (c1 t1 c2 t2 : ℕ)
      → source_weight c was + c1 ≡ source_weight c is + cs
      → token_weight c was + t1 ≡ token_weight c is + ct
      → source_weight c is + c2 ≡ source_weight c false + c1
      → token_weight c is + t2 ≡ token_weight c false + t1
      → (c2 ≡ sources_left c was cs) × (t2 ≡ tokens_left c was ct)
  settle_move c1 t1 c2 t2 e f g h = ground arith

pub point-At : (k cs ct i : ℕ) (x : Option ℕ) (h : Heap) → At k cs ct h → At k cs ct (point i x h)
unfolding point
point-At k cs ct i x h a = record { old = a.old; new = a.new }

sources_left-le : (c : Kind) (was : Bool) (cs : ℕ) → sources_left c was cs ≤ cs
sources_left-le c was cs = ground arith

tokens_left-le : (c : Kind) (was : Bool) (ct : ℕ) → tokens_left c was ct ≤ ct
tokens_left-le c was ct = ground arith

below : {a b : ℕ} → a ≤ b → suc b < max_refs → suc a < max_refs
below h l = omega arith

-- Somebody who points to a state keeps it alive.
alive_of_weight :
    (c : Kind) (b : Bool) (cs ct : ℕ)
    → source_weight c b ≤ cs
    → token_weight c b ≤ ct
    → b ≡ true
    → 0 < cs + ct
alive_of_weight c b cs ct p q e = ground arith

pub hit_other : (x y : Option ℕ) (k : ℕ) → same_state x y ≡ false → hit y k ≡ true → hit x k ≡ false
hit_other none y k e h = refl
hit_other (some i) none k e h = absurd (false≢true h)
hit_other (some i) (some j) k e h = ground arith

pub release_none : (c : Kind) (x : Option ℕ) (h : Heap) → x ≡ none → release_ref c x h ≡ h
unfolding release_ref
release_none c none h e = refl
release_none c (some k) h e = cc

module _ (n : ℕ) (small : suc n < max_refs) (h : Heap) (inv : Inv n h) where
  pub sources_small : (k : ℕ) → suc (sources n h.handle k) < max_refs
  sources_small k =
      let b = tally_bound (sources_at k) h.handle (λ j. source_weight-bound _ _) n in
      omega (arith, b)

  pub tokens_small : (k : ℕ) → suc (tokens n h.handle k) < max_refs
  tokens_small k =
      let b = tally_bound (tokens_at k) h.handle (λ j. token_weight-bound _ _) n in omega (arith, b)

  pub pointed_alive :
      (j k : ℕ)
      → j < n
      → hit (h.handle j).state k ≡ true
      → 0 < sources n h.handle k + tokens n h.handle k
  pointed_alive j k lt e =
      alive_of_weight (h.handle j).kind (hit (h.handle j).state k) _ _
        (le_tally (sources_at k) h.handle n j lt) (le_tally (tokens_at k) h.handle n j lt) e

  module _ (i : ℕ) (lt : i < n) where
    abbrev c : Kind
    c = (h.handle i).kind

    abbrev old_state : Option ℕ
    old_state = (h.handle i).state

    abbrev released : Heap
    released = release_ref c old_state h

    released-At :
        (k : ℕ)
        → At k
            (sources_left c (hit old_state k) (sources n h.handle k))
            (tokens_left c (hit old_state k) (tokens n h.handle k))
            released
    released-At k = release_ref-At k _ _ h (sources_small k) (tokens_small k) (inv k) c old_state (
        held_positive c (hit old_state k) _ _ (le_tally (sources_at k) h.handle n i lt)
          (le_tally (tokens_at k) h.handle n i lt))

    abbrev aimed : Option ℕ → Handle
    aimed x = record { kind = c; state = x }

    retarget-handle :
        (x : Option ℕ) → (add_ref c x (point i x released)).handle ≡ update h.handle i (aimed x)
    unfolding point
    retarget-handle x =
        add_ref-handle c x (point i x released)
        ∙ ap (λ f. update f i record { kind = (f i).kind; state = x })
            (release_ref-handle c old_state h)

    -- The handle leaves its state and takes a new reference, to a state that is alive.
    pub retarget :
        (x : Option ℕ)
        → ((k : ℕ)
            → hit x k ≡ true
            → 0
              < sources_left c (hit old_state k) (sources n h.handle k)
                + tokens_left c (hit old_state k) (tokens n h.handle k))
        → Inv n (add_ref c x (point i x released))
    retarget x alive k =
        let before = released-At k in
        let pointed : At k (sources_left c (hit old_state k) (sources n h.handle k))
            (tokens_left c (hit old_state k) (tokens n h.handle k)) (point i x released) =
          point-At k _ _ i x released before in
        let added =
          add_ref-At k _ _ (point i x released)
            (below (sources_left-le c (hit old_state k) _) (sources_small k))
            (below (tokens_left-le c (hit old_state k) _) (tokens_small k)) pointed c x (alive k) in
        let (more, fewer) =
          settle c (hit old_state k) (hit x k) _ _ _ _
            (tally-update (sources_at k) h.handle i (aimed x) n lt)
            (tally-update (tokens_at k) h.handle i (aimed x) n lt)
            (le_tally (sources_at k) h.handle n i lt) (le_tally (tokens_at k) h.handle n i lt) in
        subst (λ f. At k (sources n f k) (tokens n f k) (add_ref c x (point i x released)))
          (sym (retarget-handle x)) (rw (more, fewer) added)

    module _ (j : ℕ) (ltj : j < n) (ne : (i == j) ≡ false) (same : c ≡ (h.handle j).kind) where
      abbrev taken : Option ℕ
      taken = (h.handle j).state

      abbrev half_way : ℕ → Handle
      half_way = update h.handle i (aimed taken)

      kind_kept : (half_way j).kind ≡ c
      kind_kept = rw ne (sym same)

      take_over-handle :
          (point j none (point i taken released)).handle ≡ update half_way j (aimed none)
      unfolding point
      take_over-handle =
          ap
            (λ f. update (update f i record { kind = (f i).kind; state = taken }) j record {
              kind = (update f i record { kind = (f i).kind; state = taken } j).kind;
              state = none;
            })
            (release_ref-handle c old_state h)
          ∙ ap (λ z. update half_way j record { kind = z; state = none }) kind_kept

      half_way-sources : (k : ℕ) → sources_at k (half_way j) ≡ source_weight c (hit taken k)
      half_way-sources k = rw (ne, same) refl

      half_way-tokens : (k : ℕ) → tokens_at k (half_way j) ≡ token_weight c (hit taken k)
      half_way-tokens k = rw (ne, same) refl

      -- The handle takes over what handle `j` points to, which is null then.
      pub take_over : Inv n (point j none (point i taken released))
      take_over k =
          let (more, fewer) =
            settle_move c (hit old_state k) (hit taken k) _ _ _ _ _ _
              (tally-update (sources_at k) h.handle i (aimed taken) n lt)
              (tally-update (tokens_at k) h.handle i (aimed taken) n lt)
              (subst
                (λ x.
                  x + sources n (update half_way j (aimed none)) k
                  ≡ source_weight c false + sources n half_way k)
                (half_way-sources k) (tally-update (sources_at k) half_way j (aimed none) n ltj))
              (subst
                (λ x.
                  x + tokens n (update half_way j (aimed none)) k
                  ≡ token_weight c false + tokens n half_way k)
                (half_way-tokens k) (tally-update (tokens_at k) half_way j (aimed none) n ltj)) in
          subst (λ f. At k (sources n f k) (tokens n f k) (point j none (point i taken released)))
            (sym take_over-handle)
            (rw (more, fewer)
              (point-At k _ _ j none (point i taken released)
                (point-At k _ _ i taken released (released-At k))))
