-- ===== src/Channel/Guarantees.antt =====
-- What the channel guarantees to its senders and to its receiver.
use macoro.Common.{
  ℕ, ◌+◌, ◌<◌, ◌≡◌, inl, inr, refl, sym, ap, subst, ◌∙◌, true, false, ◌==◌, ==_iff, ==_ne,
  Bool-cases, Option, none, some, arith,
}
use mathlib.Core.Bool.{false≢true}
use macoro.Common.Family.{update}
use macoro.Sequence.Slots.{IsRing}
use macoro.Channel.Defs.{
  Message, Place, Receiver, Channel, index, is_published, claim, send_at, front, pop_resume,
  move_out, release_at, Step, Reach,
}
use macoro.Channel.Views.{content, has_slot, delivered}
use macoro.Channel.Ring.{index_slot, member}
use macoro.Channel.Receiver.{front-content, Reach-Inv}

some_or_none {κ} : {A : Type κ} (o : Option A) (x : A) → o ≡ none → o ≡ some x → ⊥
some_or_none o x a b = ground arith

module _ {ℓ} {T : Type ℓ} where
  -- What a pop moves out for a message, and what `front` returns: none when it throws.
  abbrev pub popped_value : T → Message T → T
  popped_value d (Message.pushed t) = t
  popped_value d Message.closed = d

  abbrev pub front_value : Message T → Option T
  front_value (Message.pushed t) = some t
  front_value Message.closed = none

  -- What was sent with a number.
  abbrev pub message_of : Place T → Option (Message T)
  message_of Place.unclaimed = none
  message_of (Place.waiting m) = some m
  message_of (Place.claimed m) = some m
  message_of (Place.written t) = some (Message.pushed t)
  message_of (Place.published m) = some m

  delivered_value :
      (d x : T) (p : Place T)
      → some x ≡ delivered d p
      → (m : Message T) × (p ≡ Place.published m) × (x ≡ popped_value d m)
  delivered_value d x (Place.published (Message.pushed t)) e = (Message.pushed t, refl, cc)
  delivered_value d x (Place.published Message.closed) e = (Message.closed, refl, cc)
  delivered_value d x Place.unclaimed e = absurd (cc e)
  delivered_value d x (Place.waiting m) e = absurd (cc e)
  delivered_value d x (Place.claimed m) e = absurd (cc e)
  delivered_value d x (Place.written t) e = absurd (cc e)

  published_at : (p : Place T) → is_published p ≡ true → (m : Message T) × (p ≡ Place.published m)
  published_at (Place.published m) e = (m, refl)
  published_at Place.unclaimed e = absurd (false≢true e)
  published_at (Place.waiting m) e = absurd (false≢true e)
  published_at (Place.claimed m) e = absurd (false≢true e)
  published_at (Place.written t) e = absurd (false≢true e)

  content_front : (m : Message T) → content (Place.published m) ≡ front_value m
  content_front m = ground arith

  module _ (d : T) (f : T → T) (size : ℕ) (r : IsRing size) where
    -- What the receiver has moved out for a number is what was sent with that number, which is
    -- published: the value that was pushed, or the default value for the end of the channel.
    pub received_is_sent :
        {c : Channel T}
        → Reach d f size c
        → (n : ℕ) (x : T) → c.received n ≡ some x
        → (m : Message T) × (c.place n ≡ Place.published m) × (x ≡ popped_value d m)
    received_is_sent {c} q n x e = elim ((Reach-Inv d size f r q).got n) [
      | inl h ↦ absurd (some_or_none (c.received n) x h e)
      | inr h ↦ delivered_value d x (c.place n) (sym e ∙ h)
    ]

    -- When the receiver's wait has ended, its front number is published, and `front` returns what
    -- was pushed with that number, or throws if that was the end of the channel.
    pub front_is_sent :
        {c : Channel T}
        → Reach d f size c
        → c.receiver ≡ Receiver.holding
        → (m : Message T) × (c.place c.front_index ≡ Place.published m) × (front c ≡ front_value m)
    front_is_sent {c} q e =
        let (holds, is_there) = front-content d size r c e (Reach-Inv d size f r q) in
        let (m, at) = published_at (c.place c.front_index) is_there in
        (m, at, holds ∙ ap content at ∙ content_front m)

    -- When a sender's wait has ended and it has not written yet, the slot of its number is empty, and
    -- its number is less than a capacity ahead of those that the receiver has handed back.
    pub claimed_slot_is_empty :
        {c : Channel T}
        → Reach d f size c
        → (n : ℕ) (m : Message T) → c.place n ≡ Place.claimed m
        → (c.slots (index c.capacity n) ≡ none) × (n < c.freed + size)
    claimed_slot_is_empty {c} q n m e =
        let v = Reach-Inv d size f r q in
        let room = v.room n (ap has_slot e) in
        let here = member d size c v n (ap is_published e) room in
        (ap c.slots (index_slot d size c r v n) ∙ v.window n here.0 here.1 ∙ ap content e, room)

  abbrev Kept : Place T → Place T → Type ℓ
  Kept p q = (message_of q ≡ message_of p) × (is_published p ≡ true → is_published q ≡ true)

  kept : (p : Place T) → Kept p p
  kept p = (refl, λ e. e)

  update_Kept :
      (f : ℕ → Place T) (n : ℕ) (q : Place T) → Kept (f n) q → (j : ℕ) → Kept (f j) (update f n q j)
  update_Kept f n q h j = elim (Bool-cases (n == j)) [
    | inl same ↦ rw same (subst (λ k. Kept (f k) q) ((==_iff n j).0 same) h)
    | inr other ↦ rw other (kept (f j))
  ]

  send_at-Kept :
      (p : Place T) (n : ℕ) (c : Channel T)
      → c.place n ≡ p
      → (j : ℕ) → Kept (c.place j) ((send_at p n c).place j)
  unfolding send_at
  send_at-Kept Place.unclaimed n c e j = kept (c.place j)
  send_at-Kept (Place.waiting m) n c e j =
      update_Kept c.place n (Place.claimed m)
        (subst (λ p. Kept p (Place.claimed m)) (sym e) (refl, λ x. x)) j
  send_at-Kept (Place.claimed (Message.pushed t)) n c e j =
      update_Kept c.place n (Place.written t)
        (subst (λ p. Kept p (Place.written t)) (sym e) (refl, λ x. x)) j
  send_at-Kept (Place.claimed Message.closed) n c e j =
      update_Kept c.place n (Place.published Message.closed)
        (subst (λ p. Kept p (Place.published Message.closed)) (sym e) (refl, λ x. refl)) j
  send_at-Kept (Place.written t) n c e j =
      update_Kept c.place n (Place.published (Message.pushed t))
        (subst (λ p. Kept p (Place.published (Message.pushed t))) (sym e) (refl, λ x. refl)) j
  send_at-Kept (Place.published m) n c e j = kept (c.place j)

  move_out_place :
      (d : T) (f : T → T) (o : Option T) (c : Channel T) (j : ℕ)
      → (move_out d f o c).place j ≡ c.place j
  unfolding move_out
  move_out_place d f none c j = refl
  move_out_place d f (some t) c j = refl

  release_at_place : (h : Receiver) (c : Channel T) (j : ℕ) → (release_at h c).place j ≡ c.place j
  unfolding release_at
  release_at_place Receiver.idle c j = refl
  release_at_place Receiver.holding c j = refl
  release_at_place Receiver.moved c j = refl
  release_at_place Receiver.publishing c j = refl
  release_at_place Receiver.advancing c j = refl

  -- A step changes neither the message of a number that was claimed nor its being published.
  pub message_kept :
      {d : T} {f : T → T} {c e : Channel T} {size : ℕ}
      → IsRing size
      → Reach d f size c
      → Step d f c e
      → (j : ℕ) (m : Message T) → message_of (c.place j) ≡ some m
      → (message_of (e.place j) ≡ some m)
        × (is_published (c.place j) ≡ true → is_published (e.place j) ≡ true)
  unfolding claim pop_resume
  message_kept {d = d} {f = f} {c = c} {size = size} r q (Step.begin m') j m h =
      let other : (c.next_to_claim == j) ≡ false = ==_ne c.next_to_claim j (λ x.
        some_or_none (message_of (c.place j)) m
          (ap message_of ((Reach-Inv d size f r q).ahead j (omega (arith, x)))) h) in
      rw other (h, λ x. x)
  message_kept {c = c} r q (Step.send n o) j m h =
      let k = send_at-Kept (c.place n) n c refl j in (k.0 ∙ h, k.1)
  message_kept r q (Step.pop_wait known a b g) j m h = (h, λ x. x)
  message_kept r q (Step.pop_ready a b) j m h = (h, λ x. x)
  message_kept {d = d} {f = f} {c = c} r q (Step.take a) j m h =
      subst
        (λ p. (message_of p ≡ some m) × (is_published (c.place j) ≡ true → is_published p ≡ true))
        (sym (move_out_place d f (front c) c j)) (h, λ x. x)
  message_kept {c = c} r q Step.release j m h =
      subst
        (λ p. (message_of p ≡ some m) × (is_published (c.place j) ≡ true → is_published p ≡ true))
        (sym (release_at_place c.receiver c j)) (h, λ x. x)
