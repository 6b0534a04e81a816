-- ===== src/Channel/Ring.antt =====
-- The slots between the receiver's front and the numbers that senders may write hold what was sent.
use macoro.Common.{
  ℕ, ◌+◌, ◌%◌, ◌<◌, ◌≤◌, ◌≡◌, ◌⊎◌, inl, inr, refl, sym, ap, subst, ◌∙◌, true, false, ◌==◌, ==_iff,
  ==_ne, if◌then◌else◌, Bool-cases, Option, none, some, arith,
}
use mathlib.Core.Bool.{false≢true}
use macoro.Common.Family.{update}
use macoro.Sequence.Slots.{IsRing}
use macoro.Channel.Defs.{
  Message, Place, Receiver, Channel, index, create, is_published, claim, send_at, CanSend,
}
use macoro.Channel.Views.{
  content, has_slot, is_unclaimed, delivered, not_delivered, lowest, limit, handed_back, reached,
  index_mod, distinct, unseen,
}

module _ {ℓ} {T : Type ℓ} (d : T) (size : ℕ) where
  -- The slots agree with the places of the numbers from `a` on below `b`.
  abbrev pub Window : (ℕ → Option T) → (ℕ → Place T) → ℕ → ℕ → Type ℓ
  Window g p a b = (n : ℕ) → a ≤ n → n < b → g (n % size) ≡ content (p n)

  pub record Inv (c : Channel T) : Type ℓ where
    pub ring : c.capacity ≡ size
    pub behind : c.freed ≡ handed_back c.receiver c.front_index
    pub room : (n : ℕ) → has_slot (c.place n) ≡ true → n < c.freed + size
    pub ahead : (n : ℕ) → c.next_to_claim ≤ n → c.place n ≡ Place.unclaimed
    pub known : (n : ℕ) → n < c.known_end → is_published (c.place n) ≡ true
    pub popped : (n : ℕ) → n < reached c.receiver c.front_index → is_published (c.place n) ≡ true
    pub window :
        Window c.slots c.place
          (lowest c.receiver c.front_index)
          (limit c.receiver c.front_index size)
    pub got : (n : ℕ) → (c.received n ≡ none) ⊎ (c.received n ≡ delivered d (c.place n))

  pub create-Inv : Inv (create size)
  unfolding create
  create-Inv = record {
    ring = refl;
    behind = refl;
    room = λ n e. absurd (false≢true e);
    ahead = λ n le. refl;
    known = λ n lt. absurd (omega (arith, lt));
    popped = λ n lt. absurd (omega (arith, lt));
    window = λ n a b. refl;
    got = λ n. inl refl;
  }

  claim_unseen {κ} :
      {B : Type κ} (g : Place T → B) (m : Message T) (c : Channel T)
      → Inv c
      → g (Place.waiting m) ≡ g Place.unclaimed
      → (j : ℕ) → g (update c.place c.next_to_claim (Place.waiting m) j) ≡ g (c.place j)
  claim_unseen g m c v e =
      unseen g c.place c.next_to_claim (Place.waiting m)
        (e ∙ ap g (sym (v.ahead c.next_to_claim (omega arith))))

  pub claim-Inv : (m : Message T) (c : Channel T) → Inv c → Inv (claim m c)
  unfolding claim
  claim-Inv m c v = record {
    ring = v.ring;
    behind = v.behind;
    room = λ n e. v.room n (sym (claim_unseen has_slot m c v refl n) ∙ e);
    ahead =
        λ n le. rw (==_ne c.next_to_claim n (omega (arith, le))) (v.ahead n (omega (arith, le)));
    known = λ n lt. claim_unseen is_published m c v refl n ∙ v.known n lt;
    popped = λ n lt. claim_unseen is_published m c v refl n ∙ v.popped n lt;
    window = λ n a b. v.window n a b ∙ sym (claim_unseen content m c v refl n);
    got = λ n.
        subst (λ x. (c.received n ≡ none) ⊎ (c.received n ≡ x))
          (sym (claim_unseen (delivered d) m c v refl n)) (v.got n);
  }

  -- A sender that has not published moves on.
  module _ (n : ℕ) (q : Place T) (g : ℕ → Option T) (c : Channel T) (v : Inv c)
      (u : is_published (c.place n) ≡ false) (w : is_unclaimed (c.place n) ≡ false) where
    kept_published :
        (j : ℕ) → is_published (c.place j) ≡ true → is_published (update c.place n q j) ≡ true
    kept_published j e = elim (Bool-cases (n == j)) [
      | inl same ↦
          absurd (false≢true (sym u ∙ ap (λ k. is_published (c.place k)) ((==_iff n j).0 same) ∙ e))
      | inr other ↦ rw other e
    ]

    kept_ahead : (j : ℕ) → c.next_to_claim ≤ j → update c.place n q j ≡ Place.unclaimed
    kept_ahead j le = elim (Bool-cases (n == j)) [
      | inl same ↦ absurd (
          false≢true (
            sym w
            ∙ ap (λ k. is_unclaimed (c.place k)) ((==_iff n j).0 same)
            ∙ ap is_unclaimed (v.ahead j le)))
      | inr other ↦ rw other (v.ahead j le)
    ]

    kept_got : (j : ℕ) → (c.received j ≡ none) ⊎ (c.received j ≡ delivered d (update c.place n q j))
    kept_got j = elim (Bool-cases (n == j)) [
      | inl same ↦ elim (v.got j) [
        | inl e ↦ inl e
        | inr e ↦ inl (
            e
            ∙ not_delivered d (c.place j)
                (ap (λ k. is_published (c.place k)) (sym ((==_iff n j).0 same)) ∙ u))
      ]
      | inr other ↦ rw other (v.got j)
    ]

    move-Inv :
        n < c.freed + size
        → Window g
            (update c.place n q)
            (lowest c.receiver c.front_index)
            (limit c.receiver c.front_index size)
        → Inv (record c { slots = g; place = update c.place n q })
    move-Inv lt h = record {
      ring = v.ring;
      behind = v.behind;
      room = λ j e. elim (Bool-cases (n == j)) [
        | inl same ↦ omega (arith, lt, (==_iff n j).0 same)
        | inr other ↦ v.room j (subst (λ x. has_slot (if x then q else c.place j) ≡ true) other e)
      ];
      ahead = kept_ahead;
      known = λ j l. kept_published j (v.known j l);
      popped = λ j l. kept_published j (v.popped j l);
      window = h;
      got = kept_got;
    }

  -- A move that does not touch the slots.
  quiet-Inv :
      (n : ℕ) (q : Place T) (c : Channel T)
      → Inv c
      → is_published (c.place n) ≡ false
      → is_unclaimed (c.place n) ≡ false
      → n < c.freed + size
      → content q ≡ content (c.place n)
      → Inv (record c { place = update c.place n q })
  quiet-Inv n q c v u w lt e =
      move-Inv n q c.slots c v u w lt
        (λ j a b. v.window j a b ∙ sym (unseen content c.place n q e j))

  -- A number that a sender may write lies in the window.
  above_lowest : (p : Receiver) (f n : ℕ) → (n < reached p f → ⊥) → lowest p f ≤ n
  above_lowest p f n h = ground arith

  within_limit : (p : Receiver) (f n : ℕ) → n < handed_back p f + size → n < limit p f size
  within_limit p f n h = ground arith

  window_size : (p : Receiver) (f : ℕ) → limit p f size ≤ lowest p f + size
  window_size p f = ground arith

  -- A write to the slot of a number in the window.
  write-Window :
      (n k l : ℕ) (t : T) (g : ℕ → Option T) (f : ℕ → Place T) (a : ℕ)
      → k ≡ n % size
      → a ≤ n
      → n < a + size
      → l ≤ a + size
      → Window g f a l
      → Window (update g k (some t)) (update f n (Place.written t)) a l
  write-Window n k l t g f a e low high short h j x y = elim (Bool-cases (n == j)) [
    | inl same ↦
        rw (same, (==_iff k (j % size)).1 (e ∙ ap (λ i. i % size) ((==_iff n j).0 same))) refl
    | inr other ↦
        rw
          (
            other,
            subst (λ i. (i == j % size) ≡ false) (sym e)
                (distinct size a n j low high x (omega (arith, y, short)) other),
          )
          (h j x y)
  ]

  -- The slot of a number, whatever the capacity is called.
  pub index_slot : (c : Channel T) → IsRing size → Inv c → (n : ℕ) → index c.capacity n ≡ n % size
  index_slot c r v n = ap (λ k. index k n) v.ring ∙ index_mod size n r

  -- A number that was claimed, whose sender may write and which is not published.
  pub member :
      (c : Channel T)
      → Inv c
      → (n : ℕ) → is_published (c.place n) ≡ false
      → n < c.freed + size
      → (lowest c.receiver c.front_index ≤ n) × (n < limit c.receiver c.front_index size)
  member c v n u lt = (
    above_lowest c.receiver c.front_index n (λ l. false≢true (sym u ∙ v.popped n l)),
    within_limit c.receiver c.front_index n (subst (λ k. n < k + size) v.behind lt),
  )

  pub send_at-Inv :
      IsRing size
      → (p : Place T) (n : ℕ) (c : Channel T) → c.place n ≡ p
      → CanSend (c.place n) n c
      → Inv c
      → Inv (send_at p n c)
  unfolding send_at
  send_at-Inv r Place.unclaimed n c e o v = v
  send_at-Inv r (Place.waiting m) n c e o v =
      quiet-Inv n (Place.claimed m) c v (ap is_published e) (ap is_unclaimed e)
        (subst (λ k. n < c.freed + k) v.ring (subst (λ x. CanSend x n c) e o)) (sym (ap content e))
  send_at-Inv r (Place.claimed (Message.pushed t)) n c e o v =
      let u = ap is_published e in
      let lt = v.room n (ap has_slot e) in
      let (low, high) = member c v n u lt in
      let short = window_size c.receiver c.front_index in
      move-Inv n (Place.written t) (update c.slots (index c.capacity n) (some t)) c v u
        (ap is_unclaimed e) lt
        (write-Window n (index c.capacity n) _ t c.slots c.place _ (index_slot c r v n) low
          (omega (arith, high, short)) short v.window)
  send_at-Inv r (Place.claimed Message.closed) n c e o v =
      quiet-Inv n (Place.published Message.closed) c v (ap is_published e) (ap is_unclaimed e)
        (v.room n (ap has_slot e)) (sym (ap content e))
  send_at-Inv r (Place.written t) n c e o v =
      quiet-Inv n (Place.published (Message.pushed t)) c v (ap is_published e) (ap is_unclaimed e)
        (v.room n (ap has_slot e)) (sym (ap content e))
  send_at-Inv r (Place.published m) n c e o v = v
