-- ===== src/Channel/Receiver.antt =====
-- The receiver keeps the invariant, and so does every run.
use macoro.Common.{
  ℕ, suc, ◌+◌, ◌%◌, ◌<◌, ◌≤◌, ◌≡◌, inl, inr, refl, sym, ap, subst, ◌∙◌, true, false, ◌==◌, ltb,
  ==_iff, Bool-cases, Option, none, some, arith,
}
use macoro.Common.Family.{update}
use macoro.Sequence.Slots.{IsRing}
use native.Mathlib.Nat.{add-mod_right}
use macoro.Channel.Defs.{
  Place, Receiver, Channel, index, is_published, front, pop_resume, move_out, release_at, Step,
  Reach,
}
use macoro.Channel.Views.{
  content, has_slot, delivered, delivered-none, delivered-some, content-none, lowest, limit,
  handed_back, reached, has_wrapper, apart,
}
use macoro.Channel.Ring.{Window, Inv, create-Inv, claim-Inv, send_at-Inv, index_slot}

module _ {ℓ} {T : Type ℓ} (d : T) (size : ℕ) where
  -- What the receiver does.
  pop_resume-Inv :
      (known : ℕ) (c : Channel T)
      → c.receiver ≡ Receiver.idle
      → c.front_index < known
      → ((n : ℕ) → n < known → is_published (c.place n) ≡ true)
      → Inv d size c
      → Inv d size (pop_resume known c)
  unfolding pop_resume
  pop_resume-Inv known c e lt h v = record {
    ring = v.ring;
    behind = subst (λ p. c.freed ≡ handed_back p c.front_index) e v.behind;
    room = v.room;
    ahead = v.ahead;
    known = h;
    popped = λ n l. h n (omega (arith, lt, l));
    window =
        subst
          (λ p. Window d size c.slots c.place (lowest p c.front_index) (limit p c.front_index size))
          e v.window;
    got = v.got;
  }

  -- Writes to the slot at the front leave the numbers behind it alone.
  front_write :
      (k f : ℕ) (o : Option T) (g : ℕ → Option T) (p : ℕ → Place T)
      → k ≡ f % size
      → Window d size g p f (f + size)
      → Window d size (update g k o) p (suc f) (f + size)
  front_write k f o g p e h j x y =
      rw
        (subst (λ i. (i == j % size) ≡ false) (sym e)
          (apart size f j (omega (arith, x)) (omega (arith, x, y))))
        (h j (omega (arith, x)) y)

  -- What the receiver that holds a pop_wrapper finds at its front.
  pub front-content :
      IsRing size
      → (c : Channel T) → c.receiver ≡ Receiver.holding
      → Inv d size c
      → (front c ≡ content (c.place c.front_index)) × (is_published (c.place c.front_index) ≡ true)
  unfolding front
  front-content r c e v = (
    ap c.slots (index_slot d size c r v c.front_index)
        ∙ subst
            (λ p.
              Window d size c.slots c.place (lowest p c.front_index) (limit p c.front_index size))
            e v.window c.front_index (omega arith) (omega (arith, r.positive)),
    subst (λ p. (n : ℕ) → n < reached p c.front_index → is_published (c.place n) ≡ true) e v.popped
        c.front_index (omega arith),
  )

  taken-Inv :
      (o : Option T) (x : T) (c : Channel T)
      → IsRing size
      → c.receiver ≡ Receiver.holding
      → delivered d (c.place c.front_index) ≡ some x
      → Inv d size c
      → Inv d size (record c {
        slots = update c.slots (index c.capacity c.front_index) o;
        received = update c.received c.front_index (some x);
        receiver = Receiver.moved;
      })
  taken-Inv o x c r e h v = record {
    ring = v.ring;
    behind = subst (λ p. c.freed ≡ handed_back p c.front_index) e v.behind;
    room = v.room;
    ahead = v.ahead;
    known = v.known;
    popped =
        subst (λ p. (n : ℕ) → n < reached p c.front_index → is_published (c.place n) ≡ true) e
          v.popped;
    window =
        front_write (index c.capacity c.front_index) c.front_index o c.slots c.place
          (index_slot d size c r v c.front_index)
          (subst
            (λ p.
              Window d size c.slots c.place (lowest p c.front_index) (limit p c.front_index size))
            e v.window);
    got = λ n. elim (Bool-cases (c.front_index == n)) [
      | inl same ↦
          rw same
            (inr (sym h ∙ ap (λ k. delivered d (c.place k)) ((==_iff c.front_index n).0 same)))
      | inr other ↦ rw other (v.got n)
    ];
  }

  module _ (f : T → T) where
    move_out-Inv :
        (o : Option T) (c : Channel T)
        → front c ≡ o
        → IsRing size
        → c.receiver ≡ Receiver.holding
        → Inv d size c
        → Inv d size (move_out d f o c)
    unfolding move_out
    move_out-Inv none c e r h v =
        let (holds, is_there) = front-content r c h v in
        taken-Inv (some (f d)) d c r h
          (delivered-none d (c.place c.front_index) is_there (sym holds ∙ e)) v
    move_out-Inv (some t) c e r h v =
        let (holds, is_there) = front-content r c h v in
        taken-Inv (some (f t)) t c r h
          (delivered-some d t (c.place c.front_index) is_there (sym holds ∙ e)) v

  -- The slot that is reset serves the number a capacity behind the front.
  reset_Window :
      (k f a : ℕ) (g : ℕ → Option T) (p : ℕ → Place T)
      → k ≡ f % size
      → a ≤ suc f
      → has_slot (p (f + size)) ≡ false
      → Window d size g p a (f + size)
      → Window d size (update g k none) p (suc f) (suc f + size)
  reset_Window k f a g p e q o h j x y = elim (Bool-cases (ltb j (f + size))) [
    | inl lt ↦
        rw
          (subst (λ i. (i == j % size) ≡ false) (sym e)
            (apart size f j (omega (arith, x)) (ground (arith, lt))))
          (h j (omega (arith, x, q)) (ground (arith, lt)))
    | inr le ↦
        let last : f + size ≡ j = ground (arith, le, y) in
        rw ((==_iff k (j % size)).1 (e ∙ sym (add-mod_right f size) ∙ ap (λ i. i % size) last))
          (sym (subst (λ i. content (p i) ≡ none) last (content-none (p (f + size)) o)))
  ]

  wrapper_places :
      (h : Receiver) (f : ℕ)
      → has_wrapper h ≡ true
      → (handed_back h f ≡ f)
        × (reached h f ≡ suc f)
        × (lowest h f ≤ suc f)
        × (limit h f size ≡ f + size)
  wrapper_places h f w = ground arith

  reset-Inv :
      (h : Receiver) (c : Channel T)
      → has_wrapper h ≡ true
      → IsRing size
      → c.receiver ≡ h
      → Inv d size c
      → Inv d size (record c {
        slots = update c.slots (index c.capacity c.front_index) none;
        receiver = Receiver.publishing;
      })
  reset-Inv h c w r e v =
      let (at, it, low, high) = wrapper_places h c.front_index w in
      let back : c.freed ≡ handed_back h c.front_index =
        subst (λ p. c.freed ≡ handed_back p c.front_index) e v.behind in
      let back' : c.freed ≡ c.front_index = back ∙ at in
      let over : has_slot (c.place (c.front_index + size)) ≡ false =
        elim (Bool-cases (has_slot (c.place (c.front_index + size)))) [
          | inl y ↦ absurd (omega (arith, v.room (c.front_index + size) y, back'))
          | inr y ↦ y
        ] in
      let old : Window d size c.slots c.place (lowest h c.front_index)
          (limit h c.front_index size) =
        subst
          (λ p. Window d size c.slots c.place (lowest p c.front_index) (limit p c.front_index size))
          e v.window in
      let got_it : (n : ℕ) → n < reached h c.front_index → is_published (c.place n) ≡ true =
        subst (λ p. (n : ℕ) → n < reached p c.front_index → is_published (c.place n) ≡ true) e
          v.popped in
      record {
        ring = v.ring;
        behind = back';
        room = v.room;
        ahead = v.ahead;
        known = v.known;
        popped = λ n lt. got_it n (omega (arith, it, lt));
        window =
            reset_Window (index c.capacity c.front_index) c.front_index (lowest h c.front_index)
              c.slots c.place (index_slot d size c r v c.front_index) low over
              (λ j x y. old j x (omega (arith, high, y)));
        got = v.got;
      }

  release_at-Inv :
      IsRing size
      → (h : Receiver) (c : Channel T) → c.receiver ≡ h
      → Inv d size c
      → Inv d size (release_at h c)
  unfolding release_at
  release_at-Inv r Receiver.idle c e v = v
  release_at-Inv r Receiver.holding c e v = reset-Inv Receiver.holding c refl r e v
  release_at-Inv r Receiver.moved c e v = reset-Inv Receiver.moved c refl r e v
  release_at-Inv r Receiver.publishing c e v =
      let back : c.freed ≡ c.front_index =
        subst (λ p. c.freed ≡ handed_back p c.front_index) e v.behind in
      record {
        ring = v.ring;
        behind = refl;
        room = λ n h. omega (arith, v.room n h, back);
        ahead = v.ahead;
        known = v.known;
        popped =
            subst (λ p. (n : ℕ) → n < reached p c.front_index → is_published (c.place n) ≡ true) e
              v.popped;
        window =
            subst
              (λ p.
                Window d size c.slots c.place (lowest p c.front_index) (limit p c.front_index size))
              e v.window;
        got = v.got;
      }
  release_at-Inv r Receiver.advancing c e v = record {
    ring = v.ring;
    behind = subst (λ p. c.freed ≡ handed_back p c.front_index) e v.behind;
    room = v.room;
    ahead = v.ahead;
    known = v.known;
    popped =
        subst (λ p. (n : ℕ) → n < reached p c.front_index → is_published (c.place n) ≡ true) e
          v.popped;
    window =
        subst
          (λ p. Window d size c.slots c.place (lowest p c.front_index) (limit p c.front_index size))
          e v.window;
    got = v.got;
  }

  module _ (f : T → T) (r : IsRing size) where
    pub Reach-Inv : {c : Channel T} → Reach d f size c → Inv d size c
    Reach-Inv Reach.here = create-Inv d size
    Reach-Inv (Reach.next {c = c} q (Step.begin m)) = claim-Inv d size m c (Reach-Inv q)
    Reach-Inv (Reach.next {c = c} q (Step.send n o)) =
        send_at-Inv d size r (c.place n) n c refl o (Reach-Inv q)
    Reach-Inv (Reach.next {c = c} q (Step.pop_wait known e lt h)) =
        pop_resume-Inv known c e lt h (Reach-Inv q)
    Reach-Inv (Reach.next {c = c} q (Step.pop_ready e lt)) =
        let v = Reach-Inv q in pop_resume-Inv c.known_end c e lt v.known v
    Reach-Inv (Reach.next {c = c} q (Step.take e)) =
        move_out-Inv f (front c) c refl r e (Reach-Inv q)
    Reach-Inv (Reach.next {c = c} q Step.release) = release_at-Inv r c.receiver c refl (Reach-Inv q)
