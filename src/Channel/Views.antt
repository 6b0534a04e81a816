-- ===== src/Channel/Views.antt =====
-- What a number's place says of its slot and of what is popped, the numbers that an invariant covers at
-- each place of the receiver, and the slots of different numbers.
use macoro.Common.{
  ℕ, suc, ◌+◌, ◌-◌, ◌%◌, ◌<◌, ◌≤◌, ◌≡◌, inl, inr, refl, sym, ap, ◌∙◌, Bool, true, false, ◌==◌, ltb,
  ==_iff, ==_ne, Bool-cases, Option, none, some, arith,
}
use macoro.Common.Family.{update}
use macoro.Sequence.Slots.{IsRing, slots_apart}
use native.Mathlib.Nat.{mod-mod_of_dvd, dvd_of_mod-eq-zero}
use macoro.Channel.Defs.{Message, Place, Receiver, index, is_published}

module _ {ℓ} {T : Type ℓ} where
  -- What the slot of a number holds.
  abbrev pub content : Place T → Option T
  content (Place.written t) = some t
  content (Place.published (Message.pushed t)) = some t
  content _ = none

  -- Whether the sender's wait has ended.
  abbrev pub has_slot : Place T → Bool
  has_slot Place.unclaimed = false
  has_slot (Place.waiting m) = false
  has_slot _ = true

  abbrev pub is_unclaimed : Place T → Bool
  is_unclaimed Place.unclaimed = true
  is_unclaimed _ = false

  -- What a pop moves out.
  abbrev pub delivered : T → Place T → Option T
  delivered d (Place.published (Message.pushed t)) = some t
  delivered d (Place.published Message.closed) = some d
  delivered d _ = none

  pub delivered-none :
      (d : T) (p : Place T) → is_published p ≡ true → content p ≡ none → delivered d p ≡ some d
  delivered-none d p a b = ground arith

  pub delivered-some :
      (d t : T) (p : Place T) → is_published p ≡ true → content p ≡ some t → delivered d p ≡ some t
  delivered-some d t p a b = ground arith

  pub content-none : (p : Place T) → has_slot p ≡ false → content p ≡ none
  content-none p a = ground arith

  pub not_delivered : (d : T) (p : Place T) → is_published p ≡ false → delivered d p ≡ none
  not_delivered d p a = ground arith

-- The numbers whose slots the invariant describes: from `lowest` on, below `limit`.
abbrev pub lowest : Receiver → ℕ → ℕ
lowest Receiver.idle f = f
lowest Receiver.holding f = f
lowest _ f = suc f

abbrev pub limit : Receiver → ℕ → ℕ → ℕ
limit Receiver.publishing f size = suc f + size
limit Receiver.advancing f size = suc f + size
limit _ f size = f + size

-- The numbers that are published on the barrier of the receiver, and those that it has got.
abbrev pub handed_back : Receiver → ℕ → ℕ
handed_back Receiver.advancing f = suc f
handed_back _ f = f

abbrev pub reached : Receiver → ℕ → ℕ
reached Receiver.idle f = f
reached _ f = suc f

abbrev pub has_wrapper : Receiver → Bool
has_wrapper Receiver.holding = true
has_wrapper Receiver.moved = true
has_wrapper _ = false

pub index_mod : (size n : ℕ) → IsRing size → index size n ≡ n % size
index_mod size n r = mod-mod_of_dvd size n (dvd_of_mod-eq-zero size r.divides)

pub apart : (size a b : ℕ) → a < b → b - a < size → (a % size == b % size) ≡ false
apart size a b p q =
    ==_ne (a % size) (b % size)
      (λ e. slots_apart size a (b - a) (omega arith) q (ap (λ x. x % size) (omega arith) ∙ sym e))

pub distinct :
    (size l n j : ℕ)
    → l ≤ n
    → n < l + size
    → l ≤ j
    → j < l + size
    → (n == j) ≡ false
    → (n % size == j % size) ≡ false
distinct size l n j a b a' b' e = elim (Bool-cases (ltb n j)) [
  | inl lt ↦ apart size n j (ground (arith, lt)) (omega (arith, a, b'))
  | inr le ↦
      let apart_too = apart size j n (ground (arith, le, e)) (omega (arith, a', b)) in
      ground (arith, apart_too)
]

module _ {ℓ κ} {A : Type ℓ} {B : Type κ} (g : A → B) (f : ℕ → A) (i : ℕ) (a : A) where
  -- A write that a view does not see.
  pub unseen : g a ≡ g (f i) → (j : ℕ) → g (update f i a j) ≡ g (f j)
  unseen e j = elim (Bool-cases (i == j)) [
    | inl same ↦ rw same (e ∙ ap (λ k. g (f k)) ((==_iff i j).0 same))
    | inr other ↦ rw other refl
  ]
