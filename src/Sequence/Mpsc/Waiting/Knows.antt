-- ===== src/Sequence/Mpsc/Waiting/Knows.antt =====
-- Where the operation can stand, and what each thread knows at its place.
use macoro.Common.{
  ℕ, suc, ◌<◌, ◌≤◌, ◌≡◌, ◌⊎◌, inl, inr, refl, ap, ◌∙◌, Bool, true, false, ◌==◌, ==_iff, Bool-cases,
  arith,
}
use macoro.Common.Family.{update}
use macoro.Sequence.Mpsc.Waiting.Defs.{Publisher, Consumer}

-- Whether a thread has the operation in hand.
abbrev pub holds : Publisher → ℕ
holds (Publisher.scanning e) = 1
holds (Publisher.requeuing e) = 1
holds (Publisher.resuming e) = 1
holds Publisher.flagging = 1
holds _ = 0

abbrev pub owns : Consumer → ℕ
owns Consumer.enqueuing = 1
owns (Consumer.resuming e) = 1
owns Consumer.flagging = 1
owns _ = 0

abbrev pub is_fresh : Consumer → Bool
is_fresh Consumer.fresh = true
is_fresh _ = false

abbrev pub Untold : Bool → ℕ → ℕ → Type 0
Untold r c p = ((p ≡ 1) × (r ≡ false) × (c ≡ 0)) ⊎ ((p ≡ 0) × (r ≡ true) × (c ≡ 0))

-- How the places, the flag and the count of continuations go together.
abbrev pub Phase : Consumer → Bool → ℕ → ℕ → Type 0
Phase Consumer.fresh r c p = (p ≡ 0) × (r ≡ false) × (c ≡ 0)
Phase Consumer.enqueuing r c p = (p ≡ 1) × (r ≡ false) × (c ≡ 0)
Phase Consumer.suspended r c p = (r ≡ true) × (((p ≡ 1) × (c ≡ 0)) ⊎ ((p ≡ 0) × (c ≡ 1)))
Phase Consumer.gone r c p = (p ≡ 0) × (c ≡ 1)
Phase _ r c p = Untold r c p

-- The numbers below `e` are published.
abbrev pub Prefix : (ℕ → Bool) → ℕ → Type 0
Prefix f e = (i : ℕ) → i < e → f i ≡ true

pub prefix_next : (f : ℕ → Bool) (e : ℕ) → Prefix f e → f e ≡ true → Prefix f (suc e)
prefix_next f e h x i lt = elim (Bool-cases (i == e)) [
  | inl same ↦ ap f ((==_iff i e).0 same) ∙ x
  | inr other ↦ h i (ground (arith, other, lt))
]

pub prefix_store : (f : ℕ → Bool) (i e : ℕ) → Prefix f e → Prefix (update f i true) e
prefix_store f i e h j lt = elim (Bool-cases (i == j)) [ inl s ↦ rw s refl | inr o ↦ rw o (h j lt) ]

module _ (target : ℕ) where
  -- What a thread knows at its place.
  abbrev pub AtPublisher : Publisher → (ℕ → Bool) → ℕ → Type 0
  AtPublisher (Publisher.scanning e) f k = Prefix f e
  AtPublisher (Publisher.requeuing e) f k = e ≤ target
  AtPublisher (Publisher.rescanning e) f k = e ≤ target
  AtPublisher (Publisher.resuming e) f k = Prefix f e × (target < e)
  AtPublisher Publisher.flagging f k = target < k
  AtPublisher _ f k = Unit

  abbrev pub AtConsumer : Consumer → (ℕ → Bool) → ℕ → Type 0
  AtConsumer (Consumer.scanning e) f k = Prefix f e
  AtConsumer (Consumer.reacquiring e) f k = Prefix f e × (target < e)
  AtConsumer (Consumer.resuming e) f k = Prefix f e × (target < e)
  AtConsumer Consumer.flagging f k = target < k
  AtConsumer _ f k = Unit

  -- Who does not have the operation in hand does not rely on what it knows.
  pub other_known :
      (p : Publisher) (f : ℕ → Bool) (k k' : ℕ)
      → holds p ≡ 0
      → AtPublisher p f k
      → AtPublisher p f k'
  other_known Publisher.idle f k k' z h = tt
  other_known Publisher.loading f k k' z h = tt
  other_known Publisher.acquiring f k k' z h = tt
  other_known (Publisher.scanning e) f k k' z h = h
  other_known (Publisher.requeuing e) f k k' z h = h
  other_known (Publisher.rescanning e) f k k' z h = h
  other_known Publisher.reacquiring f k k' z h = tt
  other_known (Publisher.resuming e) f k k' z h = h
  other_known Publisher.flagging f k k' z h = absurd (omega (arith, z))

  pub other_consumer :
      (p : Consumer) (f : ℕ → Bool) (k k' : ℕ) → owns p ≡ 0 → AtConsumer p f k → AtConsumer p f k'
  other_consumer Consumer.fresh f k k' z h = tt
  other_consumer Consumer.enqueuing f k k' z h = tt
  other_consumer (Consumer.scanning e) f k k' z h = h
  other_consumer (Consumer.reacquiring e) f k k' z h = h
  other_consumer (Consumer.resuming e) f k k' z h = h
  other_consumer Consumer.flagging f k k' z h = absurd (omega (arith, z))
  other_consumer Consumer.finishing f k k' z h = tt
  other_consumer Consumer.suspended f k k' z h = tt
  other_consumer Consumer.gone f k k' z h = tt

  pub AtPublisher-store :
      (p : Publisher) (f : ℕ → Bool) (k i : ℕ)
      → AtPublisher p f k
      → AtPublisher p (update f i true) k
  AtPublisher-store Publisher.idle f k i h = tt
  AtPublisher-store Publisher.loading f k i h = tt
  AtPublisher-store Publisher.acquiring f k i h = tt
  AtPublisher-store (Publisher.scanning e) f k i h = prefix_store f i e h
  AtPublisher-store (Publisher.requeuing e) f k i h = h
  AtPublisher-store (Publisher.rescanning e) f k i h = h
  AtPublisher-store Publisher.reacquiring f k i h = tt
  AtPublisher-store (Publisher.resuming e) f k i h = (prefix_store f i e h.0, h.1)
  AtPublisher-store Publisher.flagging f k i h = h

  pub AtConsumer-store :
      (p : Consumer) (f : ℕ → Bool) (k i : ℕ) → AtConsumer p f k → AtConsumer p (update f i true) k
  AtConsumer-store Consumer.fresh f k i h = tt
  AtConsumer-store Consumer.enqueuing f k i h = tt
  AtConsumer-store (Consumer.scanning e) f k i h = prefix_store f i e h
  AtConsumer-store (Consumer.reacquiring e) f k i h = (prefix_store f i e h.0, h.1)
  AtConsumer-store (Consumer.resuming e) f k i h = (prefix_store f i e h.0, h.1)
  AtConsumer-store Consumer.flagging f k i h = h
  AtConsumer-store Consumer.finishing f k i h = tt
  AtConsumer-store Consumer.suspended f k i h = tt
  AtConsumer-store Consumer.gone f k i h = tt
