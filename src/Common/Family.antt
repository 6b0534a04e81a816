-- ===== src/Common/Family.antt =====
-- What each thread keeps, as a function of the thread's number: a write for one thread, and a
-- weight summed over all threads below a bound.
use macoro.Common.{
  ℕ, zero, suc, ◌+◌, ◌≤◌, ◌<◌, ◌≡◌, ◌==◌, ltb, if◌then◌else◌, Bool-cases, inl, inr, refl, subst,
  false, arith,
}

abbrev pub update {ℓ} : {A : Type ℓ} → (ℕ → A) → ℕ → A → ℕ → A
update f i a j = if i == j then a else f j

module _ {ℓ} {A : Type ℓ} (f : ℕ → A) (i : ℕ) (a : A) where
  pub update_ind {κ} : (P : A → Type κ) → ((j : ℕ) → P (f j)) → P a → (j : ℕ) → P (update f i a j)
  update_ind P h p j = elim (Bool-cases (i == j)) [ inl e ↦ rw e p | inr e ↦ rw e (h j) ]

module _ {ℓ} {A : Type ℓ} (weight : A → ℕ) (f : ℕ → A) where
  pub tally : ℕ → ℕ
  tally zero = 0
  tally (suc n) = weight (f n) + tally n

  -- Threads that all weigh nothing.
  pub tally-eq-zero : ((j : ℕ) → weight (f j) ≡ 0) → (n : ℕ) → tally n ≡ 0
  unfolding tally
  tally-eq-zero light zero = omega arith
  tally-eq-zero light (suc n) = omega (arith, light n, tally-eq-zero light n)

module _ {ℓ} {A : Type ℓ} (weight : A → ℕ) (f : ℕ → A) (i : ℕ) (a : A) where
  -- A thread at or above the bound does not count, one below it counts once.
  tally_beyond : (n : ℕ) → n ≤ i → tally weight (update f i a) n ≡ tally weight f n
  unfolding tally
  tally_beyond zero h = omega arith
  tally_beyond (suc n) h = let below = tally_beyond n (omega arith) in ground (arith, below)

  pub tally_next : tally weight (update f i a) (suc i) ≡ weight a + tally weight f i
  unfolding tally
  tally_next = ground (arith, tally_beyond i)

  pub tally-update :
      (n : ℕ) → i < n → weight (f i) + tally weight (update f i a) n ≡ weight a + tally weight f n
  unfolding tally
  tally-update zero h = elim h [ ]
  tally-update (suc n) h = elim (Bool-cases (i == n)) [
    | inl last ↦ ground (arith, tally_beyond n)
    | inr earlier ↦ ground (arith, tally-update n (ground arith))
  ]

-- Two threads that exchange their weights.
pub tally_exchange {ℓ} :
    {A : Type ℓ} (weight : A → ℕ) (f : ℕ → A) (n i j : ℕ) (a b : A)
    → i < n
    → j < n
    → (i == j) ≡ false
    → weight a ≡ weight (f j)
    → weight b ≡ weight (f i)
    → tally weight (update (update f i a) j b) n ≡ tally weight f n
tally_exchange weight f n i j a b lt ltj ne e g =
    let first = tally-update weight f i a n lt in
    let second = tally-update weight (update f i a) j b n ltj in
    let other : weight (update f i a j) ≡ weight (f j) = rw ne refl in
    omega (arith, first, second, other, e, g)

module _ {ℓ} {A : Type ℓ} (weight : A → ℕ) (f : ℕ → A) where
  -- One thread weighs no more than all of them.
  pub le_tally : (n i : ℕ) → i < n → weight (f i) ≤ tally weight f n
  unfolding tally
  le_tally zero i h = absurd (omega arith)
  le_tally (suc n) i h = elim (Bool-cases (i == n)) [
    | inl last ↦ ground (arith, last)
    | inr earlier ↦ let below = le_tally n i (ground (arith, earlier)) in omega (arith, below)
  ]

  -- If the threads weigh anything, one of them does.
  pub tally_pos : (n : ℕ) → 0 < tally weight f n → (i : ℕ) × (i < n) × (0 < weight (f i))
  unfolding tally
  tally_pos zero h = absurd (omega (arith, h))
  tally_pos (suc n) h = elim (Bool-cases (ltb 0 (weight (f n)))) [
    | inl e ↦ (n, omega arith, ground (arith, e))
    | inr e ↦ let (i, lt, w) = tally_pos n (ground (arith, h, e)) in (i, omega (arith, lt), w)
  ]

  -- Threads that weigh at most one.
  pub tally_bound : ((j : ℕ) → weight (f j) ≤ 1) → (n : ℕ) → tally weight f n ≤ n
  unfolding tally
  tally_bound light zero = omega arith
  tally_bound light (suc n) = omega (arith, light n, tally_bound light n)

  -- Threads that weigh one each.
  pub tally_constant : ((j : ℕ) → weight (f j) ≡ 1) → (n : ℕ) → tally weight f n ≡ n
  unfolding tally
  tally_constant one zero = omega arith
  tally_constant one (suc n) = omega (arith, one n, tally_constant one n)

-- If one of the threads is taken to weigh nothing, another one still weighs no more than the rest.
pub le_tally_two {ℓ} :
    {A : Type ℓ} (weight : A → ℕ) (f : ℕ → A) (light : A) (n i j : ℕ)
    → weight light ≡ 0
    → i < n
    → j < n
    → (i == j) ≡ false
    → weight (f i) + weight (f j) ≤ tally weight f n
le_tally_two weight f light n i j z p q e =
    let without = tally-update weight f i light n p in
    let other : weight (f j) ≤ tally weight (update f i light) n =
      subst (λ x. weight (if x then light else f j) ≤ tally weight (update f i light) n) e
        (le_tally weight (update f i light) n j q) in
    omega (arith, z, without, other)
