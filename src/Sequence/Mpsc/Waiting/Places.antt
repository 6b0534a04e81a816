-- ===== src/Sequence/Mpsc/Waiting/Places.antt =====
-- The operation stands in one place at a time, and what each thread knows of it is true.
use macoro.Common.{
  ℕ, suc, ◌+◌, ◌<◌, ◌≤◌, ◌≡◌, ◌⊎◌, inl, inr, refl, sym, ap, subst, Bool, true, false, ◌==◌,
  if◌then◌else◌, Bool-cases, arith,
}
use mathlib.Core.Bool.{false≢true}
use macoro.Common.Family.{update, tally, tally-eq-zero, le_tally, le_tally_two}
use macoro.Sequence.Mpsc.Waiting.Defs.{Publisher, Consumer, System, init, move}
use macoro.Sequence.Mpsc.Waiting.Knows.{
  holds, owns, is_fresh, Untold, Phase, Prefix, AtPublisher, AtConsumer, other_known,
  other_consumer,
}

abbrev pub weight_of : Bool → ℕ
weight_of b = if b then 1 else 0

pub weigh : (b c : Bool) → b ≡ c → weight_of b ≡ weight_of c
weigh b c e = ap weight_of e

pub flagged :
    (p : Consumer) (r : Bool) (c m m' : ℕ)
    → Phase p r c m
    → m ≡ 1 + m'
    → owns p ≡ 0
    → Phase p true (if r then suc c else c) m'
flagged p r c m m' h e o = ground arith

-- What the consumer's own steps do.
pub flagged_self :
    (r : Bool) (c m : ℕ) → Untold r c (m + 1) → Untold true (if r then suc c else c) m
flagged_self r c m h = ground arith

pub finished : (r : Bool) (c m : ℕ) → r ≡ true → Untold r c m → Phase Consumer.gone r (suc c) m
finished r c m e h = ground arith

pub suspending : (r : Bool) (c m : ℕ) → r ≡ false → Untold r c m → Phase Consumer.suspended true c m
suspending r c m e h = ground arith

pub bounded : (p : Consumer) (r : Bool) (c m : ℕ) → Phase p r c m → m ≤ 1
bounded p r c m h = ground arith

module _ (target n : ℕ) where
  abbrev pub held : System → ℕ
  held s = tally holds s.publisher n

  abbrev pub places : System → ℕ
  places s = (if s.queued then 1 else 0) + held s + owns s.consumer

  pub record Inv (s : System) : Type 0 where
    pub phase : Phase s.consumer s.ready s.continued (places s)
    pub known : Prefix s.published s.known
    pub told : places s ≡ 0 → is_fresh s.consumer ≡ false → target < s.known
    pub each : (j : ℕ) → j < n → AtPublisher target (s.publisher j) s.published s.known
    pub mine : AtConsumer target s.consumer s.published s.known

  pub init-Inv : (k : ℕ) → Inv (init k)
  unfolding init
  init-Inv k =
      let none = tally-eq-zero holds (λ _. Publisher.idle) (λ j. refl) n in
      record {
        phase = (omega (arith, none), refl, refl);
        known = λ i lt. ground (arith, lt);
        told = λ z e. absurd (false≢true (sym e));
        each = λ j lt. tt;
        mine = tt;
      }

  -- A producer that has the operation in hand is the only one, and nobody else relies on what is known.
  pub only_one :
      (s : System) (j : ℕ)
      → j < n
      → Inv s
      → holds (s.publisher j) ≡ 1
      → (i : ℕ) → i < n
      → (j == i) ≡ false
      → holds (s.publisher i) ≡ 0
  only_one s j lt v h i lt' e = omega (
    arith,
    h,
    bounded s.consumer s.ready s.continued (places s) v.phase,
    le_tally_two holds s.publisher Publisher.idle n j i refl lt lt' e,
  )

  pub not_owned :
      (s : System) (j : ℕ) → j < n → Inv s → holds (s.publisher j) ≡ 1 → owns s.consumer ≡ 0
  not_owned s j lt v h = omega (
    arith,
    h,
    bounded s.consumer s.ready s.continued (places s) v.phase,
    le_tally holds s.publisher n j lt,
  )

  -- A producer moves on, and writes what is known only with the operation in hand.
  pub move-Inv :
      (s : System) (j : ℕ) (p : Publisher) (q : Bool) (k : ℕ) (r : Bool) (c : ℕ)
      → j < n
      → Inv s
      → Phase s.consumer r c
          ((if q then 1 else 0) + tally holds (update s.publisher j p) n + owns s.consumer)
      → Prefix s.published k
      → ((if q then 1 else 0) + tally holds (update s.publisher j p) n + owns s.consumer ≡ 0
          → is_fresh s.consumer ≡ false
          → target < k)
      → AtPublisher target p s.published k
      → (k ≡ s.known) ⊎ (holds (s.publisher j) ≡ 1)
      → Inv (move (record s { queued = q; known = k; ready = r; continued = c }) j p)
  move-Inv s j p q k r c lt v h x t a w = record {
    phase = h;
    known = x;
    told = t;
    each = λ i lt'. elim (Bool-cases (j == i)) [
      | inl same ↦ rw same a
      | inr other ↦ rw other (elim w [
        | inl e ↦ subst (AtPublisher target (s.publisher i) s.published) (sym e) (v.each i lt')
        | inr e ↦
            other_known target (s.publisher i) s.published s.known k
              (only_one s j lt v e i lt' other) (v.each i lt')
      ])
    ];
    mine = elim w [
      | inl e ↦ subst (AtConsumer target s.consumer s.published) (sym e) v.mine
      | inr e ↦ other_consumer target s.consumer s.published s.known k (not_owned s j lt v e) v.mine
    ];
  }
