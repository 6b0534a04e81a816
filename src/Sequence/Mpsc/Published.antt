-- ===== src/Sequence/Mpsc/Published.antt =====
-- Which numbers the array holds: after stores, after the constructor, and as a reader scans it.
use macoro.Common.{
  ℕ, zero, suc, ◌+◌, ◌<◌, ◌≤◌, ◌≡◌, ◌≢◌, ◌⊎◌, refl, sym, ap, ◌∙◌, true, false, ltb, ==_iff, ==_refl,
  ==_ne, some, List, [], ◌∷◌, Bool-cases, inl, inr, arith,
}
use mathlib.Core.Bool.{false≢true}
use macoro.Common.Word.{word_mod, add_word}
use macoro.Sequence.Range.{run_from, add_word-suc}
use macoro.Sequence.Slots.{slot, IsRing, slot_again, slot_injective}
use macoro.Sequence.Mpsc.Defs.{
  SequenceMpsc, store, store_all, is_published, scan, last_published_after,
}

pub add_word-zero : (w : ℕ) → w < word_mod → add_word w 0 ≡ w
add_word-zero w p = omega arith

pub store_self : (s : SequenceMpsc) (x : ℕ) → is_published (store s x) x ≡ true
unfolding is_published store
store_self s x = ground (arith, ==_refl x, ==_refl (slot s.buffer_size x))

pub store_other :
    (s : SequenceMpsc) (x y : ℕ)
    → slot s.buffer_size x ≢ slot s.buffer_size y
    → is_published (store s x) y ≡ is_published s y
unfolding is_published store
store_other s x y h = rw (==_ne (slot s.buffer_size x) (slot s.buffer_size y) h) refl

store-buffer_size : (s : SequenceMpsc) (x : ℕ) → (store s x).buffer_size ≡ s.buffer_size
unfolding store
store-buffer_size s x = refl

pub store_all-buffer_size :
    (s : SequenceMpsc) (xs : List ℕ) → (store_all s xs).buffer_size ≡ s.buffer_size
unfolding store_all
store_all-buffer_size s [] = refl
store_all-buffer_size s (x ∷ xs) = store_all-buffer_size (store s x) xs ∙ store-buffer_size s x

-- Stores of a run leave the numbers of all other slots as they are.
pub store_all-other :
    (n w y : ℕ) (s : SequenceMpsc)
    → w < word_mod
    → ((i : ℕ) → i < n → slot s.buffer_size (add_word w i) ≢ slot s.buffer_size y)
    → is_published (store_all s (run_from w n)) y ≡ is_published s y
unfolding store_all run_from store
store_all-other zero w y s p h = refl
store_all-other (suc n) w y s p h =
    store_all-other n (add_word w 1) y (store s w) (omega arith)
      (λ i lt e. h (suc i) (omega arith) (ap (slot s.buffer_size) (add_word-suc w i) ∙ e))
    ∙ store_other s w y (λ e. h 0 (omega arith) (ap (slot s.buffer_size) (add_word-zero w p) ∙ e))

-- Stores of a run no longer than the buffer are all there at the end.
pub store_all-run_from :
    (n w : ℕ) (s : SequenceMpsc)
    → w < word_mod
    → IsRing s.buffer_size
    → n ≤ s.buffer_size
    → (i : ℕ) → i < n
    → is_published (store_all s (run_from w n)) (add_word w i) ≡ true
unfolding store_all run_from store
store_all-run_from zero w s p r h i lt = absurd (omega arith)
store_all-run_from (suc n) w s p r h zero lt = rw (add_word-zero w p) (
    store_all-other n (add_word w 1) w (store s w) (omega arith) (λ j lt e.
      slot_injective s.buffer_size w 0 (suc j) r (omega arith) (omega arith) (
        ap (slot s.buffer_size) (add_word-zero w p)
        ∙ sym e
        ∙ ap (slot s.buffer_size) (sym (add_word-suc w j))))
    ∙ store_self s w)
store_all-run_from (suc n) w s p r h (suc i) lt =
    rw (add_word-suc w i) (
      store_all-run_from n (add_word w 1) (store s w) (omega arith) r (omega arith) i (omega arith))

-- A reader's scan from `w` on finds the numbers up to `w + n` published, and the next one not.
pub record IsRun (s : SequenceMpsc) (w n : ℕ) : Type 0 where
  pub all_published : (i : ℕ) → i < n → is_published s (add_word w (suc i)) ≡ true
  pub gap : is_published s (add_word w (suc n)) ≡ false

-- One more number in front.
all_suc :
    (s : SequenceMpsc) (w n : ℕ)
    → is_published s (add_word w 1) ≡ true
    → ((i : ℕ) → i < n → is_published s (add_word (add_word w 1) (suc i)) ≡ true)
    → (i : ℕ) → i < suc n
    → is_published s (add_word w (suc i)) ≡ true
all_suc s w n e h zero lt = e
all_suc s w n e h (suc i) lt = rw (add_word-suc w (suc i)) (h i (omega arith))

scan-IsRun :
    (f : ℕ) (s : SequenceMpsc) (w : ℕ)
    → w < word_mod
    → ((n : ℕ) × (scan f s (add_word w 1) w ≡ some (add_word w n)) × IsRun s w n)
      ⊎ ((i : ℕ) → i < f → is_published s (add_word w (suc i)) ≡ true)
unfolding scan
scan-IsRun zero s w p = inr (λ i lt. absurd (omega arith))
scan-IsRun (suc f) s w p = elim (Bool-cases (is_published s (add_word w 1))) [
  | inl e ↦ elim (scan-IsRun f s (add_word w 1) (omega arith)) [
    | inl (n, q, run) ↦ inl (
      suc n,
      rw (e, add_word-suc w n) q,
      record {
        all_published = all_suc s w n e run.all_published;
        gap = rw (add_word-suc w (suc n)) run.gap;
      },
    )
    | inr all ↦ inr (all_suc s w f e all)
  ]
  | inr e ↦ inl (
    0,
    rw (e, add_word-zero w p) refl,
    record { all_published = λ i lt. absurd (omega arith); gap = e },
  )
]

-- Two numbers that a slot cannot hold at once.
pub not_both :
    (s : SequenceMpsc) (x : ℕ)
    → x < word_mod
    → IsRing s.buffer_size
    → is_published s x ≡ true
    → is_published s (add_word x s.buffer_size) ≡ false
unfolding is_published
not_both s x p r e =
    let held : s.published (slot s.buffer_size x) ≡ x = (==_iff _ x).0 e in
    rw (slot_again s.buffer_size x r, held)
      (==_ne x (add_word x s.buffer_size) (omega (arith, r.positive, r.below_half)))

-- All slots hold one number each, so that no longer run is published.
run_bound :
    (s : SequenceMpsc) (w m : ℕ)
    → w < word_mod
    → IsRing s.buffer_size
    → ((i : ℕ) → i < m → is_published s (add_word w (suc i)) ≡ true)
    → m ≤ s.buffer_size
run_bound s w m p r all = elim (Bool-cases (ltb s.buffer_size m)) [
  | inl long ↦
      let over : s.buffer_size < m = ground (arith, long) in
      absurd (
        false≢true (
          sym (not_both s (add_word w 1) (omega arith) r (all 0 (omega (arith, over))))
          ∙ rw (sym (add_word-suc w s.buffer_size)) (all s.buffer_size over)))
  | inr fits ↦ ground (arith, fits)
]

-- `last_published_after` ends after at most one round more than the buffer has slots, whatever the
-- array holds: all numbers up to its result are published and the next one is not.
pub last_published_after-IsRun :
    (s : SequenceMpsc) (w extra : ℕ)
    → w < word_mod
    → IsRing s.buffer_size
    → (n : ℕ) × (n ≤ s.buffer_size)
      × (last_published_after (s.buffer_size + 1 + extra) s w ≡ some (add_word w n))
      × IsRun s w n
unfolding last_published_after
last_published_after-IsRun s w extra p r = elim (scan-IsRun (s.buffer_size + 1 + extra) s w p) [
  | inl (n, q, run) ↦ (n, run_bound s w n p r run.all_published, q, run)
  | inr all ↦ absurd (omega (arith, run_bound s w _ p r all))
]
