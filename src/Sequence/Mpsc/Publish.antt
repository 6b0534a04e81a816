-- ===== src/Sequence/Mpsc/Publish.antt =====
-- The array after the constructor and after the publication of a range.
use macoro.Common.{
  ℕ, zero, suc, ◌+◌, ◌-◌, ◌<◌, ◌≤◌, ◌≡◌, ◌≢◌, refl, sym, ap, subst, ◌∙◌, true, false, ◌==◌, ==_iff,
  ==_ne, some, min, Bool-cases, inl, inr, arith,
}
use macoro.Common.Word.{word_mod, add_word, sub_word}
use macoro.Sequence.Range.{
  SequenceRange, front, size, empty, skip, iterate, run_from, iterate-range, add_word-suc,
  size-skip, size-sub_word,
}
use macoro.Sequence.Slots.{slot, IsRing, slot_injective}
use macoro.Sequence.Mpsc.Defs.{
  SequenceMpsc, store, store_all, fill_from, create, is_published, scan, last_published_after,
  publish_range,
}
use macoro.Sequence.Mpsc.Published.{
  add_word-zero, store_self, store_other, store_all-buffer_size, store_all-other,
  store_all-run_from, not_both,
}

-- The numbers `w` to `w + n`, the first one last.
module _ (n w : ℕ) (s : SequenceMpsc) (p : w < word_mod) where
  abbrev tail_stored : SequenceMpsc
  tail_stored = store_all s (run_from (add_word w 1) n)

  tail_size : tail_stored.buffer_size ≡ s.buffer_size
  tail_size = store_all-buffer_size s (run_from (add_word w 1) n)

  first_last :
      IsRing s.buffer_size
      → suc n ≤ s.buffer_size
      → (i : ℕ) → i < suc n
      → is_published (store tail_stored w) (add_word w i) ≡ true
  first_last r h zero lt = rw (add_word-zero w p) (store_self tail_stored w)
  first_last r h (suc i) lt =
      store_other tail_stored w (add_word w (suc i)) (λ e.
        slot_injective s.buffer_size w 0 (suc i) r (omega arith) (omega arith)
          (rw (add_word-zero w p, sym tail_size) e))
      ∙ rw (add_word-suc w i)
          (store_all-run_from n (add_word w 1) s (omega arith) r (omega arith) i (omega arith))

  others_kept :
      (y : ℕ)
      → ((i : ℕ) → i < suc n → slot s.buffer_size (add_word w i) ≢ slot s.buffer_size y)
      → is_published (store tail_stored w) y ≡ is_published s y
  others_kept y h =
      store_other tail_stored w y (λ e. h 0 (omega arith) (rw (add_word-zero w p, sym tail_size) e))
      ∙ store_all-other n (add_word w 1) y s (omega arith)
          (λ i lt e. h (suc i) (omega arith) (rw (add_word-suc w i) e))

-- A range no longer than the buffer, once it is published, is there as a whole, and every number
-- whose slot it does not take is as it was.
pub publish_range-is_published :
    (s : SequenceMpsc) (r : SequenceRange) (extra : ℕ)
    → r.begin < word_mod
    → r.end < word_mod
    → IsRing s.buffer_size
    → size r ≤ s.buffer_size
    → (t : SequenceMpsc) × (publish_range (size r + extra) s r ≡ some t)
      × ((i : ℕ) → i < size r → is_published t (add_word r.begin i) ≡ true)
      × ((y : ℕ)
          → ((i : ℕ) → i < size r → slot s.buffer_size (add_word r.begin i) ≢ slot s.buffer_size y)
          → is_published t y ≡ is_published s y)
unfolding publish_range empty front skip
publish_range-is_published s r extra p q ring h = elim (Bool-cases (r.begin == r.end)) [
  | inl e ↦
      let none_left : size r ≡ 0 = ground (arith, size-sub_word r p q, e) in
      (s, rw e refl, (λ i lt. absurd (omega (arith, none_left))), λ y k. refl)
  | inr e ↦
      let n = size (skip r 1) in
      let some_left : 0 < size r = ground (arith, size-sub_word r p q, e) in
      let whole : size r ≡ suc n = omega (arith, size-skip r 1 p q, some_left) in
      let one : min (size r) 1 ≡ 1 = omega (arith, some_left) in
      let fuel : size r + extra ≡ n + suc extra = omega (arith, whole) in
      let visited : iterate (size r + extra) (add_word r.begin (min (size r) 1)) r.end
          ≡ some (run_from (add_word r.begin 1) n) =
        rw fuel (
          iterate-range (skip r 1) (suc extra) (omega arith) q
          ∙ ap (λ x. some (run_from (add_word r.begin x) n)) one) in
      (
        store (tail_stored n r.begin s p) r.begin,
        rw (e, visited) refl,
        λ i lt. first_last n r.begin s p ring (omega (arith, whole)) i (omega (arith, whole)),
        λ y k. others_kept n r.begin s p y (λ i lt. k i (omega (arith, whole))),
      )
]

fill_from-run_from :
    (f k seq initial : ℕ) (s : SequenceMpsc)
    → k < f
    → k < word_mod
    → seq < word_mod
    → add_word seq k ≡ initial
    → fill_from f seq initial s ≡ some (store_all s (run_from seq (suc k)))
unfolding fill_from store_all run_from
fill_from-run_from zero k seq initial s h b p e = absurd (omega arith)
fill_from-run_from (suc f) zero seq initial s h b p e =
    let last : seq ≡ initial = sym (add_word-zero seq p) ∙ e in
    rw ((==_iff seq initial).1 last) refl
fill_from-run_from (suc f) (suc k) seq initial s h b p e = rw (==_ne seq initial (omega arith)) (
    fill_from-run_from f k (add_word seq 1) initial (store s seq) (omega arith) (omega arith)
      (omega arith) (sym (add_word-suc seq k) ∙ e))

abbrev unfilled : ℕ → ℕ → SequenceMpsc
unfilled slots initial = record {
  buffer_size = slots;
  published = λ _. 0;
  next_to_claim = add_word initial 1;
}

-- The constructor's loop ends after as many rounds as the buffer has slots, and nothing behind the
-- initial number counts as published then.
pub create-last_published_after :
    (f f' slots initial : ℕ)
    → initial < word_mod
    → IsRing slots
    → slots ≤ f
    → (t : SequenceMpsc) × (create f slots initial ≡ some t)
      × (last_published_after (suc f') t initial ≡ some initial)
unfolding create last_published_after scan
create-last_published_after f f' slots initial p r h =
    let base = sub_word initial (slots - 1) in
    let t = store_all (unfilled slots initial) (run_from base (suc (slots - 1))) in
    let same : t.buffer_size ≡ slots =
      store_all-buffer_size (unfilled slots initial) (run_from base (suc (slots - 1))) in
    let there : is_published t base ≡ true =
      subst (λ x. is_published t x ≡ true) (add_word-zero base (omega arith))
        (store_all-run_from (suc (slots - 1)) base (unfilled slots initial) (omega arith) r
          (omega (arith, r)) 0 (omega arith)) in
    let after : add_word base slots ≡ add_word initial 1 = omega (arith, r) in
    let gap : is_published t (add_word initial 1) ≡ false =
      subst (λ x. is_published t x ≡ false) (ap (add_word base) same ∙ after)
        (not_both t base (omega arith) (subst IsRing (sym same) r) there) in
    (
      t,
      fill_from-run_from f (slots - 1) base initial (unfilled slots initial) (omega (arith, r))
          (omega (arith, r)) (omega arith) (omega (arith, r)),
      rw gap refl,
    )
