-- ===== src/Sequence/Slots.antt =====
-- The slots of a ring whose size divides 2^64: `seq & (size - 1)` for a power of two is the
-- remainder by `size`, and it goes around without a seam where the numbers wrap.
use macoro.Common.{
  ℕ, ◌+◌, ◌-◌, ◌%◌, ◌<◌, ◌≤◌, ◌≡◌, ◌≢◌, sym, ap, ◌∙◌, arith, Bool-cases, inl, inr, ltb,
}
use macoro.Common.Word.{word_mod, add_word}
use native.Mathlib.Nat.{
  mod-mod_of_dvd, dvd_of_mod-eq-zero, add-mod_right, mod-lt, mod-eq_of_lt, mod-add-mod,
  mod-eq-sub-mod,
}

abbrev pub slot : ℕ → ℕ → ℕ
slot size seq = seq % size

-- What the constructors assert of a buffer's size and what follows for a power of two.
pub record IsRing (size : ℕ) : Type 0 where
  pub positive : 0 < size
  pub below_half : size < word_mod
  pub divides : word_mod % size ≡ 0

pub slot-add_word : (size w n : ℕ) → IsRing size → slot size (add_word w n) ≡ slot size (w + n)
slot-add_word size w n r = mod-mod_of_dvd size (w + n) (dvd_of_mod-eq-zero size r.divides)

pub slot_again : (size w : ℕ) → IsRing size → slot size (add_word w size) ≡ slot size w
slot_again size w r = slot-add_word size w size r ∙ add-mod_right w size

-- Numbers less than the size apart have different slots.
pub slots_apart : (size a d : ℕ) → 0 < d → d < size → (a + d) % size ≢ a % size
slots_apart size a d p q e = elim (Bool-cases (ltb (rem + d) size)) [
  | inl h ↦ omega (arith, whole, e, mod-eq_of_lt {n = rem + d} {m = size} (ground (arith, h)))
  | inr h ↦
      let over : size ≤ rem + d = ground (arith, h) in
      omega (
        arith,
        whole,
        e,
        below,
        over,
        mod-eq-sub-mod {n = rem + d} {m = size} over,
        mod-eq_of_lt {n = rem + d - size} {m = size} (omega (arith, below)),
      )
]
  where
    rem : ℕ
    rem = a % size

    below : rem < size
    below = mod-lt a (omega arith)

    whole : (rem + d) % size ≡ (a + d) % size
    whole = mod-add-mod a size d

pub slot_injective :
    (size w i j : ℕ)
    → IsRing size
    → i < j
    → j - i < size
    → slot size (add_word w i) ≢ slot size (add_word w j)
slot_injective size w i j r p q e = slots_apart size (w + i) (j - i) (omega arith) q same
  where
    same : (w + i + (j - i)) % size ≡ (w + i) % size
    same =
        ap (λ x. x % size) (omega arith)
        ∙ (sym (slot-add_word size w j r) ∙ sym e ∙ slot-add_word size w i r)
