-- ===== src/Stop/Chunks/Full.antt =====
-- The search in a chunk (detail/stop_state.cpp) looks at every slot: it finds none only if none is free.
use macoro.Common.{
  ℕ, suc, zero, ◌+◌, ◌-◌, ◌%◌, ◌<◌, ◌≤◌, ◌≡◌, ◌≢◌, sym, ap, ◌∙◌, subst, true, false, ◌⊎◌,
  Bool-cases, inl, inr, leb, none, List, [], ◌∷◌, arith,
}
use native.Mathlib.Nat.{mod-lt, mod-eq_of_lt, add-mod_right, mod-add-mod}
use macoro.Stop.Chunks.Defs.{Chunk, find_free, loaded_count, is_searched}

find_free-none :
    (c : Chunk) (start n i j : ℕ)
    → find_free c start n i ≡ none
    → i ≤ j
    → j < i + n
    → c.entry ((start + j) % c.entry_count) ≢ none
unfolding find_free
find_free-none c start zero i j e le lt = absurd (omega (arith, le, lt))
find_free-none c start (suc n) i j e le lt = ground (arith, find_free-none c start n (i + 1) j)

-- From any start, every slot is one of the next `count`.
reached : (count start k : ℕ) → k < count → (j : ℕ) × (j < count) × ((start + j) % count ≡ k)
reached count start k lt =
    let r = start % count in
    let below : r < count = mod-lt start (omega (arith, lt)) in
    elim (Bool-cases (leb r k)) [
      | inl e ↦
          let ahead : r + (k - r) ≡ k = ground arith in
          (
            k - r,
            omega (arith, lt),
            sym (mod-add-mod start count (k - r)) ∙ ap (λ x. x % count) ahead ∙ mod-eq_of_lt lt,
          )
      | inr e ↦
          let around : r + (count - r + k) ≡ k + count = ground (arith, below) in
          (
            count - r + k,
            ground (arith, below),
            sym (mod-add-mod start count (count - r + k))
                ∙ ap (λ x. x % count) around
                ∙ add-mod_right k count
                ∙ mod-eq_of_lt lt,
          )
    ]

unfoldable pub IsFull : Chunk → Type 0
IsFull c = (k : ℕ) → k < c.entry_count → c.entry k ≢ none

pub find_free-IsFull : (c : Chunk) (start : ℕ) → find_free c start c.entry_count 0 ≡ none → IsFull c
unfolding IsFull
find_free-IsFull c start e k lt =
    let (j, below, same) = reached c.entry_count start k lt in
    subst (λ x. c.entry x ≢ none) same
      (find_free-none c start c.entry_count 0 j e (omega arith) (omega (arith, below)))

-- Every chunk that the search looks through is full.
unfoldable pub AreFull : List Chunk → Type 0
AreFull [] = true ≡ true
AreFull (c ∷ cs) = ((is_searched (loaded_count c.free_count) ≡ false) ⊎ IsFull c) × AreFull cs
