-- ===== src/Stop/Chunks/Removal.antt =====
-- What the slots hold behind the end of `deregister_callback` (detail/stop_state.cpp).
use macoro.Common.{
  ℕ, suc, ◌≡◌, refl, ap, ◌∙◌, true, if◌then◌else◌, if_ind, ◌==◌, Option, none, List, [], ◌∷◌,
  length, arith,
}
use macoro.Stop.Chunks.Defs.{
  Chunk, Position, add_registration, held, holds, clear_entry, remove_registration,
}
use macoro.Stop.Chunks.Held.{same_place, IsAdded, add_registration-IsAdded}

-- What a slot holds behind the removal of a registration.
abbrev without : ℕ → Option ℕ → Option ℕ
without registration o = if holds registration o then none else o

entry-clear_entry :
    (registration i j : ℕ) (c : Chunk)
    → (clear_entry registration i c).entry j
      ≡ (if i == j then without registration (c.entry j) else c.entry j)
unfolding clear_entry
entry-clear_entry registration i j c = ground arith

length-remove_registration :
    (registration : ℕ) (p : Position) (cs : List Chunk)
    → length (remove_registration registration p cs) ≡ length cs
unfolding remove_registration
length-remove_registration registration p [] = refl
length-remove_registration registration p (c ∷ cs) =
    if_ind (λ l. length l ≡ suc (length cs)) (length cs == p.chunk)
      (clear_entry registration p.entry_index c ∷ cs) (c ∷ remove_registration registration p cs)
      (λ e. refl) (λ e. ap suc (length-remove_registration registration p cs))

-- The end of `deregister_callback` clears the slot of the place if it still holds the registration, and
-- leaves every other slot as it was.
pub held-remove_registration :
    (registration : ℕ) (p : Position) (cs : List Chunk) (q : Position)
    → held (remove_registration registration p cs) q
      ≡ (if same_place p q then without registration (held cs q) else held cs q)
unfolding remove_registration held
held-remove_registration registration p [] q = ground arith
held-remove_registration registration p (c ∷ cs) q =
    if_ind
      (λ l.
        held l q
        ≡ (if same_place p q then without registration (held (c ∷ cs) q) else held (c ∷ cs) q))
      (length cs == p.chunk) (clear_entry registration p.entry_index c ∷ cs)
      (c ∷ remove_registration registration p cs)
      (λ e. ground (arith, e, entry-clear_entry registration p.entry_index q.entry_index c))
      (λ e. ground (
        arith,
        e,
        held-remove_registration registration p cs q,
        length-remove_registration registration p cs,
      ))

held_same : (cs : List Chunk) (p q : Position) → same_place p q ≡ true → held cs q ≡ held cs p
held_same cs p q h =
    let same_chunk : q.chunk ≡ p.chunk = ground arith in
    let same_index : q.entry_index ≡ p.entry_index = ground arith in
    ap (λ k. held cs (record { chunk = k; entry_index = q.entry_index })) same_chunk
    ∙ ap (λ i. held cs (record { chunk = p.chunk; entry_index = i })) same_index

held-removed_again :
    (registration : ℕ) (before after : List Chunk) (p q : Position)
    → IsAdded registration before after p
    → held (remove_registration registration p after) q ≡ held before q
held-removed_again registration before after p q added = ground (
  arith,
  held-remove_registration registration p after q,
  added.holds_now q,
  added.was_free,
  held_same before p q,
)

-- A registration that is added and removed again leaves every slot as it was.
pub remove_registration-add_registration :
    (registration : ℕ) (cs : List Chunk) (q : Position)
    → held
        (remove_registration registration
          (add_registration registration cs).1
          (add_registration registration cs).0)
        q
      ≡ held cs q
remove_registration-add_registration registration cs q =
    held-removed_again registration cs (add_registration registration cs).0
      (add_registration registration cs).1 q (add_registration-IsAdded registration cs)
