-- ===== src/Stop/Chunks/Held.antt =====
-- What the slots hold behind `add_registration` (detail/stop_state.cpp).
use macoro.Common.{
  ℕ, suc, zero, ◌+◌, ◌<◌, ◌≤◌, ◌≡◌, refl, ap, Bool, false, ◌⊎◌, inl, inr, ◌&&◌, if◌then◌else◌,
  if_ind, ◌==◌, ==_refl, ==_ne, Option, some, none, List, [], ◌∷◌, length, arith,
}
use macoro.Common.Int.{ℤ}
use macoro.Common.Family.{update}
use macoro.Stop.Chunks.Full.{IsFull, AreFull, find_free-IsFull}
use macoro.Stop.Chunks.Defs.{
  Chunk, Position, Search, allocate, start_index, loaded_count, is_searched, find_free,
  settle_search, search_chunk, or_earlier, search_chunks, or_append, add_registration, held,
}

abbrev pub same_place : Position → Position → Bool
same_place p q = (p.chunk == q.chunk) && (p.entry_index == q.entry_index)

find_free-IsEmpty :
    (c : Chunk) (start n i k : ℕ) → find_free c start n i ≡ some k → c.entry k ≡ none
unfolding find_free
find_free-IsEmpty c start zero i k e = ground arith
find_free-IsEmpty c start (suc n) i k e = ground (arith, find_free-IsEmpty c start n (i + 1) k)

-- The outcomes of the search in one chunk.
pub data Searched (registration : ℕ) (c : Chunk) (number : ℕ) : Search Chunk → Type 0 where
  missed :
      {n : ℤ}
      → (is_searched (loaded_count c.free_count) ≡ false) ⊎ IsFull c
      → Searched registration c number (record { left = record c { free_count = n }; found = none })
  claimed :
      {n : ℤ} (i : ℕ)
      → c.entry i ≡ none
      → Searched registration c number (record {
        left = record c { free_count = n; entry = update c.entry i (some registration) };
        found = some (record { chunk = number; entry_index = i });
      })

Searched-settle_search :
    (registration : ℕ) (c : Chunk) (count : ℤ) (number : ℕ) (o : Option ℕ)
    → ((k : ℕ) → o ≡ some k → c.entry k ≡ none)
    → (o ≡ none → IsFull c)
    → Searched registration c number (settle_search registration c count number o)
unfolding settle_search
Searched-settle_search registration c count number none h full = Searched.missed (inr (full refl))
Searched-settle_search registration c count number (some i) h full = Searched.claimed i (h i refl)

Searched-search_chunk :
    (registration : ℕ) (c : Chunk) (number : ℕ)
    → Searched registration c number (search_chunk registration c number)
unfolding search_chunk
Searched-search_chunk registration c number =
    let count = loaded_count c.free_count in
    let start = start_index c.entry_count count in
    if_ind (Searched registration c number) (is_searched count) _ _
      (λ e.
        Searched-settle_search registration c count number (find_free c start c.entry_count 0)
          (find_free-IsEmpty c start c.entry_count 0) (find_free-IsFull c start))
      (λ e. Searched.missed (inl e))

-- The registration is added to the slots of the chunks: its slot was free, and no other changes.
pub record IsAdded (registration : ℕ) (before : List Chunk) (after : List Chunk) (p : Position)
    : Type 0 where
  pub was_free : held before p ≡ none
  pub holds_now :
      (q : Position) → held after q ≡ (if same_place p q then some registration else held before q)

held_beyond : (cs : List Chunk) (p : Position) → length cs ≤ p.chunk → held cs p ≡ none
unfolding held
held_beyond [] p h = refl
held_beyond (c ∷ cs) p h =
    rw (==_ne (length cs) p.chunk (omega arith)) (held_beyond cs p (omega arith))

-- The outcomes of the search in a list of chunks.
pub data Walked (registration : ℕ) (before : List Chunk) : Search (List Chunk) → Type 0 where
  missed :
      {left : List Chunk}
      → AreFull before
      → length left ≡ length before
      → ((q : Position) → held left q ≡ held before q)
      → Walked registration before (record { left = left; found = none })
  claimed :
      {left : List Chunk} {p : Position}
      → length left ≡ length before
      → p.chunk < length before
      → IsAdded registration before left p
      → Walked registration before (record { left = left; found = some p })

IsAdded-here :
    (registration : ℕ) (c : Chunk) (cs : List Chunk) (n : ℤ) (i : ℕ)
    → c.entry i ≡ none
    → IsAdded registration
        (c ∷ cs)
        (record c { free_count = n; entry = update c.entry i (some registration) } ∷ cs)
        (record { chunk = length cs; entry_index = i })
unfolding held
IsAdded-here registration c cs n i free = record {
  was_free = rw (==_refl (length cs)) free;
  holds_now = λ q. ground arith;
}

Walked-or_earlier :
    (registration : ℕ) (c : Chunk) (cs : List Chunk) (claim : Search Chunk)
    (rest : Search (List Chunk))
    → Searched registration c (length cs) claim
    → Walked registration cs rest
    → Walked registration (c ∷ cs) (or_earlier claim cs rest)
unfolding or_earlier held AreFull
Walked-or_earlier registration c cs claim rest (Searched.claimed {n} i free) w =
    Walked.claimed refl (omega arith) (IsAdded-here registration c cs n i free)
Walked-or_earlier registration c cs claim rest (Searched.missed {n} full)
      (Walked.missed {left} are len same) =
    Walked.missed (full, are) (ap suc len) (λ q. ground (arith, len, same q))
Walked-or_earlier registration c cs claim rest (Searched.missed {n} full)
      (Walked.claimed {left} {p} len lt added) =
    Walked.claimed (ap suc len) (omega (arith, lt)) (record {
      was_free = ground (arith, lt, added.was_free);
      holds_now = λ q. ground (arith, len, lt, added.holds_now q);
    })

Walked-search_chunks :
    (registration : ℕ) (cs : List Chunk) → Walked registration cs (search_chunks registration cs)
unfolding search_chunks AreFull
Walked-search_chunks registration [] = Walked.missed refl refl (λ q. refl)
Walked-search_chunks registration (c ∷ cs) =
    Walked-or_earlier registration c cs (search_chunk registration c (length cs))
      (search_chunks registration cs) (Searched-search_chunk registration c (length cs))
      (Walked-search_chunks registration cs)

IsAdded-or_append :
    (registration count : ℕ) (cs : List Chunk) (claim : Search (List Chunk))
    → Walked registration cs claim
    → IsAdded registration cs
        (or_append registration count claim).0
        (or_append registration count claim).1
unfolding or_append held allocate
IsAdded-or_append registration count cs claim (Walked.claimed len lt added) = added
IsAdded-or_append registration count cs claim (Walked.missed {left} are len same) = record {
  was_free = held_beyond cs (record { chunk = length left; entry_index = 0 }) (omega (arith, len));
  holds_now = λ q. ground (arith, len, same q, held_beyond cs q);
}

pub add_registration-IsAdded :
    (registration : ℕ) (cs : List Chunk)
    → IsAdded registration cs
        (add_registration registration cs).0
        (add_registration registration cs).1
unfolding add_registration held allocate
add_registration-IsAdded registration [] = record { was_free = refl; holds_now = λ q. ground arith }
add_registration-IsAdded registration (c ∷ cs) =
    IsAdded-or_append registration c.entry_count (c ∷ cs) (search_chunks registration (c ∷ cs))
      (Walked-search_chunks registration (c ∷ cs))

new_if_AreFull :
    (registration count : ℕ) (cs : List Chunk) (claim : Search (List Chunk))
    → Walked registration cs claim
    → ((or_append registration count claim).1.chunk < length cs) ⊎ AreFull cs
unfolding or_append
new_if_AreFull registration count cs claim (Walked.claimed len lt added) = inl lt
new_if_AreFull registration count cs claim (Walked.missed are len same) = inr are

-- `add_registration` puts the registration into a slot that was free and leaves every other slot of the
-- list as it was, and it answers that place. The place is in one of the chunks that were there, or all
-- of these were full that the search looked through.
pub add_registration-AreFull :
    (registration : ℕ) (cs : List Chunk)
    → IsAdded registration cs
        (add_registration registration cs).0
        (add_registration registration cs).1
      × (((add_registration registration cs).1.chunk < length cs) ⊎ AreFull cs)
unfolding add_registration AreFull
add_registration-AreFull registration [] = (add_registration-IsAdded registration [], inr refl)
add_registration-AreFull registration (c ∷ cs) = (
  add_registration-IsAdded registration (c ∷ cs),
  new_if_AreFull registration c.entry_count (c ∷ cs) (search_chunks registration (c ∷ cs))
      (Walked-search_chunks registration (c ∷ cs)),
)
