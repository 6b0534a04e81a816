-- ===== src/Stop/Chunks/Counts.antt =====
-- The sizes and the counts of free slots of the chunks (detail/stop_state.cpp), which stay within the
-- 32 bits that they have.
use macoro.Common.{
  ℕ, suc, zero, ◌+◌, ◌<◌, ◌≤◌, ◌≡◌, refl, ap, ◌||◌, Bool, true, false, if◌then◌else◌, if_ind, ◌==◌,
  ==_refl, ltb, Option, some, none, List, [], ◌∷◌, length, arith,
}
use macoro.Common.Int.{ℤ, pos, negsuc}
use native.Mathlib.Nat.{mod-lt}
use macoro.Stop.Chunks.Defs.{
  Chunk, Position, Search, allocate, start_index, loaded_count, is_searched, find_free,
  settle_search, search_chunk, or_earlier, search_chunks, or_append, next_count, add_registration,
  clear_entry, holds, count_up, remove_registration,
}

-- The count of free slots is between -10 and the count of entries.
unfoldable pub InRange : ℕ → ℤ → Type 0
InRange count (pos n) = n ≤ count
InRange count (negsuc n) = n < 10

-- What the search goes by may be one less.
unfoldable IsLoaded : ℕ → ℤ → Type 0
IsLoaded count (pos n) = n ≤ count
IsLoaded count (negsuc n) = n < 11

-- The counts that chunks are made with: the powers of two from 16 to 1024.
unfoldable pub is_size : ℕ → Bool
is_size n = n == 16 || (n == 32 || (n == 64 || (n == 128 || (n == 256 || (n == 512 || n == 1024)))))

is_size-pos : (n : ℕ) → is_size n ≡ true → 0 < n
unfolding is_size
is_size-pos n h = ground arith

pub record IsChunk (c : Chunk) : Type 0 where
  pub sized : is_size c.entry_count ≡ true
  pub in_range : InRange c.entry_count c.free_count

unfoldable pub AreChunks : List Chunk → Type 0
AreChunks [] = true ≡ true
AreChunks (c ∷ cs) = IsChunk c × AreChunks cs

-- The count of entries of the chunk with a number.
unfoldable pub entries_of : List Chunk → ℕ → ℕ
entries_of [] k = 0
entries_of (c ∷ cs) k = let rest = entries_of cs k in if length cs == k then c.entry_count else rest

InRange-loaded_count : (count : ℕ) (n : ℤ) → InRange count n → IsLoaded count (loaded_count n)
unfolding InRange IsLoaded loaded_count
InRange-loaded_count count (pos zero) h = ground arith
InRange-loaded_count count (pos (suc n)) h = ground arith
InRange-loaded_count count (negsuc n) h = ground arith

InRange-is_searched :
    (count : ℕ) (n : ℤ) → IsLoaded count n → is_searched n ≡ false → InRange count n
unfolding InRange IsLoaded is_searched
InRange-is_searched count (pos n) h e = h
InRange-is_searched count (negsuc n) h e = ground arith

find_free-lt :
    (c : Chunk) (start n i k : ℕ)
    → 0 < c.entry_count
    → find_free c start n i ≡ some k
    → k < c.entry_count
unfolding find_free
find_free-lt c start zero i k h e = ground arith
find_free-lt c start (suc n) i k h e =
    ground (arith, find_free-lt c start n (i + 1) k h, mod-lt (start + i) h)

-- What a search leaves, if its slot stands in the chunk.
data Fits (number : ℕ) : Search Chunk → Type 0 where
  missed : {c : Chunk} → IsChunk c → Fits number (record { left = c; found = none })
  claimed :
      {c : Chunk} {i : ℕ}
      → IsChunk c
      → i < c.entry_count
      → Fits number (record { left = c; found = some (record { chunk = number; entry_index = i }) })

Fits-settle_search :
    (registration : ℕ) (c : Chunk) (count : ℤ) (number : ℕ) (o : Option ℕ)
    → IsChunk c
    → IsLoaded c.entry_count count
    → is_searched count ≡ true
    → ((k : ℕ) → o ≡ some k → k < c.entry_count)
    → Fits number (settle_search registration c count number o)
unfolding settle_search IsLoaded is_searched InRange
Fits-settle_search registration c count number none h l e lt =
    Fits.missed (record { sized = h.sized; in_range = omega arith })
Fits-settle_search registration c (pos zero) number (some i) h l e lt = absurd (ground arith)
Fits-settle_search registration c (pos (suc n)) number (some i) h l e lt =
    Fits.claimed (record { sized = h.sized; in_range = (omega (arith, l)) }) (lt i refl)
Fits-settle_search registration c (negsuc n) number (some i) h l e lt =
    Fits.claimed (record { sized = h.sized; in_range = (omega arith) }) (lt i refl)

Fits-search_chunk :
    (registration : ℕ) (c : Chunk) (number : ℕ)
    → IsChunk c
    → Fits number (search_chunk registration c number)
unfolding search_chunk
Fits-search_chunk registration c number h =
    let count = loaded_count c.free_count in
    let start = start_index c.entry_count count in
    let loaded = InRange-loaded_count c.entry_count c.free_count h.in_range in
    if_ind (Fits number) (is_searched count) _ _
      (λ e.
        Fits-settle_search registration c count number (find_free c start c.entry_count 0) h loaded
          e (λ k. find_free-lt c start c.entry_count 0 k (is_size-pos c.entry_count h.sized)))
      (λ e.
        Fits.missed
          (record { sized = h.sized; in_range = InRange-is_searched c.entry_count count loaded e }))

-- What the search in a list of chunks leaves.
data Fitting (before : List Chunk) : Search (List Chunk) → Type 0 where
  missed :
      {left : List Chunk}
      → AreChunks left
      → length left ≡ length before
      → Fitting before (record { left = left; found = none })
  claimed :
      {left : List Chunk} {p : Position}
      → AreChunks left
      → length left ≡ length before
      → p.chunk < length before
      → p.entry_index < entries_of left p.chunk
      → Fitting before (record { left = left; found = some p })

Fitting-or_earlier :
    (c : Chunk) (cs : List Chunk) (claim : Search Chunk) (rest : Search (List Chunk))
    → AreChunks cs
    → Fits (length cs) claim
    → Fitting cs rest
    → Fitting (c ∷ cs) (or_earlier claim cs rest)
unfolding or_earlier AreChunks entries_of
Fitting-or_earlier c cs claim rest h (Fits.claimed {i} sized lt) f =
    Fitting.claimed (sized, h) refl (omega arith) (rw (==_refl (length cs)) lt)
Fitting-or_earlier c cs claim rest h (Fits.missed sized) (Fitting.missed are len) =
    Fitting.missed (sized, are) (ap suc len)
Fitting-or_earlier c cs claim rest h (Fits.missed sized) (Fitting.claimed are len lt inside) =
    Fitting.claimed (sized, are) (ap suc len) (omega (arith, lt)) ground (arith, len, lt, inside)

Fitting-search_chunks :
    (registration : ℕ) (cs : List Chunk) → AreChunks cs → Fitting cs (search_chunks registration cs)
unfolding search_chunks AreChunks
Fitting-search_chunks registration [] h = Fitting.missed refl refl
Fitting-search_chunks registration (c ∷ cs) (sized, are) =
    Fitting-or_earlier c cs (search_chunk registration c (length cs))
      (search_chunks registration cs) are (Fits-search_chunk registration c (length cs) sized)
      (Fitting-search_chunks registration cs are)

-- A list of chunks with a place in it.
pub record IsPlaced (cs : List Chunk) (p : Position) : Type 0 where
  pub are_chunks : AreChunks cs
  pub inside : p.entry_index < entries_of cs p.chunk

IsChunk-allocate :
    (count registration : ℕ) → is_size count ≡ true → IsChunk (allocate count registration)
unfolding allocate InRange
IsChunk-allocate count registration h = record { sized = h; in_range = omega arith }

is_size-next_count : (count : ℕ) → is_size count ≡ true → is_size (next_count count) ≡ true
unfolding next_count is_size
is_size-next_count count h = ground arith

IsPlaced-or_append :
    (registration count : ℕ) (cs : List Chunk) (claim : Search (List Chunk))
    → is_size count ≡ true
    → Fitting cs claim
    → IsPlaced (or_append registration count claim).0 (or_append registration count claim).1
unfolding or_append AreChunks entries_of allocate
IsPlaced-or_append registration count cs claim h (Fitting.claimed are len lt inside) = record {
  are_chunks = are;
  inside = inside;
}
IsPlaced-or_append registration count cs claim h (Fitting.missed {left} are len) =
    let more = is_size-next_count count h in
    record {
      are_chunks = (IsChunk-allocate (next_count count) registration more, are);
      inside = rw (==_refl (length left)) (is_size-pos (next_count count) more);
    }

InRange-count_up :
    (count : ℕ) (n : ℤ) → 0 < count → InRange count n → InRange count (count_up count n)
unfolding InRange count_up
InRange-count_up count (pos n) h r =
    if_ind (InRange count) (ltb n count) (pos (n + 1)) (pos n) (λ e. ground arith) (λ e. r)
InRange-count_up count (negsuc n) h r = omega arith

IsChunk-clear_entry :
    (registration i : ℕ) (c : Chunk) → IsChunk c → IsChunk (clear_entry registration i c)
unfolding clear_entry
IsChunk-clear_entry registration i c h =
    if_ind IsChunk (holds registration (c.entry i)) _ c
      (λ e. record {
        sized = h.sized;
        in_range =
            InRange-count_up c.entry_count c.free_count (is_size-pos c.entry_count h.sized)
              h.in_range;
      })
      (λ e. h)

AreChunks-remove_registration :
    (registration : ℕ) (p : Position) (cs : List Chunk)
    → AreChunks cs
    → AreChunks (remove_registration registration p cs)
unfolding remove_registration AreChunks
AreChunks-remove_registration registration p [] h = refl
AreChunks-remove_registration registration p (c ∷ cs) (sized, are) =
    if_ind AreChunks (length cs == p.chunk) (clear_entry registration p.entry_index c ∷ cs)
      (c ∷ remove_registration registration p cs)
      (λ e. (IsChunk-clear_entry registration p.entry_index c sized, are))
      (λ e. (sized, AreChunks-remove_registration registration p cs are))

-- Every chunk keeps between 16 and 1024 entries, a power of two, and a count of free slots between -10 and the count of
-- its entries, behind `add_registration`, and behind the removal at any place. The place that
-- `add_registration` answers is one of a chunk of the list, and its index is below the count of that
-- chunk's entries.
pub add_registration-IsPlaced :
    (registration : ℕ) (cs : List Chunk)
    → AreChunks cs
    → IsPlaced (add_registration registration cs).0 (add_registration registration cs).1
      × ((p : Position) → AreChunks (remove_registration registration p cs))
unfolding add_registration AreChunks entries_of allocate is_size
add_registration-IsPlaced registration [] h = (
  record { are_chunks = (IsChunk-allocate 16 registration refl, refl); inside = omega arith },
  λ p. AreChunks-remove_registration registration p [] h,
)
add_registration-IsPlaced registration (c ∷ cs) (sized, are) = (
  IsPlaced-or_append registration c.entry_count (c ∷ cs) (search_chunks registration (c ∷ cs))
      sized.sized (Fitting-search_chunks registration (c ∷ cs) (sized, are)),
  λ p. AreChunks-remove_registration registration p (c ∷ cs) (sized, are),
)
