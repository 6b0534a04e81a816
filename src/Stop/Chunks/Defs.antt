-- ===== src/Stop/Chunks/Defs.antt =====
-- `stop_callback_list_chunk`, `add_registration` and the end of `deregister_callback` on one list of
-- chunks, as functions of the list. The chunk at the head is the last of the chain, and a chunk has
-- the number of those before it; the tail that is kept apart is the head, as no other thread
-- appends. Registrations are numbers for their addresses.
use macoro.Common.{
  ℕ, suc, zero, ◌+◌, ◌-◌, ◌*◌, ◌%◌, ◌^◌, Bool, true, false, ◌||◌, if◌then◌else◌, ◌==◌, ltb, Option,
  some, none, List, [], ◌∷◌, length,
}
use macoro.Common.Int.{ℤ, pos, negsuc, is_negative, is_positive, lt_int}
use macoro.Common.Family.{update}

pub record Chunk : Type 0 where
  pub entry_count : ℕ
  pub free_count : ℤ  -- `m_approximateFreeCount`
  pub entry : ℕ → Option ℕ

pub record Position : Type 0 where
  pub chunk : ℕ
  pub entry_index : ℕ

-- What an operation leaves, and the slot it claimed.
pub record Search (A : Type 0) : Type 0 where
  pub left : A
  pub found : Option Position

abbrev pub word32_mod : ℕ
word32_mod = 2 ^ 32

unfoldable pub allocate : ℕ → ℕ → Chunk
allocate count registration = record {
  entry_count = count;
  free_count = pos (count - 1);
  entry = update (λ i. none) 0 (some registration);
}

-- `entryCount - freeCount` as an unsigned number of 32 bits.
unfoldable pub start_index : ℕ → ℤ → ℕ
start_index count (pos n) = (count + (word32_mod - n % word32_mod)) % word32_mod
start_index count (negsuc n) = (count + (n + 1)) % word32_mod

abbrev pub previous : ℤ → ℤ
previous (pos zero) = negsuc 0
previous (pos (suc n)) = pos n
previous (negsuc n) = negsuc (suc n)

-- The count that the search goes by: a count that shows no free slot is taken one down.
unfoldable pub loaded_count : ℤ → ℤ
loaded_count n = if is_positive n then n else previous n

-- Whether the chunk is searched: below -10 in any case.
unfoldable pub is_searched : ℤ → Bool
is_searched n = is_positive n || lt_int n (negsuc 9)

abbrev pub is_empty : Option ℕ → Bool
is_empty none = true
is_empty (some r) = false

-- The first empty slot of those that are left, from number `i` on behind the start; the mask is the
-- remainder by the count of entries, a power of two that divides 2^32.
unfoldable pub find_free : Chunk → ℕ → ℕ → ℕ → Option ℕ
find_free c start zero i = none
find_free c start (suc n) i =
    let rest = find_free c start n (i + 1) in
    if is_empty (Chunk.entry c ((start + i) % Chunk.entry_count c))
    then some ((start + i) % Chunk.entry_count c)
    else rest

-- The end of the search in a chunk with the count that it went by.
unfoldable pub settle_search : ℕ → Chunk → ℤ → ℕ → Option ℕ → Search Chunk
settle_search registration c count number none = record {
  left = record c { free_count = pos 0 };
  found = none;
}
settle_search registration c count number (some i) = record {
  left = record c {
    free_count = if is_negative count then pos 0 else previous count;
    entry = update (Chunk.entry c) i (some registration);
  };
  found = some (record { chunk = number; entry_index = i });
}

unfoldable pub search_chunk : ℕ → Chunk → ℕ → Search Chunk
search_chunk registration c number =
    let count = loaded_count (Chunk.free_count c) in
    if is_searched count
    then settle_search registration c count number
        (find_free c (start_index (Chunk.entry_count c) count) (Chunk.entry_count c) 0)
    else record { left = record c { free_count = count }; found = none }

-- Goes on with the chunks before one if it has no slot.
unfoldable pub or_earlier : Search Chunk → List Chunk → Search (List Chunk) → Search (List Chunk)
or_earlier claim cs rest = elim (Search.found claim) [
  | some p ↦ record { left = Search.left claim ∷ cs; found = some p }
  | none ↦ record { left = Search.left claim ∷ Search.left rest; found = Search.found rest }
]

unfoldable pub search_chunks : ℕ → List Chunk → Search (List Chunk)
search_chunks registration [] = record { left = []; found = none }
search_chunks registration (c ∷ cs) =
    or_earlier (search_chunk registration c (length cs)) cs (search_chunks registration cs)

unfoldable pub next_count : ℕ → ℕ
next_count count = if ltb count 1024 then count * 2 else 1024

-- A slot found, or the first of a new chunk behind the last, of which the count is given.
unfoldable pub or_append : ℕ → ℕ → Search (List Chunk) → List Chunk × Position
or_append registration count claim = elim (Search.found claim) [
  | some p ↦ (Search.left claim, p)
  | none ↦ (
    allocate (next_count count) registration ∷ Search.left claim,
    record { chunk = length (Search.left claim); entry_index = 0 },
  )
]

-- No chunk stands for a list that was not made yet.
unfoldable pub add_registration : ℕ → List Chunk → List Chunk × Position
add_registration registration [] =
    (allocate 16 registration ∷ [], record { chunk = 0; entry_index = 0 })
add_registration registration (c ∷ cs) =
    or_append registration (Chunk.entry_count c) (search_chunks registration (c ∷ cs))

abbrev pub holds : ℕ → Option ℕ → Bool
holds registration none = false
holds registration (some r) = registration == r

unfoldable pub count_up : ℕ → ℤ → ℤ
count_up count n = if lt_int n (pos count) then (if is_negative n then pos 1 else next n) else n
  where
    next : ℤ → ℤ
    next (pos k) = pos (k + 1)
    next (negsuc k) = pos 1

-- The part of `deregister_callback` that clears the slot.
unfoldable pub clear_entry : ℕ → ℕ → Chunk → Chunk
clear_entry registration i c =
    if holds registration (Chunk.entry c i)
    then record c {
      free_count = count_up (Chunk.entry_count c) (Chunk.free_count c);
      entry = update (Chunk.entry c) i none;
    }
    else c

unfoldable pub remove_registration : ℕ → Position → List Chunk → List Chunk
remove_registration registration p [] = []
remove_registration registration p (c ∷ cs) =
    let rest = remove_registration registration p cs in
    if length cs == Position.chunk p
    then clear_entry registration (Position.entry_index p) c ∷ cs
    else c ∷ rest

-- The registration in a slot; none where no chunk has the number.
unfoldable pub held : List Chunk → Position → Option ℕ
held [] p = none
held (c ∷ cs) p =
    let rest = held cs p in
    if length cs == Position.chunk p then Chunk.entry c (Position.entry_index p) else rest
