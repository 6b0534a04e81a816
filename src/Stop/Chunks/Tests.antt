-- ===== src/Stop/Chunks/Tests.antt =====
-- The chunks of slots on concrete inputs.
use macoro.Common.{◌<◌, ◌⊎◌, ◌+◌, ◌≡◌, refl, none, some, [], ◌∷◌, if◌then◌else◌, ◌==◌, arith}
use macoro.Common.Int.{pos, negsuc}
use macoro.Stop.Chunks.Defs.{
  Chunk, Position, add_registration, remove_registration, held, search_chunks, search_chunk,
  or_append, or_earlier, start_index, loaded_count, is_searched, find_free, settle_search,
}
use macoro.Stop.Chunks.Full.{AreFull}
use macoro.Stop.Chunks.Held.{IsAdded, add_registration-AreFull}
use macoro.Stop.Chunks.Removal.{remove_registration-add_registration}
use macoro.Stop.Chunks.Counts.{AreChunks, InRange, IsPlaced, is_size, add_registration-IsPlaced}

-- A chunk in which only slot 5 is free, though its count shows none.
abbrev nearly_full : Chunk
nearly_full = record {
  entry_count = 16;
  free_count = negsuc 9;
  entry = λ i. if i == 5 then none else some (100 + i);
}

-- The count of -10 forces a search, which finds the slot.
forced_search : (add_registration 7 (nearly_full ∷ [])).1 ≡ record { chunk = 0; entry_index = 5 }
unfolding add_registration search_chunks search_chunk or_append or_earlier start_index loaded_count
    is_searched find_free settle_search
forced_search = refl

-- A count that shows no free slot is otherwise believed, and a chunk of 32 is made.
abbrev believed_full : Chunk
believed_full = record nearly_full { free_count = pos 0 }

new_chunk : (add_registration 7 (believed_full ∷ [])).1 ≡ record { chunk = 1; entry_index = 0 }
unfolding add_registration search_chunks search_chunk or_append or_earlier start_index loaded_count
    is_searched find_free settle_search
new_chunk = refl

add_registration-AreFull_example :
    IsAdded 7
      (nearly_full ∷ [])
      (add_registration 7 (nearly_full ∷ [])).0
      (add_registration 7 (nearly_full ∷ [])).1
    × (((add_registration 7 (nearly_full ∷ [])).1.chunk < 1) ⊎ AreFull (nearly_full ∷ []))
add_registration-AreFull_example = add_registration-AreFull 7 (nearly_full ∷ [])

remove_registration-add_registration_example :
    held
      (remove_registration 7
        (add_registration 7 (nearly_full ∷ [])).1
        (add_registration 7 (nearly_full ∷ [])).0)
      (record { chunk = 0; entry_index = 5 })
    ≡ none
unfolding held
remove_registration-add_registration_example =
    remove_registration-add_registration 7 (nearly_full ∷ [])
      (record { chunk = 0; entry_index = 5 })

nearly_full-AreChunks : AreChunks (nearly_full ∷ [])
unfolding AreChunks InRange is_size
nearly_full-AreChunks = (record { sized = refl; in_range = omega arith }, refl)

add_registration-IsPlaced_example :
    IsPlaced (add_registration 7 (nearly_full ∷ [])).0 (add_registration 7 (nearly_full ∷ [])).1
    × ((p : Position) → AreChunks (remove_registration 7 p (nearly_full ∷ [])))
add_registration-IsPlaced_example =
    add_registration-IsPlaced 7 (nearly_full ∷ []) nearly_full-AreChunks
