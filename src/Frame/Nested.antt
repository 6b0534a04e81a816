-- ===== src/Frame/Nested.antt =====
-- Awaits inside the expression of another (coro_frame.h): `getAwaiter` finds the awaiter of the outer
-- one, and the end of an inner one leaves the frame's awaiters as it found them.
use macoro.Common.{ℕ, ◌+◌, ◌≡◌, ◌≢◌, refl, true, ==_ne, ==_refl, some, List, ◌∷◌}
use macoro.Frame.Awaiters.{
  Entry, Frame, Kinds, empty_storage, set_ptr, make_await_context, destroy_back, destroy_awaiter,
  find_awaiter, get_awaiter, fill_part, record_part, delete_context, fill_back, place_part, Filled,
  await_core,
}

-- The entry of an await that has its awaiter.
unfoldable pub filled_entry : ℕ → Kinds → ℕ → Entry
filled_entry index kinds id = record {
  suspend_index = index;
  ctx = record {
    id = id;
    expr = set_ptr (empty_storage (Kinds.expr kinds));
    awaitable = set_ptr (empty_storage (Kinds.awaitable kinds));
    awaiter = set_ptr (empty_storage (Kinds.awaiter kinds));
  };
  has_awaiter = true;
}

-- The frames that an await leaves behind, and then awaits at other places within it.
pub data Within (index : ℕ) (kinds : Kinds) (f : Frame) : Frame → Type 0 where
  outer : Within index kinds f (await_core index kinds Filled.all f)
  inner :
      {g : Frame} (j : ℕ) (k : Kinds) (filled : Filled)
      → j ≢ index
      → Within index kinds f g
      → Within index kinds f (await_core j k filled g)

find_awaiter-here :
    (index id : ℕ) (kinds : Kinds) (es : List Entry)
    → find_awaiter index (filled_entry index kinds id ∷ es) ≡ some (filled_entry index kinds id)
unfolding find_awaiter filled_entry
find_awaiter-here index id kinds es = rw (==_refl index) refl

find_awaiter-below :
    (index : ℕ) (e : Entry) (es : List Entry)
    → Entry.suspend_index e ≢ index
    → find_awaiter index (e ∷ es) ≡ find_awaiter index es
unfolding find_awaiter
find_awaiter-below index e es ne = rw (==_ne (Entry.suspend_index e) index ne) refl

get_awaiter-inner :
    (index j : ℕ) (k : Kinds) (filled : Filled) (g : Frame)
    → j ≢ index
    → get_awaiter index (await_core j k filled g) ≡ get_awaiter index g
unfolding get_awaiter await_core place_part fill_back fill_part make_await_context
get_awaiter-inner index j k Filled.nothing g ne = find_awaiter-below index _ (Frame.awaiters g) ne
get_awaiter-inner index j k Filled.up_to_expr g ne =
    find_awaiter-below index _ (Frame.awaiters g) ne
get_awaiter-inner index j k Filled.up_to_awaitable g ne =
    find_awaiter-below index _ (Frame.awaiters g) ne
get_awaiter-inner index j k Filled.all g ne = find_awaiter-below index _ (Frame.awaiters g) ne

-- While an await is unfinished, `getAwaiter` finds its awaiter by the index of its place, however many
-- awaits at other places stand above it and however far these have got.
pub get_awaiter-Within :
    (index : ℕ) (kinds : Kinds) (f g : Frame)
    → Within index kinds f g
    → get_awaiter index g ≡ some (filled_entry index kinds (Frame.next_id f))
unfolding get_awaiter await_core place_part fill_back fill_part make_await_context filled_entry
get_awaiter-Within index kinds f g Within.outer =
    find_awaiter-here index (Frame.next_id f) kinds (Frame.awaiters f)
get_awaiter-Within index kinds f g (Within.inner {g = before} j k filled ne rest) =
    rw (get_awaiter-inner index j k filled before ne) (get_awaiter-Within index kinds f before rest)

-- An await that has its awaiter can end, and leaves the awaiters that stood there before it.
pub destroy_awaiter-await_core :
    (index : ℕ) (kinds : Kinds) (f : Frame)
    → (g : Frame) × (destroy_awaiter index (await_core index kinds Filled.all f) ≡ some g)
      × (Frame.awaiters g ≡ Frame.awaiters f)
unfolding destroy_awaiter destroy_back await_core place_part fill_back fill_part make_await_context
    filled_entry record_part
destroy_awaiter-await_core index kinds f = (
  record {
    awaiters = Frame.awaiters f;
    next_id = Frame.next_id f + 1;
    journal =
        delete_context (Entry.ctx (filled_entry index kinds (Frame.next_id f)))
          (Frame.journal (await_core index kinds Filled.all f));
  },
  rw (==_refl index) refl,
  refl,
)
