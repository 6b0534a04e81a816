-- ===== src/Frame/Awaiters.antt =====
-- The awaiters on the frame of a coroutine (`FrameBase` in coro_frame.h), and how one await uses them
-- (`IMPL_MC_AWAIT_CORE` in macros.h). A context owns three storages, filled in order; an exception
-- may leave the later ones empty. The journal records what is made and destroyed, the latest first.
use macoro.Common.{
  ℕ, ◌+◌, Bool, true, false, ◌==◌, if◌then◌else◌, Option, some, none, List, [], ◌∷◌,
}

pub data Part : Type 0 where
  context expr awaitable awaiter : Part

-- A storage of the context with this number, or the context itself.
pub record Object : Type 0 where
  pub owner : ℕ
  pub part : Part

pub data Event : Type 0 where
  made destroyed : Object → Event

-- `ExpressionStorage`: a reference is stored as its address, and destroys nothing.
pub record Storage : Type 0 where
  pub is_reference : Bool
  pub has_ptr : Bool

pub record Context : Type 0 where
  pub id : ℕ
  pub expr : Storage
  pub awaitable : Storage
  pub awaiter : Storage

-- `FrameBase::awaiters`, with the context that `_ctx_ptr` points to.
pub record Entry : Type 0 where
  pub suspend_index : ℕ
  pub ctx : Context
  pub has_awaiter : Bool  -- whether `_awaiter_ptr` is set

pub record Frame : Type 0 where
  pub awaiters : List Entry  -- the back is at the head
  pub next_id : ℕ
  pub journal : List Event

-- What the storages of an await hold, by the types of the expression, its awaitable and its awaiter.
pub record Kinds : Type 0 where
  pub expr : Bool
  pub awaitable : Bool
  pub awaiter : Bool

unfoldable pub empty_frame : Frame
empty_frame = record { awaiters = []; next_id = 0; journal = [] }

unfoldable pub empty_storage : Bool → Storage
empty_storage is_reference = record { is_reference = is_reference; has_ptr = false }

-- The placement `new` into a storage.
unfoldable pub set_ptr : Storage → Storage
set_ptr s = record { is_reference = Storage.is_reference s; has_ptr = true }

unfoldable pub made_in : Object → Storage → List Event → List Event
made_in o s journal = if Storage.is_reference s then journal else Event.made o ∷ journal

-- `ExpressionStorage::destroy`
unfoldable pub destroy_storage : Object → Storage → List Event → List Event
destroy_storage o s journal =
    if Storage.is_reference s
    then journal
    else if Storage.has_ptr s
    then Event.destroyed o ∷ journal
    else journal

unfoldable pub object : ℕ → Part → Object
object id part = record { owner = id; part = part }

unfoldable pub make_await_context : ℕ → Kinds → Frame → Frame
make_await_context index kinds f = record {
  awaiters =
      record {
        suspend_index = index;
        ctx = record {
          id = Frame.next_id f;
          expr = empty_storage (Kinds.expr kinds);
          awaitable = empty_storage (Kinds.awaitable kinds);
          awaiter = empty_storage (Kinds.awaiter kinds);
        };
        has_awaiter = false;
      }
      ∷ Frame.awaiters f;
  next_id = Frame.next_id f + 1;
  journal = Event.made (object (Frame.next_id f) Part.context) ∷ Frame.journal f;
}

-- The deleter of a context.
unfoldable pub delete_context : Context → List Event → List Event
delete_context c journal =
    let id = Context.id c in
    Event.destroyed (object id Part.context)
    ∷ destroy_storage (object id Part.expr) (Context.expr c) (
        destroy_storage (object id Part.awaitable) (Context.awaitable c)
          (destroy_storage (object id Part.awaiter) (Context.awaiter c) journal))

unfoldable pub delete_all : List Entry → List Event → List Event
delete_all [] journal = journal
delete_all (e ∷ es) journal = delete_all es (delete_context (Entry.ctx e) journal)

unfoldable pub destroy_awaiters : Frame → Frame
destroy_awaiters f = record {
  awaiters = [];
  next_id = Frame.next_id f;
  journal = delete_all (Frame.awaiters f) (Frame.journal f);
}

-- `destroyAwaiter`; nothing where its assertions fail.
unfoldable pub destroy_back : ℕ → List Entry → Frame → Option Frame
destroy_back index [] f = none
destroy_back index (e ∷ es) f =
    if Entry.suspend_index e == index
    then (if Entry.has_awaiter e
        then some (record {
          awaiters = es;
          next_id = Frame.next_id f;
          journal = delete_context (Entry.ctx e) (Frame.journal f);
        })
        else none)
    else none

unfoldable pub destroy_awaiter : ℕ → Frame → Option Frame
destroy_awaiter index f = destroy_back index (Frame.awaiters f) f

unfoldable pub find_awaiter : ℕ → List Entry → Option Entry
find_awaiter index [] = none
find_awaiter index (e ∷ es) =
    let rest = find_awaiter index es in
    if Entry.suspend_index e == index then (if Entry.has_awaiter e then some e else none) else rest

-- `getAwaiter`, which looks from the back; nothing where its assertions fail.
unfoldable pub get_awaiter : ℕ → Frame → Option Entry
get_awaiter index f = find_awaiter index (Frame.awaiters f)

-- The storage of a part; the context itself stands in none.
unfoldable pub fill_part : Part → Context → Context
fill_part Part.context c = c
fill_part Part.expr c = record {
  id = Context.id c;
  expr = set_ptr (Context.expr c);
  awaitable = Context.awaitable c;
  awaiter = Context.awaiter c;
}
fill_part Part.awaitable c = record {
  id = Context.id c;
  expr = Context.expr c;
  awaitable = set_ptr (Context.awaitable c);
  awaiter = Context.awaiter c;
}
fill_part Part.awaiter c = record {
  id = Context.id c;
  expr = Context.expr c;
  awaitable = Context.awaitable c;
  awaiter = set_ptr (Context.awaiter c);
}

unfoldable pub record_part : Part → Context → List Event → List Event
record_part Part.context c journal = journal
record_part Part.expr c journal = made_in (object (Context.id c) Part.expr) (Context.expr c) journal
record_part Part.awaitable c journal =
    made_in (object (Context.id c) Part.awaitable) (Context.awaitable c) journal
record_part Part.awaiter c journal =
    made_in (object (Context.id c) Part.awaiter) (Context.awaiter c) journal

-- One placement `new` of the macro, into the context at the back; the last sets `_awaiter_ptr`.
unfoldable pub fill_back : Part → Bool → List Entry → Frame → Frame
fill_back part points [] f = f
fill_back part points (e ∷ es) f = record {
  awaiters =
      record {
        suspend_index = Entry.suspend_index e;
        ctx = fill_part part (Entry.ctx e);
        has_awaiter = points;
      }
      ∷ es;
  next_id = Frame.next_id f;
  journal = record_part part (Entry.ctx e) (Frame.journal f);
}

unfoldable pub place_part : Part → Bool → Frame → Frame
place_part part points f = fill_back part points (Frame.awaiters f) f

-- How far the await gets before an exception leaves it.
pub data Filled : Type 0 where
  nothing up_to_expr up_to_awaitable all : Filled

unfoldable pub await_core : ℕ → Kinds → Filled → Frame → Frame
await_core index kinds Filled.nothing f = make_await_context index kinds f
await_core index kinds Filled.up_to_expr f =
    place_part Part.expr false (make_await_context index kinds f)
await_core index kinds Filled.up_to_awaitable f =
    place_part Part.awaitable false (place_part Part.expr false (make_await_context index kinds f))
await_core index kinds Filled.all f = place_part Part.awaiter true (
    place_part Part.awaitable false (place_part Part.expr false (make_await_context index kinds f)))

-- What the body of a coroutine does with the frame: an await with the index of its place, the end of
-- an await, and an exception that reaches the end of the body or the end of the frame.
pub data Action : Type 0 where
  await : ℕ → Kinds → Filled → Action
  finish : ℕ → Action
  unwind : Action

unfoldable pub perform : Action → Frame → Option Frame
perform (Action.await index kinds filled) f = some (await_core index kinds filled f)
perform (Action.finish index) f = destroy_awaiter index f
perform Action.unwind f = some (destroy_awaiters f)

unfoldable pub run : List Action → Frame → Option Frame
run [] f = some f
run (o ∷ os) f = elim (perform o f) [ none ↦ none | some g ↦ run os g ]
