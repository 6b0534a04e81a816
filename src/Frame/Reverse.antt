-- ===== src/Frame/Reverse.antt =====
-- The objects of a frame's awaits are destroyed in the reverse order in which they were made
-- (coro_frame.h), also when an exception leaves an await half done.
use macoro.Common.{
  ℕ, ◌≡◌, refl, subst, Bool, true, false, if◌then◌else◌, ◌==◌, if_ind, Option, some, none, List, [],
  ◌∷◌,
}
use macoro.Frame.Awaiters.{
  Part, Object, Event, Storage, Context, Entry, Frame, Kinds, empty_frame, empty_storage, set_ptr,
  made_in, destroy_storage, object, make_await_context, delete_context, delete_all,
  destroy_awaiters, destroy_back, destroy_awaiter, fill_part, record_part, fill_back, place_part,
  Filled, await_core, Action, perform, run,
}

-- A journal is well nested and leaves these objects, the latest first: the object destroyed is always
-- the latest that stands.
pub data Leaves : List Event → List Object → Type 0 where
  start : Leaves [] []
  made :
      {j : List Event} {os : List Object} {o : Object}
      → Leaves j os
      → Leaves (Event.made o ∷ j) (o ∷ os)
  destroyed :
      {j : List Event} {os : List Object} {o : Object}
      → Leaves j (o ∷ os)
      → Leaves (Event.destroyed o ∷ j) os

-- The objects that a storage, a context and the entries own, above others.
unfoldable owned : Object → Storage → List Object → List Object
owned o s os = if Storage.is_reference s then os else if Storage.has_ptr s then o ∷ os else os

unfoldable owned_by : Context → List Object → List Object
owned_by c os = owned (object (Context.id c) Part.awaiter) (Context.awaiter c) (
    owned (object (Context.id c) Part.awaitable) (Context.awaitable c) (
      owned (object (Context.id c) Part.expr) (Context.expr c)
        (object (Context.id c) Part.context ∷ os)))

unfoldable standing : List Entry → List Object
standing [] = []
standing (e ∷ es) = owned_by (Entry.ctx e) (standing es)

Leaves-destroy_storage :
    (o : Object) (r p : Bool) (j : List Event) (os : List Object)
    → Leaves j (owned o (record { is_reference = r; has_ptr = p }) os)
    → Leaves (destroy_storage o (record { is_reference = r; has_ptr = p }) j) os
unfolding owned destroy_storage
Leaves-destroy_storage o true p j os h = h
Leaves-destroy_storage o false true j os h = Leaves.destroyed h
Leaves-destroy_storage o false false j os h = h

Leaves-made_in :
    (o : Object) (r : Bool) (j : List Event) (os : List Object)
    → Leaves j os
    → Leaves (made_in o (empty_storage r) j) (owned o (set_ptr (empty_storage r)) os)
unfolding owned made_in empty_storage set_ptr
Leaves-made_in o true j os h = h
Leaves-made_in o false j os h = Leaves.made h

Leaves-empty_storage :
    (o : Object) (r : Bool) (j : List Event) (os : List Object)
    → Leaves j os
    → Leaves j (owned o (empty_storage r) os)
unfolding owned empty_storage
Leaves-empty_storage o true j os h = h
Leaves-empty_storage o false j os h = h

Leaves-delete_context :
    (c : Context) (j : List Event) (os : List Object)
    → Leaves j (owned_by c os)
    → Leaves (delete_context c j) os
unfolding owned_by delete_context
Leaves-delete_context c j os h = Leaves.destroyed (
    Leaves-destroy_storage _ _ _ _ _
      (Leaves-destroy_storage _ _ _ _ _ (Leaves-destroy_storage _ _ _ _ _ h)))

Leaves-delete_all :
    (es : List Entry) (j : List Event) → Leaves j (standing es) → Leaves (delete_all es j) []
unfolding standing delete_all
Leaves-delete_all [] j h = h
Leaves-delete_all (e ∷ es) j h =
    Leaves-delete_all es (delete_context (Entry.ctx e) j)
      (Leaves-delete_context (Entry.ctx e) j (standing es) h)

unfoldable IsNested : Frame → Type 0
IsNested f = Leaves (Frame.journal f) (standing (Frame.awaiters f))

IsNested-await_core :
    (index : ℕ) (kinds : Kinds) (filled : Filled) (f : Frame)
    → IsNested f
    → IsNested (await_core index kinds filled f)
unfolding IsNested await_core place_part fill_back fill_part record_part make_await_context standing
    owned_by
IsNested-await_core index kinds Filled.nothing f h =
    Leaves-empty_storage _ _ _ _
      (Leaves-empty_storage _ _ _ _ (Leaves-empty_storage _ _ _ _ (Leaves.made h)))
IsNested-await_core index kinds Filled.up_to_expr f h =
    Leaves-empty_storage _ _ _ _
      (Leaves-empty_storage _ _ _ _ (Leaves-made_in _ _ _ _ (Leaves.made h)))
IsNested-await_core index kinds Filled.up_to_awaitable f h =
    Leaves-empty_storage _ _ _ _ (Leaves-made_in _ _ _ _ (Leaves-made_in _ _ _ _ (Leaves.made h)))
IsNested-await_core index kinds Filled.all f h =
    Leaves-made_in _ _ _ _ (Leaves-made_in _ _ _ _ (Leaves-made_in _ _ _ _ (Leaves.made h)))

IsNested-empty_frame : IsNested empty_frame
unfolding IsNested empty_frame standing
IsNested-empty_frame = Leaves.start

-- Of the frame, if an operation has got to its end.
unfoldable IsNestedIf : Option Frame → Type 0
IsNestedIf none = false ≡ false
IsNestedIf (some f) = IsNested f

IsNestedIf-destroy_back :
    (index : ℕ) (es : List Entry) (f : Frame)
    → Leaves (Frame.journal f) (standing es)
    → IsNestedIf (destroy_back index es f)
unfolding IsNested IsNestedIf destroy_back standing
IsNestedIf-destroy_back index [] f h = refl
IsNestedIf-destroy_back index (e ∷ es) f h =
    if_ind IsNestedIf (Entry.suspend_index e == index) _ none
      (λ same.
        if_ind IsNestedIf (Entry.has_awaiter e) _ none
          (λ points. Leaves-delete_context (Entry.ctx e) (Frame.journal f) (standing es) h)
          (λ p. refl))
      (λ p. refl)

IsNestedIf-perform : (o : Action) (f : Frame) → IsNested f → IsNestedIf (perform o f)
unfolding IsNestedIf IsNested perform destroy_awaiter destroy_awaiters standing
IsNestedIf-perform (Action.await index kinds filled) f h =
    IsNested-await_core index kinds filled f h
IsNestedIf-perform (Action.finish index) f h = IsNestedIf-destroy_back index (Frame.awaiters f) f h
IsNestedIf-perform Action.unwind f h = Leaves-delete_all (Frame.awaiters f) (Frame.journal f) h

IsNestedIf-then :
    (next : Frame → Option Frame)
    → ((g : Frame) → IsNested g → IsNestedIf (next g))
    → (x : Option Frame) → IsNestedIf x
    → IsNestedIf (elim x [ none ↦ none | some g ↦ next g ])
unfolding IsNestedIf
IsNestedIf-then next keeps none h = refl
IsNestedIf-then next keeps (some g) h = keeps g h

IsNestedIf-run : (os : List Action) (f : Frame) → IsNested f → IsNestedIf (run os f)
unfolding run IsNestedIf
IsNestedIf-run [] f h = h
IsNestedIf-run (o ∷ os) f h =
    IsNestedIf-then (run os) (λ g. IsNestedIf-run os g) (perform o f) (IsNestedIf-perform o f h)

-- Whatever awaits a coroutine starts and ends, and wherever exceptions leave them half done, behind
-- `destroyAwaiters` its journal is well nested and leaves nothing: every context, expression,
-- awaitable and awaiter that was made is destroyed once, each before those made earlier, and
-- nothing else is destroyed.
pub destroy_awaiters-run :
    (os : List Action) (f : Frame)
    → run os empty_frame ≡ some f
    → Leaves (Frame.journal (destroy_awaiters f)) []
unfolding IsNested IsNestedIf destroy_awaiters
destroy_awaiters-run os f e =
    Leaves-delete_all (Frame.awaiters f) (Frame.journal f)
      (subst IsNestedIf e (IsNestedIf-run os empty_frame IsNested-empty_frame))
