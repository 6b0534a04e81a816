-- ===== src/Stop/Handles/Tests.antt =====
-- A source, a token of it that a callback takes over, and the state's end with the callback.
use macoro.Common.{ℕ, ◌+◌, ◌≡◌, ◌==◌, ◌||◌, true, if◌then◌else◌, refl, arith}
use macoro.Stop.State.{
  create, add_token_ref, release_source_ref, release_token_ref, set_requested, set_complete,
  stop_requested, is_cancellation_notification_complete,
}
use macoro.Stop.Refs.{exec}
use macoro.Stop.Handles.Defs.{
  Kind, Heap, construct, copy, destroy, copy_assign, point, add_ref, release_ref, register, move,
  request, notify_complete, is_notifying, Step, Reach,
}
use macoro.Stop.Handles.Moves.{sources, tokens}
use macoro.Stop.Handles.Lifetime.{deleted_with_last_handle}

-- Handles 1 and 3 are a token and a callback, the others are sources.
abbrev kinds : ℕ → Kind
kinds i = if i == 1 || i == 3 then Kind.token else Kind.source

abbrev Run : Type 0
Run = (h : Heap) × Reach 4 kinds h

-- Source 0 is assigned to itself on the way.
token_left : Run
unfolding construct copy copy_assign destroy point release_ref add_ref
token_left = (
  _,
  Reach.next
      (Reach.next
        (Reach.next (Reach.next Reach.here (Step.construct_call 0 (omega arith) refl))
          (Step.copy_call 1 0 (omega arith) (omega arith) refl))
        (Step.copy_assign_call 0 0 (omega arith) (omega arith) refl))
      (Step.destroy_call 0 (omega arith)),
)

-- A callback takes the token over, a stop is requested, and the callback is destroyed last.
callback_left : Run
unfolding token_left register move request notify_complete is_notifying create set_requested
    stop_requested is_cancellation_notification_complete exec construct copy copy_assign destroy
    point release_ref add_ref add_token_ref release_source_ref
callback_left = (
  _,
  Reach.next
      (Reach.next
        (Reach.next token_left.1
          (Step.register_call true 3 1 (omega arith) (omega arith) refl refl refl))
        (Step.request_call 3 (omega arith)))
      (Step.complete_call 3 (omega arith) refl),
)

none_left : Run
unfolding callback_left
none_left = (_, Reach.next callback_left.1 (Step.destroy_call 3 (omega arith)))

deletions_seen : (callback_left.0.deletions 0 ≡ 0) × (none_left.0.deletions 0 ≡ 1)
unfolding token_left callback_left none_left register move request notify_complete set_complete
    set_requested construct copy copy_assign destroy point release_ref add_ref exec add_token_ref
    release_source_ref release_token_ref create
deletions_seen = (refl, refl)

deleted_with_last_handle_example :
    none_left.0.deletions 0
    ≡ (if sources 4 none_left.0.handle 0 + tokens 4 none_left.0.handle 0 == 0 then 1 else 0)
unfolding none_left token_left callback_left register move request construct copy copy_assign
    destroy point release_ref add_ref
deleted_with_last_handle_example =
    deleted_with_last_handle 4 kinds (omega arith) none_left.1 0 (omega arith)
