-- ===== src/Stop/Handles/Defs.antt =====
-- The heap of stop states and the handles. A handle is named by a number; one that was not
-- constructed yet or was destroyed is null. The calls of one handle do not overlap.
use macoro.Common.{
  ℕ, suc, ◌<◌, ◌≡◌, Bool, true, false, not, ◌&&◌, ◌==◌, if◌then◌else◌, Option, none, some,
}
use macoro.Common.Family.{update}
use macoro.Stop.State.{
  create, set_requested, set_complete, stop_requested, is_cancellation_notification_complete,
}
use macoro.Stop.Refs.{RefOp, exec}

pub data Kind : Type 0 where
  source token : Kind

-- A stop_source or a stop_token, and its `m_state`.
pub record Handle : Type 0 where
  pub kind : Kind
  pub state : Option ℕ

pub record Heap : Type 0 where
  pub created : ℕ
  pub word : ℕ → ℕ
  pub deletions : ℕ → ℕ
  pub handle : ℕ → Handle

abbrev pub add_op : Kind → RefOp
add_op Kind.source = RefOp.add_source
add_op Kind.token = RefOp.add_token

abbrev pub release_op : Kind → RefOp
release_op Kind.source = RefOp.release_source
release_op Kind.token = RefOp.release_token

-- `if (p != nullptr) p->add_..._ref()`
unfoldable pub add_ref : Kind → Option ℕ → Heap → Heap
add_ref c none h = h
add_ref c (some k) h = record h { word = update h.word k (exec (add_op c) (h.word k)).0 }

-- `if (p != nullptr) p->release_..._ref()`
unfoldable pub release_ref : Kind → Option ℕ → Heap → Heap
release_ref c none h = h
release_ref c (some k) h = record h {
  word = update h.word k (exec (release_op c) (h.word k)).0;
  deletions =
      update h.deletions k
        (if (exec (release_op c) (h.word k)).1 then suc (h.deletions k) else h.deletions k);
}

unfoldable pub point : ℕ → Option ℕ → Heap → Heap
point i p h = record h { handle = update h.handle i record { kind = (h.handle i).kind; state = p } }

abbrev pub same_state : Option ℕ → Option ℕ → Bool
same_state none none = true
same_state (some j) (some k) = j == k
same_state _ _ = false

-- `stop_source::stop_source()`
unfoldable pub construct : ℕ → Heap → Heap
unfolding point
construct i h = record (point i (some h.created) h) {
  created = suc h.created;
  word = update h.word h.created create;
}

-- Copy construction, and `get_token()` for a token `i` and a source `j`.
unfoldable pub copy : ℕ → ℕ → Heap → Heap
unfolding point add_ref
copy i j h = add_ref (h.handle i).kind (h.handle j).state (point i (h.handle j).state h)

unfoldable pub move : ℕ → ℕ → Heap → Heap
unfolding point
move i j h = point j none (point i (h.handle j).state h)

unfoldable pub destroy : ℕ → Heap → Heap
unfolding point release_ref
destroy i h = point i none (release_ref (h.handle i).kind (h.handle i).state h)

unfoldable pub copy_assign : ℕ → ℕ → Heap → Heap
unfolding point release_ref add_ref
copy_assign i j h =
    if same_state (h.handle i).state (h.handle j).state
    then h
    else add_ref (h.handle i).kind (h.handle j).state
        (point i (h.handle j).state (release_ref (h.handle i).kind (h.handle i).state h))

unfoldable pub move_assign : ℕ → ℕ → Heap → Heap
unfolding point release_ref
move_assign i j h =
    if i == j
    then h
    else point j none
        (point i (h.handle j).state (release_ref (h.handle i).kind (h.handle i).state h))

-- `stop_token::swap`
unfoldable pub swap : ℕ → ℕ → Heap → Heap
unfolding point
swap i j h = point j (h.handle i).state (point i (h.handle j).state h)

-- `stop_callback::register_callback` for a callback `i`, whose `m_state` counts as a handle of kind
-- token, and its token `j`: `registered` says whether the state could be stopped and took the
-- callback. The destructor is `destroy`, apart from the deregistration.
unfoldable pub register : Bool → ℕ → ℕ → Heap → Heap
unfolding move
register registered i j h = if registered then move i j h else h

-- What `request_stop` does to the word before it looks for callbacks.
unfoldable pub request : Option ℕ → Heap → Heap
request none h = h
request (some k) h = record h { word = update h.word k (set_requested (h.word k)).0 }

-- What the call that was the first to request does to the word when the callbacks have run.
unfoldable pub notify_complete : Option ℕ → Heap → Heap
notify_complete none h = h
notify_complete (some k) h = record h { word = update h.word k (set_complete (h.word k)) }

-- Whether the word says that a stop was requested and its callbacks have not all run.
unfoldable pub is_notifying : Option ℕ → Heap → Bool
is_notifying none h = false
is_notifying (some k) h =
    stop_requested (h.word k) && not (is_cancellation_notification_complete (h.word k))

-- The calls on the handles below `n`, in any order.
pub data Step (n : ℕ) (h : Heap) : Heap → Type 0 where
  construct_call :
      (i : ℕ)
      → i < n
      → h.handle i ≡ record { kind = Kind.source; state = none }
      → Step n h (construct i h)
  copy_call : (i j : ℕ) → i < n → j < n → (h.handle i).state ≡ none → Step n h (copy i j h)
  move_call :
      (i j : ℕ)
      → i < n
      → j < n
      → (i == j) ≡ false
      → (h.handle i).state ≡ none
      → (h.handle i).kind ≡ (h.handle j).kind
      → Step n h (move i j h)
  destroy_call : (i : ℕ) → i < n → Step n h (destroy i h)
  copy_assign_call :
      (i j : ℕ)
      → i < n
      → j < n
      → (h.handle i).kind ≡ (h.handle j).kind
      → Step n h (copy_assign i j h)
  move_assign_call :
      (i j : ℕ)
      → i < n
      → j < n
      → (h.handle i).kind ≡ (h.handle j).kind
      → Step n h (move_assign i j h)
  swap_call :
      (i j : ℕ)
      → i < n
      → j < n
      → (i == j) ≡ false
      → (h.handle i).kind ≡ Kind.token
      → (h.handle j).kind ≡ Kind.token
      → Step n h (swap i j h)
  register_call :
      (registered : Bool) (i j : ℕ)
      → i < n
      → j < n
      → (i == j) ≡ false
      → (h.handle i) ≡ record { kind = Kind.token; state = none }
      → (h.handle j).kind ≡ Kind.token
      → Step n h (register registered i j h)
  request_call : (i : ℕ) → i < n → Step n h (request (h.handle i).state h)
  complete_call :
      (i : ℕ)
      → i < n
      → is_notifying (h.handle i).state h ≡ true
      → Step n h (notify_complete (h.handle i).state h)

-- Every handle is null at first.
abbrev pub init : (ℕ → Kind) → Heap
init kind = record {
  created = 0;
  word = λ _. 0;
  deletions = λ _. 0;
  handle = λ i. record { kind = kind i; state = none };
}

pub data Reach (n : ℕ) (kind : ℕ → Kind) : Heap → Type 0 where
  here : Reach n kind (init kind)
  next : {h t : Heap} → Reach n kind h → Step n h t → Reach n kind t
