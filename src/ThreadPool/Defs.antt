-- ===== src/ThreadPool/Defs.antt =====
-- The state under the mutex, the operations that change it and the loop of a thread.
use macoro.Common.{
  ℕ, zero, suc, ◌+◌, ◌-◌, ◌<◌, ◌≡◌, Bool, true, false, leb, ◌==◌, if◌then◌else◌, Option, none, some,
  List, [], ◌∷◌, ◌++◌,
}
use macoro.Common.Family.{update}

pub record DelayOp : Type 0 where
  pub idx : ℕ
  pub handle : ℕ
  pub deadline : ℕ

-- How often the number of a delayed operation stands in a list.
abbrev pub count_idx : ℕ → List DelayOp → ℕ
count_idx i [] = 0
count_idx i (o ∷ ops) = (if o.idx == i then 1 else 0) + count_idx i ops

abbrev pub last : List DelayOp → Option DelayOp
last [] = none
last (o ∷ []) = some o
last (o ∷ a ∷ ops) = last (a ∷ ops)

-- `std::push_heap`, `std::pop_heap` and `std::make_heap` on the whole vector.
pub record HeapOps : Type 0 where
  pub push_heap : List DelayOp → List DelayOp
  pub pop_heap : List DelayOp → List DelayOp
  pub make_heap : List DelayOp → List DelayOp

-- They permute the vector, and pop_heap puts the first element last.
pub record IsHeapOps (o : HeapOps) : Type 0 where
  pub push_permutes : (i : ℕ) (ops : List DelayOp) → count_idx i (o.push_heap ops) ≡ count_idx i ops
  pub pop_permutes : (i : ℕ) (ops : List DelayOp) → count_idx i (o.pop_heap ops) ≡ count_idx i ops
  pub make_permutes : (i : ℕ) (ops : List DelayOp) → count_idx i (o.make_heap ops) ≡ count_idx i ops
  pub pop_last : (x : DelayOp) (ops : List DelayOp) → last (o.pop_heap (x ∷ ops)) ≡ some x

-- Where a thread of the pool stands.
pub data Thread : Type 0 where
  checking : Thread  -- before the condition of the loop
  taking : Thread  -- behind it, and behind the wait for the condition variable
  resuming : (fn : ℕ) → Thread
  ended : Thread

pub record Pool : Type 0 where
  pub work : ℕ
  pub deque : List ℕ
  pub delay_heap : List DelayOp
  pub delay_op_idx : ℕ
  pub thread : ℕ → Thread
  pub pushed : List ℕ  -- what was ever pushed to the deque
  pub popped : List ℕ  -- and popped from it
  pub expired : List DelayOp  -- what was ever popped from the heap
  pub resumed : List ℕ

unfoldable pub init : ℕ → Pool
init work = record {
  work = work;
  deque = [];
  delay_heap = [];
  delay_op_idx = 0;
  thread = λ _. Thread.checking;
  pushed = [];
  popped = [];
  expired = [];
  resumed = [];
}

unfoldable pub post : ℕ → Pool → Pool
post fn p = record p { deque = p.deque ++ (fn ∷ []); pushed = p.pushed ++ (fn ∷ []) }

-- `inside`: the calling thread runs in this pool.
unfoldable pub try_dispatch : Bool → ℕ → Pool → Bool × Pool
unfolding post
try_dispatch inside fn p = if inside then (true, p) else (false, post fn p)

-- `pop_back`
abbrev pub pop_back : List DelayOp → List DelayOp
pop_back [] = []
pop_back (o ∷ []) = []
pop_back (o ∷ a ∷ ops) = o ∷ pop_back (a ∷ ops)

abbrev pub behind : DelayOp → Option (List DelayOp) → Option (List DelayOp)
behind o none = none
behind o (some ops) = some (o ∷ ops)

-- The deadline of the first operation with the number `i` becomes `now`; none if there is no such one.
unfoldable pub expire : ℕ → ℕ → List DelayOp → Option (List DelayOp)
expire now i [] = none
expire now i (o ∷ ops) =
    let rest = expire now i ops in
    if o.idx == i then some (record o { deadline = now } ∷ ops) else behind o rest

-- The condition of the loop.
unfoldable pub has_work : ℕ → List ℕ → List DelayOp → Bool
has_work (suc w) d h = true
has_work zero (f ∷ d) h = true
has_work zero [] (o ∷ h) = true
has_work zero [] [] = false

-- Thread `j` takes a handle from the deque if there is one.
unfoldable pub pop_deque : List ℕ → ℕ → Pool → Pool
pop_deque [] j p = record p { thread = update p.thread j Thread.checking }
pop_deque (fn ∷ rest) j p = record p {
  deque = rest;
  popped = p.popped ++ (fn ∷ []);
  thread = update p.thread j (Thread.resuming fn);
}

module _ (o : HeapOps) where
  unfoldable pub post_after : Bool → ℕ → ℕ → Pool → Pool
  unfolding post
  post_after stop_requested h deadline p = if stop_requested then post h p else record p {
    delay_op_idx = suc p.delay_op_idx;
    delay_heap =
        o.push_heap
          (p.delay_heap ++ (record { idx = p.delay_op_idx; handle = h; deadline = deadline } ∷ []));
  }

  unfoldable pub reheap : Option (List DelayOp) → Pool → Pool
  reheap none p = p
  reheap (some ops) p = record p { delay_heap = o.make_heap ops }

  unfoldable pub cancel_delay_op : ℕ → ℕ → Pool → Pool
  unfolding expire reheap
  cancel_delay_op now i p = reheap (expire now i p.delay_heap) p

  -- It takes a delayed handle whose deadline has passed first.
  unfoldable pub take : ℕ → List DelayOp → ℕ → Pool → Pool
  unfolding pop_deque
  take now [] j p = pop_deque p.deque j p
  take now (a ∷ ops) j p =
      if leb a.deadline now
      then record p {
        delay_heap = pop_back (o.pop_heap (a ∷ ops));
        expired = a ∷ p.expired;
        thread = update p.thread j (Thread.resuming a.handle);
      }
      else pop_deque p.deque j p

  unfoldable pub run_at : Thread → ℕ → ℕ → Pool → Pool
  unfolding has_work take
  run_at Thread.checking now j p = record p {
    thread =
        update p.thread j
          (if has_work p.work p.deque p.delay_heap then Thread.taking else Thread.ended);
  }
  run_at Thread.taking now j p = take now p.delay_heap j p
  run_at (Thread.resuming fn) now j p = record p {
    resumed = fn ∷ p.resumed;
    thread = update p.thread j Thread.checking;
  }
  run_at Thread.ended now j p = p

-- `make_work` and `reset` of what it returned.
unfoldable pub make_work : Pool → Pool
make_work p = record p { work = suc p.work }

unfoldable pub reset_work : Pool → Pool
reset_work p = record p { work = p.work - 1 }

-- Steps of a pool with `n` threads; the clock may show any time at each.
pub data Step (o : HeapOps) (n : ℕ) (p : Pool) : Pool → Type 0 where
  posting : (fn : ℕ) → Step o n p (post fn p)
  dispatching : (inside : Bool) (fn : ℕ) → Step o n p (try_dispatch inside fn p).1
  delaying : (requested : Bool) (h t : ℕ) → Step o n p (post_after o requested h t p)
  cancelling : (now i : ℕ) → Step o n p (cancel_delay_op o now i p)
  running : (now j : ℕ) → j < n → Step o n p (run_at o (p.thread j) now j p)
  more_work : Step o n p (make_work p)
  less_work : 0 < p.work → Step o n p (reset_work p)

pub data Reach (o : HeapOps) (n work : ℕ) : Pool → Type 0 where
  here : Reach o n work (init work)
  next : {p q : Pool} → Reach o n work p → Step o n p q → Reach o n work q
