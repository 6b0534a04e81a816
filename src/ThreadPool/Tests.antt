-- ===== src/ThreadPool/Tests.antt =====
-- A pool of one thread whose heap is a list in the order of the deadlines.
use macoro.Common.{
  ℕ, suc, ◌+◌, ◌≤◌, ◌≡◌, false, leb, if◌then◌else◌, Bool-cases, inl, inr, some, List, [], ◌∷◌, ◌++◌,
  refl, count, arith,
}
use macoro.Common.Family.{tally}
use macoro.ThreadPool.Defs.{
  DelayOp, count_idx, last, HeapOps, IsHeapOps, Pool, init, post, post_after, expire, reheap,
  cancel_delay_op, has_work, pop_deque, take, run_at, Step, Reach,
}
use macoro.ThreadPool.Conserved.{about_to_resume, handles, count_idx-append, work_conserved}

abbrev insert : DelayOp → List DelayOp → List DelayOp
insert o [] = o ∷ []
insert o (a ∷ ops) = if leb o.deadline a.deadline then o ∷ a ∷ ops else a ∷ insert o ops

abbrev sort : List DelayOp → List DelayOp
sort [] = []
sort (o ∷ ops) = insert o (sort ops)

abbrev rotate : List DelayOp → List DelayOp
rotate [] = []
rotate (o ∷ ops) = ops ++ (o ∷ [])

abbrev sorted_list : HeapOps
sorted_list = record { push_heap = sort; pop_heap = rotate; make_heap = sort }

count_idx-insert :
    (i : ℕ) (o : DelayOp) (ops : List DelayOp) → count_idx i (insert o ops) ≡ count_idx i (o ∷ ops)
count_idx-insert i o [] = refl
count_idx-insert i o (a ∷ ops) = elim (Bool-cases (leb o.deadline a.deadline)) [
  | inl e ↦ rw e refl
  | inr e ↦ rw e (omega (arith, count_idx-insert i o ops))
]

count_idx-sort : (i : ℕ) (ops : List DelayOp) → count_idx i (sort ops) ≡ count_idx i ops
count_idx-sort i [] = refl
count_idx-sort i (o ∷ ops) = omega (arith, count_idx-insert i o (sort ops), count_idx-sort i ops)

count_idx-rotate : (i : ℕ) (ops : List DelayOp) → count_idx i (rotate ops) ≡ count_idx i ops
count_idx-rotate i [] = refl
count_idx-rotate i (o ∷ ops) = omega (arith, count_idx-append i ops (o ∷ []))

last-append : (x : DelayOp) (ops : List DelayOp) → last (ops ++ (x ∷ [])) ≡ some x
last-append x [] = refl
last-append x (o ∷ []) = refl
last-append x (o ∷ a ∷ ops) = last-append x (a ∷ ops)

sorted_list-IsHeapOps : IsHeapOps sorted_list
sorted_list-IsHeapOps = record {
  push_permutes = count_idx-sort;
  pop_permutes = count_idx-rotate;
  make_permutes = count_idx-sort;
  pop_last = last-append;
}

abbrev Run : Type 0
Run = (p : Pool) × Reach sorted_list 1 1 p

module _ (q : Run) where
  run : ℕ → Run
  run now = (_, Reach.next q.1 (Step.running now 0 (omega arith)))

  delay : ℕ → ℕ → Run
  delay h t = (_, Reach.next q.1 (Step.delaying false h t))

  posted : ℕ → Run
  posted h = (_, Reach.next q.1 (Step.posting h))

  cancel : ℕ → ℕ → Run
  cancel now i = (_, Reach.next q.1 (Step.cancelling now i))

-- The delayed handle 5 is resumed at once: its deadline has passed when the mutex is free.
resumed_at_once : Run
unfolding run delay init post_after
resumed_at_once = run (run (run (delay (_, Reach.here) 5 0) 1) 1) 1

resumed_at_once_result : resumed_at_once.0.resumed ≡ 5 ∷ []
unfolding resumed_at_once run_at has_work take
resumed_at_once_result = refl

-- Handle 7 is due at time 20, handle 8 is posted, and 7 is cancelled at time 10.
cancelled : Run
unfolding run delay posted cancel init post post_after expire reheap cancel_delay_op run_at has_work
    take pop_deque
cancelled =
    run
      (run (run (cancel (run (run (run (posted (delay (_, Reach.here) 7 20) 8) 3) 3) 3) 10 0) 10)
        10)
      10

cancelled_result : (cancelled.0.resumed ≡ 7 ∷ 8 ∷ []) × (cancelled.0.delay_heap ≡ [])
unfolding cancelled
cancelled_result = (refl, refl)

work_conserved_example :
    (cancelled.0.popped ++ cancelled.0.deque ≡ cancelled.0.pushed)
    × ((i : ℕ)
        → suc i ≤ cancelled.0.delay_op_idx
        → count_idx i cancelled.0.delay_heap + count_idx i cancelled.0.expired ≡ 1)
    × ((fn : ℕ)
        → count fn cancelled.0.resumed + tally (about_to_resume fn) cancelled.0.thread 1
          ≡ count fn cancelled.0.popped + count fn (handles cancelled.0.expired))
work_conserved_example = work_conserved sorted_list 1 sorted_list-IsHeapOps cancelled.1
