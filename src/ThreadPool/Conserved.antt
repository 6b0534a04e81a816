-- ===== src/ThreadPool/Conserved.antt =====
-- No handle is lost and none is resumed twice.
use macoro.Common.{
  ℕ, ◌+◌, ◌<◌, ◌≡◌, refl, sym, ap, subst, ◌∙◌, Bool, true, false, ltb, leb, ◌==◌, if◌then◌else◌,
  Bool-cases, inl, inr, Option, none, some, List, [], ◌∷◌, ◌++◌, count, count-append, arith,
}
use mathlib.Core.List.{append_assoc}
use macoro.Common.Family.{update, tally, tally-update, tally-eq-zero}
use macoro.ThreadPool.Defs.{
  DelayOp, count_idx, last, HeapOps, IsHeapOps, Thread, Pool, init, post, try_dispatch, pop_back,
  behind, expire, reheap, has_work, post_after, cancel_delay_op, pop_deque, take, run_at, make_work,
  reset_work, Step, Reach,
}

pub count_idx-append :
    (i : ℕ) (xs ys : List DelayOp) → count_idx i (xs ++ ys) ≡ count_idx i xs + count_idx i ys
count_idx-append i [] ys = omega arith
count_idx-append i (x ∷ xs) ys = omega (arith, count_idx-append i xs ys)

-- Without its last element a list has one of that number less.
count_idx-pop_back :
    (i : ℕ) (x : DelayOp) (ops : List DelayOp)
    → last ops ≡ some x
    → count_idx i (pop_back ops) + (if x.idx == i then 1 else 0) ≡ count_idx i ops
count_idx-pop_back i x [] e = absurd (cc e)
count_idx-pop_back i x (o ∷ []) e =
    let same : o ≡ x = cc in
    subst (λ y. 0 + (if y.idx == i then 1 else 0) ≡ (if o.idx == i then 1 else 0) + 0) same
      (omega arith)
count_idx-pop_back i x (o ∷ a ∷ ops) e = omega (arith, count_idx-pop_back i x (a ∷ ops) e)

-- A new deadline keeps the numbers.
abbrev Keeps : ℕ → List DelayOp → Option (List DelayOp) → Type 0
Keeps i ops none = Unit
Keeps i ops (some r) = count_idx i r ≡ count_idx i ops

behind-Keeps :
    (i : ℕ) (o : DelayOp) (ops : List DelayOp) (r : Option (List DelayOp))
    → Keeps i ops r
    → Keeps i (o ∷ ops) (behind o r)
behind-Keeps i o ops none h = tt
behind-Keeps i o ops (some r) h = omega (arith, h)

expire-Keeps : (now j i : ℕ) (ops : List DelayOp) → Keeps i ops (expire now j ops)
unfolding expire
expire-Keeps now j i [] = tt
expire-Keeps now j i (o ∷ ops) = elim (Bool-cases (o.idx == j)) [
  | inl e ↦ rw e refl
  | inr e ↦ rw e (behind-Keeps i o ops (expire now j ops) (expire-Keeps now j i ops))
]

-- The handles that were taken from the heap.
abbrev pub handles : List DelayOp → List ℕ
handles [] = []
handles (o ∷ ops) = o.handle ∷ handles ops

-- Whether a thread is about to resume a handle.
abbrev pub about_to_resume : ℕ → Thread → ℕ
about_to_resume fn (Thread.resuming h) = if h == fn then 1 else 0
about_to_resume fn _ = 0

module _ (o : HeapOps) (n : ℕ) where
  pub record Inv (p : Pool) : Type 0 where
    pub in_order : p.popped ++ p.deque ≡ p.pushed
    pub delayed :
        (i : ℕ)
        → count_idx i p.delay_heap + count_idx i p.expired ≡ (if ltb i p.delay_op_idx then 1 else 0)
    pub once :
        (fn : ℕ)
        → count fn p.resumed + tally (about_to_resume fn) p.thread n
          ≡ count fn p.popped + count fn (handles p.expired)

  init-Inv : (w : ℕ) → Inv (init w)
  unfolding init
  init-Inv w = record {
    in_order = refl;
    delayed = λ i. ground arith;
    once = λ fn.
        omega (arith, tally-eq-zero (about_to_resume fn) (λ _. Thread.checking) (λ j. refl) n);
  }

  post-Inv : (fn : ℕ) (p : Pool) → Inv p → Inv (post fn p)
  unfolding post
  post-Inv fn p v = record {
    in_order = sym (append_assoc p.popped p.deque (fn ∷ [])) ∙ ap (◌++ (fn ∷ [])) v.in_order;
    delayed = v.delayed;
    once = v.once;
  }

  post_after-Inv :
      IsHeapOps o
      → (requested : Bool) (h t : ℕ) (p : Pool) → Inv p
      → Inv (post_after o requested h t p)
  unfolding post_after
  post_after-Inv l true h t p v = post-Inv h p v
  post_after-Inv l false h t p v = record {
    in_order = v.in_order;
    delayed = λ i.
        let op : DelayOp = record { idx = p.delay_op_idx; handle = h; deadline = t } in
        let pushed = l.push_permutes i (p.delay_heap ++ (op ∷ [])) in
        let appended = count_idx-append i p.delay_heap (op ∷ []) in
        ground (arith, v.delayed i, pushed, appended);
    once = v.once;
  }

  reheap-Inv :
      IsHeapOps o
      → (r : Option (List DelayOp)) (p : Pool) → ((i : ℕ) → Keeps i p.delay_heap r)
      → Inv p
      → Inv (reheap o r p)
  unfolding reheap
  reheap-Inv l none p k v = v
  reheap-Inv l (some ops) p k v = record {
    in_order = v.in_order;
    delayed = λ i. omega (arith, v.delayed i, k i, l.make_permutes i ops);
    once = v.once;
  }

  -- A thread that neither was nor is about to resume a handle.
  moved_on :
      (p : Pool) (j : ℕ) (x : Thread)
      → j < n
      → ((fn : ℕ) → about_to_resume fn (p.thread j) ≡ 0)
      → ((fn : ℕ) → about_to_resume fn x ≡ 0)
      → (fn : ℕ)
      → tally (about_to_resume fn) (update p.thread j x) n ≡ tally (about_to_resume fn) p.thread n
  moved_on p j x lt a b fn =
      omega (arith, a fn, b fn, tally-update (about_to_resume fn) p.thread j x n lt)

  -- A thread that takes a handle.
  took :
      (p : Pool) (j h : ℕ)
      → j < n
      → p.thread j ≡ Thread.taking
      → (fn : ℕ)
      → tally (about_to_resume fn) (update p.thread j (Thread.resuming h)) n
        ≡ count fn (h ∷ []) + tally (about_to_resume fn) p.thread n
  took p j h lt e fn = omega (
    arith,
    ap (about_to_resume fn) e,
    tally-update (about_to_resume fn) p.thread j (Thread.resuming h) n lt,
  )

  pop_deque-Inv :
      (d : List ℕ) (j : ℕ) (p : Pool)
      → p.deque ≡ d
      → j < n
      → p.thread j ≡ Thread.taking
      → Inv p
      → Inv (pop_deque d j p)
  unfolding pop_deque
  pop_deque-Inv [] j p e lt t v = record {
    in_order = v.in_order;
    delayed = v.delayed;
    once = λ fn.
        let same = moved_on p j Thread.checking lt (λ f. ap (about_to_resume f) t) (λ f. refl) fn in
        omega (arith, v.once fn, same);
  }
  pop_deque-Inv (h ∷ rest) j p e lt t v = record {
    in_order = append_assoc p.popped (h ∷ []) rest ∙ ap (p.popped ++◌) (sym e) ∙ v.in_order;
    delayed = v.delayed;
    once = λ fn. omega (arith, v.once fn, took p j h lt t fn, count-append fn p.popped (h ∷ []));
  }

  take-Inv :
      IsHeapOps o
      → (now : ℕ) (ops : List DelayOp) (j : ℕ) (p : Pool) → p.delay_heap ≡ ops
      → j < n
      → p.thread j ≡ Thread.taking
      → Inv p
      → Inv (take o now ops j p)
  unfolding take
  take-Inv l now [] j p e lt t v = pop_deque-Inv p.deque j p refl lt t v
  take-Inv l now (a ∷ ops) j p e lt t v = elim (Bool-cases (leb a.deadline now)) [
    | inl due ↦ rw due record {
      in_order = v.in_order;
      delayed = λ i.
          let gone = count_idx-pop_back i a (o.pop_heap (a ∷ ops)) (l.pop_last a ops) in
          omega (arith, v.delayed i, gone, l.pop_permutes i (a ∷ ops), ap (count_idx i) e);
      once = λ fn. omega (arith, v.once fn, took p j a.handle lt t fn);
    }
    | inr early ↦ rw early (pop_deque-Inv p.deque j p refl lt t v)
  ]

  run_at-Inv :
      IsHeapOps o
      → (x : Thread) (now j : ℕ) (p : Pool) → p.thread j ≡ x
      → j < n
      → Inv p
      → Inv (run_at o x now j p)
  unfolding run_at
  run_at-Inv l Thread.checking now j p t lt v = record {
    in_order = v.in_order;
    delayed = v.delayed;
    once = λ fn.
        let same =
          moved_on p j
            (if has_work p.work p.deque p.delay_heap then Thread.taking else Thread.ended) lt
            (λ f. ap (about_to_resume f) t) (λ f. ground arith) fn in
        omega (arith, v.once fn, same);
  }
  run_at-Inv l Thread.taking now j p t lt v = take-Inv l now p.delay_heap j p refl lt t v
  run_at-Inv l (Thread.resuming h) now j p t lt v = record {
    in_order = v.in_order;
    delayed = v.delayed;
    once = λ fn. omega (
      arith,
      v.once fn,
      ap (about_to_resume fn) t,
      tally-update (about_to_resume fn) p.thread j Thread.checking n lt,
    );
  }
  run_at-Inv l Thread.ended now j p t lt v = v

  Reach-Inv : {w : ℕ} → IsHeapOps o → {p : Pool} → Reach o n w p → Inv p
  unfolding try_dispatch cancel_delay_op make_work reset_work
  Reach-Inv {w = w} l Reach.here = init-Inv w
  Reach-Inv l (Reach.next {p = p} r (Step.posting fn)) = post-Inv fn p (Reach-Inv l r)
  Reach-Inv l (Reach.next {p = p} r (Step.dispatching true fn)) = Reach-Inv l r
  Reach-Inv l (Reach.next {p = p} r (Step.dispatching false fn)) = post-Inv fn p (Reach-Inv l r)
  Reach-Inv l (Reach.next {p = p} r (Step.delaying requested h t)) =
      post_after-Inv l requested h t p (Reach-Inv l r)
  Reach-Inv l (Reach.next {p = p} r (Step.cancelling now i)) =
      reheap-Inv l (expire now i p.delay_heap) p (λ k. expire-Keeps now i k p.delay_heap)
        (Reach-Inv l r)
  Reach-Inv l (Reach.next {p = p} r (Step.running now j lt)) =
      run_at-Inv l (p.thread j) now j p refl lt (Reach-Inv l r)
  Reach-Inv l (Reach.next {p = p} r Step.more_work) =
      let v = Reach-Inv l r in record { in_order = v.in_order; delayed = v.delayed; once = v.once }
  Reach-Inv l (Reach.next {p = p} r (Step.less_work q)) =
      let v = Reach-Inv l r in record { in_order = v.in_order; delayed = v.delayed; once = v.once }

  -- If the heap operations permute the vector and pop_heap puts the first element last, then in every
  -- state of a pool with `n` threads: the handles popped from the queue, followed by those in it, are
  -- the handles pushed to it, in that order; every delayed operation that was made is exactly once in
  -- the heap or among those popped from it; and a handle was resumed as often as it was popped, but
  -- for the threads that are about to resume it.
  pub work_conserved :
      {w : ℕ} {p : Pool}
      → IsHeapOps o
      → Reach o n w p
      → (p.popped ++ p.deque ≡ p.pushed)
        × ((i : ℕ) → i < p.delay_op_idx → count_idx i p.delay_heap + count_idx i p.expired ≡ 1)
        × ((fn : ℕ)
            → count fn p.resumed + tally (about_to_resume fn) p.thread n
              ≡ count fn p.popped + count fn (handles p.expired))
  work_conserved l r =
      let v = Reach-Inv l r in (v.in_order, λ i lt. ground (arith, v.delayed i, lt), v.once)
