-- ===== src/Sequence/Barrier/Defs.antt =====
-- macoro/sequence_barrier.h: the state, and the steps of `publish` and of `await_suspend` with
-- `add_awaiter`.
use macoro.Common.{ℕ, ◌-◌, ◌<◌, ◌≡◌, true, false, if◌then◌else◌, List, [], ◌∷◌, ◌++◌}
use macoro.Common.Word.{half_mod, add_word}
use macoro.Common.Family.{update}
use macoro.Common.Int.{ℤ, pos, to_unsigned, is_positive, lt_int}
use macoro.Sequence.Traits.{difference, precedes, InSpan}
use macoro.Sequence.Wait.{Waits, fresh, set_known, continue_op, await_ready, resume, finish_suspend}

pub record SequenceBarrier : Type 0 where
  pub last_published : ℕ
  pub awaiters : List ℕ

-- Where the producer stands in `publish(sequence)`.
pub data Producer : Type 0 where
  idle : Producer
  stored : (seq : ℕ) → Producer  -- before the load of m_awaiters
  acquiring : (seq : ℕ) → Producer  -- before the exchange of m_awaiters
  requeueing : (seq : ℕ) (to_requeue to_resume : List ℕ) → Producer  -- before the compare-exchange
  resuming : (seq : ℕ) (to_resume : List ℕ) → Producer  -- at the last loop

-- Where a wait operation stands.
pub data Pc : Type 0 where
  start : Pc  -- before its construction
  enqueue : (target : ℕ) (to_requeue to_resume : List ℕ) → Pc  -- before the compare-exchange
  enqueued : (target : ℕ) (to_resume : List ℕ) → Pc  -- before the load of m_lastPublished
  acquiring : (known : ℕ) (to_resume : List ℕ) → Pc  -- before the exchange of m_awaiters
  resuming : (known : ℕ) (to_resume : List ℕ) → Pc  -- at the last loop of add_awaiter
  suspending : Pc  -- before the exchange of m_readyToResume
  returned : Pc  -- behind await_suspend, or behind await_ready if that was true

pub record System : Type 0 where
  pub barrier : SequenceBarrier
  pub open barrier use *
  pub waits : Waits
  pub producer : Producer
  pub pc : ℕ → Pc

pub record Split : Type 0 where
  pub to_requeue : List ℕ
  pub to_resume : List ℕ
  pub min_diff : ℤ

unfoldable pub init : ℕ → System
unfolding fresh
init initial_sequence = record {
  barrier = record { last_published = initial_sequence; awaiters = [] };
  waits = fresh;
  producer = idle;
  pc = λ _. start;
}

abbrev pub at : System → ℕ → Pc → System
at s i p = record s { pc = update s.pc i p }

abbrev pub set_awaiters : System → List ℕ → System
set_awaiters s js = record s {
  barrier = record { last_published = s.last_published; awaiters = js };
}

-- `numeric_limits<difference_type>::max()`
abbrev pub max_diff : ℤ
max_diff = pos (half_mod - 1)

-- Behind the loop of `publish`: the compare-exchange is tried only for a list that is not empty.
unfoldable pub publish_requeue : ℕ → List ℕ → List ℕ → Producer
publish_requeue seq [] r = resuming seq r
publish_requeue seq (a ∷ q) r = requeueing seq (a ∷ q) r

unfoldable pub after_split : ℕ → Split → Producer
unfolding publish_requeue
after_split seq p = publish_requeue seq p.to_requeue p.to_resume

unfoldable pub publish_seen : System → ℕ → List ℕ → System
publish_seen s seq [] = record s { producer = idle }
publish_seen s seq (a ∷ rest) = record s { producer = acquiring seq }

-- The body of the loop that resumes.
unfoldable pub resume_with : Waits → ℕ → ℕ → Waits
unfolding set_known resume
resume_with w seq a = resume (set_known w a seq) a

-- The store that `publish(seq)` begins with.
unfoldable pub publish_store : System → ℕ → System
publish_store s seq = record s {
  barrier = record { last_published = seq; awaiters = s.awaiters };
  producer = stored seq;
}

-- Behind the loop of `add_awaiter`: `while (awaitersToRequeue != nullptr)`.
unfoldable pub add_requeue : ℕ → List ℕ → List ℕ → ℤ → Pc
add_requeue known [] r m = resuming known r
add_requeue known (a ∷ q) r m = enqueue (add_word known (to_unsigned m)) (a ∷ q) r

unfoldable pub add_acquired : ℕ → Split → Pc
unfolding add_requeue
add_acquired known p = add_requeue known p.to_requeue p.to_resume p.min_diff

-- `m_targetSequence` of each operation; it never changes.
module _ (target : ℕ → ℕ) where
  -- The loop over the acquired list in `publish`.
  unfoldable pub split_published : ℕ → List ℕ → List ℕ → List ℕ → Split
  split_published seq [] q r = record { to_requeue = q; to_resume = r; min_diff = max_diff }
  split_published seq (a ∷ rest) q r = elim (precedes seq (target a)) [
    | true ↦ split_published seq rest (q ++ a ∷ []) r
    | false ↦ split_published seq rest q (r ++ a ∷ [])
  ]

  -- The loop over the acquired list in `add_awaiter`.
  unfoldable pub split_known : ℕ → List ℕ → List ℕ → List ℕ → ℤ → Split
  split_known known [] q r m = record { to_requeue = q; to_resume = r; min_diff = m }
  split_known known (a ∷ rest) q r m = elim (is_positive (difference (target a) known)) [
    | true ↦
        split_known known rest (q ++ a ∷ []) r
          (if lt_int (difference (target a) known) m then difference (target a) known else m)
    | false ↦ split_known known rest q (r ++ a ∷ []) m
  ]

  unfoldable pub publish_acquired : System → ℕ → List ℕ → System
  unfolding after_split split_published
  publish_acquired s seq [] = record s { producer = idle }
  publish_acquired s seq (a ∷ rest) = record (set_awaiters s []) {
    producer = after_split seq (split_published seq (a ∷ rest) [] []);
  }

  -- One step of the producer inside `publish`.
  unfoldable pub publish_at : Producer → System → System
  unfolding publish_seen publish_acquired resume_with
  publish_at idle s = s
  publish_at (stored seq) s = publish_seen s seq s.awaiters
  publish_at (acquiring seq) s = publish_acquired s seq s.awaiters
  publish_at (requeueing seq q r) s = record (set_awaiters s (q ++ s.awaiters)) {
    producer = resuming seq r;
  }
  publish_at (resuming seq []) s = record s { producer = idle }
  publish_at (resuming seq (a ∷ r)) s = record s {
    producer = resuming seq r;
    waits = resume_with s.waits seq a;
  }

  -- One step of operation `i`: its construction with `await_ready`, then `await_suspend`.
  unfoldable pub await_at : Pc → ℕ → System → System
  unfolding await_ready add_acquired split_known resume_with finish_suspend continue_op set_known
  await_at start i s =
      let known = record s { waits = set_known s.waits i s.last_published } in
      if await_ready s.last_published (target i)
      then at (record known { waits = continue_op known.waits i }) i returned
      else at known i (enqueue (target i) (i ∷ []) [])
  await_at (enqueue t q r) i s = at (set_awaiters s (q ++ s.awaiters)) i (enqueued t r)
  await_at (enqueued t r) i s = at s i (
      if precedes s.last_published t
      then resuming s.last_published r
      else acquiring s.last_published r)
  await_at (acquiring known r) i s =
      at (set_awaiters s []) i (add_acquired known (split_known known s.awaiters [] r max_diff))
  await_at (resuming known []) i s = at s i suspending
  await_at (resuming known (a ∷ r)) i s =
      at (record s { waits = resume_with s.waits known a }) i (resuming known r)
  await_at suspending i s = at (record s { waits = finish_suspend s.waits i }) i returned
  await_at returned i s = s

  -- Any thread may take the next step. `publish` is called by one producer, with numbers that do
  -- not precede the last one and lie in one span with it.
  pub data Step (base n : ℕ) (s : System) : System → Type 0 where
    publish :
        (seq : ℕ)
        → s.producer ≡ idle
        → InSpan base seq
        → precedes seq s.last_published ≡ false
        → Step base n s (publish_store s seq)
    producer : Step base n s (publish_at s.producer s)
    await : (i : ℕ) → i < n → Step base n s (await_at (s.pc i) i s)

  pub data Reach (base n initial : ℕ) : System → Type 0 where
    here : Reach base n initial (init initial)
    next : {s t : System} → Reach base n initial s → Step base n s t → Reach base n initial t
