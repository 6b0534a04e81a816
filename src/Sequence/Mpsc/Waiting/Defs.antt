-- ===== src/Sequence/Mpsc/Waiting/Defs.antt =====
-- The steps of `await_suspend` with `add_awaiter`, and of `publish` with `resume_ready_awaiters`. A step
-- is one access to shared memory. The list of awaiters holds the one operation or is empty.
use macoro.Common.{ℕ, suc, ◌<◌, ◌≡◌, Bool, true, false, ltb, ◌==◌, if◌then◌else◌}
use macoro.Common.Family.{update}

-- Where a producer stands. A number stands for the first number that the thread does not know to be
-- published.
pub data Publisher : Type 0 where
  idle : Publisher
  loading : Publisher  -- the number is stored, before the load of m_awaiters
  acquiring : Publisher  -- before the first exchange
  scanning : (e : ℕ) → Publisher  -- in `last_published_after`, with the operation in hand
  requeuing : (e : ℕ) → Publisher  -- before the compare-exchange
  rescanning : (e : ℕ) → Publisher  -- in the second scan
  reacquiring : Publisher  -- before the exchange behind it
  resuming : (e : ℕ) → Publisher  -- before the store of m_lastKnownPublished in `resume`
  flagging : Publisher  -- before the exchange of m_readyToResume in `resume`

-- Where the consumer's operation stands.
pub data Consumer : Type 0 where
  fresh : Consumer  -- before `await_ready`
  enqueuing : Consumer  -- before the compare-exchange
  scanning : (e : ℕ) → Consumer
  reacquiring : (e : ℕ) → Consumer  -- before the exchange
  resuming : (e : ℕ) → Consumer
  flagging : Consumer
  finishing : Consumer  -- before the exchange at the end of `await_suspend`
  suspended : Consumer
  gone : Consumer  -- it goes on without suspending

pub record System : Type 0 where
  pub published : ℕ → Bool
  pub queued : Bool  -- whether m_awaiters holds the operation
  pub known : ℕ  -- the number behind m_lastKnownPublished
  pub ready : Bool  -- m_readyToResume
  pub consumer : Consumer
  pub publisher : ℕ → Publisher
  pub continued : ℕ  -- how often the consumer went on

-- The numbers below `known` are published.
unfoldable pub init : ℕ → System
init known = record {
  published = λ i. ltb i known;
  queued = false;
  known = known;
  ready = false;
  consumer = Consumer.fresh;
  publisher = λ _. Publisher.idle;
  continued = 0;
}

abbrev pub move : System → ℕ → Publisher → System
move s j p = record s { publisher = update s.publisher j p }

-- The store of `publish`.
unfoldable pub publish_store : ℕ → ℕ → System → System
publish_store i j s = move (record s { published = update s.published i true }) j Publisher.loading

module _ (target : ℕ) where
  -- A step of `resume_ready_awaiters` by producer `j`.
  unfoldable pub publish_at : Publisher → ℕ → System → System
  publish_at Publisher.idle j s = s
  publish_at Publisher.loading j s =
      move s j (if s.queued then Publisher.acquiring else Publisher.idle)
  publish_at Publisher.acquiring j s =
      move (record s { queued = false }) j
        (if s.queued then Publisher.scanning s.known else Publisher.idle)
  publish_at (Publisher.scanning e) j s =
      if s.published e
      then move s j (Publisher.scanning (suc e))
      else move (record s { known = e }) j
          (if ltb target e then Publisher.resuming e else Publisher.requeuing e)
  publish_at (Publisher.requeuing e) j s =
      move (record s { queued = true }) j (Publisher.rescanning e)
  publish_at (Publisher.rescanning e) j s = move s j (
      if s.published e
      then (if e == target then Publisher.reacquiring else Publisher.rescanning (suc e))
      else Publisher.idle)
  publish_at Publisher.reacquiring j s =
      move (record s { queued = false }) j
        (if s.queued then Publisher.scanning s.known else Publisher.idle)
  publish_at (Publisher.resuming e) j s = move (record s { known = e }) j Publisher.flagging
  publish_at Publisher.flagging j s =
      move (record s { ready = true; continued = if s.ready then suc s.continued else s.continued })
        j Publisher.idle

  -- A step of the consumer: `await_ready`, `await_suspend` and `add_awaiter`.
  unfoldable pub await_at : Consumer → System → System
  await_at Consumer.fresh s =
      if ltb target s.known
      then record s { consumer = Consumer.gone; continued = suc s.continued }
      else record s { consumer = Consumer.enqueuing }
  await_at Consumer.enqueuing s = record s { queued = true; consumer = Consumer.scanning s.known }
  await_at (Consumer.scanning e) s = record s {
    consumer =
        if s.published e
        then Consumer.scanning (suc e)
        else (if ltb target e then Consumer.reacquiring e else Consumer.finishing);
  }
  await_at (Consumer.reacquiring e) s = record s {
    queued = false;
    consumer = if s.queued then Consumer.resuming e else Consumer.finishing;
  }
  await_at (Consumer.resuming e) s = record s { known = e; consumer = Consumer.flagging }
  await_at Consumer.flagging s = record s {
    ready = true;
    continued = if s.ready then suc s.continued else s.continued;
    consumer = Consumer.finishing;
  }
  await_at Consumer.finishing s =
      if s.ready
      then record s { consumer = Consumer.gone; continued = suc s.continued }
      else record s { ready = true; consumer = Consumer.suspended }
  await_at Consumer.suspended s = s
  await_at Consumer.gone s = s

-- Steps with `n` producers, the consumer waits for `target`.
pub data Step (target n : ℕ) (s : System) : System → Type 0 where
  store : (i j : ℕ) → j < n → s.publisher j ≡ Publisher.idle → Step target n s (publish_store i j s)
  publish : (j : ℕ) → j < n → Step target n s (publish_at target (s.publisher j) j s)
  await : Step target n s (await_at target s.consumer s)

pub data Reach (target n known : ℕ) : System → Type 0 where
  here : Reach target n known (init known)
  next : {s t : System} → Reach target n known s → Step target n s t → Reach target n known t
