-- ===== src/Sequence/Wait.antt =====
-- The wait operations of macoro/sequence_barrier.h and macoro/sequence_mpsc.h. An operation is named
-- by a number, as an address names it in the program, and its fields are kept in a store.
use macoro.Common.{ℕ, suc, Bool, true, false, not, if◌then◌else◌}
use macoro.Common.Family.{update}
use macoro.Sequence.Traits.{precedes}

-- The fields that change. `continued` counts how often the awaiting coroutine went on behind its
-- `co_await`, either since it did not suspend or since `resume()` was called on its handle.
pub record Waits : Type 0 where
  pub last_known_published : ℕ → ℕ
  pub ready_to_resume : ℕ → Bool
  pub continued : ℕ → ℕ

unfoldable pub fresh : Waits
fresh = record { last_known_published = λ _. 0; ready_to_resume = λ _. false; continued = λ _. 0 }

unfoldable pub set_known : Waits → ℕ → ℕ → Waits
set_known w i seq = record w { last_known_published = update w.last_known_published i seq }

unfoldable pub continue_op : Waits → ℕ → Waits
continue_op w i = record w { continued = update w.continued i (suc (w.continued i)) }

unfoldable pub set_ready : Waits → ℕ → Waits
set_ready w i = record w { ready_to_resume = update w.ready_to_resume i true }

-- `await_ready` on the last known sequence number and the target.
unfoldable pub await_ready : ℕ → ℕ → Bool
await_ready known target = not (precedes known target)

-- `resume()`: the exchange of `m_readyToResume`, and the coroutine's resumption if it was set.
unfoldable pub resume : Waits → ℕ → Waits
unfolding continue_op set_ready
resume w i = if w.ready_to_resume i then continue_op (set_ready w i) i else set_ready w i

-- The last statement of `await_suspend`: `return !m_readyToResume.exchange(true)`. A result of
-- false lets the coroutine go on at once.
unfoldable pub finish_suspend : Waits → ℕ → Waits
unfolding continue_op set_ready
finish_suspend w i = if w.ready_to_resume i then continue_op (set_ready w i) i else set_ready w i
