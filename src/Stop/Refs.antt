-- ===== src/Stop/Refs.antt =====
-- The word `m_state` against what it stands for: two flags and two counts.
use macoro.Common.{
  ℕ, suc, ◌+◌, ◌-◌, ◌*◌, ◌^◌, ◌<◌, ◌≡◌, Bool, true, false, not, ◌||◌, ◌==◌, ltb, arith,
}
use macoro.Stop.State.{
  add_token_ref, release_token_ref, add_source_ref, release_source_ref, stop_possible,
  stop_requested, is_cancellation_notification_complete, set_requested, set_complete,
}

pub record Refs : Type 0 where
  pub requested : Bool
  pub complete : Bool
  pub sources : ℕ
  pub tokens : ℕ

abbrev pub max_refs : ℕ
max_refs = 2 ^ 31

pub record Fits (a : Refs) : Type 0 where
  pub sources_fit : a.sources < max_refs
  pub tokens_fit : a.tokens < max_refs

abbrev bit : Bool → ℕ
bit true = 1
bit false = 0

unfoldable pub encode : Refs → ℕ
encode a = bit a.requested + 2 * bit a.complete + 4 * a.sources + 2 ^ 33 * a.tokens

-- The calls that change the counts.
pub data RefOp : Type 0 where
  add_token release_token add_source release_source : RefOp

-- A call on the word: the new word, and whether the state was deleted.
unfoldable pub exec : RefOp → ℕ → ℕ × Bool
unfolding add_token_ref release_token_ref add_source_ref release_source_ref
exec add_token w = (add_token_ref w, false)
exec release_token w = release_token_ref w
exec add_source w = (add_source_ref w, false)
exec release_source w = release_source_ref w

-- What the call means: a release deletes the state when it takes the last reference of either kind.
unfoldable pub counted : RefOp → Refs → Refs
counted add_token a = record a { tokens = suc a.tokens }
counted release_token a = record a { tokens = a.tokens - 1 }
counted add_source a = record a { sources = suc a.sources }
counted release_source a = record a { sources = a.sources - 1 }

abbrev pub IsEnabled : RefOp → Refs → Type 0
IsEnabled add_token a = suc a.tokens < max_refs
IsEnabled release_token a = 0 < a.tokens
IsEnabled add_source a = suc a.sources < max_refs
IsEnabled release_source a = 0 < a.sources

unfoldable pub last_gone : RefOp → Refs → Bool
unfolding counted
last_gone add_token a = false
last_gone add_source a = false
last_gone op a = (counted op a).sources + (counted op a).tokens == 0

-- A call on the word does to the flags and counts what it means, and deletes the state exactly when
-- no source and no token is left; no count spills into its neighbour.
pub exec-encode :
    (op : RefOp) (a : Refs)
    → Fits a
    → IsEnabled op a
    → ((exec op (encode a)).0 ≡ encode (counted op a)) × ((exec op (encode a)).1 ≡ last_gone op a)
unfolding exec encode counted last_gone
exec-encode add_token a f h = ground arith
exec-encode release_token a f h = ground arith
exec-encode add_source a f h = ground arith
exec-encode release_source a f h = ground arith

-- The queries read the flags and the count of sources: a stop is possible while a source is left or
-- once it was requested.
pub queries-encode :
    (a : Refs)
    → Fits a
    → (stop_requested (encode a) ≡ a.requested)
      × (is_cancellation_notification_complete (encode a) ≡ a.complete)
      × (stop_possible (encode a) ≡ (a.requested || (a.complete || ltb 0 a.sources)))
unfolding encode stop_requested is_cancellation_notification_complete stop_possible
queries-encode a f = ground arith

-- The first request alone is told that it is the first; the flags are set once each, and the counts
-- stay.
pub set_requested-encode :
    (a : Refs)
    → Fits a
    → ((set_requested (encode a)).0 ≡ encode (record a { requested = true }))
      × ((set_requested (encode a)).1 ≡ not a.requested)
unfolding encode set_requested
set_requested-encode a f = ground arith

pub set_complete-encode :
    (a : Refs)
    → Fits a
    → a.complete ≡ false
    → set_complete (encode a) ≡ encode (record a { complete = true })
unfolding encode set_complete
set_complete-encode a f e = ground arith
