-- ===== src/Result/NoValue.antt =====
-- What calls the const overload of `value()`, which recurs without an end on a value.
use macoro.Common.{ℕ, zero, suc, ◌≡◌, refl, Bool, false, if◌then◌else◌, none, some}
use macoro.Result.Defs.{
  Result, Outcome, has_value, has_error, error, rethrow, value_const, value_or_const, equals_ok,
}

module _ {T E : Type 0} where
  pub value_const_ok : (f : ℕ) (v : T) → value_const {E = E} f (Result.ok v) ≡ none
  unfolding value_const has_error has_value
  value_const_ok zero v = refl
  value_const_ok (suc f) v = value_const_ok f v

  -- The calls that a const result offers for its value return on no result with a value, however
  -- far the recursion goes, and in one round on every result with an error.
  pub const_calls_return :
      (f : ℕ) (same : T → T → Bool) (r : Result T E) (v : T)
      → (value_const (suc f) r ≡ (if has_error r then some (rethrow (error r)) else none))
        × (value_or_const f r v ≡ (if has_error r then some (Outcome.returned v) else none))
        × (equals_ok same f r v ≡ (if has_error r then some (Outcome.returned false) else none))
  unfolding value_const value_or_const equals_ok has_error has_value error rethrow
  const_calls_return f same (Result.ok x) v =
      (value_const_ok f x, value_const_ok f x, rw (value_const_ok f x) refl)
  const_calls_return f same (Result.err e) v = (refl, refl, refl)
