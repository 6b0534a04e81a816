-- ===== src/Result/Defs.antt =====
-- `result<T, Error>` with its tags left out: `Ok(v)` and `Err(e)` carry a value over, by copy or by
-- move. `Outcome` is how a call ends. A call that recurs has fuel, and is none when it runs out.
use macoro.Common.{ℕ, zero, suc, Bool, true, false, not, if◌then◌else◌, Option, none, some}

-- The index of `mVar` and what is stored there.
pub data Result (T E : Type 0) : Type 0 where
  ok : T → Result T E
  err : E → Result T E

-- What is thrown: the stored error, by `result_rethrow`, or `std::runtime_error`.
pub data Thrown (E : Type 0) : Type 0 where
  stored : E → Thrown E
  wrong_state : Thrown E

pub data Outcome (E A : Type 0) : Type 0 where
  returned : A → Outcome E A
  threw : Thrown E → Outcome E A

-- `result_rethrow(error())`: the stored error is thrown, unless `error()` throws.
unfoldable pub rethrow : {E A : Type 0} → Outcome E E → Outcome E A
rethrow (Outcome.returned e) = Outcome.threw (Thrown.stored e)
rethrow (Outcome.threw x) = Outcome.threw x

abbrev pub mapped : {E A B : Type 0} → (A → B) → Outcome E A → Outcome E B
mapped f (Outcome.returned a) = Outcome.returned (f a)
mapped f (Outcome.threw x) = Outcome.threw x

-- `resultDefaultConstruct`: the value of a default constructible type, or else the error.
unfoldable pub default_construct : {T E : Type 0} → Option T → E → Result T E
default_construct none e = Result.err e
default_construct (some v) e = Result.ok v

module _ {T E : Type 0} where
  unfoldable pub has_value : Result T E → Bool
  has_value (Result.ok v) = true
  has_value (Result.err e) = false

  unfoldable pub has_error : Result T E → Bool
  unfolding has_value
  has_error r = not (has_value r)

  unfoldable pub error : Result T E → Outcome E E
  error (Result.ok v) = Outcome.threw Thrown.wrong_state
  error (Result.err e) = Outcome.returned e

  -- `value()` of a result that is not const.
  unfoldable pub value : Result T E → Outcome E T
  unfolding rethrow error
  value (Result.ok v) = Outcome.returned v
  value (Result.err e) = rethrow (error (Result.err e))

  -- `value() const`: its last statement calls `value()`, which on a const object is itself.
  unfoldable pub value_const : ℕ → Result T E → Option (Outcome E T)
  unfolding has_error rethrow error
  value_const zero r = none
  value_const (suc f) r =
      let rest = value_const f r in if has_error r then some (rethrow (error r)) else rest

  unfoldable pub value_or : Result T E → T → Outcome E T
  unfolding has_error value
  value_or r alt = if has_error r then Outcome.returned alt else value r

  unfoldable pub value_or_const : ℕ → Result T E → T → Option (Outcome E T)
  unfolding has_error value_const
  value_or_const f r alt = if has_error r then some (Outcome.returned alt) else value_const f r

  unfoldable pub error_or : Result T E → E → Outcome E E
  unfolding has_error error
  error_or r alt = if has_error r then error r else Outcome.returned alt

  unfoldable pub assign_ok : Result T E → T → Result T E
  assign_ok r v = Result.ok v

  unfoldable pub assign_err : Result T E → E → Result T E
  assign_err r e = Result.err e

-- `operator==`, all of whose overloads are const, with the comparison of the stored types.
module _ {T E : Type 0} where
  unfoldable pub equals_ok : (T → T → Bool) → ℕ → Result T E → T → Option (Outcome E Bool)
  unfolding has_value value_const
  equals_ok same f r v =
      if has_value r
      then elim (value_const f r) [ none ↦ none | some o ↦ some (mapped (λ x. same x v) o) ]
      else some (Outcome.returned false)

  unfoldable pub equals_err : (E → E → Bool) → Result T E → E → Outcome E Bool
  unfolding has_error error
  equals_err same r e =
      if has_error r then mapped (λ x. same x e) (error r) else Outcome.returned false
