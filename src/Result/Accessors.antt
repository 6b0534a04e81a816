-- ===== src/Result/Accessors.antt =====
-- What the accessors of a result do on either kind of result.
use macoro.Common.{◌≡◌, refl, ap, ◌↔◌, Bool, true, not, Option, none, some}
use macoro.Result.Defs.{
  Result, Thrown, Outcome, has_value, has_error, error, value, value_or, error_or, equals_err,
}

returned_inj :
    {E A : Type 0} {a b : A}
    → ◌≡◌ {A = Outcome E A} (Outcome.returned a) (Outcome.returned b)
    → a ≡ b
returned_inj {a} h = ap (content a) h
  where
    content : {E A : Type 0} → A → Outcome E A → A
    content d (Outcome.returned a) = a
    content d (Outcome.threw x) = d

module _ {T E : Type 0} where
  -- The result from what its accessors answer.
  pub rebuilt : Outcome E T → Outcome E E → Option (Result T E)
  rebuilt (Outcome.returned v) (Outcome.threw Thrown.wrong_state) = some (Result.ok v)
  rebuilt (Outcome.threw (Thrown.stored e)) (Outcome.returned e') = some (Result.err e)
  rebuilt v e = none

  -- The accessors tell the whole result, and exactly one of `value` and `error` returns, the one
  -- that `has_value` names.
  pub rebuilt-accessors :
      (r : Result T E) → (rebuilt (value r) (error r) ≡ some r) × (has_error r ≡ not (has_value r))
  unfolding rebuilt value error has_error
  rebuilt-accessors (Result.ok v) = (refl, refl)
  rebuilt-accessors (Result.err e) = (refl, refl)

  -- What is stored, or the argument.
  pub stored_value : Result T E → T → T
  stored_value (Result.ok x) v = x
  stored_value (Result.err x) v = v

  pub stored_error : Result T E → E → E
  stored_error (Result.ok x) e = e
  stored_error (Result.err x) e = x

  -- `value_or` and `error_or` never throw, on a result of either kind: they return what is stored
  -- if it is of the kind asked for, and their argument otherwise.
  pub value_or-error_or :
      (r : Result T E) (v : T) (e : E)
      → (value_or r v ≡ Outcome.returned (stored_value r v))
        × (error_or r e ≡ Outcome.returned (stored_error r e))
  unfolding value_or error_or value error has_error has_value stored_value stored_error
  value_or-error_or (Result.ok x) v e = (refl, refl)
  value_or-error_or (Result.err x) v e = (refl, refl)

  error_inj : {x y : E} → ◌≡◌ {A = Result T E} (Result.err x) (Result.err y) → x ≡ y
  unfolding stored_error
  error_inj {x} h = ap (λ r. stored_error r x) h

  -- The test for an error holds just of the results with that error, for a comparison that is
  -- exact, and never throws.
  equals_err_iff :
      (same : E → E → Bool)
      → ((x y : E) → (same x y ≡ true) ↔ (x ≡ y))
      → (r : Result T E) (e : E)
      → (equals_err same r e ≡ Outcome.returned true) ↔ (r ≡ Result.err e)
  unfolding equals_err error has_error has_value
  equals_err_iff same exact (Result.ok v) e = (λ h. cc h, λ h. cc h)
  equals_err_iff same exact (Result.err x) e = (
    λ h. ap Result.err ((exact x e).0 (returned_inj {E = E} {A = Bool} h)),
    λ h. ap Outcome.returned ((exact x e).1 (error_inj h)),
  )
