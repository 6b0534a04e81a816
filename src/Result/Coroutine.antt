-- ===== src/Result/Coroutine.antt =====
-- `result_promise` and `result_awaiter`: a coroutine that returns a result awaits results. The error
-- type is `std::exception_ptr`, and `E` are the exceptions, with `runtime_error` the one that the
-- accessors throw. What `std::current_exception` yields is what was thrown.
use macoro.Common.{◌≡◌, refl, if◌then◌else◌}
use macoro.Result.Defs.{
  Result, Thrown, Outcome, has_error, has_value, error, rethrow, value, mapped,
}

-- What a coroutine does behind a `co_await` that has ended.
abbrev pub then_do : {E A B : Type 0} → Outcome E A → (A → Outcome E B) → Outcome E B
then_do (Outcome.returned a) f = f a
then_do (Outcome.threw x) f = Outcome.threw x

-- `result_awaiter::await_resume`
unfoldable pub await_resume : {T E : Type 0} → Result T E → Outcome E T
unfolding has_error rethrow error value
await_resume r = if has_error r then rethrow (error r) else value r

module _ {E : Type 0} (runtime_error : E) where
  unfoldable pub current_exception : Thrown E → E
  current_exception (Thrown.stored e) = e
  current_exception Thrown.wrong_state = runtime_error

  -- `result_promise`: `return_value` for a body that comes to its `co_return`, and else
  -- `unhandled_exception`; the result is then handed out by `Ret`.
  unfoldable pub run_coroutine : {T : Type 0} → Outcome E (Result T E) → Result T E
  unfolding current_exception
  run_coroutine (Outcome.returned r) = r
  run_coroutine (Outcome.threw x) = Result.err (current_exception x)

  -- `try_resume`, on what `await_resume` of some awaiter does.
  unfoldable pub try_resume : {T : Type 0} → Outcome E T → Result T E
  unfolding current_exception
  try_resume (Outcome.returned v) = Result.ok v
  try_resume (Outcome.threw x) = Result.err (current_exception x)

  -- Chaining results without coroutines.
  pub and_then : {T U : Type 0} → Result T E → (T → Result U E) → Result U E
  and_then (Result.ok v) f = f v
  and_then (Result.err e) f = Result.err e

  -- A coroutine that returns the error of a result.
  pub error_result : {T : Type 0} → Result T E → Result E E
  error_result (Result.ok v) = Result.err runtime_error
  error_result (Result.err e) = Result.ok e

  -- In a coroutine that returns a result, `co_await` of a result chains: the coroutine ends with the
  -- error of the awaited result, or goes on with its value and ends as what follows ends. A result
  -- that is awaited and caught by `try_resume` is itself, and so is one whose value a coroutine
  -- returns. A coroutine that asks a result with a value for its error ends with
  -- the exception of that accessor.
  pub run_coroutine-await_resume :
      {T U : Type 0} (r : Result T E) (rest : T → Outcome E (Result U E))
      → (run_coroutine (then_do (await_resume r) rest) ≡ and_then r (λ v. run_coroutine (rest v)))
        × (run_coroutine (then_do (await_resume r) (λ v. Outcome.returned (Result.ok v))) ≡ r)
        × (try_resume (await_resume r) ≡ r)
        × (run_coroutine (mapped Result.ok (error r)) ≡ error_result r)
  unfolding try_resume run_coroutine and_then await_resume value error has_error has_value
      current_exception error_result
  run_coroutine-await_resume (Result.ok v) rest = (refl, refl, refl, refl)
  run_coroutine-await_resume (Result.err e) rest = (refl, refl, refl, refl)
