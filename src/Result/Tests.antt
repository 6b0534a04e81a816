-- ===== src/Result/Tests.antt =====
-- Results of numbers, with numbers as exceptions.
use macoro.Common.{ℕ, ◌/◌, ◌≡◌, false, ◌==◌, if◌then◌else◌, none, some, [], ◌∷◌}
use macoro.Result.Defs.{
  Result, Outcome, has_value, has_error, error, rethrow, value, value_const, value_or_const,
  equals_ok, mapped,
}
use macoro.Result.Accessors.{rebuilt, rebuilt-accessors}
use macoro.Result.NoValue.{const_calls_return}
use macoro.Result.Coroutine.{
  then_do, await_resume, run_coroutine, try_resume, and_then, error_result,
  run_coroutine-await_resume,
}
use macoro.Result.Void.{Change, changed_void, changed_general, Agree, changed_void-Agree}

abbrev seven : Result ℕ ℕ
seven = Result.ok 7

abbrev failed : Result ℕ ℕ
failed = Result.err 3

-- What a coroutine does with the number it awaited.
abbrev halved : ℕ → Outcome ℕ (Result ℕ ℕ)
halved v = Outcome.returned (Result.ok (v / 2))

rebuilt-accessors_example :
    (rebuilt (value seven) (error seven) ≡ some seven) × (has_error seven ≡ false)
unfolding has_value
rebuilt-accessors_example = rebuilt-accessors seven

-- A const result that holds 7: none of its calls for the value returns within 100 rounds.
const_calls_return_example :
    (value_const 101 seven ≡ (if has_error seven then some (rethrow (error seven)) else none))
    × (value_or_const 100 seven 7 ≡ (if has_error seven then some (Outcome.returned 7) else none))
    × (equals_ok ◌==◌ 100 seven 7
        ≡ (if has_error seven then some (Outcome.returned false) else none))
const_calls_return_example = const_calls_return 100 ◌==◌ seven 7

run_coroutine-await_resume_example :
    (run_coroutine 0 (then_do (await_resume failed) halved)
      ≡ and_then 0 failed (λ v. run_coroutine 0 (halved v)))
    × (run_coroutine 0 (then_do (await_resume failed) (λ v. Outcome.returned (Result.ok v)))
        ≡ failed)
    × (try_resume 0 (await_resume failed) ≡ failed)
    × (run_coroutine 0 (mapped Result.ok (error failed)) ≡ error_result 0 failed)
run_coroutine-await_resume_example = run_coroutine-await_resume 0 failed halved

changed_void-Agree_example :
    Agree {E = ℕ}
      (changed_void (Change.assign_err_to 3 ∷ Change.construct_ok ∷ []))
      (changed_general (Change.assign_err_to 3 ∷ Change.construct_ok ∷ []))
changed_void-Agree_example = changed_void-Agree (Change.assign_err_to 3 ∷ Change.construct_ok ∷ [])
