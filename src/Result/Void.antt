-- ===== src/Result/Void.antt =====
-- `result<void, Error>`, which keeps an optional error, against the general class.
use macoro.Common.{
  ℕ, suc, ◌≡◌, refl, ap, ◌∙◌, subst, Bool, true, false, not, if◌then◌else◌, Option, none, some,
  List, [], ◌∷◌,
}
use macoro.Result.Defs
use macoro.Result.Defs.{Result, Thrown, Outcome, rethrow, mapped, value_const}
use macoro.Result.NoValue.{value_const_ok, const_calls_return}

pub record VoidResult (E : Type 0) : Type 0 where
  pub var : Option E

-- What a program can do to a result that it keeps.
pub data Change (E : Type 0) : Type 0 where
  construct_ok assign_ok_to : Change E
  construct_err assign_err_to : E → Change E

module _ {E : Type 0} where
  unfoldable pub void_ok : VoidResult E
  void_ok = record { var = none }

  unfoldable pub void_err : E → VoidResult E
  void_err e = record { var = some e }

  unfoldable pub has_value : VoidResult E → Bool
  has_value r = elim r.var [ none ↦ true | some e ↦ false ]

  unfoldable pub has_error : VoidResult E → Bool
  unfolding has_value
  has_error r = not (has_value r)

  unfoldable pub error : VoidResult E → Outcome E E
  error r = elim r.var [ none ↦ Outcome.threw Thrown.wrong_state | some e ↦ Outcome.returned e ]

  unfoldable pub value : VoidResult E → Outcome E (Unit {0})
  unfolding has_error error rethrow
  value r = if has_error r then rethrow (error r) else Outcome.returned tt

  unfoldable pub error_or : VoidResult E → E → Outcome E E
  unfolding has_error error
  error_or r alt = if has_error r then error r else Outcome.returned alt

  unfoldable pub assign_ok : VoidResult E → VoidResult E
  assign_ok r = record { var = none }

  unfoldable pub assign_err : VoidResult E → E → VoidResult E
  assign_err r e = record { var = some e }

  unfoldable pub equals_ok : VoidResult E → Bool
  unfolding has_value
  equals_ok r = has_value r

  unfoldable pub equals_err : (E → E → Bool) → VoidResult E → E → Outcome E Bool
  unfolding has_error error
  equals_err same r e =
      if has_error r then mapped (λ x. same x e) (error r) else Outcome.returned false

  -- The result that the optional error stands for.
  pub as_result : VoidResult E → Result (Unit {0}) E
  as_result r = elim r.var [ none ↦ Result.ok tt | some e ↦ Result.err e ]

  pub change_void : Change E → VoidResult E → VoidResult E
  change_void Change.construct_ok r = void_ok
  change_void (Change.construct_err e) r = void_err e
  change_void Change.assign_ok_to r = assign_ok r
  change_void (Change.assign_err_to e) r = assign_err r e

  pub change_general : Change E → Result (Unit {0}) E → Result (Unit {0}) E
  change_general Change.construct_ok r = Result.ok tt
  change_general (Change.construct_err e) r = Result.err e
  change_general Change.assign_ok_to r = Defs.assign_ok r tt
  change_general (Change.assign_err_to e) r = Defs.assign_err r e

  -- From a result that holds the value.
  pub changed_void : List (Change E) → VoidResult E
  changed_void [] = void_ok
  changed_void (c ∷ cs) = change_void c (changed_void cs)

  pub changed_general : List (Change E) → Result (Unit {0}) E
  changed_general [] = Result.ok tt
  changed_general (c ∷ cs) = change_general c (changed_general cs)

  -- What the two classes answer, in the accessors that they share and that end in both. The const
  -- `value` and the comparison with `Ok()` end in the class for void; in the general one they end only
  -- on an error, whatever the number of rounds.
  pub record Agree (r : VoidResult E) (g : Result (Unit {0}) E) : Type 0 where
    pub same_kind : has_value r ≡ Defs.has_value g
    pub same_value : value r ≡ Defs.value g
    pub same_error : error r ≡ Defs.error g
    pub same_error_or : (alt : E) → error_or r alt ≡ Defs.error_or g alt
    pub same_equals_err :
        (same : E → E → Bool) (e : E) → equals_err same r e ≡ Defs.equals_err same g e
    pub const_value :
        (f : ℕ) → value_const (suc f) g ≡ (if has_error r then some (value r) else none)
    pub compared :
        (f : ℕ) (same : Unit {0} → Unit {0} → Bool)
        → Defs.equals_ok same f g tt
          ≡ (if equals_ok r then none else some (Outcome.returned (equals_ok r)))

  as_result-change_void :
      (c : Change E) (r : VoidResult E)
      → as_result (change_void c r) ≡ change_general c (as_result r)
  unfolding as_result change_void change_general void_ok void_err assign_ok assign_err
      Defs.assign_ok Defs.assign_err
  as_result-change_void Change.construct_ok r = refl
  as_result-change_void (Change.construct_err e) r = refl
  as_result-change_void Change.assign_ok_to r = refl
  as_result-change_void (Change.assign_err_to e) r = refl

  as_result-changed_void : (cs : List (Change E)) → as_result (changed_void cs) ≡ changed_general cs
  unfolding changed_void changed_general as_result void_ok
  as_result-changed_void [] = refl
  as_result-changed_void (c ∷ cs) =
      as_result-change_void c (changed_void cs) ∙ ap (change_general c) (as_result-changed_void cs)

  Agree-as_result :
      (o : Option E) → let r : VoidResult E = record { var = o } in Agree r (as_result r)
  unfolding has_value has_error error value error_or equals_err equals_ok as_result Defs.has_value
      Defs.has_error Defs.error Defs.value Defs.error_or Defs.equals_err Defs.equals_ok rethrow
  Agree-as_result none = record {
    same_kind = refl;
    same_value = refl;
    same_error = refl;
    same_error_or = λ alt. refl;
    same_equals_err = λ same e. refl;
    const_value = λ f. value_const_ok (suc f) tt;
    compared = λ f same. rw (value_const_ok {E = E} f tt) refl;
  }
  Agree-as_result (some x) = record {
    same_kind = refl;
    same_value = refl;
    same_error = refl;
    same_error_or = λ alt. refl;
    same_equals_err = λ same e. refl;
    const_value = λ f. (const_calls_return f (λ a b. true) (Result.err x) tt).0;
    compared = λ f same. refl;
  }

  -- After any constructions and assignments, the class for void and the general class at the type with
  -- one value hold the same: `has_value`, `value`, `error`, `error_or` and the comparison with an error
  -- answer alike. The const `value` and the comparison with `Ok()` return in the class for void; in the
  -- general class they return only on an error, however many rounds they take.
  pub changed_void-Agree :
      (changes : List (Change E)) → Agree (changed_void changes) (changed_general changes)
  changed_void-Agree changes =
      subst (Agree (changed_void changes)) (as_result-changed_void changes)
        (Agree-as_result (changed_void changes).var)
