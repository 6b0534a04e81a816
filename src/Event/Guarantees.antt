-- ===== src/Event/Guarantees.antt =====
-- What a coroutine that awaits an event may rely on, in every interleaving.
use macoro.Common.{
  ℕ, ◌+◌, ◌≤◌, ◌≡◌, refl, ap, Bool, true, false, ◌⊎◌, inl, inr, [], count, Bool-cases, arith,
}
use macoro.Common.Family.{tally-eq-zero}
use macoro.Event.Defs.{EventState, Pc, System, is_set, Reach}
use macoro.Event.Places.{waiting, entered, taken, Reach-Inv}

-- No thread is inside the loop of `set`.
abbrev pub IsQuiet : System → Type 0
IsQuiet s = (j : ℕ) → s.resuming j ≡ []

listed_or_gone :
    (p : Pc) (l t c : ℕ)
    → l + t + c ≡ entered p
    → t ≡ 0
    → entered p ≡ 1
    → ((c ≡ 1) × (l ≡ 0)) ⊎ ((c ≡ 0) × (l ≡ 1))
listed_or_gone p l t c e f g = ground arith

no_list : (e : EventState) (i : ℕ) → is_set e ≡ true → count i (waiting e) ≡ 0
unfolding is_set
no_list EventState.set_state i h = refl
no_list (EventState.not_set ws) i h = cc

at_most : (p : Pc) → entered p ≤ 1
at_most p = ground arith

module _ (n m : ℕ) {b : Bool} {s : System} (r : Reach n m b s) where
  -- A coroutine that awaits the event goes on at most once, and only after the event was set; its
  -- operation stands in at most one list, and in none once the coroutine went on.
  pub continued_once :
      (i : ℕ)
      → (s.continued i + count i (waiting s.state) + taken m i s ≤ 1)
        × (s.was_set ≡ false → s.continued i ≡ 0)
  continued_once i =
      let v = Reach-Inv m r in
      (omega (arith, v.placed i, at_most (s.pc i)), λ e. (v.not_before_set e i).0)

  -- When no thread is inside `set`, a coroutine that is past its `await_suspend` has gone on, or it
  -- waits on the list of an event that is not set: once the event is set nobody is left waiting.
  pub none_left_waiting :
      IsQuiet s
      → (i : ℕ) → entered (s.pc i) ≡ 1
      → (s.continued i ≡ 1) ⊎ ((s.continued i ≡ 0) × (is_set s.state ≡ false))
  none_left_waiting q i e =
      let v = Reach-Inv m r in
      let none = tally-eq-zero (count i) s.resuming (λ j. ap (count i) (q j)) m in
      elim (listed_or_gone (s.pc i) (count i (waiting s.state)) (taken m i s) (s.continued i)
        (v.placed i) none e) [ inl (c, l) ↦ inl c | inr (c, l) ↦ inr (c, still_unset l) ]
    where
      still_unset : count i (waiting s.state) ≡ 1 → is_set s.state ≡ false
      still_unset l = elim (Bool-cases (is_set s.state)) [
        | inl h ↦ absurd (omega (arith, l, no_list s.state i h))
        | inr h ↦ h
      ]
