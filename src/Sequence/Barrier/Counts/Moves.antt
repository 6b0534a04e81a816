-- ===== src/Sequence/Barrier/Counts/Moves.antt =====
-- Where each wait operation is: before its start nowhere, then in the queue of the barrier or on one
-- list of one thread, and from its resumption on nowhere again. No step loses or doubles one.
use macoro.Common.{
  ℕ, suc, ◌+◌, ◌<◌, ◌≤◌, ◌≡◌, Bool, true, false, if◌then◌else◌, List, [], ◌∷◌, arith, ◌==◌,
  Bool-cases, inl, inr, refl, sym, ap, ◌∙◌, subst, count, ==_iff, ==_refl,
}
use macoro.Common.Family.{update, tally, tally-update, tally-eq-zero}
use macoro.Common.Int.{ℤ}
use macoro.Sequence.Wait.{Waits, resume, set_known, fresh}
use macoro.Sequence.Barrier.Defs.{
  System, Producer, Pc, init, at, set_awaiters, add_requeue, resume_with,
}

abbrev pub held_producer : ℕ → Producer → ℕ
held_producer i (Producer.requeueing seq q r) = count i q + count i r
held_producer i (Producer.resuming seq r) = count i r
held_producer i _ = 0

abbrev pub held : ℕ → Pc → ℕ
held i (Pc.enqueue t q r) = count i q + count i r
held i (Pc.enqueued t r) = count i r
held i (Pc.acquiring known r) = count i r
held i (Pc.resuming known r) = count i r
held i _ = 0

-- In how many places operation `i` stands, among `n` threads.
abbrev pub places : ℕ → ℕ → System → ℕ
places n i s = count i s.awaiters + held_producer i s.producer + tally (held i) s.pc n

abbrev pub bit : Bool → ℕ
bit true = 1
bit false = 0

-- Places, flag and continuations of an operation in each of its phases.
abbrev pub Phase : Pc → ℕ → Bool → ℕ → Type 0
Phase Pc.start k ready c = (k ≡ 0) × (ready ≡ false) × (c ≡ 0)
Phase Pc.returned k ready c = (c + k ≡ 1) × (k ≤ bit ready)
Phase _ k ready c = (c ≡ 0) × (k + bit ready ≡ 1)

abbrev pub Counts : ℕ → System → Type 0
Counts n s =
    (i : ℕ) → Phase (s.pc i) (places n i s) (s.waits.ready_to_resume i) (s.waits.continued i)

abbrev pub IsBusy : Pc → Type 0
IsBusy Pc.start = ⊥
IsBusy Pc.returned = ⊥
IsBusy _ = Unit

pub Phase-busy :
    (p p' : Pc) (k c : ℕ) (ready : Bool)
    → IsBusy p
    → IsBusy p'
    → Phase p k ready c
    → Phase p' k ready c
Phase-busy p p' k c ready a b h = ground arith

-- One place less, and the exchange of the flag.
pub Phase-resume :
    (p : Pc) (k c : ℕ) (ready : Bool)
    → Phase p (suc k) ready c
    → Phase p k true (if ready then suc c else c)
Phase-resume p k c ready h = ground arith

pub Phase-finish :
    (k c : ℕ) (ready : Bool)
    → Phase Pc.suspending k ready c
    → Phase Pc.returned k true (if ready then suc c else c)
Phase-finish k c ready h = ground arith

resume-ready :
    (w : Waits) (a j : ℕ)
    → (resume w a).ready_to_resume j ≡ (if a == j then true else w.ready_to_resume j)
unfolding resume
resume-ready w a j = ground arith

resume-continued :
    (w : Waits) (a j : ℕ)
    → (resume w a).continued j ≡ (
        if a == j
        then (if w.ready_to_resume j then suc (w.continued j) else w.continued j)
        else w.continued j)
unfolding resume
resume-continued w a j = ground arith

pub init-Counts : (n initial : ℕ) → Counts n (init initial)
unfolding init fresh
init-Counts n initial i =
    (omega (arith, tally-eq-zero (held i) (λ _. Pc.start) (λ _. refl) n), refl, refl)

-- The state behind a step of thread `i`, in terms of the queue, the operations and its new place.
abbrev pub after : System → List ℕ → Waits → ℕ → Pc → System
after s js w i p = at (record (set_awaiters s js) { waits = w }) i p

module _ (n : ℕ) where
  pub places-after :
      (s : System) (js : List ℕ) (w : Waits) (i : ℕ) (p p' : Pc) (j : ℕ)
      → i < n
      → s.pc i ≡ p
      → places n j (after s js w i p') + count j s.awaiters + held j p
        ≡ places n j s + count j js + held j p'
  places-after s js w i p p' j lt e =
      omega (arith, tally-update (held j) s.pc i p' n lt, ap (held j) e)

  -- A move from one place inside `await_suspend` to another asks the same of the counts.
  pub same_phases :
      (s : System) (i : ℕ) (p p' : Pc)
      → s.pc i ≡ p
      → IsBusy p
      → IsBusy p'
      → (j k c : ℕ) (ready : Bool) → Phase (s.pc j) k ready c
      → Phase (update s.pc i p' j) k ready c
  same_phases s i p p' e a b j k c ready h = elim (Bool-cases (i == j)) [
    | inl same ↦ rw same (
        Phase-busy p p' k c ready a b
          (subst (λ q. Phase q k ready c) (ap s.pc (sym ((==_iff i j).0 same)) ∙ e) h))
    | inr other ↦ rw other h
  ]

  pub keep :
      (s : System) (js : List ℕ) (i : ℕ) (p p' : Pc)
      → i < n
      → s.pc i ≡ p
      → IsBusy p
      → IsBusy p'
      → ((j : ℕ) → count j js + held j p' ≡ count j s.awaiters + held j p)
      → Counts n s
      → Counts n (after s js s.waits i p')
  keep s js i p p' lt e a b h v j = rw same_places (same_phases s i p p' e a b j _ _ _ (v j))
    where
      same_places : places n j (after s js s.waits i p') ≡ places n j s
      same_places = omega (arith, places-after s js s.waits i p p' j lt e, h j)

  -- A resumption of `a`, by a thread that had it on its list and has it no longer.
  pub resumed :
      (s t : System) (known a : ℕ)
      → t.waits ≡ resume_with s.waits known a
      → ((j k c : ℕ) (ready : Bool) → Phase (s.pc j) k ready c → Phase (t.pc j) k ready c)
      → ((j : ℕ) → places n j t + (if a == j then 1 else 0) ≡ places n j s)
      → Counts n s
      → Counts n t
  unfolding resume_with set_known
  resumed s t known a w move counts v j =
      let told : Waits = set_known s.waits a known in
      rw (w, resume-ready told a j, resume-continued told a j)
        (elim (Bool-cases (a == j)) [
          | inl same ↦
              let one : places n j s ≡ suc (places n j t) = ground (arith, counts j) in
              rw same (Phase-resume (t.pc j) _ _ _ (move j _ _ _ (rw one at (v j))))
          | inr other ↦
              let none_less : places n j t ≡ places n j s = ground (arith, counts j) in
              rw (other, none_less) (move j _ _ _ (v j))
        ])

  -- A step that changes what is kept for operation `i` alone.
  pub stepped :
      (s : System) (w : Waits) (i : ℕ) (p p' : Pc)
      → i < n
      → s.pc i ≡ p
      → ((k : ℕ)
          → k + held i p ≡ places n i s + held i p'
          → Phase p (places n i s) (s.waits.ready_to_resume i) (s.waits.continued i)
          → Phase p' k (w.ready_to_resume i) (w.continued i))
      → ((j : ℕ)
          → (i == j) ≡ false
          → (held j p' ≡ held j p)
            × (w.ready_to_resume j ≡ s.waits.ready_to_resume j)
            × (w.continued j ≡ s.waits.continued j))
      → Counts n s
      → Counts n (after s s.awaiters w i p')
  stepped s w i p p' lt e own others v j = elim (Bool-cases (i == j)) [
    | inl same ↦
        let i_is_j : i ≡ j = (==_iff i j).0 same in
        subst (λ x. Phase (update s.pc i p' x) (places n x t) (w.ready_to_resume x) (w.continued x))
          i_is_j
          (rw (==_refl i) (
            own (places n i t) (omega (arith, places-after s s.awaiters w i p p' i lt e)) (
              subst (λ q. Phase q (places n i s) (s.waits.ready_to_resume i) (s.waits.continued i))
                e (v i))))
    | inr other ↦
        let (h, r, c) = others j other in
        let same_places : places n j t ≡ places n j s =
          omega (arith, places-after s s.awaiters w i p p' j lt e, h) in
        rw (same_places, r, c, other) (v j)
  ]
    where
      t : System
      t = after s s.awaiters w i p'

pub add_requeue-held :
    (j known : ℕ) (q r : List ℕ) (m : ℤ) → held j (add_requeue known q r m) ≡ count j q + count j r
unfolding add_requeue
add_requeue-held j known [] r m = omega arith
add_requeue-held j known (a ∷ q) r m = refl

pub add_requeue-IsBusy : (known : ℕ) (q r : List ℕ) (m : ℤ) → IsBusy (add_requeue known q r m)
unfolding add_requeue
add_requeue-IsBusy known [] r m = tt
add_requeue-IsBusy known (a ∷ q) r m = tt
