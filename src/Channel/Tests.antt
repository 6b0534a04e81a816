-- ===== src/Channel/Tests.antt =====
-- A channel of capacity 2: a value is pushed and popped, and then the channel is closed.
use macoro.Common.{
  ℕ, ◌+◌, ◌<◌, ◌≡◌, true, ◌==◌, none, some, refl, arith, subst, Bool-cases, inl, inr, sym, ==_iff,
}
use macoro.Sequence.Slots.{IsRing}
use macoro.Channel.Defs.{
  Message, Place, Receiver, Channel, index, create, is_published, claim, send_at, CanSend, front,
  pop_resume, move_out, release_at, Step, Reach,
}
use macoro.Channel.Guarantees.{
  popped_value, front_value, received_is_sent, front_is_sent, claimed_slot_is_empty,
}

two-IsRing : IsRing 2
two-IsRing = record { positive = omega arith; below_half = omega arith; divides = refl }

abbrev moved_from : ℕ → ℕ
moved_from t = 99

abbrev Run : Type 0
Run = (c : Channel ℕ) × Reach 0 moved_from 2 c

module _ (q : Run) where
  begin : Message ℕ → Run
  begin m = (_, Reach.next q.1 (Step.begin m))

  release : Run
  release = (_, Reach.next q.1 Step.release)

  send : (n : ℕ) → CanSend (q.0.place n) n q.0 → Run
  send n o = (_, Reach.next q.1 (Step.send n o))

-- Two numbers are claimed; the sender of number 0 has its slot.
claimed : Run
unfolding begin send create claim
claimed = send (begin (begin (_, Reach.here) (Message.pushed 7)) Message.closed) 0 (omega arith)

sent : Run
unfolding claimed send send_at
sent = send (send claimed 0 tt) 0 tt

first_published : (n : ℕ) → n < 1 → is_published (sent.0.place n) ≡ true
unfolding sent
first_published n lt =
    let zero_th : 0 ≡ n = omega (arith, lt) in
    subst (λ k. is_published (sent.0.place k) ≡ true) zero_th refl

holding : Run
unfolding sent
holding = (_, Reach.next sent.1 (Step.pop_wait 1 refl (omega arith) first_published))

popped : Run
unfolding holding pop_resume
popped = (_, Reach.next holding.1 (Step.take refl))

popped_first : (popped.0.received 0 ≡ some 7) × (popped.0.receiver ≡ Receiver.moved)
unfolding popped front move_out
popped_first = (refl, refl)

-- The pop_wrapper is released, the receiver comes to number 1, which closes the channel.
at_end : Run
unfolding popped release send front move_out release_at
at_end = send (send (release (release (release popped))) 1 (omega arith)) 1 tt

both_published : (n : ℕ) → n < 2 → is_published (at_end.0.place n) ≡ true
unfolding at_end
both_published n lt = elim (Bool-cases (n == 0)) [
  | inl e ↦ subst (λ k. is_published (at_end.0.place k) ≡ true) (sym ((==_iff n 0).0 e)) refl
  | inr e ↦
      let one : 1 ≡ n = ground (arith, e, lt) in
      subst (λ k. is_published (at_end.0.place k) ≡ true) one refl
]

holding_end : Run
unfolding at_end
holding_end = (_, Reach.next at_end.1 (Step.pop_wait 2 refl (omega arith) both_published))

-- At the end of the channel `front` throws, but a pop yields a default value.
popped_end : Run
unfolding holding_end
popped_end = (_, Reach.next holding_end.1 (Step.take refl))

end_of_channel : (front holding_end.0 ≡ none) × (popped_end.0.received 1 ≡ some 0)
unfolding popped_end
end_of_channel = (refl, refl)

received_is_sent_example :
    (m : Message ℕ) × (popped_end.0.place 1 ≡ Place.published m) × (0 ≡ popped_value 0 m)
received_is_sent_example =
    received_is_sent 0 moved_from 2 two-IsRing popped_end.1 1 0 end_of_channel.1

front_is_sent_example :
    (m : Message ℕ) × (holding_end.0.place 1 ≡ Place.published m)
    × (front holding_end.0 ≡ front_value m)
unfolding holding_end
front_is_sent_example = front_is_sent 0 moved_from 2 two-IsRing holding_end.1 refl

claimed_slot_is_empty_example : (claimed.0.slots (index 2 0) ≡ none) × (0 < claimed.0.freed + 2)
unfolding claimed send_at
claimed_slot_is_empty_example =
    claimed_slot_is_empty 0 moved_from 2 two-IsRing claimed.1 0 (Message.pushed 7) refl
