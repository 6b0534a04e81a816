-- ===== src/Channel/Defs.antt =====
-- The channel, its senders and its receiver. A number of the sequence is counted without a wrap; the
-- word that the code keeps is its remainder by 2^64. A step is one access to shared memory.
use macoro.Common.{ℕ, suc, ◌+◌, ◌%◌, ◌<◌, ◌≡◌, Bool, true, false, Option, none, some}
use macoro.Common.Word.{word_mod}
use macoro.Common.Family.{update}
use macoro.Sequence.Slots.{slot}

pub data Message {ℓ} (T : Type ℓ) : Type ℓ where
  pushed : (t : T) → Message T
  closed : Message T

-- How far the sender has come that has claimed a number.
pub data Place {ℓ} (T : Type ℓ) : Type ℓ where
  unclaimed : Place T
  waiting : (m : Message T) → Place T  -- until the slot is free
  claimed : (m : Message T) → Place T  -- before the slot is written, or published if it is closed
  written : (t : T) → Place T  -- before the number is published
  published : (m : Message T) → Place T

-- Where the receiver stands.
pub data Receiver : Type 0 where
  idle : Receiver
  holding : Receiver  -- it has a pop_wrapper
  moved : Receiver  -- it has moved the value out
  publishing : Receiver  -- the slot is reset, before mBarrier.publish
  advancing : Receiver  -- before the increment of mFrontIndex

pub record Channel {ℓ} (T : Type ℓ) : Type ℓ where
  pub capacity : ℕ
  pub slots : ℕ → Option T  -- mData
  pub next_to_claim : ℕ
  pub place : ℕ → Place T
  pub freed : ℕ  -- how many numbers the receiver has published on mBarrier
  pub front_index : ℕ
  pub known_end : ℕ  -- the number behind mLastKnown
  pub receiver : Receiver
  pub received : ℕ → Option T  -- what the pop of a number has moved out

-- `seq & mIndexMask`
abbrev pub index : ℕ → ℕ → ℕ
index capacity n = slot capacity (n % word_mod)

module _ {ℓ} {T : Type ℓ} where
  unfoldable pub create : ℕ → Channel T
  create capacity = record {
    capacity = capacity;
    slots = λ _. none;
    next_to_claim = 0;
    place = λ _. Place.unclaimed;
    freed = 0;
    front_index = 0;
    known_end = 0;
    receiver = Receiver.idle;
    received = λ _. none;
  }

  abbrev pub is_published : Place T → Bool
  is_published (Place.published m) = true
  is_published _ = false

  -- The call of `push(T&&)` or `close`: the number is claimed.
  unfoldable pub claim : Message T → Channel T → Channel T
  claim m c = record c {
    next_to_claim = suc c.next_to_claim;
    place = update c.place c.next_to_claim (Place.waiting m);
  }

  -- A step of the sender that has claimed the number `n`: its wait ends, it writes its slot, and it
  -- publishes the number.
  unfoldable pub send_at : Place T → ℕ → Channel T → Channel T
  send_at (Place.waiting m) n c = record c { place = update c.place n (Place.claimed m) }
  send_at (Place.claimed (Message.pushed t)) n c = record c {
    slots = update c.slots (index c.capacity n) (some t);
    place = update c.place n (Place.written t);
  }
  send_at (Place.claimed Message.closed) n c = record c {
    place = update c.place n (Place.published Message.closed);
  }
  send_at (Place.written t) n c = record c {
    place = update c.place n (Place.published (Message.pushed t));
  }
  send_at _ n c = c

  -- The wait of the sender ends when the number a capacity before its own is published by the
  -- receiver.
  abbrev pub CanSend : Place T → ℕ → Channel T → Type 0
  CanSend (Place.waiting m) n c = n < c.freed + c.capacity
  CanSend _ n c = Unit

  -- `await_resume` of `front`: none when it throws.
  unfoldable pub front : Channel T → Option T
  front c = c.slots (index c.capacity c.front_index)

  -- `await_resume` of `pop`, with the number behind the last one that is known to be published.
  unfoldable pub pop_resume : ℕ → Channel T → Channel T
  pop_resume known c = record c { known_end = known; receiver = Receiver.holding }

  module _ (default_value : T) (moved_from : T → T) where
    -- `operator T&&` of the pop_wrapper: a slot without a value gets a default one.
    unfoldable pub move_out : Option T → Channel T → Channel T
    move_out none c = record c {
      slots = update c.slots (index c.capacity c.front_index) (some (moved_from default_value));
      received = update c.received c.front_index (some default_value);
      receiver = Receiver.moved;
    }
    move_out (some t) c = record c {
      slots = update c.slots (index c.capacity c.front_index) (some (moved_from t));
      received = update c.received c.front_index (some t);
      receiver = Receiver.moved;
    }

  -- `publish` of the pop_wrapper.
  unfoldable pub release_at : Receiver → Channel T → Channel T
  release_at Receiver.idle c = c
  release_at Receiver.holding c = record c {
    slots = update c.slots (index c.capacity c.front_index) none;
    receiver = Receiver.publishing;
  }
  release_at Receiver.moved c = record c {
    slots = update c.slots (index c.capacity c.front_index) none;
    receiver = Receiver.publishing;
  }
  release_at Receiver.publishing c = record c {
    freed = suc c.front_index;
    receiver = Receiver.advancing;
  }
  release_at Receiver.advancing c = record c {
    front_index = suc c.front_index;
    receiver = Receiver.idle;
  }

-- The receiver waits until its front number is published, and learns of more that are; or it knows of
-- it already.
pub data Step {ℓ} {T : Type ℓ} (d : T) (f : T → T) (c : Channel T) : Channel T → Type ℓ where
  begin : (m : Message T) → Step d f c (claim m c)
  send : (n : ℕ) → CanSend (c.place n) n c → Step d f c (send_at (c.place n) n c)
  pop_wait :
      (known : ℕ)
      → c.receiver ≡ Receiver.idle
      → c.front_index < known
      → ((n : ℕ) → n < known → is_published (c.place n) ≡ true)
      → Step d f c (pop_resume known c)
  pop_ready :
      c.receiver ≡ Receiver.idle
      → c.front_index < c.known_end
      → Step d f c (pop_resume c.known_end c)
  take : c.receiver ≡ Receiver.holding → Step d f c (move_out d f (front c) c)
  release : Step d f c (release_at c.receiver c)

pub data Reach {ℓ} {T : Type ℓ} (d : T) (f : T → T) (capacity : ℕ) : Channel T → Type ℓ where
  here : Reach d f capacity (create capacity)
  next : {c e : Channel T} → Reach d f capacity c → Step d f c e → Reach d f capacity e
