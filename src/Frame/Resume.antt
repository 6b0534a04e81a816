-- ===== src/Frame/Resume.antt =====
-- The loop of `coroutine_handle::resume` (coro_frame.h), which resumes the handle that a frame
-- returns in place of a call from within it. `Bodies` are the coroutines: what resuming one does to
-- the rest of the program, a state of the type `World`, and the address of the handle that a frame of
-- the library returns. A turn of the loop costs one of the fuel.
use macoro.Common.{
  ℕ, suc, zero, ◌+◌, ◌%◌, ◌<◌, ◌≡◌, refl, not, ◌==◌, if◌then◌else◌, Option, some, none, arith,
  ==_ne,
}
use macoro.Frame.Handle.{
  Coroutine, IsAligned, address_of, is_std, flip, noop_address, is_std_even, is_std_odd, flip_odd,
}

pub record Bodies (World : Type 0) : Type 0 where
  pub frame_state : World → ℕ → World
  pub frame_next : World → ℕ → ℕ
  pub std_state : World → ℕ → World

unfoldable pub resume : {World : Type 0} → Bodies World → ℕ → World → ℕ → Option World
resume bodies zero world address = none
resume bodies (suc fuel) world address =
    let rest =
      resume bodies fuel (Bodies.frame_state bodies world (flip address))
        (Bodies.frame_next bodies world (flip address)) in
    if not (is_std address)
    then (if address == noop_address then some world else rest)
    else some (Bodies.std_state bodies world address)

-- Control passes from one coroutine to the next without growth of the stack: `Transfers k w c w'`
-- says that it passes through `k` frames, from `c` in the world `w`, and comes back to the caller in
-- the world `w'`.
pub data Transfers {World : Type 0} (bodies : Bodies World)
    : ℕ → World → Coroutine → World → Type 0 where
  returned : {w : World} → Transfers bodies 0 w Coroutine.noop w
  resumed_std :
      {w : World} {a : ℕ}
      → IsAligned (Coroutine.standard a)
      → Transfers bodies 0 w (Coroutine.standard a) (Bodies.std_state bodies w a)
  resumed_frame :
      {w w' : World} {a k : ℕ} {next : Coroutine}
      → IsAligned (Coroutine.native a)
      → Bodies.frame_next bodies w a ≡ address_of next
      → Transfers bodies k (Bodies.frame_state bodies w a) next w'
      → Transfers bodies (suc k) w (Coroutine.native a) w'

module _ {World : Type 0} (bodies : Bodies World) where
  resume_noop : (n : ℕ) (w : World) → resume bodies (suc n) w noop_address ≡ some w
  unfolding resume is_std flip
  resume_noop n w = refl

  resume_std :
      (n : ℕ) (w : World) (a : ℕ)
      → a % 4 ≡ 0
      → resume bodies (suc n) w a ≡ some (Bodies.std_state bodies w a)
  unfolding resume
  resume_std n w a h = rw (is_std_even a (omega arith)) refl

  resume_frame :
      (n : ℕ) (w : World) (a : ℕ)
      → a % 4 ≡ 0
      → resume bodies (suc n) w (a + 1)
        ≡ resume bodies n (Bodies.frame_state bodies w a) (Bodies.frame_next bodies w a)
  unfolding resume
  resume_frame n w a h =
      rw
        (
          is_std_odd a (omega arith),
          ==_ne (a + 1) noop_address (omega arith),
          flip_odd a (omega arith),
        )
        refl

  -- If control passes through `k` frames before it comes back, the loop makes at most `k + 1` turns,
  -- and leaves the program in the state that these transfers do: each coroutine is resumed once, in
  -- their order, and the coroutine without effects is taken for no frame.
  pub resume-Transfers :
      (k n : ℕ) (w w' : World) (c : Coroutine)
      → Transfers bodies k w c w'
      → k < n
      → resume bodies n w (address_of c) ≡ some w'
  unfolding address_of IsAligned
  resume-Transfers k zero w w' c t lt = ground arith
  resume-Transfers k (suc n) w w' c Transfers.returned lt = resume_noop n w
  resume-Transfers k (suc n) w w' c (Transfers.resumed_std {a} h) lt = resume_std n w a h
  resume-Transfers k (suc n) w w' c (Transfers.resumed_frame {a} {k = j} {next} h e rest) lt =
      rw (resume_frame n w a h, e)
        (resume-Transfers j n (Bodies.frame_state bodies w a) w' next rest (omega arith))
