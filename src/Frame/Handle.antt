-- ===== src/Frame/Handle.antt =====
-- Handles of coroutines as addresses (coroutine_handle.h and the end of coro_frame.h, in the
-- configuration with C++20). `std::coroutine_handle` is code of the compiler: `Std` has the address
-- of a coroutine by that of its promise, and back.
use macoro.Common.{
  ℕ, ◌+◌, ◌-◌, ◌%◌, ◌≤◌, ◌≡◌, refl, Bool, true, false, not, ◌==◌, if◌then◌else◌, arith,
}

pub data HandleType : Type 0 where
  of_std of_macoro : HandleType

pub record Std : Type 0 where
  pub from_promise : ℕ → ℕ
  pub promise : ℕ → ℕ

-- What the header relies on: the address of a coroutine is even, and its promise is found again.
pub record StdLaws (s : Std) : Type 0 where
  pub even : (p : ℕ) → Std.from_promise s p % 2 ≡ 0
  pub found : (p : ℕ) → Std.promise s (Std.from_promise s p) ≡ p

-- The exclusive or with one.
unfoldable pub flip : ℕ → ℕ
flip a = if a % 2 == 0 then a + 1 else a - 1

unfoldable pub is_std : ℕ → Bool
is_std address = not (address % 2 == 1)

-- `offset` is the place of the promise in a frame of the library.
unfoldable pub coro_promise : Std → ℕ → ℕ → ℕ
coro_promise s offset address =
    if not (is_std address) then flip address + offset else Std.promise s address

unfoldable pub coro_frame : Std → ℕ → ℕ → HandleType → ℕ
coro_frame s offset promise HandleType.of_macoro = flip (promise - offset)
coro_frame s offset promise HandleType.of_std = Std.from_promise s promise

-- `noop_coroutine().address()`
abbrev pub noop_address : ℕ
noop_address = 43

-- The object that a call goes to.
pub data Target : Type 0 where
  frame : ℕ → Target  -- the frame of the library at this address
  standard : ℕ → Target  -- the coroutine of the compiler at this address
  std_noop : Target  -- `std::noop_coroutine()`

unfoldable pub coro_done : ℕ → Target
coro_done address =
    if not (is_std address) then Target.frame (flip address) else Target.standard address

unfoldable pub coro_destroy : ℕ → Target
coro_destroy address =
    if not (is_std address) then Target.frame (flip address) else Target.standard address

-- Which coroutine the standard handle is asked from.
unfoldable pub std_cast : ℕ → Target
std_cast address =
    if address == noop_address
    then Target.std_noop
    else if not (is_std address)
    then Target.frame (flip address)
    else Target.standard address

-- What a handle stands for.
pub data Coroutine : Type 0 where
  noop : Coroutine
  native : ℕ → Coroutine  -- the frame of the library at this address
  standard : ℕ → Coroutine

-- Frames and coroutines of the compiler are aligned to more than two bytes, a null handle counts as
-- one of the compiler.
unfoldable pub IsAligned : Coroutine → Type 0
IsAligned Coroutine.noop = noop_address % 4 ≡ 3
IsAligned (Coroutine.native a) = a % 4 ≡ 0
IsAligned (Coroutine.standard a) = a % 4 ≡ 0

unfoldable pub address_of : Coroutine → ℕ
address_of Coroutine.noop = noop_address
address_of (Coroutine.native a) = a + 1
address_of (Coroutine.standard a) = a

-- Where a call on the coroutine goes to: for the one without effects, to a frame at an address that
-- no frame has.
unfoldable pub called : Coroutine → Target
called Coroutine.noop = Target.frame 42
called (Coroutine.native a) = Target.frame a
called (Coroutine.standard a) = Target.standard a

unfoldable pub cast : Coroutine → Target
cast Coroutine.noop = Target.std_noop
cast (Coroutine.native a) = Target.frame a
cast (Coroutine.standard a) = Target.standard a

pub flip_even : (a : ℕ) → a % 2 ≡ 0 → flip a ≡ a + 1
unfolding flip
flip_even a h = ground arith

pub flip_odd : (a : ℕ) → a % 2 ≡ 0 → flip (a + 1) ≡ a
unfolding flip
flip_odd a h = ground arith

pub is_std_even : (a : ℕ) → a % 2 ≡ 0 → is_std a ≡ true
unfolding is_std
is_std_even a h = ground arith

pub is_std_odd : (a : ℕ) → a % 2 ≡ 0 → is_std (a + 1) ≡ false
unfolding is_std
is_std_odd a h = ground arith

-- The promise of the handle that is made from a promise is that promise, for a coroutine of the
-- library and of the compiler, if the frame around the promise has an even address.
pub coro_promise-coro_frame :
    (s : Std) (laws : StdLaws s) (offset promise : ℕ) (type : HandleType)
    → offset ≤ promise
    → (promise - offset) % 2 ≡ 0
    → coro_promise s offset (coro_frame s offset promise type) ≡ promise
unfolding coro_promise coro_frame
coro_promise-coro_frame s laws offset promise HandleType.of_macoro le even =
    let base = promise - offset in
    rw (flip_even base even, is_std_odd base even, flip_odd base even) (omega arith)
coro_promise-coro_frame s laws offset promise HandleType.of_std le even =
    rw (is_std_even (Std.from_promise s promise) (StdLaws.even laws promise))
      (StdLaws.found laws promise)

-- The coroutine of a handle: `done` and `destroy` go to it, and `std_cast` asks it for its standard
-- handle. The coroutine without effects has a standard handle of its own, but `done` and
-- `destroy` follow its address, as if a frame stood at 42.
pub coro_destroy-address_of :
    (c : Coroutine)
    → IsAligned c
    → (coro_done (address_of c) ≡ called c)
      × (coro_destroy (address_of c) ≡ called c)
      × (std_cast (address_of c) ≡ cast c)
unfolding coro_done coro_destroy std_cast is_std flip address_of IsAligned called cast
coro_destroy-address_of Coroutine.noop h = (refl, refl, refl)
coro_destroy-address_of (Coroutine.native a) h = (ground arith, ground arith, ground arith)
coro_destroy-address_of (Coroutine.standard a) h = (ground arith, ground arith, ground arith)
