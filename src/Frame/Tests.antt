-- ===== src/Frame/Tests.antt =====
-- Handles, transfers and awaits on concrete inputs.
use macoro.Common.{
  ℕ, ◌+◌, ◌/◌, ◌≡◌, refl, true, false, if◌then◌else◌, ◌==◌, some, List, [], ◌∷◌, arith,
}
use macoro.Frame.Handle.{
  HandleType, Std, StdLaws, coro_promise, coro_frame, Coroutine, address_of, coro_done,
  coro_destroy, std_cast, called, cast, IsAligned, coro_promise-coro_frame, coro_destroy-address_of,
}
use macoro.Frame.Resume.{Bodies, resume, Transfers, resume-Transfers}
use macoro.Frame.Awaiters.{
  Kinds, Filled, Action, Frame, empty_frame, run, perform, await_core, destroy_awaiters,
}
use macoro.Frame.Reverse.{Leaves, destroy_awaiters-run}

-- A compiler that keeps the promise of a coroutine at twice its address.
abbrev twice : Std
twice = record { from_promise = λ p. p + p; promise = λ a. a / 2 }

twice_laws : StdLaws twice
twice_laws = record { even = λ p. omega arith; found = λ p. omega arith }

coro_promise-coro_frame_example :
    coro_promise twice 24 (coro_frame twice 24 1024 HandleType.of_macoro) ≡ 1024
coro_promise-coro_frame_example =
    coro_promise-coro_frame twice twice_laws 24 1024 HandleType.of_macoro (omega arith) refl

coro_destroy-address_of_example :
    (coro_done (address_of (Coroutine.native 1000)) ≡ called (Coroutine.native 1000))
    × (coro_destroy (address_of (Coroutine.native 1000)) ≡ called (Coroutine.native 1000))
    × (std_cast (address_of (Coroutine.native 1000)) ≡ cast (Coroutine.native 1000))
unfolding IsAligned
coro_destroy-address_of_example = coro_destroy-address_of (Coroutine.native 1000) refl

-- A frame at 1000 that hands over to one at 2000, which hands over to a coroutine of the compiler at
-- 3000; the program keeps the addresses, the latest first.
abbrev chain : Bodies (List ℕ)
chain = record {
  frame_state = λ w a. a ∷ w;
  frame_next = λ w a. if a == 1000 then 2001 else 3000;
  std_state = λ w a. a ∷ w;
}

chain-Transfers : Transfers chain 2 [] (Coroutine.native 1000) (3000 ∷ 2000 ∷ 1000 ∷ [])
unfolding address_of IsAligned
chain-Transfers = Transfers.resumed_frame {next = Coroutine.native 2000} refl refl (
    Transfers.resumed_frame {next = Coroutine.standard 3000} refl refl (Transfers.resumed_std refl))

resume-Transfers_example :
    resume chain 3 [] (address_of (Coroutine.native 1000)) ≡ some (3000 ∷ 2000 ∷ 1000 ∷ [])
resume-Transfers_example =
    resume-Transfers chain 2 3 [] (3000 ∷ 2000 ∷ 1000 ∷ []) (Coroutine.native 1000) chain-Transfers
      (omega arith)

abbrev values : Kinds
values = record { expr = false; awaitable = true; awaiter = false }

-- An await within another is left by an exception before its awaiter is made.
abbrev nested_awaits : List Action
nested_awaits = Action.await 7 values Filled.all ∷ Action.await 8 values Filled.up_to_expr ∷ []

abbrev nested_frame : Frame
nested_frame = await_core 8 values Filled.up_to_expr (await_core 7 values Filled.all empty_frame)

nested_run : run nested_awaits empty_frame ≡ some nested_frame
unfolding run perform
nested_run = refl

destroy_awaiters-run_example : Leaves (Frame.journal (destroy_awaiters nested_frame)) []
destroy_awaiters-run_example = destroy_awaiters-run nested_awaits nested_frame nested_run
