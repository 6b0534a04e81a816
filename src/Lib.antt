-- ===== src/Lib.antt =====
-- Verification of macoro, a C++ library of coroutines: its sequencers for ring buffers, the
-- barrier, the cancellation of asynchronous work, results, and the ways to wait for other coroutines.
--
-- The parts of the program and the files that model them:
--
--   macoro/sequence_traits.h, macoro/sequence_range.h: the order of sequence numbers around the wrap
--   (`difference`, `precedes`) and half-open ranges of them. Sequence/Traits.antt and
--   Sequence/Range.antt; the loop over a range is `iterate`.
--
--   macoro/sequence_barrier.h: one thread publishes numbers with `publish`, others wait for a number
--   with `wait_until_published`. Sequence/Wait.antt holds the fields of the wait operations with
--   `await_ready`, `resume` and the end of `await_suspend`; Sequence/Barrier/Defs.antt has the threads
--   as states with a place (`Producer`, `Pc`) and one step for each access to shared memory
--   (`publish_at`, `await_at`). Counts, Local, Wakeup and Told are its invariants, Delivery the result.
--
--   macoro/sequence_spsc.h: the producer's counter, its claims against the consumer's barrier and the
--   number published, in Sequence/Spsc.antt. The waiting is that of sequence_barrier.h.
--
--   macoro/sequence_mpsc.h: the array of published numbers and the counter of many producers, in
--   Sequence/Mpsc/Defs.antt, with Sequence/Slots.antt for the slots of the ring. An operation is
--   modelled by what it does when no other thread stores meanwhile, and a claim by its access to the
--   counter. Sequence/Mpsc/Waiting has one waiting consumer against any number of producers in every
--   interleaving (`publish_at` with `resume_ready_awaiters`, `await_at` with `add_awaiter`), and
--   Sequence/Mpsc/Reacquire.antt how a list of several operations is split.
--
--   macoro/detail/stop_state.h and .cpp: the word with the flags and the two counts of references, in
--   Stop/State.antt, and what it stands for, in Stop/Refs.antt. `request_stop`,
--   `try_register_callback` and `deregister_callback`, with macoro/detail/stop_callback.h, are the
--   steps `notify_at`, `register_at` and `deregister` of Stop/Callback/Defs.antt. The chunks of slots
--   and the search in `add_registration` are functions on one list, in Stop/Chunks.
--
--   macoro/detail/stop_source.cpp and stop_token.cpp: the handles that own references, in
--   Stop/Handles; their calls go through the functions of Stop/State.antt. A stop_callback that has
--   registered (`register`) counts as one more token there.
--
--   macoro/barrier.h: the countdown that resumes one coroutine, in Barrier/Defs.antt: `decrement_at`
--   for the threads that hold the count, `suspend_at` for `await_suspend`. Nobody adds to the count.
--
--   macoro/result.h: the class that holds a value or an error, its specialization for void and its use
--   in a coroutine, in Result: Accessors, NoValue, Void and Coroutine. The recursion of the const
--   accessors is on fuel.
--
--   macoro/manual_reset_event.h: the event and its list of waiting operations, in Event/Defs.antt:
--   `set_event` and `resume_next` for `set`, `reset_event`, and `await_at` for `await_suspend`.
--
--   macoro/detail/when_all_awaitable.h and when_all_task.h: the count of tasks, in WhenAll/Defs.antt:
--   `start_at` for `try_await`, `report_at` for `notify_awaitable_completed`.
--
--   macoro/async_scope.h, macoro/detail/scoped_task_promise.h: Scope/Promise.antt has one task with the
--   thread that runs it (`complete`, `runner_at`) and the owner of its handle (`owner_at`),
--   Scope/Defs.antt the scope with its list of exceptions, its barrier and its join (`add`, `apply`,
--   `join_at`), with the accesses of its barrier (macoro/barrier.h): `drop_count` and
--   `test_continuation` for `decrement`, `join_at` for `await_suspend`.
--
--   macoro/channel.h over macoro/sequence_mpsc.h: the slots, the senders (`claim`, `send_at`) and the
--   receiver (`front`, `pop_resume`, `move_out`, `release_at`), in Channel/Defs.antt. Numbers are
--   counted without a wrap there, and only the slot is computed from the word. What the waits on the
--   sequencer promise guards the steps: a sender goes on when the number a capacity before its own is
--   handed back, the receiver when all numbers up to one behind its front are published.
--
--   macoro/thread_pool.h: the queue, the heap of delayed operations and the threads, in
--   ThreadPool/Defs.antt; a step is what happens under the mutex once (`post`, `try_dispatch`,
--   `post_after`, `cancel_delay_op`, `run_at` for the loop of `run`). The heap algorithms of the
--   standard library are the parameter `HeapOps`, and the clock may show any time.
--
--   macoro/task.h: the eager task against the coroutine that awaits it, in EagerTask/Defs.antt:
--   `finish_at` for the final suspension, `awaiter_at` for the awaiter.
--
--   macoro/detail/win32_overlapped_operation.h: the cancellable operation with its completion and its
--   cancellation, in Overlapped/Defs.antt: `await_at` for `await_ready`, `await_suspend` and
--   `await_resume`, `complete_at` and `cancel_at` for the two callbacks. What the system does is open.
--
--   macoro/coroutine_handle.h and coro_frame.h, with macoro/macros.h: the addresses of handles and what
--   calls on a handle go to, in Frame/Handle.antt, in the configuration with C++20; the loop of `resume`
--   in Frame/Resume.antt, over a parameter for what coroutines do; the awaiters on a frame
--   (`make_await_context`, `get_awaiter`, `destroy_awaiter`, `destroy_awaiters`) and the objects of one
--   await (`await_core`), in Frame/Awaiters.antt.
--
-- Conventions. `std::size_t` has 64 bits: a word is a native number and every operation on it writes
-- its remainder by 2^64. An address is a number, and the fields at addresses are functions of it. A
-- linked list is a list. Atomic operations are sequentially consistent, and a compare-exchange that
-- fails for no reason is no step. A coroutine that is resumed goes on as a thread of its own.
-- `seq & (size - 1)` for a size that is a power of two is the remainder by the size; what is used of
-- the power of two is that it divides 2^64.
--
-- Fuel. Loops that are not over a list take a number of rounds and return none when it runs out:
-- `iterate`, `scan`, `fill_from`, and `resume` of a handle. How many rounds are enough stands in the
-- theorems on them. The search of a chunk, `find_free`, takes as many rounds as the chunk has entries. The
-- const accessors of a result take calls as fuel: on a result with a value no number is enough.
--
-- Limits. All numbers that a barrier deals with lie in one span of 2^63, which its difference type
-- needs as well. A stop state has fewer than 2^31 references of each kind, the width of its fields. A
-- registration owns its slot: in the interleavings the search of `add_registration` is left out, and
-- modelled apart in Stop/Chunks, with no other thread; the choice of a list by the thread is left out.
-- A callback does not itself destroy other callbacks that wait. A consumer that waits on a multi-producer
-- sequencer is the only one there.
--
-- Not modelled: lazy tasks, which run one after another without a race; the scope of when_all, the
-- creation and the join of threads, and timeouts; the macros around the body of a coroutine and the
-- adapter for standard handles, tracing, the calls of the Windows interface, build scripts and tests.
pub mod Common
pub mod Sequence
pub mod Stop
pub mod Barrier
pub mod Result
pub mod Event
pub mod WhenAll
pub mod Scope
pub mod Channel
pub mod ThreadPool
pub mod EagerTask
pub mod Overlapped
pub mod Frame
