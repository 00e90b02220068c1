-- ===== src/Lib.antt =====
-- Verification library of the cancel-safe-futures crate: adapters for futures, streams and sinks that
-- do not lose work when a future is dropped, and a mutex that records panics and cancellations.
--
-- The parts, each with the source that it models:
-- - Poison (src/sync/poison.rs): the flag byte (Flag), the errors made from it (Error) and the texts
--   that they print (Debug). The atomic byte is a number, and each access to it is one step. Reports
--   has sequences of calls of done.
-- - RobustMutex (src/sync/mutex.rs): Tokio states what is used of tokio::sync::Mutex; Mutex has the
--   lock calls, the queries and Debug; Permit has ActionPermit and perform; Perform has
--   perform_async_boxed and perform_async_boxed_local as a state machine of polls and drops. System
--   interleaves any number of tasks in steps that are finer than a call: an action, the drop of the
--   poisoner and the drop of the guard are separate steps. Safety holds the invariant of the system,
--   Safety/Owner and Safety/Unlocking who holds the lock and how it becomes free.
--   Client is one owner of a mutex and the cell with two marks that stands for it; Refinement, Calls
--   and Session relate the two, from new to into_inner.
-- - Stream (src/stream/collect_then_try.rs, src/stream/for_each_concurrent_then_try.rs): the states
--   and the loops of the two adapters. Ext has the methods of TryStreamExt (src/stream/try_stream.rs),
--   ForEach/Rule the rule for the loop by which ForEach/First, ForEach/Wake, ForEach/Stalls and
--   ForEach/Delay reason, and ForEach/Run and Collect/Run the adapters from the first poll to the last;
--   ForEach/Woken has an executor that polls a task again only when it was woken, ForEach/Hangs how it
--   ends.
-- - Future has MaybeDone as both joins use it, and the round over a list of cells that specifies them.
--   Promise has futures that finish within a number of polls, Executor a task that polls a future until
--   it is ready, Woken one that polls it again only when it was woken, Waking the wake-ups that a round
--   leaves arranged. Noted pairs a result with what is read off the poll that gave it.
-- - JoinAll (src/future/join_all_then_try.rs): Small is the list of cells, Kinds has the choice between
--   the small and the big kind, which is the Collect adapter over FuturesOrdered. Run and Woken await
--   it, Finished has what has become of its futures when it is ready.
-- - JoinMacro (src/macros/join_then_try.rs): the future that the macro builds, with its rotation. Macro
--   has the arms of the macro, Run and Woken await what it expands to. Fair has the branch that a poll
--   begins at, Finished what has become of the branches when a poll is ready.
-- - Sink (src/sink): Reserve, FlushReserve and Permit in Defs, the methods of SinkExt in Ext; Client is
--   a client that may drop each of them at any time, over a sink that keeps a trace of its calls and
--   may panic; Run awaits a FlushReserve.
-- - CoopCancel (src/coop_cancel.rs): cancelers, the receiver and waiters, over the channels of tokio.
--   System lets them act in any order; Safety, Held and Told have what each of its states keeps.
-- - BuildScript (build.rs, no_atomic_cas.rs): the instructions to cargo that main prints, and what
--   they mean for the kind of a join.
-- - Fmt states what is used of core::fmt: each Debug that the crate writes out calls its builders
--   (Debug, in the tree of a part, and debug_mutex in RobustMutex/Mutex).
-- - Support (src/support.rs) has assert_future.
-- - Base has Result, Poll, unwinding (Outcome), Boolean tests and lists on the native numbers.
--
-- Calls are functions from a state to an answer and a state. What is shared between calls without
-- being part of a state of this crate (timers, wakers, the inside of futures) is a world W, an
-- argument and a result of each poll. A panic is the answer unwound; the state after it is what the
-- drops leave. thread::panicking() is an argument wherever the code asks for it.
--
-- Code outside of the crate is a parameter, a record of operations and of laws that its documentation
-- states: Formatter (Fmt), TokioMutex, MaybeDone, FuturesUnordered, FuturesOrdered, FlushFuture, the
-- two channels, and the caller's streams, sinks, collections and actions. The examples instantiate each
-- by a concrete one.
--
-- Fuel: Collect.poll is meant to have more fuel than items to come, since each round but the last takes
-- one; ForEach.poll more than twice the items to come plus the running futures, since a round that goes
-- on takes an item or finishes a future; the loop of the macro has two rounds, of which the second
-- leaves it after the branches that the first skipped. The fuel of Executor.block_on, and of
-- Woken.block_on_woken, is the number of polls, and ForEach/Run has such a fuel beside the one of each
-- poll; the theorems on awaited futures say how many polls suffice. All else is structural recursion.
--
-- Not modelled: derived Debugs, panics of destructors and of Default, the tuple of the macro's branches
-- (they are a list, and their outputs have one type), statically_unreachable of src/support.rs (a check
-- of the linker, in a branch that has no values), and memory orderings of the atomic.
pub mod Base
pub mod Support
pub mod Fmt
pub mod Poison
pub mod RobustMutex
pub mod Stream
pub mod Future
pub mod JoinAll
pub mod Sink
pub mod CoopCancel
pub mod BuildScript
pub mod JoinMacro
