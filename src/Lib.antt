-- ===== src/Lib.antt =====
-- bolt-load: the part of the downloader that decides which bytes of a file are fetched by whom, and
-- that hands the fetched bytes to the disk.
--
-- A task downloads a file of known length with several runners. The chunk planner divides the file
-- into chunks, gives them to runners, counts what each has downloaded, and returns what a failed or
-- shortened runner leaves behind. The bytes that the planner accepts go to the pending writer, which
-- keeps a bounded number of writes in flight and reports each write once it is done. The strategies
-- say how many runners there may be and which chunk is split, from the outcomes of the runners and the
-- speed; the failure policy says when the task gives up.
--
-- Prelude: Boolean tests, results, lists over the native numbers, and unsigned 64-bit arithmetic with
--   its wrap-around (Prelude/Word).
-- OrdMap: a map with keys in ascending order, for `BTreeMap` and `HashMap`.
-- Planner: crates/bolt-load/src/task/instance/concurrent_task/chunk_planner.rs. Planner/Chunk has the
--   chunk and its status, Planner/State the planner and the operations that change it (allocate_chunk
--   and its variants, update_progress, mark_running, mark_finished, mark_failed, split_chunk,
--   resize_runner_state), Planner/Queries those that read it, Planner/Guard `PlannerGuard`. An operation
--   takes the planner and returns the new one with the result, also on an error. Planner/Chain and
--   Planner/Valid define when a planner is well formed, Planner/History calls and sequences of calls.
-- Writer: crates/bolt-load/src/task/instance/concurrent_task/file_writer/pending_writer.rs and command.rs
--   beside it. Writer/State has the writer, its operations and the completion channel; the answers of
--   the runtime (does it take a task) and of the backend's queue (queued, full, closed) are arguments,
--   and the completion of a write by a worker is an event that may end any outstanding write with
--   any result. Writer/Trace defines sequences of events, and Writer/Flush the loop of `flush`, which
--   recurs on the completions that come while it waits.
--
-- Strategy: crates/bolt-load/src/task/instance/concurrent_task/strategy. Strategy/Sampler is
--   runner_outcome_sampler.rs, Strategy/Concurrency concurrency_control_strategy.rs, Strategy/Dynamic
--   dynamic_strategy.rs, Strategy/Control `StrategyControl` of mod.rs, which asks both and the planner,
--   and Strategy/Policy failure_policy.rs. `f64` is a parameter without laws (Strategy/Float); the
--   clock's readings are arguments. The loop of the dynamic strategy runs on fuel 2, since
--   it leaves the quick start at most once. Strategy/Streak describes the failure policy by what has happened so far.
-- Adapter: the error types of crates/bolt-load-core/src/adapter and of crates/bolt-load/src/runner
--   (Adapter/Error), and `Content-Range`: its parsing (Adapter/ContentRange) and its display
--   (Adapter/Display), with what they use of `str` (Adapter/Text). Printing a `u64` has fuel 20, the
--   digits of the largest.
-- Http: crates/bolt-load-http/src: status.rs (Http/Status), range.rs with the codings of coding.rs
--   (Http/Range, Http/Body), header/retry_after.rs (Http/RetryAfter), where the parser of dates is a
--   parameter. Http/Limit defines what the reader of a limited body gets.
-- Sync: crates/bolt-load-sync/src/slot.rs. The operations of the receiver are atomic steps, between which
--   the sender may send any values and be dropped (Sync/Slot).
--
-- Ids: crates/bolt-load/src/task/instance/id.rs. Ids/Generator has the generator, whose bit vector is a
--   list of bits; Ids/Refine defines calls, and the set of ids that they are measured by.
-- Manager: crates/bolt-load/src/task/instance/concurrent_task/runner_manager.rs with lifecycle.rs, data.rs and
--   stream.rs below it. Manager/Types has the state, Manager/State spawning (allocate_runner, spawn_runner_with_chunk),
--   release_runner and resize_runner; Manager/Lifecycle what is done with a runner's lifecycle events,
--   Manager/Data with its data frames, and `poll_tick`, which polls both. What a group of streams returns
--   is an argument of a poll, and so is what spawning a runner returns; a receiver is a number. The manager
--   uses the planner, its guard, the generator of ids, the sampler, and the slot for a runner's limits.
--   Manager/Consistent says how these fit together.
--
-- Runner: crates/bolt-load/src/runner: mod.rs, control.rs, run_loop.rs and its children. Runner/State has the runner,
--   the phases of its loop and its size limit (apply_control, validate_size), Runner/Emit the push of a
--   frame (emit.rs), Runner/Handle what is done with a step (handle_step, stream.rs), Runner/Poll the polls
--   of a phase's sources in their order, and rounds of poll and step. What the sources say is an argument of a
--   poll; the channels are the bytes and the events that were pushed. `buffer_item` calls itself through
--   `resume_item` only after a flush of an empty buffer, which does not happen when a buffer is full, so
--   fuel 1 is enough. Runner/Valid says what holds in each phase, Runner/Inputs which input the phase polls.
--   The ring buffers of the channels (async-ringbuf) are parameters: a poll's reading says whether a slot is
--   vacant and whether it takes the item. `IsKept` of Runner/Inputs is what they promise their only producer.
--
-- Runner ids are numbers. A panic (`expect`, an underflow that the source rules out by `expect`) is
-- `none`. `debug_assert!` and tracing do nothing. Every other loop is structural
-- recursion on the list it goes through.
--
-- Instants, sums of instants and the capacity of the writer have no upper bound, so the panics of a deadline past
-- the platform's last instant and of a completion channel longer than `usize::MAX` are left out.
--
-- Not modelled: the download loop that drives the manager and the writer; how a runner is built, and its
-- `run_after_started`; the throughput sampler; the file backends, the runtimes and the
-- HTTP clients, which are I/O or third-party code; the parsers of `Content-Disposition` and of its extended values.
pub mod Prelude
pub mod OrdMap
pub mod Planner
pub mod Writer
pub mod Adapter
pub mod Strategy
pub mod Http
pub mod Ids
pub mod Sync
pub mod Manager
pub mod Runner
