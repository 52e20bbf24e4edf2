-- ===== src/Lib.antt =====
-- A model of rtactor, a library of actors that exchange messages through bounded queues, with
-- reactive actors that a dispatcher runs, active mailboxes of threads, timers, and a dispatcher in
-- simulated time.
--
-- How the parts of the program interact, and the files that model them:
--
-- Actor, for src/actor.rs: `Message`, `Error` and `Addr` are data types with the constructors of
-- the source; a response is split by its result. `Any` is the content of a box, with a constructor
-- for each type that the library itself puts in one. A sender is the number of a channel in the
-- store `World`, which is passed from operation to operation, so that all copies of an address
-- share the channel. Actor/Channel is `std::sync::mpsc::sync_channel` as far as it is used.
-- Actor/Delivery has `receive_notification`, `receive_request` and the two responses of `Addr`,
-- which call those of the kind of the address: Reactive/Address (src/reactive.rs), Active/Address
-- (src/active.rs) and Async/Address (src/async_actor.rs). A refused request is answered through
-- the address of its source. Actor/Delivery/Inbox defines what waits for an actor, whatever the
-- kind of its address.
--
-- Reactive, for src/reactive.rs: Instant (whole nanoseconds, or infinity), Timer with its order,
-- Scheduler (`TimeoutScheduler`, whose `BTreeMap` is the sorted list of BTree), and Context
-- (`ProcessContext`). BTree is an ordered map with an interface for the order of its keys.
--
-- Active, for src/active.rs: `ActiveMailbox` with its stash of messages that a request has passed
-- over.
--
-- Async, for src/async_actor.rs: `AsyncMailbox`, with the loop of its requests written out on its
-- own.
--
-- Mpsc, for src/mpsc_dispatcher.rs: Registry has the list of behaviours, sorted by actor id, and
-- Process the handling of one message by the dispatcher itself or by a behaviour. Loop is
-- `process` as steps between which other threads change the shared state and the clock goes on.
-- Builder is the construction, and Spawn is `spawn_dispatcher`, whose thread goes through the
-- steps of `process`; Requests puts the loop together with a mailbox of another thread that waits
-- for an answer, and Dropped is the end of a dispatcher, in whose midst other threads may still
-- send. Process/Serving is an abstract system of actors, of which a dispatcher is an
-- implementation, and Process/Serial runs of both; Extending, Process/Sending and Loop/Order say
-- who adds to the queue and who takes from it.
--
-- Dispatcher, for src/dispatcher.rs: `SyncAccessor`, whose requests a mailbox sends to a
-- dispatcher; Stop follows one of them to the end of the dispatcher.
--
-- Simulation, for src/simulation.rs: `SimulationDispatcher` owns an `MpscDispatcher`, a scheduler
-- and a source of simulated time; Setup is its construction, and Requests lets a mailbox wait
-- inside a run. Silent, Queued, Ready and Rounds follow one round of a run, Steps has the looks
-- for a message that a run makes as a relation, Endings the last of them, and Until the rounds up
-- to an instant; Punctual compares the time with the timers, and Requests/Answered follows a
-- request to its answer, Results a result back to it, and Late has a response to an earlier
-- request.
--
-- Profiling, for src/profiled_actor.rs and src/profiling_aggregator.rs: State has the fields of
-- `ProfilingAggregator` and the requests that register actors and observers, Aggregator the taking
-- of a snapshot (`process_next_snapshot_and_notify`, `process_response`, `process_notification`),
-- and Metric the trait `Metric`, its implementations and `try_process_request`. In Aggregator,
-- Snapshot says what a snapshot does in terms of the actors to ask and what they answer, and
-- Round, Rounds and Outcome follow the code through it; Kept follows any messages from a new
-- aggregator, and Waiting those that come while it waits. Hosted puts the aggregator and the
-- actors that it asks onto one dispatcher, where Rounds follows one request and its answer through
-- the queue and Snapshot all of them.
--
-- Macros, for src/rtactor-macros/src/lib.rs: Syntax is the input as the crate `syn` parses it and
-- what the `quote!` blocks are filled with; Derive has one function for each derive macro.
-- Accessors has the structs that `define_sync_accessor`, `define_async_accessor` and
-- `define_sim_sync_accessor` of src/active.rs, src/async_actor.rs and src/simulation.rs define,
-- and the body of a generated method.
--
-- Mocker, for src/reactive_mocker.rs: `ReactiveMocker`, on a mock that is a record of functions;
-- Calls is a test that calls it through an accessor.
--
-- Base has what the other files share; Tests has a sample environment and runs.
--
-- What comes from outside is a parameter: the behaviours, functions and message data of users
-- (`Env` and `UserCode`), and the channels of the crate `async_channel`, for which `AsyncLaws`
-- names what delivery relies on; strings with their order, and `f64` (`Floats`), for whose `min`
-- and `max` `IsExtreme` states what the standard library documents; identifiers and types of Rust
-- (`Syntax`). A mutable argument is returned changed, and a panic is `none` or `panicked`.
--
-- Bounds and fuel: request and timeout ids wrap at 2 ^ 32 and actor ids at 2 ^ 64, as in a release
-- build. Durations end at `duration_max`, the nanoseconds of `Duration::MAX`; the sum of an
-- instant and a duration panics beyond `last_instant` of `Env`, the last point in time that a
-- `std::time::Instant` can stand for, and a subtraction of instants stops at 0. `drain` has fuel
-- for two rounds per queued request and one per other message, which is enough since a refusal is
-- no request. The loops of `process_until_cond` need not end, so they run on fuel, and
-- `out_of_fuel` is a run that goes on; a run with behaviours that do not keep it going needs two
-- units for each timer and three more. `process` need not end either: it goes through a given list
-- of steps, and between two looks for a timeout the context keeps the reading of the clock. A
-- blocking wait takes what it brings from a list of arguments, and a request that still waits at
-- the end of the list is `none`.
--
-- Not modelled: the crate root, which is documentation and re-exports; the mocks that the crate
-- `mockall` generates, and the locks around the data that a mocker shares with its test; the text
-- of panics and of generated code, of which only what it is made of is kept.
pub mod Base
pub mod BTree
pub mod Actor
pub mod Reactive
pub mod Active
pub mod Async
pub mod Mpsc
pub mod Dispatcher
pub mod Simulation
pub mod Profiling
pub mod Macros
pub mod Accessors
pub mod Mocker
pub mod Tests
