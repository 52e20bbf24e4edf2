-- ===== src/Simulation.antt =====
-- `SimulationDispatcher` of src/simulation.rs: one thread that processes messages in simulated time.
pub mod Setup
pub mod Time
pub mod Idle
pub mod Silent
pub mod Ready
pub mod Rounds
pub mod Queued
pub mod Until
pub mod Punctual
pub mod Steps
pub mod Endings
pub mod Requests
use Prim.Native.Nat.{Ordering}
use mathlib.Core.Option
use rtactor_rs.Base.{
  ℕ, zero, suc, ◌+◌, ◌-◌, Bool, true, false, not, ◌&&◌, ◌||◌, Option, none, some, ◌==◌,
  if◌then◌else◌,
}
use rtactor_rs.Actor.Message.{Env, Addr}
use rtactor_rs.Actor.World.{World}
use rtactor_rs.Reactive.Instant.{
  Instant, finite, infinity, add, plus, at_inf, instant_eq, partial_cmp, duration_max,
}
use rtactor_rs.Reactive.Scheduler.{TimeoutScheduler}
use rtactor_rs.Reactive.Context.{
  Context, ControlFlow, continue, break, try_send_next_pending_timeout,
}
use rtactor_rs.Reactive.Context as Context
use rtactor_rs.Mpsc.Registry.{MpscDispatcher}
use rtactor_rs.Mpsc.Process.{UserCode, Running, try_process_message}

-- `SimulatedInstantSource`; the times are whole nanoseconds.
pub record SimulatedInstantSource : Type 0 where
  pub elapsed_duration : ℕ
  pub simulated_now : ℕ

-- `SimulationDispatcher`, with the shared state.
pub record SimulationDispatcher (u : Env) : Type 0 where
  pub disp : MpscDispatcher u
  pub timeout_scheduler : TimeoutScheduler
  pub instant_source : SimulatedInstantSource
  pub request_id_counter_backup : ℕ
  pub world : World u

-- `advance_for`.
unfoldable pub advance_for : SimulatedInstantSource → ℕ → SimulatedInstantSource
advance_for s d = record {
  elapsed_duration = s.elapsed_duration + d;
  simulated_now = s.simulated_now + d;
}

-- `advance_until`; the subtraction of instants stops at 0, and infinity panics.
unfoldable pub advance_until : SimulatedInstantSource → Instant → Option SimulatedInstantSource
advance_until s (finite i) =
    some
      (record { elapsed_duration = s.elapsed_duration + (i - s.simulated_now); simulated_now = i })
advance_until s infinity = none

-- `a > b` and `a < b` on instants.
unfoldable pub is_after : Instant → Instant → Bool
unfolding partial_cmp
is_after a b = elim (partial_cmp a b) [ some Ordering.gt ↦ true | _ ↦ false ]

unfoldable pub is_before : Instant → Instant → Bool
unfolding partial_cmp
is_before a b = elim (partial_cmp a b) [ some Ordering.lt ↦ true | _ ↦ false ]

-- How a run ends: it returns, panics, or is still running when its fuel is used up.
pub data Run (A : Type 0) : Type 0 where
  finished : A → Run A
  panicked : Run A
  out_of_fuel : Run A

-- A closure that may break the processing, over what it captures and the shared state.
abbrev pub BreakFunc : Env → Type 0 → Type 0
BreakFunc u S = S → World u → Bool × S × World u

-- `now > instant || (!message_processed && now == instant)`.
unfoldable pub is_over : Instant → Instant → Bool → Bool
unfolding is_after instant_eq
is_over now instant processed = is_after now instant || (not processed && instant_eq now instant)

-- The source reads as the context's clock.
unfoldable pub context_of : {u : Env} → SimulationDispatcher u → Context
context_of d =
    Context.new d.disp.tx d.request_id_counter_backup (finite d.instant_source.simulated_now)
      d.timeout_scheduler

-- The time moves to the next timeout before the instant, or else to the instant, if that is finite.
-- The duration is that from the time to the next deadline, so the sum is this deadline and does not
-- overflow.
unfoldable pub advance : SimulatedInstantSource → Instant → ℕ → Option SimulatedInstantSource
unfolding advance_for advance_until is_before at_inf plus
advance s instant duration =
    if not (duration == duration_max) && is_before (plus (finite s.simulated_now) duration) instant
    then some (advance_for s duration)
    else if at_inf instant
    then some s
    else advance_until s instant

-- What a round of the innermost loop gives: whether to stop, what the closure captured, the state.
pub record Turn (u : Env) (S : Type 0) : Type 0 where
  pub processed : Bool
  pub stop : Bool
  pub captured : S
  pub running : Running u

module _ {u : Env} where
  -- The dispatcher after its context was dropped.
  unfoldable pub leave : SimulationDispatcher u → Running u → SimulationDispatcher u
  leave d r = record d {
    disp = r.dispatcher;
    timeout_scheduler = r.context.scheduler;
    request_id_counter_backup = r.context.request_id_counter;
    world = r.world;
  }

  -- What the middle loop does with the answer of `try_send_next_pending_timeout`.
  unfoldable pub after_timeout :
      Instant
      → SimulationDispatcher u
      → Running u
      → Option (ControlFlow ℕ × Context × World u)
      → Option (SimulationDispatcher u)
  unfolding leave
  after_timeout instant d r none = none
  after_timeout instant d r (some (continue, c, w)) =
      some (leave d (record r { context = c; world = w }))
  after_timeout instant d r (some (break duration, c, w)) =
      Option.map
        (λ s. record (leave d (record r { context = c; world = w })) { instant_source = s })
        (advance d.instant_source instant duration)

  -- The `match` on `context.try_send_next_pending_timeout()`; its clock is the instant source.
  unfoldable pub next_timeout :
      Instant → SimulationDispatcher u → Running u → Option (SimulationDispatcher u)
  unfolding after_timeout
  next_timeout instant d r = after_timeout instant d r (
      try_send_next_pending_timeout
        (record (r.context) { clock = finite d.instant_source.simulated_now }) r.world)

-- How a round of the middle loop ends: the run ends, or another round follows.
pub data Round (u : Env) (S : Type 0) : Type 0 where
  ends : Run (S × SimulationDispatcher u) → Round u S
  goes_on : S → SimulationDispatcher u → Round u S

unfoldable pub next_or_panic :
    {u : Env} {S : Type 0} → S → Option (SimulationDispatcher u) → Round u S
next_or_panic f none = ends panicked
next_or_panic f (some d) = goes_on f d

module _ {u : Env} {S : Type 0} where
  -- The rest of a round of the middle loop, after the queued messages.
  unfoldable pub after_queued : Instant → SimulationDispatcher u → Run (Turn u S) → Round u S
  unfolding leave next_or_panic
  after_queued instant d panicked = ends panicked
  after_queued instant d out_of_fuel = ends out_of_fuel
  after_queued instant d (finished t) = elim t.stop [
    | true ↦ ends (finished (t.captured, leave d t.running))
    | false ↦ next_or_panic t.captured (next_timeout instant d t.running)
  ]

module _ {u : Env} {S : Type 0} (break_func : BreakFunc u S) where
  -- The closure and the time, after `try_process_message`.
  unfoldable pub after_message :
      Instant → Instant → S → Option ((Bool × Bool) × Running u) → Option (Turn u S)
  unfolding is_over
  after_message now instant f none = none
  after_message now instant f (some ((processed, stop), r)) =
      let (breaks, f', w) = break_func f r.world in
      some (record {
        processed = processed;
        stop = if breaks then true else (if is_over now instant processed then true else stop);
        captured = f';
        running = record r { world = w };
      })

module _ {u : Env} {S : Type 0} (code : UserCode u) (break_func : BreakFunc u S) where
  -- One round of the innermost loop: one message, then the closure and the time.
  unfoldable pub process_one : Instant → Instant → S → Running u → Option (Turn u S)
  unfolding after_message
  process_one now instant f r = after_message break_func now instant f (try_process_message code r)

  -- The innermost loop: all queued messages.
  unfoldable pub process_queued : ℕ → Instant → Instant → S → Running u → Run (Turn u S)
  process_queued zero now instant f r = out_of_fuel
  process_queued (suc fuel) now instant f r = elim (process_one now instant f r) [
    | none ↦ panicked
    | some t ↦ elim (t.stop || not t.processed) [
      | true ↦ finished t
      | false ↦ process_queued fuel now instant t.captured t.running
    ]
  ]

  -- A round of the middle loop, in which at most so many messages are taken from the queue.
  unfoldable pub until_round : ℕ → Instant → S → SimulationDispatcher u → Round u S
  unfolding context_of after_queued
  until_round fuel instant f d = after_queued instant d (
      process_queued fuel (finite d.instant_source.simulated_now) instant f
        (record { dispatcher = d.disp; context = context_of d; world = d.world }))

  -- `process_until_cond`: its middle loop ends only to stop, and so does the outer one.
  unfoldable pub process_until_cond :
      ℕ → Instant → S → SimulationDispatcher u → Run (S × SimulationDispatcher u)
  process_until_cond zero instant f d = out_of_fuel
  process_until_cond (suc fuel) instant f d = elim (until_round fuel instant f d) [
    | ends r ↦ r
    | goes_on f' d' ↦ process_until_cond fuel instant f' d'
  ]

-- The closure that never breaks.
abbrev pub never : {u : Env} → BreakFunc u (Unit {0})
never f w = (false, f, w)

module _ {u : Env} (code : UserCode u) where
  -- `process_until`, `process_for`, and `process` with the instant at infinity.
  unfoldable pub process_until :
      ℕ → Instant → SimulationDispatcher u → Run (Unit {0} × SimulationDispatcher u)
  process_until fuel instant d = process_until_cond code never fuel instant tt d

  unfoldable pub process_for :
      ℕ → ℕ → SimulationDispatcher u → Run (Unit {0} × SimulationDispatcher u)
  unfolding process_until
  process_for fuel duration d =
      elim (add u.last_instant (finite d.instant_source.simulated_now) duration) [
        | none ↦ panicked
        | some instant ↦ process_until fuel instant d
      ]
