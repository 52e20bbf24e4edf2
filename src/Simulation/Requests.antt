-- ===== src/Simulation/Requests.antt =====
-- How `SimulationDispatcher` of src/simulation.rs lets a mailbox wait for a message or a response.
pub mod Results
pub mod Answered
pub mod Late
use rtactor_rs.Base.{ℕ, Bool, true, false, Option, none, some, ◌==◌, if◌then◌else◌}
use rtactor_rs.Actor.Message.{
  Env, Error, no_message, downcast_failed, Addr, Any, Message, new_message, request, ok_response,
  err_response, notification,
}
use rtactor_rs.Actor.World.{World, Result, ok, err}
use rtactor_rs.Actor.Delivery.{receive_request}
use rtactor_rs.Reactive.Instant.{Instant, finite, infinity, add}
use rtactor_rs.Active.Mailbox.{ActiveMailbox, try_get_message, generate_request_id, addr}
use rtactor_rs.Mpsc.Process.{UserCode}
use rtactor_rs.Simulation.{
  SimulationDispatcher, Run, finished, panicked, out_of_fuel, BreakFunc, never, process_until_cond,
}

-- What the closures of this file capture: the mailbox, the three local variables, and the user's
-- closure's own.
pub record Waiting (u : Env) (S : Type 0) : Type 0 where
  pub mailbox : ActiveMailbox u
  pub msg : Message u
  pub msg_received : Bool
  pub error : Error
  pub inner : S

module _ {u : Env} {S : Type 0} (break_func : BreakFunc u S) where
  -- The `match` on `active.try_get_message()`.
  unfoldable pub after_try :
      Waiting u S → Result (Message u) × ActiveMailbox u × World u → Bool × Waiting u S × World u
  after_try f (ok m, b, w) = (true, record f { mailbox = b; msg = m; msg_received = true }, w)
  after_try f (err no_message, b, w) =
      let (breaks, inner, w') = break_func f.inner w in
      (breaks, record f { mailbox = b; inner = inner }, w')
  after_try f (err e, b, w) = (true, record f { mailbox = b; error = e; msg_received = false }, w)

  unfoldable pub wait_closure : BreakFunc u (Waiting u S)
  unfolding after_try
  wait_closure f w = after_try f (try_get_message f.mailbox w)

-- Before anything is received.
unfoldable pub start : {u : Env} {S : Type 0} → ActiveMailbox u → S → Waiting u S
start b inner = record {
  mailbox = b;
  msg = new_message;
  msg_received = false;
  error = no_message;
  inner = inner;
}

unfoldable pub received_message : {u : Env} {S : Type 0} → Waiting u S → Result (Message u)
received_message f = if f.msg_received then ok f.msg else err f.error

module _ {u : Env} {R : Type 0} (downcast : Any u → Option R) where
  typed_or_failed : Option R → Result R
  typed_or_failed (some out) = ok out
  typed_or_failed none = err downcast_failed

  -- The `match` on the message that a request got.
  unfoldable pub response_result : ℕ → Message u → Result R
  unfolding typed_or_failed
  response_result id (ok_response rid d) =
      if rid == id then typed_or_failed (downcast d) else err no_message
  response_result id (err_response rid e d) = if rid == id then err e else err no_message
  response_result id _ = err no_message

  unfoldable pub request_result : {S : Type 0} → ℕ → Waiting u S → Result R
  unfolding response_result
  request_result id f = if f.msg_received then response_result id f.msg else err f.error

-- What a run that returns gives.
unfoldable pub map_run : {A B : Type 0} → (A → B) → Run A → Run B
map_run f (finished a) = finished (f a)
map_run f panicked = panicked
map_run f out_of_fuel = out_of_fuel

module _ {u : Env} {S : Type 0} (code : UserCode u) (break_func : BreakFunc u S) where
  -- `active_wait_message_until_cond`.
  unfoldable pub active_wait_message_until_cond :
      ℕ
      → ActiveMailbox u
      → Instant
      → S
      → SimulationDispatcher u
      → Run (Result (Message u) × ActiveMailbox u × S × SimulationDispatcher u)
  unfolding wait_closure start received_message map_run
  active_wait_message_until_cond fuel b instant inner d =
      map_run (λ t. (received_message t.0, t.0.mailbox, t.0.inner, t.1))
        (process_until_cond code (wait_closure break_func) fuel instant (start b inner) d)

module _ {u : Env} (code : UserCode u) where
  -- `active_wait_message_until`, and `active_wait_message` with the instant at infinity.
  unfoldable pub active_wait_message_until :
      ℕ
      → ActiveMailbox u
      → Instant
      → SimulationDispatcher u
      → Run (Result (Message u) × ActiveMailbox u × Unit {0} × SimulationDispatcher u)
  active_wait_message_until fuel b instant d =
      active_wait_message_until_cond code never fuel b instant tt d

  unfoldable pub active_wait_message :
      ℕ
      → ActiveMailbox u
      → SimulationDispatcher u
      → Run (Result (Message u) × ActiveMailbox u × Unit {0} × SimulationDispatcher u)
  unfolding active_wait_message_until
  active_wait_message fuel b d = active_wait_message_until fuel b infinity d

  -- `active_wait_message_for`.
  unfoldable pub active_wait_message_for :
      ℕ
      → ActiveMailbox u
      → ℕ
      → SimulationDispatcher u
      → Run (Result (Message u) × ActiveMailbox u × Unit {0} × SimulationDispatcher u)
  unfolding active_wait_message_until
  active_wait_message_for fuel b duration d =
      elim (add u.last_instant (finite d.instant_source.simulated_now) duration) [
        | none ↦ panicked
        | some instant ↦ active_wait_message_until fuel b instant d
      ]

-- `TResponse` is the type into which `downcast` takes the data of a response.
module _ {u : Env} {S R : Type 0} (code : UserCode u) (break_func : BreakFunc u S)
    (downcast : Any u → Option R) where
  -- `active_request_until_cond`.
  unfoldable pub active_request_until_cond :
      ℕ
      → ActiveMailbox u
      → Addr
      → Any u
      → Instant
      → S
      → SimulationDispatcher u
      → Run (Result R × ActiveMailbox u × S × SimulationDispatcher u)
  unfolding generate_request_id addr wait_closure start request_result map_run
  active_request_until_cond fuel b dst payload instant inner d =
      let (id, b') = generate_request_id b in
      let d' = record d { world = receive_request dst (addr b') id payload d.world } in
      map_run (λ t. (request_result downcast id t.0, t.0.mailbox, t.0.inner, t.1))
        (process_until_cond code (wait_closure break_func) fuel instant (start b' inner) d')

module _ {u : Env} {R : Type 0} (code : UserCode u) (downcast : Any u → Option R) where
  -- `active_request_until`.
  unfoldable pub active_request_until :
      ℕ
      → ActiveMailbox u
      → Addr
      → Any u
      → Instant
      → SimulationDispatcher u
      → Run (Result R × ActiveMailbox u × Unit {0} × SimulationDispatcher u)
  active_request_until fuel b dst payload instant d =
      active_request_until_cond code never downcast fuel b dst payload instant tt d

  -- `active_request_for`.
  unfoldable pub active_request_for :
      ℕ
      → ActiveMailbox u
      → Addr
      → Any u
      → ℕ
      → SimulationDispatcher u
      → Run (Result R × ActiveMailbox u × Unit {0} × SimulationDispatcher u)
  unfolding active_request_until
  active_request_for fuel b dst payload duration d =
      elim (add u.last_instant (finite d.instant_source.simulated_now) duration) [
        | none ↦ panicked
        | some instant ↦ active_request_until fuel b dst payload instant d
      ]
