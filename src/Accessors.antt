-- ===== src/Accessors.antt =====
-- The accessors that `define_sync_accessor` of src/active.rs, `define_async_accessor` of
-- src/async_actor.rs and `define_sim_sync_accessor` of src/simulation.rs define, and the body of the methods
-- that the macros of src/rtactor-macros/src/lib.rs give them.
pub mod Calls
use rtactor_rs.Base.{ℕ, Option, none, some, List}
use rtactor_rs.Actor.Message.{Env, Error, downcast_failed, Addr, Any}
use rtactor_rs.Actor.World.{World, Result, ok, err}
use rtactor_rs.Active.Mailbox.{ActiveMailbox, RecvTimeout}
use rtactor_rs.Active.Mailbox as Active
use rtactor_rs.Async.Mailbox.{AsyncMailbox}
use rtactor_rs.Async.Mailbox as Async
use rtactor_rs.Mpsc.Process.{UserCode}
use rtactor_rs.Simulation.{SimulationDispatcher, Run}
use rtactor_rs.Simulation.Requests.{map_run, active_request_for}

-- The struct of an accessor, by its kind of mailbox. The dispatcher of a simulation is borrowed, so
-- an argument of the functions.
pub record Accessor (M : Type 0) : Type 0 where
  pub mailbox : M
  pub target_addr : Addr

-- The `match` of a generated method on what `request_for` returns: `matches` is the pattern
-- `Response::Variant(..)` with what it binds.
unfoldable pub method_result : {R T : Type 0} → (R → Option T) → Result R → Result T
method_result matches (err e) = err e
method_result matches (ok r) = elim (matches r) [ some t ↦ ok t | none ↦ err downcast_failed ]

module _ {u : Env} where
  -- `new`, with a queue for one message.
  unfoldable pub new_sync : Addr → World u → Accessor (ActiveMailbox u) × World u
  new_sync target w =
      let (b, w') = Active.new 1 w in (record { mailbox = b; target_addr = target }, w')

  unfoldable pub new_async : Addr → World u → Option (Accessor (AsyncMailbox u) × World u)
  new_async target w = elim (Async.new 1 w) [
    | none ↦ none
    | some (b, w') ↦ some (record { mailbox = b; target_addr = target }, w')
  ]

  -- `send_notification`.
  unfoldable pub sync_send_notification :
      Accessor (ActiveMailbox u) → Any u → World u → World u × Result (Unit {0})
  sync_send_notification a d w = Active.send_notification a.target_addr d w

  -- The same of an accessor in a simulation.
  unfoldable pub new_sim : Addr → World u → Accessor (ActiveMailbox u) × World u
  new_sim target w =
      let (b, w') = Active.new 1 w in (record { mailbox = b; target_addr = target }, w')

  unfoldable pub sim_send_notification :
      Accessor (ActiveMailbox u) → Any u → World u → World u × Result (Unit {0})
  sim_send_notification a d w = Active.send_notification a.target_addr d w

  unfoldable pub async_send_notification :
      Accessor (AsyncMailbox u) → Any u → World u → World u × Result (Unit {0})
  async_send_notification a d w = Async.send_notification a.target_addr d w

module _ {u : Env} {R T : Type 0} (downcast : Any u → Option R) (matches : R → Option T) where
  -- What the call leaves of the accessor.
  unfoldable pub after_request :
      {M : Type 0}
      → Addr
      → Option (Result R × M × List (RecvTimeout u))
      → Option (Result T × Accessor M × List (RecvTimeout u))
  unfolding method_result
  after_request target none = none
  after_request target (some (r, b, rest)) =
      some (method_result matches r, record { mailbox = b; target_addr = target }, rest)

  -- `request_for` of each accessor, with the generated method that calls it.
  unfoldable pub sync_call :
      Accessor (ActiveMailbox u)
      → Any u
      → World u
      → List (RecvTimeout u)
      → World u × Option (Result T × Accessor (ActiveMailbox u) × List (RecvTimeout u))
  unfolding after_request
  sync_call a d w os =
      let (w', r) = Active.request_for downcast a.mailbox a.target_addr d w os in
      (w', after_request a.target_addr r)

  unfoldable pub async_call :
      Accessor (AsyncMailbox u)
      → Any u
      → World u
      → List (RecvTimeout u)
      → World u × Option (Result T × Accessor (AsyncMailbox u) × List (RecvTimeout u))
  unfolding after_request
  async_call a d w os =
      let (w', r) = Async.request_for downcast a.mailbox a.target_addr d w os in
      (w', after_request a.target_addr r)

  unfoldable pub sim_call :
      UserCode u
      → ℕ
      → Accessor (ActiveMailbox u)
      → Any u
      → ℕ
      → SimulationDispatcher u
      → Run (Result T × Accessor (ActiveMailbox u) × SimulationDispatcher u)
  unfolding method_result
  sim_call code fuel a d timeout disp =
      map_run
        (λ t.
          (method_result matches t.0, record { mailbox = t.1; target_addr = a.target_addr }, t.3))
        (active_request_for code downcast fuel a.mailbox a.target_addr d timeout disp)
