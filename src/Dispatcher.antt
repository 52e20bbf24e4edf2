-- ===== src/Dispatcher.antt =====
-- `SyncAccessor` of src/dispatcher.rs: how a thread asks a dispatcher to do something. The waits for
-- responses are those of its mailbox.
pub mod Requests
pub mod Stop
use mathlib.Core.Option
use rtactor_rs.Base.{ℕ, Bool, true, false, Option, none, some, List, if◌then◌else◌}
use rtactor_rs.Actor.Message.{
  Env, Error, actor_disappeared, downcast_failed, Addr, is_valid, Any, request_data, response_data,
  unit_result, boxed, ExecutableFn, user_fn, replace_fn, register_reactive, stop_dispatcher,
  execute_fn, DispatcherResponse, registered,
}
use rtactor_rs.Actor.World.{World, Result, ok, err}
use rtactor_rs.Active.Mailbox.{ActiveMailbox, RecvTimeout, request_for}
use rtactor_rs.Active.Mailbox as Active

pub record SyncAccessor (u : Env) : Type 0 where
  pub mailbox : ActiveMailbox u
  pub disp_addr : Addr

-- The state after a request was sent; then what its wait gives, with the accessor and what has not
-- been received, or `none` while it still waits.
abbrev pub Attempt : Env → Type 0 → Type 0
Attempt u R = World u × Option (R × SyncAccessor u × List (RecvTimeout u))

-- What a function returns, unless it panics.
pub data Returned (R : Type 0) : Type 0 where
  returns : R → Returned R
  panics : Returned R

-- What `replace_reactive_for` makes of the result of its function.
unfoldable pub replaced_result : Returned (Result Bool) → Returned (Result (Unit {0}))
replaced_result (returns (ok true)) = returns (ok tt)
replaced_result (returns (ok false)) = returns (err actor_disappeared)
replaced_result (returns (err e)) = returns (err e)
replaced_result panics = panics

-- The matches of the two functions that panic on a failure.
unfoldable pub unwrapped_addr : Result Addr → Returned Addr
unwrapped_addr (ok a) = if is_valid a then returns a else panics
unwrapped_addr (err e) = panics

unfoldable pub unwrapped : Returned (Result (Unit {0})) → Returned (Unit {0})
unwrapped (returns (ok t)) = returns tt
unwrapped _ = panics

module _ {u : Env} where
  -- `SyncAccessor::new`.
  unfoldable pub new : Addr → World u → SyncAccessor u × World u
  new a w = let (b, w') = Active.new 1 w in (record { mailbox = b; disp_addr = a }, w')

  -- `from_existing_dispatcher`, which drops the handle of the thread, and `dispatcher_addr`.
  unfoldable pub from_existing_dispatcher : Addr → World u → SyncAccessor u × World u
  from_existing_dispatcher a w =
      let (b, w') = Active.new 1 w in (record { mailbox = b; disp_addr = a }, w')

  unfoldable pub dispatcher_addr : SyncAccessor u → Addr
  dispatcher_addr a = a.disp_addr

  -- `request_for` of the accessor's mailbox to the dispatcher, and what is made of its result.
  unfoldable pub ask :
      {Q R : Type 0}
      → (Any u → Option Q)
      → (Result Q → R)
      → SyncAccessor u
      → Any u
      → World u
      → List (RecvTimeout u)
      → Attempt u R
  ask downcast f a d w os =
      let (w', o) = request_for downcast a.mailbox a.disp_addr d w os in
      (w', Option.map (λ t. (f t.0, record a { mailbox = t.1 }, t.2)) o)

  -- What a caller makes of an attempt's result.
  unfoldable pub then_give : {R R' : Type 0} → (R → R') → Attempt u R → Attempt u R'
  then_give f (w, o) = (w, Option.map (λ t. (f t.0, t.1, t.2)) o)

  -- The awaited types `Response` and `Box<dyn Any + Send>`.
  unfoldable pub as_response : Any u → Option (DispatcherResponse u)
  as_response (response_data r) = some r
  as_response _ = none

  unfoldable pub as_box : Any u → Option (Any u)
  as_box (boxed d) = some d
  as_box _ = none

  unfoldable pub registered_addr : Result (DispatcherResponse u) → Result Addr
  registered_addr (ok (registered a)) = ok a
  registered_addr (ok _) = err downcast_failed
  registered_addr (err e) = err e

  -- `register_reactive_for`.
  unfoldable pub register_reactive_for :
      SyncAccessor u → u.Behavior → World u → List (RecvTimeout u) → Attempt u (Result Addr)
  unfolding ask as_response registered_addr
  register_reactive_for a b =
      ask as_response registered_addr a (request_data (register_reactive (some b)))

  module _ {T : Type 0} (downcast : Any u → Option T) where
    typed_result : Option T → Result T
    typed_result (some t) = ok t
    typed_result none = err downcast_failed

    -- The `match` on the result of `execute_fn`, with its `todo!()`.
    unfoldable pub executed_result : Result (Any u) → Returned (Result T)
    unfolding typed_result
    executed_result (ok d) = returns (typed_result (downcast d))
    executed_result (err e) = panics

    -- `execute_fn`, where `downcast` takes the data to `T`.
    unfoldable pub run_fn :
        SyncAccessor u
        → ExecutableFn u
        → World u
        → List (RecvTimeout u)
        → Attempt u (Returned (Result T))
    unfolding ask as_box executed_result
    run_fn a f = ask as_box executed_result a (request_data (execute_fn f))

  unfoldable pub as_unit_result : Any u → Option Bool
  as_unit_result (unit_result r) = some r
  as_unit_result _ = none

  -- `replace_reactive_for`.
  unfoldable pub replace_reactive_for :
      SyncAccessor u
      → Addr
      → u.Behavior
      → World u
      → List (RecvTimeout u)
      → Attempt u (Returned (Result (Unit {0})))
  unfolding run_fn as_unit_result replaced_result then_give
  replace_reactive_for a dst b w os =
      then_give replaced_result (run_fn as_unit_result a (replace_fn dst b) w os)

  unfoldable pub stopped_result : Result (DispatcherResponse u) → Result (Unit {0})
  stopped_result (ok r) = ok tt
  stopped_result (err e) = err e

  -- `stop_dispatcher`.
  unfoldable pub stop_dispatcher_for :
      SyncAccessor u → World u → List (RecvTimeout u) → Attempt u (Result (Unit {0}))
  unfolding ask as_response stopped_result
  stop_dispatcher_for a w os =
      if is_valid a.disp_addr
      then ask as_response stopped_result a (request_data stop_dispatcher) w os
      else (w, some (ok tt, a, os))

  -- `register_reactive_unwrap` and `replace_reactive_unwrap`, which only set the length of the wait.
  unfoldable pub register_reactive_unwrap :
      SyncAccessor u → u.Behavior → World u → List (RecvTimeout u) → Attempt u (Returned Addr)
  unfolding then_give unwrapped_addr register_reactive_for
  register_reactive_unwrap a b w os = then_give unwrapped_addr (register_reactive_for a b w os)

  unfoldable pub replace_reactive_unwrap :
      SyncAccessor u
      → Addr
      → u.Behavior
      → World u
      → List (RecvTimeout u)
      → Attempt u (Returned (Unit {0}))
  unfolding then_give unwrapped replace_reactive_for
  replace_reactive_unwrap a dst b w os = then_give unwrapped (replace_reactive_for a dst b w os)
