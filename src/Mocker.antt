-- ===== src/Mocker.antt =====
-- `ReactiveMocker` of src/reactive_mocker.rs: a behaviour that hands its messages to a mock. The mock,
-- which the crate `mockall` generates, and the test's data are shared, so the state of both is passed on.
pub mod Calls
use rtactor_rs.Base.{ℕ, Option, none, some}
use rtactor_rs.Actor.Message.{
  Env, Error, Addr, invalid, Any, Message, request, ok_response, err_response, notification,
}
use rtactor_rs.Actor.World.{World}
use rtactor_rs.Reactive.Context.{Context}
use rtactor_rs.Simulation.{SimulationDispatcher}
use rtactor_rs.Simulation.Setup.{register_reactive}

pub record ReactiveMocker (M T : Type 0) : Type 0 where
  pub addr : Addr
  pub mock : M
  pub data_of : T

-- The trait `Reactive`: what a mock does with a message and the data of the test. `none` is a panic,
-- of an expectation that is not met.
pub record Reactive (u : Env) (M T : Type 0) : Type 0 where
  pub process_request :
      M → T → Context → World u → Addr → ℕ → Any u → Option (M × T × Context × World u)
  pub process_ok_response :
      M → T → Context → World u → ℕ → Any u → Option (M × T × Context × World u)
  pub process_err_response :
      M → T → Context → World u → ℕ → Error → Any u → Option (M × T × Context × World u)
  pub process_notification : M → T → Context → World u → Any u → Option (M × T × Context × World u)

module _ {u : Env} {M T : Type 0} (reactive : Reactive u M T) where
  -- What a call leaves of the mocker.
  call_result :
      ReactiveMocker M T
      → Option (M × T × Context × World u)
      → Option (ReactiveMocker M T × Context × World u)
  call_result r none = none
  call_result r (some (m, t, c, w)) = some (record r { mock = m; data_of = t }, c, w)

  -- `process_message`.
  unfoldable pub process_message :
      ReactiveMocker M T
      → Context
      → World u
      → Message u
      → Option (ReactiveMocker M T × Context × World u)
  unfolding call_result
  process_message r c w (request src id d) =
      call_result r (reactive.process_request r.mock r.data_of c w src id d)
  process_message r c w (ok_response id d) =
      call_result r (reactive.process_ok_response r.mock r.data_of c w id d)
  process_message r c w (err_response id e d) =
      call_result r (reactive.process_err_response r.mock r.data_of c w id e d)
  process_message r c w (notification d) =
      call_result r (reactive.process_notification r.mock r.data_of c w d)

module _ {u : Env} {M T : Type 0} (boxed_as : ReactiveMocker M T → u.Behavior) where
  -- `register`, and `new` with a new mock.
  unfoldable pub register :
      ReactiveMocker M T → SimulationDispatcher u → ReactiveMocker M T × SimulationDispatcher u
  register r d =
      let (a, d') = register_reactive d (boxed_as (record r { addr = invalid })) in
      (record r { addr = a }, d')

  unfoldable pub new : M → T → SimulationDispatcher u → ReactiveMocker M T × SimulationDispatcher u
  unfolding register
  new new_mock data_of d =
      register (record { addr = invalid; mock = new_mock; data_of = data_of }) d

module _ {M T : Type 0} where
  -- `addr`, and the change that a test makes to the data or to the mock through `data` or `mock`.
  unfoldable pub addr_of : ReactiveMocker M T → Addr
  addr_of r = r.addr

  unfoldable pub with_data : ReactiveMocker M T → (T → T) → ReactiveMocker M T
  with_data r change = record r { data_of = change r.data_of }

  unfoldable pub with_mock : ReactiveMocker M T → (M → M) → ReactiveMocker M T
  with_mock r change = record r { mock = change r.mock }
