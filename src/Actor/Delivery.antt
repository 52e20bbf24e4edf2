-- ===== src/Actor/Delivery.antt =====
-- The methods of `Addr` in src/actor.rs that hand a message to the queue behind an address.
pub mod Inbox
pub mod Outcome
use rtactor_rs.Base.{ℕ}
use rtactor_rs.Actor.Message.{
  Env, Error, addr_unreachable, Addr, invalid, reactive, active, async, Any, Message,
}
use rtactor_rs.Actor.World.{World, Result, err}
use rtactor_rs.Reactive.Address as Reactive
use rtactor_rs.Active.Address as Active
use rtactor_rs.Async.Address as Async

module _ {u : Env} where
  -- `Addr::receive_notification`, and the free function `send_notification`.
  unfoldable pub receive_notification : Addr → Any u → World u → World u × Result (Unit {0})
  unfolding Reactive.receive_notification Active.receive_notification Async.receive_notification
  receive_notification invalid d w = (w, err addr_unreachable)
  receive_notification (reactive tx dst) d w = Reactive.receive_notification tx dst d w
  receive_notification (active id tx) d w = Active.receive_notification tx d w
  receive_notification (async id tx) d w = Async.receive_notification tx d w

  -- `Addr::receive_ok_response`.
  unfoldable pub receive_ok_response : Addr → ℕ → Any u → World u → World u × Result (Unit {0})
  unfolding Reactive.receive_ok_response Active.receive_ok_response Async.receive_ok_response
  receive_ok_response invalid id d w = (w, err addr_unreachable)
  receive_ok_response (reactive tx dst) id d w = Reactive.receive_ok_response tx dst id d w
  receive_ok_response (active a tx) id d w = Active.receive_ok_response tx id d w
  receive_ok_response (async a tx) id d w = Async.receive_ok_response tx id d w

  -- `Addr::receive_err_response`.
  unfoldable pub receive_err_response :
      Addr → ℕ → Error → Any u → World u → World u × Result (Unit {0})
  unfolding Reactive.receive_err_response Active.receive_err_response Async.receive_err_response
  receive_err_response invalid id e d w = (w, err addr_unreachable)
  receive_err_response (reactive tx dst) id e d w = Reactive.receive_err_response tx dst id e d w
  receive_err_response (active a tx) id e d w = Active.receive_err_response tx id e d w
  receive_err_response (async a tx) id e d w = Async.receive_err_response tx id e d w

  -- `Addr::receive_request`.
  unfoldable pub receive_request : Addr → Addr → ℕ → Any u → World u → World u
  unfolding Reactive.receive_request Active.receive_request Async.receive_request
  receive_request invalid src id d w = (receive_err_response src id addr_unreachable d w).0
  receive_request (reactive tx dst) src id d w =
      Reactive.receive_request receive_err_response tx dst src id d w
  receive_request (active a tx) src id d w =
      Active.receive_request receive_err_response tx src id d w
  receive_request (async a tx) src id d w = Async.receive_request receive_err_response tx src id d w
