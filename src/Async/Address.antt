-- ===== src/Async/Address.antt =====
-- `AsyncAddr` of src/async_actor.rs: how a message reaches the queue of an async mailbox, on an `async_channel`.
use rtactor_rs.Base.{ℕ}
use rtactor_rs.Actor.Channel.{sent, full, disconnected}
use rtactor_rs.Actor.Message.{
  Env, Error, addr_unreachable, queue_full, Addr, Any, boxed, Message, request, ok_response,
  err_response, notification,
}
use rtactor_rs.Actor.World.{World, Result, to_result, send_async}

module _ {u : Env} where
  unfoldable pub send_and_report : ℕ → Message u → World u → World u × Result (Unit {0})
  unfolding to_result
  send_and_report tx m w = let (w', r) = send_async w tx m in (w', to_result r)

  -- `receive_notification`.
  unfoldable pub receive_notification : ℕ → Any u → World u → World u × Result (Unit {0})
  unfolding send_and_report
  receive_notification tx d = send_and_report tx (notification d)

  -- `receive_ok_response`.
  unfoldable pub receive_ok_response : ℕ → ℕ → Any u → World u → World u × Result (Unit {0})
  unfolding send_and_report
  receive_ok_response tx id d = send_and_report tx (ok_response id d)

  -- `receive_err_response`.
  unfoldable pub receive_err_response :
      ℕ → ℕ → Error → Any u → World u → World u × Result (Unit {0})
  unfolding send_and_report
  receive_err_response tx id e d = send_and_report tx (err_response id e d)

  -- The `if let Message::Request(request) = returned_message` of `receive_request`; the data is
  -- boxed once more.
  unfoldable pub report_refusal :
      (Addr → ℕ → Error → Any u → World u → World u × Result (Unit {0}))
      → Addr
      → ℕ
      → Error
      → Message u
      → World u
      → World u
  report_refusal respond src id e (request s i d) w = (respond src id e (boxed d) w).0
  report_refusal respond src id e _ w = w

  -- `receive_request`: a refused request is reported to its source. `respond` is the source's
  -- `receive_err_response`.
  unfoldable pub receive_request :
      (Addr → ℕ → Error → Any u → World u → World u × Result (Unit {0}))
      → ℕ
      → Addr
      → ℕ
      → Any u
      → World u
      → World u
  unfolding report_refusal
  receive_request respond tx src id d w =
      let (w', r) = send_async w tx (request src id d) in
      elim r [
        | sent ↦ w'
        | full m ↦ report_refusal respond src id queue_full m w'
        | disconnected m ↦ report_refusal respond src id addr_unreachable m w'
      ]
