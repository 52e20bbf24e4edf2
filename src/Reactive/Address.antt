-- ===== src/Reactive/Address.antt =====
-- `ReactiveAddr` of src/reactive.rs: how a message reaches the queue of a dispatcher.
use rtactor_rs.Base.{ℕ}
use rtactor_rs.Actor.Channel.{sent, full, disconnected}
use rtactor_rs.Actor.Message.{
  Env, Error, addr_unreachable, queue_full, Addr, Any, whole, Message, request, ok_response,
  err_response, notification,
}
use rtactor_rs.Actor.World.{World, Result, to_result, send_reactive}

module _ {u : Env} where
  unfoldable pub send_and_report : ℕ → ℕ → Message u → World u → World u × Result (Unit {0})
  unfolding to_result
  send_and_report tx dst m w =
      let (w', r) = send_reactive w tx (record { message = m; dst_id = dst }) in (w', to_result r)

  -- `receive_notification`.
  unfoldable pub receive_notification : ℕ → ℕ → Any u → World u → World u × Result (Unit {0})
  unfolding send_and_report
  receive_notification tx dst d = send_and_report tx dst (notification d)

  -- `receive_ok_response`.
  unfoldable pub receive_ok_response : ℕ → ℕ → ℕ → Any u → World u → World u × Result (Unit {0})
  unfolding send_and_report
  receive_ok_response tx dst id d = send_and_report tx dst (ok_response id d)

  -- `receive_err_response`.
  unfoldable pub receive_err_response :
      ℕ → ℕ → ℕ → Error → Any u → World u → World u × Result (Unit {0})
  unfolding send_and_report
  receive_err_response tx dst id e d = send_and_report tx dst (err_response id e d)

  -- `receive_request`: a refused request is reported to its source, with the whole message as the
  -- data. `respond` is the source's `receive_err_response`.
  unfoldable pub receive_request :
      (Addr → ℕ → Error → Any u → World u → World u × Result (Unit {0}))
      → ℕ
      → ℕ
      → Addr
      → ℕ
      → Any u
      → World u
      → World u
  receive_request respond tx dst src id d w =
      let (w', r) = send_reactive w tx (record { message = request src id d; dst_id = dst }) in
      elim r [
        | sent ↦ w'
        | full m ↦ (respond src id queue_full (whole m.message) w').0
        | disconnected m ↦ (respond src id addr_unreachable (whole m.message) w').0
      ]
