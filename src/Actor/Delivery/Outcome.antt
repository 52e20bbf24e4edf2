-- ===== src/Actor/Delivery/Outcome.antt =====
-- What each way to send to an address does to every inbox, and what it reports.
use rtactor_rs.Base.{ℕ, ◌≡◌, refl, ◌&&◌, arith, if◌then◌else◌}
use rtactor_rs.Actor.Message.{
  Env, Error, queue_full, addr_unreachable, Addr, invalid, reactive, active, async, Any, boxed,
  whole, Message, request, ok_response, err_response, notification,
}
use rtactor_rs.Actor.World.{World, Result, ok, err, MessageAndDstId}
use rtactor_rs.Reactive.Address as Reactive
use rtactor_rs.Active.Address as Active
use rtactor_rs.Async.Address as Async
use rtactor_rs.Actor.Delivery.{
  receive_notification, receive_ok_response, receive_err_response, receive_request,
}
use rtactor_rs.Actor.Delivery.Inbox.{
  Room, has_room, is_full, takes, add_if, AsyncLaws, same_inbox, inbox, addr_room,
  send_reactive-answer, send_active-answer, send_async-answer, inbox-send_reactive,
  inbox-send_active, inbox-send_async, send_reactive_stays, send_active_stays, send_async_stays,
}

abbrev pub refusal : Room → Error
refusal is_full = queue_full
refusal _ = addr_unreachable

abbrev pub report : Room → Result (Unit {0})
report has_room = ok tt
report r = err (refusal r)

module _ {u : Env} (laws : AsyncLaws u) (w : World u) where
  -- An operation appends one message to the inbox of `dst`, if there is room, and to no other, and
  -- reports that.
  abbrev pub Delivers : Addr → Message u → World u × Result (Unit {0}) → Type 0
  Delivers dst m after =
      ((a : Addr)
        → inbox laws after.0 a
          ≡ add_if (takes (addr_room laws w dst) && same_inbox dst a) m (inbox laws w a))
      × (after.1 ≡ report (addr_room laws w dst))

  Delivers-reactive :
      (tx dst : ℕ) (m : Message u)
      → Delivers (reactive tx dst) m (Reactive.send_and_report tx dst m w)
  unfolding Reactive.send_and_report
  Delivers-reactive tx dst m =
      let m' : MessageAndDstId u = record { message = m; dst_id = dst } in
      (λ a. inbox-send_reactive laws w tx m' a, ground (arith, send_reactive-answer laws w tx m'))

  Delivers-active :
      (id tx : ℕ) (m : Message u) → Delivers (active id tx) m (Active.send_and_report tx m w)
  unfolding Active.send_and_report
  Delivers-active id tx m =
      (λ a. inbox-send_active laws w id tx m a, ground (arith, send_active-answer laws w tx m))

  Delivers-async :
      (id tx : ℕ) (m : Message u) → Delivers (async id tx) m (Async.send_and_report tx m w)
  unfolding Async.send_and_report
  Delivers-async id tx m =
      (λ a. inbox-send_async laws w id tx m a, ground (arith, send_async-answer laws w tx m))

  Delivers-invalid : (m : Message u) → Delivers invalid m (w, err addr_unreachable)
  Delivers-invalid m = (λ a. refl, refl)

  notification-Delivers :
      (dst : Addr) (d : Any u) → Delivers dst (notification d) (receive_notification dst d w)
  unfolding receive_notification
  notification-Delivers invalid d = Delivers-invalid (notification d)
  notification-Delivers (reactive tx dst) d = Delivers-reactive tx dst (notification d)
  notification-Delivers (active id tx) d = Delivers-active id tx (notification d)
  notification-Delivers (async id tx) d = Delivers-async id tx (notification d)

  ok_response-Delivers :
      (dst : Addr) (id : ℕ) (d : Any u)
      → Delivers dst (ok_response id d) (receive_ok_response dst id d w)
  unfolding receive_ok_response
  ok_response-Delivers invalid id d = Delivers-invalid (ok_response id d)
  ok_response-Delivers (reactive tx dst) id d = Delivers-reactive tx dst (ok_response id d)
  ok_response-Delivers (active a tx) id d = Delivers-active a tx (ok_response id d)
  ok_response-Delivers (async a tx) id d = Delivers-async a tx (ok_response id d)

  pub err_response-Delivers :
      (dst : Addr) (id : ℕ) (e : Error) (d : Any u)
      → Delivers dst (err_response id e d) (receive_err_response dst id e d w)
  unfolding receive_err_response
  err_response-Delivers invalid id e d = Delivers-invalid (err_response id e d)
  err_response-Delivers (reactive tx dst) id e d = Delivers-reactive tx dst (err_response id e d)
  err_response-Delivers (active a tx) id e d = Delivers-active a tx (err_response id e d)
  err_response-Delivers (async a tx) id e d = Delivers-async a tx (err_response id e d)

  -- A notification and both kinds of responses are appended to the inbox of their destination when
  -- its queue has room, and to no other; they are dropped otherwise, and the sender is told by the
  -- error whether the queue was full or gone.
  pub receive-Delivers :
      (dst : Addr) (id : ℕ) (e : Error) (d : Any u)
      → Delivers dst (notification d) (receive_notification dst d w)
        × Delivers dst (ok_response id d) (receive_ok_response dst id d w)
        × Delivers dst (err_response id e d) (receive_err_response dst id e d w)
  receive-Delivers dst id e d =
      (notification-Delivers dst d, ok_response-Delivers dst id d, err_response-Delivers dst id e d)

  -- The data that an error response carries of a request to `dst`.
  abbrev pub returned : Addr → Addr → ℕ → Any u → Any u
  returned invalid src id d = d
  returned (reactive tx dst) src id d = whole (request src id d)
  returned _ src id d = boxed d

  -- No request is lost without a trace while its source has room: it is appended to the inbox of its
  -- destination, or, if that refuses it, an error response with the request's id, the reason and the
  -- data is appended to the inbox of its source, if there is room. Nothing else changes.
  pub inbox-receive_request :
      (dst src : Addr) (id : ℕ) (d : Any u) (a : Addr)
      → inbox laws (receive_request dst src id d w) a ≡ (
          if takes (addr_room laws w dst)
          then add_if (same_inbox dst a) (request src id d) (inbox laws w a)
          else add_if
              (takes (addr_room laws w src) && same_inbox src a)
              (err_response id (refusal (addr_room laws w dst)) (returned dst src id d))
              (inbox laws w a))
  unfolding receive_request
  inbox-receive_request invalid src id d a = (err_response-Delivers src id addr_unreachable d).0 a
  inbox-receive_request (reactive tx dst) src id d a = ground (
    arith,
    send_reactive-answer laws w tx (record { message = request src id d; dst_id = dst }),
    send_reactive_stays laws w tx (record { message = request src id d; dst_id = dst }),
    inbox-send_reactive laws w tx (record { message = request src id d; dst_id = dst }) a,
    (err_response-Delivers src id queue_full (whole (request src id d))).0 a,
    (err_response-Delivers src id addr_unreachable (whole (request src id d))).0 a,
  )
  inbox-receive_request (active i tx) src id d a = ground (
    arith,
    send_active-answer laws w tx (request src id d),
    send_active_stays laws w tx (request src id d),
    inbox-send_active laws w i tx (request src id d) a,
    (err_response-Delivers src id queue_full (boxed d)).0 a,
    (err_response-Delivers src id addr_unreachable (boxed d)).0 a,
  )
  inbox-receive_request (async i tx) src id d a = ground (
    arith,
    send_async-answer laws w tx (request src id d),
    send_async_stays laws w tx (request src id d),
    inbox-send_async laws w i tx (request src id d) a,
    (err_response-Delivers src id queue_full (boxed d)).0 a,
    (err_response-Delivers src id addr_unreachable (boxed d)).0 a,
  )
