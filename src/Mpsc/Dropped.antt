-- ===== src/Mpsc/Dropped.antt =====
-- The end of an `MpscDispatcher`: `Drop` in src/mpsc_dispatcher.rs, and then the drop of its fields, the
-- receiver of its queue among them.
use rtactor_rs.Base.{fun_ext, false, ℕ, ◌+◌, ◌≤◌, ◌≡◌, refl, ap, ◌∙◌, true, length, arith}
use rtactor_rs.Actor.Channel.{Channel, drop_receiver, try_send, disconnected}
use rtactor_rs.Actor.Message.{
  Env, Addr, addr_unreachable, reactive, Any, whole, request, notification,
}
use rtactor_rs.Actor.World.{World, MessageAndDstId, err, update, send_reactive, send_on, to_result}
use rtactor_rs.Actor.Delivery.{receive_notification, receive_request, receive_err_response}
use rtactor_rs.Reactive.Address as Reactive
use rtactor_rs.Mpsc.Registry.{MpscDispatcher}
use rtactor_rs.Mpsc.Process.{drop_queued_messages}
use rtactor_rs.Mpsc.Process.Answers.{refusals, with_more, drop_queued_messages_answers}

try_send-refused :
    {A : Type 0} (c : Channel A) (a : A)
    → c.has_receiver ≡ false
    → try_send c a ≡ (c, disconnected a)
unfolding try_send
try_send-refused c a h = ground (arith, h)

update_same : {A : Type 0} (f : ℕ → A) (p : ℕ) → update f p (f p) ≡ f
update_same f p = fun_ext (λ q. ground arith)

module _ {u : Env} where
  drop_rx : ℕ → World u → World u
  unfolding drop_receiver
  drop_rx tx w = record w {
    reactive_channels = update w.reactive_channels tx (drop_receiver (w.reactive_channels tx));
  }

  -- `drop`, and what follows it. Other threads may send between the two.
  unfoldable pub drop_dispatcher : MpscDispatcher u → (World u → World u) → World u → World u
  unfolding drop_queued_messages drop_rx
  drop_dispatcher m others w = drop_rx m.tx (others (drop_queued_messages m w))

  -- The addresses of a dispatcher's actors lead nowhere.
  pub record IsGone (tx : ℕ) (w : World u) : Type 0 where
    pub notifications :
        (dst : ℕ) (d : Any u)
        → receive_notification (reactive tx dst) d w ≡ (w, err addr_unreachable)
    pub requests :
        (dst id : ℕ) (src : Addr) (d : Any u)
        → receive_request (reactive tx dst) src id d w
          ≡ (receive_err_response src id addr_unreachable (whole (request src id d)) w).0

  send_reactive-IsGone :
      (w : World u) (tx : ℕ) (m : MessageAndDstId u)
      → (w.reactive_channels tx).has_receiver ≡ false
      → send_reactive w tx m ≡ (w, disconnected m)
  unfolding send_reactive send_on
  send_reactive-IsGone w tx m h =
      ap (λ t. (record w { reactive_channels = update w.reactive_channels tx t.0 }, t.1))
        (try_send-refused (w.reactive_channels tx) m h)
      ∙ ap (λ cs. (record w { reactive_channels = cs }, disconnected m))
          (update_same w.reactive_channels tx)

  notification-IsGone :
      (w : World u) (tx dst : ℕ) (d : Any u)
      → (w.reactive_channels tx).has_receiver ≡ false
      → receive_notification (reactive tx dst) d w ≡ (w, err addr_unreachable)
  unfolding receive_notification Reactive.receive_notification Reactive.send_and_report to_result
  notification-IsGone w tx dst d h =
      ap (λ t. (t.0, to_result t.1))
        (send_reactive-IsGone w tx (record { message = notification d; dst_id = dst }) h)

  request-IsGone :
      (w : World u) (tx dst id : ℕ) (src : Addr) (d : Any u)
      → (w.reactive_channels tx).has_receiver ≡ false
      → receive_request (reactive tx dst) src id d w
        ≡ (receive_err_response src id addr_unreachable (whole (request src id d)) w).0
  unfolding receive_request
  request-IsGone w tx dst id src d h =
      let m : MessageAndDstId u = record { message = request src id d; dst_id = dst } in
      let gone = send_reactive-IsGone w tx m h in rw (gone, Reactive.receive_request) (rw gone refl)

  pub drop_dispatcher-IsGone :
      (m : MpscDispatcher u) (others : World u → World u) (w : World u)
      → IsGone m.tx (drop_dispatcher m others w)
  unfolding drop_dispatcher drop_rx drop_receiver
  drop_dispatcher-IsGone m others w = record {
    notifications =
        λ dst d. notification-IsGone (drop_dispatcher m others w) m.tx dst d (ground arith);
    requests = λ dst id src d.
        request-IsGone (drop_dispatcher m others w) m.tx dst id src d (ground arith);
  }

  -- A dispatcher that is dropped refuses the requests that wait in its queue: a mailbox with room for
  -- all of them gets one `ActorDisappeared` response, in order, for each of its requests. What other
  -- threads send before the receiver is dropped is lost without an answer: the mailbox gets only what
  -- they send to it. From then on a notification to an actor of the dispatcher is refused with
  -- `AddrUnreachable`, and a request is answered with that error.
  pub drop_dispatcher_lem :
      (m : MpscDispatcher u) (others : World u → World u) (w : World u) (k : ℕ)
      → (w.active_channels k).has_receiver ≡ true
      → length (w.active_channels k).queue + length (refusals k (w.reactive_channels m.tx).queue)
        ≤ (w.active_channels k).capacity
      → ((drop_queued_messages m w).active_channels k
          ≡ with_more (w.active_channels k) (refusals k (w.reactive_channels m.tx).queue))
        × ((drop_dispatcher m others w).active_channels
            ≡ (others (drop_queued_messages m w)).active_channels)
        × IsGone m.tx (drop_dispatcher m others w)
  unfolding drop_dispatcher drop_rx
  drop_dispatcher_lem m others w k r room =
      (drop_queued_messages_answers m w k r room, refl, drop_dispatcher-IsGone m others w)
