-- ===== src/Mpsc/Extending.antt =====
-- Sending never takes a message from the queue of a dispatcher.
use rtactor_rs.Base.{
  ℕ, ◌≡◌, ap, subst, ◌∙◌, sym, inl, inr, List, [], ◌∷◌, ◌++◌, arith, ltb, ◌==◌, length, ◌&&◌,
  Bool-cases, append-nil, append_assoc,
}
use rtactor_rs.Actor.Channel.{try_send}
use rtactor_rs.Actor.Message.{
  Env, Error, Addr, invalid, reactive, active, async, Any, Message, request, ok_response,
  err_response,
}
use rtactor_rs.Actor.World.{World, MessageAndDstId, send_on, send_reactive, send_active, send_async}
use rtactor_rs.Actor.Delivery.{receive_ok_response, receive_err_response}
use rtactor_rs.Reactive.Address as Reactive
use rtactor_rs.Active.Address as Active
use rtactor_rs.Async.Address as Async
use rtactor_rs.Mpsc.Process.{refuse_request}
use rtactor_rs.Reactive.Context.{send_addr_id_response}

module _ {u : Env} where
  abbrev pub queue_at : World u → ℕ → List (MessageAndDstId u)
  queue_at w tx = (w.reactive_channels tx).queue

  -- The queues of dispatchers have grown at their ends, if at all.
  abbrev pub Extends : World u → World u → Type 0
  Extends w w' = (tx : ℕ) → (k : List (MessageAndDstId u)) × (queue_at w' tx ≡ queue_at w tx ++ k)

  pub Extends-refl : (w : World u) → Extends w w
  Extends-refl w tx = ([], sym (append-nil (queue_at w tx)))

  pub Extends-eq : (w v v' : World u) → Extends w v → v ≡ v' → Extends w v'
  Extends-eq w v v' k e = subst (Extends w) e k

  pub Extends-trans : (a b c : World u) → Extends a b → Extends b c → Extends a c
  Extends-trans a b c e f tx =
      let (k, p) = e tx in
      let (l, q) = f tx in (k ++ l, q ∙ ap (λ z. z ++ l) p ∙ append_assoc (queue_at a tx) k l)

  pub send_reactive-Extends :
      (w : World u) (tx : ℕ) (m : MessageAndDstId u) → Extends w (send_reactive w tx m).0
  unfolding send_reactive send_on try_send
  send_reactive-Extends w tx m tx' =
      let c = w.reactive_channels tx in
      elim (Bool-cases (tx == tx' && (c.has_receiver && ltb (length c.queue) c.capacity))) [
        | inl e ↦ (m ∷ [], ground arith)
        | inr e ↦ ([], ground (arith, append-nil (queue_at w tx')))
      ]

  pub receive_err_response-Extends :
      (a : Addr) (id : ℕ) (e : Error) (d : Any u) (w : World u)
      → Extends w (receive_err_response a id e d w).0
  unfolding receive_err_response Reactive.send_and_report Active.send_and_report
      Async.send_and_report send_active send_async send_on
  receive_err_response-Extends invalid id e d w = Extends-refl w
  receive_err_response-Extends (reactive tx dst) id e d w =
      send_reactive-Extends w tx (record { message = err_response id e d; dst_id = dst })
  receive_err_response-Extends (active i tx) id e d w =
      λ tx'. ([], sym (append-nil (queue_at w tx')))
  receive_err_response-Extends (async i tx) id e d w =
      λ tx'. ([], sym (append-nil (queue_at w tx')))

  pub send_addr_id_response-Extends :
      (a : Addr) (id : ℕ) (d : Any u) (w : World u) → Extends w (send_addr_id_response a id d w)
  unfolding send_addr_id_response receive_ok_response Reactive.send_and_report
      Active.send_and_report Async.send_and_report send_active send_async send_on
  send_addr_id_response-Extends invalid id d w = Extends-refl w
  send_addr_id_response-Extends (reactive tx dst) id d w =
      send_reactive-Extends w tx (record { message = ok_response id d; dst_id = dst })
  send_addr_id_response-Extends (active i tx) id d w =
      λ tx'. ([], sym (append-nil (queue_at w tx')))
  send_addr_id_response-Extends (async i tx) id d w = λ tx'. ([], sym (append-nil (queue_at w tx')))

  pub refuse_request-Extends : (m : Message u) (w : World u) → Extends w (refuse_request m w)
  unfolding refuse_request
  refuse_request-Extends (request src id d) w = receive_err_response-Extends src id _ _ w
  refuse_request-Extends _ w = Extends-refl w
