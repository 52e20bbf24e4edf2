-- ===== src/Mpsc/Process/Drain.antt =====
-- The loop of `drop_queued_messages`: its rounds, and its end.
use rtactor_rs.Base.{
  ℕ, zero, suc, ◌+◌, ◌≤◌, ◌<◌, ◌≡◌, refl, inl, inr, List, [], ◌∷◌, ◌++◌, arith, ltb, ◌==◌, length,
  Bool-cases, ◌&&◌,
}
use rtactor_rs.Actor.Channel.{received, try_recv}
use rtactor_rs.Actor.Message.{
  Env, Error, actor_disappeared, invalid, reactive, active, async, Any, boxed, Message, request,
  ok_response, err_response, notification,
}
use rtactor_rs.Actor.World.{World, MessageAndDstId, send_on, send_reactive, send_active, send_async}
use rtactor_rs.Actor.Delivery.{receive_err_response}
use rtactor_rs.Reactive.Address as Reactive
use rtactor_rs.Active.Address as Active
use rtactor_rs.Async.Address as Async
use rtactor_rs.Mpsc.Registry.{MpscDispatcher}
use rtactor_rs.Mpsc.Process.{receive, refuse_request, drain_fuel, drain, drop_queued_messages}

module _ {u : Env} where
  abbrev pub weight : Message u → ℕ
  weight (request src id d) = 2
  weight _ = 1

  pub drain_fuel-cons :
      (m : MessageAndDstId u) (ms : List (MessageAndDstId u))
      → drain_fuel (m ∷ ms) ≡ weight m.message + drain_fuel ms
  unfolding drain_fuel
  drain_fuel-cons m ms = ground arith

  drain_fuel-append :
      (ms : List (MessageAndDstId u)) (m : MessageAndDstId u)
      → drain_fuel (ms ++ m ∷ []) ≡ drain_fuel ms + weight m.message
  drain_fuel-append [] m = ground (arith, drain_fuel-cons m [], nil)
    where
      nil : drain_fuel {u = u} [] ≡ 0
      nil = unfold drain_fuel in refl
  drain_fuel-append (x ∷ ms) m =
      ground (arith, drain_fuel-append ms m, drain_fuel-cons x ms, drain_fuel-cons x (ms ++ m ∷ []))

  -- What an answer adds to a queue: nothing, or one error response.
  pub data Grows (q : List (MessageAndDstId u)) (q' : List (MessageAndDstId u)) : Type 0 where
    same : q' ≡ q → Grows q q'
    more :
        (dst id : ℕ) (e : Error) (d : Any u)
        → q' ≡ q ++ record { message = err_response id e d; dst_id = dst } ∷ []
        → Grows q q'

  pub refuse_request-Grows :
      (m : Message u) (w : World u) (tx : ℕ)
      → Grows (w.reactive_channels tx).queue ((refuse_request m w).reactive_channels tx).queue
  unfolding refuse_request receive_err_response Reactive.send_and_report Active.send_and_report
      Async.send_and_report send_reactive send_active send_async send_on
  refuse_request-Grows (request invalid id d) w tx = same refl
  refuse_request-Grows (request (reactive tx' dst) id d) w tx =
      let c = w.reactive_channels tx in
      elim (Bool-cases (tx' == tx && (c.has_receiver && ltb (length c.queue) c.capacity))) [
        | inl e ↦ more dst id actor_disappeared (boxed d) (ground arith)
        | inr e ↦ same (ground arith)
      ]
  refuse_request-Grows (request (active i tx') id d) w tx = same refl
  refuse_request-Grows (request (async i tx') id d) w tx = same refl
  refuse_request-Grows (ok_response id d) w tx = same refl
  refuse_request-Grows (err_response id e d) w tx = same refl
  refuse_request-Grows (notification d) w tx = same refl

  drain_fuel-Grows :
      (ms q : List (MessageAndDstId u)) → Grows ms q → drain_fuel q ≤ drain_fuel ms + 1
  drain_fuel-Grows ms q (same e) = rw e (omega arith)
  drain_fuel-Grows ms q (more dst id e d p) =
      rw p (
        omega
          (arith, drain_fuel-append ms (record { message = err_response id e d; dst_id = dst })))

  -- One round of the loop brings the bound on the rounds left down.
  pub drain_fuel-refuse_request :
      (m : Message u) (w : World u) (tx : ℕ)
      → drain_fuel ((refuse_request m w).reactive_channels tx).queue + 1
        ≤ weight m + drain_fuel (w.reactive_channels tx).queue
  unfolding refuse_request
  drain_fuel-refuse_request (request src id d) w tx = omega (
    arith,
    drain_fuel-Grows (w.reactive_channels tx).queue
        ((refuse_request (request src id d) w).reactive_channels tx).queue
        (refuse_request-Grows (request src id d) w tx),
  )
  drain_fuel-refuse_request (ok_response id d) w tx = omega arith
  drain_fuel-refuse_request (err_response id e d) w tx = omega arith
  drain_fuel-refuse_request (notification d) w tx = omega arith

  pub receive_some :
      (tx : ℕ) (w : World u) (m : MessageAndDstId u) (ms : List (MessageAndDstId u))
      → (w.reactive_channels tx).queue ≡ m ∷ ms
      → ((receive tx w).1 ≡ received m)
        × (((receive tx w).0.reactive_channels tx).queue ≡ ms)
        × ((receive tx w).0.active_channels ≡ w.active_channels)
  unfolding receive try_recv
  receive_some tx w m ms e = ground arith

  pub drain_none :
      (fuel tx : ℕ) (w : World u)
      → (w.reactive_channels tx).queue ≡ []
      → (((drain (suc fuel) tx w).reactive_channels tx).queue ≡ [])
        × ((drain (suc fuel) tx w).active_channels ≡ w.active_channels)
  unfolding drain receive try_recv
  drain_none fuel tx w e = ground arith

  pub drain_some :
      (fuel tx : ℕ) (w : World u) (m : MessageAndDstId u) (ms : List (MessageAndDstId u))
      → (w.reactive_channels tx).queue ≡ m ∷ ms
      → drain (suc fuel) tx w ≡ drain fuel tx (refuse_request m.message (receive tx w).0)
  unfolding drain
  drain_some fuel tx w m ms e = rw ((receive_some tx w m ms e).0, drain)

  drain-queue :
      (fuel tx : ℕ) (w : World u) (q : List (MessageAndDstId u))
      → (w.reactive_channels tx).queue ≡ q
      → drain_fuel q < fuel
      → ((drain fuel tx w).reactive_channels tx).queue ≡ []
  drain-queue zero tx w q e h = elim h [ ]
  drain-queue (suc fuel) tx w [] e h = (drain_none fuel tx w e).0
  drain-queue (suc fuel) tx w (m ∷ ms) e h =
      let w' = (receive tx w).0 in
      rw (drain_some fuel tx w m ms e) (
        drain-queue fuel tx (refuse_request m.message w') _ refl (
          ground (
            arith,
            drain_fuel-refuse_request m.message w' tx,
            drain_fuel-cons m ms,
            receive_some tx w m ms e,
          )))

  -- `drop_queued_messages` ends, with an empty queue, also where refused requests come from actors
  -- of the same dispatcher.
  pub drop_queued_messages_empties :
      (m : MpscDispatcher u) (w : World u)
      → ((drop_queued_messages m w).reactive_channels m.tx).queue ≡ []
  unfolding drop_queued_messages
  drop_queued_messages_empties m w =
      drain-queue (suc (drain_fuel (w.reactive_channels m.tx).queue)) m.tx w _ refl (omega arith)
