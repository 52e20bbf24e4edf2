-- ===== src/Mpsc/Free.antt =====
-- A queue that takes a message and has none, and behaviours that answer requests.
use rtactor_rs.Base.{ℕ, ◌<◌, ◌≡◌, refl, sym, subst, true, [], ◌∷◌, arith, some}
use rtactor_rs.Actor.Channel.{Channel, try_send, try_recv}
use rtactor_rs.Actor.Message.{Env, Addr, reactive, Any, request, ok_response}
use rtactor_rs.Actor.World.{World, MessageAndDstId, send_reactive, send_on}
use rtactor_rs.Actor.Delivery.{receive_request, receive_ok_response}
use rtactor_rs.Reactive.Address as Reactive
use rtactor_rs.Reactive.Context.{Context, send_addr_id_response}
use rtactor_rs.Mpsc.Extending.{queue_at}
use rtactor_rs.Mpsc.Process.{UserCode, receive}

-- A channel that takes a message and has none.
pub record IsFree {A : Type 0} (c : Channel A) : Type 0 where
  pub receiver : c.has_receiver ≡ true
  pub roomy : 0 < c.capacity
  pub quiet : c.queue ≡ []

-- A behaviour answers a request with some data: it sends one response to its source, and otherwise
-- changes only itself.
abbrev pub Answers : {u : Env} → UserCode u → (x x' : u.Behavior) (payload reply : Any u) → Type 0
Answers {u} code x x' payload reply =
    (c : Context) (w : World u) (src : Addr) (id : ℕ)
    → code.process_message x c w (request src id payload)
      ≡ some (x', c, send_addr_id_response src id reply w)

module _ {u : Env} where
  -- The queue has a message more than none.
  abbrev pub Sent : World u → ℕ → MessageAndDstId u → World u → Type 0
  Sent w tx m w' = w'.reactive_channels tx ≡ record (w.reactive_channels tx) { queue = m ∷ [] }

  pub request-Sent :
      (w : World u) (tx j id : ℕ) (src : Addr) (d : Any u)
      → IsFree (w.reactive_channels tx)
      → Sent w tx
          (record { message = request src id d; dst_id = j })
          (receive_request (reactive tx j) src id d w)
  unfolding receive_request Reactive.receive_request send_reactive send_on try_send
  request-Sent w tx j id src d f = ground (arith, f.receiver, f.roomy, f.quiet)

  pub response-Sent :
      (w : World u) (tx j id : ℕ) (d : Any u)
      → IsFree (w.reactive_channels tx)
      → Sent w tx
          (record { message = ok_response id d; dst_id = j })
          (send_addr_id_response (reactive tx j) id d w)
  unfolding send_addr_id_response receive_ok_response Reactive.send_and_report send_reactive send_on
      try_send
  response-Sent w tx j id d f = ground (arith, f.receiver, f.roomy, f.quiet)

  taken_channel :
      (w : World u) (tx : ℕ) (c : Channel (MessageAndDstId u)) (m : MessageAndDstId u)
      → w.reactive_channels tx ≡ record c { queue = m ∷ [] }
      → (receive tx w).0.reactive_channels tx ≡ record c { queue = [] }
  unfolding receive try_recv
  taken_channel w tx c m e = ground arith

  pub taken-IsFree :
      (w w' : World u) (tx : ℕ) (m : MessageAndDstId u)
      → IsFree (w.reactive_channels tx)
      → Sent w tx m w'
      → IsFree ((receive tx w').0.reactive_channels tx)
  taken-IsFree w w' tx m f e =
      subst IsFree (sym (taken_channel w' tx (w.reactive_channels tx) m e))
        (record { receiver = f.receiver; roomy = f.roomy; quiet = refl })

  pub receive-IsFree :
      (w : World u) (tx : ℕ) (m : MessageAndDstId u)
      → queue_at w tx ≡ m ∷ []
      → (w.reactive_channels tx).has_receiver ≡ true
      → 0 < (w.reactive_channels tx).capacity
      → IsFree ((receive tx w).0.reactive_channels tx)
  unfolding receive try_recv
  receive-IsFree w tx m q r p = record {
    receiver = ground arith;
    roomy = ground arith;
    quiet = ground arith;
  }
