-- ===== src/Mpsc/Answering.antt =====
-- How a request that stands at the head of the queue of a dispatcher is answered.
use rtactor_rs.Base.{
  ℕ, ◌≡◌, ◌≢◌, inl, inr, true, false, some, List, [], ◌∷◌, arith, Option-cases, get_elem?, set,
}
use rtactor_rs.Actor.Channel.{received, try_recv, try_send}
use rtactor_rs.Actor.Message.{Env, Addr, reactive, Any, request, ok_response}
use rtactor_rs.Actor.World.{World, MessageAndDstId, send_reactive, send_active, send_on}
use rtactor_rs.Actor.Delivery.{receive_request, receive_ok_response}
use rtactor_rs.Active.Address as Active
use rtactor_rs.Reactive.Address as Reactive
use rtactor_rs.Reactive.Context.{send_addr_id_response}
use rtactor_rs.Active.Mailbox.{ActiveMailbox, addr}
use rtactor_rs.Mpsc.Registry.{index_of, get_behavior_index}
use rtactor_rs.Mpsc.Registry.Lookup.{behavior_at, index_of-none, index_of-some}
use rtactor_rs.Mpsc.Free.{IsFree, Answers}
use rtactor_rs.Mpsc.Process.{
  UserCode, Running, receive, react_at, process_reactive_message, process_current_message,
  try_process_message,
}
use rtactor_rs.Mpsc.Loop.{Tick, polling, process, process_step, after_message}

module _ {B : Type 0} where
  pub found :
      (j : ℕ) (l : List (ℕ × B)) (x : B)
      → behavior_at j l ≡ some x
      → (i : ℕ) × (index_of j l ≡ some i) × (get_elem? l i ≡ some (j, x))
  found j l x e = elim (Option-cases (index_of j l)) [
    | inl n ↦ let k = index_of-none j l n in absurd (ground arith)
    | inr (i, p) ↦ let (y, q, at) = index_of-some j l i p in (i, p, ground arith)
  ]

module _ {u : Env} where
  pub request_sent_active :
      (w : World u) (tx j id : ℕ) (src : Addr) (d : Any u)
      → IsFree (w.reactive_channels tx)
      → (receive_request (reactive tx j) src id d w).active_channels ≡ w.active_channels
  unfolding receive_request Reactive.receive_request send_reactive send_on try_send
  request_sent_active w tx j id src d f = ground (arith, f.receiver, f.roomy, f.quiet)

  pub receive_head :
      (w : World u) (tx : ℕ) (m : MessageAndDstId u) (more : List (MessageAndDstId u))
      → (w.reactive_channels tx).queue ≡ m ∷ more
      → ((receive tx w).1 ≡ received m) × ((receive tx w).0.active_channels ≡ w.active_channels)
  unfolding receive try_recv
  receive_head w tx m more q = ground arith

  pub response_arrives :
      (w : World u) (b : ActiveMailbox u) (id : ℕ) (d : Any u)
      → IsFree (w.active_channels b.tx)
      → ((send_addr_id_response (addr b) id d w).active_channels b.tx).queue ≡ ok_response id d ∷ []
  unfolding send_addr_id_response addr receive_ok_response Active.send_and_report send_active
      send_on try_send
  response_arrives w b id d f = ground (arith, f.receiver, f.roomy, f.quiet)

module _ {u : Env} (code : UserCode u) (x x' : u.Behavior) (payload reply : Any u)
    (answers : Answers code x x' payload reply) where
  -- The state after the answer.
  abbrev pub answered : Running u → ℕ → ℕ → Addr → ℕ → Running u
  answered r i j src id = record {
    dispatcher = record (r.dispatcher) { reactive_list = set r.dispatcher.reactive_list i (j, x') };
    context = record (r.context) { own_actor_id = j };
    world = send_addr_id_response src id reply (receive r.dispatcher.tx r.world).0;
  }

  pub try_answer :
      (r : Running u) (i j id : ℕ) (src : Addr) (more : List (MessageAndDstId u))
      → (r.world.reactive_channels r.dispatcher.tx).queue
        ≡ record { message = request src id payload; dst_id = j } ∷ more
      → j ≢ r.dispatcher.disp_actor_id
      → index_of j r.dispatcher.reactive_list ≡ some i
      → get_elem? r.dispatcher.reactive_list i ≡ some (j, x)
      → try_process_message code r ≡ some ((true, false), answered r i j src id)
  unfolding try_process_message process_current_message process_reactive_message get_behavior_index
      react_at
  try_answer r i j id src more q n at here =
      let (got, same) =
        receive_head r.world r.dispatcher.tx
          (record { message = request src id payload; dst_id = j }) more q in
      let a =
        answers (record (r.context) { own_actor_id = j }) (receive r.dispatcher.tx r.world).0 src
          id in
      ground (arith, got, a)

module _ {u : Env} (code : UserCode u) where
  pub process-processed :
      (t : Tick u) (r r' : Running u)
      → try_process_message code (record r { world = t.others r.world }) ≡ some ((true, false), r')
      → process code (t ∷ []) polling r ≡ some (polling, r')
  unfolding process process_step after_message
  process-processed t r r' h = ground (arith, h)
