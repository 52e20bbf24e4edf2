-- ===== src/Mpsc/Process/Answers.antt =====
-- What `drop_queued_messages` answers to the requests that it drops.
use rtactor_rs.Base.{
  ℕ, zero, suc, ◌+◌, ◌≤◌, ◌<◌, ◌≡◌, refl, ◌∙◌, ap, subst, true, List, [], ◌∷◌, ◌++◌, append_assoc,
  append-nil, arith, ◌==◌, if◌then◌else◌, length, length-append,
}
use rtactor_rs.Actor.Channel.{Channel}
use rtactor_rs.Actor.Message.{
  Env, Error, actor_disappeared, invalid, reactive, active, async, Any, boxed, Message, request,
  ok_response, err_response, notification,
}
use rtactor_rs.Actor.World.{World, MessageAndDstId, send_on, send_reactive, send_active, send_async}
use rtactor_rs.Actor.Delivery.{receive_err_response}
use rtactor_rs.Reactive.Address as Reactive
use rtactor_rs.Active.Address as Active
use rtactor_rs.Async.Address as Async
use rtactor_rs.Mpsc.Registry.{MpscDispatcher}
use rtactor_rs.Mpsc.Process.{receive, refuse_request, drain_fuel, drain, drop_queued_messages}
use rtactor_rs.Mpsc.Process.Drain.{
  Grows, same, more, drain_fuel-cons, refuse_request-Grows, drain_fuel-refuse_request, receive_some,
  drain_none, drain_some,
}

module _ {u : Env} where
  -- The refusals that the requests of a queue bring to the mailbox on one channel.
  abbrev pub refusal_of : ℕ → Message u → List (Message u) → List (Message u)
  refusal_of k (request (active i tx) id d) rest =
      if tx == k then err_response id actor_disappeared (boxed d) ∷ rest else rest
  refusal_of k _ rest = rest

  abbrev pub refusals : ℕ → List (MessageAndDstId u) → List (Message u)
  refusals k [] = []
  refusals k (m ∷ ms) = refusal_of k m.message (refusals k ms)

  refuse_request-active :
      (k : ℕ) (m : Message u) (w : World u)
      → (w.active_channels k).has_receiver ≡ true
      → length (w.active_channels k).queue + length (refusal_of k m [])
        ≤ (w.active_channels k).capacity
      → (refuse_request m w).active_channels k ≡ (record (w.active_channels k) {
        queue = (w.active_channels k).queue ++ refusal_of k m [];
      })
  unfolding refuse_request receive_err_response Reactive.send_and_report Active.send_and_report
      Async.send_and_report send_reactive send_active send_async send_on
  refuse_request-active k (request invalid id d) w r h = simp append-nil
  refuse_request-active k (request (reactive tx' dst) id d) w r h = simp append-nil
  refuse_request-active k (request (active i tx') id d) w r h =
      ground (arith, append-nil (w.active_channels k).queue)
  refuse_request-active k (request (async i tx') id d) w r h = simp append-nil
  refuse_request-active k (ok_response id d) w r h = simp append-nil
  refuse_request-active k (err_response id e d) w r h = simp append-nil
  refuse_request-active k (notification d) w r h = simp append-nil

  refusals-append :
      (k dst id : ℕ) (e : Error) (d : Any u) (ms : List (MessageAndDstId u))
      → refusals k (ms ++ record { message = err_response id e d; dst_id = dst } ∷ [])
        ≡ refusals k ms
  refusals-append k dst id e d [] = refl
  refusals-append k dst id e d (m ∷ ms) =
      ap (refusal_of k m.message) (refusals-append k dst id e d ms)

  refusals-Grows :
      (k : ℕ) (ms q : List (MessageAndDstId u)) → Grows ms q → refusals k q ≡ refusals k ms
  refusals-Grows k ms q (same e) = ap (refusals k) e
  refusals-Grows k ms q (more dst id e d p) = ap (refusals k) p ∙ refusals-append k dst id e d ms

  refusal_of-append :
      (k : ℕ) (m : Message u) (rest : List (Message u))
      → refusal_of k m [] ++ rest ≡ refusal_of k m rest
  refusal_of-append k (request invalid id d) rest = refl
  refusal_of-append k (request (reactive tx dst) id d) rest = refl
  refusal_of-append k (request (active i tx) id d) rest = ground arith
  refusal_of-append k (request (async i tx) id d) rest = refl
  refusal_of-append k (ok_response id d) rest = refl
  refusal_of-append k (err_response id e d) rest = refl
  refusal_of-append k (notification d) rest = refl

  -- The channel of a mailbox after it was sent some messages.
  abbrev pub with_more : Channel (Message u) → List (Message u) → Channel (Message u)
  with_more c ms = record c { queue = c.queue ++ ms }

  refuse_round :
      (tx k : ℕ) (w : World u) (c : Channel (Message u)) (m : MessageAndDstId u)
      (ms : List (MessageAndDstId u))
      → (w.reactive_channels tx).queue ≡ m ∷ ms
      → w.active_channels k ≡ c
      → c.has_receiver ≡ true
      → length c.queue + length (refusal_of k m.message []) ≤ c.capacity
      → (refuse_request m.message (receive tx w).0).active_channels k
        ≡ with_more c (refusal_of k m.message [])
  refuse_round tx k w c m ms e p r room =
      let w' = (receive tx w).0 in
      let p' : w'.active_channels k ≡ c = ap (λ cs. cs k) (receive_some tx w m ms e).2 ∙ p in
      refuse_request-active k m.message w' (ground arith) (ground arith)
      ∙ ap (λ c'. with_more c' (refusal_of k m.message [])) p'

  drain-active :
      (fuel tx k : ℕ) (w : World u) (c : Channel (Message u)) (q : List (MessageAndDstId u))
      → (w.reactive_channels tx).queue ≡ q
      → w.active_channels k ≡ c
      → drain_fuel q < fuel
      → c.has_receiver ≡ true
      → length c.queue + length (refusals k q) ≤ c.capacity
      → (drain fuel tx w).active_channels k ≡ with_more c (refusals k q)
  drain-active zero tx k w c q e p h r room = elim h [ ]
  drain-active (suc fuel) tx k w c [] e p h r room =
      ground (arith, drain_none fuel tx w e, append-nil c.queue)
  drain-active (suc fuel) tx k w c (m ∷ ms) e p h r room =
      let w' = (receive tx w).0 in
      let w'' = refuse_request m.message w' in
      let one = refusal_of k m.message [] in
      let q : List (MessageAndDstId u) = (w''.reactive_channels tx).queue in
      let rest : refusals k q ≡ refusals k ms =
        subst (λ l. refusals k q ≡ refusals k l) (receive_some tx w m ms e).1
          (refusals-Grows k (w'.reactive_channels tx).queue q
            (refuse_request-Grows m.message w' tx)) in
      let fit : length c.queue + (length one + length (refusals k ms)) ≤ c.capacity = ground (
        arith,
        ap length (refusal_of-append k m.message (refusals k ms)),
        length-append one (refusals k ms),
        room,
      ) in
      rw (drain_some fuel tx w m ms e) (
        drain-active fuel tx k w'' (with_more c one) q refl
          (refuse_round tx k w c m ms e p r (omega arith))
          (ground (
            arith,
            drain_fuel-refuse_request m.message w' tx,
            drain_fuel-cons m ms,
            receive_some tx w m ms e,
          ))
          r (ground (arith, ap length rest, length-append c.queue one))
        ∙ ap (λ ms'. record c { queue = ms' })
            (append_assoc c.queue one (refusals k q)
              ∙ ap (◌++◌ c.queue)
                  (ap (◌++◌ one) rest ∙ refusal_of-append k m.message (refusals k ms))))

  -- A mailbox with room for all of them gets one `ActorDisappeared` response, in order, for each of its
  -- requests that wait in the queue, with their ids, and nothing else.
  pub drop_queued_messages_answers :
      (m : MpscDispatcher u) (w : World u) (k : ℕ)
      → (w.active_channels k).has_receiver ≡ true
      → length (w.active_channels k).queue + length (refusals k (w.reactive_channels m.tx).queue)
        ≤ (w.active_channels k).capacity
      → (drop_queued_messages m w).active_channels k
        ≡ with_more (w.active_channels k) (refusals k (w.reactive_channels m.tx).queue)
  unfolding drop_queued_messages
  drop_queued_messages_answers m w k r room =
      drain-active (suc (drain_fuel (w.reactive_channels m.tx).queue)) m.tx k w _ _ refl refl
        (omega arith) r room
