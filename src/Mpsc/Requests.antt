-- ===== src/Mpsc/Requests.antt =====
-- A request of a mailbox to an actor of a dispatcher that runs in another thread: `request_for` of
-- src/active.rs and the loop `process` of src/mpsc_dispatcher.rs.
use rtactor_rs.Base.{
  ℕ, ◌≡◌, ◌≢◌, sym, ap, subst, ◌∙◌, some, Option, List, [], ◌∷◌, ◌++◌, ◌==◌, if◌then◌else◌, arith,
}
use rtactor_rs.Actor.Message.{Env, Addr, reactive, Any, request, ok_response}
use rtactor_rs.Actor.World.{World, MessageAndDstId, ok}
use rtactor_rs.Actor.Delivery.{receive_request}
use rtactor_rs.Active.Mailbox.{
  ActiveMailbox, RecvTimeout, arrived, generate_request_id, addr, request_for, request_loop,
  request_round,
}
use rtactor_rs.Mpsc.Answering.{
  found, request_sent_active, receive_head, response_arrives, answered, try_answer,
  process-processed,
}
use rtactor_rs.Mpsc.Extending.{queue_at}
use rtactor_rs.Mpsc.Free.{IsFree, Answers, request-Sent}
use rtactor_rs.Mpsc.Loop.{Tick, polling, process}
use rtactor_rs.Mpsc.Process.{UserCode, Running, receive}
use rtactor_rs.Mpsc.Registry.Lookup.{behavior_at, behavior_at-set}

module _ {u : Env} {R : Type 0} (downcast : Any u → Option R) where
  -- The shared state once the mailbox has sent its request.
  abbrev pub asked : ActiveMailbox u → Addr → Any u → World u → World u
  asked b dst payload w = (request_for downcast b dst payload w []).0

  request_for-arrived :
      (b : ActiveMailbox u) (dst : Addr) (payload reply : Any u) (out : R) (w : World u)
      (os : List (RecvTimeout u))
      → downcast reply ≡ some out
      → request_for downcast b dst payload w
          (arrived (ok_response (generate_request_id b).0 reply) ∷ os)
        ≡ (
          receive_request dst (addr (generate_request_id b).1) (generate_request_id b).0 payload w,
          some (ok out, (generate_request_id b).1, os),
        )
  unfolding request_for request_loop request_round
  request_for-arrived b dst payload reply out w os e = ground (arith, e)

module _ {u : Env} {R : Type 0} (code : UserCode u) (downcast : Any u → Option R) where
  -- A request of a mailbox to a registered behaviour that answers succeeds: in its next step the loop of
  -- the dispatcher puts exactly the answer into the queue of the mailbox, and a request that gets it
  -- gives what it holds; no other behaviour has changed. Nothing waits in either queue at first, both
  -- have room for a message and an owner, and other threads send behind the request, and not to the
  -- mailbox.
  pub request_for-process :
      (r : Running u) (j : ℕ) (b : ActiveMailbox u) (payload reply : Any u) (out : R)
      (x x' : u.Behavior) (t : Tick u) (more : List (MessageAndDstId u)) (os : List (RecvTimeout u))
      → Answers code x x' payload reply
      → downcast reply ≡ some out
      → behavior_at j r.dispatcher.reactive_list ≡ some x
      → j ≢ r.dispatcher.disp_actor_id
      → IsFree (r.world.active_channels b.tx)
      → IsFree (r.world.reactive_channels r.dispatcher.tx)
      → let w = asked downcast b (reactive r.dispatcher.tx j) payload r.world in
        queue_at (t.others w) r.dispatcher.tx ≡ queue_at w r.dispatcher.tx ++ more
        → (t.others w).active_channels b.tx ≡ w.active_channels b.tx
        → (r' : Running u) × (process code (t ∷ []) polling (record r { world = w })
            ≡ some (polling, r'))
          × ((r'.world.active_channels b.tx).queue
              ≡ ok_response (generate_request_id b).0 reply ∷ [])
          × (request_for downcast b
                (reactive r.dispatcher.tx j)
                payload
                r.world
                (arrived (ok_response (generate_request_id b).0 reply) ∷ os)
              ≡ (w, some (ok out, (generate_request_id b).1, os)))
          × ((k : ℕ)
              → behavior_at k r'.dispatcher.reactive_list
                ≡ (if j == k then some x' else behavior_at k r.dispatcher.reactive_list))
  unfolding request_for
  request_for-process r j b payload reply out x x' t more os answers typed here other mine its
        behind apart =
      let tx = r.dispatcher.tx in
      let (id, b') = generate_request_id b in
      let src = addr b' in
      let w = receive_request (reactive tx j) src id payload r.world in
      let v = t.others w in
      let m : MessageAndDstId u = record { message = request src id payload; dst_id = j } in
      let s : Running u = record r { world = v } in
      let (i, at, e) = found j r.dispatcher.reactive_list x here in
      let q : queue_at v tx ≡ m ∷ more =
        behind
        ∙ ap (λ l. l ++ more) (ap (λ c. c.queue) (request-Sent r.world tx j id src payload its)) in
      let same = (receive_head v tx m more q).1 in
      let free : IsFree ((receive tx v).0.active_channels b'.tx) =
        subst IsFree
          (sym (
            ap (λ c. c b'.tx) same
            ∙ apart
            ∙ ap (λ c. c b'.tx) (request_sent_active r.world tx j id src payload its)))
          mine in
      (
        answered code x x' payload reply answers s i j src id,
        process-processed code t (record r { world = w })
            (answered code x x' payload reply answers s i j src id)
            (try_answer code x x' payload reply answers s i j id src more q other at e),
        response_arrives (receive tx v).0 b' id reply free,
        request_for-arrived downcast b (reactive tx j) payload reply out r.world os typed,
        λ k. behavior_at-set j k r.dispatcher.reactive_list i x' at,
      )
