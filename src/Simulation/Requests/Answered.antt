-- ===== src/Simulation/Requests/Answered.antt =====
-- A simulated request to a behaviour that answers.
use rtactor_rs.Base.{
  ℕ, suc, ◌≡◌, ◌≢◌, refl, sym, ap, subst, ◌∙◌, true, false, Bool, Option, some, [], ◌∷◌, ◌==◌,
  if◌then◌else◌, arith,
}
use rtactor_rs.Actor.Channel.{try_recv}
use rtactor_rs.Actor.Message.{Env, reactive, Any, Message, request, ok_response}
use rtactor_rs.Actor.World.{World, ok}
use rtactor_rs.Actor.Delivery.{receive_request}
use rtactor_rs.Reactive.Instant.{Instant, finite}
use rtactor_rs.Reactive.Context.{Context, send_addr_id_response}
use rtactor_rs.Reactive.Context as Context
use rtactor_rs.Active.Mailbox.{ActiveMailbox, try_get_message, generate_request_id, addr, pop_back}
use rtactor_rs.Mpsc.Registry.Lookup.{behavior_at, behavior_at-set}
use rtactor_rs.Mpsc.Answering.{
  found, request_sent_active, receive_head, response_arrives, answered, try_answer,
}
use rtactor_rs.Mpsc.Free.{IsFree, Answers, request-Sent}
use rtactor_rs.Mpsc.Process.{UserCode, Running, receive, try_process_message}
use rtactor_rs.Simulation.{
  SimulationDispatcher, finished, BreakFunc, context_of, leave, process_one, process_queued,
  after_message, after_queued, until_round, process_until_cond,
}
use rtactor_rs.Simulation.Requests.{
  Waiting, start, after_try, wait_closure, request_result, response_result, map_run,
  active_request_until_cond,
}

module _ {u : Env} where
  got :
      (w : World u) (b : ActiveMailbox u) (m : Message u)
      → b.message_list ≡ []
      → (w.active_channels b.tx).queue ≡ m ∷ []
      → (w' : World u) × (try_get_message b w ≡ (ok m, b, w'))
  unfolding try_get_message pop_back try_recv
  got w b m e q = ((try_get_message b w).2, ground arith)

module _ {u : Env} {S : Type 0} (code : UserCode u) (break_func : BreakFunc u S) where
  -- A message that the mailbox gets ends the innermost loop.
  queued_ends :
      (n : ℕ) (now instant : Instant) (f : Waiting u S) (r r' : Running u) (m : Message u)
      (b : ActiveMailbox u) (w : World u) (processed asks : Bool)
      → try_process_message code r ≡ some ((processed, asks), r')
      → try_get_message f.mailbox r'.world ≡ (ok m, b, w)
      → process_queued code (wait_closure break_func) (suc n) now instant f r
        ≡ finished (record {
          processed = processed;
          stop = true;
          captured = record f { mailbox = b; msg = m; msg_received = true };
          running = record r' { world = w };
        })
  unfolding process_queued process_one after_message wait_closure after_try
  queued_ends n now instant f r r' m b w processed asks e g = ground (arith, e, g)

  pub run_ends :
      (n : ℕ) (instant : Instant) (f : Waiting u S) (d : SimulationDispatcher u) (r' : Running u)
      (m : Message u) (b : ActiveMailbox u) (w : World u) (processed asks : Bool)
      → try_process_message code
          (record { dispatcher = d.disp; context = context_of d; world = d.world })
        ≡ some ((processed, asks), r')
      → try_get_message f.mailbox r'.world ≡ (ok m, b, w)
      → process_until_cond code (wait_closure break_func) (suc (suc n)) instant f d
        ≡ finished (
          record f { mailbox = b; msg = m; msg_received = true },
          leave d (record r' { world = w }),
        )
  unfolding process_until_cond until_round
  run_ends n instant f d r' m b w processed asks e g =
      rw
        (
          queued_ends n (finite d.instant_source.simulated_now) instant f
              (record { dispatcher = d.disp; context = context_of d; world = d.world }) r' m b w
              processed asks e g,
          process_until_cond,
          until_round,
          after_queued,
        )
        refl

module _ {u : Env} {S R : Type 0} (code : UserCode u) (break_func : BreakFunc u S)
    (downcast : Any u → Option R) where
  result_of_answer :
      (b : ActiveMailbox u) (id : ℕ) (reply : Any u) (out : R) (f : Waiting u S)
      → downcast reply ≡ some out
      → f.msg_received ≡ true
      → f.msg ≡ ok_response id reply
      → request_result downcast id f ≡ ok out
  unfolding request_result response_result
  result_of_answer b id reply out f e r m =
      rw (r, request_result) (rw (m, response_result) (ground (arith, e)))

  -- A simulated request to a registered behaviour that answers succeeds, whatever the instant up to
  -- which it waits and whatever else could break the wait: it gives what the answer holds, in no
  -- simulated time, with the timeouts as they were and no other behaviour changed. Nothing waits in
  -- the mailbox or in either queue at first, both queues have room for a message and an owner, and
  -- the behaviour answers the request. Two units of fuel are enough.
  pub active_request-Answers :
      (n j : ℕ) (b : ActiveMailbox u) (payload reply : Any u) (out : R) (instant : Instant)
      (inner : S) (d : SimulationDispatcher u) (x x' : u.Behavior)
      → Answers code x x' payload reply
      → downcast reply ≡ some out
      → behavior_at j d.disp.reactive_list ≡ some x
      → j ≢ d.disp.disp_actor_id
      → b.message_list ≡ []
      → IsFree (d.world.active_channels b.tx)
      → IsFree (d.world.reactive_channels d.disp.tx)
      → (d' : SimulationDispatcher u) × (active_request_until_cond code break_func downcast
            (suc (suc n))
            b
            (reactive d.disp.tx j)
            payload
            instant
            inner
            d
          ≡ finished (ok out, (generate_request_id b).1, inner, d'))
        × (d'.instant_source ≡ d.instant_source)
        × (d'.timeout_scheduler ≡ d.timeout_scheduler)
        × ((k : ℕ)
            → behavior_at k d'.disp.reactive_list
              ≡ (if j == k then some x' else behavior_at k d.disp.reactive_list))
  unfolding active_request_until_cond start map_run leave context_of Context.new
  active_request-Answers n j b payload reply out instant inner d x x' answers typed here other
        nothing mine its =
      let (id, b') = generate_request_id b in
      let src = addr b' in
      let w₁ = receive_request (reactive d.disp.tx j) src id payload d.world in
      let d₁ : SimulationDispatcher u = record d { world = w₁ } in
      let r : Running u = record { dispatcher = d.disp; context = context_of d₁; world = w₁ } in
      let (i, at, e) = found j d.disp.reactive_list x here in
      let q = ap (λ c. c.queue) (request-Sent d.world d.disp.tx j id src payload its) in
      let s = request_sent_active d.world d.disp.tx j id src payload its in
      let t = try_answer code x x' payload reply answers r i j id src [] q other at e in
      let r' = answered code x x' payload reply answers r i j src id in
      let w₂ = (receive d.disp.tx w₁).0 in
      let same =
        (receive_head w₁ d.disp.tx (record { message = request src id payload; dst_id = j }) []
          q).1 in
      let free : IsFree (w₂.active_channels b'.tx) =
        subst (λ c. IsFree (c b'.tx)) (sym (same ∙ s)) mine in
      let (w₃, g) =
        got r'.world b' (ok_response id reply) nothing (response_arrives w₂ b' id reply free) in
      let f = start b' inner in
      (
        leave d₁ (record r' { world = w₃ }),
        rw
            (
              run_ends code break_func n instant f d₁ r' (ok_response id reply) b' w₃ true false t
                  g,
              map_run,
            )
            (ap (λ z. finished (z, b', inner, leave d₁ (record r' { world = w₃ })))
              (result_of_answer b' id reply out
                (record f { msg = ok_response id reply; msg_received = true }) typed refl refl)),
        refl,
        refl,
        λ k. behavior_at-set j k d.disp.reactive_list i x' at,
      )
