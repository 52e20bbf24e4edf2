-- ===== src/Dispatcher/Stop.antt =====
-- `stop_dispatcher` of src/dispatcher.rs against a dispatcher that runs in another thread.
use rtactor_rs.Base.{
  ℕ, ◌+◌, ◌≤◌, ◌≡◌, refl, sym, ap, subst, ◌∙◌, true, some, List, [], ◌∷◌, ◌++◌, arith, length,
  append-nil,
}
use rtactor_rs.Actor.Message.{
  Env, Any, Addr, is_valid, reactive, request_data, response_data, stop_dispatcher,
  dispatcher_stopped, Message, request, ok_response,
}
use rtactor_rs.Actor.World.{World, MessageAndDstId, ok, send_active}
use rtactor_rs.Actor.Delivery.{receive_request, receive_ok_response}
use rtactor_rs.Active.Address as Address
use rtactor_rs.Reactive.Context.{send_addr_id_response}
use rtactor_rs.Active.Mailbox as Active
use rtactor_rs.Active.Mailbox.{
  ActiveMailbox, RecvTimeout, arrived, request_for, request_loop, request_round,
}
use rtactor_rs.Dispatcher.{SyncAccessor, stop_dispatcher_for}
use rtactor_rs.Dispatcher.Requests.{request_id, after_request}
use rtactor_rs.Mpsc.Answering.{request_sent_active, receive_head, response_arrives}
use rtactor_rs.Mpsc.Dropped.{drop_dispatcher, IsGone, drop_dispatcher-IsGone}
use rtactor_rs.Mpsc.Extending.{queue_at}
use rtactor_rs.Mpsc.Free.{IsFree, request-Sent}
use rtactor_rs.Mpsc.Loop.{Tick, polling, stopped, process, process_step, after_message}
use rtactor_rs.Mpsc.Process.{
  UserCode, Running, receive, drop_queued_messages, process_dispatcher_request,
  process_dispatcher_message, process_current_message, try_process_message,
}
use rtactor_rs.Mpsc.Process.Drain.{receive_some, drop_queued_messages_empties}
use rtactor_rs.Mpsc.Registry.{MpscDispatcher}
use rtactor_rs.Mpsc.Process.Answers.{refusals, with_more, drop_queued_messages_answers}

module _ {u : Env} where
  -- The request of an accessor that stops a dispatcher.
  abbrev pub stop_request : SyncAccessor u → Message u
  stop_request a =
      request (Active.addr (after_request a).mailbox) (request_id a) (request_data stop_dispatcher)

  -- The response with which its wait ends.
  abbrev pub stop_response : SyncAccessor u → Message u
  stop_response a = ok_response (request_id a) (response_data dispatcher_stopped)

  stop_dispatcher_for-arrived :
      (a : SyncAccessor u) (w : World u) (os : List (RecvTimeout u))
      → is_valid a.disp_addr ≡ true
      → stop_dispatcher_for a w (arrived (stop_response a) ∷ os)
        ≡ ((stop_dispatcher_for a w []).0, some (ok tt, after_request a, os))
  unfolding stop_dispatcher_for request_for request_loop request_round Active.generate_request_id
  stop_dispatcher_for-arrived a w os v = ground arith

  stop_dispatcher_for-sent :
      (a : SyncAccessor u) (w : World u)
      → is_valid a.disp_addr ≡ true
      → (stop_dispatcher_for a w []).0
        ≡ receive_request a.disp_addr
            (Active.addr (after_request a).mailbox)
            (request_id a)
            (request_data stop_dispatcher)
            w
  unfolding stop_dispatcher_for request_for Active.generate_request_id
  stop_dispatcher_for-sent a w v = ground arith

module _ {u : Env} (code : UserCode u) where
  -- The dispatcher once it has stopped for a request.
  abbrev halted : Running u → Addr → ℕ → Running u
  halted r src id = record r {
    dispatcher = record (r.dispatcher) { reactive_list = [] };
    world =
        send_addr_id_response src id (response_data dispatcher_stopped)
          (drop_queued_messages r.dispatcher (receive r.dispatcher.tx r.world).0);
  }

  process_dispatcher_request-stop :
      (r : Running u) (src : Addr) (id : ℕ)
      → process_dispatcher_request code r src id (request_data stop_dispatcher)
        ≡ some (
          true,
          record r {
            dispatcher = record (r.dispatcher) { reactive_list = [] };
            world =
                send_addr_id_response src id
                  (response_data dispatcher_stopped)
                  (drop_queued_messages r.dispatcher r.world);
          },
        )
  unfolding process_dispatcher_request
  process_dispatcher_request-stop r src id = refl

  process_current_message-stop :
      (r : Running u) (src : Addr) (id : ℕ)
      → process_current_message code r (record {
        message = request src id (request_data stop_dispatcher);
        dst_id = r.dispatcher.disp_actor_id;
      })
        ≡ some (
          true,
          record r {
            dispatcher = record (r.dispatcher) { reactive_list = [] };
            world =
                send_addr_id_response src id
                  (response_data dispatcher_stopped)
                  (drop_queued_messages r.dispatcher r.world);
          },
        )
  unfolding process_current_message process_dispatcher_message
  process_current_message-stop r src id = ground (arith, process_dispatcher_request-stop r src id)

  try_stop :
      (r : Running u) (src : Addr) (id : ℕ) (more : List (MessageAndDstId u))
      → queue_at r.world r.dispatcher.tx
        ≡ record {
          message = request src id (request_data stop_dispatcher);
          dst_id = r.dispatcher.disp_actor_id;
        }
          ∷ more
      → try_process_message code r ≡ some ((true, true), halted r src id)
  unfolding try_process_message
  try_stop r src id more q =
      let r' = record r { world = (receive r.dispatcher.tx r.world).0 } in
      rw ((receive_head r.world r.dispatcher.tx _ more q).0, try_process_message)
        (rw (process_current_message-stop r' src id) refl)

  process-stops :
      (t : Tick u) (r r' : Running u)
      → try_process_message code (record r { world = t.others r.world }) ≡ some ((true, true), r')
      → process code (t ∷ []) polling r ≡ some (stopped, r')
  unfolding process process_step after_message
  process-stops t r r' h = ground (arith, h)

module _ {u : Env} where
  response_elsewhere :
      (b : ActiveMailbox u) (id : ℕ) (d : Any u) (w : World u)
      → (send_addr_id_response (Active.addr b) id d w).reactive_channels ≡ w.reactive_channels
  unfolding send_addr_id_response Active.addr receive_ok_response Address.send_and_report
      send_active
  response_elsewhere b id d w = refl

  IsFree-drop_queued_messages :
      (m : MpscDispatcher u) (w : World u) (k : ℕ)
      → IsFree (w.active_channels k)
      → refusals k (queue_at w m.tx) ≡ []
      → IsFree ((drop_queued_messages m w).active_channels k)
  IsFree-drop_queued_messages m w k f none_of_it =
      let room : length (w.active_channels k).queue + length (refusals k (queue_at w m.tx))
          ≤ (w.active_channels k).capacity =
        ground (arith, ap length none_of_it, ap length f.quiet) in
      subst IsFree
        (sym (
          drop_queued_messages_answers m w k f.receiver room
          ∙ ap (with_more (w.active_channels k)) none_of_it))
        (record {
          receiver = f.receiver;
          roomy = f.roomy;
          quiet = append-nil (w.active_channels k).queue ∙ f.quiet;
        })

module _ {u : Env} (code : UserCode u) where
  -- An accessor that stops a dispatcher succeeds: in its next step the loop of the dispatcher ends, with
  -- no behaviour and an empty queue left, and the mailbox of the accessor has exactly the response with
  -- which its wait ends without an error. When the dispatcher is then dropped, its addresses lead nowhere, whatever
  -- other threads send meanwhile. Nothing waits in either queue at first, both have room for a message
  -- and an owner, and other threads send behind the request, no requests of the accessor among it,
  -- and not to the mailbox.
  pub stop_dispatcher_for-process :
      (r : Running u) (a : SyncAccessor u) (t : Tick u) (more : List (MessageAndDstId u))
      (os : List (RecvTimeout u)) (meanwhile : World u → World u)
      → a.disp_addr ≡ reactive r.dispatcher.tx r.dispatcher.disp_actor_id
      → IsFree (r.world.active_channels a.mailbox.tx)
      → IsFree (r.world.reactive_channels r.dispatcher.tx)
      → let w = (stop_dispatcher_for a r.world []).0 in
        queue_at (t.others w) r.dispatcher.tx ≡ queue_at w r.dispatcher.tx ++ more
        → (t.others w).active_channels a.mailbox.tx ≡ w.active_channels a.mailbox.tx
        → refusals a.mailbox.tx more ≡ []
        → (r' : Running u) × (process code (t ∷ []) polling (record r { world = w })
            ≡ some (stopped, r'))
          × (r'.dispatcher.reactive_list ≡ [])
          × (queue_at r'.world r.dispatcher.tx ≡ [])
          × ((r'.world.active_channels a.mailbox.tx).queue ≡ stop_response a ∷ [])
          × (stop_dispatcher_for a r.world (arrived (stop_response a) ∷ os)
              ≡ (w, some (ok tt, after_request a, os)))
          × IsGone r.dispatcher.tx (drop_dispatcher r'.dispatcher meanwhile r'.world)
  unfolding is_valid
  stop_dispatcher_for-process r a t more os meanwhile to mine its behind apart none_of_it =
      let tx = r.dispatcher.tx in
      let own = r.dispatcher.disp_actor_id in
      let b' = (after_request a).mailbox in
      let src = Active.addr b' in
      let valid : is_valid a.disp_addr ≡ true = ap is_valid to in
      let w = (stop_dispatcher_for a r.world []).0 in
      let v = t.others w in
      let s : Running u = record r { world = v } in
      let m : MessageAndDstId u = record { message = stop_request a; dst_id = own } in
      let w₁ =
        receive_request (reactive tx own) src (request_id a) (request_data stop_dispatcher)
          r.world in
      let sent : w ≡ w₁ =
        stop_dispatcher_for-sent a r.world valid
        ∙ ap (λ d. receive_request d src (request_id a) (request_data stop_dispatcher) r.world)
            to in
      let q : queue_at v tx ≡ m ∷ more =
        behind
        ∙ ap (λ l. l ++ more)
            (ap (λ z. queue_at z tx) sent
              ∙ ap (λ c. c.queue)
                  (request-Sent r.world tx own (request_id a) src (request_data stop_dispatcher)
                    its)) in
      let v' = (receive tx v).0 in
      let (got, left, same) = receive_some tx v m more q in
      let free : IsFree (v'.active_channels b'.tx) =
        subst IsFree
          (sym (
            ap (λ c. c b'.tx) same
            ∙ apart
            ∙ ap (λ z. z.active_channels b'.tx) sent
            ∙ ap (λ c. c b'.tx)
                (request_sent_active r.world tx own (request_id a) src
                  (request_data stop_dispatcher) its)))
          mine in
      let r' = halted code s src (request_id a) in
      (
        r',
        process-stops code t (record r { world = w }) r'
            (try_stop code s src (request_id a) more q),
        refl,
        ap (λ c. (c tx).queue)
              (response_elsewhere b' (request_id a) (response_data dispatcher_stopped)
                (drop_queued_messages r.dispatcher v'))
            ∙ drop_queued_messages_empties r.dispatcher v',
        response_arrives (drop_queued_messages r.dispatcher v') b' (request_id a)
            (response_data dispatcher_stopped)
            (IsFree-drop_queued_messages r.dispatcher v' b'.tx free
              (ap (refusals b'.tx) left ∙ none_of_it)),
        stop_dispatcher_for-arrived a r.world os valid,
        drop_dispatcher-IsGone r'.dispatcher meanwhile r'.world,
      )
