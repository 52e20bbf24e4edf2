-- ===== src/Mpsc/Spawn.antt =====
-- `spawn_dispatcher` of src/mpsc_dispatcher.rs, up to the thread that it starts, whose steps are those
-- of `process`.
use rtactor_rs.Base.{
  ℕ, ◌<◌, ◌≡◌, refl, ap, ◌∙◌, true, false, Option, some, List, [], ◌∷◌, ◌++◌, arith,
}
use rtactor_rs.Actor.Channel.{sync_channel, try_send}
use rtactor_rs.Actor.Message.{
  Env, Addr, Any, boxed, request_data, execute_fn, user_fn, Message, request, ok_response, reactive,
}
use rtactor_rs.Actor.World.{
  generate_actor_id, World, Result, ok, MessageAndDstId, send_reactive, send_on,
}
use rtactor_rs.Actor.Delivery.{receive_request}
use rtactor_rs.Reactive.Address as Reactive
use rtactor_rs.Reactive.Context.{Context, send_addr_id_response}
use rtactor_rs.Active.Mailbox.{RecvTimeout, arrived, request_for, request_loop, request_round}
use rtactor_rs.Active.Mailbox as Active
use rtactor_rs.Mpsc.Registry.{MpscDispatcher}
use rtactor_rs.Mpsc.Process.{
  UserCode, Running, receive, execute, process_current_message, process_dispatcher_message,
  process_dispatcher_request, try_process_message,
}
use rtactor_rs.Mpsc.Process.Drain.{receive_some}
use rtactor_rs.Mpsc.Loop.{Tick, polling, process}
use rtactor_rs.Mpsc.Answering.{process-processed}
use rtactor_rs.Mpsc.Builder as Builder
use rtactor_rs.Dispatcher.{dispatcher_addr, SyncAccessor, Returned, returns, panics, run_fn}
use rtactor_rs.Dispatcher as Dispatcher
use rtactor_rs.Dispatcher.Requests.{request_id}
use mathlib.Core.Option

-- What the thread is given, the shared state when the setup function is asked for, and, once that
-- has answered, the address and the output.
pub record Spawned (u : Env) (T : Type 0) : Type 0 where
  pub dispatcher : MpscDispatcher u
  pub accessor : SyncAccessor u
  pub world : World u
  pub output : Option (Addr × Returned T)

-- The `unwrap` of the result of `execute_fn`.
unwrap_output : {T : Type 0} → Returned (Result T) → Returned T
unwrap_output (returns (ok t)) = returns t
unwrap_output _ = panics

module _ {u : Env} {T : Type 0} (downcast : Any u → Option T) where
  -- `spawn_dispatcher`.
  unfoldable pub spawn_dispatcher : ℕ → u.Function → World u → List (RecvTimeout u) → Spawned u T
  unfolding unwrap_output dispatcher_addr
  spawn_dispatcher queue_size setup_func w os =
      let (b, w₁) = Builder.new queue_size w in
      let (a, w₂) = Builder.to_accessor b w₁ in
      let (w₃, o) = run_fn downcast a (user_fn setup_func) w₂ os in
      record {
        dispatcher = Builder.build b;
        accessor = a;
        world = w₃;
        output = Option.map (λ t. (dispatcher_addr a, unwrap_output t.0)) o;
      }

  -- The request for the setup function.
  abbrev pub setup_request : SyncAccessor u → u.Function → Message u
  setup_request a f =
      request (Active.addr a.mailbox) (request_id a) (request_data (execute_fn (user_fn f)))

  spawn-output :
      (queue_size : ℕ) (f : u.Function) (w : World u) (os : List (RecvTimeout u)) (d : Any u)
      (out : T)
      → downcast d ≡ some out
      → let s = spawn_dispatcher queue_size f w [] in
        (spawn_dispatcher queue_size f w
          (arrived (ok_response (request_id s.accessor) (boxed d)) ∷ os)).output
        ≡ some (dispatcher_addr s.accessor, returns out)
  unfolding spawn_dispatcher run_fn request_for request_loop request_round
  spawn-output queue_size f w os d out h = ground arith

  new-reactive_channels :
      (queue_size : ℕ) (w : World u)
      → let (b, w₁) = Builder.new queue_size w in
        ((Builder.to_accessor b w₁).1.reactive_channels b.tx ≡ sync_channel queue_size)
  unfolding Builder.new Builder.to_accessor Active.new Dispatcher.new generate_actor_id
  new-reactive_channels queue_size w = ground arith

  receive_request-queue :
      (tx dst : ℕ) (src : Addr) (id : ℕ) (d : Any u) (w : World u) (queue_size : ℕ)
      → 0 < queue_size
      → w.reactive_channels tx ≡ sync_channel queue_size
      → ((receive_request (reactive tx dst) src id d w).reactive_channels tx).queue
        ≡ record { message = request src id d; dst_id = dst } ∷ []
  unfolding receive_request Reactive.receive_request send_reactive send_on try_send sync_channel
  receive_request-queue tx dst src id d w queue_size h e =
      ground (arith, ap (λ c. c.queue) e, ap (λ c. c.has_receiver) e, ap (λ c. c.capacity) e)

  spawn-queue :
      (queue_size : ℕ) (f : u.Function) (w : World u)
      → 0 < queue_size
      → let s = spawn_dispatcher queue_size f w [] in
        ((s.world.reactive_channels s.dispatcher.tx).queue
          ≡ record { message = setup_request s.accessor f; dst_id = s.dispatcher.disp_actor_id }
            ∷ [])
  unfolding spawn_dispatcher run_fn request_for receive_request Builder.new Builder.to_accessor
      Builder.build generate_actor_id
  spawn-queue queue_size f w h =
      let (b, w₁) = Builder.new queue_size w in
      receive_request-queue b.tx b.disp_actor_id _ _ _ (Builder.to_accessor b w₁).1 queue_size h
        (new-reactive_channels queue_size w)

module _ {u : Env} (code : UserCode u) where
  process_dispatcher_request-user_fn :
      (r : Running u) (src : Addr) (id : ℕ) (f : u.Function) (d : Any u) (m' : MpscDispatcher u)
      (w' : World u)
      → code.call f r.dispatcher r.world ≡ some (d, m', w')
      → process_dispatcher_request code r src id (request_data (execute_fn (user_fn f)))
        ≡ some
            (false, record r { dispatcher = m'; world = send_addr_id_response src id (boxed d) w' })
  unfolding process_dispatcher_request execute
  process_dispatcher_request-user_fn r src id f d m' w' h = ground (arith, h)

  process_current_message-user_fn :
      (r : Running u) (src : Addr) (id : ℕ) (f : u.Function) (d : Any u) (m' : MpscDispatcher u)
      (w' : World u)
      → code.call f r.dispatcher r.world ≡ some (d, m', w')
      → process_current_message code r (record {
        message = request src id (request_data (execute_fn (user_fn f)));
        dst_id = r.dispatcher.disp_actor_id;
      })
        ≡ some
            (false, record r { dispatcher = m'; world = send_addr_id_response src id (boxed d) w' })
  unfolding process_current_message process_dispatcher_message
  process_current_message-user_fn r src id f d m' w' h =
      ground (arith, process_dispatcher_request-user_fn r src id f d m' w' h)

  setup-step :
      (r : Running u) (src : Addr) (id : ℕ) (f : u.Function) (more : List (MessageAndDstId u))
      (d : Any u) (m' : MpscDispatcher u) (w' : World u)
      → (r.world.reactive_channels r.dispatcher.tx).queue
        ≡ record {
          message = request src id (request_data (execute_fn (user_fn f)));
          dst_id = r.dispatcher.disp_actor_id;
        }
          ∷ more
      → code.call f r.dispatcher (receive r.dispatcher.tx r.world).0 ≡ some (d, m', w')
      → try_process_message code r
        ≡ some (
          (true, false),
          record r { dispatcher = m'; world = send_addr_id_response src id (boxed d) w' },
        )
  unfolding try_process_message
  setup-step r src id f more d m' w' q h =
      let r' = record r { world = (receive r.dispatcher.tx r.world).0 } in
      rw ((receive_some r.dispatcher.tx r.world _ more q).0, try_process_message)
        (rw (process_current_message-user_fn r' src id f d m' w' h) refl)

  -- A dispatcher that is spawned with room for at least one message runs the setup function before
  -- anything else, whatever other threads have sent behind the request for it, and answers with the
  -- output, if the function returns; with this answer, the caller gets the dispatcher's address and the
  -- output.
  pub spawn_dispatcher-process :
      {T : Type 0} (downcast : Any u → Option T) (queue_size : ℕ) (f : u.Function) (w : World u)
      (os : List (RecvTimeout u)) (t : Tick u) (c : Context) (more : List (MessageAndDstId u))
      (d : Any u) (m' : MpscDispatcher u) (w' : World u) (out : T)
      → 0 < queue_size
      → let s = spawn_dispatcher downcast queue_size f w [] in
        ((t.others s.world).reactive_channels s.dispatcher.tx).queue
          ≡ (s.world.reactive_channels s.dispatcher.tx).queue ++ more
        → code.call f s.dispatcher (receive s.dispatcher.tx (t.others s.world)).0 ≡ some (d, m', w')
        → downcast d ≡ some out
        → (process code
              (t ∷ [])
              polling
              (record { dispatcher = s.dispatcher; context = c; world = s.world })
            ≡ some (
              polling,
              record {
                dispatcher = m';
                context = c;
                world =
                    send_addr_id_response
                      (Active.addr s.accessor.mailbox)
                      (request_id s.accessor)
                      (boxed d)
                      w';
              },
            ))
          × ((spawn_dispatcher downcast queue_size f w
                (arrived (ok_response (request_id s.accessor) (boxed d)) ∷ os)).output
              ≡ some (dispatcher_addr s.accessor, returns out))
  spawn_dispatcher-process downcast queue_size f w os t c more d m' w' out h q k o =
      let s = spawn_dispatcher downcast queue_size f w [] in
      let r : Running u = record {
        dispatcher = s.dispatcher;
        context = c;
        world = t.others s.world;
      } in
      (
        process-processed code t (record r { world = s.world }) _
            (setup-step r _ _ f more d m' w'
              (q ∙ ap (λ ms. ms ++ more) (spawn-queue downcast queue_size f w h)) k),
        spawn-output downcast queue_size f w os d out o,
      )
