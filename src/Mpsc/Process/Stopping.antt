-- ===== src/Mpsc/Process/Stopping.antt =====
-- What makes a dispatcher stop, and what it does then.
use rtactor_rs.Base.{ℕ, ◌≡◌, refl, inl, inr, true, some, [], ◌==◌, arith, Bool-cases, Option-cases}
use rtactor_rs.Actor.Message.{
  Env, Addr, Any, request_data, response_data, register_reactive, execute_fn, stop_reactive,
  stop_dispatcher, dispatcher_stopped, Message, request,
}
use rtactor_rs.Actor.World.{MessageAndDstId}
use rtactor_rs.Reactive.Context.{send_addr_id_response}
use rtactor_rs.Mpsc.Process.{
  UserCode, Running, execute, drop_queued_messages, process_dispatcher_request,
  process_dispatcher_message, process_current_message,
}

module _ {u : Env} where
  -- The state after the stop that a request asks for.
  pub record Stops (s s' : Running u) (m : Message u) : Type 0 where
    pub src : Addr
    pub id : ℕ
    pub asked : m ≡ request src id (request_data stop_dispatcher)
    pub cleared : s'.dispatcher.reactive_list ≡ []
    pub answered :
        s'.world
        ≡ send_addr_id_response src id
            (response_data dispatcher_stopped)
            (drop_queued_messages s.dispatcher s.world)

module _ {u : Env} (code : UserCode u) where
  request-Stops :
      (s s' : Running u) (src : Addr) (id : ℕ) (d : Any u)
      → process_dispatcher_request code s src id d ≡ some (true, s')
      → Stops s s' (request src id d)
  unfolding process_dispatcher_request
  request-Stops s s' src id (request_data stop_dispatcher) e = record {
    src = src;
    id = id;
    asked = refl;
    cleared = ground arith;
    answered = ground arith;
  }
  request-Stops s s' src id (request_data (register_reactive b)) e = absurd (ground arith)
  request-Stops s s' src id (request_data (execute_fn f)) e =
      elim (Option-cases (execute code f s.dispatcher s.world)) [
        | inl n ↦ absurd (ground arith)
        | inr (r, p) ↦ absurd (ground arith)
      ]
  request-Stops s s' src id (request_data (stop_reactive a)) e = absurd (ground arith)
  request-Stops s s' src id _ e = absurd (ground arith)

  message-Stops :
      (s s' : Running u) (m : Message u)
      → process_dispatcher_message code s m ≡ some (true, s')
      → Stops s s' m
  unfolding process_dispatcher_message
  message-Stops s s' (request src id d) e = request-Stops s s' src id d e
  message-Stops s s' _ e = absurd (ground arith)

  -- Only a `StopDispatcher` request to the dispatcher itself makes it stop. It then answers the
  -- requests that are still queued with an error, drops all behaviours, and answers the request.
  pub process_current_message-Stops :
      (s s' : Running u) (m : MessageAndDstId u)
      → process_current_message code s m ≡ some (true, s')
      → (m.dst_id ≡ s.dispatcher.disp_actor_id) × Stops s s' m.message
  unfolding process_current_message
  process_current_message-Stops s s' m e =
      elim (Bool-cases (m.dst_id == s.dispatcher.disp_actor_id)) [
        | inl own ↦ (ground arith, message-Stops s s' m.message (ground arith))
        | inr other ↦ absurd (ground arith)
      ]
