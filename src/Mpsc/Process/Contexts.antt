-- ===== src/Mpsc/Process/Contexts.antt =====
-- What the processing of a message keeps of the context of a dispatcher.
use rtactor_rs.Actor.Channel.{RecvResult, received, empty, closed}
use rtactor_rs.Base.{
  true, false, subst, ℕ, ◌≡◌, refl, inl, inr, Bool, Option, none, some, ◌==◌, arith, Bool-cases,
  Option-cases, get_elem?,
}
use rtactor_rs.Actor.Message.{
  Env, Addr, Any, Message, request, request_data, register_reactive, execute_fn, stop_reactive,
  stop_dispatcher,
}
use rtactor_rs.Actor.World.{World, MessageAndDstId}
use rtactor_rs.Reactive.Timer.{timer_ord}
use rtactor_rs.Reactive.Context.{Context}
use rtactor_rs.Mpsc.Process.{
  UserCode, Running, execute, react_at, process_dispatcher_request, process_dispatcher_message,
  process_reactive_message, process_current_message, receive, try_process_message,
}
use rtactor_rs.Mpsc.Registry.{get_behavior_index}

module _ {u : Env} (code : UserCode u) (P : Context → Type 0)
    (enters : (c : Context) (id : ℕ) → P c → P (record c { own_actor_id = id }))
    (keeps : (b b' : u.Behavior) (c c' : Context) (w w' : World u) (m : Message u)
      → P c
      → code.process_message b c w m ≡ some (b', c', w')
      → P c') where
  process_dispatcher_request-context :
      (s s' : Running u) (src : Addr) (id : ℕ) (d : Any u) (stop : Bool)
      → process_dispatcher_request code s src id d ≡ some (stop, s')
      → s'.context ≡ s.context
  unfolding process_dispatcher_request
  process_dispatcher_request-context s s' src id (request_data (register_reactive none)) stop e =
      ground arith
  process_dispatcher_request-context s s' src id (request_data (register_reactive (some b))) stop
        e =
      ground arith
  process_dispatcher_request-context s s' src id (request_data (execute_fn f)) stop e =
      elim (Option-cases (execute code f s.dispatcher s.world)) [
        | inl n ↦ absurd (ground arith)
        | inr (r, p) ↦ ground arith
      ]
  process_dispatcher_request-context s s' src id (request_data (stop_reactive a)) stop e =
      ground arith
  process_dispatcher_request-context s s' src id (request_data stop_dispatcher) stop e =
      ground arith
  process_dispatcher_request-context s s' src id _ stop e = absurd (ground arith)

  process_dispatcher_message-context :
      (s s' : Running u) (m : Message u) (stop : Bool)
      → process_dispatcher_message code s m ≡ some (stop, s')
      → s'.context ≡ s.context
  unfolding process_dispatcher_message
  process_dispatcher_message-context s s' (request src id d) stop e =
      process_dispatcher_request-context s s' src id d stop e
  process_dispatcher_message-context s s' _ stop e = absurd (ground arith)

  react_at_keeps :
      (s s' : Running u) (i : ℕ) (o : Option (ℕ × u.Behavior)) (m : Message u)
      → P s.context
      → react_at code s i o m ≡ some s'
      → P s'.context
  unfolding react_at
  react_at_keeps s s' i none m h e = absurd (ground arith)
  react_at_keeps s s' i (some (k, b)) m h e =
      elim (Option-cases (code.process_message b s.context s.world m)) [
        | inl n ↦ absurd (ground arith)
        | inr ((b', c, w), p) ↦ let k = keeps b b' s.context c s.world w m h p in ground arith
      ]

  process_reactive_message_keeps :
      (s s' : Running u) (m : Message u)
      → P s.context
      → process_reactive_message code s m ≡ some s'
      → P s'.context
  unfolding process_reactive_message
  process_reactive_message_keeps s s' m h e =
      elim (Option-cases (get_behavior_index s.dispatcher s.context.own_actor_id)) [
        | inl n ↦ ground arith
        | inr (i, p) ↦
            react_at_keeps s s' i (get_elem? s.dispatcher.reactive_list i) m h (ground arith)
      ]

  pub process_current_message_keeps :
      (s s' : Running u) (m : MessageAndDstId u) (stop : Bool)
      → P s.context
      → process_current_message code s m ≡ some (stop, s')
      → P s'.context
  unfolding process_current_message
  process_current_message_keeps s s' m stop h e =
      elim (Bool-cases (m.dst_id == s.dispatcher.disp_actor_id)) [
        | inl own ↦
            let same = process_dispatcher_message-context s s' m.message stop (ground arith) in
            ground arith
        | inr other ↦
            let t = record s { context = record (s.context) { own_actor_id = m.dst_id } } in
            elim (Option-cases (process_reactive_message code t m.message)) [
              | inl n ↦ absurd (ground arith)
              | inr (t', p) ↦
                  let k =
                    process_reactive_message_keeps t t' m.message (enters s.context m.dst_id h) p in
                  ground arith
            ]
      ]

  received_keeps :
      (s s' : Running u) (o : Option (Bool × Running u)) (m : MessageAndDstId u)
      (flags : Bool × Bool)
      → P s.context
      → process_current_message code s m ≡ o
      → elim o as (λ x. Option ((Bool × Bool) × Running u)) [
        | none ↦ none
        | some (stop, s'') ↦ some ((true, stop), s'')
      ]
        ≡ some (flags, s')
      → P s'.context
  received_keeps s s' none m flags h q e = absurd (ground arith)
  received_keeps s s' (some (stop, t)) m flags h q e =
      let same : t ≡ s' = ground arith in
      subst (λ z. P z.context) same (process_current_message_keeps s t m stop h q)

  taken_keeps :
      (s s' : Running u) (o : RecvResult (MessageAndDstId u)) (flags : Bool × Bool)
      → P s.context
      → elim o as (λ x. Option ((Bool × Bool) × Running u)) [
        | received m ↦ elim (process_current_message code s m) [
          | none ↦ none
          | some (stop, s'') ↦ some ((true, stop), s'')
        ]
        | empty ↦ some ((false, false), s)
        | closed ↦ some ((false, true), s)
      ]
        ≡ some (flags, s')
      → P s'.context
  taken_keeps s s' (received m) flags h e =
      received_keeps s s' (process_current_message code s m) m flags h refl e
  taken_keeps s s' empty flags h e =
      let same : s ≡ s' = ground arith in subst (λ z. P z.context) same h
  taken_keeps s s' closed flags h e =
      let same : s ≡ s' = ground arith in subst (λ z. P z.context) same h

  pub try_process_message_keeps :
      (s s' : Running u) (flags : Bool × Bool)
      → P s.context
      → try_process_message code s ≡ some (flags, s')
      → P s'.context
  unfolding try_process_message
  try_process_message_keeps s s' flags h e =
      let (w, o) = receive s.dispatcher.tx s.world in
      taken_keeps (record s { world = w }) s' o flags h e
