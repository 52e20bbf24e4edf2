-- ===== src/Mpsc/Process/Sending.antt =====
-- A dispatcher that goes on takes no other message from its queue than the one it processes.
use rtactor_rs.Base.{
  ℕ, ◌≡◌, refl, ap, sym, subst, ◌∙◌, false, inl, inr, Option, none, some, arith, ◌==◌, Bool-cases,
  Option-cases, get_elem?,
}
use rtactor_rs.Actor.Message.{
  Env, Addr, Any, Message, request, request_data, boxed, register_reactive, execute_fn,
  stop_reactive, stop_dispatcher, ExecutableFn, user_fn, replace_fn,
}
use rtactor_rs.Actor.World.{World, MessageAndDstId, generate_actor_id}
use rtactor_rs.Reactive.Context.{Context, send_addr_id_response}
use rtactor_rs.Mpsc.Registry.{
  MpscDispatcher, get_behavior_index, replace_reactive, replace_reactive_by_id,
}
use rtactor_rs.Mpsc.Registry as Registry
use rtactor_rs.Mpsc.Process.{
  UserCode, Running, refuse_request, execute, react_at, process_registration,
  process_dispatcher_request, process_dispatcher_message, process_reactive_message,
  process_current_message,
}
use rtactor_rs.Mpsc.Extending.{
  Extends, Extends-refl, Extends-trans, Extends-eq, send_addr_id_response-Extends,
  refuse_request-Extends,
}

-- The users' code can send to dispatchers, and a function that runs inside one does not move it to
-- another queue or id; only a dispatcher takes messages from its queue.
pub record OnlySends {u : Env} (code : UserCode u) : Type 0 where
  pub in_messages :
      (b b' : u.Behavior) (c c' : Context) (w w' : World u) (m : Message u)
      → code.process_message b c w m ≡ some (b', c', w')
      → Extends w w'
  pub in_calls :
      (f : u.Function) (m m' : MpscDispatcher u) (w w' : World u) (d : Any u)
      → code.call f m w ≡ some (d, m', w')
      → Extends w w' × (m'.tx ≡ m.tx) × (m'.disp_actor_id ≡ m.disp_actor_id)

module _ {u : Env} where
  -- What a step leaves as it is, and what it does to the queues.
  pub record Stays (s s' : Running u) : Type 0 where
    pub same_tx : s'.dispatcher.tx ≡ s.dispatcher.tx
    pub same_id : s'.dispatcher.disp_actor_id ≡ s.dispatcher.disp_actor_id
    pub extends : Extends s.world s'.world

  replace_same :
      (m : MpscDispatcher u) (a : Addr) (b : u.Behavior)
      → ((replace_reactive m a b).1.tx ≡ m.tx)
        × ((replace_reactive m a b).1.disp_actor_id ≡ m.disp_actor_id)
  unfolding replace_reactive
  replace_same m a b = ground arith

  Stays-eq : (s t t' : Running u) → Stays s t → t ≡ t' → Stays s t'
  Stays-eq s t t' k e = subst (Stays s) e k

  executed-Stays :
      (s : Running u) (m : MpscDispatcher u) (w : World u) (src : Addr) (id : ℕ) (d : Any u)
      → m.tx ≡ s.dispatcher.tx
      → m.disp_actor_id ≡ s.dispatcher.disp_actor_id
      → Extends s.world w
      → Stays s (record s { dispatcher = m; world = send_addr_id_response src id d w })
  executed-Stays s m w src id d tx own x = record {
    same_tx = tx;
    same_id = own;
    extends =
        Extends-trans s.world w (send_addr_id_response src id d w) x
          (send_addr_id_response-Extends src id d w);
  }

module _ {u : Env} (code : UserCode u) (sends : OnlySends code) where
  execute-Extends :
      (f : ExecutableFn u) (m m' : MpscDispatcher u) (w w' : World u) (d : Any u)
      → execute code f m w ≡ some (d, m', w')
      → Extends w w' × (m'.tx ≡ m.tx) × (m'.disp_actor_id ≡ m.disp_actor_id)
  unfolding execute
  execute-Extends (user_fn f) m m' w w' d e = sends.in_calls f m m' w w' d e
  execute-Extends (replace_fn a b) m m' w w' d e =
      let same : w ≡ w' = ground arith in
      let m'' : (replace_reactive m a b).1 ≡ m' = ground arith in
      let (p, q) = replace_same m a b in
      (
        subst (Extends w) same (Extends-refl w),
        ap (λ n. n.tx) (sym m'') ∙ p,
        ap (λ n. n.disp_actor_id) (sym m'') ∙ q,
      )

  registration-Stays :
      (s : Running u) (src : Addr) (id : ℕ) (o : Option u.Behavior)
      → Stays s (process_registration code s src id o)
  unfolding process_registration Registry.register_reactive generate_actor_id
  registration-Stays s src id none = record {
    same_tx = refl;
    same_id = refl;
    extends = send_addr_id_response-Extends src id _ s.world;
  }
  registration-Stays s src id (some b) = record {
    same_tx = refl;
    same_id = refl;
    extends = send_addr_id_response-Extends src id _ _;
  }

  request-Stays :
      (s s' : Running u) (src : Addr) (id : ℕ) (d : Any u)
      → process_dispatcher_request code s src id d ≡ some (false, s')
      → Stays s s'
  unfolding process_dispatcher_request
  request-Stays s s' src id (request_data (register_reactive b)) e =
      subst (Stays s) (ground arith) (registration-Stays s src id b)
  request-Stays s s' src id (request_data (execute_fn f)) e =
      elim (Option-cases (execute code f s.dispatcher s.world)) [
        | inl n ↦ absurd (ground arith)
        | inr ((d, m, w), p) ↦
            let (x, tx, own) = execute-Extends f s.dispatcher m s.world w d p in
            Stays-eq s
              (record s { dispatcher = m; world = send_addr_id_response src id (boxed d) w }) s'
              (executed-Stays s m w src id (boxed d) tx own x) (ground arith)
      ]
  request-Stays s s' src id (request_data (stop_reactive a)) e =
      Stays-eq s s s' (record { same_tx = refl; same_id = refl; extends = Extends-refl s.world })
        (ground arith)
  request-Stays s s' src id (request_data stop_dispatcher) e = absurd (ground arith)
  request-Stays s s' src id _ e = absurd (ground arith)

  message-Stays :
      (s s' : Running u) (m : Message u)
      → process_dispatcher_message code s m ≡ some (false, s')
      → Stays s s'
  unfolding process_dispatcher_message
  message-Stays s s' (request src id d) e = request-Stays s s' src id d e
  message-Stays s s' _ e = absurd (ground arith)

  react_at-Stays :
      (s s' : Running u) (i : ℕ) (o : Option (ℕ × u.Behavior)) (m : Message u)
      → react_at code s i o m ≡ some s'
      → Stays s s'
  unfolding react_at
  react_at-Stays s s' i none m e = absurd (ground arith)
  react_at-Stays s s' i (some (k, b)) m e =
      elim (Option-cases (code.process_message b s.context s.world m)) [
        | inl n ↦ absurd (ground arith)
        | inr ((b', c, w), p) ↦ record {
          same_tx = ground arith;
          same_id = ground arith;
          extends =
              Extends-eq s.world w s'.world (sends.in_messages b b' s.context c s.world w m p)
                (ground arith);
        }
      ]

  reactive-Stays :
      (s s' : Running u) (m : Message u) → process_reactive_message code s m ≡ some s' → Stays s s'
  unfolding process_reactive_message
  reactive-Stays s s' m e =
      elim (Option-cases (get_behavior_index s.dispatcher s.context.own_actor_id)) [
        | inl n ↦ record {
          same_tx = ground arith;
          same_id = ground arith;
          extends =
              Extends-eq s.world (refuse_request m s.world) s'.world
                (refuse_request-Extends m s.world) (ground arith);
        }
        | inr (i, p) ↦
            react_at-Stays s s' i (get_elem? s.dispatcher.reactive_list i) m (ground arith)
      ]

  pub process_current_message-Stays :
      (s s' : Running u) (m : MessageAndDstId u)
      → process_current_message code s m ≡ some (false, s')
      → Stays s s'
  unfolding process_current_message
  process_current_message-Stays s s' m e =
      elim (Bool-cases (m.dst_id == s.dispatcher.disp_actor_id)) [
        | inl own ↦ message-Stays s s' m.message (ground arith)
        | inr other ↦
            let t = record s { context = record (s.context) { own_actor_id = m.dst_id } } in
            elim (Option-cases (process_reactive_message code t m.message)) [
              | inl n ↦ absurd (ground arith)
              | inr (t', p) ↦
                  let k = reactive-Stays t t' m.message p in
                  Stays-eq s t' s'
                    (record { same_tx = k.same_tx; same_id = k.same_id; extends = k.extends })
                    (ground arith)
            ]
      ]
