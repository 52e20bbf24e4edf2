-- ===== src/Mpsc/Loop/Order.antt =====
-- The loop of a dispatcher as a system of actors that are served from one queue.
use rtactor_rs.Base.{
  ℕ, ◌≡◌, ◌≢◌, refl, sym, ap, subst, ◌∙◌, ◌⊎◌, inl, inr, Bool, true, false, some, List, [], ◌∷◌,
  ◌++◌, ◌==◌, arith, append_assoc, Bool-cases, Option-cases,
}
use rtactor_rs.Actor.Channel.{try_recv}
use rtactor_rs.Actor.Message.{Env, notification, timeout_id}
use rtactor_rs.Actor.World.{World, MessageAndDstId, send_reactive}
use rtactor_rs.Reactive.Instant.{finite, saturating_sub}
use rtactor_rs.Reactive.Timer.{Timer, timer_ord}
use rtactor_rs.Reactive.Context.{
  Context, ControlFlow, send_timeout, try_send_first, try_send_next_pending_timeout,
}
use rtactor_rs.BTree.{BTreeMap}
use rtactor_rs.Mpsc.Process.{
  UserCode, Running, receive, process_dispatcher_message, process_current_message,
  try_process_message,
}
use rtactor_rs.Mpsc.Registry.Lookup.{behavior_at}
use rtactor_rs.Mpsc.Process.Serving.{actors_of, serve, served}
use rtactor_rs.Mpsc.Process.Sending.{OnlySends, Stays, process_current_message-Stays}
use rtactor_rs.Mpsc.Extending.{queue_at, Extends, Extends-refl, Extends-eq, send_reactive-Extends}
use rtactor_rs.Mpsc.Loop.{
  Tick, Phase, polling, blocking, stopped, after_timeout, next_timeout, after_message, after_block,
  block_process_message, process_step,
}

module _ {u : Env} where
  abbrev pub queue_of : Running u → List (MessageAndDstId u)
  queue_of r = queue_at r.world r.dispatcher.tx

  try_send_first-Extends :
      (c c' : Context) (m : BTreeMap Timer ℕ) (w w' : World u) (f : ControlFlow ℕ)
      → try_send_first c m w ≡ some (f, c', w')
      → Extends w w'
  unfolding try_send_first send_timeout
  try_send_first-Extends c c' [] w w' f e = Extends-eq w w w' (Extends-refl w) (ground arith)
  try_send_first-Extends c c' ((k, id) ∷ m) w w' f e =
      elim (Option-cases (saturating_sub k.deadline c.clock)) [
        | inl n ↦ absurd (ground arith)
        | inr (d, p) ↦ elim (Bool-cases (d == 0)) [
          | inl now ↦
              let s : MessageAndDstId u = record {
                message = notification (timeout_id k.id);
                dst_id = id;
              } in
              Extends-eq w (send_reactive w c.tx s).0 w' (send_reactive-Extends w c.tx s)
                (ground arith)
          | inr later ↦ Extends-eq w w w' (Extends-refl w) (ground arith)
        ]
      ]

  next_timeout-Extends :
      (now : ℕ) (p : Phase) (r r' : Running u)
      → next_timeout now r ≡ some (p, r')
      → (r'.dispatcher ≡ r.dispatcher) × Extends r.world r'.world
  unfolding next_timeout try_send_next_pending_timeout after_timeout
  next_timeout-Extends now p r r' e =
      let c : Context = record (r.context) { clock = finite now } in
      elim (Option-cases (try_send_first c c.scheduler.timeout_list r.world)) [
        | inl n ↦ absurd (ground arith)
        | inr ((f, c', w'), q) ↦
            let x = try_send_first-Extends c c' c.scheduler.timeout_list r.world w' f q in
            (ground arith, Extends-eq r.world w' r'.world x (ground arith))
      ]

  -- The shared state after the other threads and the look for a message.
  abbrev pub taken : Tick u → Running u → World u
  taken t r = (receive r.dispatcher.tx (t.others r.world)).0

-- What a step of the loop does with the messages that it takes: none, or one.
pub data Step {u : Env} (code : UserCode u) (t : Tick u) (r : Running u)
    (handled : List (MessageAndDstId u)) (r' : Running u) : Type 0 where
  rests :
      handled ≡ [] → (actors_of r').behaviors ≡ (actors_of r).behaviors → Step code t r handled r'
  serves :
      (m : MessageAndDstId u)
      → handled ≡ m ∷ []
      → m.dst_id ≢ r.dispatcher.disp_actor_id
      → serve code (record (actors_of r) { world = taken t r }) m ≡ some (actors_of r')
      → Step code t r handled r'
  obeys :
      (m : MessageAndDstId u)
      → handled ≡ m ∷ []
      → m.dst_id ≡ r.dispatcher.disp_actor_id
      → process_dispatcher_message code (record r { world = taken t r }) m.message
        ≡ some (false, r')
      → Step code t r handled r'

module _ {u : Env} (code : UserCode u) where
  -- What a step takes from the front of the queue, and what has come to its end.
  pub record Advances (t : Tick u) (r r' : Running u) : Type 0 where
    pub handled : List (MessageAndDstId u)
    pub arrived : List (MessageAndDstId u)
    pub step : Step code t r handled r'
    pub order : handled ++ queue_of r' ≡ queue_of r ++ arrived
    pub own : r'.dispatcher.disp_actor_id ≡ r.dispatcher.disp_actor_id

  current-Step :
      (t : Tick u) (r r' : Running u) (m : MessageAndDstId u)
      → process_current_message code (record r { world = taken t r }) m ≡ some (false, r')
      → Step code t r (m ∷ []) r'
  unfolding process_current_message
  current-Step t r r' m e = elim (Bool-cases (m.dst_id == r.dispatcher.disp_actor_id)) [
    | inl own ↦ obeys m refl (ground arith) (ground arith)
    | inr other ↦
        serves m refl (ground arith)
          (served code (record r { world = taken t r }) r' m false (ground arith) e).1
  ]

  found :
      (s s' : Running u) (flags : Bool × Bool) (q : List (MessageAndDstId u))
      → queue_of s ≡ q
      → try_process_message code s ≡ some (flags, s')
      → ((q ≡ []) × (flags.0 ≡ false) × (s'.dispatcher ≡ s.dispatcher) × (queue_of s' ≡ []))
        ⊎ ((m : MessageAndDstId u) × (rest : List (MessageAndDstId u)) × (q ≡ m ∷ rest)
            × (flags.0 ≡ true)
            × (process_current_message code
                  (record s { world = (receive s.dispatcher.tx s.world).0 })
                  m
                ≡ some (flags.1, s'))
            × (queue_at (receive s.dispatcher.tx s.world).0 s.dispatcher.tx ≡ rest))
  unfolding try_process_message receive try_recv
  found s s' flags [] h e = inl (refl, ground arith, ground arith, ground arith)
  found s s' flags (m ∷ q) h e =
      let w = (receive s.dispatcher.tx s.world).0 in
      elim (Option-cases (process_current_message code (record s { world = w }) m)) [
        | inl n ↦ absurd (ground arith)
        | inr ((stop, s''), p) ↦ inr (m, q, refl, ground arith, ground arith, ground arith)
      ]

  taken-Advances :
      (t : Tick u) (r r' : Running u) (m : MessageAndDstId u) (rest : List (MessageAndDstId u))
      → Extends r.world (t.others r.world)
      → queue_at (t.others r.world) r.dispatcher.tx ≡ m ∷ rest
      → queue_at (taken t r) r.dispatcher.tx ≡ rest
      → process_current_message code (record r { world = taken t r }) m ≡ some (false, r')
      → Stays (record r { world = taken t r }) r'
      → Advances t r r'
  taken-Advances t r r' m rest x q q' e stays =
      let (k, p) = x r.dispatcher.tx in
      let (l, p') = stays.extends r.dispatcher.tx in
      record {
        handled = m ∷ [];
        arrived = k ++ l;
        step = current-Step t r r' m e;
        order =
            ap (λ z. m ∷ z) (ap (queue_at r'.world) stays.same_tx ∙ p' ∙ ap (λ z. z ++ l) q')
            ∙ ap (λ z. z ++ l) (sym q ∙ p)
            ∙ append_assoc (queue_of r) k l;
        own = stays.same_id;
      }

  idle-Advances :
      (t : Tick u) (r s r' : Running u)
      → Extends r.world (t.others r.world)
      → queue_at (t.others r.world) r.dispatcher.tx ≡ []
      → s.dispatcher ≡ r.dispatcher
      → queue_of s ≡ []
      → r'.dispatcher ≡ s.dispatcher
      → Extends s.world r'.world
      → Advances t r r'
  idle-Advances t r s r' x q d q' d' y =
      let (k, p) = x r.dispatcher.tx in
      let (l, p') = y s.dispatcher.tx in
      record {
        handled = [];
        arrived = k ++ l;
        step = rests refl (ap (λ m j. behavior_at j m.reactive_list) (d' ∙ d));
        order =
            ap (λ m. queue_at r'.world m.tx) d'
            ∙ p'
            ∙ ap (λ z. z ++ l) (q' ∙ sym q ∙ p)
            ∙ append_assoc (queue_of r) k l;
        own = ap (λ m. m.disp_actor_id) (d' ∙ d);
      }

module _ {u : Env} (code : UserCode u) (sends : OnlySends code) where
  -- What follows the look for a message, if the loop goes on.
  polled-Advances :
      (t : Tick u) (r s r' : Running u) (processed stop : Bool) (p : Phase)
      → Extends r.world (t.others r.world)
      → try_process_message code (record r { world = t.others r.world })
        ≡ some ((processed, stop), s)
      → stop ≡ false
      → (processed ≡ true → r' ≡ s)
      → (processed ≡ false → (r'.dispatcher ≡ s.dispatcher) × Extends s.world r'.world)
      → Advances code t r r'
  polled-Advances t r s r' processed stop p x e go same later =
      elim (found code (record r { world = t.others r.world }) s (processed, stop)
        (queue_at (t.others r.world) r.dispatcher.tx) refl e) [
          | inl (q, idle, d, q') ↦
              idle-Advances code t r s r' x q d q' (later idle).0 (later idle).1
          | inr (m, rest, q, busy, cur, q') ↦
              let cur' : process_current_message code (record r { world = taken t r }) m
                  ≡ some (false, s) =
                ground arith in
              subst (Advances code t r) (sym (same busy)) (
                taken-Advances code t r s m rest x q q' cur' (
                  process_current_message-Stays code sends (record r { world = taken t r }) s m
                    cur'))
        ]

  pub process_step-Advances :
      (t : Tick u) (p p' : Phase) (r r' : Running u)
      → Extends r.world (t.others r.world)
      → p ≢ stopped
      → p' ≢ stopped
      → process_step code t p r ≡ some (p', r')
      → Advances code t r r'
  unfolding process_step after_message after_block
  process_step-Advances t polling p' r r' x go go' e =
      elim (Option-cases (try_process_message code (record r { world = t.others r.world }))) [
        | inl n ↦ absurd (ground arith)
        | inr (((processed, stop), s), q) ↦
            polled-Advances t r s r' processed stop p' x q (ground arith) (λ h. ground arith)
              (λ h. next_timeout-Extends t.now p' s r' (ground arith))
      ]
  process_step-Advances t (blocking d) p' r r' x go go' e =
      elim (Option-cases (block_process_message code (record r { world = t.others r.world }))) [
        | inl n ↦ absurd (ground arith)
        | inr (((processed, stop), s), q) ↦
            polled-Advances t r s r' processed stop p' x
              (unfold block_process_message try_process_message in q) (ground arith)
              (λ h. ground arith)
              (λ h.
                let k : r' ≡ s = ground arith in
                (
                  ap (λ z. z.dispatcher) k,
                  Extends-eq s.world s.world r'.world (Extends-refl s.world)
                      (ap (λ z. z.world) (sym k)),
                ))
      ]
  process_step-Advances t stopped p' r r' x go go' e = absurd (go refl)
