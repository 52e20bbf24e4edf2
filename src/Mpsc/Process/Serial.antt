-- ===== src/Mpsc/Process/Serial.antt =====
-- Several messages of a queue, one after the other, in the dispatcher and in the abstract system.
use mathlib.Core.Option
use rtactor_rs.Base.{
  ℕ, zero, suc, ◌≡◌, ◌≢◌, refl, sym, ap, subst, ◌∙◌, inl, inr, Bool, true, false, Option, none,
  some, List, [], ◌∷◌, ◌==◌, if◌then◌else◌, arith, Bool-cases, Option-cases, get_elem?,
}
use rtactor_rs.Actor.Channel.{try_recv}
use rtactor_rs.Actor.Message.{Env, Message}
use rtactor_rs.Actor.World.{MessageAndDstId}
use rtactor_rs.Mpsc.Extending.{queue_at}
use rtactor_rs.Mpsc.Registry.{get_behavior_index}
use rtactor_rs.Mpsc.Process.{
  UserCode, Running, receive, react_at, process_reactive_message, process_current_message,
  try_process_message,
}
use rtactor_rs.Mpsc.Process.Serving.{
  Actors, actors_of, serve, stop_and_actors, going_on, process_current_message-serve,
}

module _ {u : Env} (code : UserCode u) where
  -- So many calls of `try_process_message` that each find a message and do not stop.
  unfoldable pub process_times : ℕ → Running u → Option (Running u)
  process_times zero r = some r
  process_times (suc n) r = elim (try_process_message code r) [
    | some ((true, false), r') ↦ process_times n r'
    | _ ↦ none
  ]

  -- The same in the abstract system, where the messages are not for the dispatcher itself.
  module _ (tx own : ℕ) where
    serve_first : Actors u → List (MessageAndDstId u) → Option (Actors u)
    serve_first a [] = none
    serve_first a (m ∷ rest) =
        if m.dst_id == own then none else serve code (record a { world = (receive tx a.world).0 }) m

    unfoldable pub serve_next : Actors u → Option (Actors u)
    unfolding serve_first
    serve_next a = serve_first a (queue_at a.world tx)

    unfoldable pub serve_times : ℕ → Actors u → Option (Actors u)
    serve_times zero a = some a
    serve_times (suc n) a = elim (serve_next a) [ none ↦ none | some a' ↦ serve_times n a' ]

    pub serve_next-cons :
        (a : Actors u) (m : MessageAndDstId u) (rest : List (MessageAndDstId u))
        → queue_at a.world tx ≡ m ∷ rest
        → m.dst_id ≢ own
        → serve_next a ≡ serve code (record a { world = (receive tx a.world).0 }) m
    unfolding serve_next
    serve_next-cons a m rest q n =
        ap (serve_first a) q
        ∙ (let other : (m.dst_id == own) ≡ false = ground arith in rw (other, serve_first) refl)

    pub serve_times-suc :
        (n : ℕ) (a a' : Actors u)
        → serve_next a ≡ some a'
        → serve_times (suc n) a ≡ serve_times n a'
    unfolding serve_times
    serve_times-suc n a a' e = rw (e, serve_times) refl

  abbrev SameDispatcher : Running u → Running u → Type 0
  SameDispatcher r r' =
      (r'.dispatcher.tx ≡ r.dispatcher.tx)
      × (r'.dispatcher.disp_actor_id ≡ r.dispatcher.disp_actor_id)

  react_at_same :
      (r r' : Running u) (i : ℕ) (o : Option (ℕ × u.Behavior)) (m : Message u)
      → react_at code r i o m ≡ some r'
      → SameDispatcher r r'
  unfolding react_at
  react_at_same r r' i none m e = absurd (ground arith)
  react_at_same r r' i (some (k, b)) m e =
      elim (Option-cases (code.process_message b r.context r.world m)) [
        | inl n ↦ absurd (ground arith)
        | inr (t, p) ↦ ground arith
      ]

  reactive_same :
      (r r' : Running u) (m : Message u)
      → process_reactive_message code r m ≡ some r'
      → SameDispatcher r r'
  unfolding process_reactive_message
  reactive_same r r' m e =
      elim (Option-cases (get_behavior_index r.dispatcher r.context.own_actor_id)) [
        | inl n ↦ ground arith
        | inr (i, p) ↦
            react_at_same r r' i (get_elem? r.dispatcher.reactive_list i) m (ground arith)
      ]

  current_same :
      (r r' : Running u) (m : MessageAndDstId u) (stop : Bool)
      → m.dst_id ≢ r.dispatcher.disp_actor_id
      → process_current_message code r m ≡ some (stop, r')
      → SameDispatcher r r'
  unfolding process_current_message
  current_same r r' m stop n e =
      let t : Running u = record r { context = record (r.context) { own_actor_id = m.dst_id } } in
      elim (Option-cases (process_reactive_message code t m.message)) [
        | inl k ↦ absurd (ground arith)
        | inr (t', p) ↦ let same = reactive_same t t' m.message p in ground arith
      ]

  try_current :
      (r r' : Running u) (m : MessageAndDstId u) (rest : List (MessageAndDstId u)) (stop : Bool)
      → queue_at r.world r.dispatcher.tx ≡ m ∷ rest
      → process_current_message code (record r { world = (receive r.dispatcher.tx r.world).0 }) m
        ≡ some (stop, r')
      → try_process_message code r ≡ some ((true, stop), r')
  unfolding try_process_message receive try_recv
  try_current r r' m rest stop q e = ground arith

  abbrev Refines : Running u → Actors u → Type 0
  Refines r a =
      (r' : Running u) × (try_process_message code r ≡ some ((true, false), r'))
      × (actors_of r' ≡ a)
      × SameDispatcher r r'

  current-Refines :
      (r : Running u) (a : Actors u) (m : MessageAndDstId u) (rest : List (MessageAndDstId u))
      (o : Option (Bool × Running u))
      → queue_at r.world r.dispatcher.tx ≡ m ∷ rest
      → m.dst_id ≢ r.dispatcher.disp_actor_id
      → process_current_message code (record r { world = (receive r.dispatcher.tx r.world).0 }) m
        ≡ o
      → Option.map stop_and_actors o ≡ some (false, a)
      → Refines r a
  current-Refines r a m rest none q n e h = absurd (ground arith)
  current-Refines r a m rest (some (true, r')) q n e h = absurd (ground arith)
  current-Refines r a m rest (some (false, r')) q n e h = (
    r',
    try_current r r' m rest false q e,
    ground arith,
    current_same (record r { world = (receive r.dispatcher.tx r.world).0 }) r' m false n e,
  )

  first-Refines :
      (r : Running u) (a : Actors u) (q : List (MessageAndDstId u))
      → queue_at r.world r.dispatcher.tx ≡ q
      → serve_first r.dispatcher.tx r.dispatcher.disp_actor_id (actors_of r) q ≡ some a
      → Refines r a
  unfolding serve_first
  first-Refines r a [] q e = absurd (ground arith)
  first-Refines r a (m ∷ rest) q e = elim (Bool-cases (m.dst_id == r.dispatcher.disp_actor_id)) [
    | inl own ↦ absurd (ground arith)
    | inr other ↦
        let r₁ : Running u = record r { world = (receive r.dispatcher.tx r.world).0 } in
        let n : m.dst_id ≢ r.dispatcher.disp_actor_id = ground arith in
        let served : serve code (actors_of r₁) m ≡ some a = ground arith in
        current-Refines r a m rest (process_current_message code r₁ m) q n refl
          (process_current_message-serve code r₁ m n ∙ ap (Option.map going_on) served)
  ]

  -- A run of the abstract system is one of the dispatcher.
  pub process_times-serve_times :
      (n tx own : ℕ) (r : Running u) (a b : Actors u)
      → actors_of r ≡ a
      → r.dispatcher.tx ≡ tx
      → r.dispatcher.disp_actor_id ≡ own
      → serve_times tx own n a ≡ some b
      → (r' : Running u) × (process_times n r ≡ some r') × (actors_of r' ≡ b)
  unfolding process_times serve_times serve_next
  process_times-serve_times zero tx own r a b v t o e =
      (r, refl, v ∙ (let same : a ≡ b = ground arith in same))
  process_times-serve_times (suc n) tx own r a b v t o e =
      elim (Option-cases (serve_next tx own a)) [
        | inl k ↦ absurd (ground arith)
        | inr (c, p) ↦
            let first : serve_first r.dispatcher.tx r.dispatcher.disp_actor_id (actors_of r)
                  (queue_at r.world r.dispatcher.tx)
                ≡ some c =
              subst
                (λ z.
                  serve_first r.dispatcher.tx r.dispatcher.disp_actor_id z
                    (queue_at z.world r.dispatcher.tx)
                  ≡ some c)
                (sym v)
                (subst
                  (λ x. serve_first x r.dispatcher.disp_actor_id a (queue_at a.world x) ≡ some c)
                  (sym t)
                  (subst (λ y. serve_first tx y a (queue_at a.world tx) ≡ some c) (sym o) p)) in
            let (r₁, e₁, v₁, same) =
              first-Refines r c (queue_at r.world r.dispatcher.tx) refl first in
            let (r', e', v') =
              process_times-serve_times n tx own r₁ c b v₁ (same.0 ∙ t) (same.1 ∙ o)
                (ground arith) in
            (r', rw (e₁, process_times) e', v')
      ]
