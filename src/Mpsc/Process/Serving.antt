-- ===== src/Mpsc/Process/Serving.antt =====
-- The processing of a message as a step of an abstract system of actors: a map from ids to
-- behaviours, in which neither positions nor the order of registrations show.
use mathlib.Core.Option
use rtactor_rs.Base.{
  ℕ, ◌≡◌, ◌≢◌, refl, sym, ap, ◌∙◌, inl, inr, Bool, false, Option, none, some, ◌==◌, if◌then◌else◌,
  arith, fun_ext, get_elem?, Option-cases,
}
use rtactor_rs.Actor.Message.{Env, Message}
use rtactor_rs.Actor.World.{World, MessageAndDstId}
use rtactor_rs.Reactive.Context.{Context}
use rtactor_rs.Mpsc.Registry.{index_of, get_behavior_index}
use rtactor_rs.Mpsc.Registry.Lookup.{behavior_at, index_of-none, index_of-some, behavior_at-set}
use rtactor_rs.Mpsc.Process.{
  UserCode, Running, refuse_request, react_at, process_reactive_message, process_current_message,
}

-- The actors of a dispatcher by their ids, with its context and the shared state.
pub record Actors (u : Env) : Type 0 where
  pub behaviors : ℕ → Option u.Behavior
  pub context : Context
  pub world : World u

abbrev pub with_behavior : {B : Type 0} → (ℕ → Option B) → ℕ → B → ℕ → Option B
with_behavior f id b j = if id == j then some b else f j

module _ {u : Env} where
  -- What the list of a dispatcher stands for.
  abbrev pub actors_of : Running u → Actors u
  actors_of r = record {
    behaviors = λ j. behavior_at j r.dispatcher.reactive_list;
    context = r.context;
    world = r.world;
  }

  abbrev pub stop_and_actors : Bool × Running u → Bool × Actors u
  stop_and_actors (stop, r) = (stop, actors_of r)

  abbrev pub going_on : Actors u → Bool × Actors u
  going_on a = (false, a)

  -- The actor with the id processes the message and changes itself alone, or the message is refused.
  abbrev pub serve : UserCode u → Actors u → MessageAndDstId u → Option (Actors u)
  serve code a m =
      let c : Context = record (a.context) { own_actor_id = m.dst_id } in
      elim (a.behaviors m.dst_id) [
        | none ↦ some (record a { context = c; world = refuse_request m.message a.world })
        | some b ↦
            Option.map
              (λ t. record {
                behaviors = with_behavior a.behaviors m.dst_id t.0;
                context = t.1;
                world = t.2;
              })
              (code.process_message b c a.world m.message)
      ]

module _ {u : Env} (code : UserCode u) where
  abbrev entered : Running u → ℕ → Running u
  entered r id = record r { context = record (r.context) { own_actor_id = id } }

  react_at-serve :
      (r : Running u) (i id : ℕ) (b : u.Behavior) (m : Message u)
      (o : Option (u.Behavior × Context × World u))
      → index_of id r.dispatcher.reactive_list ≡ some i
      → get_elem? r.dispatcher.reactive_list i ≡ some (id, b)
      → code.process_message b (entered r id).context r.world m ≡ o
      → Option.map actors_of
          (react_at code (entered r id) i (get_elem? r.dispatcher.reactive_list i) m)
        ≡ Option.map
            (λ t. record {
              behaviors = with_behavior (actors_of r).behaviors id t.0;
              context = t.1;
              world = t.2;
            })
            o
  unfolding react_at
  react_at-serve r i id b m none at here e = rw (here, react_at) (rw (e, react_at) refl)
  react_at-serve r i id b m (some (b', c, w)) at here e =
      rw (here, react_at)
        (rw (e, react_at)
          (ap (λ f. some (record { behaviors = f; context = c; world = w }))
            (fun_ext λ j. behavior_at-set id j r.dispatcher.reactive_list i b' at)))

  process_reactive_message-serve :
      (r : Running u) (m : MessageAndDstId u)
      → Option.map actors_of (process_reactive_message code (entered r m.dst_id) m.message)
        ≡ serve code (actors_of r) m
  unfolding process_reactive_message get_behavior_index
  process_reactive_message-serve r m =
      elim (Option-cases (index_of m.dst_id r.dispatcher.reactive_list)) [
        | inl e ↦
            rw (e, process_reactive_message, get_behavior_index)
              (rw (index_of-none m.dst_id r.dispatcher.reactive_list e, serve) refl)
        | inr (i, e) ↦
            let (b, p, q) = index_of-some m.dst_id r.dispatcher.reactive_list i e in
            rw (e, process_reactive_message, get_behavior_index)
              (rw (p, serve) (react_at-serve r i m.dst_id b m.message _ e q refl))
      ]

  current-going_on :
      (o : Option (Running u)) (p : Option (Actors u))
      → Option.map actors_of o ≡ p
      → Option.map stop_and_actors
          (elim o as (λ x. Option (Bool × Running u)) [ none ↦ none | some s' ↦ some (false, s') ])
        ≡ Option.map going_on p
  current-going_on none p e = ap (Option.map going_on) e
  current-going_on (some r) p e = ap (Option.map going_on) e

  -- A message to another actor than the dispatcher is processed as a step of the abstract system: the
  -- behaviour that is registered under its id processes it and is the only one to change, or the
  -- message is refused if there is none; the dispatcher panics just where the behaviour does, and
  -- does not stop.
  pub process_current_message-serve :
      (r : Running u) (m : MessageAndDstId u)
      → m.dst_id ≢ r.dispatcher.disp_actor_id
      → Option.map stop_and_actors (process_current_message code r m)
        ≡ Option.map going_on (serve code (actors_of r) m)
  unfolding process_current_message
  process_current_message-serve r m n =
      let other : (m.dst_id == r.dispatcher.disp_actor_id) ≡ false = ground arith in
      rw (other, process_current_message)
        (current-going_on (process_reactive_message code (entered r m.dst_id) m.message)
          (serve code (actors_of r) m) (process_reactive_message-serve r m))

  serve_of_going_on :
      (o : Option (Actors u)) (a : Actors u) (stop : Bool)
      → Option.map going_on o ≡ some (stop, a)
      → (stop ≡ false) × (o ≡ some a)
  serve_of_going_on none a stop e = absurd (ground arith)
  serve_of_going_on (some b) a stop e = ground arith

  pub served :
      (r r' : Running u) (m : MessageAndDstId u) (stop : Bool)
      → m.dst_id ≢ r.dispatcher.disp_actor_id
      → process_current_message code r m ≡ some (stop, r')
      → (stop ≡ false) × (serve code (actors_of r) m ≡ some (actors_of r'))
  served r r' m stop n e =
      serve_of_going_on (serve code (actors_of r) m) (actors_of r') stop
        (sym (process_current_message-serve r m n) ∙ ap (Option.map stop_and_actors) e)
