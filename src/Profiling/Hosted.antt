-- ===== src/Profiling/Hosted.antt =====
-- An aggregator and the profiled actors of one dispatcher: a snapshot in the abstract system of the
-- dispatcher's actors.
pub mod Rounds
pub mod Snapshot
pub mod Served
use mathlib.Core.Option
use rtactor_rs.Base.{
  ℕ, zero, suc, ◌+◌, ◌≡◌, ◌≢◌, refl, sym, ap, subst, ◌∙◌, inl, inr, Bool, true, false, Option, none,
  some, List, [], ◌∷◌, ◌++◌, ◌==◌, if◌then◌else◌, arith, All, length, wrapping_suc, append_assoc,
  append-nil, Bool-cases, Option-cases,
}
use rtactor_rs.Actor.Message.{
  Env, Addr, reactive, actor_id, MetricEntry, Any, metrics_request, metrics_response, metric_update,
  Message, request, ok_response,
}
use rtactor_rs.Actor.World.{World, MessageAndDstId}
use rtactor_rs.Reactive.Instant.{Instant}
use rtactor_rs.Reactive.Context.{Context, send_request, own_addr, send_addr_id_response}
use rtactor_rs.Mpsc.Extending.{queue_at}
use rtactor_rs.Mpsc.Free.{IsFree, Answers, Sent, request-Sent, response-Sent, taken-IsFree}
use rtactor_rs.Mpsc.Process.{UserCode, receive}
use rtactor_rs.Mpsc.Process.Serving.{Actors, serve, with_behavior}
use rtactor_rs.Mpsc.Process.Serial.{serve_next, serve_times, serve_next-cons, serve_times-suc}
use rtactor_rs.Profiling.State.{ProfilingAggregator}
use rtactor_rs.Profiling.Aggregator.{notify_each, process_message}
use rtactor_rs.Profiling.Aggregator.Round.{answer_each-cons}
use rtactor_rs.Profiling.Aggregator.Snapshot.{
  Answer, Outcome, note, answer_each, answered, actions, next_action,
}

-- How behaviours of the user's code are aggregators and profiled actors. A profiled actor answers a
-- request for metrics at once, with what it has to report.
pub record Hosting {u : Env} (code : UserCode u) : Type 1 where
  pub aggregator : ProfilingAggregator u → u.Behavior
  pub runs :
      (g : ProfilingAggregator u) (c : Context) (w : World u) (m : Message u)
      → code.process_message (aggregator g) c w m
        ≡ Option.map (λ t. (aggregator t.0, t.1, t.2)) (process_message g c w m)
  pub Profiled : u.Behavior → Type 0
  pub report : u.Behavior → List (MetricEntry u)
  pub reported : u.Behavior → u.Behavior
  pub reported-Profiled : (x : u.Behavior) → Profiled x → Profiled (reported x)
  pub answers :
      (x : u.Behavior)
      → Profiled x
      → Answers code x (reported x) (metrics_request (some [])) (metrics_response (some (report x)))

module _ {u : Env} (code : UserCode u) where
  pub serve-some :
      (a : Actors u) (m : MessageAndDstId u) (b b' : u.Behavior) (c : Context) (w : World u)
      → a.behaviors m.dst_id ≡ some b
      → code.process_message b (record (a.context) { own_actor_id = m.dst_id }) a.world m.message
        ≡ some (b', c, w)
      → serve code a m
        ≡ some
            (record { behaviors = with_behavior a.behaviors m.dst_id b'; context = c; world = w })
  serve-some a m b b' c w e k = rw (e, serve) (rw k refl)

module _ {u : Env} where
  note-some :
      (o o' : Context × World u) (r : Option (Outcome u)) (g : ProfilingAggregator u)
      (outs : List (Context × World u))
      → note o r ≡ some (g, o' ∷ outs)
      → (o ≡ o') × (r ≡ some (g, outs))
  unfolding note
  note-some o o' none g outs e = absurd (ground arith)
  note-some o o' (some (h, outs')) g outs e = ground arith

  pub answered_inv :
      (r : Option (ProfilingAggregator u × Context × World u)) (rest : List (Answer u))
      (gf : ProfilingAggregator u) (o' : Context × World u) (outs : List (Context × World u))
      → answered r rest ≡ some (gf, o' ∷ outs)
      → (g : ProfilingAggregator u) × (r ≡ some (g, o'.0, o'.1))
        × (answer_each o'.0.request_id_counter g rest ≡ some (gf, outs))
  unfolding answered
  answered_inv none rest gf o' outs e = absurd (ground arith)
  answered_inv (some (g, c, w)) rest gf o' outs e =
      let (same, left) = note-some (c, w) o' (answer_each c.request_id_counter g rest) gf outs e in
      (
        g,
        ap (λ z. some (g, z.0, z.1)) same,
        ap (λ z. answer_each z.0.request_id_counter g rest) (sym same) ∙ left,
      )

  pub next_answer :
      (id : ℕ) (g gf : ProfilingAggregator u) (a : Answer u) (rest : List (Answer u))
      (o' : Context × World u) (outs : List (Context × World u))
      → answer_each id g (a ∷ rest) ≡ some (gf, o' ∷ outs)
      → (g' : ProfilingAggregator u) × (process_message g a.context a.world
            (ok_response id (metrics_response (some a.list)))
          ≡ some (g', o'.0, o'.1))
        × (answer_each o'.0.request_id_counter g' rest ≡ some (gf, outs))
  next_answer id g gf a rest o' outs e =
      answered_inv
        (process_message g a.context a.world (ok_response id (metrics_response (some a.list)))) rest
        gf o' outs (sym (answer_each-cons id g a rest) ∙ e)

module _ {u : Env} {code : UserCode u} (h : Hosting code) (tx own aid : ℕ) where
  -- A registered profiled actor of the dispatcher, other than the aggregator.
  pub record IsHosted (behaviors : ℕ → Option u.Behavior) (t : u.Text × Addr) : Type 0 where
    pub id : ℕ
    pub behavior : u.Behavior
    pub address : t.1 ≡ reactive tx id
    pub not_own : id ≢ own
    pub not_aggregator : id ≢ aid
    pub registered : behaviors id ≡ some behavior
    pub profiled : h.Profiled behavior

  -- What the actors report one after the other, and how it changes them.
  abbrev pub reports :
      (ℕ → Option u.Behavior) → List (u.Text × Addr) → List (u.Text × List (MetricEntry u))
  reports f [] = []
  reports f ((name, addr) ∷ ts) = elim (f (actor_id addr)) [
    | none ↦ reports f ts
    | some x ↦ (name, h.report x) ∷ reports (with_behavior f (actor_id addr) (h.reported x)) ts
  ]

  -- Two messages for each actor that is asked.
  abbrev pub messages : List (u.Text × Addr) → ℕ
  messages [] = 0
  messages (t ∷ ts) = suc (suc (messages ts))

  IsHosted-after :
      (f : ℕ → Option u.Behavior) (q : ℕ) (y : u.Behavior) (t : u.Text × Addr)
      → h.Profiled y
      → IsHosted f t
      → IsHosted (with_behavior f q (h.reported y)) t
  IsHosted-after f q y t p k = elim (Bool-cases (q == k.id)) [
    | inl same ↦ record {
      id = k.id;
      behavior = h.reported y;
      address = k.address;
      not_own = k.not_own;
      not_aggregator = k.not_aggregator;
      registered = ap (λ b. if b then some (h.reported y) else f k.id) same;
      profiled = h.reported-Profiled y p;
    }
    | inr other ↦ record {
      id = k.id;
      behavior = k.behavior;
      address = k.address;
      not_own = k.not_own;
      not_aggregator = k.not_aggregator;
      registered = ap (λ b. if b then some (h.reported y) else f k.id) other ∙ k.registered;
      profiled = k.profiled;
    }
  ]

  pub All-IsHosted-after :
      (f : ℕ → Option u.Behavior) (q : ℕ) (y : u.Behavior) (ts : List (u.Text × Addr))
      → h.Profiled y
      → All (IsHosted f) ts
      → All (IsHosted (with_behavior f q (h.reported y))) ts
  All-IsHosted-after f q y [] p k = tt
  All-IsHosted-after f q y (t ∷ ts) p k =
      (IsHosted-after f q y t p k.0, All-IsHosted-after f q y ts p k.1)

  -- The actors are as expected, but for the aggregator.
  abbrev pub Agrees : (ℕ → Option u.Behavior) → (ℕ → Option u.Behavior) → Type 0
  Agrees f g = (j : ℕ) → j ≢ aid → f j ≡ g j

  pub Agrees-after :
      (f g : ℕ → Option u.Behavior) (p : ℕ) (x b : u.Behavior)
      → Agrees f g
      → Agrees (with_behavior (with_behavior f p x) aid b) (with_behavior g p x)
  Agrees-after f g p x b a j n = ground (arith, a j n)
