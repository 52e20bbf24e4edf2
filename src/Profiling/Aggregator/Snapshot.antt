-- ===== src/Profiling/Aggregator/Snapshot.antt =====
-- A snapshot of the aggregator of src/profiling_aggregator.rs from its notification to its end, where
-- each actor that is asked answers.
use rtactor_rs.Base.{ℕ, ◌≡◌, Option, none, some, List, [], ◌∷◌, ◌++◌}
use rtactor_rs.BTree.{BTreeMap}
use rtactor_rs.Reactive.Instant.{Instant}
use rtactor_rs.Actor.Message.{
  Env, Addr, MetricEntry, ActorSelection, metrics_request, metrics_response, metric_update,
  snapshot_metrics, ok_response, notification,
}
use rtactor_rs.Actor.World.{World}
use rtactor_rs.Reactive.Context.{Context, send_request}
use rtactor_rs.Profiling.State.{ActorEntry, idle, ProfilingAggregator}
use rtactor_rs.Profiling.Aggregator.{notify_each, process_message}
use rtactor_rs.Profiling.Aggregator.Listed.{listed}

-- What an actor answers, and when: the context and the shared state that the aggregator finds.
pub record Answer (u : Env) : Type 0 where
  pub context : Context
  pub world : World u
  pub list : List (MetricEntry u)

abbrev pub Outcome : Env → Type 0
Outcome u = ProfilingAggregator u × List (Context × World u)

module _ {u : Env} where
  unfoldable pub note : Context × World u → Option (Outcome u) → Option (Outcome u)
  note o none = none
  note o (some (g, outputs)) = some (g, o ∷ outputs)

  -- The answers one after the other, the first to the request `id` and each other to the request that
  -- the answer before it led to; with the context and the shared state after each.
  unfoldable pub answer_each : ℕ → ProfilingAggregator u → List (Answer u) → Option (Outcome u)
  unfolding note
  answer_each id g [] = some (g, [])
  answer_each id g (a ∷ rest) =
      elim (process_message g a.context a.world (ok_response id (metrics_response (some a.list)))) [
        | none ↦ none
        | some (g', c', w') ↦ note (c', w') (answer_each c'.request_id_counter g' rest)
      ]

  -- A message is processed, and then the answers to what it asks.
  unfoldable pub answered :
      Option (ProfilingAggregator u × Context × World u) → List (Answer u) → Option (Outcome u)
  unfolding note
  answered none answers = none
  answered (some (g, c, w)) answers = note (c, w) (answer_each c.request_id_counter g answers)

  abbrev pub take_snapshot :
      ProfilingAggregator u
      → Context
      → World u
      → ActorSelection u
      → List (Answer u)
      → Option (Outcome u)
  take_snapshot g c w selection answers =
      answered (process_message g c w (notification (snapshot_metrics selection))) answers

  module _ (observers : List Addr) (timestamp : Instant) where
    -- What the aggregator does when it has the metrics `got` and still `targets` to ask: it asks the
    -- first, or tells the observers.
    unfoldable pub next_action :
        List (u.Text × Addr)
        → List (u.Text × List (MetricEntry u))
        → Context
        → World u
        → Context × World u
    next_action [] got c w = (c, notify_each observers (metric_update timestamp got) w)
    next_action ((name, addr) ∷ targets) got c w =
        let (id, c', w') = send_request c addr (metrics_request (some [])) w in (c', w')

    -- The actions of a whole snapshot.
    unfoldable pub actions :
        List (u.Text × Addr)
        → List (u.Text × List (MetricEntry u))
        → Context
        → World u
        → List (Answer u)
        → List (Context × World u)
    unfolding next_action
    actions [] got c w answers = next_action [] got c w ∷ []
    actions (t ∷ targets) got c w [] = next_action (t ∷ targets) got c w ∷ []
    actions ((name, addr) ∷ targets) got c w (a ∷ answers) =
        next_action ((name, addr) ∷ targets) got c w
        ∷ actions targets (got ++ (name, a.list) ∷ []) a.context a.world answers

  abbrev pub with_addr : u.Text → ActorEntry u → u.Text × Addr
  with_addr n e = (n, e.addr)

  -- The actors that are to be asked for some names.
  abbrev pub targets_of : BTreeMap u.Text (ActorEntry u) → List u.Text → List (u.Text × Addr)
  targets_of dict ns = listed ⦃o = u.text_ord⦄ with_addr dict ns

  -- The snapshot ended, with these actions.
  abbrev pub IsDone :
      BTreeMap Addr (Unit {0}) → List (Context × World u) → Option (Outcome u) → Type 0
  IsDone observers outputs none = ⊥
  IsDone observers outputs (some (g, outputs')) =
      (g.state ≡ idle) × (g.observer_set ≡ observers) × (outputs' ≡ outputs)
