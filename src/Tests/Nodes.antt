-- ===== src/Tests/Nodes.antt =====
-- An environment whose behaviours are aggregators and profiled actors.
use mathlib.Core.Option
use rtactor_rs.Mpsc.Free.{Answers}
use rtactor_rs.Base.{ℕ, suc, ◌≡◌, refl, ap, ◌∙◌, Option, none, some, List, [], ◌∷◌, map}
use rtactor_rs.Actor.Message.{
  Env, Message, MetricEntry, value, request, metrics_request, metrics_response,
}
use rtactor_rs.Actor.World.{World}
use rtactor_rs.Reactive.Context.{Context, send_addr_id_response}
use rtactor_rs.Mpsc.Process.{UserCode}
use rtactor_rs.Profiling.State.{ActorEntry, ProfilingAggregator, State, idle, processing}
use rtactor_rs.Profiling.Aggregator.{process_message}
use rtactor_rs.Profiling.Hosted.{Hosting}
use rtactor_rs.Tests.Sample.{sample_env}

-- An aggregator is also one of another environment with the same names and numbers.
module _ {u v : Env} (name : u.Text → v.Text) (number : u.Float → v.Float) where
  abbrev as_metric : MetricEntry u → MetricEntry v
  as_metric e = record { name = name e.name; value = number e.value }

  abbrev as_entry : u.Text × ActorEntry u → v.Text × ActorEntry v
  as_entry (n, e) =
      (name n, record { addr = e.addr; metric_list = Option.map (map as_metric) e.metric_list })

  abbrev as_state : State u → State v
  as_state idle = idle
  as_state (processing p) = processing (record {
    snapshot_list = map name p.snapshot_list;
    timestamp = p.timestamp;
    requested_index = p.requested_index;
    request_id = p.request_id;
  })

  abbrev as_aggregator : ProfilingAggregator u → ProfilingAggregator v
  as_aggregator g = record {
    actor_entry_dict = map as_entry g.actor_entry_dict;
    observer_set = g.observer_set;
    state = as_state g.state;
  }

pub data Node : Type 0 where
  collecting : ProfilingAggregator sample_env → Node
  measuring : ℕ → List (MetricEntry sample_env) → Node

abbrev pub node_env : Env
node_env = record sample_env { Behavior = Node }

map_inverse :
    {A B : Type 0} (f : A → B) (g : B → A)
    → ((x : A) → g (f x) ≡ x)
    → (l : List A) → map g (map f l) ≡ l
map_inverse f g h [] = refl
map_inverse f g h (x ∷ l) = rw (h x, map_inverse f g h l) refl

abbrev pub to_kept : ProfilingAggregator node_env → ProfilingAggregator sample_env
to_kept = as_aggregator (λ n. n) (λ n. n)

abbrev of_kept : ProfilingAggregator sample_env → ProfilingAggregator node_env
of_kept = as_aggregator (λ n. n) (λ n. n)

metrics_same :
    (l : Option (List (MetricEntry node_env)))
    → Option.map
        (map (as_metric {u = sample_env} {v = node_env} (λ n. n) (λ n. n)))
        (Option.map (map (as_metric {u = node_env} {v = sample_env} (λ n. n) (λ n. n))) l)
      ≡ l
metrics_same none = refl
metrics_same (some l) =
    ap some (map_inverse (as_metric (λ n. n) (λ n. n)) (as_metric (λ n. n) (λ n. n)) (λ e. refl) l)

state_same :
    (s : State node_env)
    → as_state {u = sample_env} {v = node_env}
        (λ n. n)
        (λ n. n)
        (as_state {u = node_env} {v = sample_env} (λ n. n) (λ n. n) s)
      ≡ s
state_same idle = refl
state_same (processing p) =
    ap (λ l. processing (record p { snapshot_list = l }))
      (map_inverse (λ n. n) (λ n. n) (λ n. refl) p.snapshot_list)

entry_same :
    (e : ℕ × ActorEntry node_env)
    → as_entry {u = sample_env} {v = node_env}
        (λ n. n)
        (λ n. n)
        (as_entry {u = node_env} {v = sample_env} (λ n. n) (λ n. n) e)
      ≡ e
entry_same (n, e) = ap (λ l. (n, record e { metric_list = l })) (metrics_same e.metric_list)

pub of_kept-to_kept : (g : ProfilingAggregator node_env) → of_kept (to_kept g) ≡ g
of_kept-to_kept g =
    ap (λ d. record (of_kept (to_kept g)) { actor_entry_dict = d })
      (map_inverse (as_entry (λ n. n) (λ n. n)) (as_entry (λ n. n) (λ n. n)) entry_same
        g.actor_entry_dict)
    ∙ ap (λ s. record g { state = s }) (state_same g.state)

-- An actor counts the requests for metrics and reports the same at each.
abbrev measure :
    ℕ
    → List (MetricEntry sample_env)
    → Context
    → World node_env
    → Message node_env
    → Option (Node × Context × World node_env)
measure n l c w (request src id (metrics_request buffer)) = some (
  measuring (suc n) l,
  c,
  send_addr_id_response src id
      (metrics_response
        (some (map (as_metric {u = sample_env} {v = node_env} (λ n. n) (λ n. n)) l)))
      w,
)
measure n l c w _ = some (measuring n l, c, w)

abbrev behave :
    Node → Context → World node_env → Message node_env → Option (Node × Context × World node_env)
behave (collecting g) c w m =
    Option.map (λ t. (collecting (to_kept t.0), t.1, t.2)) (process_message (of_kept g) c w m)
behave (measuring n l) c w m = measure n l c w m

abbrev pub node_code : UserCode node_env
node_code = record { process_message = behave; call = λ f m w. some (value f, m, w) }

abbrev IsMeasuring : Node → Type 0
IsMeasuring (collecting g) = ⊥
IsMeasuring (measuring n l) = Unit

abbrev measured : Node → List (MetricEntry node_env)
measured (collecting g) = []
measured (measuring n l) = map (as_metric (λ n. n) (λ n. n)) l

abbrev counted : Node → Node
counted (collecting g) = collecting g
counted (measuring n l) = measuring (suc n) l

pub counted-IsMeasuring : (x : Node) → IsMeasuring x → IsMeasuring (counted x)
counted-IsMeasuring (collecting g) h = h
counted-IsMeasuring (measuring n l) h = h

pub node_answers :
    (x : Node)
    → IsMeasuring x
    → Answers node_code x
        (counted x)
        (metrics_request (some []))
        (metrics_response (some (measured x)))
node_answers (collecting g) h c w src id = absurd h
node_answers (measuring n l) h c w src id = refl

abbrev pub hosting : Hosting node_code
hosting = record {
  aggregator = λ g. collecting (to_kept g);
  runs = λ g c w m.
      ap (λ h. Option.map (λ t. (collecting (to_kept t.0), t.1, t.2)) (process_message h c w m))
        (of_kept-to_kept g);
  Profiled = IsMeasuring;
  report = measured;
  reported = counted;
  reported-Profiled = counted-IsMeasuring;
  answers = node_answers;
}
