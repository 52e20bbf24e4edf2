-- ===== src/Tests/Hosted.antt =====
-- An aggregator and a profiled actor that the same dispatcher runs.
use rtactor_rs.BTree.{insert, find}
use rtactor_rs.Profiling.State.{convert_selection_to_names}
use rtactor_rs.Profiling.Aggregator.Listed.{listed}
use rtactor_rs.Base.{◌≡◌, refl, some, [], ◌∷◌, arith}
use rtactor_rs.Actor.Message.{
  reactive, request, notification, all_actors, aggregator_request, register_profiled_actors,
  register_observer, snapshot_metrics,
}
use rtactor_rs.Reactive.Instant.{finite}
use rtactor_rs.Mpsc.Process.{Running}
use rtactor_rs.Mpsc.Process.Serial.{process_times}
use rtactor_rs.Profiling.State.{ProfilingAggregator, idle, new, new_entry}
use rtactor_rs.Profiling.Aggregator.{process_message}
use rtactor_rs.Profiling.Aggregator.Kept.{Reachable, start, step}
use rtactor_rs.Profiling.Hosted.Served.{IsTold, process_times-snapshot}
use rtactor_rs.Tests.Sample.{two_places}
use rtactor_rs.Tests.Nodes.{collecting, measuring, node_env, node_code, to_kept, hosting}

-- The aggregator knows one actor and has one observer.
abbrev one_actor : ProfilingAggregator node_env
one_actor = record {
  actor_entry_dict = (10, record { addr = reactive 0 2; metric_list = some [] }) ∷ [];
  observer_set = [];
  state = idle;
}

abbrev observed : ProfilingAggregator node_env
observed = record one_actor { observer_set = (reactive 3 7, tt) ∷ [] }

abbrev two_nodes : Running node_env
two_nodes = record {
  dispatcher = record {
    disp_actor_id = 1;
    tx = 0;
    reactive_list =
        (2, measuring 0 (record { name = 1; value = 5 } ∷ []))
        ∷ (4, collecting (to_kept observed))
        ∷ [];
  };
  context = record {
    tx = 0;
    own_actor_id = 1;
    request_id_counter = 4;
    clock = finite 30;
    scheduler = record { timeout_list = []; next_timeout_id = 0 };
  };
  world = record {
    reactive_channels = λ tx.
        two_places
          (record { message = notification (snapshot_metrics all_actors); dst_id = 4 } ∷ []);
    active_channels = λ tx. two_places [];
    async_channels = λ tx. two_places [];
    next_actor_id = 5;
    next_channel = 1;
  };
}

one_actor-Reachable : Reachable one_actor
unfolding new process_message insert new_entry
one_actor-Reachable =
    step new one_actor two_nodes.context two_nodes.context two_nodes.world _
      (request (reactive 0 6) 1
        (aggregator_request (register_profiled_actors ((10, reactive 0 2) ∷ []))))
      start refl

observed-Reachable : Reachable observed
unfolding process_message insert
observed-Reachable =
    step one_actor observed two_nodes.context two_nodes.context two_nodes.world _
      (request (reactive 0 7) 1 (aggregator_request (register_observer (reactive 3 7))))
      one_actor-Reachable refl

process_times-snapshot_example :
    (r' : Running node_env) × (process_times node_code 3 two_nodes ≡ some r')
    × IsTold node_code hosting two_nodes r' 4 observed all_actors
unfolding convert_selection_to_names find listed
process_times-snapshot_example =
    process_times-snapshot node_code hosting two_nodes 4 observed all_actors
      (record {
        queued = refl;
        receiver = refl;
        roomy = omega arith;
        same_tx = refl;
        other = omega arith;
        aggregates = refl;
      })
      observed-Reachable refl tt
      (
        record {
          id = 2;
          behavior = measuring 0 (record { name = 1; value = 5 } ∷ []);
          address = refl;
          not_own = omega arith;
          not_aggregator = omega arith;
          registered = refl;
          profiled = tt;
        },
        tt,
      )
