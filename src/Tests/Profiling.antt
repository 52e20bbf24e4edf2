-- ===== src/Tests/Profiling.antt =====
-- An aggregator with two actors and an observer, and metrics over whole numbers.
use rtactor_rs.Base.{refl, some, List, [], ◌∷◌}
use rtactor_rs.Actor.Message.{
  whole, Message, reactive, all_actors, register_profiled_actors, register_observer,
  aggregator_request, snapshot_metrics, request, err_response, notification, addr_unreachable,
}
use rtactor_rs.Actor.World.{World}
use rtactor_rs.Reactive.Instant.{finite}
use rtactor_rs.Reactive.Context.{Context}
use rtactor_rs.Profiling.State.{ProfilingAggregator, Processing, idle, processing, new}
use rtactor_rs.Profiling.Aggregator.{process_message}
use rtactor_rs.Profiling.Aggregator.Kept.{IsKept, Reachable, start, step, process_message-IsKept}
use rtactor_rs.Profiling.State.{new_entry, convert_selection_to_names}
use rtactor_rs.Profiling.Aggregator.{notify_each}
use rtactor_rs.Profiling.Aggregator.Listed.{listed}
use rtactor_rs.Profiling.Aggregator.Snapshot.{Answer, IsDone, take_snapshot, actions, next_action}
use rtactor_rs.Profiling.Aggregator.Outcome.{take_snapshot_lem}
use rtactor_rs.Profiling.Aggregator.Waiting.{StillWaits, process_each, process_each-StillWaits}
use rtactor_rs.BTree.{insert, find}
use rtactor_rs.Reactive.Context.{send_request, send_notification}
use rtactor_rs.Actor.Delivery.{receive_request, receive_notification}
use rtactor_rs.Actor.Message.{metrics_request, metric_update}
use rtactor_rs.Tests.Sample.{sample_env, sample_world}

abbrev context : Context
context = record {
  tx = 0;
  own_actor_id = 9;
  request_id_counter = 4;
  clock = finite 30;
  scheduler = record { timeout_list = []; next_timeout_id = 0 };
}

abbrev quiet : World sample_env
quiet = sample_world [] []

abbrev registration : Message sample_env
registration =
    request (reactive 0 6) 1
      (aggregator_request (register_profiled_actors ((20, reactive 0 2) ∷ (10, reactive 0 3) ∷ [])))

abbrev observation : Message sample_env
observation = request (reactive 0 7) 1 (aggregator_request (register_observer (reactive 0 7)))

abbrev two_actors : ProfilingAggregator sample_env
two_actors = record {
  actor_entry_dict =
      (10, record { addr = reactive 0 3; metric_list = some [] })
      ∷ (20, record { addr = reactive 0 2; metric_list = some [] })
      ∷ [];
  observer_set = [];
  state = idle;
}

abbrev registered : ProfilingAggregator sample_env
registered = record two_actors { observer_set = (reactive 0 7, tt) ∷ [] }

two_actors-Reachable : Reachable two_actors
unfolding new process_message insert new_entry
two_actors-Reachable = step new two_actors context context quiet _ registration start refl

registered-Reachable : Reachable registered
unfolding process_message insert
registered-Reachable =
    step two_actors registered context context quiet _ observation two_actors-Reachable refl

process_message-IsKept_example :
    IsKept (process_message registered context quiet (notification (snapshot_metrics all_actors)))
process_message-IsKept_example =
    process_message-IsKept registered context quiet (notification (snapshot_metrics all_actors))
      registered-Reachable

abbrev answers : List (Answer sample_env)
answers =
    record { context = context; world = quiet; list = record { name = 1; value = 5 } ∷ [] }
    ∷ record { context = context; world = quiet; list = [] }
    ∷ []

-- The actor 3 is asked, then the actor 2, and then the observer is told.
abbrev expected : List (Context × World sample_env)
expected =
    (
      record context { request_id_counter = 5 },
      receive_request (reactive 0 3) (reactive 0 9) 5 (metrics_request (some [])) quiet,
    )
    ∷ (
      record context { request_id_counter = 5 },
      receive_request (reactive 0 2) (reactive 0 9) 5 (metrics_request (some [])) quiet,
    )
    ∷ (
      context,
      (receive_notification (reactive 0 7)
          (metric_update (finite 30) ((10, record { name = 1; value = 5 } ∷ []) ∷ (20, []) ∷ []))
          quiet).0,
    )
    ∷ []

take_snapshot_lem_example :
    IsDone registered.observer_set expected
      (take_snapshot registered context quiet all_actors answers)
unfolding convert_selection_to_names listed find actions next_action send_request notify_each
    send_notification
take_snapshot_lem_example =
    take_snapshot_lem registered context quiet all_actors answers registered-Reachable refl tt refl

abbrev in_progress : Processing sample_env
in_progress = record {
  snapshot_list = 10 ∷ 20 ∷ [];
  timestamp = finite 30;
  requested_index = 0;
  request_id = 5;
}

abbrev refused : List (Context × World sample_env × Message sample_env)
refused =
    (
      context,
      quiet,
      err_response 5 addr_unreachable
          (whole (request (reactive 0 9) 5 (metrics_request (some [])))),
    )
    ∷ (context, quiet, notification (snapshot_metrics all_actors))
    ∷ []

process_each-StillWaits_example :
    StillWaits in_progress
      (process_each (record registered { state = processing in_progress }) refused)
process_each-StillWaits_example =
    process_each-StillWaits (record registered { state = processing in_progress }) in_progress
      refused refl (tt, (tt, tt))
