-- ===== src/Profiling/Aggregator.antt =====
-- `ProfilingAggregator` of src/profiling_aggregator.rs: how it takes a snapshot of the metrics of the
-- actors, one request after the other, and tells the observers.
pub mod Steps
pub mod Listed
pub mod Snapshot
pub mod Round
pub mod Rounds
pub mod Outcome
pub mod Waiting
pub mod Valid
pub mod Kept
use rtactor_rs.Base.{
  ℕ, zero, suc, Bool, true, false, not, Option, none, some, List, [], ◌∷◌, ◌++◌, map, ◌||◌, ◌==◌,
  if◌then◌else◌, get_elem?, drop,
}
use Prim.Native.Nat.{Ordering}
use rtactor_rs.BTree.{Ord, BTreeMap, find, insert, remove, retain, keys}
use rtactor_rs.BTree.Keys.{ord_by}
use rtactor_rs.Reactive.Instant.{Instant}
use rtactor_rs.Actor.Message.{
  id_eq, Env, Addr, actor_id, addr_eq, MetricEntry, ActorSelection, all_actors, selected_names,
  selected_addresses, AggregatorRequest, register_observer, unregister_observer,
  register_profiled_actors, unregister_profiled_actors, observer_registered, observer_unregistered,
  actors_registered, actors_unregistered, Any, metrics_request, metrics_response,
  aggregator_request, aggregator_response, snapshot_metrics, metric_update, Message, request,
  ok_response, err_response, notification,
}
use rtactor_rs.Actor.World.{World}
use rtactor_rs.Reactive.Context.{Context, send_request, send_addr_id_response, send_notification}
use rtactor_rs.Profiling.State.{
  ActorEntry, Processing, State, idle, processing, ProfilingAggregator, contains_addr, add_names,
  new_entry, convert_selection_to_names, process_request,
}

module _ {u : Env} where
  -- The loop of `process_next_snapshot_and_notify` over the names from `requested_index` on, which
  -- takes the list of the first name that is registered; `none` when no request was sent.
  unfoldable pub request_next :
      BTreeMap u.Text (ActorEntry u)
      → List u.Text
      → ℕ
      → Context
      → World u
      → Option ((BTreeMap u.Text (ActorEntry u) × ℕ × ℕ) × Context × World u)
  request_next dict [] index c w = none
  request_next dict (name ∷ rest) index c w = elim (find ⦃o = u.text_ord⦄ name dict) [
    | none ↦ request_next dict rest (suc index) c w
    | some entry ↦
        let (id, c', w') = send_request c entry.addr (metrics_request (some [])) w in
        some (
          (insert ⦃o = u.text_ord⦄ name (record entry { metric_list = none }) dict, index, id),
          c',
          w',
        )
  ]

  -- The first loop of `notify_observers`.
  abbrev pub list_of : Option (List (MetricEntry u)) → List (MetricEntry u)
  list_of (some list) = list
  list_of none = []

  unfoldable pub names_metric_lists :
      BTreeMap u.Text (ActorEntry u) → List u.Text → List (u.Text × List (MetricEntry u))
  names_metric_lists dict [] = []
  names_metric_lists dict (name ∷ rest) = elim (find ⦃o = u.text_ord⦄ name dict) [
    | none ↦ names_metric_lists dict rest
    | some entry ↦ (name, list_of entry.metric_list) ∷ names_metric_lists dict rest
  ]

  -- Its second loop; a failure to send is dropped.
  unfoldable pub notify_each : List Addr → Any u → World u → World u
  notify_each [] d w = w
  notify_each (observer ∷ rest) d w = notify_each rest d (send_notification observer d w).0

  unfoldable pub notify_observers :
      ProfilingAggregator u → World u → List u.Text → Instant → World u
  unfolding names_metric_lists notify_each
  notify_observers g w names timestamp =
      notify_each (keys g.observer_set)
        (metric_update timestamp (names_metric_lists g.actor_entry_dict names)) w

  -- What follows the loop: the state keeps the request, or the observers are told.
  unfoldable pub settle :
      ProfilingAggregator u
      → Processing u
      → Context
      → World u
      → Option ((BTreeMap u.Text (ActorEntry u) × ℕ × ℕ) × Context × World u)
      → ProfilingAggregator u × Context × World u
  unfolding notify_observers
  settle g p c w (some ((dict, index, id), c', w')) = (
    record g {
      actor_entry_dict = dict;
      state = processing (record p { requested_index = index; request_id = id });
    },
    c',
    w',
  )
  settle g p c w none =
      (record g { state = idle }, c, notify_observers g w p.snapshot_list p.timestamp)

  -- `process_next_snapshot_and_notify`.
  unfoldable pub process_next_snapshot_and_notify :
      ProfilingAggregator u → Context → World u → ProfilingAggregator u × Context × World u
  unfolding request_next settle
  process_next_snapshot_and_notify g c w = elim g.state [
    | idle ↦ (g, c, w)
    | processing p ↦ settle g p c w (
        request_next g.actor_entry_dict (drop p.requested_index p.snapshot_list) p.requested_index c
          w)
  ]

  -- `entry.metric_list.swap(entry_list)`, when the name is registered.
  unfoldable pub swap_list :
      u.Text
      → Option (List (MetricEntry u))
      → BTreeMap u.Text (ActorEntry u)
      → BTreeMap u.Text (ActorEntry u)
  swap_list name list dict = elim (find ⦃o = u.text_ord⦄ name dict) [
    | none ↦ dict
    | some entry ↦ insert ⦃o = u.text_ord⦄ name (record entry { metric_list = list }) dict
  ]

  -- The body under `if response.id_eq(*request_id)` of a successful response, with the name at
  -- `requested_index`; `none` is the panic of the index.
  unfoldable pub take_metrics :
      ProfilingAggregator u
      → Processing u
      → Context
      → World u
      → Option (List (MetricEntry u))
      → Option u.Text
      → Option (ProfilingAggregator u × Context × World u)
  unfolding process_next_snapshot_and_notify swap_list
  take_metrics g p c w list none = none
  take_metrics g p c w list (some name) = some (
      process_next_snapshot_and_notify
        (record g {
          actor_entry_dict = swap_list name list g.actor_entry_dict;
          state = processing (record p { requested_index = suc p.requested_index });
        })
        c w)

  -- `process_response`, on a response with its result.
  unfoldable pub process_ok_response :
      ProfilingAggregator u
      → Context
      → World u
      → ℕ
      → Any u
      → Option (ProfilingAggregator u × Context × World u)
  unfolding take_metrics
  process_ok_response g c w id (metrics_response list) = elim g.state [
    | idle ↦ some (g, c, w)
    | processing p ↦
        if id_eq id p.request_id
        then take_metrics g p c w list (get_elem? p.snapshot_list p.requested_index)
        else some (g, c, w)
  ]
  process_ok_response g c w id _ = some (g, c, w)

  unfoldable pub process_err_response :
      ProfilingAggregator u
      → Context
      → World u
      → ℕ
      → Any u
      → ProfilingAggregator u × Context × World u
  unfolding process_next_snapshot_and_notify
  process_err_response g c w id (metrics_response list) = elim g.state [
    | idle ↦ (g, c, w)
    | processing p ↦
        if id_eq id p.request_id then process_next_snapshot_and_notify g c w else (g, c, w)
  ]
  process_err_response g c w id _ = (g, c, w)

  -- `process_notification`.
  unfoldable pub process_notification :
      ProfilingAggregator u → Context → World u → Any u → ProfilingAggregator u × Context × World u
  unfolding convert_selection_to_names process_next_snapshot_and_notify add_names
  process_notification g c w (snapshot_metrics selection) =
      let names = convert_selection_to_names g selection in
      elim g.state [
        | idle ↦
            process_next_snapshot_and_notify
              (record g {
                state = processing (record {
                  snapshot_list = names;
                  timestamp = c.clock;
                  requested_index = 0;
                  request_id = 0;
                });
              })
              c w
        | processing p ↦ (
          record g {
            state =
                processing
                  (record p { snapshot_list = add_names ⦃o = u.text_ord⦄ p.snapshot_list names });
          },
          c,
          w,
        )
      ]
  process_notification g c w _ = (g, c, w)

  -- `process_message`.
  unfoldable pub process_message :
      ProfilingAggregator u
      → Context
      → World u
      → Message u
      → Option (ProfilingAggregator u × Context × World u)
  unfolding process_request process_ok_response process_err_response process_notification
  process_message g c w (request src id d) =
      let (g', w') = process_request g w src id d in some (g', c, w')
  process_message g c w (ok_response id d) = process_ok_response g c w id d
  process_message g c w (err_response id e d) = some (process_err_response g c w id d)
  process_message g c w (notification d) = some (process_notification g c w d)
