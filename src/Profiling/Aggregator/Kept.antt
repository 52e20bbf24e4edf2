-- ===== src/Profiling/Aggregator/Kept.antt =====
-- What each message leaves of an aggregator of src/profiling_aggregator.rs.
use rtactor_rs.Base.{
  get_elem?-some, length-drop, sym, subst, ◌==◌, if◌then◌else◌, true, false, Option-cases, inl, inr,
  ℕ, suc, ◌≤◌, ◌≡◌, Option, none, some, List, length, drop, get_elem?, arith,
}
use rtactor_rs.BTree.{BTreeMap, find, IsSorted}
use rtactor_rs.BTree.Laws.{insert-IsSorted, remove-IsSorted}
use rtactor_rs.Actor.Message.{
  aggregator_request, snapshot_metrics, request, ok_response, err_response, notification,
  MetricEntry, metrics_response, Env, ActorSelection, AggregatorRequest, register_observer,
  unregister_observer, register_profiled_actors, unregister_profiled_actors, Message,
}
use rtactor_rs.Actor.World.{World}
use rtactor_rs.Reactive.Context.{Context}
use rtactor_rs.Profiling.State.{
  convert_selection_to_names, process_request, apply_request, new, Processing, ActorEntry, addr_ord,
  State, idle, processing, ProfilingAggregator,
}
use rtactor_rs.Profiling.Aggregator.{
  process_err_response, process_notification, settle, take_metrics, process_ok_response,
  process_next_snapshot_and_notify, request_next, swap_list, process_message,
}
use rtactor_rs.Profiling.Aggregator.Valid.{
  IsValid, IsFound, request_next-IsFound, insert_entries-IsSorted, unregister_selection-IsSorted,
  length-add_names,
}

module _ {u : Env} where
  settle-IsValid :
      (g : ProfilingAggregator u) (p : Processing u) (c : Context) (w : World u)
      (r : Option ((BTreeMap u.Text (ActorEntry u) × ℕ × ℕ) × Context × World u))
      → IsSorted ⦃o = u.text_ord⦄ g.actor_entry_dict
      → IsSorted ⦃o = addr_ord⦄ g.observer_set
      → IsFound (length p.snapshot_list) r
      → IsValid (settle g p c w r).0
  unfolding settle
  settle-IsValid g p c w (some ((dict, index, id), c', w')) s t f = (f.0, t, f.1)
  settle-IsValid g p c w none s t f = (s, t, tt)

  process_next-IsValid :
      (g : ProfilingAggregator u) (p : Processing u) (c : Context) (w : World u)
      → IsSorted ⦃o = u.text_ord⦄ g.actor_entry_dict
      → IsSorted ⦃o = addr_ord⦄ g.observer_set
      → p.requested_index ≤ length p.snapshot_list
      → IsValid (process_next_snapshot_and_notify (record g { state = processing p }) c w).0
  unfolding process_next_snapshot_and_notify
  process_next-IsValid g p c w s t h =
      settle-IsValid (record g { state = processing p }) p c w _ s t
        (subst
          (λ end. IsFound end (
            request_next g.actor_entry_dict (drop p.requested_index p.snapshot_list)
              p.requested_index c w))
          (length-drop p.requested_index p.snapshot_list h)
          (request_next-IsFound g.actor_entry_dict _ p.requested_index c w s))

  swap_list-IsSorted :
      (name : u.Text) (list : Option (List (MetricEntry u))) (dict : BTreeMap u.Text (ActorEntry u))
      → IsSorted ⦃o = u.text_ord⦄ dict
      → IsSorted ⦃o = u.text_ord⦄ (swap_list name list dict)
  unfolding swap_list
  swap_list-IsSorted name list dict s = elim (Option-cases (find ⦃o = u.text_ord⦄ name dict)) [
    | inl e ↦ rw (e, swap_list) s
    | inr (entry, e) ↦ rw (e, swap_list) (insert-IsSorted ⦃o = u.text_ord⦄ name _ dict s)
  ]

  -- No panic, and a valid state.
  abbrev pub IsKept : Option (ProfilingAggregator u × Context × World u) → Type 0
  IsKept none = ⊥
  IsKept (some (g, c, w)) = IsValid g

  ok_response-IsKept :
      (g : ProfilingAggregator u) (st : State u) (c : Context) (w : World u) (id : ℕ)
      (list : Option (List (MetricEntry u)))
      → IsValid (record g { state = st })
      → IsKept (process_ok_response (record g { state = st }) c w id (metrics_response list))
  unfolding process_ok_response take_metrics
  ok_response-IsKept g idle c w id list v = v
  ok_response-IsKept g (processing p) c w id list v =
      elim (id == p.request_id)
        as (λ b. IsKept (
          if b
          then take_metrics (record g { state = processing p }) p c w list
              (get_elem? p.snapshot_list p.requested_index)
          else some (record g { state = processing p }, c, w))) [
            | false ↦ v
            | true ↦
                let (name, e) = get_elem?-some p.snapshot_list p.requested_index v.2 in
                subst (λ r. IsKept (take_metrics (record g { state = processing p }) p c w list r))
                  (sym e)
                  (process_next-IsValid
                    (record g { actor_entry_dict = swap_list name list g.actor_entry_dict })
                    (record p { requested_index = suc p.requested_index }) c w
                    (swap_list-IsSorted name list g.actor_entry_dict v.0) v.1 (omega (arith, v.2)))
          ]

  err_response-IsValid :
      (g : ProfilingAggregator u) (st : State u) (c : Context) (w : World u) (id : ℕ)
      (list : Option (List (MetricEntry u)))
      → IsValid (record g { state = st })
      → IsValid (process_err_response (record g { state = st }) c w id (metrics_response list)).0
  unfolding process_err_response
  err_response-IsValid g idle c w id list v = v
  err_response-IsValid g (processing p) c w id list v =
      elim (id == p.request_id)
        as (λ b.
          IsValid
            (if b
              then process_next_snapshot_and_notify (record g { state = processing p }) c w
              else (record g { state = processing p }, c, w)).0) [
                | false ↦ v
                | true ↦ process_next-IsValid g p c w v.0 v.1 (omega (arith, v.2))
              ]

  snapshot-IsValid :
      (g : ProfilingAggregator u) (st : State u) (c : Context) (w : World u)
      (selection : ActorSelection u)
      → IsValid (record g { state = st })
      → IsValid (process_notification (record g { state = st }) c w (snapshot_metrics selection)).0
  unfolding process_notification
  snapshot-IsValid g idle c w selection v =
      let names = convert_selection_to_names (record g { state = idle }) selection in
      process_next-IsValid g
        (record { snapshot_list = names; timestamp = c.clock; requested_index = 0; request_id = 0 })
        c w v.0 v.1 (omega arith)
  snapshot-IsValid g (processing p) c w selection v = (
    v.0,
    v.1,
    omega (
      arith,
      v.2,
      length-add_names ⦃o = u.text_ord⦄ p.snapshot_list
          (convert_selection_to_names (record g { state = processing p }) selection),
    ),
  )

  apply_request-IsValid :
      (r : AggregatorRequest u) (g : ProfilingAggregator u)
      → IsValid g
      → IsValid (apply_request r g)
  unfolding apply_request
  apply_request-IsValid (register_observer a) g v =
      (v.0, insert-IsSorted ⦃o = addr_ord⦄ a tt g.observer_set v.1, v.2)
  apply_request-IsValid (unregister_observer a) g v =
      (v.0, remove-IsSorted ⦃o = addr_ord⦄ a g.observer_set v.1, v.2)
  apply_request-IsValid (register_profiled_actors l) g v =
      (insert_entries-IsSorted l g.actor_entry_dict v.0, v.1, v.2)
  apply_request-IsValid (unregister_profiled_actors l) g v =
      (unregister_selection-IsSorted l g.actor_entry_dict v.0, v.1, v.2)

  message-IsKept :
      (g : ProfilingAggregator u) (c : Context) (w : World u) (m : Message u)
      → IsValid g
      → IsKept (process_message g c w m)
  unfolding process_message process_request process_ok_response process_err_response
      process_notification
  message-IsKept g c w (request src id (aggregator_request r)) v = apply_request-IsValid r g v
  message-IsKept g c w (request src id _) v = v
  message-IsKept g c w (ok_response id (metrics_response list)) v =
      ok_response-IsKept g g.state c w id list v
  message-IsKept g c w (ok_response id _) v = v
  message-IsKept g c w (err_response id e (metrics_response list)) v =
      err_response-IsValid g g.state c w id list v
  message-IsKept g c w (err_response id e _) v = v
  message-IsKept g c w (notification (snapshot_metrics selection)) v =
      snapshot-IsValid g g.state c w selection v
  message-IsKept g c w (notification _) v = v

  -- The aggregators that messages lead to from a new one; the context and the shared state may be
  -- any at each message.
  pub data Reachable : ProfilingAggregator u → Type 0 where
    start : Reachable new
    step :
        (g g' : ProfilingAggregator u) (c c' : Context) (w w' : World u) (m : Message u)
        → Reachable g
        → process_message g c w m ≡ some (g', c', w')
        → Reachable g'

  pub Reachable-IsValid : (g : ProfilingAggregator u) → Reachable g → IsValid g
  unfolding new
  Reachable-IsValid _ start = (tt, tt, tt)
  Reachable-IsValid _ (step g g' c c' w w' m r e) =
      subst IsKept e (message-IsKept g c w m (Reachable-IsValid g r))

  -- An aggregator that starts from `new` never panics: whatever messages it has processed, in whatever
  -- contexts, the next message is processed to the end, and again its actors and its observers stand in the
  -- order of their keys, and a snapshot in progress waits for the answer to one of its names.
  pub process_message-IsKept :
      (g : ProfilingAggregator u) (c : Context) (w : World u) (m : Message u)
      → Reachable g
      → IsKept (process_message g c w m)
  process_message-IsKept g c w m r = message-IsKept g c w m (Reachable-IsValid g r)
