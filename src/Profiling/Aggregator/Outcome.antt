-- ===== src/Profiling/Aggregator/Outcome.antt =====
-- The whole snapshot of the aggregator in src/profiling_aggregator.rs, by what was selected.
use rtactor_rs.Base.{false, ◌≡◌, refl, sym, subst, List, [], ◌∷◌, All, length, if◌then◌else◌, true}
use rtactor_rs.BTree.{BTreeMap, keys}
use rtactor_rs.Actor.Message.{Env, Addr, ActorSelection}
use rtactor_rs.Actor.World.{World}
use rtactor_rs.Reactive.Context.{Context}
use rtactor_rs.Profiling.State.{
  ActorEntry, Processing, idle, processing, ProfilingAggregator, convert_selection_to_names,
}
use rtactor_rs.Profiling.Aggregator.{
  names_metric_lists, process_message, process_next_snapshot_and_notify,
}
use rtactor_rs.Profiling.Aggregator.Listed.{lt-IsApart, IsApart, IsDistinct}
use rtactor_rs.Profiling.Aggregator.Snapshot.{Answer, actions, targets_of, IsDone}
use rtactor_rs.BTree.{Above, IsSorted}
use rtactor_rs.Profiling.State.{names_at, contains_addr}
use rtactor_rs.Actor.Message.{all_actors, selected_names, selected_addresses}
use rtactor_rs.Profiling.Aggregator.{process_notification}
use rtactor_rs.Profiling.Aggregator.Rounds.{rounds}
use rtactor_rs.Profiling.Aggregator.Snapshot.{take_snapshot}
use rtactor_rs.Profiling.Aggregator.Kept.{Reachable, Reachable-IsValid}

nothing_done : {A : Type 0} (P : A → A → Type 0) (ns : List A) → All (λ j. All (P j) []) ns
nothing_done P [] = tt
nothing_done P (n ∷ ns) = (tt, nothing_done P ns)

module _ {u : Env} where
  keys-IsApart :
      (n : u.Text) (dict : BTreeMap u.Text (ActorEntry u))
      → Above ⦃o = u.text_ord⦄ n dict
      → All (IsApart ⦃o = u.text_ord⦄ n) (keys dict)
  keys-IsApart n [] a = tt
  keys-IsApart n ((j, e) ∷ dict) a = (lt-IsApart ⦃o = u.text_ord⦄ n j a.0, keys-IsApart n dict a.1)

  keys-IsDistinct :
      (dict : BTreeMap u.Text (ActorEntry u))
      → IsSorted ⦃o = u.text_ord⦄ dict
      → IsDistinct ⦃o = u.text_ord⦄ (keys dict)
  keys-IsDistinct [] s = tt
  keys-IsDistinct ((n, e) ∷ dict) s = (keys-IsApart n dict s.0, keys-IsDistinct dict s.1)

  names_at-IsApart :
      (n : u.Text) (addresses : List Addr) (dict : BTreeMap u.Text (ActorEntry u))
      → Above ⦃o = u.text_ord⦄ n dict
      → All (IsApart ⦃o = u.text_ord⦄ n) (names_at addresses dict)
  unfolding names_at
  names_at-IsApart n addresses [] a = tt
  names_at-IsApart n addresses ((j, e) ∷ dict) a =
      elim (contains_addr addresses (e.addr))
        as (λ b.
          All (IsApart ⦃o = u.text_ord⦄ n)
            (if b then j ∷ names_at addresses dict else names_at addresses dict)) [
              | true ↦ (lt-IsApart ⦃o = u.text_ord⦄ n j a.0, names_at-IsApart n addresses dict a.1)
              | false ↦ names_at-IsApart n addresses dict a.1
            ]

  names_at-IsDistinct :
      (addresses : List Addr) (dict : BTreeMap u.Text (ActorEntry u))
      → IsSorted ⦃o = u.text_ord⦄ dict
      → IsDistinct ⦃o = u.text_ord⦄ (names_at addresses dict)
  unfolding names_at
  names_at-IsDistinct addresses [] s = tt
  names_at-IsDistinct addresses ((n, e) ∷ dict) s =
      elim (contains_addr addresses (e.addr))
        as (λ b.
          IsDistinct ⦃o = u.text_ord⦄
            (if b then n ∷ names_at addresses dict else names_at addresses dict)) [
              | true ↦
                  (names_at-IsApart n addresses dict s.0, names_at-IsDistinct addresses dict s.1)
              | false ↦ names_at-IsDistinct addresses dict s.1
            ]

  -- A selection by names has no name twice.
  abbrev pub IsSimple : ActorSelection u → Type 0
  IsSimple (selected_names names) = IsDistinct ⦃o = u.text_ord⦄ names
  IsSimple _ = Unit

  selection-IsDistinct :
      (g : ProfilingAggregator u) (selection : ActorSelection u)
      → Reachable g
      → IsSimple selection
      → IsDistinct ⦃o = u.text_ord⦄ (convert_selection_to_names g selection)
  unfolding convert_selection_to_names
  selection-IsDistinct g all_actors r s =
      keys-IsDistinct g.actor_entry_dict (Reachable-IsValid g r).0
  selection-IsDistinct g (selected_names names) r s = s
  selection-IsDistinct g (selected_addresses addresses) r s =
      names_at-IsDistinct addresses g.actor_entry_dict (Reachable-IsValid g r).0

  -- The actors that a selection asks.
  abbrev pub selected : ProfilingAggregator u → ActorSelection u → List (u.Text × Addr)
  selected g selection = targets_of g.actor_entry_dict (convert_selection_to_names g selection)

  abbrev Claim :
      ProfilingAggregator u → Context → World u → ActorSelection u → List (Answer u) → Type 0
  Claim g c w selection answers =
      IsDistinct ⦃o = u.text_ord⦄ (convert_selection_to_names g selection)
      → length answers ≡ length (selected g selection)
      → IsDone g.observer_set
          (actions (keys g.observer_set) c.clock (selected g selection) [] c w answers)
          (take_snapshot g c w selection answers)

  idle-Claim :
      (g : ProfilingAggregator u) (c : Context) (w : World u) (selection : ActorSelection u)
      (answers : List (Answer u))
      → Claim (record g { state = idle }) c w selection answers
  unfolding process_message process_notification process_next_snapshot_and_notify names_metric_lists
  idle-Claim g c w selection answers d len =
      let g' : ProfilingAggregator u = record g { state = idle } in
      let names = convert_selection_to_names g' selection in
      let p : Processing u = record {
        snapshot_list = names;
        timestamp = c.clock;
        requested_index = 0;
        request_id = 0;
      } in
      rounds g.observer_set names c.clock names [] g.actor_entry_dict 0 [] answers refl refl refl d
        (nothing_done (IsApart ⦃o = u.text_ord⦄) names) len (processing p) 0 0 c w

  -- An aggregator in rest that takes a snapshot, in which each request is answered with some list of
  -- metrics, asks the selected actors that are registered one after the other, the next when the last has
  -- answered, then tells every observer the lists by name with the time of the start, and is in rest
  -- again. A selection by names must not repeat a name.
  pub take_snapshot_lem :
      (g : ProfilingAggregator u) (c : Context) (w : World u) (selection : ActorSelection u)
      (answers : List (Answer u))
      → Reachable g
      → g.state ≡ idle
      → IsSimple selection
      → length answers ≡ length (selected g selection)
      → IsDone g.observer_set
          (actions (keys g.observer_set) c.clock (selected g selection) [] c w answers)
          (take_snapshot g c w selection answers)
  take_snapshot_lem g c w selection answers r h s len =
      subst (λ st. Claim (record g { state = st }) c w selection answers) (sym h)
        (idle-Claim g c w selection answers) (selection-IsDistinct g selection r s) len
