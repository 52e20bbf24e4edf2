-- ===== src/Profiling/State.antt =====
-- The state of `ProfilingAggregator` in src/profiling_aggregator.rs, and the requests that change who
-- takes part.
use rtactor_rs.Base.{
  ℕ, Bool, true, false, not, Option, some, List, [], ◌∷◌, ◌++◌, ◌||◌, if◌then◌else◌,
}
use Prim.Native.Nat.{Ordering}
use rtactor_rs.BTree.{Ord, BTreeMap, insert, remove, retain, keys}
use rtactor_rs.BTree.Keys.{ord_by}
use rtactor_rs.Reactive.Instant.{Instant}
use rtactor_rs.Actor.Message.{
  Env, Addr, actor_id, addr_eq, MetricEntry, ActorSelection, all_actors, selected_names,
  selected_addresses, AggregatorRequest, register_observer, unregister_observer,
  register_profiled_actors, unregister_profiled_actors, observer_registered, observer_unregistered,
  actors_registered, actors_unregistered, Any, aggregator_request, aggregator_response,
}
use rtactor_rs.Actor.World.{World}
use rtactor_rs.Reactive.Context.{send_addr_id_response}

pub record ActorEntry (u : Env) : Type 0 where
  pub addr : Addr
  pub metric_list : Option (List (MetricEntry u))

-- The fields of `State::Processing`.
pub record Processing (u : Env) : Type 0 where
  pub snapshot_list : List u.Text
  pub timestamp : Instant
  pub requested_index : ℕ
  pub request_id : ℕ

pub data State (u : Env) : Type 0 where
  idle : State u
  processing : Processing u → State u

abbrev pub addr_ord : Ord Addr
addr_ord = ord_by actor_id

-- The `BTreeSet` of the observers is a map to nothing.
pub record ProfilingAggregator (u : Env) : Type 0 where
  pub actor_entry_dict : BTreeMap u.Text (ActorEntry u)
  pub observer_set : BTreeMap Addr (Unit {0})
  pub state : State u

-- `addresses.contains(&addr)`.
unfoldable pub contains_addr : List Addr → Addr → Bool
contains_addr [] a = false
contains_addr (b ∷ rest) a = addr_eq b a || contains_addr rest a

module _ {K : Type 0} ⦃o : Ord K⦄ where
  name_eq : K → K → Bool
  name_eq a b = elim (o.cmp a b) [ Ordering.eq ↦ true | _ ↦ false ]

  -- `snapshot_list.contains(&name)`.
  unfoldable pub contains_name : List K → K → Bool
  unfolding name_eq
  contains_name [] a = false
  contains_name (b ∷ rest) a = name_eq b a || contains_name rest a

  -- The names that are not in the list yet are added at its end.
  unfoldable pub add_names : List K → List K → List K
  unfolding contains_name
  add_names list [] = list
  add_names list (name ∷ rest) =
      add_names (if contains_name list name then list else list ++ name ∷ []) rest

module _ {u : Env} where
  -- `ActorEntry::new`.
  unfoldable pub new_entry : Addr → ActorEntry u
  new_entry addr = record { addr = addr; metric_list = some [] }

  -- `ProfilingAggregator::new`.
  unfoldable pub new : ProfilingAggregator u
  new = record { actor_entry_dict = []; observer_set = []; state = idle }

  -- `convert_selection_to_names`.
  unfoldable pub names_at : List Addr → BTreeMap u.Text (ActorEntry u) → List u.Text
  names_at addresses [] = []
  names_at addresses ((name, entry) ∷ rest) =
      if contains_addr addresses (entry.addr)
      then name ∷ names_at addresses rest
      else names_at addresses rest

  unfoldable pub convert_selection_to_names : ProfilingAggregator u → ActorSelection u → List u.Text
  unfolding names_at
  convert_selection_to_names g all_actors = keys g.actor_entry_dict
  convert_selection_to_names g (selected_names names) = names
  convert_selection_to_names g (selected_addresses addresses) =
      names_at addresses g.actor_entry_dict

  -- The loops over `names_addresses` and over the names to unregister.
  unfoldable pub insert_entries :
      List (u.Text × Addr) → BTreeMap u.Text (ActorEntry u) → BTreeMap u.Text (ActorEntry u)
  insert_entries [] dict = dict
  insert_entries ((name, addr) ∷ rest) dict =
      insert_entries rest (insert ⦃o = u.text_ord⦄ name (new_entry addr) dict)

  unfoldable pub remove_entries :
      List u.Text → BTreeMap u.Text (ActorEntry u) → BTreeMap u.Text (ActorEntry u)
  remove_entries [] dict = dict
  remove_entries (name ∷ rest) dict = remove_entries rest (remove ⦃o = u.text_ord⦄ name dict)

  unfoldable pub unregister_selection :
      ActorSelection u → BTreeMap u.Text (ActorEntry u) → BTreeMap u.Text (ActorEntry u)
  unregister_selection all_actors dict = []
  unregister_selection (selected_names names) dict = remove_entries names dict
  unregister_selection (selected_addresses addresses) dict =
      retain ⦃o = u.text_ord⦄ (λ entry. not (contains_addr addresses (entry.addr))) dict

  -- `process_request`: the change of the state, and the answer.
  unfoldable pub apply_request : AggregatorRequest u → ProfilingAggregator u → ProfilingAggregator u
  unfolding insert_entries remove_entries unregister_selection
  apply_request (register_observer a) g = record g {
    observer_set = insert ⦃o = addr_ord⦄ a tt g.observer_set;
  }
  apply_request (unregister_observer a) g = record g {
    observer_set = remove ⦃o = addr_ord⦄ a g.observer_set;
  }
  apply_request (register_profiled_actors names_addresses) g = record g {
    actor_entry_dict = insert_entries names_addresses g.actor_entry_dict;
  }
  apply_request (unregister_profiled_actors selection) g = record g {
    actor_entry_dict = unregister_selection selection g.actor_entry_dict;
  }

  unfoldable pub response_to : AggregatorRequest u → Any u
  response_to (register_observer a) = aggregator_response observer_registered
  response_to (unregister_observer a) = aggregator_response observer_unregistered
  response_to (register_profiled_actors l) = aggregator_response actors_registered
  response_to (unregister_profiled_actors s) = aggregator_response actors_unregistered

  unfoldable pub process_request :
      ProfilingAggregator u → World u → Addr → ℕ → Any u → ProfilingAggregator u × World u
  unfolding apply_request response_to
  process_request g w src id (aggregator_request r) =
      (apply_request r g, send_addr_id_response src id (response_to r) w)
  process_request g w src id _ = (g, w)
