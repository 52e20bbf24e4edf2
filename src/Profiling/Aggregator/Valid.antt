-- ===== src/Profiling/Aggregator/Valid.antt =====
-- What an aggregator of src/profiling_aggregator.rs relies on between two messages: maps in the order
-- of their keys, and a snapshot that points to one of its names.
use rtactor_rs.Profiling.Aggregator.Steps.{request_next-none, request_next-some}
use rtactor_rs.Base.{
  ◌++◌, length-append, Option-cases, inl, inr, ℕ, suc, ◌+◌, ◌<◌, ◌≤◌, ◌≡◌, Option, none, some, List,
  [], ◌∷◌, length, arith,
}
use rtactor_rs.BTree.{Ord, BTreeMap, find, IsSorted}
use rtactor_rs.BTree.Laws.{insert-IsSorted, remove-IsSorted}
use rtactor_rs.BTree.Sets.{retain-IsSorted}
use rtactor_rs.Actor.Message.{
  Env, Addr, ActorSelection, all_actors, selected_names, selected_addresses,
}
use rtactor_rs.Actor.World.{World}
use rtactor_rs.Reactive.Context.{Context}
use rtactor_rs.Profiling.State.{
  add_names, ActorEntry, addr_ord, State, idle, processing, ProfilingAggregator, insert_entries,
  remove_entries, unregister_selection,
}
use rtactor_rs.Profiling.Aggregator.{request_next}

plus_suc : (i n : ℕ) → i + suc n ≡ suc i + n
plus_suc i n = omega arith

module _ {u : Env} where
  abbrev pub IsPointed : State u → Type 0
  IsPointed idle = Unit
  IsPointed (processing p) = p.requested_index < length p.snapshot_list

  abbrev pub IsValid : ProfilingAggregator u → Type 0
  IsValid g =
      IsSorted ⦃o = u.text_ord⦄ g.actor_entry_dict
      × IsSorted ⦃o = addr_ord⦄ g.observer_set
      × IsPointed g.state

  pub insert_entries-IsSorted :
      (l : List (u.Text × Addr)) (dict : BTreeMap u.Text (ActorEntry u))
      → IsSorted ⦃o = u.text_ord⦄ dict
      → IsSorted ⦃o = u.text_ord⦄ (insert_entries l dict)
  unfolding insert_entries
  insert_entries-IsSorted [] dict s = s
  insert_entries-IsSorted ((name, addr) ∷ rest) dict s =
      insert_entries-IsSorted rest _ (insert-IsSorted ⦃o = u.text_ord⦄ name _ dict s)

  remove_entries-IsSorted :
      (l : List u.Text) (dict : BTreeMap u.Text (ActorEntry u))
      → IsSorted ⦃o = u.text_ord⦄ dict
      → IsSorted ⦃o = u.text_ord⦄ (remove_entries l dict)
  unfolding remove_entries
  remove_entries-IsSorted [] dict s = s
  remove_entries-IsSorted (name ∷ rest) dict s =
      remove_entries-IsSorted rest _ (remove-IsSorted ⦃o = u.text_ord⦄ name dict s)

  pub unregister_selection-IsSorted :
      (l : ActorSelection u) (dict : BTreeMap u.Text (ActorEntry u))
      → IsSorted ⦃o = u.text_ord⦄ dict
      → IsSorted ⦃o = u.text_ord⦄ (unregister_selection l dict)
  unfolding unregister_selection
  unregister_selection-IsSorted all_actors dict s = tt
  unregister_selection-IsSorted (selected_names names) dict s = remove_entries-IsSorted names dict s
  unregister_selection-IsSorted (selected_addresses addresses) dict s =
      retain-IsSorted ⦃o = u.text_ord⦄ _ dict s

  -- The outcome of the search for the next actor to ask, from an index over some names.
  abbrev pub IsFound :
      ℕ → Option ((BTreeMap u.Text (ActorEntry u) × ℕ × ℕ) × Context × World u) → Type 0
  IsFound end none = Unit
  IsFound end (some ((dict, index, id), c, w)) = IsSorted ⦃o = u.text_ord⦄ dict × (index < end)

  pub request_next-IsFound :
      (dict : BTreeMap u.Text (ActorEntry u)) (names : List u.Text) (index : ℕ) (c : Context)
      (w : World u)
      → IsSorted ⦃o = u.text_ord⦄ dict
      → IsFound (index + length names) (request_next dict names index c w)
  unfolding request_next
  request_next-IsFound dict [] index c w s = tt
  request_next-IsFound dict (name ∷ rest) index c w s =
      elim (Option-cases (find ⦃o = u.text_ord⦄ name dict)) [
        | inl h ↦
            rw (request_next-none dict name rest index c w h, plus_suc index (length rest))
              (request_next-IsFound dict rest (suc index) c w s)
        | inr (entry, h) ↦
            rw (request_next-some dict name rest index c w entry h)
              (insert-IsSorted ⦃o = u.text_ord⦄ name _ dict s, omega arith)
      ]

pub length-add_names :
    {K : Type 0} ⦃o : Ord K⦄ (l names : List K) → length l ≤ length (add_names l names)
unfolding add_names
length-add_names l [] = omega arith
length-add_names l (name ∷ rest) = ground (
  arith,
  length-add_names l rest,
  length-add_names (l ++ name ∷ []) rest,
  length-append l (name ∷ []),
)
