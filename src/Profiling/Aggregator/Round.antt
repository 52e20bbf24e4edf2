-- ===== src/Profiling/Aggregator/Round.antt =====
-- The steps of a snapshot of the aggregator in src/profiling_aggregator.rs, put together.
use rtactor_rs.Base.{
  wrapping_suc, ℕ, suc, ◌≡◌, refl, sym, ◌∙◌, ap, subst, Option, none, some, List, [], ◌∷◌, ◌++◌,
  All, arith, drop, get_elem?, ◌==◌, if◌then◌else◌, true,
}
use rtactor_rs.BTree.{BTreeMap, find, insert, keys}
use rtactor_rs.Reactive.Instant.{Instant}
use rtactor_rs.Actor.Message.{Env, Addr, MetricEntry, metrics_response, metric_update, ok_response}
use rtactor_rs.Actor.World.{World}
use rtactor_rs.Reactive.Context.{Context, send_request}
use rtactor_rs.Profiling.State.{ActorEntry, State, Processing, processing, ProfilingAggregator}
use rtactor_rs.Profiling.Aggregator.{
  request_next, settle, names_metric_lists, notify_each, notify_observers, process_message,
  swap_list, process_ok_response, take_metrics, process_next_snapshot_and_notify,
}
use rtactor_rs.Profiling.Aggregator.Steps.{request_next-none, request_next-some}
use rtactor_rs.Profiling.Aggregator.Listed.{
  IsApart, listed, listed-none, listed-some, listed-insert, swap_list-insert,
}
use rtactor_rs.Profiling.Aggregator.Snapshot.{
  with_addr, Answer, Outcome, note, answer_each, answered, actions, next_action, targets_of, IsDone,
}

eq_self : (n : ℕ) → (n == n) ≡ true
eq_self n = ground arith

module _ {u : Env} where
  -- The answer to the request that an aggregator waits for.
  process_answer :
      (g : ProfilingAggregator u) (p : Processing u) (name : u.Text) (c : Context) (w : World u)
      (list : List (MetricEntry u))
      → get_elem? p.snapshot_list p.requested_index ≡ some name
      → process_message
          (record g { state = processing p })
          c
          w
          (ok_response p.request_id (metrics_response (some list)))
        ≡ some (
            process_next_snapshot_and_notify
              (record g {
                actor_entry_dict = swap_list name (some list) g.actor_entry_dict;
                state = processing (record p { requested_index = suc p.requested_index });
              })
              c
              w)
  unfolding process_message process_ok_response take_metrics
  process_answer g p name c w list h =
      ap
        (λ b.
          if b
          then take_metrics (record g { state = processing p }) p c w (some list)
              (get_elem? p.snapshot_list p.requested_index)
          else some (record g { state = processing p }, c, w))
        (eq_self p.request_id)
      ∙ ap (take_metrics (record g { state = processing p }) p c w (some list)) h

  IsDone-note :
      (observers : BTreeMap Addr (Unit {0})) (o : Context × World u)
      (outputs : List (Context × World u)) (r : Option (Outcome u))
      → IsDone observers outputs r
      → IsDone observers (o ∷ outputs) (note o r)
  unfolding note
  IsDone-note observers o outputs none d = elim d [ ]
  IsDone-note observers o outputs (some (g, outputs')) d = (d.0, d.1, ap (λ l. o ∷ l) d.2)

  pub answer_each-cons :
      (id : ℕ) (g : ProfilingAggregator u) (a : Answer u) (rest : List (Answer u))
      → answer_each id g (a ∷ rest)
        ≡ answered
            (process_message g a.context a.world (ok_response id (metrics_response (some a.list))))
            rest
  unfolding answer_each answered
  answer_each-cons id g a rest = ground arith

-- The dictionary when the actor under a name was asked, and when it has answered.
abbrev pub after_request :
    {u : Env}
    → u.Text
    → ActorEntry u
    → BTreeMap u.Text (ActorEntry u)
    → BTreeMap u.Text (ActorEntry u)
after_request {u} n e dict = insert ⦃o = u.text_ord⦄ n (record e { metric_list = none }) dict

abbrev pub after_answer :
    {u : Env}
    → u.Text
    → ActorEntry u
    → List (MetricEntry u)
    → BTreeMap u.Text (ActorEntry u)
    → BTreeMap u.Text (ActorEntry u)
after_answer {u} n e list dict =
    insert ⦃o = u.text_ord⦄ n (record e { metric_list = some list }) (after_request n e dict)

pub targets-answer :
    {u : Env} (n : u.Text) (ns : List u.Text) (e : ActorEntry u) (list : List (MetricEntry u))
    (dict : BTreeMap u.Text (ActorEntry u))
    → All (IsApart ⦃o = u.text_ord⦄ n) ns
    → targets_of (after_answer n e list dict) ns ≡ targets_of dict ns
targets-answer {u} n ns e list dict h =
    listed-insert ⦃o = u.text_ord⦄ with_addr _ n _ ns h
    ∙ listed-insert ⦃o = u.text_ord⦄ with_addr dict n _ ns h

module _ {u : Env} (observers : BTreeMap Addr (Unit {0})) (l : List u.Text) (t : Instant) where
  -- The aggregator in the middle of the snapshot.
  abbrev pub at : ℕ → ℕ → Processing u
  at i r = record { snapshot_list = l; timestamp = t; requested_index = i; request_id = r }

  abbrev pub in_state : BTreeMap u.Text (ActorEntry u) → State u → ProfilingAggregator u
  in_state dict st = record { actor_entry_dict = dict; observer_set = observers; state = st }

  -- What is to be shown for the names that are left.
  abbrev pub Goal :
      List u.Text
      → List (u.Text × List (MetricEntry u))
      → ℕ
      → BTreeMap u.Text (ActorEntry u)
      → List (Answer u)
      → Type 0
  Goal ns got i dict answers =
      (st : State u) (j r : ℕ) (c : Context) (w : World u)
      → IsDone observers (actions (keys observers) t (targets_of dict ns) got c w answers) (
          answered (some (settle (in_state dict st) (at j r) c w (request_next dict ns i c w)))
            answers)

  pub no_more :
      (got : List (u.Text × List (MetricEntry u))) (dict : BTreeMap u.Text (ActorEntry u)) (i : ℕ)
      → got ≡ names_metric_lists dict l
      → Goal [] got i dict []
  unfolding answered answer_each settle request_next actions next_action notify_observers listed
      note
  no_more got dict i e st j r c w =
      (refl, refl, ap (λ m. (c, notify_each (keys observers) (metric_update t m) w) ∷ []) (sym e))

  pub skip :
      (n : u.Text) (ns : List u.Text) (got : List (u.Text × List (MetricEntry u)))
      (dict : BTreeMap u.Text (ActorEntry u)) (i : ℕ) (answers : List (Answer u))
      → find ⦃o = u.text_ord⦄ n dict ≡ none
      → Goal ns got (suc i) dict answers
      → Goal (n ∷ ns) got i dict answers
  skip n ns got dict i answers h goal st j r c w =
      rw (request_next-none dict n ns i c w h, listed-none ⦃o = u.text_ord⦄ with_addr dict n ns h)
        (goal st j r c w)

  pub ask :
      (n : u.Text) (ns : List u.Text) (got : List (u.Text × List (MetricEntry u)))
      (dict : BTreeMap u.Text (ActorEntry u)) (e : ActorEntry u) (i : ℕ) (a : Answer u)
      (answers : List (Answer u))
      → find ⦃o = u.text_ord⦄ n dict ≡ some e
      → get_elem? l i ≡ some n
      → drop (suc i) l ≡ ns
      → All (IsApart ⦃o = u.text_ord⦄ n) ns
      → Goal ns (got ++ (n, a.list) ∷ []) (suc i) (after_answer n e a.list dict) answers
      → Goal (n ∷ ns) got i dict (a ∷ answers)
  unfolding actions next_action answered settle send_request process_next_snapshot_and_notify
  ask n ns got dict e i a answers h k d apart goal st j r c w =
      let id = wrapping_suc c.request_id_counter in
      let g = in_state (after_request n e dict) (processing (at i id)) in
      let Left : List (u.Text × Addr) → BTreeMap u.Text (ActorEntry u) → List u.Text → Type 0 =
        λ ts dict' names.
          IsDone observers
            (actions (keys observers) t ts (got ++ (n, a.list) ∷ []) a.context a.world answers)
            (answered
              (some (
                settle (in_state dict' (processing (at (suc i) id))) (at (suc i) id) a.context
                  a.world (request_next dict' names (suc i) a.context a.world)))
              answers) in
      let asked_next =
        subst (λ ts. Left ts (swap_list n (some a.list) (after_request n e dict)) (drop (suc i) l))
          (targets-answer n ns e a.list dict apart)
          (subst
            (λ dict'. Left (targets_of (after_answer n e a.list dict) ns) dict' (drop (suc i) l))
            (sym (swap_list-insert dict n (record e { metric_list = none }) (some a.list)))
            (subst
              (λ names.
                Left (targets_of (after_answer n e a.list dict) ns) (after_answer n e a.list dict)
                  names)
              (sym d) (goal (processing (at (suc i) id)) (suc i) id a.context a.world))) in
      rw
        (
          request_next-some dict n ns i c w e h,
          listed-some ⦃o = u.text_ord⦄ with_addr dict n ns e h,
        )
        (IsDone-note observers _ _ _ (
          subst (IsDone observers _)
            (sym (
              answer_each-cons id g a answers
              ∙ ap (λ m. answered m answers)
                  (process_answer g (at i id) n a.context a.world a.list k)))
            asked_next))
