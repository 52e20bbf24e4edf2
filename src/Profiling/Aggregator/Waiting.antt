-- ===== src/Profiling/Aggregator/Waiting.antt =====
-- The aggregator of src/profiling_aggregator.rs while it waits for the answer to a request.
use rtactor_rs.Base.{
  ℕ, ◌≡◌, refl, subst, sym, ◌==◌, false, Option, none, some, List, [], ◌∷◌, All, arith, ◌≢◌,
}
use rtactor_rs.Actor.Message.{
  AggregatorRequest, register_observer, unregister_observer, register_profiled_actors,
  unregister_profiled_actors, Env, metrics_response, aggregator_request, snapshot_metrics, Message,
  request, ok_response, err_response, notification,
}
use rtactor_rs.Actor.World.{World}
use rtactor_rs.Reactive.Context.{Context}
use rtactor_rs.Profiling.State.{
  process_request, State, idle, processing, Processing, ProfilingAggregator, apply_request,
}
use rtactor_rs.Profiling.Aggregator.{
  process_message, process_ok_response, process_err_response, process_notification,
}

differs : (id a b : ℕ) → id ≢ a → b ≡ a → (id == b) ≡ false
differs id a b h k = ground arith

module _ {u : Env} where
  -- A message that does not carry what an actor answers, or carries it under another id.
  abbrev pub IsOther : ℕ → Message u → Type 0
  IsOther id (ok_response k (metrics_response list)) = k ≢ id
  IsOther id (err_response k e (metrics_response list)) = k ≢ id
  IsOther id _ = Unit

  abbrev IsWaiting : Processing u → State u → Type 0
  IsWaiting p idle = ⊥
  IsWaiting p (processing q) =
      (q.request_id ≡ p.request_id) × (q.requested_index ≡ p.requested_index)

  -- It waits for the answer to the same request, and did not use its context.
  abbrev pub IsUnmoved :
      Processing u → Context → Option (ProfilingAggregator u × Context × World u) → Type 0
  IsUnmoved p c none = ⊥
  IsUnmoved p c (some (g, c', w)) = IsWaiting p g.state × (c' ≡ c)

  apply_request-IsWaiting :
      (r : AggregatorRequest u) (g : ProfilingAggregator u) (p q : Processing u)
      → IsWaiting p (processing q)
      → IsWaiting p (apply_request r (record g { state = processing q })).state
  unfolding apply_request
  apply_request-IsWaiting (register_observer a) g p q v = v
  apply_request-IsWaiting (unregister_observer a) g p q v = v
  apply_request-IsWaiting (register_profiled_actors l) g p q v = v
  apply_request-IsWaiting (unregister_profiled_actors l) g p q v = v

  message-IsUnmoved :
      (g : ProfilingAggregator u) (p q : Processing u) (c : Context) (w : World u) (m : Message u)
      → IsWaiting p (processing q)
      → IsOther p.request_id m
      → IsUnmoved p c (process_message (record g { state = processing q }) c w m)
  unfolding process_message process_request process_ok_response process_err_response
      process_notification apply_request
  message-IsUnmoved g p q c w (request src id (aggregator_request r)) v h =
      (apply_request-IsWaiting r g p q v, refl)
  message-IsUnmoved g p q c w (request src id _) v h = (v, refl)
  message-IsUnmoved g p q c w (ok_response id (metrics_response list)) v h =
      rw (differs id p.request_id q.request_id h v.0) (v, refl)
  message-IsUnmoved g p q c w (ok_response id _) v h = (v, refl)
  message-IsUnmoved g p q c w (err_response id e (metrics_response list)) v h =
      rw (differs id p.request_id q.request_id h v.0) (v, refl)
  message-IsUnmoved g p q c w (err_response id e _) v h = (v, refl)
  message-IsUnmoved g p q c w (notification (snapshot_metrics selection)) v h = (v, refl)
  message-IsUnmoved g p q c w (notification _) v h = (v, refl)

  waiting-IsUnmoved :
      (g : ProfilingAggregator u) (st : State u) (p : Processing u) (c : Context) (w : World u)
      (m : Message u)
      → IsWaiting p st
      → IsOther p.request_id m
      → IsUnmoved p c (process_message (record g { state = st }) c w m)
  waiting-IsUnmoved g (processing q) p c w m v h = message-IsUnmoved g p q c w m v h
  waiting-IsUnmoved g idle p c w m v h = elim v [ ]

  -- Messages that come one after the other, each in its own context and shared state.
  unfoldable pub process_each :
      ProfilingAggregator u → List (Context × World u × Message u) → Option (ProfilingAggregator u)
  process_each g [] = some g
  process_each g ((c, w, m) ∷ ms) = elim (process_message g c w m) [
    | none ↦ none
    | some (g', c', w') ↦ process_each g' ms
  ]

  abbrev pub StillWaits : Processing u → Option (ProfilingAggregator u) → Type 0
  StillWaits p none = ⊥
  StillWaits p (some g) = IsWaiting p g.state

  each-StillWaits :
      (g : ProfilingAggregator u) (p : Processing u) (ms : List (Context × World u × Message u))
      → IsWaiting p g.state
      → All (λ m. IsOther p.request_id m.2) ms
      → StillWaits p (process_each g ms)
  unfolding process_each
  each-StillWaits g p [] v h = v
  each-StillWaits g p ((c, w, m) ∷ ms) v h =
      elim (process_message g c w m)
          as (λ r.
            IsUnmoved p c r
            → StillWaits p (elim r [ none ↦ none | some (g', c', w') ↦ process_each g' ms ])) [
              | none ↦ λ bad. elim bad [ ]
              | some (g', c', w') ↦ λ kept. each-StillWaits g' p ms kept.0 h.1
            ]
        (waiting-IsUnmoved g g.state p c w m v h.0)

  -- An aggregator that waits for an answer goes on waiting for it, whatever messages come and in whatever
  -- contexts, as long as none of them carries metrics under the id of the request: an error response as
  -- the library makes it, with the data of the failed request, does not end the wait, and no new snapshot
  -- starts.
  pub process_each-StillWaits :
      (g : ProfilingAggregator u) (p : Processing u) (ms : List (Context × World u × Message u))
      → g.state ≡ processing p
      → All (λ m. IsOther p.request_id m.2) ms
      → StillWaits p (process_each g ms)
  process_each-StillWaits g p ms e h =
      each-StillWaits g p ms (subst (IsWaiting p) (sym e) (refl, refl)) h
