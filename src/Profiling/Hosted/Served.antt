-- ===== src/Profiling/Hosted/Served.antt =====
-- A snapshot of `ProfilingAggregator` in a dispatcher that processes the messages of all that take
-- part: src/profiling_aggregator.rs, src/profiled_actor.rs and src/mpsc_dispatcher.rs together.
use mathlib.Core.Option
use rtactor_rs.Base.{
  ℕ, suc, ◌<◌, ◌≡◌, ◌≢◌, refl, sym, ap, ◌∙◌, true, Option, none, some, List, [], ◌∷◌, arith, All,
}
use rtactor_rs.BTree.{BTreeMap, keys}
use rtactor_rs.Actor.Message.{
  Env, Addr, metric_update, ActorSelection, snapshot_metrics, notification,
}
use rtactor_rs.Actor.World.{World, MessageAndDstId}
use rtactor_rs.Reactive.Context.{Context}
use rtactor_rs.Mpsc.Extending.{queue_at}
use rtactor_rs.Mpsc.Free.{IsFree, receive-IsFree}
use rtactor_rs.Mpsc.Registry.Lookup.{behavior_at}
use rtactor_rs.Mpsc.Process.{UserCode, Running, receive}
use rtactor_rs.Mpsc.Process.Serving.{Actors, actors_of, with_behavior}
use rtactor_rs.Mpsc.Process.Serial.{
  process_times, serve_next, serve_next-cons, serve_times-suc, process_times-serve_times,
}
use rtactor_rs.Profiling.State.{ProfilingAggregator, idle}
use rtactor_rs.Profiling.Aggregator.{notify_each, process_message}
use rtactor_rs.Profiling.Aggregator.Kept.{Reachable}
use rtactor_rs.Profiling.Aggregator.Snapshot.{Outcome, IsDone, actions, take_snapshot}
use rtactor_rs.Profiling.Aggregator.Outcome.{IsSimple, selected, take_snapshot_lem}
use rtactor_rs.Profiling.Hosted.{Hosting, IsHosted, reports, messages, serve-some, answered_inv}
use rtactor_rs.Profiling.Hosted.Rounds.{IsAt}
use rtactor_rs.Profiling.Hosted.Snapshot.{doing, actions-cons, claims}

done_as :
    {u : Env} (observers : BTreeMap Addr (Unit {0})) (outputs : List (Context × World u))
    (r : Option (Outcome u))
    → IsDone observers outputs r
    → (g : ProfilingAggregator u) × (r ≡ some (g, outputs))
      × (g.state ≡ idle)
      × (g.observer_set ≡ observers)
done_as observers outputs none d = elim d [ ]
done_as observers outputs (some (g, outputs')) d = (g, ap (λ o. some (g, o)) d.2, d.0, d.1)

module _ {u : Env} (code : UserCode u) (h : Hosting code) where
  -- The dispatcher is about to process one message for the aggregator.
  pub record IsAsked (r : Running u) (aid : ℕ) (g : ProfilingAggregator u)
      (selection : ActorSelection u) : Type 0 where
    pub queued :
        queue_at r.world r.dispatcher.tx
        ≡ record { message = notification (snapshot_metrics selection); dst_id = aid } ∷ []
    pub receiver : (r.world.reactive_channels r.dispatcher.tx).has_receiver ≡ true
    pub roomy : 0 < (r.world.reactive_channels r.dispatcher.tx).capacity
    pub same_tx : r.context.tx ≡ r.dispatcher.tx
    pub other : aid ≢ r.dispatcher.disp_actor_id
    pub aggregates : behavior_at aid r.dispatcher.reactive_list ≡ some (h.aggregator g)

  -- The dispatcher after the snapshot.
  pub record IsTold (r r' : Running u) (aid : ℕ) (g : ProfilingAggregator u)
      (selection : ActorSelection u) : Type 0 where
    pub after : ProfilingAggregator u
    pub before : World u
    pub aggregates : behavior_at aid r'.dispatcher.reactive_list ≡ some (h.aggregator after)
    pub rests : after.state ≡ idle
    pub same_observers : after.observer_set ≡ g.observer_set
    pub free : IsFree (before.reactive_channels r.dispatcher.tx)
    pub told :
        r'.world
        ≡ notify_each
            (keys g.observer_set)
            (metric_update r.context.clock (
              reports h r.dispatcher.tx r.dispatcher.disp_actor_id aid
                (actors_of r).behaviors
                (selected g selection)))
            before

  -- The actors once the aggregator has started.
  abbrev asked : Running u → ℕ → ProfilingAggregator u → Context × World u → Actors u
  asked r aid g₁ o = record {
    behaviors = with_behavior (actors_of r).behaviors aid (h.aggregator g₁);
    context = o.0;
    world = o.1;
  }

  IsAsked-serve_next :
      (r : Running u) (aid : ℕ) (g g₁ : ProfilingAggregator u) (selection : ActorSelection u)
      (o : Context × World u)
      → IsAsked r aid g selection
      → process_message g
          (record (r.context) { own_actor_id = aid })
          (receive r.dispatcher.tx r.world).0
          (notification (snapshot_metrics selection))
        ≡ some (g₁, o.0, o.1)
      → serve_next code r.dispatcher.tx r.dispatcher.disp_actor_id (actors_of r)
        ≡ some (asked r aid g₁ o)
  IsAsked-serve_next r aid g g₁ selection o k started =
      let m : MessageAndDstId u = record {
        message = notification (snapshot_metrics selection);
        dst_id = aid;
      } in
      let a : Actors u = record (actors_of r) { world = (receive r.dispatcher.tx r.world).0 } in
      serve_next-cons code r.dispatcher.tx r.dispatcher.disp_actor_id (actors_of r) m [] k.queued
        k.other
      ∙ serve-some code a m (h.aggregator g) (h.aggregator g₁) o.0 o.1 k.aggregates (
          h.runs g (record (r.context) { own_actor_id = aid }) a.world m.message
          ∙ ap (Option.map (λ t. (h.aggregator t.0, t.1, t.2))) started)

  -- A snapshot of actors on the aggregator's own dispatcher is over after one message and two more for
  -- each actor that is asked, none of which panics: the aggregator is then in rest and has told every
  -- observer what each selected actor reported, by name and with the time of the start. The
  -- aggregator is in rest at first, and the notification that asks for the snapshot is the only
  -- message in the queue, which has room for one; a selection by names does not repeat a name; each
  -- selected actor is registered at the dispatcher and answers requests for metrics at once; the
  -- code of the users runs the aggregator as it is here.
  pub process_times-snapshot :
      (r : Running u) (aid : ℕ) (g : ProfilingAggregator u) (selection : ActorSelection u)
      → IsAsked r aid g selection
      → Reachable g
      → g.state ≡ idle
      → IsSimple selection
      → All
          (IsHosted h r.dispatcher.tx r.dispatcher.disp_actor_id aid (actors_of r).behaviors)
          (selected g selection)
      → (r' : Running u) × (process_times code
            (suc (messages h r.dispatcher.tx r.dispatcher.disp_actor_id aid (selected g selection)))
            r
          ≡ some r')
        × IsTold r r' aid g selection
  process_times-snapshot r aid g selection k reachable rest simple hosted =
      let tx = r.dispatcher.tx in
      let own = r.dispatcher.disp_actor_id in
      let ts = selected g selection in
      let c : Context = record (r.context) { own_actor_id = aid } in
      let w = (receive tx r.world).0 in
      let m : MessageAndDstId u = record {
        message = notification (snapshot_metrics selection);
        dst_id = aid;
      } in
      let at : IsAt h tx own aid k.other c w = record {
        on = k.same_tx;
        here = refl;
        free = receive-IsFree r.world tx m k.queued k.receiver k.roomy;
      } in
      let (answers, len, chain) =
        claims h tx own aid k.other (keys g.observer_set) c.clock ts (actors_of r).behaviors [] c w
          at hosted in
      let outs = actions (keys g.observer_set) c.clock ts [] c w answers in
      let (gf, taken, rests, observers) =
        done_as g.observer_set outs (take_snapshot g c w selection answers)
          (take_snapshot_lem g c w selection answers reachable rest simple len) in
      let (l, cons) = actions-cons (keys g.observer_set) c.clock ts [] c w answers in
      let o = doing h tx own aid k.other (keys g.observer_set) c.clock ts [] c w in
      let (g₁, started, left) =
        answered_inv (process_message g c w m.message) answers gf o l
          (taken ∙ ap (λ x. some (gf, x)) cons) in
      let a = asked r aid g₁ o in
      let one = IsAsked-serve_next r aid g g₁ selection o k started in
      let ends = chain g₁ gf l a.behaviors left (sym cons) (ground arith) (λ j n. ground arith) in
      let (r', runs, view) =
        process_times-serve_times code (suc (messages h tx own aid ts)) tx own r (actors_of r)
          ends.last refl refl refl
          (serve_times-suc code tx own (messages h tx own aid ts) (actors_of r) a one ∙ ends.run) in
      (
        r',
        runs,
        record {
          after = gf;
          before = ends.before;
          aggregates = ap (λ z. z.behaviors aid) view ∙ ends.aggregates;
          rests = rests;
          same_observers = observers;
          free = ends.free;
          told = ap (λ z. z.world) view ∙ ends.told;
        },
      )
