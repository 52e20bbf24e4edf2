-- ===== src/Profiling/Hosted/Snapshot.antt =====
-- A whole snapshot in a dispatcher that hosts the aggregator and the actors.
use rtactor_rs.Base.{
  ℕ, suc, ◌≡◌, ◌≢◌, refl, sym, ap, subst, ◌∙◌, Option, some, List, [], ◌∷◌, ◌++◌, arith, All,
  length, wrapping_suc, append_assoc, append-nil,
}
use rtactor_rs.Actor.Message.{Env, Addr, reactive, actor_id, MetricEntry, metric_update}
use rtactor_rs.Actor.World.{World}
use rtactor_rs.Reactive.Instant.{Instant}
use rtactor_rs.Reactive.Context.{Context, send_request}
use rtactor_rs.Mpsc.Free.{IsFree}
use rtactor_rs.Mpsc.Process.{UserCode}
use rtactor_rs.Mpsc.Process.Serving.{Actors, with_behavior}
use rtactor_rs.Mpsc.Process.Serial.{serve_times}
use rtactor_rs.Profiling.State.{ProfilingAggregator}
use rtactor_rs.Profiling.Aggregator.{notify_each}
use rtactor_rs.Profiling.Aggregator.Snapshot.{Answer, answer_each, actions, next_action}
use rtactor_rs.Profiling.Hosted.{
  Hosting, IsHosted, reports, messages, next_answer, All-IsHosted-after, Agrees, Agrees-after,
}
use rtactor_rs.Profiling.Hosted.Rounds.{IsAt, answer_of, answer_of-IsAt, two_messages}

tail_of : {A : Type 0} (x y : A) (xs ys : List A) → x ∷ xs ≡ y ∷ ys → xs ≡ ys
tail_of x y xs ys e = ground arith

module _ {u : Env} (observers : List Addr) (t : Instant) where
  pub actions-cons :
      (ts : List (u.Text × Addr)) (got : List (u.Text × List (MetricEntry u))) (c : Context)
      (w : World u) (answers : List (Answer u))
      → (l : List (Context × World u)) × (actions observers t ts got c w answers
          ≡ next_action observers t ts got c w ∷ l)
  unfolding actions
  actions-cons [] got c w answers = ([], refl)
  actions-cons (x ∷ ts) got c w [] = ([], refl)
  actions-cons ((name, addr) ∷ ts) got c w (a ∷ answers) = (_, refl)

module _ {u : Env} {code : UserCode u} (h : Hosting code) (tx own aid : ℕ) (apart : aid ≢ own)
    (observers : List Addr) (t : Instant) where
  abbrev pub doing :
      List (u.Text × Addr)
      → List (u.Text × List (MetricEntry u))
      → Context
      → World u
      → Context × World u
  doing = next_action observers t

  -- The end of a run of the actors, in which the aggregator has told the observers.
  pub record Ends (n : ℕ) (a : Actors u) (gf : ProfilingAggregator u)
      (got : List (u.Text × List (MetricEntry u))) : Type 0 where
    pub last : Actors u
    pub before : World u
    pub run : serve_times code tx own n a ≡ some last
    pub aggregates : last.behaviors aid ≡ some (h.aggregator gf)
    pub free : IsFree (before.reactive_channels tx)
    pub told : last.world ≡ notify_each observers (metric_update t got) before

  abbrev pub Chain :
      (ℕ → Option u.Behavior)
      → List (u.Text × Addr)
      → List (u.Text × List (MetricEntry u))
      → Context
      → World u
      → List (Answer u)
      → Type 0
  Chain hist ts got c w answers =
      (g gf : ProfilingAggregator u) (outs : List (Context × World u)) (f : ℕ → Option u.Behavior)
      → answer_each (doing ts got c w).0.request_id_counter g answers ≡ some (gf, outs)
      → doing ts got c w ∷ outs ≡ actions observers t ts got c w answers
      → f aid ≡ some (h.aggregator g)
      → Agrees h tx own aid f hist
      → Ends (messages h tx own aid ts)
          (record { behaviors = f; context = (doing ts got c w).0; world = (doing ts got c w).1 })
          gf (got ++ reports h tx own aid hist ts)

  abbrev pub Claim : List (u.Text × Addr) → Type 0
  Claim ts =
      (hist : ℕ → Option u.Behavior) (got : List (u.Text × List (MetricEntry u))) (c : Context)
      (w : World u)
      → IsAt h tx own aid apart c w
      → All (IsHosted h tx own aid hist) ts
      → (answers : List (Answer u)) × (length answers ≡ length ts) × Chain hist ts got c w answers

  no_more : Claim []
  unfolding answer_each next_action serve_times
  no_more hist got c w k p = (
    [],
    refl,
    λ g gf outs f e q here agrees. record {
      last = record {
        behaviors = f;
        context = c;
        world = notify_each observers (metric_update t got) w;
      };
      before = w;
      run = refl;
      aggregates =
          here ∙ ap (λ z. some (h.aggregator z)) (let same : g ≡ gf = ground arith in same);
      free = k.free;
      told = ap (λ l. notify_each observers (metric_update t l) w) (sym (append-nil got));
    },
  )

  reports_cons :
      (name : u.Text) (p : ℕ) (x : u.Behavior) (ts : List (u.Text × Addr))
      (hist : ℕ → Option u.Behavior)
      → hist p ≡ some x
      → reports h tx own aid hist ((name, reactive tx p) ∷ ts)
        ≡ (name, h.report x) ∷ reports h tx own aid (with_behavior hist p (h.reported x)) ts
  unfolding actor_id
  reports_cons name p x ts hist e = rw (e, reports) refl

  ask_next :
      (name : u.Text) (p : ℕ) (x : u.Behavior) (ts : List (u.Text × Addr))
      (hist : ℕ → Option u.Behavior) (got : List (u.Text × List (MetricEntry u))) (c : Context)
      (w : World u)
      → IsAt h tx own aid apart c w
      → p ≢ own
      → p ≢ aid
      → hist p ≡ some x
      → h.Profiled x
      → All (IsHosted h tx own aid hist) ts
      → Claim ts
      → (answers : List (Answer u)) × (length answers ≡ suc (length ts))
        × Chain hist ((name, reactive tx p) ∷ ts) got c w answers
  unfolding next_action send_request actions actor_id
  ask_next name p x ts hist got c w k other apart' e profiled hosted claim =
      let a = answer_of h tx own aid apart c w p x in
      let hist' = with_behavior hist p (h.reported x) in
      let got' = got ++ (name, h.report x) ∷ [] in
      let (rest, len, chain) =
        claim hist' got' a.context a.world (answer_of-IsAt h tx own aid apart c w p x k)
          (All-IsHosted-after h tx own aid hist p x ts profiled hosted) in
      (
        a ∷ rest,
        ap suc len,
        λ g gf outs f run q here agrees.
            let (l, cons) = actions-cons observers t ts got' a.context a.world rest in
            let outs' : outs ≡ doing ts got' a.context a.world ∷ l =
              tail_of _ _ outs (actions observers t ts got' a.context a.world rest) q ∙ cons in
            let run' : answer_each (wrapping_suc c.request_id_counter) g (a ∷ rest)
                ≡ some (gf, doing ts got' a.context a.world ∷ l) =
              run ∙ ap (λ o. some (gf, o)) outs' in
            let (g', took, left) =
              next_answer (wrapping_suc c.request_id_counter) g gf a rest
                (doing ts got' a.context a.world) l run' in
            let two =
              two_messages h tx own aid apart (messages h tx own aid ts) c
                (doing ts got' a.context a.world).0 w (doing ts got' a.context a.world).1 p x g g' f
                k other apart' (agrees p apart' ∙ e) profiled here took in
            let f' = with_behavior (with_behavior f p (h.reported x)) aid (h.aggregator g') in
            let ends =
              chain g' gf l f' left (sym cons) (ground arith)
                (Agrees-after h tx own aid f hist p (h.reported x) (h.aggregator g') agrees) in
            record {
              last = ends.last;
              before = ends.before;
              run = two ∙ ends.run;
              aggregates = ends.aggregates;
              free = ends.free;
              told =
                  ends.told
                  ∙ ap (λ m. notify_each observers (metric_update t m) ends.before)
                      (append_assoc got ((name, h.report x) ∷ []) (reports h tx own aid hist' ts)
                        ∙ ap (λ m. got ++ m) (sym (reports_cons name p x ts hist e)));
            },
      )

  pub claims : (ts : List (u.Text × Addr)) → Claim ts
  claims [] hist got c w k hosted = no_more hist got c w k hosted
  claims ((name, addr) ∷ ts) hist got c w k hosted =
      subst
        (λ a.
          (answers : List (Answer u)) × (length answers ≡ suc (length ts))
          × Chain hist ((name, a) ∷ ts) got c w answers)
        (sym hosted.0.address)
        (ask_next name hosted.0.id hosted.0.behavior ts hist got c w k hosted.0.not_own
          hosted.0.not_aggregator hosted.0.registered hosted.0.profiled hosted.1 (claims ts))
