-- ===== src/Profiling/Hosted/Rounds.antt =====
-- The rounds of a snapshot in a dispatcher: the aggregator's request to an actor, and its answer.
use mathlib.Core.Option
use rtactor_rs.Base.{
  ℕ, suc, ◌≡◌, ◌≢◌, refl, sym, ap, subst, ◌∙◌, Option, some, [], arith, wrapping_suc,
}
use rtactor_rs.Actor.Message.{
  Env, reactive, Any, metrics_request, metrics_response, request, ok_response,
}
use rtactor_rs.Actor.World.{World, MessageAndDstId}
use rtactor_rs.Actor.Delivery.{receive_request}
use rtactor_rs.Reactive.Context.{Context, own_addr, send_addr_id_response}
use rtactor_rs.Mpsc.Free.{IsFree, Sent, request-Sent, response-Sent, taken-IsFree}
use rtactor_rs.Mpsc.Process.{UserCode, receive}
use rtactor_rs.Mpsc.Process.Serving.{Actors, with_behavior}
use rtactor_rs.Mpsc.Process.Serial.{serve_next, serve_times, serve_next-cons, serve_times-suc}
use rtactor_rs.Profiling.State.{ProfilingAggregator}
use rtactor_rs.Profiling.Aggregator.{process_message}
use rtactor_rs.Profiling.Aggregator.Snapshot.{Answer}
use rtactor_rs.Profiling.Hosted.{Hosting, serve-some}

module _ {u : Env} {code : UserCode u} (h : Hosting code) (tx own aid : ℕ) (apart : aid ≢ own) where
  -- The context and the shared state after the request to an actor, and after its answer.
  abbrev pub asking : Context → Context
  asking c = record c { request_id_counter = wrapping_suc c.request_id_counter }

  abbrev pub asked : Context → World u → ℕ → World u
  asked c w p =
      receive_request (reactive tx p) (own_addr c) (wrapping_suc c.request_id_counter)
        (metrics_request (some [])) w

  abbrev pub replied : Context → World u → ℕ → u.Behavior → World u
  replied c w p x =
      send_addr_id_response (own_addr c) (wrapping_suc c.request_id_counter)
        (metrics_response (some (h.report x))) (receive tx (asked c w p)).0

  abbrev pub answer_of : Context → World u → ℕ → u.Behavior → Answer u
  answer_of c w p x = record {
    context = record (asking c) { own_actor_id = aid };
    world = (receive tx (replied c w p x)).0;
    list = h.report x;
  }

  -- The context of the aggregator, and a queue for its next message.
  pub record IsAt (c : Context) (w : World u) : Type 0 where
    pub on : c.tx ≡ tx
    pub here : c.own_actor_id ≡ aid
    pub free : IsFree (w.reactive_channels tx)

  own_addr_lem : (c : Context) → c.tx ≡ tx → c.own_actor_id ≡ aid → own_addr c ≡ reactive tx aid
  unfolding own_addr
  own_addr_lem c e k = ground arith

  replied-Sent :
      (c : Context) (w : World u) (p : ℕ) (x : u.Behavior)
      → IsAt c w
      → IsFree ((receive tx (asked c w p)).0.reactive_channels tx)
        × Sent
            (receive tx (asked c w p)).0
            tx
            (record {
              message =
                  ok_response
                    (wrapping_suc c.request_id_counter)
                    (metrics_response (some (h.report x)));
              dst_id = aid;
            })
            (replied c w p x)
  replied-Sent c w p x k =
      let id = wrapping_suc c.request_id_counter in
      let sent = request-Sent w tx p id (own_addr c) (metrics_request (some [])) k.free in
      let free = taken-IsFree w (asked c w p) tx _ k.free sent in
      let w₁ = (receive tx (asked c w p)).0 in
      let d : Any u = metrics_response (some (h.report x)) in
      (
        free,
        subst
            (λ s.
              Sent w₁ tx (record { message = ok_response id d; dst_id = aid })
                (send_addr_id_response s id d w₁))
            (sym (own_addr_lem c k.on k.here)) (response-Sent w₁ tx aid id d free),
      )

  pub answer_of-IsAt :
      (c : Context) (w : World u) (p : ℕ) (x : u.Behavior)
      → IsAt c w
      → IsAt (answer_of c w p x).context (answer_of c w p x).world
  answer_of-IsAt c w p x k =
      let (free, sent) = replied-Sent c w p x k in
      record {
        on = k.on;
        here = refl;
        free = taken-IsFree (receive tx (asked c w p)).0 (replied c w p x) tx _ free sent;
      }

  -- The actor answers, and the aggregator takes the answer.
  pub two_messages :
      (n : ℕ) (c c' : Context) (w w' : World u) (p : ℕ) (x : u.Behavior)
      (g g' : ProfilingAggregator u) (f : ℕ → Option u.Behavior)
      → IsAt c w
      → p ≢ own
      → p ≢ aid
      → f p ≡ some x
      → h.Profiled x
      → f aid ≡ some (h.aggregator g)
      → process_message g
          (answer_of c w p x).context
          (answer_of c w p x).world
          (ok_response (wrapping_suc c.request_id_counter) (metrics_response (some (h.report x))))
        ≡ some (g', c', w')
      → serve_times code tx own
          (suc (suc n))
          (record { behaviors = f; context = asking c; world = asked c w p })
        ≡ serve_times code tx own n (record {
          behaviors = with_behavior (with_behavior f p (h.reported x)) aid (h.aggregator g');
          context = c';
          world = w';
        })
  two_messages n c c' w w' p x g g' f k other apart' e profiled e' q =
      let id = wrapping_suc c.request_id_counter in
      let a₀ : Actors u = record { behaviors = f; context = asking c; world = asked c w p } in
      let a₁ : Actors u = record {
        behaviors = with_behavior f p (h.reported x);
        context = record (asking c) { own_actor_id = p };
        world = replied c w p x;
      } in
      let a₂ : Actors u = record {
        behaviors = with_behavior (with_behavior f p (h.reported x)) aid (h.aggregator g');
        context = c';
        world = w';
      } in
      let m₁ : MessageAndDstId u = record {
        message = request (own_addr c) id (metrics_request (some []));
        dst_id = p;
      } in
      let m₂ : MessageAndDstId u = record {
        message = ok_response id (metrics_response (some (h.report x)));
        dst_id = aid;
      } in
      let sent₁ = request-Sent w tx p id (own_addr c) (metrics_request (some [])) k.free in
      let sent₂ = (replied-Sent c w p x k).1 in
      let one : serve_next code tx own a₀ ≡ some a₁ =
        serve_next-cons code tx own a₀ m₁ [] (ap (λ ch. ch.queue) sent₁) other
        ∙ serve-some code (record a₀ { world = (receive tx (asked c w p)).0 }) m₁ x (h.reported x) _
            _ e
            (h.answers x profiled (record (asking c) { own_actor_id = p })
              (receive tx (asked c w p)).0 (own_addr c) id) in
      let still : a₁.behaviors aid ≡ some (h.aggregator g) = ground arith in
      let two : serve_next code tx own a₁ ≡ some a₂ =
        serve_next-cons code tx own a₁ m₂ [] (ap (λ ch. ch.queue) sent₂) apart
        ∙ serve-some code (record a₁ { world = (receive tx (replied c w p x)).0 }) m₂
            (h.aggregator g) (h.aggregator g') c' w' still
            (h.runs g (answer_of c w p x).context (answer_of c w p x).world m₂.message
              ∙ ap (Option.map (λ t. (h.aggregator t.0, t.1, t.2))) q) in
      serve_times-suc code tx own (suc n) a₀ a₁ one ∙ serve_times-suc code tx own n a₁ a₂ two
