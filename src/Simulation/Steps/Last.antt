-- ===== src/Simulation/Steps/Last.antt =====
-- The look for a message with which a run of `process_until_cond` of src/simulation.rs ends.
use rtactor_rs.Base.{
  ℕ, zero, suc, ◌≡◌, refl, sym, ap, subst, ◌∙◌, inl, inr, true, false, not, ◌||◌, some, arith,
  if◌then◌else◌, Bool-cases, Option-cases,
}
use rtactor_rs.Actor.Message.{Env}
use rtactor_rs.Reactive.Instant.{Instant, finite}
use rtactor_rs.Mpsc.Process.{UserCode, try_process_message}
use rtactor_rs.Simulation.{
  SimulationDispatcher, finished, panicked, out_of_fuel, BreakFunc, Turn, Run, after_message,
  process_one, process_queued, until_round, after_queued, next_or_panic, next_timeout, goes_on,
  leave, process_until_cond,
}
use rtactor_rs.Simulation.Time.{over, and_then, process_until_cond-First, after_queued-ends}
use rtactor_rs.Simulation.Steps.{
  Position, entered, Look, breaks, after, over_time, GoesOn, Reaches, here, message, round,
  Reaches-trans,
}

module _ {u : Env} {S : Type 0} (code : UserCode u) (break_func : BreakFunc u S) (i : Instant) where
  -- What a look comes to, for the loop over the messages.
  abbrev turn_of : (q : Position u S) → Look code break_func i q → Turn u S
  turn_of q l = record {
    processed = l.processed;
    stop =
        if breaks code break_func i q l
        then true
        else (if over_time code break_func i q l then true else l.asks);
    captured = (after code break_func i q l).captured;
    running = (after code break_func i q l).running;
  }

  turn_of-GoesOn :
      (q : Position u S) (l : Look code break_func i q)
      → (turn_of q l).stop ≡ false
      → GoesOn code break_func i q l
  turn_of-GoesOn q l h = elim (Bool-cases (breaks code break_func i q l)) [
    | inl b ↦ absurd (ground arith)
    | inr b ↦ elim (Bool-cases (over_time code break_func i q l)) [
      | inl o ↦ absurd (ground arith)
      | inr o ↦ record { unbroken = b; in_time = o; unasked = ground arith }
    ]
  ]

  process_one-Look :
      (q : Position u S) (x : Turn u S)
      → process_one code break_func
          (finite q.round.instant_source.simulated_now)
          i
          q.captured
          q.running
        ≡ some x
      → (l : Look code break_func i q) × (turn_of q l ≡ x)
  unfolding process_one after_message
  process_one-Look q x e = elim (Option-cases (try_process_message code q.running)) [
    | inl n ↦ absurd (ground arith)
    | inr (((p, a), r), t) ↦
        (record { processed = p; asks = a; running = r; tried = t }, ground arith)
  ]

  -- The look that ends the loop over the messages.
  record LastOf (p : Position u S) (turn : Turn u S) : Type 0 where
    pub at : Position u S
    pub reached : Reaches code break_func i at p
    pub same : at.round ≡ p.round
    pub look : Look code break_func i at
    pub turned : turn_of at look ≡ turn
    pub final : (turn.stop || not turn.processed) ≡ true

  process_queued-LastOf :
      (fuel : ℕ) (p : Position u S) (turn : Turn u S)
      → process_queued code break_func fuel
          (finite p.round.instant_source.simulated_now)
          i
          p.captured
          p.running
        ≡ finished turn
      → LastOf p turn
  unfolding process_queued
  process_queued-LastOf zero p turn e = absurd (ground arith)
  process_queued-LastOf (suc fuel) p turn e =
      elim (Option-cases (
        process_one code break_func (finite p.round.instant_source.simulated_now) i p.captured
          p.running)) [
            | inl n ↦ absurd (ground arith)
            | inr (x, q) ↦
                let (l, t) = process_one-Look p x q in
                elim (Bool-cases (x.stop || not x.processed)) [
                  | inl last ↦
                      let same : x ≡ turn = ground arith in
                      record {
                        at = p;
                        reached = here;
                        same = refl;
                        look = l;
                        turned = t ∙ same;
                        final = subst (λ z. (z.stop || not z.processed) ≡ true) same last;
                      }
                  | inr more ↦
                      let g =
                        turn_of-GoesOn p l
                          (ap (λ z. z.stop) t ∙ (let s : x.stop ≡ false = ground arith in s)) in
                      let k : l.processed ≡ true =
                        ap (λ z. z.processed) t
                        ∙ (let s : x.processed ≡ true = ground arith in s) in
                      let rest = process_queued-LastOf fuel (after code break_func i p l) turn (
                        subst
                          (λ z.
                            process_queued code break_func fuel
                              (finite p.round.instant_source.simulated_now) i z.captured z.running
                            ≡ finished turn)
                          (sym t) (ground arith)) in
                      record {
                        at = rest.at;
                        reached = message p l g k rest.reached;
                        same = rest.same;
                        look = rest.look;
                        turned = rest.turned;
                        final = rest.final;
                      }
                ]
          ]

  -- Why a look is the last of a run: the time is over, the message asks for it, or the closure does.
  pub data Stops (q : Position u S) (l : Look code break_func i q) : Type 0 where
    over_time_is : over_time code break_func i q l ≡ true → Stops q l
    asked : l.asks ≡ true → Stops q l
    broken : breaks code break_func i q l ≡ true → Stops q l

  turn_of-Stops :
      (q : Position u S) (l : Look code break_func i q) → (turn_of q l).stop ≡ true → Stops q l
  turn_of-Stops q l h = elim (Bool-cases (breaks code break_func i q l)) [
    | inl b ↦ broken b
    | inr b ↦ elim (Bool-cases (over_time code break_func i q l)) [
      | inl o ↦ over_time_is o
      | inr o ↦ asked (ground arith)
    ]
  ]

  -- The last look of a run that has returned, which the run has reached from its start.
  pub record Last (p : Position u S) (f' : S) (d' : SimulationDispatcher u) : Type 0 where
    pub at : Position u S
    pub reached : Reaches code break_func i at p
    pub look : Look code break_func i at
    pub reason : Stops at look
    pub left : d' ≡ leave at.round (after code break_func i at look).running
    pub result : f' ≡ (after code break_func i at look).captured

  -- What goes on after the messages of a round.
  record NextRound (p : Position u S) (f'' : S) (d'' : SimulationDispatcher u) : Type 0 where
    next : Reaches code break_func i (entered d'' f'') p

  after_queued-NextRound :
      (p : Position u S) (f'' : S) (d'' : SimulationDispatcher u) (fuel : ℕ) (o : Run (Turn u S))
      → process_queued code break_func fuel
          (finite p.round.instant_source.simulated_now)
          i
          p.captured
          p.running
        ≡ o
      → after_queued i p.round o ≡ goes_on f'' d''
      → NextRound p f'' d''
  unfolding after_queued next_or_panic
  after_queued-NextRound p f'' d'' fuel panicked q e = absurd (ground arith)
  after_queued-NextRound p f'' d'' fuel out_of_fuel q e = absurd (ground arith)
  after_queued-NextRound p f'' d'' fuel (finished turn) q e = elim (Bool-cases turn.stop) [
    | inl stops ↦ absurd (ground arith)
    | inr runs ↦ elim (Option-cases (next_timeout i p.round turn.running)) [
      | inl n ↦ absurd (ground arith)
      | inr (d, n) ↦
          let k = process_queued-LastOf fuel p turn q in
          let g = turn_of-GoesOn k.at k.look (ap (λ z. z.stop) k.turned ∙ runs) in
          let none_left : k.look.processed ≡ false =
            ap (λ z. z.processed) k.turned
            ∙ (let fin = k.final in let s : turn.processed ≡ false = ground arith in s) in
          let timed : next_timeout i k.at.round (after code break_func i k.at k.look).running
              ≡ some d =
            ap (λ z. next_timeout i z (after code break_func i k.at k.look).running) k.same
            ∙ ap (λ z. next_timeout i p.round z.running) k.turned
            ∙ n in
          let f : turn.captured ≡ f'' = ground arith in
          let same : d ≡ d'' = ground arith in
          let then_next : Reaches code break_func i (entered d'' f'')
              (entered d (after code break_func i k.at k.look).captured) =
            subst
              (λ z.
                Reaches code break_func i (entered d'' f'')
                  (entered z (after code break_func i k.at k.look).captured))
              (sym same)
              (subst (λ z. Reaches code break_func i (entered d'' f'') (entered d'' z))
                (sym (ap (λ z. z.captured) k.turned ∙ f)) here) in
          record {
            next =
                Reaches-trans code break_func i k.at (entered d'' f'') p k.reached
                  (round k.at k.look d g none_left timed then_next);
          }
    ]
  ]

  pub process_until_cond-Last :
      (fuel : ℕ) (f f' : S) (d d' : SimulationDispatcher u)
      → process_until_cond code break_func fuel i f d ≡ finished (f', d')
      → Last (entered d f) f' d'
  unfolding until_round
  process_until_cond-Last zero f f' d d' e = absurd (unfold process_until_cond in ground arith)
  process_until_cond-Last (suc fuel) f f' d d' e =
      elim (process_until_cond-First code break_func fuel i f f' d d' e) [
        | over q ↦
            let s = after_queued-ends i f' d d' _ q in
            let k = process_queued-LastOf fuel (entered d f) s.turn s.last in
            record {
              at = k.at;
              reached = k.reached;
              look = k.look;
              reason = turn_of-Stops k.at k.look (ap (λ z. z.stop) k.turned ∙ s.asked);
              left =
                  s.left
                  ∙ ap (λ z. leave z s.turn.running) (sym k.same)
                  ∙ ap (λ z. leave k.at.round z.running) (sym k.turned);
              result = s.captured ∙ ap (λ z. z.captured) (sym k.turned);
            }
        | and_then f'' d'' q r ↦
            let k = after_queued-NextRound (entered d f) f'' d'' fuel _ refl q in
            let rest = process_until_cond-Last fuel f'' f' d'' d' r in
            record {
              at = rest.at;
              reached =
                  Reaches-trans code break_func i (entered d'' f'') rest.at (entered d f) k.next
                    rest.reached;
              look = rest.look;
              reason = rest.reason;
              left = rest.left;
              result = rest.result;
            }
      ]
