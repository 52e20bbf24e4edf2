-- ===== src/Simulation/Time.antt =====
-- How far the simulated time goes, and why a run ends.
use rtactor_rs.Base.{
  ℕ, zero, suc, ◌+◌, ◌≤◌, ◌≡◌, refl, ap, ◌∙◌, inl, inr, true, Option, none, some, arith, Bool-cases,
  Option-cases,
}
use rtactor_rs.Actor.Message.{Env}
use rtactor_rs.Actor.World.{World}
use rtactor_rs.Reactive.Instant.{Instant, finite}
use rtactor_rs.Reactive.Context.{
  Context, ControlFlow, continue, break, try_send_next_pending_timeout,
}
use rtactor_rs.Mpsc.Process.{UserCode, Running}
use rtactor_rs.Simulation.{
  SimulatedInstantSource, SimulationDispatcher, Run, finished, panicked, out_of_fuel, BreakFunc,
  Turn, Round, ends, goes_on, next_or_panic, after_queued, until_round, leave, advance,
  after_timeout, next_timeout, process_until_cond,
}

-- The time goes on, up to a limit, and the elapsed duration goes with it.
pub record Passes (t : ℕ) (s : SimulatedInstantSource) (s' : SimulatedInstantSource) : Type 0 where
  pub forward : s.simulated_now ≤ s'.simulated_now
  pub within : s'.simulated_now ≤ t
  pub counted : s'.elapsed_duration + s.simulated_now ≡ s.elapsed_duration + s'.simulated_now

Passes-self : (t : ℕ) (s : SimulatedInstantSource) → s.simulated_now ≤ t → Passes t s s
Passes-self t s h = ground arith

Passes-trans : (t : ℕ) (a b c : SimulatedInstantSource) → Passes t a b → Passes t b c → Passes t a c
Passes-trans t a b c p q = ground arith

advance-Passes :
    (t d : ℕ) (s s' : SimulatedInstantSource)
    → s.simulated_now ≤ t
    → advance s (finite t) d ≡ some s'
    → Passes t s s'
unfolding advance
advance-Passes t d s s' h e = ground arith

module _ {u : Env} where
  pub after_timeout-Passes :
      (t : ℕ) (d d' : SimulationDispatcher u) (r : Running u)
      (o : Option (ControlFlow ℕ × Context × World u))
      → d.instant_source.simulated_now ≤ t
      → after_timeout (finite t) d r o ≡ some d'
      → Passes t d.instant_source d'.instant_source
  unfolding after_timeout
  after_timeout-Passes t d d' r none h e = cc
  after_timeout-Passes t d d' r (some (continue, c, w)) h e = ground arith
  after_timeout-Passes t d d' r (some (break k, c, w)) h e =
      elim (Option-cases (advance d.instant_source (finite t) k)) [
        | inl n ↦ absurd (ground arith)
        | inr (s, p) ↦ let q = advance-Passes t k d.instant_source s h p in ground arith
      ]

  next_or_panic-Passes :
      {S : Type 0} (t : ℕ) (f f' : S) (d d' : SimulationDispatcher u) (r : Running u)
      → d.instant_source.simulated_now ≤ t
      → next_or_panic f (next_timeout (finite t) d r) ≡ goes_on f' d'
      → Passes t d.instant_source d'.instant_source
  unfolding next_or_panic next_timeout
  next_or_panic-Passes t f f' d d' r h e =
      let o =
        try_send_next_pending_timeout
          (record (r.context) { clock = finite d.instant_source.simulated_now }) r.world in
      elim (Option-cases (next_timeout (finite t) d r)) [
        | inl n ↦ absurd (ground arith)
        | inr (d'', p) ↦ let q = after_timeout-Passes t d d'' r o h p in ground arith
      ]

  pub after_queued-goes_on :
      {S : Type 0} (t : ℕ) (f' : S) (d d' : SimulationDispatcher u) (r : Run (Turn u S))
      → d.instant_source.simulated_now ≤ t
      → after_queued (finite t) d r ≡ goes_on f' d'
      → Passes t d.instant_source d'.instant_source
  unfolding after_queued
  after_queued-goes_on t f' d d' panicked h e = absurd (ground arith)
  after_queued-goes_on t f' d d' out_of_fuel h e = absurd (ground arith)
  after_queued-goes_on t f' d d' (finished r) h e = elim (Bool-cases r.stop) [
    | inl stops ↦ absurd (ground arith)
    | inr runs ↦ next_or_panic-Passes t r.captured f' d d' r.running h (ground arith)
  ]

  -- The turn with which the queued messages were left to stop.
  pub record Stopped {S : Type 0} (d : SimulationDispatcher u) (r : Run (Turn u S)) (f' : S)
      (d' : SimulationDispatcher u) : Type 0 where
    pub turn : Turn u S
    pub last : r ≡ finished turn
    pub asked : turn.stop ≡ true
    pub left : d' ≡ leave d turn.running
    pub captured : f' ≡ turn.captured

  pub after_queued-ends :
      {S : Type 0} (i : Instant) (f' : S) (d d' : SimulationDispatcher u) (r : Run (Turn u S))
      → after_queued i d r ≡ ends (finished (f', d'))
      → Stopped d r f' d'
  unfolding after_queued next_or_panic
  after_queued-ends i f' d d' panicked e = absurd (ground arith)
  after_queued-ends i f' d d' out_of_fuel e = absurd (ground arith)
  after_queued-ends i f' d d' (finished r) e = elim (Bool-cases r.stop) [
    | inl stops ↦ record {
      turn = r;
      last = refl;
      asked = stops;
      left = ground arith;
      captured = ground arith;
    }
    | inr runs ↦ absurd (ground arith)
  ]

module _ {u : Env} {S : Type 0} (code : UserCode u) (break_func : BreakFunc u S) where
  -- How a run that returns goes on after its first round.
  pub data First (fuel : ℕ) (i : Instant) (f f' : S) (d d' : SimulationDispatcher u) : Type 0 where
    over :
        until_round code break_func fuel i f d ≡ ends (finished (f', d')) → First fuel i f f' d d'
    and_then :
        (f'' : S) (d'' : SimulationDispatcher u)
        → until_round code break_func fuel i f d ≡ goes_on f'' d''
        → process_until_cond code break_func fuel i f'' d'' ≡ finished (f', d')
        → First fuel i f f' d d'

  pub process_until_cond-First :
      (fuel : ℕ) (i : Instant) (f f' : S) (d d' : SimulationDispatcher u)
      → process_until_cond code break_func (suc fuel) i f d ≡ finished (f', d')
      → First fuel i f f' d d'
  unfolding process_until_cond
  process_until_cond-First fuel i f f' d d' e = go (until_round code break_func fuel i f d) refl e
    where
      go :
          (o : Round u S)
          → until_round code break_func fuel i f d ≡ o
          → (elim o [
            | ends r ↦ r
            | goes_on f'' d'' ↦ process_until_cond code break_func fuel i f'' d''
          ])
            ≡ finished (f', d')
          → First fuel i f f' d d'
      go (ends r) p q = over (p ∙ ap ends q)
      go (goes_on f'' d'') p q = and_then f'' d'' p q

  -- A run up to an instant that is not past never takes the simulated time back or beyond the
  -- instant, whatever the actors and the closure do, and the elapsed duration counts the same time.
  pub process_until_cond-Passes :
      (fuel t : ℕ) (f f' : S) (d d' : SimulationDispatcher u)
      → d.instant_source.simulated_now ≤ t
      → process_until_cond code break_func fuel (finite t) f d ≡ finished (f', d')
      → Passes t d.instant_source d'.instant_source
  unfolding until_round
  process_until_cond-Passes zero t f f' d d' h e =
      absurd (unfold process_until_cond in ground arith)
  process_until_cond-Passes (suc fuel) t f f' d d' h e =
      elim (process_until_cond-First fuel (finite t) f f' d d' e) [
        | over p ↦
            let s = after_queued-ends (finite t) f' d d' _ p in
            rw (s.left, leave) (Passes-self t d.instant_source h)
        | and_then f'' d'' p q ↦
            let one = after_queued-goes_on t f'' d d'' _ h p in
            Passes-trans t d.instant_source d''.instant_source d'.instant_source one
              (process_until_cond-Passes fuel t f'' f' d'' d' one.within q)
      ]
