-- ===== src/Simulation/Endings.antt =====
-- Why a simulated run returns.
use rtactor_rs.Base.{ℕ, ◌≤◌, ◌≡◌, true, false, some, arith}
use rtactor_rs.Actor.Message.{Env}
use rtactor_rs.Reactive.Instant.{finite}
use rtactor_rs.Reactive.Context.{try_send_next_pending_timeout}
use rtactor_rs.Mpsc.Process.{UserCode, Running}
use rtactor_rs.Simulation.{
  SimulationDispatcher, finished, BreakFunc, is_over, next_timeout, leave, process_until_cond,
}
use rtactor_rs.Simulation.Steps.{Position, entered, Look, after, Reaches, here, message, round}
use rtactor_rs.Simulation.Steps.Last.{Stops, over_time_is, asked, broken, process_until_cond-Last}
use rtactor_rs.Simulation.Time.{Passes, after_timeout-Passes}

module _ {u : Env} {S : Type 0} (code : UserCode u) (break_func : BreakFunc u S) (t : ℕ) where
  -- Why a look is the last: the simulated time is the instant and the look has found no message, the
  -- closure breaks the run after it, or the message asks to stop.
  pub data Reason (q : Position u S) (l : Look code break_func (finite t) q) : Type 0 where
    at_end : q.round.instant_source.simulated_now ≡ t → l.processed ≡ false → Reason q l
    by_closure : (break_func q.captured l.running.world).0 ≡ true → Reason q l
    by_message : l.asks ≡ true → Reason q l

  -- The end of a run from a state: the look that the run has reached from there and that is its
  -- last, and why.
  pub record Ending (d : SimulationDispatcher u) (f f' : S) (d' : SimulationDispatcher u)
      : Type 0 where
    pub at : Position u S
    pub reached : Reaches code break_func (finite t) at (entered d f)
    pub look : Look code break_func (finite t) at
    pub reason : Reason at look
    pub left : d' ≡ leave at.round (after code break_func (finite t) at look).running
    pub result : f' ≡ (break_func at.captured look.running.world).1

  abbrev IsWithin : Position u S → Type 0
  IsWithin q = q.round.instant_source.simulated_now ≤ t

  next_timeout-Passes :
      (d d' : SimulationDispatcher u) (r : Running u)
      → d.instant_source.simulated_now ≤ t
      → next_timeout (finite t) d r ≡ some d'
      → Passes t d.instant_source d'.instant_source
  unfolding next_timeout
  next_timeout-Passes d d' r h e =
      after_timeout-Passes t d d' r
        (try_send_next_pending_timeout
          (record (r.context) { clock = finite d.instant_source.simulated_now }) r.world)
        h e

  Reaches-IsWithin :
      (q p : Position u S) → Reaches code break_func (finite t) q p → IsWithin p → IsWithin q
  Reaches-IsWithin q p here h = h
  Reaches-IsWithin q _ (message p l g k r) h =
      Reaches-IsWithin q (after code break_func (finite t) p l) r h
  Reaches-IsWithin q _ (round p l d g k n r) h =
      Reaches-IsWithin q (entered d (after code break_func (finite t) p l).captured) r
        (next_timeout-Passes p.round d (after code break_func (finite t) p l).running h n).within

  Stops-Reason :
      (q : Position u S) (l : Look code break_func (finite t) q)
      → IsWithin q
      → Stops code break_func (finite t) q l
      → Reason q l
  unfolding is_over
  Stops-Reason q l h (over_time_is o) = at_end (ground (arith, o)) (ground (arith, o))
  Stops-Reason q l h (asked a) = by_message a
  Stops-Reason q l h (broken b) = by_closure b

  -- A run up to an instant that is not past returns only after a look for a message that it has
  -- reached from its start, look by look and from round to round, with none before it that could end
  -- the run; and only for one of three reasons: the simulated time is the instant and this look has
  -- found no message, the closure breaks the run in the state after the look, or the message asks to
  -- stop. What the run leaves is what the closure makes of that state.
  pub process_until_cond-Ending :
      (fuel : ℕ) (f f' : S) (d d' : SimulationDispatcher u)
      → d.instant_source.simulated_now ≤ t
      → process_until_cond code break_func fuel (finite t) f d ≡ finished (f', d')
      → Ending d f f' d'
  process_until_cond-Ending fuel f f' d d' h e =
      let k = process_until_cond-Last code break_func (finite t) fuel f f' d d' e in
      record {
        at = k.at;
        reached = k.reached;
        look = k.look;
        reason =
            Stops-Reason k.at k.look (Reaches-IsWithin k.at (entered d f) k.reached h) k.reason;
        left = k.left;
        result = k.result;
      }
