-- ===== src/Simulation/Steps.antt =====
-- The looks of `process_until_cond` of src/simulation.rs for a message, as a relation of the states
-- in which they are made, and the look with which a run that returns ends.
pub mod Last
use rtactor_rs.Base.{
  ℕ, zero, suc, ◌≡◌, refl, sym, ap, subst, ◌∙◌, inl, inr, Bool, true, false, not, ◌||◌, some, arith,
  if◌then◌else◌, Bool-cases, Option-cases,
}
use rtactor_rs.Actor.Message.{Env}
use rtactor_rs.Reactive.Instant.{Instant, finite}
use rtactor_rs.Mpsc.Process.{UserCode, Running, try_process_message}
use rtactor_rs.Simulation.{
  SimulationDispatcher, finished, panicked, out_of_fuel, BreakFunc, Turn, Run, is_over, context_of,
  after_message, process_one, process_queued, until_round, after_queued, next_or_panic,
  next_timeout, goes_on, leave, process_until_cond,
}
use rtactor_rs.Simulation.Time.{over, and_then, process_until_cond-First, after_queued-ends}

-- The state before a look: the dispatcher at the start of the round, what the closure has captured,
-- and the state of the round.
pub record Position (u : Env) (S : Type 0) : Type 0 where
  pub round : SimulationDispatcher u
  pub captured : S
  pub running : Running u

-- The state at the start of a round.
abbrev pub entered : {u : Env} {S : Type 0} → SimulationDispatcher u → S → Position u S
entered d f = record {
  round = d;
  captured = f;
  running = record { dispatcher = d.disp; context = context_of d; world = d.world };
}

module _ {u : Env} {S : Type 0} (code : UserCode u) (break_func : BreakFunc u S) (i : Instant) where
  -- A look for a message: whether there was one, whether it asks to stop, and the state after it.
  pub record Look (q : Position u S) : Type 0 where
    pub processed : Bool
    pub asks : Bool
    pub running : Running u
    pub tried : try_process_message code q.running ≡ some ((processed, asks), running)

  -- What the closure makes of the state after the look.
  abbrev pub breaks : (q : Position u S) → Look q → Bool
  breaks q l = (break_func q.captured l.running.world).0

  abbrev pub after : (q : Position u S) → Look q → Position u S
  after q l = record {
    round = q.round;
    captured = (break_func q.captured l.running.world).1;
    running = record (l.running) { world = (break_func q.captured l.running.world).2 };
  }

  abbrev pub over_time : (q : Position u S) → Look q → Bool
  over_time q l = is_over (finite q.round.instant_source.simulated_now) i l.processed

  -- Neither the closure nor the message nor the time ends the run.
  pub record GoesOn (q : Position u S) (l : Look q) : Type 0 where
    pub unbroken : breaks q l ≡ false
    pub unasked : l.asks ≡ false
    pub in_time : over_time q l ≡ false

  -- From one look to a later one, until there is no message left and then from round to round.
  pub data Reaches (last : Position u S) : Position u S → Type 0 where
    here : Reaches last last
    message :
        (q : Position u S) (l : Look q)
        → GoesOn q l
        → l.processed ≡ true
        → Reaches last (after q l)
        → Reaches last q
    round :
        (q : Position u S) (l : Look q) (d : SimulationDispatcher u)
        → GoesOn q l
        → l.processed ≡ false
        → next_timeout i q.round (after q l).running ≡ some d
        → Reaches last (entered d (after q l).captured)
        → Reaches last q

  pub Reaches-trans : (b c a : Position u S) → Reaches b a → Reaches c b → Reaches c a
  Reaches-trans b c a here k = k
  Reaches-trans b c a (message q l g p r) k = message q l g p (Reaches-trans b c (after q l) r k)
  Reaches-trans b c a (round q l d g p n r) k =
      round q l d g p n (Reaches-trans b c (entered d (after q l).captured) r k)
