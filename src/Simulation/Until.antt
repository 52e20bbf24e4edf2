-- ===== src/Simulation/Until.antt =====
-- `process_until` of src/simulation.rs, where timeouts fire before its instant.
use rtactor_rs.Base.{
  length, ℕ, zero, suc, ◌+◌, ◌<◌, ◌≤◌, ◌≡◌, refl, sym, subst, ◌∙◌, ◌⊎◌, inl, inr, [], ◌∷◌, arith,
  if◌then◌else◌,
}
use rtactor_rs.BTree.{BTreeMap}
use rtactor_rs.Actor.Message.{Env}
use rtactor_rs.Reactive.Instant.{Instant, finite, infinity, duration_max}
use rtactor_rs.Reactive.Timer.{Timer}
use rtactor_rs.Reactive.Context as Context
use rtactor_rs.Reactive.Context.Timeouts.{NotBefore, AllNotBefore, AllNotBefore-Above}
use rtactor_rs.Mpsc.Process.{UserCode}
use rtactor_rs.Simulation.{
  SimulationDispatcher, Run, finished, goes_on, never, is_before, leave, context_of, until_round,
  process_until_cond, process_until,
}
use rtactor_rs.Simulation.Idle.{IsIdle, after_receive, round_stops, receive_idle}
use rtactor_rs.Simulation.Silent.{IsSilent}
use rtactor_rs.Simulation.Ready.{IsReady}
use rtactor_rs.Simulation.Rounds.{round_sends, round_waits, round_ends}

-- The timers that are not before an instant.
abbrev pub remaining : ℕ → BTreeMap Timer ℕ → BTreeMap Timer ℕ
remaining t [] = []
remaining t ((k, id) ∷ m) =
    if is_before k.deadline (finite t) then remaining t m else (k, id) ∷ remaining t m

le_or_lt : (a b : ℕ) → (a ≤ b) ⊎ (b < a)
le_or_lt a b = grind arith

deadline_cases : (i : Instant) (t : ℕ) → NotBefore t i ⊎ ((x : ℕ) × (i ≡ finite x) × (x < t))
deadline_cases (finite x) t = elim (le_or_lt t x) [ inl h ↦ inl h | inr h ↦ inr (x, refl, h) ]
deadline_cases infinity t = inl tt

remaining-NotBefore : (t : ℕ) (m : BTreeMap Timer ℕ) → AllNotBefore t m → remaining t m ≡ m
unfolding is_before
remaining-NotBefore t [] a = refl
remaining-NotBefore t ((k, id) ∷ m) a = ground (arith, remaining-NotBefore t m a.1)

remaining_before :
    (t x id : ℕ) (k : Timer) (m : BTreeMap Timer ℕ)
    → k.deadline ≡ finite x
    → x < t
    → remaining t ((k, id) ∷ m) ≡ remaining t m
unfolding is_before
remaining_before t x id k m e h = ground arith

module _ {u : Env} where
  -- The run returned at the instant, with nothing queued, and with the timers that are not before it.
  pub record EndsAt (t : ℕ) (m : BTreeMap Timer ℕ) (r : Run (Unit {0} × SimulationDispatcher u))
      : Type 0 where
    last : SimulationDispatcher u
    returns : r ≡ finished (tt, last)
    at : last.instant_source.simulated_now ≡ t
    idle : IsIdle last
    timers : last.timeout_scheduler.timeout_list ≡ remaining t m

  EndsAt-step :
      (t x id : ℕ) (k : Timer) (m : BTreeMap Timer ℕ)
      (a b : Run (Unit {0} × SimulationDispatcher u))
      → k.deadline ≡ finite x
      → x < t
      → a ≡ b
      → EndsAt t m b
      → EndsAt t ((k, id) ∷ m) a
  EndsAt-step t x id k m a b e h p ends = record {
    last = ends.last;
    returns = p ∙ ends.returns;
    at = ends.at;
    idle = ends.idle;
    timers = ends.timers ∙ sym (remaining_before t x id k m e h);
  }

module _ {u : Env} (code : UserCode u) where
  step :
      (n t : ℕ) (d d' : SimulationDispatcher u)
      → until_round code never n (finite t) tt d ≡ goes_on tt d'
      → process_until_cond code never (suc n) (finite t) tt d
        ≡ process_until_cond code never n (finite t) tt d'
  unfolding process_until_cond
  step n t d d' e = rw (e, process_until_cond) refl

module _ {u : Env} (code : UserCode u) (silent : IsSilent code) where
  ends_run :
      (n t : ℕ) (d : SimulationDispatcher u) (m : BTreeMap Timer ℕ)
      → IsReady d m
      → d.instant_source.simulated_now < t
      → AllNotBefore t m
      → EndsAt t m (process_until_cond code never (suc (suc (suc n))) (finite t) tt d)
  unfolding process_until_cond leave context_of Context.new
  ends_run n t d m r h a =
      let (d', e, i, at, l) = round_ends code silent n t d m r h a in
      let same = (receive_idle d'.disp.tx d'.world i.0 i.1).1 in
      record {
        last = leave d' (after_receive code d');
        returns =
            rw (e, process_until_cond) (rw (round_stops code n t d' i at, process_until_cond) refl);
        at = at;
        idle = ground (arith, same, i);
        timers = l ∙ sym (remaining-NotBefore t m a);
      }

  run :
      (f t : ℕ) (d : SimulationDispatcher u) (m : BTreeMap Timer ℕ)
      → IsReady d m
      → d.instant_source.simulated_now < t
      → t ≤ duration_max
      → length m + length m ≤ f
      → EndsAt t m (process_until_cond code never (suc (suc (suc f))) (finite t) tt d)
  run f t d [] r h l enough = ends_run f t d [] r h tt
  run zero t d ((k, id) ∷ m) r h l enough = absurd (omega arith)
  run (suc zero) t d ((k, id) ∷ m) r h l enough = absurd (omega arith)
  run (suc (suc f)) t d ((k, id) ∷ m) r h l enough = elim (deadline_cases k.deadline t) [
    | inl late ↦
        ends_run (suc (suc f)) t d ((k, id) ∷ m) r h
          (late, AllNotBefore-Above t k m r.sorted.0 late)
    | inr (x, e, b) ↦ elim (le_or_lt x d.instant_source.simulated_now) [
      | inl due ↦
          let (d', q, r', s) = round_sends code silent (suc (suc f)) t x d k id m r h e due in
          EndsAt-step t x id k m _ _ e b (step code (suc (suc (suc (suc f)))) t d d' q)
            (run (suc f) t d' m r' (subst (λ s. s.simulated_now < t) (sym s) h) l (omega arith))
      | inr ahead ↦
          let (d', q, r', s) = round_waits code silent (suc (suc f)) t x d k id m r e ahead b l in
          let (d'', q', r'', s') =
            round_sends code silent (suc f) t x d' k id m r' (omega (arith, s)) e
              (omega (arith, s)) in
          EndsAt-step t x id k m _ _ e b
            (step code (suc (suc (suc (suc f)))) t d d' q
              ∙ step code (suc (suc (suc f))) t d' d'' q')
            (run f t d'' m r'' (subst (λ s. s.simulated_now < t) (sym s') (omega (arith, s))) l
              (omega arith))
    ]
  ]

  -- A run up to a later instant returns, and does so at the instant, with nothing queued, and with
  -- just the timers left that are not before the instant. The behaviours return and
  -- neither schedule nor send to dispatchers; at first at most one message is queued, a notification
  -- to a reactive actor; the queue has room for one and both of its ends are open; the map of
  -- timeouts is sorted, and none is for the dispatcher itself; the instant is within the greatest
  -- duration. Two units of fuel for each timer and three more are enough.
  pub process_until-EndsAt :
      (f t : ℕ) (d : SimulationDispatcher u)
      → IsReady d d.timeout_scheduler.timeout_list
      → d.instant_source.simulated_now < t
      → t ≤ duration_max
      → length d.timeout_scheduler.timeout_list + length d.timeout_scheduler.timeout_list ≤ f
      → EndsAt t d.timeout_scheduler.timeout_list
          (process_until code (suc (suc (suc f))) (finite t) d)
  unfolding process_until
  process_until-EndsAt f t d r h l enough = run f t d d.timeout_scheduler.timeout_list r h l enough
