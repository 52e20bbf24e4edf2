-- ===== src/Simulation/Punctual.antt =====
-- The simulated time and the timers: it never passes one.
use rtactor_rs.Base.{
  ℕ, zero, suc, ◌+◌, ◌≤◌, ◌≡◌, refl, sym, subst, inl, inr, not, ◌||◌, Option, none, some, [], ◌∷◌,
  arith, Bool-cases, Option-cases,
}
use rtactor_rs.BTree.{BTreeMap}
use rtactor_rs.Actor.Message.{Env, Message}
use rtactor_rs.Actor.World.{World}
use rtactor_rs.Reactive.Instant.{Instant, finite, infinity, duration_max, plus, at_inf}
use rtactor_rs.Reactive.Timer.{Timer, timer_ord}
use rtactor_rs.Reactive.Context.{
  Context, ControlFlow, continue, break, send_timeout, store_back, try_send_first,
  try_send_next_pending_timeout,
}
use rtactor_rs.Reactive.Context as Context
use rtactor_rs.Reactive.Context.Timeouts.{NotBefore, AllNotBefore, try_send_next-break}
use rtactor_rs.Reactive.Context.Punctual.{Ahead, IsPunctual, continue-Ahead}
use rtactor_rs.Mpsc.Process.{UserCode, Running, try_process_message}
use rtactor_rs.Mpsc.Process.Contexts.{try_process_message_keeps}
use rtactor_rs.Simulation.{
  SimulatedInstantSource, SimulationDispatcher, Run, finished, panicked, out_of_fuel, BreakFunc,
  Turn, after_message, process_one, process_queued, goes_on, leave, until_round, after_queued,
  next_or_panic, context_of, process_until_cond, advance, advance_for, advance_until, is_before,
  after_timeout, next_timeout,
}
use rtactor_rs.Simulation.Time.{over, and_then, process_until_cond-First, after_queued-ends}

-- The behaviours schedule by the operations of their context, and not for the past.
abbrev pub KeepsPunctual : {u : Env} → UserCode u → Type 0
KeepsPunctual {u} code =
    (now : ℕ) (b b' : u.Behavior) (c c' : Context) (w w' : World u) (m : Message u)
    → IsPunctual now c
    → code.process_message b c w m ≡ some (b', c', w')
    → IsPunctual now c'

-- An instant within the greatest duration.
abbrev pub InRange : Instant → Type 0
InRange (finite t) = t ≤ duration_max
InRange infinity = Unit

AllNotBefore-mono :
    (t t' : ℕ) (m : BTreeMap Timer ℕ) → t ≤ t' → AllNotBefore t' m → AllNotBefore t m
AllNotBefore-mono t t' [] h a = tt
AllNotBefore-mono t t' ((k, id) ∷ m) h a =
    (NotBefore-mono k.deadline a.0, AllNotBefore-mono t t' m h a.1)
  where
    NotBefore-mono : (i : Instant) → NotBefore t' i → NotBefore t i
    NotBefore-mono (finite d) b = omega arith
    NotBefore-mono infinity b = tt

advance-Ahead :
    (i : Instant) (k : ℕ) (s s' : SimulatedInstantSource) (m : BTreeMap Timer ℕ)
    → InRange i
    → AllNotBefore (s.simulated_now + k) m
    → advance s i k ≡ some s'
    → AllNotBefore s'.simulated_now m
unfolding advance advance_for advance_until is_before at_inf plus
advance-Ahead (finite t) k s s' m r a e =
    AllNotBefore-mono s'.simulated_now (s.simulated_now + k) m (ground arith) a
advance-Ahead infinity k s s' m r a e =
    AllNotBefore-mono s'.simulated_now (s.simulated_now + k) m (ground arith) a

module _ {u : Env} where
  -- No timer is before the simulated time.
  abbrev pub Waits : SimulationDispatcher u → Type 0
  Waits d = Ahead d.instant_source.simulated_now d.timeout_scheduler.timeout_list

  goes_on_next :
      {S : Type 0} (f f' : S) (o : Option (SimulationDispatcher u)) (d : SimulationDispatcher u)
      → next_or_panic f o ≡ goes_on f' d
      → o ≡ some d
  unfolding next_or_panic
  goes_on_next f f' none d e = absurd (ground arith)
  goes_on_next f f' (some x) d e = ground arith

  after_queued-next :
      {S : Type 0} (i : Instant) (f' : S) (d d' : SimulationDispatcher u) (r : Run (Turn u S))
      → after_queued i d r ≡ goes_on f' d'
      → (turn : Turn u S) × (r ≡ finished turn) × (next_timeout i d turn.running ≡ some d')
  unfolding after_queued
  after_queued-next i f' d d' panicked e = absurd (ground arith)
  after_queued-next i f' d d' out_of_fuel e = absurd (ground arith)
  after_queued-next i f' d d' (finished t) e = elim (Bool-cases t.stop) [
    | inl stops ↦ absurd (ground arith)
    | inr runs ↦
        (t, refl, goes_on_next t.captured f' (next_timeout i d t.running) d' (ground arith))
  ]

  -- What is left of a round's timers.
  after_timeout-Ahead :
      (i : Instant) (d d' : SimulationDispatcher u) (r : Running u)
      → InRange i
      → Ahead d.instant_source.simulated_now r.context.scheduler.timeout_list
      → next_timeout i d r ≡ some d'
      → Ahead d'.instant_source.simulated_now d'.timeout_scheduler.timeout_list
  unfolding next_timeout after_timeout try_send_next_pending_timeout leave
  after_timeout-Ahead i d d' r range a e =
      let now = d.instant_source.simulated_now in
      let c : Context = record (r.context) { clock = finite now } in
      let m = r.context.scheduler.timeout_list in
      elim (Option-cases (try_send_first c m r.world)) [
        | inl n ↦ absurd (ground arith)
        | inr ((continue, c', w'), q) ↦
            let k = continue-Ahead now c c' m r.world w' refl a q in
            let same : record (leave d (record r { context = c'; world = w' })) {
              instant_source = d.instant_source;
            }
                ≡ d' =
              ground arith in
            subst (λ z. Ahead z.instant_source.simulated_now z.timeout_scheduler.timeout_list) same
              k
        | inr ((break k, c', w'), q) ↦
            let (later, pos, same, _) =
              try_send_next-break c c' r.world w' now k refl a.0
                (unfold try_send_next_pending_timeout in q) in
            elim (Option-cases (advance d.instant_source i k)) [
              | inl n ↦ absurd (ground arith)
              | inr (s', p) ↦
                  let b = advance-Ahead i k d.instant_source s' m range later p in
                  let same' : record (leave d (record r { context = c; world = w' })) {
                    instant_source = s';
                  }
                      ≡ d' =
                    ground arith in
                  subst (λ z. Ahead z.instant_source.simulated_now z.timeout_scheduler.timeout_list)
                    same' (a.0, b)
            ]
      ]

module _ {u : Env} {S : Type 0} (code : UserCode u) (break_func : BreakFunc u S)
    (keeps : KeepsPunctual code) where
  after_message-IsPunctual :
      (now i : Instant) (n : ℕ) (f : S) (r : Running u) (turn : Turn u S)
      → after_message break_func now i f (try_process_message code r) ≡ some turn
      → IsPunctual n r.context
      → IsPunctual n turn.running.context
  unfolding after_message
  after_message-IsPunctual now i n f r turn e p = elim (Option-cases (try_process_message code r)) [
    | inl h ↦ absurd (ground arith)
    | inr ((flags, r'), q) ↦
        let p' =
          try_process_message_keeps code (IsPunctual n)
            (λ c id h. record { shows = h.shows; ahead = h.ahead }) (keeps n) r r' flags p q in
        let same : r'.context ≡ turn.running.context = ground arith in subst (IsPunctual n) same p'
  ]

  process_queued-IsPunctual :
      (fuel : ℕ) (now i : Instant) (n : ℕ) (f : S) (r : Running u) (turn : Turn u S)
      → process_queued code break_func fuel now i f r ≡ finished turn
      → IsPunctual n r.context
      → IsPunctual n turn.running.context
  unfolding process_queued process_one
  process_queued-IsPunctual zero now i n f r turn e p = absurd (ground arith)
  process_queued-IsPunctual (suc fuel) now i n f r turn e p =
      elim (Option-cases (process_one code break_func now i f r)) [
        | inl h ↦ absurd (ground arith)
        | inr (x, q) ↦
            let p' = after_message-IsPunctual now i n f r x q p in
            elim (Bool-cases (x.stop || not x.processed)) [
              | inl last ↦
                  let same : x ≡ turn = ground arith in
                  subst (λ z. IsPunctual n z.running.context) same p'
              | inr more ↦
                  process_queued-IsPunctual fuel now i n x.captured x.running turn (ground arith) p'
            ]
      ]

  queued-Waits :
      (fuel : ℕ) (i : Instant) (f : S) (d : SimulationDispatcher u) (turn : Turn u S)
      → process_queued code break_func fuel
          (finite d.instant_source.simulated_now)
          i
          f
          (record { dispatcher = d.disp; context = context_of d; world = d.world })
        ≡ finished turn
      → Waits d
      → Ahead d.instant_source.simulated_now turn.running.context.scheduler.timeout_list
  unfolding context_of Context.new
  queued-Waits fuel i f d turn e a =
      (process_queued-IsPunctual fuel (finite d.instant_source.simulated_now) i
        d.instant_source.simulated_now f
        (record { dispatcher = d.disp; context = context_of d; world = d.world }) turn e
        (record { shows = refl; ahead = a })).ahead

  -- The simulated time never passes a timer. If the timers are sorted and none is before the simulated
  -- time when a run starts, then so it is when the run returns, whatever the closure does and up to
  -- whatever instant within the greatest duration or infinity it runs, as long as the behaviours set
  -- no deadlines in the past.
  pub process_until_cond-Ahead :
      (fuel : ℕ) (i : Instant) (f f' : S) (d d' : SimulationDispatcher u)
      → InRange i
      → Waits d
      → process_until_cond code break_func fuel i f d ≡ finished (f', d')
      → Waits d'
  unfolding until_round leave
  process_until_cond-Ahead zero i f f' d d' range a e =
      absurd (unfold process_until_cond in ground arith)
  process_until_cond-Ahead (suc fuel) i f f' d d' range a e =
      elim (process_until_cond-First code break_func fuel i f f' d d' e) [
        | over q ↦
            let s = after_queued-ends i f' d d' _ q in
            subst Waits (sym s.left) (queued-Waits fuel i f d s.turn s.last a)
        | and_then f'' d'' q r ↦
            let (turn, last, next) = after_queued-next i f'' d d'' _ q in
            let b = queued-Waits fuel i f d turn last a in
            process_until_cond-Ahead fuel i f'' f' d'' d' range
              (after_timeout-Ahead i d d'' turn.running range b next) r
      ]
