-- ===== src/Simulation/Idle.antt =====
-- Simulated runs in which nothing happens.
use rtactor_rs.Base.{
  ℕ, suc, ◌+◌, ◌-◌, ◌≤◌, ◌<◌, ◌≡◌, refl, ◌∙◌, ◌⊎◌, inl, inr, true, false, some, [], ◌∷◌, arith,
}
use rtactor_rs.BTree.{BTreeMap}
use rtactor_rs.Actor.Channel.{empty, try_recv}
use rtactor_rs.Actor.Message.{Env}
use rtactor_rs.Actor.World.{World}
use rtactor_rs.Reactive.Instant.{Instant, finite, infinity, saturating_sub, duration_max}
use rtactor_rs.Reactive.Timer.{Timer}
use rtactor_rs.Reactive.Context.{Context, break, try_send_first, try_send_next_pending_timeout}
use rtactor_rs.Reactive.Context as Context
use rtactor_rs.Reactive.Context.Timeouts.{NotBefore, AllNotBefore}
use rtactor_rs.Mpsc.Process.{UserCode, Running, receive, try_process_message}
use rtactor_rs.Simulation.{
  SimulatedInstantSource, SimulationDispatcher, finished, ends, goes_on, never, advance, is_over,
  context_of, leave, next_timeout, after_timeout, after_queued, after_message, process_one,
  process_queued, next_or_panic, until_round, process_until_cond, process_until,
}

module _ {u : Env} where
  pub receive_idle :
      (tx : ℕ) (w : World u)
      → (w.reactive_channels tx).queue ≡ []
      → (w.reactive_channels tx).has_senders ≡ true
      → ((receive tx w).1 ≡ empty)
        × ((receive tx w).0.reactive_channels tx ≡ w.reactive_channels tx)
  unfolding receive try_recv
  receive_idle tx w q s = ground arith

pub advance_idle :
    (t d : ℕ) (s : SimulatedInstantSource)
    → s.simulated_now ≤ t
    → (d ≡ duration_max) ⊎ (t ≤ s.simulated_now + d)
    → (s' : SimulatedInstantSource) × (advance s (finite t) d ≡ some s') × (s'.simulated_now ≡ t)
unfolding advance
advance_idle t d s h (inl unbounded) = (
  record { elapsed_duration = s.elapsed_duration + (t - s.simulated_now); simulated_now = t },
  ground arith,
  refl,
)
advance_idle t d s h (inr late) = (
  record { elapsed_duration = s.elapsed_duration + (t - s.simulated_now); simulated_now = t },
  ground arith,
  refl,
)

module _ {u : Env} where
  -- The first timer is not due, and the answer is to wait for it.
  first_waits :
      (c : Context) (k : Timer) (id : ℕ) (m : BTreeMap Timer ℕ) (w : World u) (now t : ℕ)
      (x : Instant)
      → k.deadline ≡ x
      → c.clock ≡ finite now
      → now < t
      → NotBefore t x
      → (d : ℕ) × (try_send_first c ((k, id) ∷ m) w ≡ some (break d, c, w))
        × ((d ≡ duration_max) ⊎ (t ≤ now + d))
  unfolding try_send_first saturating_sub
  first_waits c k id m w now t (finite x) p e h a = (x - now, ground arith, inr (omega arith))
  first_waits c k id m w now t infinity p e h a = (duration_max, ground arith, inl refl)

  pub waits :
      (c : Context) (m : BTreeMap Timer ℕ) (w : World u) (now t : ℕ)
      → c.clock ≡ finite now
      → now < t
      → AllNotBefore t m
      → (d : ℕ) × (try_send_first c m w ≡ some (break d, c, w))
        × ((d ≡ duration_max) ⊎ (t ≤ now + d))
  unfolding try_send_first
  waits c [] w now t e h a = (duration_max, refl, inl refl)
  waits c ((k, id) ∷ m) w now t e h a = first_waits c k id m w now t k.deadline refl e h a.0

  abbrev pub running : SimulationDispatcher u → Running u
  running d = record { dispatcher = d.disp; context = context_of d; world = d.world }

  -- The dispatcher has nothing to process, and other actors can still send to it.
  abbrev pub IsIdle : SimulationDispatcher u → Type 0
  IsIdle d =
      ((d.world.reactive_channels d.disp.tx).queue ≡ [])
      × ((d.world.reactive_channels d.disp.tx).has_senders ≡ true)

  -- The dispatcher at another time, with nothing else changed.
  abbrev pub AtInstant : ℕ → SimulationDispatcher u → SimulationDispatcher u → Type 0
  AtInstant t d d' =
      (d'.instant_source.simulated_now ≡ t)
      × (d'.disp ≡ d.disp)
      × (d'.timeout_scheduler ≡ d.timeout_scheduler)

  pub next_timeout-advance :
      (t k : ℕ) (d : SimulationDispatcher u) (r : Running u) (c : Context) (w : World u)
      (s : SimulatedInstantSource)
      → try_send_next_pending_timeout
          (record (r.context) { clock = finite d.instant_source.simulated_now })
          r.world
        ≡ some (break k, c, w)
      → advance d.instant_source (finite t) k ≡ some s
      → next_timeout (finite t) d r
        ≡ some (record (leave d (record r { context = c; world = w })) { instant_source = s })
  unfolding next_timeout after_timeout
  next_timeout-advance t k d r c w s e p = ground arith

pub le_cases : (a b : ℕ) → a ≤ b → (a ≡ b) ⊎ (a < b)
le_cases a b h = grind arith

pub is_over_before : (now t : ℕ) → now < t → is_over (finite now) (finite t) false ≡ false
unfolding is_over
is_over_before now t h = ground arith

module _ {u : Env} (code : UserCode u) where
  pub try_idle :
      (r : Running u)
      → (r.world.reactive_channels r.dispatcher.tx).queue ≡ []
      → (r.world.reactive_channels r.dispatcher.tx).has_senders ≡ true
      → try_process_message code r
        ≡ some ((false, false), record r { world = (receive r.dispatcher.tx r.world).0 })
  unfolding try_process_message
  try_idle r q s = ground (arith, receive_idle r.dispatcher.tx r.world q s)

  abbrev pub after_receive : SimulationDispatcher u → Running u
  after_receive d = record (running d) { world = (receive d.disp.tx d.world).0 }

  queued_idle :
      (n t : ℕ) (d : SimulationDispatcher u)
      → IsIdle d
      → process_queued code never
          (suc n)
          (finite d.instant_source.simulated_now)
          (finite t)
          tt
          (running d)
        ≡ finished (record {
          processed = false;
          stop = is_over (finite d.instant_source.simulated_now) (finite t) false;
          captured = tt;
          running = after_receive d;
        })
  unfolding process_queued process_one after_message is_over
  queued_idle n t d i = ground (arith, try_idle (running d) i.0 i.1)

  pub round_stops :
      (n t : ℕ) (d : SimulationDispatcher u)
      → IsIdle d
      → d.instant_source.simulated_now ≡ t
      → until_round code never (suc n) (finite t) tt d
        ≡ ends (finished (tt, leave d (after_receive d)))
  unfolding until_round is_over
  round_stops n t d i e = rw (queued_idle n t d i, after_queued) (ground arith)

  pub leave_idle :
      (t : ℕ) (d : SimulationDispatcher u)
      → d.instant_source.simulated_now ≡ t
      → AtInstant t d (leave d (after_receive d))
  unfolding leave Context.new context_of
  leave_idle t d e = (e, refl, refl)

  round_advances :
      (n t : ℕ) (d : SimulationDispatcher u)
      → IsIdle d
      → d.instant_source.simulated_now < t
      → AllNotBefore t d.timeout_scheduler.timeout_list
      → (d' : SimulationDispatcher u) × (until_round code never (suc n) (finite t) tt d
          ≡ goes_on tt d')
        × IsIdle d'
        × AtInstant t d d'
  unfolding until_round try_send_next_pending_timeout leave Context.new
  round_advances n t d i h a =
      let now = d.instant_source.simulated_now in
      let r = after_receive d in
      let (k, e, late) = waits r.context d.timeout_scheduler.timeout_list r.world now t refl h a in
      let (s, p, at) = advance_idle t k d.instant_source (omega arith) late in
      let d' : SimulationDispatcher u = record (leave d r) { instant_source = s } in
      let same = (receive_idle d.disp.tx d.world i.0 i.1).1 in
      (
        d',
        rw (queued_idle n t d i, after_queued)
            (rw (is_over_before now t h, after_queued)
              (rw (next_timeout-advance t k d r r.context r.world s e p, next_or_panic) refl)),
        ground (arith, same),
        (at, refl, refl),
      )

  -- A run up to an instant that is not past returns, and does so at the instant, with the dispatcher
  -- and the timeouts as they were, if no message is queued and no timer is due before the instant.
  -- Three units of fuel are enough.
  process_until-IsIdle :
      (n t : ℕ) (d : SimulationDispatcher u)
      → IsIdle d
      → d.instant_source.simulated_now ≤ t
      → AllNotBefore t d.timeout_scheduler.timeout_list
      → (d' : SimulationDispatcher u) × (process_until code (suc (suc (suc n))) (finite t) d
          ≡ finished (tt, d'))
        × AtInstant t d d'
  unfolding process_until process_until_cond
  process_until-IsIdle n t d i h a = elim (le_cases d.instant_source.simulated_now t h) [
    | inl now ↦ (
      leave d (after_receive d),
      rw (round_stops (suc n) t d i now, process_until, process_until_cond) refl,
      leave_idle t d now,
    )
    | inr before ↦
        let (d', e, i', at) = round_advances (suc n) t d i before a in
        (
          leave d' (after_receive d'),
          rw (e, process_until, process_until_cond)
              (rw (round_stops n t d' i' at.0, process_until_cond) refl),
          (
            (leave_idle t d' at.0).0,
            (leave_idle t d' at.0).1 ∙ at.1,
            (leave_idle t d' at.0).2 ∙ at.2,
          ),
        )
  ]
