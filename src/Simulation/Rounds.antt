-- ===== src/Simulation/Rounds.antt =====
-- The rounds of a simulated run of a dispatcher with silent behaviours.
use rtactor_rs.Base.{
  ℕ, suc, ◌-◌, ◌<◌, ◌≤◌, ◌≡◌, refl, sym, ap, subst, ◌∙◌, inl, inr, [], ◌∷◌, arith,
}
use rtactor_rs.BTree.{BTreeMap}
use rtactor_rs.Actor.Message.{Env, timeout_id, notification}
use rtactor_rs.Actor.World.{MessageAndDstId, send_reactive}
use rtactor_rs.Reactive.Instant.{finite, duration_max}
use rtactor_rs.Reactive.Timer.{Timer, timer_ord}
use rtactor_rs.Reactive.Context.{
  Context, continue, break, send_timeout, store_back, try_send_first, try_send_next_pending_timeout,
}
use rtactor_rs.Reactive.Context as Context
use rtactor_rs.Reactive.Context.Timeouts.{AllNotBefore, with_entries}
use rtactor_rs.Mpsc.Process.{UserCode}
use rtactor_rs.Simulation.{
  SimulationDispatcher, goes_on, never, context_of, leave, next_timeout, after_timeout,
  after_queued, next_or_panic, until_round,
}
use rtactor_rs.Simulation.Idle.{IsIdle, running, waits, advance_idle, next_timeout-advance}
use rtactor_rs.Simulation.Silent.{IsSilent, holding}
use rtactor_rs.Simulation.Queued.{queued_pending}
use rtactor_rs.Simulation.Ready.{
  IsReady, advance_to, is_due, sends_one, first_sends, first_waits_for, next_of, IsReady-kept,
}

module _ {u : Env} (code : UserCode u) (silent : IsSilent code) where
  pub round_sends :
      (n t x : ℕ) (d : SimulationDispatcher u) (k : Timer) (id : ℕ) (rest : BTreeMap Timer ℕ)
      → IsReady d ((k, id) ∷ rest)
      → d.instant_source.simulated_now < t
      → k.deadline ≡ finite x
      → x ≤ d.instant_source.simulated_now
      → (d' : SimulationDispatcher u) × (until_round code never (suc (suc n)) (finite t) tt d
          ≡ goes_on tt d')
        × IsReady d' rest
        × (d'.instant_source ≡ d.instant_source)
  unfolding until_round context_of Context.new next_timeout after_timeout leave
  round_sends n t x d k id rest r h e l =
      let now = d.instant_source.simulated_now in
      let (r', q, a) = queued_pending code silent n now t (running d) h r.pending r.senders in
      let c : Context = record (r'.context) { clock = finite now } in
      let m : MessageAndDstId u = record {
        message = notification (timeout_id k.id);
        dst_id = id;
      } in
      let same = a.same_context_tx ∙ sym a.same_tx in
      let chan = ap r'.world.reactive_channels same ∙ a.drained in
      let (s, w) =
        sends_one r'.world c.tx m (ap (λ c. c.has_receiver) chan ∙ r.receiver)
          (ap (λ c. c.queue) chan) (subst (λ c. 0 < c.capacity) (sym chan) r.roomy) in
      let sends =
        first_sends c r'.world k id rest (ap (λ s. s.timeout_list) a.same_scheduler ∙ r.entries)
          (is_due k.deadline (finite now) now x refl e l) s in
      let d' : SimulationDispatcher u =
        leave d (record r' {
          context = with_entries c rest;
          world = (send_reactive r'.world c.tx m).0;
        }) in
      (
        d',
        rw (q, after_queued) (rw (sends, next_timeout, after_timeout, next_or_panic) refl),
        IsReady-kept d d' ((k, id) ∷ rest) rest (m ∷ []) r a.same_tx a.same_id refl
            (ap (send_reactive r'.world c.tx m).0.reactive_channels (sym same)
              ∙ w
              ∙ ap (holding (m ∷ [])) chan)
            (inr (id, timeout_id k.id, refl, r.others.0)) r.others.1 r.sorted.1,
        refl,
      )

  pub round_waits :
      (n t x : ℕ) (d : SimulationDispatcher u) (k : Timer) (id : ℕ) (rest : BTreeMap Timer ℕ)
      → IsReady d ((k, id) ∷ rest)
      → k.deadline ≡ finite x
      → d.instant_source.simulated_now < x
      → x < t
      → t ≤ duration_max
      → (d' : SimulationDispatcher u) × (until_round code never (suc (suc n)) (finite t) tt d
          ≡ goes_on tt d')
        × IsReady d' ((k, id) ∷ rest)
        × (d'.instant_source.simulated_now ≡ x)
  unfolding until_round context_of Context.new leave
  round_waits n t x d k id rest r e h b l =
      let now = d.instant_source.simulated_now in
      let (r', q, a) =
        queued_pending code silent n now t (running d) (omega arith) r.pending r.senders in
      let c : Context = record (r'.context) { clock = finite now } in
      let (s, p, at) = advance_to d.instant_source t x h b l in
      let d' : SimulationDispatcher u = record (leave d (record r' { context = c })) {
        instant_source = s;
      } in
      let entries = ap (λ s. s.timeout_list) a.same_scheduler ∙ r.entries in
      let wait = first_waits_for c r'.world k id rest now x entries refl e h in
      (
        d',
        rw (q, after_queued)
            (rw (next_timeout-advance t (x - now) d r' c r'.world s wait p, next_or_panic) refl),
        IsReady-kept d d' ((k, id) ∷ rest) ((k, id) ∷ rest) [] r a.same_tx a.same_id entries
            a.drained (inl refl) r.others r.sorted,
        at,
      )

  pub round_ends :
      (n t : ℕ) (d : SimulationDispatcher u) (m : BTreeMap Timer ℕ)
      → IsReady d m
      → d.instant_source.simulated_now < t
      → AllNotBefore t m
      → (d' : SimulationDispatcher u) × (until_round code never (suc (suc n)) (finite t) tt d
          ≡ goes_on tt d')
        × IsIdle d'
        × (d'.instant_source.simulated_now ≡ t)
        × (d'.timeout_scheduler.timeout_list ≡ m)
  unfolding until_round context_of Context.new leave
  round_ends n t d m r h b =
      let now = d.instant_source.simulated_now in
      let (r', q, a) = queued_pending code silent n now t (running d) h r.pending r.senders in
      let c : Context = record (r'.context) { clock = finite now } in
      let entries = ap (λ s. s.timeout_list) a.same_scheduler ∙ r.entries in
      let (k, wait, late) = waits c m r'.world now t refl h b in
      let (s, p, at) = advance_idle t k d.instant_source (omega arith) late in
      let d' : SimulationDispatcher u = record (leave d (record r' { context = c })) {
        instant_source = s;
      } in
      (
        d',
        rw (q, after_queued)
            (rw
              (
                next_timeout-advance t k d r' c r'.world s (next_of c r'.world m entries ∙ wait) p,
                next_or_panic,
              )
              refl),
        (ap (λ c. c.queue) a.drained, ap (λ c. c.has_senders) a.drained ∙ r.senders),
        at,
        entries,
      )
