-- ===== src/Simulation/Ready.antt =====
-- The state before a round of a simulated run, and what the first of the timers has it do.
use rtactor_rs.Base.{
  ℕ, ◌-◌, ◌<◌, ◌≤◌, ◌≡◌, ◌≢◌, sym, ap, subst, ◌∙◌, true, some, List, [], ◌∷◌, All, arith,
}
use rtactor_rs.BTree.{BTreeMap, IsSorted}
use rtactor_rs.BTree.Laws.{remove_head}
use rtactor_rs.Actor.Channel.{try_send, sent}
use rtactor_rs.Actor.Message.{Env, timeout_id, notification}
use rtactor_rs.Actor.World.{World, MessageAndDstId, send_reactive, send_on}
use rtactor_rs.Reactive.Instant.{Instant, finite, duration_max, saturating_sub, plus, at_inf}
use rtactor_rs.Reactive.Timer.{Timer, timer_ord}
use rtactor_rs.Reactive.Context.{
  Context, continue, break, send_timeout, store_back, try_send_first, try_send_next_pending_timeout,
}
use rtactor_rs.Reactive.Context.Timeouts.{with_entries}
use rtactor_rs.Simulation.{
  SimulatedInstantSource, SimulationDispatcher, advance, advance_for, is_before,
}
use rtactor_rs.Simulation.Idle.{running}
use rtactor_rs.Simulation.Silent.{channel_of}
use rtactor_rs.Simulation.Queued.{AtMostOne, IsPending}

pub is_due :
    (a b : Instant) (now x : ℕ)
    → b ≡ finite now
    → a ≡ finite x
    → x ≤ now
    → saturating_sub a b ≡ some 0
unfolding saturating_sub
is_due a b now x e f l = ground arith

pub advance_to :
    (s : SimulatedInstantSource) (t x : ℕ)
    → s.simulated_now < x
    → x < t
    → t ≤ duration_max
    → (s' : SimulatedInstantSource) × (advance s (finite t) (x - s.simulated_now) ≡ some s')
      × (s'.simulated_now ≡ x)
unfolding advance advance_for is_before at_inf plus
advance_to s t x h b l = (advance_for s (x - s.simulated_now), ground arith, omega arith)

module _ {u : Env} where
  -- The entries of the timeouts; messages can be sent to the dispatcher, and at most one is queued;
  -- neither it nor a timeout is for the dispatcher itself.
  pub record IsReady (d : SimulationDispatcher u) (m : BTreeMap Timer ℕ) : Type 0 where
    pub senders : (d.world.reactive_channels d.disp.tx).has_senders ≡ true
    pub receiver : (d.world.reactive_channels d.disp.tx).has_receiver ≡ true
    pub roomy : 0 < (d.world.reactive_channels d.disp.tx).capacity
    pub pending : IsPending (running d)
    pub entries : d.timeout_scheduler.timeout_list ≡ m
    pub others : All (λ e. e.1 ≢ d.disp.disp_actor_id) m
    pub sorted : IsSorted m

  pub sends_one :
      (w : World u) (tx : ℕ) (m : MessageAndDstId u)
      → (w.reactive_channels tx).has_receiver ≡ true
      → (w.reactive_channels tx).queue ≡ []
      → 0 < (w.reactive_channels tx).capacity
      → ((send_reactive w tx m).1 ≡ sent)
        × ((send_reactive w tx m).0.reactive_channels tx
            ≡ record (w.reactive_channels tx) { queue = m ∷ [] })
  unfolding send_reactive send_on try_send
  sends_one w tx m r q p = ground arith

  -- A due timer's timeout is sent.
  pub first_sends :
      (c : Context) (w : World u) (k : Timer) (id : ℕ) (rest : BTreeMap Timer ℕ)
      → c.scheduler.timeout_list ≡ (k, id) ∷ rest
      → saturating_sub k.deadline c.clock ≡ some 0
      → (send_reactive w c.tx (record { message = notification (timeout_id k.id); dst_id = id })).1
        ≡ sent
      → try_send_next_pending_timeout c w
        ≡ some (
          continue,
          with_entries c rest,
          (send_reactive w c.tx
              (record { message = notification (timeout_id k.id); dst_id = id })).0,
        )
  unfolding try_send_next_pending_timeout try_send_first send_timeout store_back
  first_sends c w k id rest l z s =
      rw (l, try_send_next_pending_timeout, try_send_first)
        (ground (arith, z, l, s, remove_head k id rest))

  pub first_waits_for :
      (c : Context) (w : World u) (k : Timer) (id : ℕ) (rest : BTreeMap Timer ℕ) (now x : ℕ)
      → c.scheduler.timeout_list ≡ (k, id) ∷ rest
      → c.clock ≡ finite now
      → k.deadline ≡ finite x
      → now < x
      → try_send_next_pending_timeout c w ≡ some (break (x - now), c, w)
  unfolding try_send_next_pending_timeout try_send_first saturating_sub
  first_waits_for c w k id rest now x l e f h =
      rw (l, try_send_next_pending_timeout, try_send_first) (ground arith)

  pub next_of :
      (c : Context) (w : World u) (m : BTreeMap Timer ℕ)
      → c.scheduler.timeout_list ≡ m
      → try_send_next_pending_timeout c w ≡ try_send_first c m w
  unfolding try_send_next_pending_timeout
  next_of c w m e = ap (λ m. try_send_first c m w) e

  -- A state that differs in the queue and the time only.
  pub IsReady-kept :
      (d d' : SimulationDispatcher u) (m m' : BTreeMap Timer ℕ) (q : List (MessageAndDstId u))
      → IsReady d m
      → d'.disp.tx ≡ d.disp.tx
      → d'.disp.disp_actor_id ≡ d.disp.disp_actor_id
      → d'.timeout_scheduler.timeout_list ≡ m'
      → d'.world.reactive_channels d'.disp.tx
        ≡ record (d.world.reactive_channels d.disp.tx) { queue = q }
      → AtMostOne q d.disp.disp_actor_id
      → All (λ e. e.1 ≢ d.disp.disp_actor_id) m'
      → IsSorted m'
      → IsReady d' m'
  IsReady-kept d d' m m' q r tx id l c p o s = record {
    senders = ap (λ c. c.has_senders) c ∙ r.senders;
    receiver = ap (λ c. c.has_receiver) c ∙ r.receiver;
    roomy = subst (λ c. 0 < c.capacity) (sym c) r.roomy;
    pending =
        subst (AtMostOne (channel_of (running d')).queue) (sym id)
          (subst (λ c. AtMostOne c.queue d.disp.disp_actor_id) (sym c) p);
    entries = l;
    others = subst (λ i. All (λ e. e.1 ≢ i) m') (sym id) o;
    sorted = s;
  }
