-- ===== src/Simulation/Silent.antt =====
-- Behaviours that neither schedule nor send to a dispatcher, and the messages that they process.
use rtactor_rs.Base.{
  ℕ, ◌≡◌, ◌≢◌, refl, ap, ◌∙◌, inl, inr, true, false, some, List, [], ◌∷◌, arith, Option-cases, set,
}
use rtactor_rs.Actor.Channel.{Channel, received, try_recv}
use rtactor_rs.Actor.Message.{Env, Any, Message, notification}
use rtactor_rs.Actor.World.{World, MessageAndDstId}
use rtactor_rs.Reactive.Context.{Context}
use rtactor_rs.Mpsc.Registry.{get_behavior_index}
use rtactor_rs.Mpsc.Registry.Lookup.{index_of-some}
use rtactor_rs.Mpsc.Process.{
  UserCode, Running, receive, refuse_request, react_at, process_reactive_message,
  process_current_message, try_process_message,
}

module _ {u : Env} where
  -- A behaviour that processes a message returns, and leaves the timeouts and the queues of
  -- dispatchers as they were; it may change itself and send to mailboxes.
  abbrev pub IsSilent : UserCode u → Type 0
  IsSilent code =
      (b : u.Behavior) (c : Context) (w : World u) (m : Message u)
      → (b' : u.Behavior) × (c' : Context) × (w' : World u) × (code.process_message b c w m
          ≡ some (b', c', w'))
        × (c'.scheduler ≡ c.scheduler)
        × (c'.tx ≡ c.tx)
        × (w'.reactive_channels ≡ w.reactive_channels)

  abbrev pub channel_of : Running u → Channel (MessageAndDstId u)
  channel_of r = r.world.reactive_channels r.dispatcher.tx

  abbrev pub holding :
      List (MessageAndDstId u) → Channel (MessageAndDstId u) → Channel (MessageAndDstId u)
  holding q c = record c { queue = q }

  abbrev pub emptied : Channel (MessageAndDstId u) → Channel (MessageAndDstId u)
  emptied c = record c { queue = [] }

  -- The dispatcher with the same queue otherwise, and nothing in it.
  pub record IsDrained (r r' : Running u) : Type 0 where
    pub same_tx : r'.dispatcher.tx ≡ r.dispatcher.tx
    pub same_id : r'.dispatcher.disp_actor_id ≡ r.dispatcher.disp_actor_id
    pub same_scheduler : r'.context.scheduler ≡ r.context.scheduler
    pub same_context_tx : r'.context.tx ≡ r.context.tx
    pub drained : channel_of r' ≡ emptied (channel_of r)

  record IsSame (r r' : Running u) : Type 0 where
    tx_same : r'.dispatcher.tx ≡ r.dispatcher.tx
    id_same : r'.dispatcher.disp_actor_id ≡ r.dispatcher.disp_actor_id
    scheduler_same : r'.context.scheduler ≡ r.context.scheduler
    context_tx_same : r'.context.tx ≡ r.context.tx
    channels_same : r'.world.reactive_channels ≡ r.world.reactive_channels

  receive_one :
      (tx : ℕ) (w : World u) (m : MessageAndDstId u)
      → (w.reactive_channels tx).queue ≡ m ∷ []
      → ((receive tx w).1 ≡ received m)
        × ((receive tx w).0.reactive_channels tx ≡ record (w.reactive_channels tx) { queue = [] })
  unfolding receive try_recv
  receive_one tx w m q = ground arith

module _ {u : Env} (code : UserCode u) (silent : IsSilent code) where
  react_one :
      (r : Running u) (d : Any u)
      → (r' : Running u) × (process_reactive_message code r (notification d) ≡ some r')
        × IsSame r r'
  unfolding get_behavior_index process_reactive_message react_at refuse_request
  react_one r d = elim (Option-cases (get_behavior_index r.dispatcher r.context.own_actor_id)) [
    | inl e ↦ (
      r,
      ground (arith, e),
      record {
        tx_same = refl;
        id_same = refl;
        scheduler_same = refl;
        context_tx_same = refl;
        channels_same = refl;
      },
    )
    | inr (i, e) ↦
        let (b, p, q) = index_of-some r.context.own_actor_id r.dispatcher.reactive_list i e in
        let (b', c', w', k, s, t, v) = silent b r.context r.world (notification d) in
        let r' : Running u = record {
          dispatcher = record (r.dispatcher) {
            reactive_list = set r.dispatcher.reactive_list i (r.context.own_actor_id, b');
          };
          context = c';
          world = w';
        } in
        (
          r',
          ground (arith, e, q, k),
          record {
            tx_same = refl;
            id_same = refl;
            scheduler_same = s;
            context_tx_same = t;
            channels_same = v;
          },
        )
  ]

  pub try_one :
      (r : Running u) (dst : ℕ) (d : Any u)
      → (channel_of r).queue ≡ record { message = notification d; dst_id = dst } ∷ []
      → dst ≢ r.dispatcher.disp_actor_id
      → (r' : Running u) × (try_process_message code r ≡ some ((true, false), r')) × IsDrained r r'
  unfolding try_process_message process_current_message
  try_one r dst d q n =
      let (got, rest) =
        receive_one r.dispatcher.tx r.world (record { message = notification d; dst_id = dst }) q in
      let r₁ : Running u = record r {
        world = (receive r.dispatcher.tx r.world).0;
        context = record (r.context) { own_actor_id = dst };
      } in
      let (r', e, same) = react_one r₁ d in
      (
        r',
        ground (arith, got, e),
        record {
          same_tx = same.tx_same;
          same_id = same.id_same;
          same_scheduler = same.scheduler_same;
          same_context_tx = same.context_tx_same;
          drained =
              ap (λ cs. cs r'.dispatcher.tx) same.channels_same
              ∙ ap (λ tx. (receive r.dispatcher.tx r.world).0.reactive_channels tx) same.tx_same
              ∙ rest;
        },
      )
