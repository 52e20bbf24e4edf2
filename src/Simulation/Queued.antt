-- ===== src/Simulation/Queued.antt =====
-- How a simulated run empties the queue of a dispatcher with silent behaviours.
use rtactor_rs.Base.{
  ℕ, suc, ◌<◌, ◌≡◌, ◌≢◌, refl, ap, ◌∙◌, ◌⊎◌, inl, inr, true, false, some, List, [], ◌∷◌, arith,
}
use rtactor_rs.Actor.Message.{Env, Any, notification}
use rtactor_rs.Actor.World.{MessageAndDstId}
use rtactor_rs.Reactive.Instant.{Instant, finite}
use rtactor_rs.Mpsc.Process.{UserCode, Running, receive, try_process_message}
use rtactor_rs.Simulation.{finished, never, is_over, after_message, process_one, process_queued}
use rtactor_rs.Simulation.Idle.{receive_idle, try_idle, is_over_before}
use rtactor_rs.Simulation.Silent.{emptied, IsSilent, IsDrained, channel_of, try_one}

is_over_processed : (now t : ℕ) → now < t → is_over (finite now) (finite t) true ≡ false
unfolding is_over
is_over_processed now t h = ground arith

module _ {u : Env} where
  -- No message is queued, or one notification to another actor than the given one.
  abbrev pub AtMostOne : List (MessageAndDstId u) → ℕ → Type 0
  AtMostOne q own =
      (q ≡ [])
      ⊎ ((dst : ℕ) × (d : Any u) × (q ≡ record { message = notification d; dst_id = dst } ∷ [])
          × (dst ≢ own))

  abbrev pub IsPending : Running u → Type 0
  IsPending r = AtMostOne (channel_of r).queue r.dispatcher.disp_actor_id

  IsDrained-trans : (r r' r'' : Running u) → IsDrained r r' → IsDrained r' r'' → IsDrained r r''
  IsDrained-trans r r' r'' a b = record {
    same_tx = b.same_tx ∙ a.same_tx;
    same_id = b.same_id ∙ a.same_id;
    same_scheduler = b.same_scheduler ∙ a.same_scheduler;
    same_context_tx = b.same_context_tx ∙ a.same_context_tx;
    drained = b.drained ∙ ap emptied a.drained;
  }

module _ {u : Env} (code : UserCode u) where
  queued_none :
      (n : ℕ) (now i : Instant) (r r' : Running u)
      → try_process_message code r ≡ some ((false, false), r')
      → process_queued code never (suc n) now i tt r
        ≡ finished
            (record { processed = false; stop = is_over now i false; captured = tt; running = r' })
  unfolding process_queued process_one after_message is_over
  queued_none n now i r r' h = ground (arith, h)

  queued_one :
      (n : ℕ) (now i : Instant) (r r' : Running u)
      → try_process_message code r ≡ some ((true, false), r')
      → is_over now i true ≡ false
      → process_queued code never (suc n) now i tt r ≡ process_queued code never n now i tt r'
  unfolding process_queued process_one after_message
  queued_one n now i r r' h o = ground (arith, h, o)

  idle-IsDrained :
      (r : Running u)
      → (channel_of r).queue ≡ []
      → (channel_of r).has_senders ≡ true
      → IsDrained r (record r { world = (receive r.dispatcher.tx r.world).0 })
  idle-IsDrained r q s = record {
    same_tx = refl;
    same_id = refl;
    same_scheduler = refl;
    same_context_tx = refl;
    drained =
        (receive_idle r.dispatcher.tx r.world q s).1
        ∙ ap (λ ms. record (channel_of r) { queue = ms }) q;
  }

  queued_idle :
      (n now t : ℕ) (r : Running u)
      → now < t
      → (channel_of r).queue ≡ []
      → (channel_of r).has_senders ≡ true
      → (r' : Running u) × (process_queued code never (suc n) (finite now) (finite t) tt r
          ≡ finished (record { processed = false; stop = false; captured = tt; running = r' }))
        × IsDrained r r'
  queued_idle n now t r h q s =
      let r' : Running u = record r { world = (receive r.dispatcher.tx r.world).0 } in
      (
        r',
        queued_none n (finite now) (finite t) r r' (try_idle code r q s)
            ∙ ap
                (λ o.
                  finished (record { processed = false; stop = o; captured = tt; running = r' }))
                (is_over_before now t h),
        idle-IsDrained r q s,
      )

  pub queued_pending :
      (silent : IsSilent code) (n now t : ℕ) (r : Running u)
      → now < t
      → IsPending r
      → (channel_of r).has_senders ≡ true
      → (r' : Running u) × (process_queued code never (suc (suc n)) (finite now) (finite t) tt r
          ≡ finished (record { processed = false; stop = false; captured = tt; running = r' }))
        × IsDrained r r'
  queued_pending silent n now t r h (inl q) s = queued_idle (suc n) now t r h q s
  queued_pending silent n now t r h (inr (dst, d, q, other)) s =
      let (r₁, e, a) = try_one code silent r dst d q other in
      let (r₂, e₂, b) =
        queued_idle n now t r₁ h (ap (λ c. c.queue) a.drained)
          (ap (λ c. c.has_senders) a.drained ∙ s) in
      (
        r₂,
        queued_one (suc n) (finite now) (finite t) r r₁ e (is_over_processed now t h) ∙ e₂,
        IsDrained-trans r r₁ r₂ a b,
      )
