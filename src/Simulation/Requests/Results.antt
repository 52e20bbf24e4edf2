-- ===== src/Simulation/Requests/Results.antt =====
-- What a simulated request that succeeds has received, and when.
use rtactor_rs.Base.{
  subst, ℕ, ◌≡◌, refl, ap, sym, ◌∙◌, ◌⊎◌, inl, inr, false, Option, some, arith, Option-cases,
}
use rtactor_rs.Actor.Message.{
  Env, Error, no_message, Addr, Any, Message, request, ok_response, err_response, notification,
}
use rtactor_rs.Actor.World.{World, Result, ok, err}
use rtactor_rs.Reactive.Instant.{Instant}
use rtactor_rs.Active.Mailbox.{ActiveMailbox, try_get_message, pop_back, generate_request_id}
use rtactor_rs.Mpsc.Process.{UserCode}
use rtactor_rs.Simulation.{SimulationDispatcher, Run, finished, panicked, out_of_fuel, BreakFunc}
use rtactor_rs.Actor.Delivery.{receive_request}
use rtactor_rs.Simulation.{leave}
use rtactor_rs.Simulation.Steps.{Position, entered, Look, after, Reaches, here, message, round}
use rtactor_rs.Simulation.Steps.Last.{process_until_cond-Last}
use rtactor_rs.Simulation.Requests.{start}
use rtactor_rs.Active.Mailbox.{addr}
use rtactor_rs.Simulation.Requests.{
  Waiting, after_try, wait_closure, response_result, request_result, map_run,
  active_request_until_cond,
}

-- Nothing is received yet, and the mailbox is as it was.
abbrev pub StillWaits : {u : Env} {S : Type 0} → ActiveMailbox u → Waiting u S → Type 0
StillWaits b f = (f.msg_received ≡ false) × (f.mailbox ≡ b)

-- Nothing was received, or what the mailbox hands out in a state, with what this leaves.
abbrev pub Received :
    {u : Env} {S : Type 0} → ActiveMailbox u → World u → Waiting u S → World u → Type 0
Received {u} b w f w' = (f.msg_received ≡ false) ⊎ (try_get_message b w ≡ (ok f.msg, f.mailbox, w'))

module _ {u : Env} {S : Type 0} (break_func : BreakFunc u S) (b₀ : ActiveMailbox u) where
  kept_on_error :
      (w : World u) (e : Error) (b : ActiveMailbox u) (w' : World u)
      → try_get_message b₀ w ≡ (err e, b, w')
      → b ≡ b₀
  unfolding try_get_message
  kept_on_error w e b w' h = elim (Option-cases (pop_back b₀.message_list)) [
    | inl nothing_stashed ↦ ground arith
    | inr ((m, rest), stashed) ↦ absurd (ground arith)
  ]

  after_try-Received :
      (f : Waiting u S) (w₀ : World u) (r : Result (Message u) × ActiveMailbox u × World u)
      → try_get_message b₀ w₀ ≡ r
      → StillWaits b₀ f
      → ((after_try break_func f r).0 ≡ false → StillWaits b₀ (after_try break_func f r).1)
        × Received b₀ w₀ (after_try break_func f r).1 (after_try break_func f r).2
  unfolding after_try
  after_try-Received f w₀ (ok m, b, w) e p = (λ n. absurd (ground arith), inr e)
  after_try-Received f w₀ (err no_message, b, w) e p =
      (λ n. (p.0, kept_on_error w₀ no_message b w e), inl p.0)
  after_try-Received f w₀ (err _, b, w) e p = (λ n. absurd (ground arith), inl refl)

  wait_closure-Received :
      (f : Waiting u S) (w : World u)
      → StillWaits b₀ f
      → ((wait_closure break_func f w).0 ≡ false → StillWaits b₀ (wait_closure break_func f w).1)
        × Received b₀ w (wait_closure break_func f w).1 (wait_closure break_func f w).2
  unfolding wait_closure
  wait_closure-Received f w p =
      after_try-Received f w (try_get_message f.mailbox w) (ap (λ b. try_get_message b w) (sym p.1))
        p

finished_of_map_run :
    {A B : Type 0} (g : A → B) (r : Run A) (b : B)
    → map_run g r ≡ finished b
    → (a : A) × (r ≡ finished a) × (g a ≡ b)
unfolding map_run
finished_of_map_run g (finished a) b e = (a, refl, ground arith)
finished_of_map_run g panicked b e = absurd (ground arith)
finished_of_map_run g out_of_fuel b e = absurd (ground arith)

module _ {u : Env} {R : Type 0} (downcast : Any u → Option R) where
  response_result-ok :
      (id : ℕ) (m : Message u) (out : R)
      → response_result downcast id m ≡ ok out
      → (d : Any u) × (m ≡ ok_response id d) × (downcast d ≡ some out)
  unfolding response_result
  response_result-ok id (request src rid d) out e = absurd (ground arith)
  response_result-ok id (ok_response rid d) out e = (d, ground arith, ground arith)
  response_result-ok id (err_response rid x d) out e = absurd (ground arith)
  response_result-ok id (notification d) out e = absurd (ground arith)

  request_result-ok :
      {S : Type 0} (id : ℕ) (b : ActiveMailbox u) (w : World u) (f : Waiting u S) (w' : World u)
      (out : R)
      → Received b w f w'
      → request_result downcast id f ≡ ok out
      → (d : Any u) × (try_get_message b w ≡ (ok (ok_response id d), f.mailbox, w'))
        × (downcast d ≡ some out)
  unfolding request_result
  request_result-ok id b w f w' out (inl none_yet) e = absurd (ground arith)
  request_result-ok id b w f w' out (inr got) e =
      let (d, is, typed) = response_result-ok id f.msg out (ground arith) in
      (d, got ∙ ap (λ m. (ok m, f.mailbox, w')) is, typed)

module _ {u : Env} {S : Type 0} where
  -- The state in which the waiting for a response starts: the request is sent.
  abbrev pub asking :
      ActiveMailbox u → Addr → Any u → S → SimulationDispatcher u → Position u (Waiting u S)
  asking b dst payload inner d =
      let (id, sent) = generate_request_id b in
      entered (record d { world = receive_request dst (addr sent) id payload d.world })
        (start sent inner)

module _ {u : Env} {S : Type 0} (code : UserCode u) (break_func : BreakFunc u S) (i : Instant)
    (b : ActiveMailbox u) where
  -- As long as a run goes on, nothing is received.
  pub Reaches-StillWaits :
      (q p : Position u (Waiting u S))
      → Reaches code (wait_closure break_func) i q p
      → StillWaits b p.captured
      → StillWaits b q.captured
  Reaches-StillWaits q p here h = h
  Reaches-StillWaits q _ (message p l g k r) h =
      Reaches-StillWaits q (after code (wait_closure break_func) i p l) r
        ((wait_closure-Received break_func b p.captured l.running.world h).0 g.unbroken)
  Reaches-StillWaits q _ (round p l d g k n r) h =
      Reaches-StillWaits q (entered d (after code (wait_closure break_func) i p l).captured) r
        ((wait_closure-Received break_func b p.captured l.running.world h).0 g.unbroken)

module _ {u : Env} {S R : Type 0} (code : UserCode u) (break_func : BreakFunc u S)
    (downcast : Any u → Option R) where
  -- A run that waits for a response comes to a look, with nothing received before, after which the
  -- mailbox hands out the response to the request, with data that gives the result.
  pub record Responded (b b' : ActiveMailbox u) (i : Instant) (p : Position u (Waiting u S))
      (d' : SimulationDispatcher u) (out : R) : Type 0 where
    pub at : Position u (Waiting u S)
    pub reached : Reaches code (wait_closure break_func) i at p
    pub waits : StillWaits (generate_request_id b).1 at.captured
    pub look : Look code (wait_closure break_func) i at
    pub data_of : Any u
    pub handed_out :
        try_get_message (generate_request_id b).1 look.running.world
        ≡ (ok (ok_response (generate_request_id b).0 data_of), b', d'.world)
    pub typed : downcast data_of ≡ some out

  -- A simulated request succeeds only with an ok response with the id that it was sent with and data
  -- of the awaited type, which is the result. The mailbox hands it out after a look for a message
  -- that the run has reached from the state in which the request was sent, before which it has
  -- handed out nothing, and that leaves the mailbox and the state as they are at the end.
  pub active_request-ok :
      (fuel : ℕ) (b b' : ActiveMailbox u) (dst : Addr) (payload : Any u) (i : Instant)
      (inner inner' : S) (d d' : SimulationDispatcher u) (out : R)
      → active_request_until_cond code break_func downcast fuel b dst payload i inner d
        ≡ finished (ok out, b', inner', d')
      → Responded b b' i (asking b dst payload inner d) d' out
  unfolding active_request_until_cond start leave
  active_request-ok fuel b b' dst payload i inner inner' d d' out e =
      let (id, sent) = generate_request_id b in
      let ((f, d''), ran, gives) = finished_of_map_run _ _ _ e in
      let k = process_until_cond-Last code (wait_closure break_func) i fuel _ f _ d'' ran in
      let waits = Reaches-StillWaits code break_func i sent k.at _ k.reached (refl, refl) in
      let w = k.look.running.world in
      let got = (wait_closure-Received break_func sent k.at.captured w waits).1 in
      let received : Received sent w f d''.world =
        subst (λ x. Received sent w x d''.world) (sym k.result)
          (subst (λ x. Received sent w (wait_closure break_func k.at.captured w).1 x.world)
            (sym k.left) got) in
      let (p, handed, typed) =
        request_result-ok downcast id sent w f d''.world out received (ap (λ t. t.0) gives) in
      record {
        at = k.at;
        reached = k.reached;
        waits = waits;
        look = k.look;
        data_of = p;
        handed_out = handed ∙ ap (λ t. (ok (ok_response id p), t.1, t.3.world)) gives;
        typed = typed;
      }
