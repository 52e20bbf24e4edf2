-- ===== src/Simulation/Requests/Late.antt =====
-- A response to an earlier request, for a simulated request and for a mailbox that waits on its own.
use rtactor_rs.Base.{
  ℕ, suc, ◌≡◌, ◌≢◌, refl, ap, ◌∙◌, inl, inr, Bool, Option, none, some, List, ◌∷◌, arith,
  Option-cases,
}
use rtactor_rs.Actor.Message.{
  Env, no_message, Addr, Any, Message, request, ok_response, err_response, notification,
}
use rtactor_rs.Actor.World.{World, ok, err}
use rtactor_rs.Reactive.Instant.{Instant}
use rtactor_rs.Active.Mailbox.{
  ActiveMailbox, RecvTimeout, try_get_message, arrived, push_back, generate_request_id,
  request_round, request_loop,
}
use rtactor_rs.Mpsc.Process.{UserCode, Running, try_process_message}
use rtactor_rs.Simulation.{SimulationDispatcher, finished, BreakFunc, leave}
use rtactor_rs.Simulation.Requests.{
  start, response_result, request_result, map_run, active_request_until_cond,
}
use rtactor_rs.Simulation.Requests.Answered.{run_ends}
use rtactor_rs.Simulation.Requests.Results.{asking}

-- The id of the request that a message responds to.
abbrev pub response_id : {u : Env} → Message u → Option ℕ
response_id (ok_response rid d) = some rid
response_id (err_response rid e d) = some rid
response_id _ = none

module _ {u : Env} {R : Type 0} (downcast : Any u → Option R) where
  -- The loop of `request_for` goes on after an ok response, and fails with the error of an error
  -- response.
  abbrev pub AloneAfter : ℕ → ActiveMailbox u → Message u → List (RecvTimeout u) → Type 0
  AloneAfter id b (ok_response rid d) os =
      (b' : ActiveMailbox u) × (request_loop downcast id b (arrived (ok_response rid d) ∷ os)
        ≡ request_loop downcast id b' os)
  AloneAfter id b (err_response rid e d) os =
      request_loop downcast id b (arrived (err_response rid e d) ∷ os) ≡ some (err e, b, os)
  AloneAfter id b _ os = Unit

  another-AloneAfter :
      (id rid : ℕ) (b : ActiveMailbox u) (m : Message u) (os : List (RecvTimeout u))
      → response_id m ≡ some rid
      → rid ≢ id
      → AloneAfter id b m os
  unfolding request_loop request_round push_back
  another-AloneAfter id rid b (request src x d) os e n = tt
  another-AloneAfter id rid b (ok_response x d) os e n = elim (Option-cases (downcast d)) [
    | inl untyped ↦ (push_back b (ok_response x d), ground arith)
    | inr (out, typed) ↦ (b, ground arith)
  ]
  another-AloneAfter id rid b (err_response x e d) os p n = refl
  another-AloneAfter id rid b (notification d) os e n = tt

  response_result-another :
      (id rid : ℕ) (m : Message u)
      → response_id m ≡ some rid
      → rid ≢ id
      → response_result downcast id m ≡ err no_message
  unfolding response_result
  response_result-another id rid (request src x d) e n = refl
  response_result-another id rid (ok_response x d) e n = ground arith
  response_result-another id rid (err_response x k d) e n = ground arith
  response_result-another id rid (notification d) e n = refl

module _ {u : Env} {S R : Type 0} (code : UserCode u) (break_func : BreakFunc u S)
    (downcast : Any u → Option R) where
  -- A simulated request returns `NoMessage` when a response to another request, of whatever type and
  -- kind, is the message that the mailbox hands out after the first look for a message, whatever the
  -- instant up to which the request could wait; two units of fuel are enough. A mailbox that waits
  -- on its own goes on after the same response if it is ok, and fails with its error if not.
  pub response_to_another :
      (n rid : ℕ) (b b' : ActiveMailbox u) (dst : Addr) (payload : Any u) (i : Instant) (inner : S)
      (d : SimulationDispatcher u) (m : Message u) (processed asks : Bool) (r : Running u)
      (w : World u) (os : List (RecvTimeout u))
      → try_process_message code (asking b dst payload inner d).running
        ≡ some ((processed, asks), r)
      → try_get_message (generate_request_id b).1 r.world ≡ (ok m, b', w)
      → response_id m ≡ some rid
      → rid ≢ (generate_request_id b).0
      → (active_request_until_cond code break_func downcast (suc (suc n)) b dst payload i inner d
          ≡ finished (
            err no_message,
            b',
            inner,
            leave (asking b dst payload inner d).round (record r { world = w }),
          ))
        × AloneAfter downcast (generate_request_id b).0 (generate_request_id b).1 m os
  unfolding active_request_until_cond start map_run request_result leave
  response_to_another n rid b b' dst payload i inner d m processed asks r w os looked got late
        other =
      let (id, sent) = generate_request_id b in
      let p = asking b dst payload inner d in
      (
        ap (map_run (λ t. (request_result downcast id t.0, t.0.mailbox, t.0.inner, t.1))) (
              run_ends code break_func n i (start sent inner) p.round r m b' w processed asks looked
                got)
            ∙ ap (λ z. finished (z, b', inner, leave p.round (record r { world = w })))
                (response_result-another downcast id rid m late other),
        another-AloneAfter downcast id rid sent m os late other,
      )
