-- ===== src/Async/Mailbox/Requests.antt =====
-- How a request of an async mailbox differs from one of an active mailbox.
use rtactor_rs.Base.{ℕ, ◌≡◌, refl, Option, none, some, List, [], ◌∷◌, arith}
use rtactor_rs.Actor.Message.{Env, Any, request, ok_response, err_response, notification}
use rtactor_rs.Actor.World.{Result}
use rtactor_rs.Active.Mailbox.{
  ActiveMailbox, RecvTimeout, arrived, timed_out, disconnected, Progress, done, again,
}
use rtactor_rs.Active.Mailbox as Active
use rtactor_rs.Async.Mailbox.{AsyncMailbox, after_wait, wait_for_rx_message, request_loop}

module _ {u : Env} where
  -- The active mailbox with the same fields.
  abbrev pub as_active : AsyncMailbox u → ActiveMailbox u
  as_active b = record {
    id = b.id;
    tx = b.tx;
    last_request_id = b.last_request_id;
    message_list = b.message_list;
  }

  -- A wait whose end by time reads as the end of the channel.
  abbrev pub blur : RecvTimeout u → RecvTimeout u
  blur timed_out = disconnected
  blur o = o

  abbrev pub blur_all : List (RecvTimeout u) → List (RecvTimeout u)
  blur_all [] = []
  blur_all (o ∷ os) = blur o ∷ blur_all os

module _ {u : Env} {R : Type 0} (downcast : Any u → Option R) where
  abbrev progress_as_active : Progress R (AsyncMailbox u) → Progress R (ActiveMailbox u)
  progress_as_active (done r b) = done r (as_active b)
  progress_as_active (again b) = again (as_active b)

  abbrev pub outcome_as_active :
      Option (Result R × AsyncMailbox u × List (RecvTimeout u))
      → Option (Result R × ActiveMailbox u × List (RecvTimeout u))
  outcome_as_active none = none
  outcome_as_active (some (r, b, rest)) = some (r, as_active b, blur_all rest)

  request_round-as_active :
      (id : ℕ) (b : AsyncMailbox u) (o : RecvTimeout u)
      → Active.request_round downcast id (as_active b) (blur o)
        ≡ progress_as_active (after_wait downcast id b (wait_for_rx_message o))
  unfolding Active.request_round after_wait wait_for_rx_message
  request_round-as_active id b (arrived (request src rid d)) = refl
  request_round-as_active id b (arrived (ok_response rid d)) = ground arith
  request_round-as_active id b (arrived (err_response rid e d)) = refl
  request_round-as_active id b (arrived (notification d)) = refl
  request_round-as_active id b timed_out = refl
  request_round-as_active id b disconnected = refl

  -- The wait of an async mailbox for a response ends with the same result as that of an active
  -- mailbox with the same fields, with the same stash and the same messages left, except that it
  -- takes the end of a wait by time for the end of the channel.
  pub request_loop-as_active :
      (id : ℕ) (b : AsyncMailbox u) (os : List (RecvTimeout u))
      → Active.request_loop downcast id (as_active b) (blur_all os)
        ≡ outcome_as_active (request_loop downcast id b os)
  unfolding Active.request_loop request_loop
  request_loop-as_active id b [] = refl
  request_loop-as_active id b (o ∷ os) =
      rw (request_round-as_active id b o, Active.request_loop, request_loop)
        (go (λ b'. request_loop-as_active id b' os)
          (after_wait downcast id b (wait_for_rx_message o)))
    where
      go :
          ((b' : AsyncMailbox u)
            → Active.request_loop downcast id (as_active b') (blur_all os)
              ≡ outcome_as_active (request_loop downcast id b' os))
          → (p : Progress R (AsyncMailbox u))
          → (elim (progress_as_active p) [
            | done r b' ↦ some (r, b', blur_all os)
            | again b' ↦ Active.request_loop downcast id b' (blur_all os)
          ])
            ≡ outcome_as_active (elim p [
              | done r b' ↦ some (r, b', os)
              | again b' ↦ request_loop downcast id b' os
            ])
      go rec (done r b') = refl
      go rec (again b') = rec b'
