-- ===== src/Accessors/Calls.antt =====
-- What a generated method returns, on an accessor that was just made.
use rtactor_rs.Base.{ℕ, ◌≡◌, ap, ◌∙◌, ◌++◌, Option, none, some, List, ◌∷◌, All, arith, wrapping_suc}
use rtactor_rs.Actor.Message.{Env, Error, downcast_failed, Any, ok_response, err_response}
use rtactor_rs.Actor.World.{World, Result, ok, err}
use rtactor_rs.Active.Mailbox.{
  ActiveMailbox, RecvTimeout, arrived, request_for, generate_request_id,
}
use rtactor_rs.Active.Mailbox.Requests.{Passes, kept, stash, request_loop_lem}
use rtactor_rs.Accessors.{Accessor, method_result, after_request, sync_call}

-- What a method makes of the variant that came.
abbrev pub returned : {T : Type 0} → Option T → Result T
returned (some t) = ok t
returned none = err downcast_failed

module _ {u : Env} {R T : Type 0} (downcast : Any u → Option R) (matches : R → Option T) where
  -- The accessor after a request, with the messages that were stashed meanwhile.
  abbrev pub after_call :
      Accessor (ActiveMailbox u) → List (RecvTimeout u) → Accessor (ActiveMailbox u)
  after_call a before =
      let id = wrapping_suc a.mailbox.last_request_id in
      record a {
        mailbox = stash (record (a.mailbox) { last_request_id = id }) (kept downcast id before);
      }

  method_result-ok : (r : R) → method_result matches (ok r) ≡ returned (matches r)
  unfolding method_result
  method_result-ok r = ground arith

  -- A generated method of an accessor passes over what does not end its wait, with the stash as for any
  -- request; then it returns what its variant of `Response` holds, DowncastFailed for another variant, or
  -- the error of an error response.
  pub sync_call-returned :
      (a : Accessor (ActiveMailbox u)) (d : Any u) (w : World u)
      (before after : List (RecvTimeout u)) (reply : Any u) (r : R) (rid : ℕ) (e : Error)
      (failed : Any u)
      → All (Passes downcast (wrapping_suc a.mailbox.last_request_id)) before
      → downcast reply ≡ some r
      → ((sync_call downcast matches a d w (
            before
            ++ arrived (ok_response (wrapping_suc a.mailbox.last_request_id) reply) ∷ after)).1
          ≡ some (returned (matches r), after_call a before, after))
        × ((sync_call downcast matches a d w
              (before ++ arrived (err_response rid e failed) ∷ after)).1
            ≡ some (err e, after_call a before, after))
  unfolding sync_call request_for method_result after_request generate_request_id
  sync_call-returned a d w before after reply r rid e failed p t =
      let id = wrapping_suc a.mailbox.last_request_id in
      let b : ActiveMailbox u = record (a.mailbox) { last_request_id = id } in
      let ends = request_loop_lem downcast id b before after reply r rid e failed p t in
      (
        ap (after_request downcast matches a.target_addr) ends.0
            ∙ ap (λ x. some (x, after_call a before, after)) (method_result-ok r),
        ap (after_request downcast matches a.target_addr) ends.1,
      )
