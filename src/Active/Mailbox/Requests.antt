-- ===== src/Active/Mailbox/Requests.antt =====
-- Which message ends a request's wait, what becomes of the others, and the ids of requests.
use rtactor_rs.Base.{
  ℕ, ◌≡◌, ◌≢◌, refl, sym, ap, ◌∙◌, ◌⊎◌, inl, inr, Option, none, some, List, [], ◌∷◌, ◌++◌,
  append_assoc, append-nil, arith, ◌==◌, Option-cases, Bool-cases, All,
}
use rtactor_rs.Actor.Message.{
  Env, Error, timeout, broken_receive, Any, Message, request, ok_response, err_response,
  notification,
}
use rtactor_rs.Actor.World.{Result, ok, err}
use rtactor_rs.Active.Mailbox.{
  ActiveMailbox, RecvTimeout, arrived, timed_out, disconnected, done, again, request_round,
  request_loop,
}

-- The mailbox with more stashed messages.
abbrev pub stash : {u : Env} → ActiveMailbox u → List (Message u) → ActiveMailbox u
stash b ms = record b { message_list = b.message_list ++ ms }

module _ {u : Env} {R : Type 0} (downcast : Any u → Option R) (id : ℕ) where
  -- A message that does not end the wait: no error response, and no response of the awaited type
  -- with the request's id.
  abbrev pub Passes : RecvTimeout u → Type 0
  Passes (arrived (ok_response rid d)) = (downcast d ≡ none) ⊎ (rid ≢ id)
  Passes (arrived (err_response rid e d)) = ⊥
  Passes (arrived m) = Unit
  Passes _ = ⊥

  abbrev keep_response : ℕ → Any u → Option R → List (Message u) → List (Message u)
  keep_response rid d none ms = ok_response rid d ∷ ms
  keep_response rid d (some out) ms = ms

  -- Of those, the messages that are stashed: all but the responses of the awaited type.
  abbrev pub kept : List (RecvTimeout u) → List (Message u)
  kept [] = []
  kept (arrived (ok_response rid d) ∷ os) = keep_response rid d (downcast d) (kept os)
  kept (arrived m ∷ os) = m ∷ kept os
  kept (_ ∷ os) = kept os

  request_round-Passes :
      (b : ActiveMailbox u) (o : RecvTimeout u)
      → Passes o
      → request_round downcast id b o ≡ again (stash b (kept (o ∷ [])))
  unfolding request_round
  request_round-Passes b (arrived (request src rid d)) p = refl
  request_round-Passes b (arrived (ok_response rid d)) p = ground (arith, append-nil b.message_list)
  request_round-Passes b (arrived (err_response rid e d)) p = absurd p
  request_round-Passes b (arrived (notification d)) p = refl
  request_round-Passes b timed_out p = absurd p
  request_round-Passes b disconnected p = absurd p

  kept-cons :
      (o : RecvTimeout u) (os : List (RecvTimeout u)) → kept (o ∷ []) ++ kept os ≡ kept (o ∷ os)
  kept-cons (arrived (request src rid d)) os = refl
  kept-cons (arrived (ok_response rid d)) os = ground arith
  kept-cons (arrived (err_response rid e d)) os = refl
  kept-cons (arrived (notification d)) os = refl
  kept-cons timed_out os = refl
  kept-cons disconnected os = refl

  request_loop-Passes :
      (b : ActiveMailbox u) (before after : List (RecvTimeout u))
      → All Passes before
      → request_loop downcast id b (before ++ after)
        ≡ request_loop downcast id (stash b (kept before)) after
  unfolding request_loop
  request_loop-Passes b [] after p =
      ap (λ ms. request_loop downcast id (record b { message_list = ms }) after)
        (sym (append-nil b.message_list))
  request_loop-Passes b (o ∷ before) after p =
      rw (request_round-Passes b o p.0, request_loop)
        (request_loop-Passes (stash b (kept (o ∷ []))) before after p.1
          ∙ ap (λ ms. request_loop downcast id (record b { message_list = ms }) after)
              (append_assoc b.message_list (kept (o ∷ [])) (kept before)
                ∙ ap (◌++◌ b.message_list) (kept-cons o before)))

  request_loop-response :
      (b : ActiveMailbox u) (before after : List (RecvTimeout u)) (d : Any u) (out : R)
      → All Passes before
      → downcast d ≡ some out
      → request_loop downcast id b (before ++ arrived (ok_response id d) ∷ after)
        ≡ some (ok out, stash b (kept before), after)
  request_loop-response b before after d out p e =
      request_loop-Passes b before (arrived (ok_response id d) ∷ after) p
      ∙ (unfold request_loop request_round in ground arith)

  request_loop-err_response :
      (b : ActiveMailbox u) (before after : List (RecvTimeout u)) (rid : ℕ) (e : Error) (d : Any u)
      → All Passes before
      → request_loop downcast id b (before ++ arrived (err_response rid e d) ∷ after)
        ≡ some (err e, stash b (kept before), after)
  request_loop-err_response b before after rid e d p =
      request_loop-Passes b before (arrived (err_response rid e d) ∷ after) p
      ∙ (unfold request_loop request_round in refl)

  -- Messages that do not end the wait are passed over and stashed in order; then the response with
  -- the request's id and type is the result, and an error response ends the wait with its error,
  -- whatever its id, also one to another request.
  pub request_loop_lem :
      (b : ActiveMailbox u) (before after : List (RecvTimeout u)) (d : Any u) (out : R) (rid : ℕ)
      (e : Error) (failed : Any u)
      → All Passes before
      → downcast d ≡ some out
      → (request_loop downcast id b (before ++ arrived (ok_response id d) ∷ after)
          ≡ some (ok out, stash b (kept before), after))
        × (request_loop downcast id b (before ++ arrived (err_response rid e failed) ∷ after)
            ≡ some (err e, stash b (kept before), after))
  request_loop_lem b before after d out rid e failed p t = (
    request_loop-response b before after d out p t,
    request_loop-err_response b before after rid e failed p,
  )

  -- What a successful wait has consumed.
  pub record Answered (b : ActiveMailbox u) (os : List (RecvTimeout u)) (out : R)
      (b' : ActiveMailbox u) (rest : List (RecvTimeout u)) : Type 0 where
    pub before : List (RecvTimeout u)
    pub payload : Any u
    pub split : os ≡ before ++ arrived (ok_response id payload) ∷ rest
    pub typed : downcast payload ≡ some out
    pub passed : All Passes before
    pub stashed : b' ≡ stash b (kept before)

  Answered-cons :
      (b b' : ActiveMailbox u) (o : RecvTimeout u) (os rest : List (RecvTimeout u)) (out : R)
      → Passes o
      → Answered (stash b (kept (o ∷ []))) os out b' rest
      → Answered b (o ∷ os) out b' rest
  Answered-cons b b' o os rest out p a = record {
    before = o ∷ a.before;
    payload = a.payload;
    split = ap (◌∷◌ o) a.split;
    typed = a.typed;
    passed = (p, a.passed);
    stashed =
        a.stashed
        ∙ ap (λ ms. record b { message_list = ms })
            (append_assoc b.message_list (kept (o ∷ [])) (kept a.before)
              ∙ ap (◌++◌ b.message_list) (kept-cons o a.before));
  }

  -- A message is passed over, or is the response, or ends the wait with an error.
  data RoundCase (b : ActiveMailbox u) (o : RecvTimeout u) : Type 0 where
    passing : Passes o → RoundCase b o
    answering :
        (d : Any u) (out : R)
        → o ≡ arrived (ok_response id d)
        → downcast d ≡ some out
        → request_round downcast id b o ≡ done (ok out) b
        → RoundCase b o
    failing : (e : Error) → request_round downcast id b o ≡ done (err e) b → RoundCase b o

  response_case :
      (b : ActiveMailbox u) (rid : ℕ) (d : Any u) → RoundCase b (arrived (ok_response rid d))
  unfolding request_round
  response_case b rid d = elim (Option-cases (downcast d)) [
    | inl untyped ↦ passing (inl untyped)
    | inr (out, typed) ↦ elim (Bool-cases (rid == id)) [
      | inl same ↦ answering d out (ground arith) typed (ground arith)
      | inr other ↦ passing (inr (ground arith))
    ]
  ]

  round_cases : (b : ActiveMailbox u) (o : RecvTimeout u) → RoundCase b o
  unfolding request_round
  round_cases b (arrived (request src rid d)) = passing tt
  round_cases b (arrived (ok_response rid d)) = response_case b rid d
  round_cases b (arrived (err_response rid e d)) = failing e refl
  round_cases b (arrived (notification d)) = passing tt
  round_cases b timed_out = failing timeout refl
  round_cases b disconnected = failing broken_receive refl

  Answered-here :
      (b b' : ActiveMailbox u) (os rest : List (RecvTimeout u)) (o : RecvTimeout u) (d : Any u)
      (out found : R)
      → o ≡ arrived (ok_response id d)
      → downcast d ≡ some out
      → ◌≡◌ {A = Option (Result R × ActiveMailbox u × List (RecvTimeout u))}
          (some (ok out, b, os))
          (some (ok found, b', rest))
      → Answered b (o ∷ os) found b' rest
  Answered-here b b' os rest o d out found e t h = record {
    before = [];
    payload = d;
    split = ground arith;
    typed = ground arith;
    passed = tt;
    stashed = ground (arith, append-nil b.message_list);
  }

  -- A wait that succeeds has consumed messages that do not end it and then a response with the
  -- request's id whose data is of the awaited type and is the result; all that it passed over but
  -- responses of that type is stashed in order.
  pub request_loop-Answered :
      (b b' : ActiveMailbox u) (os rest : List (RecvTimeout u)) (out : R)
      → request_loop downcast id b os ≡ some (ok out, b', rest)
      → Answered b os out b' rest
  unfolding request_loop
  request_loop-Answered b b' [] rest out h = cc
  request_loop-Answered b b' (o ∷ os) rest out h = elim (round_cases b o) [
    | passing p ↦ Answered-cons b b' o os rest out p (
        request_loop-Answered (stash b (kept (o ∷ []))) b' os rest out
          (rw (request_round-Passes b o p, request_loop) at h))
    | answering d found at typed e ↦
        Answered-here b b' os rest o d found out at typed (rw (e, request_loop) at h)
    | failing e r ↦ let h' = rw (r, request_loop) at h in cc
  ]
