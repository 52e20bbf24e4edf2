-- ===== src/Active/Mailbox.antt =====
-- `ActiveMailbox` of src/active.rs. What its blocking waits bring is an argument: the messages that
-- other threads send meanwhile, or the end of the wait.
pub mod Requests
pub mod Stash
use rtactor_rs.Base.{
  ℕ, ◌+◌, Bool, Option, none, some, List, [], ◌∷◌, ◌++◌, ◌==◌, if◌then◌else◌, wrapping_suc,
}
use rtactor_rs.Actor.Channel.{RecvResult, received, empty, closed, sync_channel, try_recv}
use rtactor_rs.Actor.Message.{
  Env, Error, broken_receive, no_message, timeout, Addr, active, Any, Message, request, ok_response,
  err_response, notification,
}
use rtactor_rs.Actor.World.{World, Result, ok, err, update, generate_actor_id}
use rtactor_rs.Actor.Delivery.{receive_notification, receive_ok_response, receive_request}

-- `rx` and `tx` are the ends of the channel `tx`. The end of a list is the back of `message_list`.
pub record ActiveMailbox (u : Env) : Type 0 where
  pub id : ℕ
  pub tx : ℕ
  pub last_request_id : ℕ
  pub message_list : List (Message u)

-- What `recv_timeout` returns.
pub data RecvTimeout (u : Env) : Type 0 where
  arrived : Message u → RecvTimeout u
  timed_out : RecvTimeout u
  disconnected : RecvTimeout u

-- `LinkedList::pop_back`.
unfoldable pub pop_back {ℓ} : {A : Type ℓ} → List A → Option (A × List A)
pop_back [] = none
pop_back (x ∷ xs) = elim (pop_back xs) [ none ↦ some (x, []) | some (y, ys) ↦ some (y, x ∷ ys) ]

-- The end of a request's wait, or the mailbox to go on waiting with.
pub data Progress (R M : Type 0) : Type 0 where
  done : Result R → M → Progress R M
  again : M → Progress R M

module _ {u : Env} where
  -- `ActiveMailbox::new`, on a channel that no address leads to yet.
  unfoldable pub new : ℕ → World u → ActiveMailbox u × World u
  new queue_size w =
      let (id, w') = generate_actor_id w in
      (
        record { id = id; tx = w'.next_channel; last_request_id = 0; message_list = [] },
        record w' {
          next_channel = w'.next_channel + 1;
          active_channels = update w'.active_channels w'.next_channel (sync_channel queue_size);
        },
      )

  -- `addr`.
  unfoldable pub addr : ActiveMailbox u → Addr
  addr b = active b.id b.tx

  received_as : RecvResult (Message u) → Result (Message u)
  received_as (received m) = ok m
  received_as empty = err no_message
  received_as closed = err broken_receive

  -- `try_get_message`.
  unfoldable pub try_get_message :
      ActiveMailbox u → World u → Result (Message u) × ActiveMailbox u × World u
  unfolding received_as
  try_get_message b w = elim (pop_back b.message_list) [
    | some (m, rest) ↦ (ok m, record b { message_list = rest }, w)
    | none ↦
        let (c, r) = try_recv (w.active_channels b.tx) in
        (received_as r, b, record w { active_channels = update w.active_channels b.tx c })
  ]

  waited_as : RecvTimeout u → Result (Message u)
  waited_as (arrived m) = ok m
  waited_as timed_out = err timeout
  waited_as disconnected = err broken_receive

  -- `wait_message_for`, and `wait_message` with no end of the wait but a message.
  unfoldable pub wait_message_for :
      ActiveMailbox u → RecvTimeout u → Result (Message u) × ActiveMailbox u
  unfolding waited_as
  wait_message_for b r = elim (pop_back b.message_list) [
    | some (m, rest) ↦ (ok m, record b { message_list = rest })
    | none ↦ (waited_as r, b)
  ]

  -- `send_notification`.
  unfoldable pub send_notification : Addr → Any u → World u → World u × Result (Unit {0})
  send_notification dst d w = receive_notification dst d w

  -- `responds`, to the source and id of a request.
  unfoldable pub responds : Addr → ℕ → Any u → World u → World u × Result (Unit {0})
  responds src id d w = receive_ok_response src id d w

  -- `generate_request_id`.
  unfoldable pub generate_request_id : ActiveMailbox u → ℕ × ActiveMailbox u
  generate_request_id b =
      let id = wrapping_suc b.last_request_id in (id, record b { last_request_id = id })

  unfoldable pub push_back : ActiveMailbox u → Message u → ActiveMailbox u
  push_back b m = record b { message_list = b.message_list ++ m ∷ [] }

-- `TResponse` is the type into which `downcast` takes the data of a response.
module _ {u : Env} {R : Type 0} (downcast : Any u → Option R) where
  -- An ok response in the loop of `request_for`.
  take_response : ℕ → ActiveMailbox u → ℕ → Any u → Option R → Progress R (ActiveMailbox u)
  take_response id b rid d (some out) = if rid == id then done (ok out) b else again b
  take_response id b rid d none = again (push_back b (ok_response rid d))

  -- One round of the loop of `request_for`.
  unfoldable pub request_round : ℕ → ActiveMailbox u → RecvTimeout u → Progress R (ActiveMailbox u)
  unfolding take_response push_back
  request_round id b (arrived (ok_response rid d)) = take_response id b rid d (downcast d)
  request_round id b (arrived (err_response rid e d)) = done (err e) b
  request_round id b (arrived m) = again (push_back b m)
  request_round id b disconnected = done (err broken_receive) b
  request_round id b timed_out = done (err timeout) b

  -- The loop; `none` while it still waits. Gives what has not been received too.
  unfoldable pub request_loop :
      ℕ
      → ActiveMailbox u
      → List (RecvTimeout u)
      → Option (Result R × ActiveMailbox u × List (RecvTimeout u))
  request_loop id b [] = none
  request_loop id b (o ∷ os) = elim (request_round id b o) [
    | done r b' ↦ some (r, b', os)
    | again b' ↦ request_loop id b' os
  ]

  -- `request_for`.
  unfoldable pub request_for :
      ActiveMailbox u
      → Addr
      → Any u
      → World u
      → List (RecvTimeout u)
      → World u × Option (Result R × ActiveMailbox u × List (RecvTimeout u))
  unfolding generate_request_id addr
  request_for b dst d w os =
      let (id, b') = generate_request_id b in
      (receive_request dst (addr b') id d w, request_loop id b' os)
