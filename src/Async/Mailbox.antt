-- ===== src/Async/Mailbox.antt =====
-- `AsyncMailbox` of src/async_actor.rs. What its waits bring is an argument, as for an active mailbox.
pub mod Requests
use rtactor_rs.Base.{
  ℕ, ◌+◌, Option, none, some, List, [], ◌∷◌, ◌++◌, ◌==◌, if◌then◌else◌, wrapping_suc,
}
use rtactor_rs.Actor.Channel.{RecvResult, received, empty, closed}
use rtactor_rs.Actor.Message.{
  Env, broken_receive, no_message, timeout, Addr, async, Any, Message, ok_response, err_response,
}
use rtactor_rs.Actor.World.{World, Result, ok, err, update, generate_actor_id}
use rtactor_rs.Actor.Delivery.{receive_notification, receive_ok_response, receive_request}
use rtactor_rs.Active.Mailbox.{
  RecvTimeout, arrived, timed_out, disconnected, pop_back, Progress, done, again,
}

-- `rx` and `tx` are the ends of the channel `tx`. The end of a list is the back of `message_list`.
pub record AsyncMailbox (u : Env) : Type 0 where
  pub id : ℕ
  pub tx : ℕ
  pub last_request_id : ℕ
  pub message_list : List (Message u)

module _ {u : Env} where
  -- `AsyncMailbox::new`, on a channel that no address leads to yet; `none` is the panic of `bounded`.
  unfoldable pub new : ℕ → World u → Option (AsyncMailbox u × World u)
  new queue_size w = elim (u.async_bounded (Message u) queue_size) [
    | none ↦ none
    | some c ↦
        let (id, w') = generate_actor_id w in
        some (
          record { id = id; tx = w'.next_channel; last_request_id = 0; message_list = [] },
          record w' {
            next_channel = w'.next_channel + 1;
            async_channels = update w'.async_channels w'.next_channel c;
          },
        )
  ]

  -- `addr`.
  unfoldable pub addr : AsyncMailbox u → Addr
  addr b = async b.id b.tx

  received_as : RecvResult (Message u) → Result (Message u)
  received_as (received m) = ok m
  received_as empty = err no_message
  received_as closed = err broken_receive

  -- `try_get_message`.
  unfoldable pub try_get_message :
      AsyncMailbox u → World u → Result (Message u) × AsyncMailbox u × World u
  unfolding received_as
  try_get_message b w = elim (pop_back b.message_list) [
    | some (m, rest) ↦ (ok m, record b { message_list = rest }, w)
    | none ↦
        let (c, r) = u.async_try_recv (Message u) (w.async_channels b.tx) in
        (received_as r, b, record w { async_channels = update w.async_channels b.tx c })
  ]

  -- `wait_for_rx_message`, on what comes first; without a runtime the wait is never timed out.
  unfoldable pub wait_for_rx_message : RecvTimeout u → Result (Message u)
  wait_for_rx_message (arrived m) = ok m
  wait_for_rx_message timed_out = err timeout
  wait_for_rx_message disconnected = err broken_receive

  -- `wait_message_for`, and `wait_message`.
  unfoldable pub wait_message_for :
      AsyncMailbox u → RecvTimeout u → Result (Message u) × AsyncMailbox u
  unfolding wait_for_rx_message
  wait_message_for b r = elim (pop_back b.message_list) [
    | some (m, rest) ↦ (ok m, record b { message_list = rest })
    | none ↦ (wait_for_rx_message r, b)
  ]

  -- `send_notification`.
  unfoldable pub send_notification : Addr → Any u → World u → World u × Result (Unit {0})
  send_notification dst d w = receive_notification dst d w

  -- `responds`, to the source and id of a request.
  unfoldable pub responds : Addr → ℕ → Any u → World u → World u × Result (Unit {0})
  responds src id d w = receive_ok_response src id d w

  -- `generate_request_id`.
  unfoldable pub generate_request_id : AsyncMailbox u → ℕ × AsyncMailbox u
  generate_request_id b =
      let id = wrapping_suc b.last_request_id in (id, record b { last_request_id = id })

  unfoldable pub push_back : AsyncMailbox u → Message u → AsyncMailbox u
  push_back b m = record b { message_list = b.message_list ++ m ∷ [] }

-- `TResponse` is the type into which `downcast` takes the data of a response.
module _ {u : Env} {R : Type 0} (downcast : Any u → Option R) where
  -- An ok response in the loop of `request_for`.
  take_response : ℕ → AsyncMailbox u → ℕ → Any u → Option R → Progress R (AsyncMailbox u)
  take_response id b rid d (some out) = if rid == id then done (ok out) b else again b
  take_response id b rid d none = again (push_back b (ok_response rid d))

  -- The `match` on the result of a wait, in the loop of `request_for`.
  unfoldable pub after_wait : ℕ → AsyncMailbox u → Result (Message u) → Progress R (AsyncMailbox u)
  unfolding take_response push_back
  after_wait id b (ok (ok_response rid d)) = take_response id b rid d (downcast d)
  after_wait id b (ok (err_response rid e d)) = done (err e) b
  after_wait id b (ok m) = again (push_back b m)
  after_wait id b (err e) = done (err broken_receive) b

  -- The loop of `request_for`; `none` while it still waits. Gives what has not been received too.
  unfoldable pub request_loop :
      ℕ
      → AsyncMailbox u
      → List (RecvTimeout u)
      → Option (Result R × AsyncMailbox u × List (RecvTimeout u))
  unfolding wait_for_rx_message after_wait
  request_loop id b [] = none
  request_loop id b (o ∷ os) = elim (after_wait id b (wait_for_rx_message o)) [
    | done r b' ↦ some (r, b', os)
    | again b' ↦ request_loop id b' os
  ]

  -- `request_for`.
  unfoldable pub request_for :
      AsyncMailbox u
      → Addr
      → Any u
      → World u
      → List (RecvTimeout u)
      → World u × Option (Result R × AsyncMailbox u × List (RecvTimeout u))
  unfolding generate_request_id addr
  request_for b dst d w os =
      let (id, b') = generate_request_id b in
      (receive_request dst (addr b') id d w, request_loop id b' os)
