-- ===== src/Reactive/Context.antt =====
-- `ProcessContext` of src/reactive.rs: what a behaviour does while it processes a message.
-- The instant source is read by each call; its reading is the field `clock`.
pub mod Timeouts
pub mod Punctual
use mathlib.Core.Option
use rtactor_rs.Base.{ℕ, Option, none, some, List, [], ◌∷◌, ◌==◌, if◌then◌else◌, wrapping_suc, Bool}
use rtactor_rs.BTree.{BTreeMap, insert, remove}
use rtactor_rs.Actor.Channel.{SendResult, sent}
use rtactor_rs.Actor.Message.{Env, Addr, reactive, Any, timeout_id, notification}
use rtactor_rs.Actor.World.{World, Result, send_reactive}
use rtactor_rs.Actor.Delivery.{receive_notification, receive_ok_response, receive_request}
use rtactor_rs.Reactive.Instant.{Instant, add, saturating_sub, duration_max}
use rtactor_rs.Reactive.Timer.{Timer, timer_ord}
use rtactor_rs.Reactive.Scheduler.{TimeoutScheduler, schedule_until, unschedule}

pub record Context : Type 0 where
  pub tx : ℕ
  pub own_actor_id : ℕ
  pub request_id_counter : ℕ
  pub clock : Instant
  pub scheduler : TimeoutScheduler

-- `ProcessContext::new`, on the dispatcher's channel; the own actor is not known yet.
unfoldable pub new : ℕ → ℕ → Instant → TimeoutScheduler → Context
new tx counter clock scheduler = record {
  tx = tx;
  own_actor_id = 0;
  request_id_counter = counter;
  clock = clock;
  scheduler = scheduler;
}

-- `own_addr`.
unfoldable pub own_addr : Context → Addr
own_addr c = reactive c.tx c.own_actor_id

-- `schedule_until`, by the actor that is being processed.
unfoldable pub schedule_timer_until : Context → Timer → Instant → Timer × Context
schedule_timer_until c t i =
    let (t', s) = schedule_until c.scheduler t i c.own_actor_id in (t', record c { scheduler = s })

-- `schedule_for`.
unfoldable pub schedule_timer_for : ℕ → Context → Timer → ℕ → Option (Timer × Context)
unfolding schedule_timer_until
schedule_timer_for last_instant c t duration =
    Option.map (schedule_timer_until c t) (add last_instant c.clock duration)

-- `unschedule`.
unfoldable pub unschedule_timer : Context → Timer → Timer × Context
unschedule_timer c t =
    let (t', s) = unschedule c.scheduler t c.own_actor_id in (t', record c { scheduler = s })

-- `ControlFlow`.
pub data ControlFlow (B : Type 0) : Type 0 where
  continue : ControlFlow B
  break : B → ControlFlow B

-- The scheduler after the `try_send` of a mature timeout: one that was not sent is stored back.
unfoldable pub store_back :
    {A : Type 0} → SendResult A → Timer → ℕ → BTreeMap Timer ℕ → BTreeMap Timer ℕ
store_back sent key id m = m
store_back _ key id m = insert key id m

module _ {u : Env} where
  -- `send_request`: gives the id of the transaction.
  unfoldable pub send_request : Context → Addr → Any u → World u → ℕ × Context × World u
  unfolding own_addr
  send_request c dst d w =
      let id = wrapping_suc c.request_id_counter in
      (id, record c { request_id_counter = id }, receive_request dst (own_addr c) id d w)

  -- `send_addr_id_response`, and `send_response` with the request's source and id. A failure to send
  -- is dropped.
  unfoldable pub send_addr_id_response : Addr → ℕ → Any u → World u → World u
  send_addr_id_response dst id d w = (receive_ok_response dst id d w).0

  -- `send_self_notification`.
  unfoldable pub send_self_notification : Context → Any u → World u → World u × Result (Unit {0})
  unfolding own_addr
  send_self_notification c d w = receive_notification (own_addr c) d w

  -- `send_notification`.
  unfoldable pub send_notification : Addr → Any u → World u → World u × Result (Unit {0})
  send_notification dst d w = receive_notification dst d w

  -- The body under `if duration_to_next == Duration::ZERO`.
  unfoldable pub send_timeout : Context → Timer → ℕ → World u → Context × World u
  unfolding store_back
  send_timeout c key id w =
      let rest = remove key c.scheduler.timeout_list in
      let (w', r) =
        send_reactive w c.tx (record { message = notification (timeout_id key.id); dst_id = id }) in
      (
        record c { scheduler = record (c.scheduler) { timeout_list = store_back r key id rest } },
        w',
      )

  -- `try_send_next_pending_timeout`, on the first entry of the scheduler; `none` is the panic of a
  -- subtraction of two infinities.
  unfoldable pub try_send_first :
      Context → BTreeMap Timer ℕ → World u → Option (ControlFlow ℕ × Context × World u)
  unfolding send_timeout
  try_send_first c [] w = some (break duration_max, c, w)
  try_send_first c ((key, id) ∷ rest) w = elim (saturating_sub key.deadline c.clock) [
    | none ↦ none
    | some duration ↦
        if duration == 0
        then (let (c', w') = send_timeout c key id w in some (continue, c', w'))
        else some (break duration, c, w)
  ]

  unfoldable pub try_send_next_pending_timeout :
      Context → World u → Option (ControlFlow ℕ × Context × World u)
  unfolding try_send_first
  try_send_next_pending_timeout c w = try_send_first c c.scheduler.timeout_list w
