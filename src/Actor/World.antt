-- ===== src/Actor/World.antt =====
-- The shared state of the actors: the channels that addresses point to, by the kind of the address,
-- the static `NEXT_ACTOR_ID` of src/actor.rs, and the number of the next channel to be made.
use rtactor_rs.Base.{ℕ, ◌+◌, ◌%◌, ◌==◌, if◌then◌else◌, u64_mod}
use rtactor_rs.Actor.Channel.{Channel, SendResult, sent, full, disconnected, try_send}
use rtactor_rs.Actor.Message.{Env, Error, addr_unreachable, queue_full, Message}

-- `MessageAndDstId`.
pub record MessageAndDstId (u : Env) : Type 0 where
  pub message : Message u
  pub dst_id : ℕ

pub record World (u : Env) : Type 0 where
  pub reactive_channels : ℕ → Channel (MessageAndDstId u)
  pub active_channels : ℕ → Channel (Message u)
  pub async_channels : ℕ → u.AsyncChannel (Message u)
  pub next_actor_id : ℕ
  pub next_channel : ℕ

pub data Result (A : Type 0) : Type 0 where
  ok : A → Result A
  err : Error → Result A

abbrev pub update {ℓ} : {A : Type ℓ} → (ℕ → A) → ℕ → A → ℕ → A
update f p v q = if p == q then v else f q

-- `Ok(())`, or the error that a failed `try_send` is reported as.
unfoldable pub to_result : {A : Type 0} → SendResult A → Result (Unit {0})
to_result sent = ok tt
to_result (full m) = err queue_full
to_result (disconnected m) = err addr_unreachable

-- `try_send` on one channel of a store.
unfoldable pub send_on : {A : Type 0} → (ℕ → Channel A) → ℕ → A → (ℕ → Channel A) × SendResult A
unfolding try_send
send_on cs tx m = let (c, r) = try_send (cs tx) m in (update cs tx c, r)

module _ {u : Env} where
  -- `generate_actor_id`: the counter is a `u64`, and wraps in a release build.
  unfoldable pub generate_actor_id : World u → ℕ × World u
  generate_actor_id w =
      (w.next_actor_id, record w { next_actor_id = (w.next_actor_id + 1) % u64_mod })

  unfoldable pub send_reactive :
      World u → ℕ → MessageAndDstId u → World u × SendResult (MessageAndDstId u)
  send_reactive w tx m =
      let (cs, r) = send_on w.reactive_channels tx m in (record w { reactive_channels = cs }, r)

  unfoldable pub send_active : World u → ℕ → Message u → World u × SendResult (Message u)
  send_active w tx m =
      let (cs, r) = send_on w.active_channels tx m in (record w { active_channels = cs }, r)

  unfoldable pub send_async : World u → ℕ → Message u → World u × SendResult (Message u)
  send_async w tx m =
      let (c, r) = u.async_try_send (Message u) (w.async_channels tx) m in
      (record w { async_channels = update w.async_channels tx c }, r)
