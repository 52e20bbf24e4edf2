-- ===== src/Actor/Delivery/Inbox.antt =====
-- The messages that wait behind an address, and whether its queue takes one more.
use rtactor_rs.Base.{
  ℕ, ◌≡◌, ap, Bool, true, false, ◌&&◌, List, [], ◌∷◌, ◌++◌, arith, ltb, ◌==◌, if◌then◌else◌, length,
  fun_ext, ◌∙◌,
}
use rtactor_rs.Actor.Channel.{Channel, SendResult, sent, full, disconnected, try_send}
use rtactor_rs.Actor.Message.{Env, Addr, invalid, reactive, active, async, Message}
use rtactor_rs.Actor.World.{
  World, MessageAndDstId, update, send_on, send_reactive, send_active, send_async,
}

-- What a queue does with a message.
pub data Room : Type 0 where
  has_room is_full is_gone : Room

abbrev pub answer : {A : Type 0} → Room → A → SendResult A
answer has_room m = sent
answer is_full m = full m
answer is_gone m = disconnected m

abbrev pub takes : Room → Bool
takes has_room = true
takes _ = false

-- A list with one more element, if a test passes.
abbrev pub add_if : {A : Type 0} → Bool → A → List A → List A
add_if b m xs = if b then xs ++ m ∷ [] else xs

abbrev pub room : {A : Type 0} → Channel A → Room
room c =
    if c.has_receiver
    then if ltb (length c.queue) c.capacity then has_room else is_full
    else is_gone

-- What the crate `async_channel` documents of `try_send`: a channel with room takes the message as
-- its last one, and any other gives it back and stays as it is.
pub record AsyncLaws (u : Env) : Type 1 where
  pub contents : (A : Type 0) → u.AsyncChannel A → List A
  pub async_room : (A : Type 0) → u.AsyncChannel A → Room
  pub answers :
      (A : Type 0) (c : u.AsyncChannel A) (m : A)
      → (u.async_try_send A c m).1 ≡ answer (async_room A c) m
  pub appends :
      (A : Type 0) (c : u.AsyncChannel A) (m : A)
      → contents A (u.async_try_send A c m).0 ≡ add_if (takes (async_room A c)) m (contents A c)
  pub stays :
      (A : Type 0) (c : u.AsyncChannel A) (m : A)
      → takes (async_room A c) ≡ false
      → (u.async_try_send A c m).0 ≡ c

-- Those messages of a dispatcher's queue that are for one actor.
abbrev pub messages_for : {u : Env} → ℕ → List (MessageAndDstId u) → List (Message u)
messages_for id [] = []
messages_for id (m ∷ ms) =
    let rest = messages_for id ms in if m.dst_id == id then m.message ∷ rest else rest

-- Both addresses lead to the same recipient on the same queue.
abbrev pub same_inbox : Addr → Addr → Bool
same_inbox (reactive tx dst) (reactive tx' dst') = tx == tx' && dst == dst'
same_inbox (active id tx) (active id' tx') = tx == tx'
same_inbox (async id tx) (async id' tx') = tx == tx'
same_inbox _ _ = false

module _ {u : Env} (laws : AsyncLaws u) where
  abbrev pub inbox : World u → Addr → List (Message u)
  inbox w invalid = []
  inbox w (reactive tx dst) = messages_for dst (w.reactive_channels tx).queue
  inbox w (active id tx) = (w.active_channels tx).queue
  inbox w (async id tx) = laws.contents (Message u) (w.async_channels tx)

  abbrev pub addr_room : World u → Addr → Room
  addr_room w invalid = is_gone
  addr_room w (reactive tx dst) = room (w.reactive_channels tx)
  addr_room w (active id tx) = room (w.active_channels tx)
  addr_room w (async id tx) = laws.async_room (Message u) (w.async_channels tx)

update_self {ℓ} : {A : Type ℓ} (f : ℕ → A) (p : ℕ) → update f p (f p) ≡ f
update_self f p = fun_ext λ q. ground arith

send_on-answer :
    {A : Type 0} (cs : ℕ → Channel A) (tx : ℕ) (m : A)
    → (send_on cs tx m).1 ≡ answer (room (cs tx)) m
unfolding send_on try_send
send_on-answer cs tx m = ground arith

send_on_stays :
    {A : Type 0} (cs : ℕ → Channel A) (tx : ℕ) (m : A)
    → takes (room (cs tx)) ≡ false
    → (send_on cs tx m).0 ≡ cs
unfolding send_on
send_on_stays {A} cs tx m h = ap (update cs tx) kept ∙ update_self cs tx
  where
    kept : (try_send (cs tx) m).0 ≡ cs tx
    kept = unfold try_send in ground arith

messages_for-append :
    {u : Env} (id : ℕ) (ms : List (MessageAndDstId u)) (m : MessageAndDstId u)
    → messages_for id (ms ++ m ∷ []) ≡ add_if (m.dst_id == id) m.message (messages_for id ms)
messages_for-append id [] m = ground arith
messages_for-append id (x ∷ ms) m = ground (arith, messages_for-append id ms m)

-- What sending to a queue does to each inbox, for each kind of queue.
module _ {u : Env} (laws : AsyncLaws u) where
  pub inbox-send_reactive :
      (w : World u) (tx : ℕ) (m : MessageAndDstId u) (a : Addr)
      → inbox laws (send_reactive w tx m).0 a
        ≡ add_if
            (takes (room (w.reactive_channels tx)) && same_inbox (reactive tx m.dst_id) a)
            m.message
            (inbox laws w a)
  unfolding send_reactive send_on try_send
  inbox-send_reactive w tx m invalid = ground arith
  inbox-send_reactive w tx m (reactive tx' dst) =
      ground (arith, messages_for-append dst (w.reactive_channels tx).queue m)
  inbox-send_reactive w tx m (active id tx') = ground arith
  inbox-send_reactive w tx m (async id tx') = ground arith

  pub inbox-send_active :
      (w : World u) (id tx : ℕ) (m : Message u) (a : Addr)
      → inbox laws (send_active w tx m).0 a
        ≡ add_if
            (takes (room (w.active_channels tx)) && same_inbox (active id tx) a)
            m
            (inbox laws w a)
  unfolding send_active send_on try_send
  inbox-send_active w id tx m invalid = ground arith
  inbox-send_active w id tx m (reactive tx' dst) = ground arith
  inbox-send_active w id tx m (active id' tx') = ground arith
  inbox-send_active w id tx m (async id' tx') = ground arith

  pub inbox-send_async :
      (w : World u) (id tx : ℕ) (m : Message u) (a : Addr)
      → inbox laws (send_async w tx m).0 a
        ≡ add_if
            (takes (laws.async_room (Message u) (w.async_channels tx))
              && same_inbox (async id tx) a)
            m
            (inbox laws w a)
  unfolding send_async
  inbox-send_async w id tx m invalid = ground arith
  inbox-send_async w id tx m (reactive tx' dst) = ground arith
  inbox-send_async w id tx m (active id' tx') = ground arith
  inbox-send_async w id tx m (async id' tx') =
      ground (arith, laws.appends (Message u) (w.async_channels tx) m)

  pub send_reactive_stays :
      (w : World u) (tx : ℕ) (m : MessageAndDstId u)
      → takes (room (w.reactive_channels tx)) ≡ false
      → (send_reactive w tx m).0 ≡ w
  unfolding send_reactive
  send_reactive_stays w tx m h =
      ap (λ cs. record w { reactive_channels = cs }) (send_on_stays w.reactive_channels tx m h)

  pub send_active_stays :
      (w : World u) (tx : ℕ) (m : Message u)
      → takes (room (w.active_channels tx)) ≡ false
      → (send_active w tx m).0 ≡ w
  unfolding send_active
  send_active_stays w tx m h =
      ap (λ cs. record w { active_channels = cs }) (send_on_stays w.active_channels tx m h)

  pub send_async_stays :
      (w : World u) (tx : ℕ) (m : Message u)
      → takes (laws.async_room (Message u) (w.async_channels tx)) ≡ false
      → (send_async w tx m).0 ≡ w
  unfolding send_async
  send_async_stays w tx m h =
      ap (λ cs. record w { async_channels = cs })
        (ap (update w.async_channels tx) (laws.stays (Message u) (w.async_channels tx) m h)
          ∙ update_self w.async_channels tx)

  pub send_reactive-answer :
      (w : World u) (tx : ℕ) (m : MessageAndDstId u)
      → (send_reactive w tx m).1 ≡ answer (room (w.reactive_channels tx)) m
  unfolding send_reactive
  send_reactive-answer w tx m = send_on-answer w.reactive_channels tx m

  pub send_active-answer :
      (w : World u) (tx : ℕ) (m : Message u)
      → (send_active w tx m).1 ≡ answer (room (w.active_channels tx)) m
  unfolding send_active
  send_active-answer w tx m = send_on-answer w.active_channels tx m

  pub send_async-answer :
      (w : World u) (tx : ℕ) (m : Message u)
      → (send_async w tx m).1 ≡ answer (laws.async_room (Message u) (w.async_channels tx)) m
  unfolding send_async
  send_async-answer w tx m = laws.answers (Message u) (w.async_channels tx) m
