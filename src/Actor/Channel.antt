-- ===== src/Actor/Channel.antt =====
-- `std::sync::mpsc::sync_channel` as the library uses it: a bounded queue with try-operations.
-- A channel of capacity 0 refuses a `try_send`, as no receiver waits while one is made.
use rtactor_rs.Base.{
  ℕ, ◌≤◌, Bool, true, false, List, [], ◌∷◌, ◌++◌, arith, ltb, if◌then◌else◌, length, length-append,
}

pub record Channel (A : Type 0) : Type 0 where
  pub capacity : ℕ
  pub queue : List A
  pub has_receiver : Bool
  pub has_senders : Bool

-- The errors give the message back.
pub data SendResult (A : Type 0) : Type 0 where
  sent : SendResult A
  full : A → SendResult A
  disconnected : A → SendResult A

pub data RecvResult (A : Type 0) : Type 0 where
  received : A → RecvResult A
  empty : RecvResult A
  closed : RecvResult A

module _ {A : Type 0} where
  -- `sync_channel(queue_size)`.
  unfoldable pub sync_channel : ℕ → Channel A
  sync_channel queue_size = record {
    capacity = queue_size;
    queue = [];
    has_receiver = true;
    has_senders = true;
  }

  -- `SyncSender::try_send`.
  unfoldable pub try_send : Channel A → A → Channel A × SendResult A
  try_send c a =
      if c.has_receiver
      then if ltb (length c.queue) c.capacity
        then (record c { queue = c.queue ++ a ∷ [] }, sent)
        else (c, full a)
      else (c, disconnected a)

  pop_front : Channel A → List A → Channel A × RecvResult A
  pop_front c [] = (c, if c.has_senders then empty else closed)
  pop_front c (a ∷ rest) = (record c { queue = rest }, received a)

  -- `Receiver::try_recv`.
  unfoldable pub try_recv : Channel A → Channel A × RecvResult A
  unfolding pop_front
  try_recv c = pop_front c c.queue

  -- The `Receiver` is dropped, and what waits in its queue with it.
  unfoldable pub drop_receiver : Channel A → Channel A
  drop_receiver c = record c { queue = []; has_receiver = false }

  abbrev pub IsBounded : Channel A → Type 0
  IsBounded c = length c.queue ≤ c.capacity

  pub try_send-IsBounded : (c : Channel A) (a : A) → IsBounded c → IsBounded (try_send c a).0
  unfolding try_send
  try_send-IsBounded c a h = ground (arith, length-append c.queue (a ∷ []))
