-- ===== src/Tests/Sample.antt =====
-- A small environment and state: behaviours count their messages, and every queue holds two.
use rtactor_rs.BTree.Keys.{nat_ord}
use rtactor_rs.Base.{ℕ, suc, ◌≡◌, some, List, [], ◌∷◌, true, false, arith}
use rtactor_rs.Actor.Channel.{Channel, sync_channel, try_send, try_recv}
use rtactor_rs.Actor.Message.{Env, value, Message}
use rtactor_rs.Actor.World.{World, MessageAndDstId}
use rtactor_rs.Actor.Delivery.Inbox.{AsyncLaws, room, answer, takes, add_if}
use rtactor_rs.Mpsc.Registry.{MpscDispatcher}
use rtactor_rs.Mpsc.Process.{UserCode}

abbrev pub sample_env : Env
sample_env = record {
  Behavior = ℕ;
  Function = ℕ;
  Value = ℕ;
  AsyncChannel = Channel;
  Text = ℕ;
  text_ord = nat_ord;
  Float = ℕ;
  last_instant = 1000000;
  async_bounded = λ A n. some (sync_channel n);
  async_try_send = λ A c m. try_send c m;
  async_try_recv = λ A c. try_recv c;
}

pub sample_answers : (A : Type 0) (c : Channel A) (m : A) → (try_send c m).1 ≡ answer (room c) m
unfolding try_send
sample_answers A c m = ground arith

pub sample_appends :
    (A : Type 0) (c : Channel A) (m : A)
    → (try_send c m).0.queue ≡ add_if (takes (room c)) m c.queue
unfolding try_send
sample_appends A c m = ground arith

pub sample_stays :
    (A : Type 0) (c : Channel A) (m : A) → takes (room c) ≡ false → (try_send c m).0 ≡ c
unfolding try_send
sample_stays A c m h = ground arith

unfoldable pub sample_laws : AsyncLaws sample_env
sample_laws = record {
  contents = λ A c. c.queue;
  async_room = λ A c. room c;
  answers = sample_answers;
  appends = sample_appends;
  stays = sample_stays;
}

abbrev pub two_places : {A : Type 0} → List A → Channel A
two_places q = record { capacity = 2; queue = q; has_receiver = true; has_senders = true }

abbrev pub sample_world :
    List (MessageAndDstId sample_env) → List (Message sample_env) → World sample_env
sample_world q b = record {
  reactive_channels = λ tx. two_places q;
  active_channels = λ tx. two_places b;
  async_channels = λ tx. two_places [];
  next_actor_id = 5;
  next_channel = 1;
}

abbrev pub sample_code : UserCode sample_env
sample_code = record {
  process_message = λ b c w m. some (suc b, c, w);
  call = λ f m w. some (value f, m, w);
}

abbrev pub sample_dispatcher : MpscDispatcher sample_env
sample_dispatcher = record { disp_actor_id = 1; tx = 0; reactive_list = (2, 0) ∷ (4, 7) ∷ [] }
