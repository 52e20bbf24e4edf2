-- ===== src/Mpsc/Builder.antt =====
-- `Builder` of src/mpsc_dispatcher.rs: the parts of a dispatcher before it runs.
use rtactor_rs.Base.{ℕ, ◌+◌, []}
use rtactor_rs.Actor.Channel.{sync_channel}
use rtactor_rs.Actor.Message.{Env, Addr, reactive}
use rtactor_rs.Actor.World.{World, update, generate_actor_id}
use rtactor_rs.Mpsc.Registry.{MpscDispatcher}
use rtactor_rs.Dispatcher.{SyncAccessor}
use rtactor_rs.Dispatcher as Dispatcher

-- Both ends of the queue are the channel `tx`.
pub record Builder : Type 0 where
  pub disp_actor_id : ℕ
  pub tx : ℕ

-- `dispatcher_addr`.
unfoldable pub dispatcher_addr : Builder → Addr
dispatcher_addr b = reactive b.tx b.disp_actor_id

module _ {u : Env} where
  -- `Builder::new`, on a channel that no address leads to yet.
  unfoldable pub new : ℕ → World u → Builder × World u
  new queue_size w =
      let (id, w') = generate_actor_id w in
      (
        record { disp_actor_id = id; tx = w'.next_channel },
        record w' {
          next_channel = w'.next_channel + 1;
          reactive_channels = update w'.reactive_channels w'.next_channel (sync_channel queue_size);
        },
      )

  -- `to_accessor`.
  unfoldable pub to_accessor : Builder → World u → SyncAccessor u × World u
  unfolding Dispatcher.new dispatcher_addr
  to_accessor b w = Dispatcher.new (dispatcher_addr b) w

  -- `build`.
  unfoldable pub build : Builder → MpscDispatcher u
  build b = record { disp_actor_id = b.disp_actor_id; tx = b.tx; reactive_list = [] }
