-- ===== src/Tests/Stopping.antt =====
-- An accessor that stops the sample dispatcher while another thread sends to one of its actors.
use rtactor_rs.Base.{◌≡◌, refl, some, [], ◌∷◌, arith}
use rtactor_rs.Actor.Channel.{try_send}
use rtactor_rs.Actor.Message.{reactive, value, notification, is_valid}
use rtactor_rs.Actor.World.{World, MessageAndDstId, ok, send_reactive, send_on}
use rtactor_rs.Actor.Delivery.{receive_notification, receive_request}
use rtactor_rs.Reactive.Instant.{finite}
use rtactor_rs.Active.Mailbox.{arrived, request_for}
use rtactor_rs.Dispatcher.{SyncAccessor, stop_dispatcher_for}
use rtactor_rs.Dispatcher.Requests.{after_request}
use rtactor_rs.Dispatcher.Stop.{stop_response, stop_dispatcher_for-process}
use rtactor_rs.Mpsc.Dropped.{drop_dispatcher, IsGone}
use rtactor_rs.Mpsc.Extending.{queue_at}
use rtactor_rs.Mpsc.Loop.{Tick, polling, stopped, process}
use rtactor_rs.Mpsc.Process.{Running}
use rtactor_rs.Tests.Sample.{sample_env, sample_world, sample_code, sample_dispatcher}

abbrev running : Running sample_env
running = record {
  dispatcher = sample_dispatcher;
  context = record {
    tx = 0;
    own_actor_id = 1;
    request_id_counter = 0;
    clock = finite 30;
    scheduler = record { timeout_list = []; next_timeout_id = 0 };
  };
  world = sample_world [] [];
}

abbrev stopper : SyncAccessor sample_env
stopper = record {
  mailbox = record { id = 3; tx = 2; last_request_id = 8; message_list = [] };
  disp_addr = reactive 0 1;
}

abbrev notice : MessageAndDstId sample_env
notice = record { message = notification (value 1); dst_id = 4 }

abbrev noticed : Tick sample_env
noticed = record { others = λ w. (send_reactive w 0 notice).0; now = 30 }

abbrev meanwhile : World sample_env → World sample_env
meanwhile w = (receive_notification (reactive 0 2) (value 5) w).0

stop_dispatcher_for-process_example :
    let w = (stop_dispatcher_for stopper running.world []).0 in
    (r' : Running sample_env) × (process sample_code
        (noticed ∷ [])
        polling
        (record running { world = w })
      ≡ some (stopped, r'))
    × (r'.dispatcher.reactive_list ≡ [])
    × (queue_at r'.world 0 ≡ [])
    × ((r'.world.active_channels 2).queue ≡ stop_response stopper ∷ [])
    × (stop_dispatcher_for stopper running.world (arrived (stop_response stopper) ∷ [])
        ≡ (w, some (ok tt, after_request stopper, [])))
    × IsGone 0 (drop_dispatcher r'.dispatcher meanwhile r'.world)
unfolding stop_dispatcher_for request_for receive_request send_reactive send_on try_send is_valid
stop_dispatcher_for-process_example =
    stop_dispatcher_for-process sample_code running stopper noticed (notice ∷ []) [] meanwhile refl
      (record { receiver = refl; roomy = omega arith; quiet = refl })
      (record { receiver = refl; roomy = omega arith; quiet = refl }) refl refl refl
