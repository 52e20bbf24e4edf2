-- ===== src/Tests/Loops.antt =====
-- The loop of the sample dispatcher.
use rtactor_rs.Base.{ℕ, ◌≡◌, refl, Bool, Option, none, some, List, [], ◌∷◌, arith}
use rtactor_rs.Actor.Channel.{try_recv}
use rtactor_rs.Actor.Message.{active, value, request, request_data, stop_dispatcher, notification}
use rtactor_rs.Actor.World.{MessageAndDstId}
use rtactor_rs.Reactive.Instant.{finite, saturating_sub}
use rtactor_rs.Reactive.Timer.{cmp}
use rtactor_rs.Reactive.Context.{try_send_next_pending_timeout}
use rtactor_rs.Mpsc.Registry.{get_behavior_index, index_of}
use rtactor_rs.Mpsc.Process.{
  Running, try_process_message, process_current_message, process_dispatcher_message,
}
use rtactor_rs.Mpsc.Process.Stopping.{Stops, process_current_message-Stops}
use rtactor_rs.Mpsc.Loop.{Tick, Phase, polling, next_timeout, process_step, process}
use rtactor_rs.Mpsc.Loop.Timeouts.{Sorted, KeepsSorted, SleepsUntil}
use rtactor_rs.Mpsc.Loop.Sleep.{process-SleepsUntil}
use rtactor_rs.Tests.Sample.{sample_env, sample_world, sample_code, sample_dispatcher}

sample-KeepsSorted : KeepsSorted sample_code
sample-KeepsSorted b b' c c' w w' m s e = ground arith

abbrev pub with_queue : List (MessageAndDstId sample_env) → Running sample_env
with_queue q = record {
  dispatcher = sample_dispatcher;
  context = record {
    tx = 0;
    own_actor_id = 0;
    request_id_counter = 0;
    clock = finite 0;
    scheduler = record {
      next_timeout_id = 4;
      timeout_list =
          (record { id = 3; deadline = finite 60 }, 2)
          ∷ (record { id = 1; deadline = finite 90 }, 4)
          ∷ [];
    };
  };
  world = sample_world q [];
}

abbrev pub one_notification : Running sample_env
one_notification = with_queue (record { message = notification (value 1); dst_id = 2 } ∷ [])

one_notification-Sorted : Sorted one_notification.context
unfolding cmp
one_notification-Sorted = ((refl, tt), (tt, tt))

abbrev pub undisturbed : ℕ → Tick sample_env
undisturbed now = record { others = λ w. w; now = now }

abbrev pub state_of : Running sample_env → Option (Phase × Running sample_env) → Running sample_env
state_of r none = r
state_of r (some (p, r')) = r'

processed : Running sample_env
unfolding process
processed =
    state_of one_notification (process sample_code (undisturbed 40 ∷ []) polling one_notification)

asleep : Running sample_env
unfolding process_step
asleep = state_of processed (process_step sample_code (undisturbed 50) polling processed)

process-SleepsUntil_example : SleepsUntil 50 10 asleep
unfolding process process_step processed asleep try_process_message try_recv get_behavior_index
    index_of next_timeout try_send_next_pending_timeout saturating_sub
process-SleepsUntil_example =
    process-SleepsUntil sample_code sample-KeepsSorted (undisturbed 40 ∷ []) (undisturbed 50)
      polling polling 10 one_notification processed asleep one_notification-Sorted refl refl

abbrev stop_message : MessageAndDstId sample_env
stop_message = record {
  message = request (active 3 0) 8 (request_data stop_dispatcher);
  dst_id = 1;
}

stopped_state : Running sample_env
unfolding process_current_message
stopped_state = go (process_current_message sample_code (with_queue []) stop_message)
  where
    go : Option (Bool × Running sample_env) → Running sample_env
    go none = with_queue []
    go (some (b, r)) = r

process_current_message-Stops_example :
    (stop_message.dst_id ≡ sample_dispatcher.disp_actor_id)
    × Stops (with_queue []) stopped_state (request (active 3 0) 8 (request_data stop_dispatcher))
unfolding process_current_message stopped_state process_dispatcher_message
process_current_message-Stops_example =
    process_current_message-Stops sample_code (with_queue []) stopped_state stop_message refl
