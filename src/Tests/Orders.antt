-- ===== src/Tests/Orders.antt =====
-- The order in which the sample dispatcher processes its messages.
use mathlib.Core.Option
use rtactor_rs.Base.{ℕ, ◌≡◌, refl, List, [], ◌∷◌, arith}
use rtactor_rs.Actor.Channel.{try_recv}
use rtactor_rs.Actor.Message.{active, value, request, notification}
use rtactor_rs.Actor.World.{MessageAndDstId, send_reactive, send_on}
use rtactor_rs.Mpsc.Registry.{get_behavior_index, index_of}
use rtactor_rs.Mpsc.Extending.{Extends-refl, Extends-eq, send_reactive-Extends}
use rtactor_rs.Mpsc.Process.{Running, try_process_message, process_current_message}
use rtactor_rs.Mpsc.Process.Serving.{
  stop_and_actors, going_on, actors_of, serve, process_current_message-serve,
}
use rtactor_rs.Mpsc.Process.Sending.{OnlySends}
use rtactor_rs.Mpsc.Loop.{Tick, polling, process_step, process}
use rtactor_rs.Mpsc.Loop.Fifo.{InOrder, process-InOrder}
use rtactor_rs.Tests.Sample.{sample_env, sample_code}
use rtactor_rs.Tests.Loops.{with_queue, one_notification, undisturbed, state_of}

sample-OnlySends : OnlySends sample_code
sample-OnlySends = record {
  in_messages = λ b b' c c' w w' m e. Extends-eq w w w' (Extends-refl w) (ground arith);
  in_calls = λ f m m' w w' d e.
      (Extends-eq w w w' (Extends-refl w) (ground arith), ground arith, ground arith);
}

abbrev to_nobody : MessageAndDstId sample_env
to_nobody = record { message = request (active 3 0) 8 (value 5); dst_id = 9 }

process_current_message-serve_example :
    Option.map stop_and_actors (process_current_message sample_code (with_queue []) to_nobody)
    ≡ Option.map going_on (serve sample_code (actors_of (with_queue [])) to_nobody)
process_current_message-serve_example =
    process_current_message-serve sample_code (with_queue []) to_nobody (omega arith)

-- Another thread sends to actor 4 while the dispatcher looks for the notification to actor 2.
abbrev disturbed : ℕ → Tick sample_env
disturbed now = record {
  others = λ w. (send_reactive w 0 (record { message = notification (value 6); dst_id = 4 })).0;
  now = now;
}

abbrev two_ticks : List (Tick sample_env)
two_ticks = disturbed 40 ∷ undisturbed 50 ∷ []

served : Running sample_env
unfolding process
served = state_of one_notification (process sample_code two_ticks polling one_notification)

test_served : served.dispatcher.reactive_list ≡ (2, 1) ∷ (4, 8) ∷ []
unfolding served process process_step try_process_message try_recv get_behavior_index index_of
    send_reactive send_on
test_served = refl

process-InOrder_example : InOrder sample_code two_ticks one_notification served
unfolding served process process_step try_process_message try_recv get_behavior_index index_of
    send_reactive send_on
process-InOrder_example =
    process-InOrder sample_code sample-OnlySends two_ticks polling polling one_notification served
      (
        λ w. send_reactive-Extends w 0 (record { message = notification (value 6); dst_id = 4 }),
        (Extends-refl, tt),
      )
      (ground arith) (ground arith) refl
