-- ===== src/Tests/Late.antt =====
-- The error response to the request before waits in the mailbox when the next one is sent.
use rtactor_rs.Base.{◌≡◌, refl, true, false, some, none, [], ◌∷◌, arith}
use rtactor_rs.Actor.Channel.{try_recv, try_send}
use rtactor_rs.Actor.Message.{reactive, value, Message, err_response, queue_full, no_message}
use rtactor_rs.Actor.World.{err, send_reactive, send_on}
use rtactor_rs.Actor.Delivery.{receive_request}
use rtactor_rs.Reactive.Address as Reactive
use rtactor_rs.Reactive.Instant.{infinity}
use rtactor_rs.Reactive.Context as Context
use rtactor_rs.Active.Mailbox.{try_get_message, generate_request_id, pop_back}
use rtactor_rs.Mpsc.Process.{Running, try_process_message}
use rtactor_rs.Mpsc.Registry.{get_behavior_index, index_of}
use rtactor_rs.Simulation.{SimulationDispatcher, finished, never, leave, context_of}
use rtactor_rs.Simulation.Steps.{Position}
use rtactor_rs.Simulation.Requests.{Waiting, start, active_request_until_cond}
use rtactor_rs.Simulation.Requests.Results.{asking}
use rtactor_rs.Simulation.Requests.Late.{AloneAfter, response_to_another}
use rtactor_rs.Tests.Sample.{sample_env, sample_world, sample_code}
use rtactor_rs.Tests.Simulations.{simulation, mailbox, as_value}

abbrev late : Message sample_env
late = err_response 8 queue_full (value 3)

abbrev waiting : SimulationDispatcher sample_env
waiting = simulation (sample_world [] (late ∷ []))

abbrev sent : Position sample_env (Waiting sample_env (Unit {0}))
sent = asking mailbox (reactive 0 2) (value 7) tt waiting

abbrev looked : Running sample_env
looked = elim (try_process_message sample_code sent.running) [
  | none ↦ sent.running
  | some (p, r) ↦ r
]

response_to_another_example :
    (active_request_until_cond sample_code never as_value 2 mailbox
        (reactive 0 2)
        (value 7)
        infinity
        tt
        waiting
      ≡ finished (
        err no_message,
        (generate_request_id mailbox).1,
        tt,
        leave sent.round (record looked {
          world = (try_get_message (generate_request_id mailbox).1 looked.world).2;
        }),
      ))
    × AloneAfter as_value 9 (generate_request_id mailbox).1 late []
unfolding start receive_request Reactive.receive_request send_reactive send_on try_send
    try_process_message try_recv get_behavior_index index_of try_get_message pop_back
    generate_request_id context_of Context.new leave
response_to_another_example =
    response_to_another sample_code never as_value 0 8 mailbox (generate_request_id mailbox).1
      (reactive 0 2) (value 7) infinity tt waiting late true false looked
      (try_get_message (generate_request_id mailbox).1 looked.world).2 [] refl refl refl
      (omega arith)
