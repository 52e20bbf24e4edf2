-- ===== src/Tests/Answers.antt =====
-- A simulated request to a behaviour that echoes requests.
use rtactor_rs.Base.{ℕ, suc, ◌≡◌, refl, Option, some, [], ◌==◌, if◌then◌else◌, arith}
use rtactor_rs.Actor.Message.{reactive, value, Message, request}
use rtactor_rs.Actor.World.{World, ok}
use rtactor_rs.Reactive.Instant.{infinity}
use rtactor_rs.Reactive.Context.{Context, send_addr_id_response}
use rtactor_rs.Active.Mailbox.{generate_request_id}
use rtactor_rs.Mpsc.Registry.Lookup.{behavior_at}
use rtactor_rs.Mpsc.Process.{UserCode}
use rtactor_rs.Simulation.{SimulationDispatcher, finished, never}
use rtactor_rs.Simulation.Requests.{active_request_until_cond}
use rtactor_rs.Simulation.Requests.Answered.{active_request-Answers}
use rtactor_rs.Tests.Sample.{sample_env, sample_world}
use rtactor_rs.Tests.Simulations.{simulation, mailbox, as_value}
use rtactor_rs.Base.{◌∷◌}
use rtactor_rs.Actor.Message.{notification, ok_response}
use rtactor_rs.Actor.World.{MessageAndDstId, send_reactive, send_on}
use rtactor_rs.Actor.Channel.{try_send}
use rtactor_rs.Actor.Delivery.{receive_request}
use rtactor_rs.Reactive.Instant.{finite}
use rtactor_rs.Active.Mailbox.{arrived, request_for}
use rtactor_rs.Mpsc.Loop.{Tick, polling, process}
use rtactor_rs.Mpsc.Process.{Running}
use rtactor_rs.Mpsc.Requests.{asked, request_for-process}
use rtactor_rs.Tests.Sample.{sample_dispatcher}

abbrev echo :
    ℕ → Context → World sample_env → Message sample_env → Option (ℕ × Context × World sample_env)
echo b c w (request src id d) = some (suc b, c, send_addr_id_response src id d w)
echo b c w _ = some (b, c, w)

abbrev echo_code : UserCode sample_env
echo_code = record { process_message = echo; call = λ f m w. some (value f, m, w) }

abbrev at_rest : SimulationDispatcher sample_env
at_rest = simulation (sample_world [] [])

active_request-Answers_example :
    (d' : SimulationDispatcher sample_env) × (active_request_until_cond echo_code never as_value 2
        mailbox
        (reactive 0 2)
        (value 7)
        infinity
        tt
        at_rest
      ≡ finished (ok 7, (generate_request_id mailbox).1, tt, d'))
    × (d'.instant_source ≡ at_rest.instant_source)
    × (d'.timeout_scheduler ≡ at_rest.timeout_scheduler)
    × ((k : ℕ)
        → behavior_at k d'.disp.reactive_list
          ≡ (if 2 == k then some 1 else behavior_at k at_rest.disp.reactive_list))
active_request-Answers_example =
    active_request-Answers echo_code never as_value 0 2 mailbox (value 7) (value 7) 7 infinity tt
      at_rest 0 1 (λ c w src id. refl) refl refl (omega arith) refl
      (record { receiver = refl; roomy = omega arith; quiet = refl })
      (record { receiver = refl; roomy = omega arith; quiet = refl })

abbrev running : Running sample_env
running = record {
  dispatcher = sample_dispatcher;
  context = record {
    tx = 0;
    own_actor_id = 1;
    request_id_counter = 0;
    clock = finite 30;
    scheduler = record { timeout_list = []; next_timeout_id = 0 };
  };
  world = sample_world [] [];
}

abbrev notice : MessageAndDstId sample_env
notice = record { message = notification (value 1); dst_id = 4 }

-- Another thread notifies another actor behind the request.
abbrev noticed : Tick sample_env
noticed = record { others = λ w. (send_reactive w 0 notice).0; now = 30 }

request_for-process_example :
    let w = asked as_value mailbox (reactive 0 2) (value 7) running.world in
    (r' : Running sample_env) × (process echo_code
        (noticed ∷ [])
        polling
        (record running { world = w })
      ≡ some (polling, r'))
    × ((r'.world.active_channels 0).queue ≡ ok_response 9 (value 7) ∷ [])
    × (request_for as_value mailbox
          (reactive 0 2)
          (value 7)
          running.world
          (arrived (ok_response 9 (value 7)) ∷ [])
        ≡ (w, some (ok 7, (generate_request_id mailbox).1, [])))
    × ((k : ℕ)
        → behavior_at k r'.dispatcher.reactive_list
          ≡ (if 2 == k then some 1 else behavior_at k running.dispatcher.reactive_list))
unfolding request_for receive_request send_reactive send_on try_send
request_for-process_example =
    request_for-process echo_code as_value running 2 mailbox (value 7) (value 7) 7 0 1 noticed
      (notice ∷ []) [] (λ c w src id. refl) refl refl (omega arith)
      (record { receiver = refl; roomy = omega arith; quiet = refl })
      (record { receiver = refl; roomy = omega arith; quiet = refl }) refl refl
