-- ===== src/Tests/Mocks.antt =====
-- A mocker whose mock answers a request with its successor and counts in the data of the test.
use mathlib.Core.Option
use rtactor_rs.Base.{ℕ, suc, ◌≡◌, refl, Option, none, some, [], arith}
use rtactor_rs.Actor.Message.{Env, Any, value, Message}
use rtactor_rs.Actor.World.{World, ok}
use rtactor_rs.Reactive.Context.{Context, send_addr_id_response}
use rtactor_rs.Active.Mailbox.{generate_request_id}
use rtactor_rs.Reactive.Instant.{finite, add}
use rtactor_rs.Accessors.{new_sim, sim_call}
use rtactor_rs.Mocker.{ReactiveMocker, Reactive, process_message, new, addr_of}
use rtactor_rs.Mocker.Calls.{owned, sim_call-MockAnswers}
use rtactor_rs.Mpsc.Process.{UserCode}
use rtactor_rs.Mpsc.Registry.Operations.{behavior_of}
use rtactor_rs.Simulation.{SimulationDispatcher, finished}
use rtactor_rs.Tests.Sample.{sample_env, two_places}

abbrev mock_env : Env
mock_env = record sample_env { Behavior = ReactiveMocker ℕ ℕ }

abbrev next_of : Any mock_env → Any mock_env
next_of (value n) = value (suc n)
next_of d = d

abbrev mocks : Reactive mock_env ℕ ℕ
mocks = record {
  process_request =
      λ m t c w src id d. some (suc m, suc t, c, send_addr_id_response src id (next_of d) w);
  process_ok_response = λ m t c w id d. some (m, t, c, w);
  process_err_response = λ m t c w id e d. some (m, t, c, w);
  process_notification = λ m t c w d. some (m, t, c, w);
}

abbrev mock_code : UserCode mock_env
mock_code = record { process_message = process_message mocks; call = λ f m w. some (value f, m, w) }

abbrev as_value : Any mock_env → Option ℕ
as_value (value n) = some n
as_value _ = none

abbrev as_some : ℕ → Option ℕ
as_some n = some n

abbrev stage : SimulationDispatcher mock_env
stage = record {
  disp = record { disp_actor_id = 1; tx = 0; reactive_list = [] };
  timeout_scheduler = record { timeout_list = []; next_timeout_id = 0 };
  instant_source = record { elapsed_duration = 0; simulated_now = 5 };
  request_id_counter_backup = 0;
  world = record {
    reactive_channels = λ tx. two_places [];
    active_channels = λ tx. two_places [];
    async_channels = λ tx. two_places [];
    next_actor_id = 5;
    next_channel = 1;
  };
}

mocks_run :
    (r : ReactiveMocker ℕ ℕ) (c : Context) (w : World mock_env) (m : Message mock_env)
    → process_message mocks r c w m
      ≡ Option.map (λ s. (s.0, s.1, s.2)) (process_message mocks r c w m)
mocks_run r c w m =
    elim (process_message mocks r c w m) as (λ o. o ≡ Option.map (λ s. (s.0, s.1, s.2)) o) [
      | none ↦ refl
      | some s ↦ refl
    ]

sim_call-MockAnswers_example :
    let (r, d₁) = new (λ x. x) 0 10 stage in
    let (a, w) = new_sim (addr_of r) d₁.world in
    (d' : SimulationDispatcher mock_env) × (sim_call as_value as_some mock_code 2 a
        (value 7)
        100
        (record d₁ { world = w })
      ≡ finished (ok 8, record a { mailbox = (generate_request_id a.mailbox).1 }, d'))
    × (behavior_of d'.disp (addr_of r) ≡ some (owned 1 11))
    × (d'.instant_source ≡ stage.instant_source)
unfolding add
sim_call-MockAnswers_example =
    sim_call-MockAnswers mock_code mocks (λ x. x) as_value as_some 0 0 1 10 11 (value 7) (value 8) 8
      8 100 (finite 105) stage mocks_run (λ c w src id. refl) refl refl
      (record { ordered = omega arith; own_given = omega arith; own_free = refl }) (omega arith)
      (record { receiver = refl; roomy = omega arith; quiet = refl }) refl
