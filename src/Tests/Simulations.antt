-- ===== src/Tests/Simulations.antt =====
-- Runs of the simulation dispatcher.
use rtactor_rs.Base.{ℕ, suc, inr, ◌≡◌, refl, Option, none, some, [], ◌∷◌, arith}
use rtactor_rs.Actor.Message.{reactive, Any, value, ok_response, notification, no_message}
use rtactor_rs.Actor.World.{World, Result, ok, err, send_reactive, send_on}
use rtactor_rs.Actor.Delivery.{receive_request}
use rtactor_rs.Reactive.Instant.{finite}
use rtactor_rs.Active.Mailbox.{ActiveMailbox, try_get_message, pop_back}
use rtactor_rs.Simulation.{
  SimulationDispatcher, Run, finished, panicked, out_of_fuel, process_until_cond, never,
  next_timeout, advance, until_round, after_queued, process_queued, process_one, after_message,
}
use rtactor_rs.Actor.Channel.{try_recv}
use rtactor_rs.Mpsc.Registry.{get_behavior_index, index_of}
use rtactor_rs.Reactive.Context.{try_send_next_pending_timeout}
use rtactor_rs.Reactive.Context as Context
use rtactor_rs.Mpsc.Process.{try_process_message}
use rtactor_rs.Simulation.{process_until}
use rtactor_rs.Simulation.Ready.{IsReady}
use rtactor_rs.Simulation.Until.{EndsAt, process_until-EndsAt}
use rtactor_rs.Reactive.Timer as Timer
use rtactor_rs.Simulation.Time.{Passes, process_until_cond-Passes}
use rtactor_rs.Simulation.Endings.{Ending, process_until_cond-Ending}
use rtactor_rs.Simulation.Requests.{active_request_until_cond}
use rtactor_rs.Simulation.Requests.Results.{asking, Responded, active_request-ok}
use rtactor_rs.Tests.Sample.{sample_env, sample_world, sample_code, sample_dispatcher}

abbrev pub simulation : World sample_env → SimulationDispatcher sample_env
simulation w = record {
  disp = sample_dispatcher;
  timeout_scheduler = record { next_timeout_id = 0; timeout_list = [] };
  instant_source = record { elapsed_duration = 0; simulated_now = 100 };
  request_id_counter_backup = 0;
  world = w;
}

-- One notification waits for actor 2.
abbrev before : SimulationDispatcher sample_env
before = simulation (sample_world (record { message = notification (value 1); dst_id = 2 } ∷ []) [])

abbrev pub final : {A : Type 0} → A → Run A → A
final a (finished b) = b
final a panicked = a
final a out_of_fuel = a

-- The dispatcher after the notification was processed and the time has come to 150.
after : SimulationDispatcher sample_env
unfolding process_until_cond
after = (final (tt, before) (process_until_cond sample_code never 4 (finite 150) tt before)).1

runs : process_until_cond sample_code never 4 (finite 150) tt before ≡ finished (tt, after)
unfolding process_until_cond until_round after_queued process_queued process_one after_message
    try_process_message after try_recv get_behavior_index index_of next_timeout
    try_send_next_pending_timeout Context.new advance
runs = refl

test_after :
    (after.instant_source.simulated_now ≡ 150) × (after.disp.reactive_list ≡ (2, 1) ∷ (4, 7) ∷ [])
unfolding process_until_cond after until_round process_queued process_one try_process_message
    try_recv get_behavior_index index_of next_timeout try_send_next_pending_timeout Context.new
    advance
test_after = (refl, refl)

process_until_cond-Passes_example : Passes 150 before.instant_source after.instant_source
process_until_cond-Passes_example =
    process_until_cond-Passes sample_code never 4 150 tt tt before after (omega arith) runs

process_until_cond-Ending_example : Ending sample_code never 150 before tt tt after
process_until_cond-Ending_example =
    process_until_cond-Ending sample_code never 150 4 tt tt before after (omega arith) runs

-- The response to the request is already in the mailbox.
abbrev answered : SimulationDispatcher sample_env
answered = simulation (sample_world [] (ok_response 9 (value 4) ∷ []))

abbrev pub mailbox : ActiveMailbox sample_env
mailbox = record { id = 3; tx = 0; last_request_id = 8; message_list = [] }

abbrev pub as_value : Any sample_env → Option ℕ
as_value (value n) = some n
as_value _ = none

abbrev asked :
    Run (Result ℕ × ActiveMailbox sample_env × Unit {0} × SimulationDispatcher sample_env)
asked =
    active_request_until_cond sample_code never as_value 4 mailbox (reactive 0 2) (value 7)
      (finite 150) tt answered

outcome : Result ℕ × ActiveMailbox sample_env × Unit {0} × SimulationDispatcher sample_env
unfolding active_request_until_cond
outcome = final (err no_message, mailbox, tt, answered) asked

asked_ends : asked ≡ finished (ok 4, outcome.1, tt, outcome.3)
unfolding active_request_until_cond outcome process_until_cond until_round process_queued
    process_one try_process_message try_recv receive_request send_reactive send_on
    get_behavior_index index_of try_get_message pop_back
asked_ends = refl

active_request-ok_example :
    Responded sample_code never as_value mailbox outcome.1
      (finite 150)
      (asking mailbox (reactive 0 2) (value 7) tt answered)
      outcome.3
      4
active_request-ok_example =
    active_request-ok sample_code never as_value 4 mailbox outcome.1 (reactive 0 2) (value 7)
      (finite 150) tt tt answered outcome.3 4 asked_ends

-- Two timers run, one of them is due during the run and the other at its end, and a notification waits.
abbrev busy : SimulationDispatcher sample_env
busy = record before {
  timeout_scheduler = record {
    next_timeout_id = 5;
    timeout_list =
        (record { id = 3; deadline = finite 120 }, 2)
        ∷ (record { id = 4; deadline = finite 150 }, 4)
        ∷ [];
  };
}

busy-IsReady : IsReady busy busy.timeout_scheduler.timeout_list
unfolding Timer.cmp
busy-IsReady = record {
  senders = refl;
  receiver = refl;
  roomy = omega arith;
  pending = inr (2, value 1, refl, omega arith);
  entries = refl;
  others = (omega arith, (omega arith, tt));
  sorted = ((refl, tt), (tt, tt));
}

process_until-EndsAt_example :
    EndsAt 150 busy.timeout_scheduler.timeout_list (process_until sample_code 7 (finite 150) busy)
process_until-EndsAt_example =
    process_until-EndsAt sample_code (λ b c w m. (suc b, c, w, refl, refl, refl, refl)) 4 150 busy
      busy-IsReady (omega arith) (omega arith) (omega arith)
