-- ===== src/Tests/Punctuality.antt =====
-- A simulated run with a behaviour that schedules its next timeout whenever it gets a message.
use mathlib.Core.Option
use rtactor_rs.Base.{Option-cases, inl, inr, suc, ◌≡◌, refl, some, [], ◌∷◌, subst, arith}
use rtactor_rs.BTree.{insert, remove}
use rtactor_rs.Actor.Channel.{try_recv}
use rtactor_rs.Actor.Message.{value, notification}
use rtactor_rs.Actor.World.{send_reactive, send_on}
use rtactor_rs.Reactive.Instant.{finite, saturating_sub, add}
use rtactor_rs.Reactive.Timer as Timer
use rtactor_rs.Reactive.Scheduler.{schedule_until, unschedule}
use rtactor_rs.Reactive.Context.{
  Context, schedule_timer_for, schedule_timer_until, try_send_next_pending_timeout, send_timeout,
  store_back,
}
use rtactor_rs.Reactive.Context as Context
use rtactor_rs.Reactive.Context.Punctual.{IsPunctual, schedule_timer_for-IsPunctual}
use rtactor_rs.Mpsc.Registry.{get_behavior_index, index_of}
use rtactor_rs.Mpsc.Process.{UserCode, try_process_message}
use rtactor_rs.Simulation.{
  SimulationDispatcher, finished, never, process_until_cond, until_round, process_queued,
  process_one, next_timeout, advance,
}
use rtactor_rs.Simulation.Punctual.{KeepsPunctual, Waits, process_until_cond-Ahead}
use rtactor_rs.Tests.Sample.{sample_env, sample_world}
use rtactor_rs.Tests.Simulations.{simulation, final}

abbrev periodic_code : UserCode sample_env
periodic_code = record {
  process_message = λ b c w m.
      Option.map (λ s. (suc b, s.1, w)) (schedule_timer_for sample_env.last_instant c Timer.new 10);
  call = λ f m w. some (value f, m, w);
}

periodic-KeepsPunctual : KeepsPunctual periodic_code
periodic-KeepsPunctual now b b' c c' w w' m p e =
    elim (Option-cases (schedule_timer_for sample_env.last_instant c Timer.new 10)) [
      | inl n ↦ absurd (ground arith)
      | inr ((t, k), q) ↦
          let same : k ≡ c' = ground arith in
          subst (IsPunctual now) same
            (schedule_timer_for-IsPunctual now sample_env.last_instant 10 c k Timer.new t p q)
    ]

abbrev first : SimulationDispatcher sample_env
first = simulation (sample_world (record { message = notification (value 1); dst_id = 2 } ∷ []) [])

last : SimulationDispatcher sample_env
unfolding process_until_cond
last = (final (tt, first) (process_until_cond periodic_code never 12 (finite 125) tt first)).1

periodic_run : process_until_cond periodic_code never 12 (finite 125) tt first ≡ finished (tt, last)
unfolding last process_until_cond until_round process_queued process_one try_process_message
    try_recv get_behavior_index index_of next_timeout try_send_next_pending_timeout Context.new
    advance schedule_timer_for schedule_until unschedule send_reactive send_on saturating_sub
    Timer.cmp Timer.new insert remove add
periodic_run = refl

-- Timeouts came at 110 and 120, and the next is due at 130.
test_last :
    (last.disp.reactive_list ≡ (2, 3) ∷ (4, 7) ∷ [])
    × (last.timeout_scheduler.timeout_list ≡ (record { id = 2; deadline = finite 130 }, 2) ∷ [])
unfolding last process_until_cond until_round process_queued process_one try_process_message
    try_recv get_behavior_index index_of next_timeout try_send_next_pending_timeout Context.new
    advance schedule_timer_for schedule_until unschedule send_reactive send_on saturating_sub
    Timer.cmp Timer.new insert remove add
test_last = (refl, refl)

process_until_cond-Ahead_example : Waits last
process_until_cond-Ahead_example =
    process_until_cond-Ahead periodic_code never periodic-KeepsPunctual 12 (finite 125) tt tt first
      last (omega arith) (tt, tt) periodic_run
