-- ===== src/Simulation/Setup.antt =====
-- How a `SimulationDispatcher` of src/simulation.rs is made, and what it passes on to its dispatcher.
use rtactor_rs.Base.{ℕ, none, some}
use rtactor_rs.Actor.Message.{Env, Addr}
use rtactor_rs.Actor.World.{World}
use rtactor_rs.Reactive.Instant.{Instant, finite, add}
use rtactor_rs.Reactive.Scheduler as Scheduler
use rtactor_rs.Mpsc.Registry.{Replaced}
use rtactor_rs.Mpsc.Registry as Registry
use rtactor_rs.Mpsc.Builder as Builder
use rtactor_rs.Mpsc.Process.{UserCode}
use rtactor_rs.Simulation.{
  SimulatedInstantSource, SimulationDispatcher, Run, panicked, BreakFunc, process_until_cond,
}

-- `SimulatedInstantSource::new`, at the time that the system clock shows, and `now`.
unfoldable pub new_source : ℕ → SimulatedInstantSource
new_source system_now = record { elapsed_duration = 0; simulated_now = system_now }

unfoldable pub source_now : SimulatedInstantSource → Instant
source_now s = finite s.simulated_now

module _ {u : Env} where
  -- `SimulationDispatcher::new`.
  unfoldable pub new : ℕ → ℕ → World u → SimulationDispatcher u
  unfolding Builder.new Builder.build new_source Scheduler.new
  new system_now queue_size w =
      let (b, w') = Builder.new queue_size w in
      record {
        disp = Builder.build b;
        timeout_scheduler = Scheduler.new;
        instant_source = new_source system_now;
        request_id_counter_backup = 0;
        world = w';
      }

  -- `addr`.
  unfoldable pub addr : SimulationDispatcher u → Addr
  addr d = Registry.addr d.disp

  -- `register_reactive`.
  unfoldable pub register_reactive :
      SimulationDispatcher u → u.Behavior → Addr × SimulationDispatcher u
  register_reactive d b =
      let (a, m, w) = Registry.register_reactive d.disp b d.world in
      (a, record d { disp = m; world = w })

  -- `replace_reactive`.
  unfoldable pub replace_reactive :
      SimulationDispatcher u → Addr → u.Behavior → Replaced u.Behavior × SimulationDispatcher u
  replace_reactive d a b =
      let (r, m) = Registry.replace_reactive d.disp a b in (r, record d { disp = m })

  -- `now`.
  unfoldable pub now : SimulationDispatcher u → Instant
  unfolding source_now
  now d = source_now d.instant_source

module _ {u : Env} {S : Type 0} (code : UserCode u) (break_func : BreakFunc u S) where
  -- `process_for_cond`.
  unfoldable pub process_for_cond :
      ℕ → ℕ → S → SimulationDispatcher u → Run (S × SimulationDispatcher u)
  unfolding now
  process_for_cond fuel duration f d = elim (add u.last_instant (now d) duration) [
    | none ↦ panicked
    | some instant ↦ process_until_cond code break_func fuel instant f d
  ]
