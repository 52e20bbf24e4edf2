-- ===== src/Tests/Spawning.antt =====
-- A dispatcher that is spawned, with the sample code.
use rtactor_rs.Base.{ℕ, ◌≡◌, refl, sym, append-nil, Option, none, some, [], ◌∷◌, arith}
use rtactor_rs.Actor.Message.{reactive, Any, value, boxed, ok_response}
use rtactor_rs.Actor.World.{World, generate_actor_id}
use rtactor_rs.Active.Mailbox.{arrived}
use rtactor_rs.Reactive.Instant.{finite}
use rtactor_rs.Reactive.Context.{Context}
use rtactor_rs.Active.Mailbox as Active
use rtactor_rs.Mpsc.Builder as Builder
use rtactor_rs.Mpsc.Loop.{Tick}
use rtactor_rs.Mpsc.Spawn.{spawn_dispatcher, spawn_dispatcher-process}
use rtactor_rs.Dispatcher.{returns}
use rtactor_rs.Dispatcher as Dispatcher
use rtactor_rs.Tests.Sample.{sample_env, sample_world, sample_code}

abbrev as_value : Any sample_env → Option ℕ
as_value (value n) = some n
as_value _ = none

abbrev quiet : World sample_env
quiet = sample_world [] []

abbrev calm : Tick sample_env
calm = record { others = λ w. w; now = 30 }

abbrev context : Context
context = record {
  tx = 1;
  own_actor_id = 0;
  request_id_counter = 0;
  clock = finite 0;
  scheduler = record { timeout_list = []; next_timeout_id = 0 };
}

spawn_dispatcher-process_example :
    (spawn_dispatcher as_value 2 7 quiet (arrived (ok_response 1 (boxed (value 7))) ∷ [])).output
    ≡ some (reactive 1 5, returns 7)
unfolding spawn_dispatcher Dispatcher.dispatcher_addr Builder.to_accessor Active.new Builder.new
    generate_actor_id
spawn_dispatcher-process_example =
    (spawn_dispatcher-process sample_code as_value 2 7 quiet [] calm context [] (value 7) _ _ 7
      (omega arith) (sym (append-nil _)) refl refl).1
