-- ===== src/Tests/Accessors.antt =====
-- An accessor of the sample dispatcher, and an async mailbox.
use rtactor_rs.Base.{ℕ, ◌≡◌, refl, false, Option, none, some, List, [], ◌∷◌, arith}
use rtactor_rs.Actor.Message.{
  Addr, is_valid, reactive, Any, value, request_data, register_reactive, user_fn, ok_response,
  notification, timeout,
}
use rtactor_rs.Actor.World.{World, ok, err, generate_actor_id}
use rtactor_rs.Reactive.Context.{send_addr_id_response}
use rtactor_rs.Reactive.Instant.{finite}
use rtactor_rs.Active.Mailbox.{RecvTimeout, arrived, timed_out, disconnected}
use rtactor_rs.Active.Mailbox as Active
use rtactor_rs.Async.Mailbox.{AsyncMailbox}
use rtactor_rs.Async.Mailbox as Async
use rtactor_rs.Async.Mailbox.Requests.{
  as_active, blur_all, outcome_as_active, request_loop-as_active,
}
use rtactor_rs.Mpsc.Registry.Operations.{IsValid, behavior_of}
use rtactor_rs.Mpsc.Process.{Running, process_dispatcher_request}
use rtactor_rs.Dispatcher.{
  SyncAccessor, panics, register_reactive_for, run_fn, replace_reactive_for, stop_dispatcher_for,
  register_reactive_unwrap, replace_reactive_unwrap,
}
use rtactor_rs.Dispatcher.Requests.{
  after_request, failed_requests, register_reactive_for-process_dispatcher_request,
}
use rtactor_rs.Tests.Sample.{sample_env, sample_world, sample_code, sample_dispatcher}

abbrev as_value : Any sample_env → Option ℕ
as_value (value n) = some n
as_value _ = none

abbrev async_mailbox : AsyncMailbox sample_env
async_mailbox = record { id = 3; tx = 0; last_request_id = 8; message_list = [] }

abbrev late_and_time_out : List (RecvTimeout sample_env)
late_and_time_out =
    arrived (ok_response 7 (value 1)) ∷ arrived (notification (value 3)) ∷ timed_out ∷ []

request_loop-as_active_example :
    Active.request_loop as_value 8 (as_active async_mailbox) (blur_all late_and_time_out)
    ≡ outcome_as_active as_value (Async.request_loop as_value 8 async_mailbox late_and_time_out)
request_loop-as_active_example = request_loop-as_active as_value 8 async_mailbox late_and_time_out

abbrev accessor : SyncAccessor sample_env
accessor = record {
  mailbox = record { id = 3; tx = 0; last_request_id = 8; message_list = [] };
  disp_addr = reactive 0 1;
}

abbrev quiet : World sample_env
quiet = sample_world [] []

abbrev sample_running : Running sample_env
sample_running = record {
  dispatcher = sample_dispatcher;
  context = record {
    tx = 0;
    own_actor_id = 0;
    request_id_counter = 0;
    clock = finite 100;
    scheduler = record { next_timeout_id = 0; timeout_list = [] };
  };
  world = quiet;
}

sample_running-IsValid : IsValid sample_dispatcher quiet
sample_running-IsValid = record { ordered = omega arith; own_given = omega arith; own_free = refl }

failed_requests_example :
    ((register_reactive_for accessor 5 quiet (timed_out ∷ [])).1
      ≡ some (err timeout, after_request accessor, []))
    × ((stop_dispatcher_for accessor quiet (timed_out ∷ [])).1
        ≡ some (err timeout, after_request accessor, []))
    × ((run_fn as_value accessor (user_fn 4) quiet (timed_out ∷ [])).1
        ≡ some (panics, after_request accessor, []))
    × ((replace_reactive_for accessor (reactive 0 4) 5 quiet (timed_out ∷ [])).1
        ≡ some (panics, after_request accessor, []))
    × ((register_reactive_unwrap accessor 5 quiet (timed_out ∷ [])).1
        ≡ some (panics, after_request accessor, []))
    × ((replace_reactive_unwrap accessor (reactive 0 4) 5 quiet (timed_out ∷ [])).1
        ≡ some (panics, after_request accessor, []))
unfolding is_valid
failed_requests_example =
    failed_requests as_value accessor (user_fn 4) (reactive 0 4) 5 quiet timed_out [] timeout refl
      refl

register_reactive_for-process_dispatcher_request_example :
    (r : Any sample_env) × (s' : Running sample_env) × (dst : Addr) × (process_dispatcher_request
        sample_code sample_running
        (Active.addr accessor.mailbox)
        9
        (request_data (register_reactive (some 5)))
      ≡ some (false, s'))
    × (s'.world
        ≡ send_addr_id_response (Active.addr accessor.mailbox) 9 r (generate_actor_id quiet).1)
    × ((register_reactive_for accessor 5 quiet (arrived (ok_response 9 r) ∷ [])).1
        ≡ some (ok dst, after_request accessor, []))
    × (behavior_of s'.dispatcher dst ≡ some 5)
register_reactive_for-process_dispatcher_request_example =
    register_reactive_for-process_dispatcher_request sample_code accessor 5 sample_running quiet []
      sample_running-IsValid (omega arith)
