-- ===== src/Actor/Message.antt =====
-- The data of src/actor.rs, with the requests of src/dispatcher.rs that travel as its payload.
use rtactor_rs.Base.{ℕ, Bool, true, false, Option, List, compare, ◌==◌}
use Prim.Native.Nat.{Ordering}
use rtactor_rs.BTree.{Ord}
use rtactor_rs.Reactive.Instant.{Instant}
use rtactor_rs.Actor.Channel.{SendResult, RecvResult}

-- What the library takes from elsewhere: the user's behaviours, the functions that users send to a
-- dispatcher, their message data, and the bounded channels of the crate `async_channel`, of which
-- making one panics for some sizes; the strings of the standard library with their order, and `f64`; and the last
-- point in time that a `std::time::Instant` can stand for.
pub record Env : Type 1 where
  pub Behavior : Type 0
  pub Function : Type 0
  pub Value : Type 0
  pub AsyncChannel : Type 0 → Type 0
  pub async_bounded : (A : Type 0) → ℕ → Option (AsyncChannel A)
  pub async_try_send : (A : Type 0) → AsyncChannel A → A → AsyncChannel A × SendResult A
  pub Text : Type 0
  pub text_ord : Ord Text
  pub Float : Type 0
  pub last_instant : ℕ
  pub async_try_recv : (A : Type 0) → AsyncChannel A → AsyncChannel A × RecvResult A

-- `Error`.
pub data Error : Type 0 where
  addr_unreachable queue_full broken_receive actor_disappeared timeout no_message downcast_failed :
      Error

-- `AddrKind` inside `Addr`. A `Sender` is the number of its channel in the store of the channels of its kind.
pub data Addr : Type 0 where
  invalid : Addr
  reactive : ℕ → ℕ → Addr
  active : ℕ → ℕ → Addr
  async : ℕ → ℕ → Addr

-- `MetricEntry` of src/profiled_actor.rs.
pub record MetricEntry (u : Env) : Type 0 where
  pub name : u.Text
  pub value : u.Float

-- `ActorSelection`, `Request` and `Response` of src/profiling_aggregator.rs.
pub data ActorSelection (u : Env) : Type 0 where
  all_actors : ActorSelection u
  selected_names : List u.Text → ActorSelection u
  selected_addresses : List Addr → ActorSelection u

pub data AggregatorRequest (u : Env) : Type 0 where
  register_observer unregister_observer : Addr → AggregatorRequest u
  register_profiled_actors : List (u.Text × Addr) → AggregatorRequest u
  unregister_profiled_actors : ActorSelection u → AggregatorRequest u

pub data AggregatorResponse : Type 0 where
  observer_registered observer_unregistered actors_registered actors_unregistered :
      AggregatorResponse

-- The functions that a dispatcher executes: a user's, and the one of `replace_reactive_for`.
pub data ExecutableFn (u : Env) : Type 0 where
  user_fn : u.Function → ExecutableFn u
  replace_fn : Addr → u.Behavior → ExecutableFn u

-- `dispatcher::Request`; the cell of a registration holds a behaviour until it is taken.
pub data DispatcherRequest (u : Env) : Type 0 where
  register_reactive : Option u.Behavior → DispatcherRequest u
  stop_reactive : Addr → DispatcherRequest u
  stop_dispatcher : DispatcherRequest u
  execute_fn : ExecutableFn u → DispatcherRequest u

-- `Box<dyn Any + Send>` by the type inside: one constructor for each type that the library puts
-- there, and `value` for the user's. `metrics_request` and `metrics_response` are `GetMetrics` of
-- src/profiled_actor.rs with what its cell holds, and the four after them are messages of
-- src/profiling_aggregator.rs and of its observers. `unit_result` is a `Result<(), ()>`, and `boxed` and `whole` are
-- a box and a message inside a box.
mutual
  pub data Any (u : Env) : Type 0 where
    nothing : Any u
    timeout_id : ℕ → Any u
    request_data : DispatcherRequest u → Any u
    response_data : DispatcherResponse u → Any u
    unit_result : Bool → Any u
    metrics_request metrics_response : Option (List (MetricEntry u)) → Any u
    aggregator_request : AggregatorRequest u → Any u
    aggregator_response : AggregatorResponse → Any u
    snapshot_metrics : ActorSelection u → Any u
    metric_update : Instant → List (u.Text × List (MetricEntry u)) → Any u
    value : u.Value → Any u
    boxed : Any u → Any u
    whole : Message u → Any u

  pub data DispatcherResponse (u : Env) : Type 0 where
    registered : Addr → DispatcherResponse u
    reactive_stopped : u.Behavior → DispatcherResponse u
    dispatcher_stopped : DispatcherResponse u
    executed : Any u → DispatcherResponse u

  pub data Message (u : Env) : Type 0 where
    request : Addr → ℕ → Any u → Message u
    ok_response : ℕ → Any u → Message u
    err_response : ℕ → Error → Any u → Message u
    notification : Any u → Message u

-- `Addr::actor_id`.
unfoldable pub actor_id : Addr → ℕ
actor_id invalid = 0
actor_id (reactive tx dst) = dst
actor_id (active id tx) = id
actor_id (async id tx) = id

-- `Addr::is_valid`.
unfoldable pub is_valid : Addr → Bool
is_valid invalid = false
is_valid _ = true

-- `PartialEq` and `Ord` of addresses: by the actor's id alone.
unfoldable pub addr_eq : Addr → Addr → Bool
unfolding actor_id
addr_eq a b = actor_id a == actor_id b

unfoldable pub addr_cmp : Addr → Addr → Ordering
unfolding actor_id
addr_cmp a b = compare (actor_id a) (actor_id b)

-- `Message::new`, and `Response::id_eq` on the id of a response.
abbrev pub new_message : {u : Env} → Message u
new_message = notification nothing

abbrev pub id_eq : ℕ → ℕ → Bool
id_eq request_id id = request_id == id
