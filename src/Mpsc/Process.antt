-- ===== src/Mpsc/Process.antt =====
-- How `MpscDispatcher` of src/mpsc_dispatcher.rs processes its messages. `none` is a panic.
pub mod Drain
pub mod Answers
pub mod Stopping
pub mod Serving
pub mod Contexts
pub mod Sending
pub mod Serial
use rtactor_rs.Base.{
  ℕ, suc, zero, ◌+◌, Bool, true, false, Option, none, some, List, [], ◌∷◌, ◌==◌, if◌then◌else◌,
  get_elem?, set, length,
}
use rtactor_rs.Actor.Channel.{Channel, RecvResult, received, empty, closed, try_recv}
use rtactor_rs.Actor.Message.{
  Env, Addr, invalid, actor_disappeared, Any, request_data, response_data, boxed, unit_result,
  ExecutableFn, user_fn, replace_fn, DispatcherRequest, register_reactive, execute_fn,
  stop_reactive, stop_dispatcher, registered, dispatcher_stopped, Message, request, ok_response,
  err_response, notification,
}
use rtactor_rs.Actor.World.{World, MessageAndDstId, update}
use rtactor_rs.Actor.Delivery.{receive_err_response}
use rtactor_rs.Reactive.Context.{Context, send_addr_id_response}
use rtactor_rs.Mpsc.Registry.{
  MpscDispatcher, Replaced, replaced, refused, get_behavior_index, replace_reactive,
}
use rtactor_rs.Mpsc.Registry as Registry

-- What user code does: a behaviour processes a message, and a function runs inside a dispatcher.
pub record UserCode (u : Env) : Type 0 where
  pub process_message :
      u.Behavior → Context → World u → Message u → Option (u.Behavior × Context × World u)
  pub call : u.Function → MpscDispatcher u → World u → Option (Any u × MpscDispatcher u × World u)

-- A dispatcher that runs, with its context and the shared state.
pub record Running (u : Env) : Type 0 where
  pub dispatcher : MpscDispatcher u
  pub context : Context
  pub world : World u

module _ {u : Env} where
  -- `self.rx.try_recv()`.
  unfoldable pub receive : ℕ → World u → World u × RecvResult (MessageAndDstId u)
  receive tx w =
      let (c, r) = try_recv (w.reactive_channels tx) in
      (record w { reactive_channels = update w.reactive_channels tx c }, r)

  -- A request that nobody will process is answered with `ActorDisappeared`; its data is boxed again.
  unfoldable pub refuse_request : Message u → World u → World u
  refuse_request (request src id d) w =
      (receive_err_response src id actor_disappeared (boxed d) w).0
  refuse_request _ w = w

  -- How often `drop_queued_messages` goes round at most: twice for a request, since the refusal may
  -- come to the same queue.
  unfoldable pub drain_fuel : List (MessageAndDstId u) → ℕ
  drain_fuel [] = 0
  drain_fuel (m ∷ ms) = elim m.message [
    | request src id d ↦ 2 + drain_fuel ms
    | _ ↦ 1 + drain_fuel ms
  ]

  -- The `while` of `drop_queued_messages`.
  pub drain : ℕ → ℕ → World u → World u
  drain zero tx w = w
  drain (suc fuel) tx w =
      let (w', r) = receive tx w in
      elim r [ received m ↦ drain fuel tx (refuse_request m.message w') | empty ↦ w' | closed ↦ w' ]

  -- `drop_queued_messages`.
  unfoldable pub drop_queued_messages : MpscDispatcher u → World u → World u
  unfolding drain drain_fuel
  drop_queued_messages m w = drain (suc (drain_fuel (w.reactive_channels m.tx).queue)) m.tx w

module _ {u : Env} (code : UserCode u) where
  -- The behaviour taken out of the cell of a registration, or the invalid address.
  unfoldable pub process_registration : Running u → Addr → ℕ → Option u.Behavior → Running u
  process_registration s src id none = record s {
    world = send_addr_id_response src id (response_data (registered invalid)) s.world;
  }
  process_registration s src id (some b) =
      let (a, m, w) = Registry.register_reactive s.dispatcher b s.world in
      record s {
        dispatcher = m;
        world = send_addr_id_response src id (response_data (registered a)) w;
      }

  was_replaced : {B : Type 0} → Replaced B → Bool
  was_replaced (replaced old) = true
  was_replaced (refused b) = false

  -- The call of the function of an `ExecuteFn` request; the closure of `replace_reactive_for` drops
  -- the behaviour that it is given back.
  unfoldable pub execute :
      ExecutableFn u → MpscDispatcher u → World u → Option (Any u × MpscDispatcher u × World u)
  unfolding was_replaced
  execute (user_fn f) m w = code.call f m w
  execute (replace_fn a b) m w =
      let (r, m') = replace_reactive m a b in (some (unit_result (was_replaced r), m', w))

  -- `process_dispatcher_message` on the data of a request; gives whether to stop.
  unfoldable pub process_dispatcher_request :
      Running u → Addr → ℕ → Any u → Option (Bool × Running u)
  unfolding process_registration drop_queued_messages execute
  process_dispatcher_request s src id (request_data (register_reactive b)) =
      some (false, process_registration s src id b)
  process_dispatcher_request s src id (request_data (execute_fn f)) =
      elim (execute f s.dispatcher s.world) [
        | none ↦ none
        | some (d, m, w) ↦
            some
              (false, record s { dispatcher = m; world = send_addr_id_response src id (boxed d) w })
      ]
  process_dispatcher_request s src id (request_data (stop_reactive a)) = some (false, s)
  process_dispatcher_request s src id (request_data stop_dispatcher) =
      let w = drop_queued_messages s.dispatcher s.world in
      some (
        true,
        record s {
          dispatcher = record (s.dispatcher) { reactive_list = [] };
          world = send_addr_id_response src id (response_data dispatcher_stopped) w;
        },
      )
  process_dispatcher_request s src id _ = none

  unfoldable pub process_dispatcher_message : Running u → Message u → Option (Bool × Running u)
  unfolding process_dispatcher_request
  process_dispatcher_message s (request src id d) = process_dispatcher_request s src id d
  process_dispatcher_message s _ = none

  -- The call of the behaviour at a position of `reactive_list`, which it changes in place.
  unfoldable pub react_at : Running u → ℕ → Option (ℕ × u.Behavior) → Message u → Option (Running u)
  react_at s i none m = none
  react_at s i (some (k, b)) m = elim (code.process_message b s.context s.world m) [
    | none ↦ none
    | some (b', c, w) ↦ some (record {
      dispatcher = record (s.dispatcher) {
        reactive_list = set s.dispatcher.reactive_list i (k, b');
      };
      context = c;
      world = w;
    })
  ]

  -- The message of a reactive actor.
  unfoldable pub process_reactive_message : Running u → Message u → Option (Running u)
  unfolding react_at refuse_request
  process_reactive_message s m = elim (get_behavior_index s.dispatcher s.context.own_actor_id) [
    | some i ↦ react_at s i (get_elem? s.dispatcher.reactive_list i) m
    | none ↦ some (record s { world = refuse_request m s.world })
  ]

  -- `process_current_message`.
  unfoldable pub process_current_message : Running u → MessageAndDstId u → Option (Bool × Running u)
  unfolding process_dispatcher_message process_reactive_message
  process_current_message s m =
      if m.dst_id == s.dispatcher.disp_actor_id
      then process_dispatcher_message s m.message
      else elim (process_reactive_message
          (record s { context = record (s.context) { own_actor_id = m.dst_id } }) m.message) [
            | none ↦ none
            | some s' ↦ some (false, s')
          ]

  -- `try_process_message`: whether a message was processed, and whether to stop.
  unfoldable pub try_process_message : Running u → Option ((Bool × Bool) × Running u)
  unfolding process_current_message receive
  try_process_message s =
      let (w, r) = receive s.dispatcher.tx s.world in
      let s' = record s { world = w } in
      elim r [
        | received m ↦ elim (process_current_message s' m) [
          | none ↦ none
          | some (stop, s'') ↦ some ((true, stop), s'')
        ]
        | empty ↦ some ((false, false), s')
        | closed ↦ some ((false, true), s')
      ]
