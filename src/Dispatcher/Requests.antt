-- ===== src/Dispatcher/Requests.antt =====
-- What an accessor returns for a request, against what the dispatcher does with it.
use rtactor_rs.Base.{
  ℕ, ◌+◌, ◌<◌, ◌≡◌, refl, Bool, true, false, inl, inr, Option, none, some, List, ◌∷◌, arith,
  wrapping_suc, u64_mod,
}
use rtactor_rs.Actor.Message.{
  Env, Error, timeout, broken_receive, actor_disappeared, Addr, invalid, reactive, active, async,
  is_valid, Any, request_data, response_data, unit_result, boxed, ExecutableFn, replace_fn,
  register_reactive, execute_fn, registered, ok_response, err_response,
}
use rtactor_rs.Actor.World.{World, Result, ok, err, generate_actor_id}
use rtactor_rs.Reactive.Context.{send_addr_id_response}
use rtactor_rs.Active.Mailbox.{
  RecvTimeout, arrived, timed_out, disconnected, request_for, request_loop, request_round,
}
use rtactor_rs.Active.Mailbox as Active
use rtactor_rs.Mpsc.Registry.{MpscDispatcher, replaced, refused, replace_reactive}
use rtactor_rs.Mpsc.Registry as Registry
use rtactor_rs.Mpsc.Registry.Lookup.{behavior_at}
use rtactor_rs.Mpsc.Registry.Operations.{
  IsValid, behavior_of, register_reactive_lem, replace_reactive_lem,
}
use rtactor_rs.Mpsc.Process.{UserCode, Running, process_dispatcher_request, execute}
use rtactor_rs.Dispatcher.{
  SyncAccessor, returns, panics, register_reactive_for, run_fn, replace_reactive_for,
  stop_dispatcher_for, register_reactive_unwrap, replace_reactive_unwrap, replaced_result,
}

-- The accessor after one more request, and that request's id.
abbrev pub request_id : {u : Env} → SyncAccessor u → ℕ
request_id a = wrapping_suc a.mailbox.last_request_id

abbrev pub after_request : {u : Env} → SyncAccessor u → SyncAccessor u
after_request a = record a { mailbox = record (a.mailbox) { last_request_id = request_id a } }

-- How a wait fails, if it does.
abbrev pub failure : {u : Env} → RecvTimeout u → Option Error
failure (arrived (err_response id e d)) = some e
failure (arrived m) = none
failure timed_out = some timeout
failure disconnected = some broken_receive

module _ {u : Env} {T : Type 0} (downcast : Any u → Option T) where
  -- When the wait for the response fails, registering and stopping return its error, but executing a
  -- function and replacing panic, as the functions do that unwrap.
  pub failed_requests :
      (a : SyncAccessor u) (f : ExecutableFn u) (dst : Addr) (b : u.Behavior) (w : World u)
      (o : RecvTimeout u) (os : List (RecvTimeout u)) (e : Error)
      → failure o ≡ some e
      → is_valid a.disp_addr ≡ true
      → ((register_reactive_for a b w (o ∷ os)).1 ≡ some (err e, after_request a, os))
        × ((stop_dispatcher_for a w (o ∷ os)).1 ≡ some (err e, after_request a, os))
        × ((run_fn downcast a f w (o ∷ os)).1 ≡ some (panics, after_request a, os))
        × ((replace_reactive_for a dst b w (o ∷ os)).1 ≡ some (panics, after_request a, os))
        × ((register_reactive_unwrap a b w (o ∷ os)).1 ≡ some (panics, after_request a, os))
        × ((replace_reactive_unwrap a dst b w (o ∷ os)).1 ≡ some (panics, after_request a, os))
  unfolding register_reactive_for stop_dispatcher_for run_fn replace_reactive_for
      register_reactive_unwrap replace_reactive_unwrap request_for request_loop request_round
  failed_requests a f dst b w (arrived (err_response id e' d)) os e h v = ground arith
  failed_requests a f dst b w timed_out os e h v = ground arith
  failed_requests a f dst b w disconnected os e h v = ground arith
  failed_requests a f dst b w (arrived m) os e h v = absurd (ground arith)

abbrev pub replaced_if : {B : Type 0} → Option B → Result (Unit {0})
replaced_if none = err actor_disappeared
replaced_if (some old) = ok tt

abbrev pub bound_if : {B : Type 0} → Option B → B → Option B
bound_if none b = none
bound_if (some old) b = some b

module _ {u : Env} (code : UserCode u) where
  -- The request of a registration gets a response from the dispatcher with which the accessor returns
  -- an address, and that leads to the behaviour in the dispatcher, as long as the counter of ids does
  -- not wrap.
  pub register_reactive_for-process_dispatcher_request :
      (a : SyncAccessor u) (b : u.Behavior) (s : Running u) (w : World u)
      (os : List (RecvTimeout u))
      → IsValid s.dispatcher s.world
      → s.world.next_actor_id + 1 < u64_mod
      → (r : Any u) × (s' : Running u) × (dst : Addr) × (process_dispatcher_request code s
            (Active.addr a.mailbox)
            (request_id a)
            (request_data (register_reactive (some b)))
          ≡ some (false, s'))
        × (s'.world
            ≡ send_addr_id_response
                (Active.addr a.mailbox)
                (request_id a)
                r
                (generate_actor_id s.world).1)
        × ((register_reactive_for a b w (arrived (ok_response (request_id a) r) ∷ os)).1
            ≡ some (ok dst, after_request a, os))
        × (behavior_of s'.dispatcher dst ≡ some b)
  unfolding process_dispatcher_request register_reactive_for request_for request_loop request_round
      Registry.register_reactive generate_actor_id
  register_reactive_for-process_dispatcher_request a b s w os v h =
      let dst = reactive s.dispatcher.tx s.world.next_actor_id in
      let bound = register_reactive_lem s.dispatcher b s.world s.world.next_actor_id v h in
      (response_data (registered dst), _, dst, refl, refl, ground arith, ground (arith, bound))

  replace_fn-reactive :
      (m : MpscDispatcher u) (w : World u) (tx id : ℕ) (b : u.Behavior)
      → IsValid m w
      → (r : Bool) × (m' : MpscDispatcher u) × (execute code (replace_fn (reactive tx id) b) m w
          ≡ some (unit_result r, m', w))
        × (replaced_result (returns (ok r))
            ≡ returns (replaced_if (behavior_at id m.reactive_list)))
        × (behavior_at id m'.reactive_list ≡ bound_if (behavior_at id m.reactive_list) b)
  unfolding execute replaced_result
  replace_fn-reactive m w tx id b v =
      let (r, m') = replace_reactive m (reactive tx id) b in
      elim (replace_reactive_lem m (reactive tx id) b w id v) [
        | inl p ↦ (false, m', ground (arith, p), ground (arith, p), ground (arith, p))
        | inr p ↦ (true, m', ground (arith, p), ground (arith, p), ground (arith, p))
      ]

  replace_fn-replaced_if :
      (m : MpscDispatcher u) (w : World u) (dst : Addr) (b : u.Behavior)
      → IsValid m w
      → (r : Bool) × (m' : MpscDispatcher u) × (execute code (replace_fn dst b) m w
          ≡ some (unit_result r, m', w))
        × (replaced_result (returns (ok r)) ≡ returns (replaced_if (behavior_of m dst)))
        × (behavior_of m' dst ≡ bound_if (behavior_of m dst) b)
  unfolding execute replaced_result replace_reactive
  replace_fn-replaced_if m w invalid b v = (false, m, refl, refl, refl)
  replace_fn-replaced_if m w (reactive tx id) b v = replace_fn-reactive m w tx id b v
  replace_fn-replaced_if m w (active id tx) b v = (false, m, refl, refl, refl)
  replace_fn-replaced_if m w (async id tx) b v = (false, m, refl, refl, refl)

  -- The request of a replacement gets a response from the dispatcher with which the accessor returns
  -- normally if a behaviour was registered at the address, and `ActorDisappeared` if not; the address
  -- then leads to the new behaviour, or still to none.
  replace_reactive_for-process_dispatcher_request :
      (a : SyncAccessor u) (dst : Addr) (b : u.Behavior) (s : Running u) (w : World u)
      (os : List (RecvTimeout u))
      → IsValid s.dispatcher s.world
      → (r : Any u) × (s' : Running u) × (process_dispatcher_request code s
            (Active.addr a.mailbox)
            (request_id a)
            (request_data (execute_fn (replace_fn dst b)))
          ≡ some (false, s'))
        × (s'.world ≡ send_addr_id_response (Active.addr a.mailbox) (request_id a) r s.world)
        × ((replace_reactive_for a dst b w (arrived (ok_response (request_id a) r) ∷ os)).1
            ≡ some (returns (replaced_if (behavior_of s.dispatcher dst)), after_request a, os))
        × (behavior_of s'.dispatcher dst ≡ bound_if (behavior_of s.dispatcher dst) b)
  unfolding process_dispatcher_request replace_reactive_for request_for request_loop request_round
  replace_reactive_for-process_dispatcher_request a dst b s w os v =
      let (r, m', e, given, bound) = replace_fn-replaced_if s.dispatcher s.world dst b v in
      (
        boxed (unit_result r),
        record s {
          dispatcher = m';
          world =
              send_addr_id_response (Active.addr a.mailbox) (request_id a) (boxed (unit_result r))
                s.world;
        },
        ground arith,
        refl,
        ground arith,
        bound,
      )
