-- ===== src/Mocker/Calls.antt =====
-- A test in a simulation: an accessor of src/simulation.rs on a mocker of src/reactive_mocker.rs.
use mathlib.Core.Option
use rtactor_rs.Base.{
  ℕ, suc, ◌+◌, ◌<◌, ◌≡◌, ◌≢◌, refl, ap, ◌∙◌, Option, some, arith, ◌==◌, if◌then◌else◌, u64_mod,
  true,
}
use rtactor_rs.Actor.Channel.{sync_channel}
use rtactor_rs.Actor.Message.{Env, Addr, invalid, reactive, Any, Message}
use rtactor_rs.Actor.World.{World, ok, generate_actor_id}
use rtactor_rs.Reactive.Instant.{Instant, finite, add}
use rtactor_rs.Reactive.Context.{Context, send_addr_id_response}
use rtactor_rs.Active.Mailbox.{ActiveMailbox, generate_request_id}
use rtactor_rs.Active.Mailbox as Active
use rtactor_rs.Accessors.{new_sim, sim_call, method_result}
use rtactor_rs.Mocker.{ReactiveMocker, Reactive, process_message, new, register, addr_of}
use rtactor_rs.Mpsc.Free.{IsFree, Answers}
use rtactor_rs.Mpsc.Process.{UserCode}
use rtactor_rs.Mpsc.Registry as Registry
use rtactor_rs.Mpsc.Registry.{build_owned_reactive_addr}
use rtactor_rs.Mpsc.Registry.Lookup.{behavior_at}
use rtactor_rs.Mpsc.Registry.Operations.{IsValid, behavior_of, register_reactive_lem}
use rtactor_rs.Simulation.{SimulationDispatcher, finished, never}
use rtactor_rs.Simulation.Requests.{
  active_request_for, active_request_until, active_request_until_cond, map_run,
}
use rtactor_rs.Simulation.Requests.Answered.{active_request-Answers}
use rtactor_rs.Simulation.Setup as Setup

-- The mocker that a dispatcher owns.
abbrev pub owned : {M T : Type 0} → M → T → ReactiveMocker M T
owned m t = record { addr = invalid; mock = m; data_of = t }

module _ {u : Env} {M T : Type 0} (code : UserCode u) (mocks : Reactive u M T)
    (boxed_as : ReactiveMocker M T → u.Behavior) where
  -- A boxed mocker behaves as the mocker.
  abbrev pub RunsMocks : Type 0
  RunsMocks =
      (r : ReactiveMocker M T) (c : Context) (w : World u) (m : Message u)
      → code.process_message (boxed_as r) c w m
        ≡ Option.map (λ s. (boxed_as s.0, s.1, s.2)) (process_message mocks r c w m)

  -- The mock answers a request and changes the data of the test.
  abbrev pub MockAnswers : M → T → M → T → Any u → Any u → Type 0
  MockAnswers m t m' t' payload reply =
      (c : Context) (w : World u) (src : Addr) (id : ℕ)
      → mocks.process_request m t c w src id payload
        ≡ some (m', t', c, send_addr_id_response src id reply w)

  owned-Answers :
      (m m' : M) (t t' : T) (payload reply : Any u)
      → RunsMocks
      → MockAnswers m t m' t' payload reply
      → Answers code (boxed_as (owned m t)) (boxed_as (owned m' t')) payload reply
  unfolding process_message
  owned-Answers m m' t t' payload reply runs answers c w src id =
      rw (runs (owned m t) c w _, process_message) (rw (answers c w src id) refl)

  new_sim-IsFree :
      (target : Addr) (w : World u)
      → let (a, w') = new_sim target w in IsFree (w'.active_channels a.mailbox.tx)
  unfolding new_sim Active.new sync_channel generate_actor_id
  new_sim-IsFree target w = record {
    receiver = ground arith;
    roomy = ground arith;
    quiet = ground arith;
  }

  addr_of-new :
      (m : M) (t : T) (d : SimulationDispatcher u)
      → addr_of (new boxed_as m t d).0 ≡ reactive d.disp.tx d.world.next_actor_id
  unfolding new register addr_of Setup.register_reactive Registry.register_reactive
      build_owned_reactive_addr generate_actor_id
  addr_of-new m t d = refl

  behavior_at-new :
      (m : M) (t : T) (d : SimulationDispatcher u)
      → IsValid d.disp d.world
      → d.world.next_actor_id + 1 < u64_mod
      → behavior_at d.world.next_actor_id (new boxed_as m t d).1.disp.reactive_list
        ≡ some (boxed_as (owned m t))
  unfolding new register Setup.register_reactive
  behavior_at-new m t d v h =
      let (k, l, p, at) =
        register_reactive_lem d.disp (boxed_as (owned m t)) d.world d.world.next_actor_id v h in
      ground (arith, at)

module _ {u : Env} {M T R V : Type 0} (code : UserCode u) (mocks : Reactive u M T)
    (boxed_as : ReactiveMocker M T → u.Behavior) (downcast : Any u → Option R)
    (matches : R → Option V) where
  method_result-ok :
      (response : R) (out : V)
      → matches response ≡ some out
      → method_result matches (ok response) ≡ ok out
  unfolding method_result
  method_result-ok response out e = rw (e, method_result) refl

  -- The instant at the end of a duration, where it can be shown.
  active_request_for-shown :
      (fuel : ℕ) (b : ActiveMailbox u) (dst : Addr) (payload : Any u) (duration : ℕ)
      (instant : Instant) (d : SimulationDispatcher u)
      → add u.last_instant (finite d.instant_source.simulated_now) duration ≡ some instant
      → active_request_for code downcast fuel b dst payload duration d
        ≡ active_request_until_cond code never downcast fuel b dst payload instant tt d
  unfolding active_request_for active_request_until
  active_request_for-shown fuel b dst payload duration instant d e = rw (e, active_request_for) refl

  -- A test with a new mocker in a simulation, and a new accessor on its address: a generated method
  -- returns what its variant of the response of the mock holds, in no simulated time, and the mocker
  -- has what the mock made of the data of the test. The code of the users runs a boxed mocker as the
  -- mocker, and the mock answers the request with a response of that variant; the dispatcher is
  -- well-formed, the counter of ids does not wrap, and nothing waits in the queue of the dispatcher,
  -- which has room for a message; the end of the duration is an instant that can be shown, or
  -- infinity. Two units of fuel are enough.
  pub sim_call-MockAnswers :
      (n : ℕ) (m m' : M) (t t' : T) (payload reply : Any u) (response : R) (out : V) (duration : ℕ)
      (instant : Instant) (d : SimulationDispatcher u)
      → RunsMocks code mocks boxed_as
      → MockAnswers code mocks boxed_as m t m' t' payload reply
      → downcast reply ≡ some response
      → matches response ≡ some out
      → IsValid d.disp d.world
      → d.world.next_actor_id + 1 < u64_mod
      → IsFree (d.world.reactive_channels d.disp.tx)
      → add u.last_instant (finite d.instant_source.simulated_now) duration ≡ some instant
      → let (r, d₁) = new boxed_as m t d in
        let (a, w) = new_sim (addr_of r) d₁.world in
        (d' : SimulationDispatcher u) × (sim_call downcast matches code
            (suc (suc n))
            a
            payload
            duration
            (record d₁ { world = w })
          ≡ finished (ok out, record a { mailbox = (generate_request_id a.mailbox).1 }, d'))
        × (behavior_of d'.disp (addr_of r) ≡ some (boxed_as (owned m' t')))
        × (d'.instant_source ≡ d.instant_source)
  unfolding new register Setup.register_reactive Registry.register_reactive generate_actor_id
      new_sim Active.new addr_of build_owned_reactive_addr sim_call map_run
  sim_call-MockAnswers n m m' t t' payload reply response out duration instant d runs answers typed
        matched v h its shown =
      let (r, d₁) = new boxed_as m t d in
      let (a, w) = new_sim (addr_of r) d₁.world in
      let j = d.world.next_actor_id in
      let other : j ≢ d.disp.disp_actor_id = let given = v.own_given in omega (arith, given) in
      let (d', call, source, timers, behaviors) =
        active_request-Answers code never downcast n j a.mailbox payload reply response instant tt
          (record d₁ { world = w }) (boxed_as (owned m t)) (boxed_as (owned m' t'))
          (owned-Answers code mocks boxed_as m m' t t' payload reply runs answers) typed
          (behavior_at-new code mocks boxed_as m t d v h) other refl
          (new_sim-IsFree code mocks boxed_as (addr_of r) d₁.world) its in
      let itself : (j == j) ≡ true = ground arith in
      (
        d',
        ap (map_run (λ s. (method_result matches s.0, record a { mailbox = s.1 }, s.3))) (
              active_request_for-shown (suc (suc n)) a.mailbox a.target_addr payload duration
                instant (record d₁ { world = w }) shown
              ∙ call)
            ∙ ap (λ z. finished (z, record a { mailbox = (generate_request_id a.mailbox).1 }, d'))
                (method_result-ok response out matched),
        behaviors j
            ∙ ap
                (λ c.
                  if c then some (boxed_as (owned m' t')) else behavior_at j d₁.disp.reactive_list)
                itself,
        source,
      )
