-- ===== src/Mpsc/Loop.antt =====
-- `MpscDispatcher::process` of src/mpsc_dispatcher.rs, among other threads that send to its queue.
pub mod Timeouts
pub mod Sleep
pub mod Order
pub mod Fifo
use rtactor_rs.Base.{
  ℕ, Bool, true, false, not, ◌||◌, Option, none, some, List, [], ◌∷◌, if◌then◌else◌,
}
use rtactor_rs.Actor.Channel.{received, empty, closed}
use rtactor_rs.Actor.Message.{Env}
use rtactor_rs.Actor.World.{World}
use rtactor_rs.Reactive.Instant.{finite}
use rtactor_rs.Reactive.Context.{
  Context, ControlFlow, continue, break, try_send_next_pending_timeout,
}
use rtactor_rs.Mpsc.Process.{
  UserCode, Running, receive, process_current_message, try_process_message,
}

-- What happens around a step of the loop: what the other threads do to the shared state before it,
-- and what the clock shows when it is read for a timeout; the context keeps this reading until the
-- next.
pub record Tick (u : Env) : Type 0 where
  pub others : World u → World u
  pub now : ℕ

-- Where the loop is: before it looks for a queued message, before it blocks for a duration, or at
-- its end.
pub data Phase : Type 0 where
  polling : Phase
  blocking : ℕ → Phase
  stopped : Phase

module _ {u : Env} where
  -- What follows `context.try_send_next_pending_timeout()`.
  unfoldable pub after_timeout :
      Running u → Option (ControlFlow ℕ × Context × World u) → Option (Phase × Running u)
  after_timeout r none = none
  after_timeout r (some (continue, c, w)) = some (polling, record r { context = c; world = w })
  after_timeout r (some (break d, c, w)) = some (blocking d, record r { context = c; world = w })

  -- The look for a mature timeout, at a reading of the clock.
  unfoldable pub next_timeout : ℕ → Running u → Option (Phase × Running u)
  unfolding after_timeout
  next_timeout now r =
      after_timeout r
        (try_send_next_pending_timeout (record (r.context) { clock = finite now }) r.world)

  -- What follows `self.try_process_message(&mut context)`.
  unfoldable pub after_message : ℕ → Option ((Bool × Bool) × Running u) → Option (Phase × Running u)
  unfolding next_timeout
  after_message now none = none
  after_message now (some ((processed, stop), r)) =
      if stop
      then some (stopped, r)
      else if processed
      then some (polling, r)
      else next_timeout now r

  -- What follows `self.block_process_message(&mut context, duration)`.
  unfoldable pub after_block : Option ((Bool × Bool) × Running u) → Option (Phase × Running u)
  after_block none = none
  after_block (some ((processed, stop), r)) = if stop then some (stopped, r) else some (polling, r)

module _ {u : Env} (code : UserCode u) where
  -- `block_process_message`, at the end of its wait: a message is there, or the time is over.
  unfoldable pub block_process_message : Running u → Option ((Bool × Bool) × Running u)
  block_process_message r =
      let (w, m) = receive r.dispatcher.tx r.world in
      let r' = record r { world = w } in
      elim m [
        | received m ↦ elim (process_current_message code r' m) [
          | none ↦ none
          | some (stop, r'') ↦ some ((true, stop), r'')
        ]
        | empty ↦ some ((false, false), r')
        | closed ↦ some ((false, true), r')
      ]

  -- A step of the loop.
  unfoldable pub process_step : Tick u → Phase → Running u → Option (Phase × Running u)
  unfolding after_message after_block block_process_message
  process_step t polling r =
      after_message t.now (try_process_message code (record r { world = t.others r.world }))
  process_step t (blocking d) r =
      after_block (block_process_message (record r { world = t.others r.world }))
  process_step t stopped r = some (stopped, r)

  -- `process`, through so many steps.
  unfoldable pub process : List (Tick u) → Phase → Running u → Option (Phase × Running u)
  unfolding process_step
  process [] p r = some (p, r)
  process (t ∷ ts) p r = elim (process_step t p r) [
    | none ↦ none
    | some (p', r') ↦ process ts p' r'
  ]
