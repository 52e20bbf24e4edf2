-- ===== src/Mpsc/Loop/Sleep.antt =====
-- When the loop of a dispatcher blocks, and for how long.
use rtactor_rs.Base.{
  ℕ, ◌≡◌, refl, ◌⊎◌, inl, inr, Bool, true, false, Option, none, some, List, [], ◌∷◌, arith,
  Option-cases,
}
use rtactor_rs.Actor.Channel.{RecvResult, received, empty, closed, try_recv}
use rtactor_rs.Actor.Message.{Env}
use rtactor_rs.Actor.World.{World, MessageAndDstId}
use rtactor_rs.Reactive.Timer.{timer_ord}
use rtactor_rs.Mpsc.Process.{
  UserCode, Running, receive, process_current_message, try_process_message,
}
use rtactor_rs.Mpsc.Loop.{
  Tick, Phase, polling, blocking, stopped, after_message, after_block, block_process_message,
  process_step, process,
}
use rtactor_rs.Mpsc.Loop.Timeouts.{
  Sorted, KeepsSorted, SleepsUntil, next_timeout-Sorted, next_timeout-blocks,
  process_current_message-Sorted,
}

module _ {u : Env} where
  receive-empty :
      (tx : ℕ) (w : World u) (q : List (MessageAndDstId u))
      → (w.reactive_channels tx).queue ≡ q
      → (receive tx w).1 ≡ empty
      → ((receive tx w).0.reactive_channels tx).queue ≡ []
  unfolding receive try_recv
  receive-empty tx w [] h e = ground arith
  receive-empty tx w (m ∷ q) h e = absurd (ground arith)

module _ {u : Env} (code : UserCode u) (keeps : KeepsSorted code) where
  received_message-Sorted :
      (s s' : Running u) (o : Option (Bool × Running u)) (m : MessageAndDstId u)
      (flags : Bool × Bool)
      → Sorted s.context
      → process_current_message code s m ≡ o
      → elim o as (λ x. Option ((Bool × Bool) × Running u)) [
        | none ↦ none
        | some (stop, s'') ↦ some ((true, stop), s'')
      ]
        ≡ some (flags, s')
      → (flags.0 ≡ true) × Sorted s'.context
  received_message-Sorted s s' none m flags h q e = absurd (ground arith)
  received_message-Sorted s s' (some (stop, t)) m flags h q e =
      let k = process_current_message-Sorted code keeps s t m stop h q in ground arith

  -- A message was taken from the queue, or there was none.
  taken_by :
      (s s' : Running u) (o : RecvResult (MessageAndDstId u)) (flags : Bool × Bool)
      → Sorted s.context
      → (o ≡ empty → (s.world.reactive_channels s.dispatcher.tx).queue ≡ [])
      → elim o as (λ x. Option ((Bool × Bool) × Running u)) [
        | received m ↦ elim (process_current_message code s m) [
          | none ↦ none
          | some (stop, s'') ↦ some ((true, stop), s'')
        ]
        | empty ↦ some ((false, false), s)
        | closed ↦ some ((false, true), s)
      ]
        ≡ some (flags, s')
      → Sorted s'.context
        × ((flags.0 ≡ true)
            ⊎ (flags.1 ≡ true)
            ⊎ ((s'.world.reactive_channels s'.dispatcher.tx).queue ≡ []))
  taken_by s s' (received m) flags h q e =
      let k = received_message-Sorted s s' (process_current_message code s m) m flags h refl e in
      (k.1, inl k.0)
  taken_by s s' empty flags h q e = ground (arith, q refl)
  taken_by s s' closed flags h q e = ground arith

  taken-Sorted :
      (s s' : Running u) (flags : Bool × Bool)
      → Sorted s.context
      → try_process_message code s ≡ some (flags, s')
      → Sorted s'.context
        × ((flags.0 ≡ true)
            ⊎ (flags.1 ≡ true)
            ⊎ ((s'.world.reactive_channels s'.dispatcher.tx).queue ≡ []))
  unfolding try_process_message
  taken-Sorted s s' flags h e =
      let (w, o) = receive s.dispatcher.tx s.world in
      taken_by (record s { world = w }) s' o flags h
        (receive-empty s.dispatcher.tx s.world (s.world.reactive_channels s.dispatcher.tx).queue
          refl)
        e

  polled :
      (now : ℕ) (processed stop : Bool) (p : Phase) (s s' : Running u)
      → Sorted s.context
      → (processed ≡ true)
        ⊎ (stop ≡ true)
        ⊎ ((s.world.reactive_channels s.dispatcher.tx).queue ≡ [])
      → after_message now (some ((processed, stop), s)) ≡ some (p, s')
      → Sorted s'.context × ((d : ℕ) → p ≡ blocking d → SleepsUntil now d s')
  unfolding after_message
  polled now processed true p s s' h q e = (ground arith, λ d i. absurd (ground arith))
  polled now true false p s s' h q e = (ground arith, λ d i. absurd (ground arith))
  polled now false false p s s' h q e = (
    next_timeout-Sorted now p s s' h e,
    λ d i. next_timeout-blocks now d s s' h (ground arith) (ground arith),
  )

  process_step-Sorted :
      (t : Tick u) (p p' : Phase) (r r' : Running u)
      → Sorted r.context
      → process_step code t p r ≡ some (p', r')
      → Sorted r'.context × ((d : ℕ) → p' ≡ blocking d → SleepsUntil t.now d r')
  unfolding process_step after_message after_block
  process_step-Sorted t polling p' r r' h e =
      let s = record r { world = t.others r.world } in
      elim (Option-cases (try_process_message code s)) [
        | inl n ↦ absurd (ground arith)
        | inr (((processed, stop), s'), q) ↦
            let (sorted, why) = taken-Sorted s s' (processed, stop) h q in
            polled t.now processed stop p' s' r' sorted why (ground arith)
      ]
  process_step-Sorted t (blocking d) p' r r' h e =
      let s = record r { world = t.others r.world } in
      elim (Option-cases (block_process_message code s)) [
        | inl n ↦ absurd (ground arith)
        | inr (((processed, stop), s'), q) ↦
            let sorted =
              (taken-Sorted s s' (processed, stop) h
                (unfold block_process_message try_process_message in q)).0 in
            (ground arith, λ d' i. absurd (ground arith))
      ]
  process_step-Sorted t stopped p' r r' h e = (ground arith, λ d' i. absurd (ground arith))

  process-Sorted :
      (ts : List (Tick u)) (p p' : Phase) (r r' : Running u)
      → Sorted r.context
      → process code ts p r ≡ some (p', r')
      → Sorted r'.context
  unfolding process
  process-Sorted [] p p' r r' h e = ground arith
  process-Sorted (t ∷ ts) p p' r r' h e = elim (Option-cases (process_step code t p r)) [
    | inl n ↦ absurd (ground arith)
    | inr ((p'', r''), q) ↦
        process-Sorted ts p'' p' r'' r' (process_step-Sorted t p p'' r r'' h q).0 (ground arith)
  ]

  -- However the loop got there, and whatever other threads sent meanwhile: where a step makes it
  -- block for a duration, the queue is empty, the duration is positive, and no scheduled timer is due
  -- before it has passed since the clock was read. The behaviours must keep the timeouts sorted.
  pub process-SleepsUntil :
      (ts : List (Tick u)) (t : Tick u) (p p' : Phase) (d : ℕ) (r r' r'' : Running u)
      → Sorted r.context
      → process code ts p r ≡ some (p', r')
      → process_step code t p' r' ≡ some (blocking d, r'')
      → SleepsUntil t.now d r''
  process-SleepsUntil ts t p p' d r r' r'' h e step =
      (process_step-Sorted t p' (blocking d) r' r'' (process-Sorted ts p p' r r' h e) step).1 d refl
