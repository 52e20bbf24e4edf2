-- ===== src/Mpsc/Loop/Timeouts.antt =====
-- The order of the timeouts while a dispatcher processes messages, and the waits for them.
use rtactor_rs.Base.{ℕ, ◌+◌, ◌<◌, ◌≡◌, refl, inl, inr, Bool, some, [], ◌∷◌, arith, Option-cases}
use rtactor_rs.BTree.{BTreeMap, IsSorted, remove}
use rtactor_rs.BTree.Laws.{insert-IsSorted, remove-IsSorted}
use rtactor_rs.Actor.Message.{Env, Message}
use rtactor_rs.Actor.World.{World, MessageAndDstId}
use rtactor_rs.Reactive.Instant.{finite, saturating_sub}
use rtactor_rs.Reactive.Timer.{Timer, timer_ord}
use rtactor_rs.Reactive.Context.{
  Context, ControlFlow, continue, break, send_timeout, store_back, try_send_first,
  try_send_next_pending_timeout,
}
use rtactor_rs.Reactive.Context.Timeouts.{AllNotBefore, try_send_next-break}
use rtactor_rs.Mpsc.Process.{UserCode, Running, process_current_message}
use rtactor_rs.Mpsc.Loop.{after_timeout, Phase, blocking, next_timeout}
use rtactor_rs.Mpsc.Process.Contexts.{process_current_message_keeps}

abbrev pub Sorted : Context → Type 0
Sorted c = IsSorted c.scheduler.timeout_list

-- The behaviours change the timeouts of their context by its operations only, which keep the map sorted.
abbrev pub KeepsSorted : {u : Env} → UserCode u → Type 0
KeepsSorted {u} code =
    (b b' : u.Behavior) (c c' : Context) (w w' : World u) (m : Message u)
    → Sorted c
    → code.process_message b c w m ≡ some (b', c', w')
    → Sorted c'

module _ {u : Env} where
  send_timeout-Sorted :
      (c : Context) (k : Timer) (id : ℕ) (w : World u) → Sorted c → Sorted (send_timeout c k id w).0
  unfolding send_timeout store_back
  send_timeout-Sorted c k id w s =
      let m = c.scheduler.timeout_list in
      let rest = remove-IsSorted k m s in
      ground (arith, rest, insert-IsSorted k id (remove k m) rest)

  try_send_first-Sorted :
      (c c' : Context) (m : BTreeMap Timer ℕ) (w w' : World u) (f : ControlFlow ℕ)
      → Sorted c
      → try_send_first c m w ≡ some (f, c', w')
      → Sorted c'
  unfolding try_send_first
  try_send_first-Sorted c c' [] w w' f s e = ground arith
  try_send_first-Sorted c c' ((k, id) ∷ m) w w' f s e =
      elim (Option-cases (saturating_sub k.deadline c.clock)) [
        | inl n ↦ absurd (ground arith)
        | inr (d, p) ↦ ground (arith, send_timeout-Sorted c k id w s)
      ]

  after_timeout-context :
      (r r' : Running u) (f : ControlFlow ℕ) (c : Context) (w : World u) (p : Phase)
      → after_timeout r (some (f, c, w)) ≡ some (p, r')
      → (r' ≡ record r { context = c; world = w }) × ((d : ℕ) → p ≡ blocking d → f ≡ break d)
  unfolding after_timeout
  after_timeout-context r r' continue c w p e = (ground arith, λ d h. absurd (ground arith))
  after_timeout-context r r' (break d) c w p e = (ground arith, λ d' h. ground arith)

  pub next_timeout-Sorted :
      (now : ℕ) (p : Phase) (r r' : Running u)
      → Sorted r.context
      → next_timeout now r ≡ some (p, r')
      → Sorted r'.context
  unfolding next_timeout try_send_next_pending_timeout
  next_timeout-Sorted now p r r' s e =
      let c : Context = record (r.context) { clock = finite now } in
      elim (Option-cases (try_send_next_pending_timeout c r.world)) [
        | inl n ↦ absurd (unfold after_timeout in ground arith)
        | inr ((f, c', w'), q) ↦
            let s' = try_send_first-Sorted c c' c.scheduler.timeout_list r.world w' f s q in
            let k = after_timeout-context r r' f c' w' p (ground arith) in ground (arith, k.0)
      ]

  -- What it means to sleep well: no timer is due before the wait is over, and no message waits.
  abbrev pub SleepsUntil : ℕ → ℕ → Running u → Type 0
  SleepsUntil now d r =
      AllNotBefore (now + d) r.context.scheduler.timeout_list
      × (0 < d)
      × ((r.world.reactive_channels r.dispatcher.tx).queue ≡ [])

  pub next_timeout-blocks :
      (now d : ℕ) (r r' : Running u)
      → Sorted r.context
      → (r.world.reactive_channels r.dispatcher.tx).queue ≡ []
      → next_timeout now r ≡ some (blocking d, r')
      → SleepsUntil now d r'
  unfolding next_timeout
  next_timeout-blocks now d r r' s q e =
      let c : Context = record (r.context) { clock = finite now } in
      elim (Option-cases (try_send_next_pending_timeout c r.world)) [
        | inl n ↦ absurd (unfold after_timeout in ground arith)
        | inr ((f, c', w'), o) ↦
            let k = after_timeout-context r r' f c' w' (blocking d) (ground arith) in
            let waits : f ≡ break d = k.1 d refl in
            let b = try_send_next-break c c' r.world w' now d refl s (ground arith) in
            ground (arith, k.0, b)
      ]

module _ {u : Env} (code : UserCode u) (keeps : KeepsSorted code) where
  pub process_current_message-Sorted :
      (s s' : Running u) (m : MessageAndDstId u) (stop : Bool)
      → Sorted s.context
      → process_current_message code s m ≡ some (stop, s')
      → Sorted s'.context
  process_current_message-Sorted = process_current_message_keeps code Sorted (λ c id s. s) keeps
