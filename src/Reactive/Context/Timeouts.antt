-- ===== src/Reactive/Context/Timeouts.antt =====
-- `try_send_next_pending_timeout`: which timeout it sends, and how long nothing is due otherwise.
use Prim.Native.Nat.{Ordering}
use rtactor_rs.Base.{
  ℕ, ◌+◌, ◌≤◌, ◌<◌, ◌≡◌, ◌≢◌, refl, ◌&&◌, none, some, [], ◌∷◌, arith, All, if◌then◌else◌,
}
use rtactor_rs.BTree.{BTreeMap, Above, IsSorted}
use rtactor_rs.BTree.Laws.{remove_head, insert-Above}
use rtactor_rs.Actor.Message.{Env, Addr, reactive, timeout_id, notification}
use rtactor_rs.Actor.World.{World, MessageAndDstId}
use rtactor_rs.Actor.Delivery.Inbox.{
  AsyncLaws, inbox, room, takes, add_if, same_inbox, send_reactive-answer, inbox-send_reactive,
}
use rtactor_rs.Reactive.Instant.{Instant, finite, infinity, saturating_sub}
use rtactor_rs.Reactive.Timer.{Timer, timer_ord, cmp}
use rtactor_rs.Reactive.Context.{
  Context, continue, break, try_send_first, try_send_next_pending_timeout,
}

-- A deadline is not before a time.
abbrev pub NotBefore : ℕ → Instant → Type 0
NotBefore t (finite d) = t ≤ d
NotBefore t infinity = Unit

abbrev pub IsDue : ℕ → Instant → Type 0
IsDue t (finite d) = d ≤ t
IsDue t infinity = ⊥

abbrev pub AllNotBefore : ℕ → BTreeMap Timer ℕ → Type 0
AllNotBefore t = All (λ e. NotBefore t e.0.deadline)

NotBefore-lt :
    (t : ℕ) (a b : Timer) → cmp a b ≡ Ordering.lt → NotBefore t a.deadline → NotBefore t b.deadline
unfolding cmp
NotBefore-lt t a b h n = ground arith

pub AllNotBefore-Above :
    (t : ℕ) (k : Timer) (m : BTreeMap Timer ℕ)
    → Above k m
    → NotBefore t k.deadline
    → AllNotBefore t m
AllNotBefore-Above t k [] a n = tt
AllNotBefore-Above t k ((j, v) ∷ m) a n = (NotBefore-lt t k j a.0 n, AllNotBefore-Above t k m a.1 n)

-- The context with other entries in its scheduler.
abbrev pub with_entries : Context → BTreeMap Timer ℕ → Context
with_entries c m = record c { scheduler = record (c.scheduler) { timeout_list = m } }

module _ {u : Env} where
  first_total :
      (c : Context) (m : BTreeMap Timer ℕ) (w : World u) (now : ℕ)
      → c.clock ≡ finite now
      → try_send_first c m w ≢ none
  unfolding try_send_first saturating_sub
  first_total c [] w now e = ground arith
  first_total c ((k, id) ∷ m) w now e = ground arith

  first-break :
      (c c' : Context) (m : BTreeMap Timer ℕ) (w w' : World u) (now d : ℕ)
      → c.clock ≡ finite now
      → IsSorted m
      → try_send_first c m w ≡ some (break d, c', w')
      → AllNotBefore (now + d) m × (0 < d) × (c' ≡ c) × (w' ≡ w)
  unfolding try_send_first saturating_sub
  first-break c c' [] w w' now d e s h = ground arith
  first-break c c' ((k, id) ∷ m) w w' now d e s h =
      ground (arith, AllNotBefore-Above (now + d) k m s.0)

  -- When it answers with a waiting time, that time is positive, no timer of the scheduler is due
  -- before it has passed, and nothing has changed.
  pub try_send_next-break :
      (c c' : Context) (w w' : World u) (now d : ℕ)
      → c.clock ≡ finite now
      → IsSorted c.scheduler.timeout_list
      → try_send_next_pending_timeout c w ≡ some (break d, c', w')
      → AllNotBefore (now + d) c.scheduler.timeout_list × (0 < d) × (c' ≡ c) × (w' ≡ w)
  unfolding try_send_next_pending_timeout
  try_send_next-break c c' w w' now d e s h =
      first-break c c' c.scheduler.timeout_list w w' now d e s h

  -- Under a finite clock it never panics.
  try_send_next_total :
      (c : Context) (w : World u) (now : ℕ)
      → c.clock ≡ finite now
      → try_send_next_pending_timeout c w ≢ none
  unfolding try_send_next_pending_timeout
  try_send_next_total c w now e = first_total c c.scheduler.timeout_list w now e

  module _ (laws : AsyncLaws u) where
    -- The first of the entries is due. If the queue has room the entry is removed and its timeout is
    -- appended to the inbox of the timer's actor, and to no other; if not, nothing has changed.
    pub record SendsFirst (m : BTreeMap Timer ℕ) (c : Context) (w : World u) (now : ℕ)
        (c' : Context) (w' : World u) : Type 0 where
      pub key : Timer
      pub id : ℕ
      pub rest : BTreeMap Timer ℕ
      pub first : m ≡ (key, id) ∷ rest
      pub due : IsDue now key.deadline
      pub context_after :
          c' ≡ with_entries c (if takes (room (w.reactive_channels c.tx)) then rest else m)
      pub inbox_after :
          (a : Addr)
          → inbox laws w' a
            ≡ add_if
                (takes (room (w.reactive_channels c.tx)) && same_inbox (reactive c.tx id) a)
                (notification (timeout_id key.id))
                (inbox laws w a)

    first-continue :
        (c c' : Context) (m : BTreeMap Timer ℕ) (w w' : World u) (now : ℕ)
        → c.clock ≡ finite now
        → c.scheduler.timeout_list ≡ m
        → IsSorted m
        → try_send_first c m w ≡ some (continue, c', w')
        → SendsFirst m c w now c' w'
    unfolding try_send_first saturating_sub
    first-continue c c' [] w w' now e q s h = absurd (ground arith)
    first-continue c c' ((k, id) ∷ m) w w' now e q s h =
        let msg : MessageAndDstId u = record {
          message = notification (timeout_id k.id);
          dst_id = id;
        } in
        record {
          key = k;
          id = id;
          rest = m;
          first = refl;
          due = ground arith;
          context_after = ground (
            arith,
            remove_head k id m,
            insert-Above k id m s.0,
            send_reactive-answer laws w c.tx msg,
          );
          inbox_after = λ a. ground (arith, inbox-send_reactive laws w c.tx msg a);
        }

    -- When it answers to continue, the first entry of the scheduler is due. If the queue has room the
    -- entry is removed and its timeout is appended to the inbox of the timer's actor, and to no
    -- other; if not, the context and all inboxes are as before.
    pub try_send_next-continue :
        (c c' : Context) (w w' : World u) (now : ℕ)
        → c.clock ≡ finite now
        → IsSorted c.scheduler.timeout_list
        → try_send_next_pending_timeout c w ≡ some (continue, c', w')
        → SendsFirst c.scheduler.timeout_list c w now c' w'
    unfolding try_send_next_pending_timeout
    try_send_next-continue c c' w w' now e s h =
        first-continue c c' c.scheduler.timeout_list w w' now e refl s h
