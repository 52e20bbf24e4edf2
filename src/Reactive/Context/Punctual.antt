-- ===== src/Reactive/Context/Punctual.antt =====
-- The timers of a context against its clock: none is before it, and the context's operations keep it so.
use rtactor_rs.Base.{ℕ, ◌≡◌, subst, inl, inr, some, [], ◌∷◌, arith, Option-cases}
use rtactor_rs.BTree.{BTreeMap, IsSorted, insert, remove}
use rtactor_rs.BTree.Laws.{remove_head, insert-Above, insert-IsSorted, remove-IsSorted}
use rtactor_rs.Actor.Channel.{SendResult, sent, full, disconnected}
use rtactor_rs.Actor.Message.{Env, notification, timeout_id}
use rtactor_rs.Actor.World.{World, send_reactive}
use rtactor_rs.Reactive.Instant.{Instant, finite, infinity, saturating_sub, add, plus}
use rtactor_rs.Reactive.Timer.{Timer, timer_ord}
use rtactor_rs.Reactive.Context.{
  Context, unschedule_timer, schedule_timer_until, schedule_timer_for, continue, send_timeout,
  store_back, try_send_first,
}
use rtactor_rs.Reactive.Scheduler.{
  TimeoutScheduler, unschedule, schedule_until, generate_timeout_id,
}
use rtactor_rs.Reactive.Context.Timeouts.{NotBefore, AllNotBefore}

-- The entries are sorted, and none is before a time.
abbrev pub Ahead : ℕ → BTreeMap Timer ℕ → Type 0
Ahead now m = IsSorted m × AllNotBefore now m

-- The clock shows a time, and no timer is before it.
pub record IsPunctual (now : ℕ) (c : Context) : Type 0 where
  pub shows : c.clock ≡ finite now
  pub ahead : Ahead now c.scheduler.timeout_list

store_back-Ahead :
    {A : Type 0} (now : ℕ) (r : SendResult A) (k : Timer) (id : ℕ) (m : BTreeMap Timer ℕ)
    → Ahead now ((k, id) ∷ m)
    → Ahead now (store_back r k id m)
unfolding store_back
store_back-Ahead now sent k id m a = (a.0.1, a.1.1)
store_back-Ahead now (full x) k id m a = rw (insert-Above k id m a.0.0) a
store_back-Ahead now (disconnected x) k id m a = rw (insert-Above k id m a.0.0) a

All-insert :
    (now : ℕ) (k : Timer) (id : ℕ) (m : BTreeMap Timer ℕ)
    → NotBefore now k.deadline
    → AllNotBefore now m
    → AllNotBefore now (insert k id m)
unfolding insert
All-insert now k id [] n a = (n, tt)
All-insert now k id ((j, v) ∷ m) n a = ground (arith, All-insert now k id m n a.1)

All-remove :
    (now : ℕ) (k : Timer) (m : BTreeMap Timer ℕ)
    → AllNotBefore now m
    → AllNotBefore now (remove k m)
unfolding remove
All-remove now k [] a = tt
All-remove now k ((j, v) ∷ m) a = ground (arith, All-remove now k m a.1)

insert-Ahead :
    (now : ℕ) (k : Timer) (id : ℕ) (m : BTreeMap Timer ℕ)
    → NotBefore now k.deadline
    → Ahead now m
    → Ahead now (insert k id m)
insert-Ahead now k id m n a = (insert-IsSorted k id m a.0, All-insert now k id m n a.1)

remove-Ahead : (now : ℕ) (k : Timer) (m : BTreeMap Timer ℕ) → Ahead now m → Ahead now (remove k m)
remove-Ahead now k m a = (remove-IsSorted k m a.0, All-remove now k m a.1)

unschedule-Ahead :
    (now : ℕ) (s : TimeoutScheduler) (t : Timer) (dst : ℕ)
    → Ahead now s.timeout_list
    → Ahead now (unschedule s t dst).1.timeout_list
unfolding unschedule
unschedule-Ahead now s t dst a = ground (arith, remove-Ahead now t s.timeout_list a)

schedule_until-Ahead :
    (now : ℕ) (s : TimeoutScheduler) (t : Timer) (i : Instant) (dst : ℕ)
    → NotBefore now i
    → Ahead now s.timeout_list
    → Ahead now (schedule_until s t i dst).1.timeout_list
unfolding schedule_until generate_timeout_id
schedule_until-Ahead now s t i dst n a =
    insert-Ahead now _ dst (unschedule s t dst).1.timeout_list n (unschedule-Ahead now s t dst a)

-- Unscheduling and scheduling at an instant that is not past keep the timers of a context from being
-- before its clock.
schedule-IsPunctual :
    (now : ℕ) (c : Context) (t : Timer) (i : Instant)
    → IsPunctual now c
    → NotBefore now i
    → IsPunctual now (unschedule_timer c t).1 × IsPunctual now (schedule_timer_until c t i).1
unfolding unschedule_timer schedule_timer_until
schedule-IsPunctual now c t i p n = (
  record { shows = p.shows; ahead = unschedule-Ahead now c.scheduler t c.own_actor_id p.ahead },
  record {
    shows = p.shows;
    ahead = schedule_until-Ahead now c.scheduler t i c.own_actor_id n p.ahead;
  },
)

add-NotBefore :
    (now last_instant duration : ℕ) (x i : Instant)
    → x ≡ finite now
    → add last_instant x duration ≡ some i
    → NotBefore now i
unfolding add plus
add-NotBefore now last_instant duration x (finite k) e p = ground arith
add-NotBefore now last_instant duration x infinity e p = ground arith

-- So does scheduling after a duration, if it does not panic.
pub schedule_timer_for-IsPunctual :
    (now last_instant duration : ℕ) (c c' : Context) (t t' : Timer)
    → IsPunctual now c
    → schedule_timer_for last_instant c t duration ≡ some (t', c')
    → IsPunctual now c'
unfolding schedule_timer_for
schedule_timer_for-IsPunctual now last_instant duration c c' t t' p e =
    elim (Option-cases (add last_instant c.clock duration)) [
      | inl n ↦ absurd (ground arith)
      | inr (i, q) ↦
          let same : (schedule_timer_until c t i).1 ≡ c' = ground arith in
          subst (IsPunctual now) same
            (schedule-IsPunctual now c t i p
              (add-NotBefore now last_instant duration c.clock i p.shows q)).1
    ]

module _ {u : Env} where
  -- The first timer is taken out, or it is stored back.
  send_timeout-Ahead :
      (now : ℕ) (c : Context) (k : Timer) (id : ℕ) (m : BTreeMap Timer ℕ) (w : World u)
      → c.scheduler.timeout_list ≡ (k, id) ∷ m
      → Ahead now ((k, id) ∷ m)
      → Ahead now (send_timeout c k id w).0.scheduler.timeout_list
  unfolding send_timeout
  send_timeout-Ahead now c k id m w e a =
      rw (e, send_timeout)
        (rw (remove_head k id m, send_timeout)
          (store_back-Ahead now
            (send_reactive w c.tx
              (record { message = notification (timeout_id k.id); dst_id = id })).1
            k id m a))

  pub continue-Ahead :
      (now : ℕ) (c c' : Context) (m : BTreeMap Timer ℕ) (w w' : World u)
      → c.scheduler.timeout_list ≡ m
      → Ahead now m
      → try_send_first c m w ≡ some (continue, c', w')
      → Ahead now c'.scheduler.timeout_list
  unfolding try_send_first
  continue-Ahead now c c' [] w w' q a e = absurd (ground arith)
  continue-Ahead now c c' ((k, id) ∷ m) w w' q a e =
      elim (Option-cases (saturating_sub k.deadline c.clock)) [
        | inl n ↦ absurd (ground arith)
        | inr (d, p) ↦
            let same : (send_timeout c k id w).0 ≡ c' = ground arith in
            subst (λ z. Ahead now z.scheduler.timeout_list) same
              (send_timeout-Ahead now c k id m w q a)
      ]
