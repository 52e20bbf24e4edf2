-- ===== src/Reactive/Scheduler/Entries.antt =====
-- What scheduling and unscheduling do to the scheduler's entries, and which timeouts a timer takes.
use rtactor_rs.Base.{
  ℕ, ◌+◌, ◌%◌, List, [], ◌∷◌, length, ◌<◌, ◌≡◌, ◌≢◌, Bool, true, false, none, some, arith, ◌==◌,
  if◌then◌else◌,
}
use rtactor_rs.Reactive.Timer
use rtactor_rs.Reactive.Scheduler
use rtactor_rs.BTree.{find, IsSorted}
use rtactor_rs.BTree.Laws.{insert-IsSorted, remove-IsSorted, find-insert, find-remove, found}
use rtactor_rs.Reactive.Instant.{Instant, infinity, at_inf}
use rtactor_rs.Reactive.Timer.{Timer, timer_ord, cmp, eq_of_cmp, cmp_self}
use rtactor_rs.Reactive.Scheduler.{
  TimeoutScheduler, generate_timeout_id, remove_own, unschedule, schedule_until, is_scheduling,
}

-- The entries stand in the order of their timers, without two equal ones.
pub record IsValid (s : TimeoutScheduler) : Type 0 where
  pub sorted : IsSorted s.timeout_list
  pub ids : s.next_timeout_id < 4294967296

unschedule-IsValid :
    (s : TimeoutScheduler) (t : Timer) (dst : ℕ) → IsValid s → IsValid (unschedule s t dst).1
unfolding unschedule
unschedule-IsValid s t dst v = ground (arith, remove-IsSorted t s.timeout_list v.sorted)

-- Both operations keep the scheduler well formed: its entries stay in strict order of their timers,
-- and its counter stays a `u32`.
schedule-IsValid :
    (s : TimeoutScheduler) (t : Timer) (i : Instant) (dst : ℕ)
    → IsValid s
    → IsValid (unschedule s t dst).1 × IsValid (schedule_until s t i dst).1
unfolding schedule_until
schedule-IsValid s t i dst v = (
  unschedule-IsValid s t dst v,
  ground (
    arith,
    unschedule-IsValid s t dst v,
    insert-IsSorted (schedule_until s t i dst).0 dst (unschedule s t dst).1.timeout_list,
  ),
)

-- Whether `unschedule s t dst` takes the entry of `t` out.
unfoldable pub takes_out : TimeoutScheduler → Timer → ℕ → Bool
unfolding at_inf
takes_out s t dst =
    if at_inf t.deadline
    then false
    else elim (find t s.timeout_list) [ none ↦ false | some owner ↦ owner == dst ]

-- Unscheduling removes the timer's own entry, if its deadline is finite and the actor owns it, and
-- leaves every other entry as it is; afterwards the timer's deadline is infinite.
find-unschedule :
    (s : TimeoutScheduler) (t : Timer) (dst : ℕ) (u : Timer)
    → IsValid s
    → (find u (unschedule s t dst).1.timeout_list ≡ (
        if takes_out s t dst
        then found (cmp u t) none (find u s.timeout_list)
        else find u s.timeout_list))
      × ((unschedule s t dst).0 ≡ record t { deadline = infinity })
unfolding unschedule takes_out
find-unschedule s t dst u v = ground (arith, find-remove u t s.timeout_list v.sorted)

next_id-unschedule :
    (s : TimeoutScheduler) (t : Timer) (dst : ℕ)
    → (unschedule s t dst).1.next_timeout_id ≡ s.next_timeout_id
unfolding unschedule
next_id-unschedule s t dst = ground arith

find_entries :
    (s : TimeoutScheduler) (t : Timer) (i : Instant) (dst : ℕ) (u : Timer)
    → IsValid s
    → ((schedule_until s t i dst).0 ≡ record { id = s.next_timeout_id; deadline = i })
      × (find u (schedule_until s t i dst).1.timeout_list
          ≡ found (cmp u (schedule_until s t i dst).0) (some dst) (
              if takes_out s t dst
              then found (cmp u t) none (find u s.timeout_list)
              else find u s.timeout_list))
unfolding schedule_until generate_timeout_id
find_entries s t i dst u v = ground (
  arith,
  next_id-unschedule s t dst,
  find-unschedule s t dst u v,
  find-insert u (schedule_until s t i dst).0 dst (unschedule s t dst).1.timeout_list,
)

-- The scheduler after more timers were scheduled, one after the other.
abbrev pub schedule_each : TimeoutScheduler → List (Timer × Instant × ℕ) → TimeoutScheduler
schedule_each s [] = s
schedule_each s ((t, i, dst) ∷ rest) = schedule_each (schedule_until s t i dst).1 rest

next_id-schedule_until :
    (s : TimeoutScheduler) (t : Timer) (i : Instant) (dst : ℕ)
    → (schedule_until s t i dst).1.next_timeout_id ≡ (s.next_timeout_id + 1) % 4294967296
unfolding schedule_until generate_timeout_id
next_id-schedule_until s t i dst = ground (arith, next_id-unschedule s t dst)

-- The counter goes on by one for each, and wraps at 2 ^ 32.
next_id-schedule_each :
    (s : TimeoutScheduler) (later : List (Timer × Instant × ℕ))
    → s.next_timeout_id < 4294967296
    → (schedule_each s later).next_timeout_id ≡ (s.next_timeout_id + length later) % 4294967296
next_id-schedule_each s [] h = ground arith
next_id-schedule_each s ((t, i, dst) ∷ rest) h =
    let one = next_id-schedule_until s t i dst in
    let more = next_id-schedule_each (schedule_until s t i dst).1 rest (ground (arith, one)) in
    ground (arith, one, more)

fresh-schedule_each :
    (s : TimeoutScheduler) (t : Timer) (i : Instant) (dst : ℕ) (later : List (Timer × Instant × ℕ))
    → s.next_timeout_id < 4294967296
    → length later + 1 < 4294967296
    → (schedule_each (schedule_until s t i dst).1 later).next_timeout_id ≢ s.next_timeout_id
fresh-schedule_each s t i dst later h short =
    let all = next_id-schedule_each s ((t, i, dst) ∷ later) h in
    let n = s.next_timeout_id in
    let wraps : (n + (length later + 1)) % 4294967296 ≢ n = omega arith in
    ground (arith, all, wraps)

-- Scheduling gives the timer the id that the counter stands at and the new deadline, and the counter
-- goes on by one, with a wrap at 2 ^ 32; none of fewer than 2 ^ 32 - 1 further schedulings of
-- whatever timers brings the counter back to that id, so that the next of them gets another. The
-- entry of the timer is added for the actor, and otherwise the entries change as unscheduling the
-- timer's last scheduling does: at every timer.
pub find-schedule_until :
    (s : TimeoutScheduler) (t : Timer) (i : Instant) (dst : ℕ) (u : Timer)
    (later : List (Timer × Instant × ℕ))
    → IsValid s
    → length later + 1 < 4294967296
    → ((schedule_until s t i dst).0 ≡ record { id = s.next_timeout_id; deadline = i })
      × ((schedule_until s t i dst).1.next_timeout_id ≡ (s.next_timeout_id + 1) % 4294967296)
      × ((schedule_each (schedule_until s t i dst).1 later).next_timeout_id ≢ s.next_timeout_id)
      × (find u (schedule_until s t i dst).1.timeout_list
          ≡ found (cmp u (schedule_until s t i dst).0) (some dst) (
              if takes_out s t dst
              then found (cmp u t) none (find u s.timeout_list)
              else find u s.timeout_list))
find-schedule_until s t i dst u later v short =
    let entries = find_entries s t i dst u v in
    (
      entries.0,
      next_id-schedule_until s t i dst,
      fresh-schedule_each s t i dst later v.ids short,
      entries.1,
    )

-- A timeout that was sent before its timer was scheduled again is refused, and that of the new
-- scheduling is taken, which marks the timer as no longer scheduled; any other data is refused.
is_scheduling-schedule_until :
    (s : TimeoutScheduler) (t : Timer) (i : Instant) (dst id : ℕ)
    → id ≢ s.next_timeout_id
    → let t' = (schedule_until s t i dst).0 in
      (is_scheduling t' (some id) ≡ (t', false))
      × (is_scheduling t' (some s.next_timeout_id) ≡ (record t' { deadline = infinity }, true))
      × (is_scheduling t' none ≡ (t', false))
unfolding is_scheduling schedule_until unschedule
is_scheduling-schedule_until s t i dst id h = ground arith

-- Unscheduling does not revoke a timeout that is already on its way: the timer still takes the one
-- of its last scheduling, whatever the scheduler holds.
is_scheduling-unschedule :
    (s : TimeoutScheduler) (t : Timer) (dst : ℕ)
    → (is_scheduling (unschedule s t dst).0 (some t.id)).1 ≡ true
unfolding is_scheduling unschedule
is_scheduling-unschedule s t dst = ground arith

-- A timer that was never scheduled takes the first timeout that a new scheduler gives to another.
is_scheduling-new :
    (t : Timer) (i : Instant) (dst : ℕ)
    → (is_scheduling Timer.new (some (schedule_until Scheduler.new t i dst).0.id)).1 ≡ true
unfolding is_scheduling schedule_until Scheduler.new Timer.new unschedule
is_scheduling-new t i dst = ground arith

-- A timeout that was sent before its timer was scheduled again is refused, and that of the new
-- scheduling is taken, which marks the timer as no longer scheduled; any other data is refused. But
-- unscheduling does not revoke a timeout that is already on its way: the timer still takes the one
-- of its last scheduling. And a timer that was never scheduled takes the first timeout that a new
-- scheduler gives to another.
pub is_scheduling_lem :
    (s : TimeoutScheduler) (t : Timer) (i : Instant) (dst id : ℕ)
    → id ≢ s.next_timeout_id
    → let t' = (schedule_until s t i dst).0 in
      ((is_scheduling t' (some id) ≡ (t', false))
        × (is_scheduling t' (some s.next_timeout_id) ≡ (record t' { deadline = infinity }, true))
        × (is_scheduling t' none ≡ (t', false)))
      × ((is_scheduling (unschedule s t dst).0 (some t.id)).1 ≡ true)
      × ((is_scheduling Timer.new (some (schedule_until Scheduler.new t i dst).0.id)).1 ≡ true)
is_scheduling_lem s t i dst id h = (
  is_scheduling-schedule_until s t i dst id h,
  is_scheduling-unschedule s t dst,
  is_scheduling-new t i dst,
)

-- An entry that is scheduled at infinity stays when its timer is unscheduled.
unschedule-schedule_infinity :
    (s : TimeoutScheduler) (t : Timer) (dst : ℕ)
    → IsValid s
    → let (t', s') = schedule_until s t infinity dst in
      (find t' (unschedule s' t' dst).1.timeout_list ≡ some dst)
unfolding unschedule takes_out
unschedule-schedule_infinity s t dst v =
    let t' = (schedule_until s t infinity dst).0 in
    ground (arith, find_entries s t infinity dst t' v, cmp_self t')
