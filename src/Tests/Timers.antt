-- ===== src/Tests/Timers.antt =====
-- Timers that are scheduled, unscheduled and sent.
use rtactor_rs.Base.{ℕ, ◌+◌, ◌<◌, ◌≡◌, refl, true, some, [], ◌∷◌, arith}
use rtactor_rs.BTree.{find}
use rtactor_rs.Actor.Message.{reactive, notification, timeout_id}
use rtactor_rs.Actor.World.{World, send_reactive, send_on}
use rtactor_rs.Actor.Delivery.Inbox.{inbox}
use rtactor_rs.Reactive.Instant.{finite, saturating_sub}
use rtactor_rs.Reactive.Timer.{Timer, cmp, timer_ord}
use rtactor_rs.Reactive.Scheduler.{TimeoutScheduler, schedule_until, unschedule, is_scheduling}
use rtactor_rs.Reactive.Scheduler.Entries.{
  IsValid, takes_out, find-schedule_until, is_scheduling_lem,
}
use rtactor_rs.Reactive.Context.{Context, send_timeout, try_send_next_pending_timeout}
use rtactor_rs.Reactive.Context.Timeouts.{
  try_send_next-break, try_send_next-continue, AllNotBefore, SendsFirst,
}
use rtactor_rs.Tests.Sample.{sample_env, sample_laws, sample_world}

abbrev early : Timer
early = record { id = 3; deadline = finite 10 }

abbrev late : Timer
late = record { id = 1; deadline = finite 30 }

abbrev two_timers : TimeoutScheduler
two_timers = record { next_timeout_id = 4; timeout_list = (early, 2) ∷ (late, 6) ∷ [] }

two_timers-IsValid : IsValid two_timers
unfolding cmp
two_timers-IsValid = record { sorted = ((refl, tt), (tt, tt)); ids = omega arith }

find-schedule_until_example :
    find early (schedule_until two_timers late (finite 5) 6).1.timeout_list ≡ some 2
unfolding cmp find takes_out schedule_until unschedule
find-schedule_until_example =
    (find-schedule_until two_timers late (finite 5) 6 early ((early, finite 7, 2) ∷ [])
      two_timers-IsValid (omega arith)).3

is_scheduling_lem_example : (is_scheduling (unschedule two_timers late 6).0 (some 1)).1 ≡ true
is_scheduling_lem_example = (is_scheduling_lem two_timers late (finite 5) 6 1 (omega arith)).1

abbrev at_time : ℕ → Context
at_time now = record {
  tx = 0;
  own_actor_id = 2;
  request_id_counter = 0;
  clock = finite now;
  scheduler = two_timers;
}

abbrev quiet : World sample_env
quiet = sample_world [] []

try_send_next-break_example :
    AllNotBefore (4 + 6) two_timers.timeout_list
    × (0 < 6)
    × (at_time 4 ≡ at_time 4)
    × (quiet ≡ quiet)
unfolding try_send_next_pending_timeout saturating_sub cmp
try_send_next-break_example =
    try_send_next-break (at_time 4) (at_time 4) quiet quiet 4 6 refl two_timers-IsValid.sorted refl

-- The early timer's timeout is sent to its actor, and the late one stays.
try_send_next-continue_example :
    SendsFirst sample_laws two_timers.timeout_list
      (at_time 12)
      quiet
      12
      (send_timeout (at_time 12) early 2 quiet).0
      (send_timeout (at_time 12) early 2 quiet).1
unfolding try_send_next_pending_timeout saturating_sub cmp
try_send_next-continue_example =
    try_send_next-continue sample_laws (at_time 12) (send_timeout (at_time 12) early 2 quiet).0
      quiet (send_timeout (at_time 12) early 2 quiet).1 12 refl two_timers-IsValid.sorted refl

early_timeout_sent :
    inbox sample_laws (send_timeout (at_time 12) early 2 quiet).1 (reactive 0 2)
    ≡ notification (timeout_id 3) ∷ []
unfolding send_timeout send_reactive send_on sample_laws
early_timeout_sent = refl
