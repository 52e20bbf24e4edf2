-- ===== src/Reactive/Scheduler.antt =====
-- `TimeoutScheduler`, `Timeout` and `Timer::is_scheduling` of src/reactive.rs.
pub mod Entries
use rtactor_rs.Base.{
  ℕ, Bool, true, false, Option, none, some, List, [], ◌==◌, if◌then◌else◌, wrapping_suc,
}
use rtactor_rs.BTree.{BTreeMap, find, insert, remove}
use rtactor_rs.Reactive.Instant.{Instant, infinity, at_inf}
use rtactor_rs.Reactive.Timer.{Timer, timer_ord}

-- The map `timeout_list` holds the actor that each scheduled timer belongs to.
pub record TimeoutScheduler : Type 0 where
  pub next_timeout_id : ℕ
  pub timeout_list : BTreeMap Timer ℕ

-- `TimeoutScheduler::new`.
unfoldable pub new : TimeoutScheduler
new = record { next_timeout_id = 0; timeout_list = [] }

-- `generate_timeout_id`: the `u32` counter wraps.
unfoldable pub generate_timeout_id : TimeoutScheduler → ℕ × TimeoutScheduler
generate_timeout_id s =
    (s.next_timeout_id, record s { next_timeout_id = wrapping_suc s.next_timeout_id })

-- The `match` on `timeout_list.entry(*timer)`: an entry goes only if it is the actor's own.
unfoldable pub remove_own : Option ℕ → Timer → ℕ → TimeoutScheduler → TimeoutScheduler
remove_own none t dst s = s
remove_own (some owner) t dst s =
    if owner == dst then record s { timeout_list = remove t s.timeout_list } else s

-- `unschedule`: gives the timer as it is afterwards, and the scheduler.
unfoldable pub unschedule : TimeoutScheduler → Timer → ℕ → Timer × TimeoutScheduler
unfolding at_inf remove_own
unschedule s t dst =
    if at_inf t.deadline
    then (t, s)
    else (record t { deadline = infinity }, remove_own (find t s.timeout_list) t dst s)

-- `schedule_until`.
unfoldable pub schedule_until : TimeoutScheduler → Timer → Instant → ℕ → Timer × TimeoutScheduler
unfolding unschedule generate_timeout_id
schedule_until s t i dst =
    let (t₁, s₁) = unschedule s t dst in
    let (id, s₂) = generate_timeout_id s₁ in
    let t₂ : Timer = record { id = id; deadline = i } in
    (t₂, record s₂ { timeout_list = insert t₂ dst s₂.timeout_list })

-- `Timer::is_scheduling` on the timeout that the notification's data is downcast to, if any.
unfoldable pub is_scheduling : Timer → Option ℕ → Timer × Bool
is_scheduling t none = (t, false)
is_scheduling t (some id) =
    if id == t.id then (record t { deadline = infinity }, true) else (t, false)
