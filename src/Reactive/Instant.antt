-- ===== src/Reactive/Instant.antt =====
-- `Instant` of src/reactive.rs. A `std::time::Instant` and a `Duration` are whole nanoseconds.
use rtactor_rs.Base.{
  ℕ, ◌+◌, ◌-◌, ◌≤◌, ◌≡◌, Bool, true, false, Option, none, some, arith, ltb, ◌==◌, compare,
  if◌then◌else◌,
}
use Prim.Native.Nat.{Ordering}

-- `Instant` around its private `InternalInstant`.
pub data Instant : Type 0 where
  finite : ℕ → Instant
  infinity : Instant

-- `Duration::MAX`: `u64::MAX` seconds and 999,999,999 nanoseconds.
abbrev pub duration_max : ℕ
duration_max = 18446744073709551615999999999

unfoldable pub at_inf : Instant → Bool
at_inf (finite t) = false
at_inf infinity = true

-- `self.saturating_sub(rhs)`; `none` is the panic on two infinities.
unfoldable pub saturating_sub : Instant → Instant → Option ℕ
saturating_sub (finite t) (finite r) = if ltb t r then some 0 else some (t - r)
saturating_sub (finite t) infinity = some 0
saturating_sub infinity (finite r) = some duration_max
saturating_sub infinity infinity = none

-- The sum of an instant and a duration, where there is one: adding `Duration::MAX` gives infinity.
unfoldable pub plus : Instant → ℕ → Instant
plus i d =
    if d == duration_max
    then infinity
    else elim i [ finite t ↦ finite (t + d) | infinity ↦ infinity ]

-- `self + other`, `Add<Duration>`; `none` is the panic of a sum after the last point in time that a
-- `std::time::Instant` can stand for.
unfoldable pub add : ℕ → Instant → ℕ → Option Instant
unfolding plus
add last_instant i d = elim (plus i d) [
  | finite t ↦ if ltb last_instant t then none else some (finite t)
  | infinity ↦ some infinity
]

-- `PartialEq`.
unfoldable pub instant_eq : Instant → Instant → Bool
instant_eq (finite t) (finite r) = t == r
instant_eq (finite t) infinity = false
instant_eq infinity (finite r) = false
instant_eq infinity infinity = true

-- `PartialOrd`, which always answers.
unfoldable pub partial_cmp : Instant → Instant → Option Ordering
partial_cmp (finite t) (finite r) = some (compare t r)
partial_cmp (finite t) infinity = some Ordering.lt
partial_cmp infinity (finite r) = some Ordering.gt
partial_cmp infinity infinity = some Ordering.eq

-- A deadline set `d` after a finite time is exactly `d` away from it: for every duration,
-- `Duration::MAX` included, subtracting the time from the sum gives `d` back without a panic.
saturating_sub-plus :
    (t d : ℕ) → d ≤ duration_max → saturating_sub (plus (finite t) d) (finite t) ≡ some d
unfolding saturating_sub plus
saturating_sub-plus t d h = ground arith
