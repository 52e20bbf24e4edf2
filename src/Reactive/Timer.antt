-- ===== src/Reactive/Timer.antt =====
-- `Timer` of src/reactive.rs: a handle with the id and the deadline of its last scheduling.
use Prim.Native.Nat.{Ordering}
use rtactor_rs.Base.{ℕ, ◌≡◌, Bool, true, false, ◌&&◌, Option, some, arith, ◌==◌, compare}
use rtactor_rs.BTree.{Ord}
use rtactor_rs.Reactive.Instant.{Instant, infinity, instant_eq, partial_cmp}

pub record Timer : Type 0 where
  pub id : ℕ
  pub deadline : Instant

-- `Timer::new`.
unfoldable pub new : Timer
new = record { id = 0; deadline = infinity }

-- By the deadline first, and by the id where that leaves a tie.
unfoldable pub cmp_by : Option Ordering → Ordering → Ordering
cmp_by (some Ordering.gt) ids = Ordering.gt
cmp_by (some Ordering.lt) ids = Ordering.lt
cmp_by _ ids = ids

-- `Ord::cmp`.
unfoldable pub cmp : Timer → Timer → Ordering
unfolding cmp_by partial_cmp
cmp s t = cmp_by (partial_cmp s.deadline t.deadline) (compare s.id t.id)

-- `PartialEq`.
unfoldable pub timer_eq : Timer → Timer → Bool
unfolding instant_eq
timer_eq s t = s.id == t.id && instant_eq s.deadline t.deadline

pub cmp_self : (a : Timer) → cmp a a ≡ Ordering.eq
unfolding cmp
cmp_self a = ground arith

pub cmp_flip : (a b : Timer) → cmp a b ≡ Ordering.lt → cmp b a ≡ Ordering.gt
unfolding cmp
cmp_flip a b = ground arith

pub cmp_back : (a b : Timer) → cmp a b ≡ Ordering.gt → cmp b a ≡ Ordering.lt
unfolding cmp
cmp_back a b = ground arith

pub cmp_trans :
    (a b c : Timer) → cmp a b ≡ Ordering.lt → cmp b c ≡ Ordering.lt → cmp a c ≡ Ordering.lt
unfolding cmp
cmp_trans a b c = ground arith

pub eq_of_cmp : (a b : Timer) → cmp a b ≡ Ordering.eq → a ≡ b
unfolding cmp
eq_of_cmp a b = ground arith

abbrev pub is_equal : Ordering → Bool
is_equal Ordering.eq = true
is_equal _ = false

-- Two timers compare as equal just where `==` says so, and only a timer with itself.
timer_eq-cmp : (s t : Timer) → (timer_eq s t ≡ is_equal (cmp s t)) × (cmp s t ≡ Ordering.eq → s ≡ t)
unfolding timer_eq cmp
timer_eq-cmp s t = (ground arith, eq_of_cmp s t)

pub cmp_cong : (a b c : Timer) → cmp a b ≡ Ordering.eq → cmp a c ≡ cmp b c
cmp_cong a b c h = ground (arith, eq_of_cmp a b h)

instance abbrev pub timer_ord : Ord Timer
timer_ord = record {
  cmp = cmp;
  cmp_self = cmp_self;
  cmp_flip = cmp_flip;
  cmp_back = cmp_back;
  cmp_trans = cmp_trans;
  cmp_cong = cmp_cong;
}
