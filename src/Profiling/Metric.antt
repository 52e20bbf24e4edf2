-- ===== src/Profiling/Metric.antt =====
-- The `Metric` trait and the metrics of src/profiled_actor.rs, and its `try_process_request`.
pub mod Records
pub mod Extremes
use rtactor_rs.Base.{
  ℕ, suc, Bool, true, false, Option, none, some, List, [], ◌∷◌, ◌++◌, ltb, if◌then◌else◌, u32_max,
}
use rtactor_rs.Reactive.Instant.{Instant, infinity, saturating_sub}
use rtactor_rs.Reactive.Context.{Context, send_addr_id_response}
use rtactor_rs.Actor.Message.{Env, Addr, Any, metrics_request, metrics_response, MetricEntry}
use rtactor_rs.Actor.World.{World}

-- What the metrics use of `f64`; `of_u32` is the conversion `as f64`, and `as_secs_f64` that of a
-- duration in nanoseconds.
pub record Floats (F : Type 0) : Type 0 where
  pub infinity_value : F
  pub nan : F
  pub zero_value : F
  pub negate : F → F
  pub min : F → F → F
  pub max : F → F → F
  pub add : F → F → F
  pub div : F → F → F
  pub sqrt : F → F
  pub powi : F → ℕ → F
  pub of_u32 : ℕ → F
  pub as_secs_f64 : ℕ → F

-- `trait Metric`, on the state of a metric. `none` is the panic of a difference of two infinities.
pub record Metric (u : Env) (M : Type 0) : Type 0 where
  pub snapshot : M → MetricEntry u × M
  pub snapshot_in : M → List (MetricEntry u) → List (MetricEntry u) × M
  pub records : M → u.Float → M
  pub take_begin_instant : M → Context → Instant
  pub records_duration : M → Context → Instant → Option M

module _ {M F : Type 0} where
  unfoldable pub default_records_duration :
      Floats F → (M → F → M) → M → Context → Instant → Option M
  default_records_duration f records m c begin = elim (saturating_sub c.clock begin) [
    | none ↦ none
    | some duration ↦ some (records m (f.as_secs_f64 duration))
  ]

module _ {u : Env} {M : Type 0} where
  -- The provided methods of the trait.
  unfoldable pub default_snapshot_in :
      (M → MetricEntry u × M) → M → List (MetricEntry u) → List (MetricEntry u) × M
  default_snapshot_in snapshot m list = let (entry, m') = snapshot m in (list ++ entry ∷ [], m')

  unfoldable pub with_defaults :
      Floats u.Float → (M → MetricEntry u × M) → (M → u.Float → M) → Metric u M
  unfolding default_snapshot_in default_records_duration
  with_defaults f snapshot records = record {
    snapshot = snapshot;
    snapshot_in = default_snapshot_in snapshot;
    records = records;
    take_begin_instant = λ m c. c.clock;
    records_duration = default_records_duration f records;
  }

-- `MinMetric` and `MaxMetric`.
pub record ExtremeMetric (u : Env) : Type 0 where
  pub name : u.Text
  pub value : u.Float

-- `AvgMetric` and `RmsMetric`; `sum` is the latter's `sqr_sum`.
pub record MeanMetric (u : Env) : Type 0 where
  pub name : u.Text
  pub sum : u.Float
  pub count : ℕ

-- `u32::saturating_add(1)`.
unfoldable pub saturating_suc : ℕ → ℕ
saturating_suc n = if ltb n u32_max then suc n else n

module _ (u : Env) (f : Floats u.Float) where
  -- `MinMetric::new`, `snapshot` and `records`.
  unfoldable pub new_min : u.Text → ExtremeMetric u
  new_min name = record { name = name; value = f.infinity_value }

  unfoldable pub min_snapshot : ExtremeMetric u → MetricEntry u × ExtremeMetric u
  min_snapshot m =
      (record { name = m.name; value = m.value }, record m { value = f.infinity_value })

  unfoldable pub min_records : ExtremeMetric u → u.Float → ExtremeMetric u
  min_records m val = record m { value = f.min m.value val }

  -- `MaxMetric::new`, `snapshot` and `records`.
  unfoldable pub new_max : u.Text → ExtremeMetric u
  new_max name = record { name = name; value = f.negate f.infinity_value }

  unfoldable pub max_snapshot : ExtremeMetric u → MetricEntry u × ExtremeMetric u
  max_snapshot m =
      (record { name = m.name; value = m.value }, record m { value = f.negate f.infinity_value })

  unfoldable pub max_records : ExtremeMetric u → u.Float → ExtremeMetric u
  max_records m val = record m { value = f.max m.value val }

  -- `AvgMetric::new`, `snapshot` and `records`.
  unfoldable pub new_avg : u.Text → MeanMetric u
  new_avg name = record { name = name; sum = f.zero_value; count = 0 }

  unfoldable pub avg_snapshot : MeanMetric u → MetricEntry u × MeanMetric u
  avg_snapshot m = (
    record {
      name = m.name;
      value = if ltb m.count u32_max then f.div m.sum (f.of_u32 m.count) else f.nan;
    },
    record m { sum = f.zero_value; count = 0 },
  )

  unfoldable pub avg_records : MeanMetric u → u.Float → MeanMetric u
  unfolding saturating_suc
  avg_records m val = record m { sum = f.add m.sum val; count = saturating_suc m.count }

  -- `RmsMetric::new`, `snapshot` and `records`.
  unfoldable pub new_rms : u.Text → MeanMetric u
  new_rms name = record { name = name; sum = f.zero_value; count = 0 }

  unfoldable pub rms_snapshot : MeanMetric u → MetricEntry u × MeanMetric u
  rms_snapshot m = (
    record {
      name = m.name;
      value = if ltb m.count u32_max then f.sqrt (f.div m.sum (f.of_u32 m.count)) else f.nan;
    },
    record m { sum = f.zero_value; count = 0 },
  )

  unfoldable pub rms_records : MeanMetric u → u.Float → MeanMetric u
  unfolding saturating_suc
  rms_records m val = record m { sum = f.add m.sum (f.powi val 2); count = saturating_suc m.count }

  -- The `impl Metric` of each.
  unfoldable pub min_metric : Metric u (ExtremeMetric u)
  unfolding min_snapshot min_records with_defaults
  min_metric = with_defaults f min_snapshot min_records

  unfoldable pub max_metric : Metric u (ExtremeMetric u)
  unfolding max_snapshot max_records with_defaults
  max_metric = with_defaults f max_snapshot max_records

  unfoldable pub avg_metric : Metric u (MeanMetric u)
  unfolding avg_snapshot avg_records with_defaults
  avg_metric = with_defaults f avg_snapshot avg_records

  unfoldable pub rms_metric : Metric u (MeanMetric u)
  unfolding rms_snapshot rms_records with_defaults
  rms_metric = with_defaults f rms_snapshot rms_records

  -- `DeactivatedMetric`, given the text `"dummy_metric"`.
  unfoldable pub deactivated_metric : u.Text → Metric u (Unit {0})
  deactivated_metric dummy = record {
    snapshot = λ m. (record { name = dummy; value = f.nan }, m);
    snapshot_in = λ m list. (list, m);
    records = λ m val. m;
    take_begin_instant = λ m c. infinity;
    records_duration = λ m c begin. some m;
  }

-- `try_process_request`: whether the request was one for metrics, what `func` leaves of its own
-- state, and the data of the request, whose cell is emptied.
module _ {u : Env} {S : Type 0} where
  unfoldable pub try_process_request :
      (S → List (MetricEntry u) → S × List (MetricEntry u))
      → S
      → Addr
      → ℕ
      → Any u
      → World u
      → Bool × S × Any u × World u
  try_process_request func s src id (metrics_request (some list)) w =
      let (s', list') = func s list in
      (
        true,
        s',
        metrics_request none,
        send_addr_id_response src id (metrics_response (some list')) w,
      )
  try_process_request func s src id (metrics_request none) w = (true, s, metrics_request none, w)
  try_process_request func s src id d w = (false, s, d, w)
