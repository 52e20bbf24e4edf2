-- ===== src/Tests/Metrics.antt =====
-- Metrics over whole numbers, of which those above 1000 stand for what is not a number.
use Prim.Native.Nat.{◌/◌}
use rtactor_rs.Base.{ℕ, ◌+◌, ◌<◌, ◌≤◌, ◌≡◌, ltb, if◌then◌else◌, ◌⊎◌, [], ◌∷◌, arith}
use rtactor_rs.Profiling.Metric.{
  Floats, new_min, min_snapshot, min_records, new_avg, avg_snapshot, avg_records,
}
use rtactor_rs.Profiling.Metric.Records.{foldl, mean_snapshot-records}
use rtactor_rs.Profiling.Metric.Extremes.{
  FloatOrder, IsExtreme, IsBest, Gives, extreme_snapshot-records,
}
use rtactor_rs.Tests.Sample.{sample_env}

abbrev least : ℕ → ℕ → ℕ
least a b = if ltb 1000 b then a else if ltb 1000 a then b else if ltb a b then a else b

abbrev greatest : ℕ → ℕ → ℕ
greatest a b = if ltb 1000 b then a else if ltb 1000 a then b else if ltb a b then b else a

abbrev sample_floats : Floats ℕ
sample_floats = record {
  infinity_value = 1000;
  nan = 1001;
  zero_value = 0;
  negate = λ a. 0;
  min = least;
  max = greatest;
  add = λ a b. a + b;
  div = λ a b. a / b;
  sqrt = λ a. a;
  powi = λ a n. a + n;
  of_u32 = λ n. n;
  as_secs_f64 = λ d. d;
}

nan_cases : (a : ℕ) → (1000 < a) ⊎ ¬ (1000 < a)
nan_cases a = ground arith

abbrev sample_order : FloatOrder ℕ
sample_order = record {
  IsNan = λ a. 1000 < a;
  Le = λ a b. a ≤ b;
  nan_cases = nan_cases;
  le_refl = λ a h. omega arith;
  le_trans = λ a b c h k. omega arith;
}

least-IsExtreme : IsExtreme sample_order (λ a b. a ≤ b) least
least-IsExtreme = record {
  op_nan = λ a b h. ground arith;
  op_left = λ a b h k. ground arith;
  op_right = λ a b h k. ground arith;
  op_choice = λ a b. ground arith;
}

greatest-IsExtreme : IsExtreme sample_order (λ a b. b ≤ a) greatest
greatest-IsExtreme = record {
  op_nan = λ a b h. ground arith;
  op_left = λ a b h k. ground arith;
  op_right = λ a b h k. ground arith;
  op_choice = λ a b. ground arith;
}

mean_snapshot-records_example :
    avg_snapshot sample_env sample_floats (
      foldl
        (avg_records sample_env sample_floats)
        (new_avg sample_env sample_floats 8)
        (4 ∷ 6 ∷ []))
    ≡ (record { name = 8; value = 5 }, new_avg sample_env sample_floats 8)
mean_snapshot-records_example = (mean_snapshot-records sample_env sample_floats 8 (4 ∷ 6 ∷ [])).0

extreme_snapshot-records_example :
    Gives {u = sample_env} 8
      (IsBest sample_order (λ a b. a ≤ b) 1000 (7 ∷ 1001 ∷ 4 ∷ []))
      (new_min sample_env sample_floats 8)
      (min_snapshot sample_env sample_floats (
        foldl
          (min_records sample_env sample_floats)
          (new_min sample_env sample_floats 8)
          (7 ∷ 1001 ∷ 4 ∷ [])))
extreme_snapshot-records_example =
    (extreme_snapshot-records sample_env sample_floats 8 sample_order least-IsExtreme
      greatest-IsExtreme (7 ∷ 1001 ∷ 4 ∷ []) (λ h. omega arith) (λ h. omega arith)).0
