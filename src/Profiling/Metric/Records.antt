-- ===== src/Profiling/Metric/Records.antt =====
-- What the metrics of src/profiled_actor.rs tell of their records.
use rtactor_rs.Base.{
  Bool-cases, ℕ, suc, ◌+◌, ◌≡◌, refl, ◌∙◌, ap, inl, inr, List, [], ◌∷◌, map, length, ltb,
  if◌then◌else◌, u32_max, arith,
}
use rtactor_rs.Actor.Message.{Env, MetricEntry}
use rtactor_rs.Profiling.Metric.{
  Floats, MeanMetric, saturating_suc, new_avg, avg_snapshot, avg_records, new_rms, rms_snapshot,
  rms_records,
}

-- One value after the other.
abbrev pub foldl : {A B : Type 0} → (B → A → B) → B → List A → B
foldl op b [] = b
foldl op b (x ∷ xs) = foldl op (op b x) xs

capped : ℕ → ℕ
capped n = if ltb n u32_max then n else u32_max

saturating_suc-capped : (n : ℕ) → saturating_suc (capped n) ≡ capped (suc n)
unfolding capped saturating_suc
saturating_suc-capped n = ground arith

capped_if :
    {A : Type 0} (g : ℕ → A) (a : A) (n : ℕ)
    → (if ltb (capped n) u32_max then g (capped n) else a) ≡ (if ltb n u32_max then g n else a)
unfolding capped
capped_if g a n = elim (Bool-cases (ltb n u32_max)) [ inl h ↦ rw h (rw h refl) | inr h ↦ rw h refl ]

plus_zero : (k : ℕ) → k ≡ k + 0
plus_zero k = omega arith

zero_plus : (n : ℕ) → 0 + n ≡ n
zero_plus n = omega arith

length-map : {A B : Type 0} (h : A → B) (xs : List A) → length (map h xs) ≡ length xs
length-map h [] = refl
length-map h (x ∷ xs) = ap suc (length-map h xs)

plus_suc : (k n : ℕ) → suc k + n ≡ k + suc n
plus_suc k n = omega arith

module _ {F : Type 0} (f : Floats F) where
  abbrev pub total : List F → F
  total vs = foldl f.add f.zero_value vs

  -- The mean, and the square root of the mean of the squares; a `u32` cannot count more records.
  abbrev pub mean_of : List F → F
  mean_of vs = if ltb (length vs) u32_max then f.div (total vs) (f.of_u32 (length vs)) else f.nan

  abbrev pub root_mean_of : List F → F
  root_mean_of vs =
      if ltb (length vs) u32_max
      then f.sqrt (f.div (total (map (λ v. f.powi v 2) vs)) (f.of_u32 (length vs)))
      else f.nan

module _ (u : Env) (f : Floats u.Float) where
  square : u.Float → u.Float
  square v = f.powi v 2

module _ (u : Env) (f : Floats u.Float) (name : u.Text) where
  abbrev mean_metric : u.Float → ℕ → MeanMetric u
  mean_metric s n = record { name = name; sum = s; count = n }

  abbrev entry : u.Float → MetricEntry u
  entry v = record { name = name; value = v }

  foldl-avg_records :
      (s : u.Float) (k : ℕ) (vs : List u.Float)
      → foldl (avg_records u f) (mean_metric s (capped k)) vs
        ≡ mean_metric (foldl f.add s vs) (capped (k + length vs))
  unfolding avg_records
  foldl-avg_records s k [] = ap (λ n. mean_metric s (capped n)) (plus_zero k)
  foldl-avg_records s k (v ∷ vs) =
      ap (λ n. foldl (avg_records u f) (mean_metric (f.add s v) n) vs) (saturating_suc-capped k)
      ∙ foldl-avg_records (f.add s v) (suc k) vs
      ∙ ap (λ n. mean_metric (foldl f.add (f.add s v) vs) (capped n)) (plus_suc k (length vs))

  foldl-rms_records :
      (vs : List u.Float) (m : MeanMetric u)
      → foldl (rms_records u f) m vs ≡ foldl (avg_records u f) m (map (square u f) vs)
  unfolding rms_records avg_records square
  foldl-rms_records [] m = refl
  foldl-rms_records (v ∷ vs) m = foldl-rms_records vs (rms_records u f m v)

  avg_snapshot-total :
      (vs : List u.Float)
      → avg_snapshot u f (foldl (avg_records u f) (new_avg u f name) vs)
        ≡ (record { name = name; value = mean_of f vs }, new_avg u f name)
  unfolding avg_snapshot new_avg capped
  avg_snapshot-total vs =
      ap (avg_snapshot u f) (foldl-avg_records f.zero_value 0 vs)
      ∙ ap (λ n. avg_snapshot u f (mean_metric (total f vs) (capped n))) (zero_plus (length vs))
      ∙ ap (λ x. (entry x, mean_metric f.zero_value 0))
          (capped_if (λ n. f.div (total f vs) (f.of_u32 n)) f.nan (length vs))

  rms_snapshot-total :
      (vs : List u.Float)
      → rms_snapshot u f (foldl (rms_records u f) (new_rms u f name) vs)
        ≡ (record { name = name; value = root_mean_of f vs }, new_rms u f name)
  unfolding rms_snapshot new_rms square capped
  rms_snapshot-total vs =
      let squares = map (square u f) vs in
      ap (rms_snapshot u f)
        (foldl-rms_records vs _ ∙ foldl-avg_records f.zero_value 0 (map (square u f) vs))
      ∙ ap (λ n. rms_snapshot u f (mean_metric (total f squares) (capped n)))
          (zero_plus (length squares) ∙ length-map (square u f) vs)
      ∙ ap (λ x. (entry x, mean_metric f.zero_value 0))
          (capped_if (λ n. f.sqrt (f.div (total f squares) (f.of_u32 n))) f.nan (length vs))

  -- After any records of a new metric, a snapshot of an AvgMetric gives their sum divided by their
  -- number, and one of an RmsMetric the square root of the sum of their squares divided by their
  -- number; from u32::MAX records on, both give NaN. The metric is then as new.
  pub mean_snapshot-records :
      (vs : List u.Float)
      → (avg_snapshot u f (foldl (avg_records u f) (new_avg u f name) vs)
          ≡ (record { name = name; value = mean_of f vs }, new_avg u f name))
        × (rms_snapshot u f (foldl (rms_records u f) (new_rms u f name) vs)
            ≡ (record { name = name; value = root_mean_of f vs }, new_rms u f name))
  mean_snapshot-records vs = (avg_snapshot-total vs, rms_snapshot-total vs)
