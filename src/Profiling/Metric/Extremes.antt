-- ===== src/Profiling/Metric/Extremes.antt =====
-- The least and the greatest record, as the metrics of src/profiled_actor.rs keep them.
use rtactor_rs.Base.{
  ℕ, suc, ◌≡◌, refl, sym, ◌∙◌, ap, subst, ◌⊎◌, inl, inr, some, List, [], ◌∷◌, All, get_elem?,
}
use rtactor_rs.Actor.Message.{Env, MetricEntry}
use rtactor_rs.Profiling.Metric.{
  Floats, new_min, min_snapshot, min_records, new_max, max_snapshot, max_records,
}
use rtactor_rs.Profiling.Metric.Records.{foldl}

-- The order of `f64`: partial, as no comparison holds of a value that is not a number.
pub record FloatOrder (F : Type 0) : Type 1 where
  pub IsNan : F → Type 0
  pub Le : F → F → Type 0
  pub nan_cases : (a : F) → IsNan a ⊎ ¬ IsNan a
  pub le_refl : (a : F) → ¬ IsNan a → Le a a
  pub le_trans : (a b c : F) → Le a b → Le b c → Le a c

-- What `f64::min` and, in the order turned round, `f64::max` promise: one of the two, beyond
-- neither, and what is not a number is ignored.
pub record IsExtreme {F : Type 0} (o : FloatOrder F) (Le : F → F → Type 0) (op : F → F → F)
    : Type 0 where
  pub op_nan : (a b : F) → o.IsNan b → op a b ≡ a
  pub op_left : (a b : F) → ¬ o.IsNan a → ¬ o.IsNan b → Le (op a b) a
  pub op_right : (a b : F) → ¬ o.IsNan a → ¬ o.IsNan b → Le (op a b) b
  pub op_choice : (a b : F) → (op a b ≡ a) ⊎ (op a b ≡ b)

-- The first value or one of a list, and beyond each number in it.
abbrev pub IsBest : {F : Type 0} → FloatOrder F → (F → F → Type 0) → F → List F → F → Type 0
IsBest o Le first vs v =
    All (λ x. ¬ o.IsNan x → Le v x) vs × ((v ≡ first) ⊎ ((i : ℕ) × (get_elem? vs i ≡ some v)))

module _ {F : Type 0} (o : FloatOrder F) (Le : F → F → Type 0)
    (le_refl : (a : F) → ¬ o.IsNan a → Le a a) (le_trans : (a b c : F) → Le a b → Le b c → Le a c)
    (op : F → F → F) (laws : IsExtreme o Le op) where
  chosen : (a b : F) → ¬ o.IsNan a → ¬ o.IsNan b → ¬ o.IsNan (op a b)
  chosen a b ha hb = elim (laws.op_choice a b) [
    | inl e ↦ subst (λ x. ¬ o.IsNan x) (sym e) ha
    | inr e ↦ subst (λ x. ¬ o.IsNan x) (sym e) hb
  ]

  later :
      (first x v : F) (vs : List F)
      → (v ≡ op first x) ⊎ ((i : ℕ) × (get_elem? vs i ≡ some v))
      → (v ≡ first) ⊎ ((i : ℕ) × (get_elem? (x ∷ vs) i ≡ some v))
  later first x v vs (inr (i, h)) = inr (suc i, h)
  later first x v vs (inl h) = elim (laws.op_choice first x) [
    | inl e ↦ inl (h ∙ e)
    | inr e ↦ inr (0, ap some (sym (h ∙ e)))
  ]

  pub foldl-IsBest :
      (vs : List F) (first : F)
      → ¬ o.IsNan first
      → Le (foldl op first vs) first × IsBest o Le first vs (foldl op first vs)
  foldl-IsBest [] first h = (le_refl first h, (tt, inl refl))
  foldl-IsBest (x ∷ vs) first h = elim (o.nan_cases x) [
    | inl n ↦
        let e = laws.op_nan first x n in
        let (below, (each, source)) =
          foldl-IsBest vs (op first x) (subst (λ y. ¬ o.IsNan y) (sym e) h) in
        (
          subst (Le (foldl op (op first x) vs)) e below,
          (((λ number. elim (number n) [ ]), each), later first x _ vs source),
        )
    | inr number ↦
        let (below, (each, source)) = foldl-IsBest vs (op first x) (chosen first x h number) in
        (
          le_trans _ _ _ below (laws.op_left first x h number),
          (
            ((λ k. le_trans _ _ _ below (laws.op_right first x h number)), each),
            later first x _ vs source,
          ),
        )
  ]

-- What a snapshot gives, and what it leaves.
abbrev pub Gives :
    {u : Env} {M : Type 0} → u.Text → (u.Float → Type 0) → M → MetricEntry u × M → Type 0
Gives name P m (e, m') = (e.name ≡ name) × P e.value × (m' ≡ m)

module _ (u : Env) (f : Floats u.Float) (name : u.Text) where
  foldl-min_records :
      (vs : List u.Float) (v : u.Float)
      → foldl (min_records u f) (record { name = name; value = v }) vs
        ≡ (record { name = name; value = foldl f.min v vs })
  unfolding min_records
  foldl-min_records [] v = refl
  foldl-min_records (x ∷ vs) v = foldl-min_records vs (f.min v x)

  foldl-max_records :
      (vs : List u.Float) (v : u.Float)
      → foldl (max_records u f) (record { name = name; value = v }) vs
        ≡ (record { name = name; value = foldl f.max v vs })
  unfolding max_records
  foldl-max_records [] v = refl
  foldl-max_records (x ∷ vs) v = foldl-max_records vs (f.max v x)

  module _ (o : FloatOrder u.Float) (min_laws : IsExtreme o o.Le f.min)
      (max_laws : IsExtreme o (λ a b. o.Le b a) f.max) where
    -- After any records of a new metric, a snapshot of a MinMetric gives a value that is below each
    -- record that is a number and is one of the records or infinity, and one of a MaxMetric a value that
    -- is above each such record and is one of the records or minus infinity; the metric is then as new.
    -- It is asked that neither infinity is NaN, and that `min` and `max` do as documented.
    pub extreme_snapshot-records :
        (vs : List u.Float)
        → ¬ o.IsNan f.infinity_value
        → ¬ o.IsNan (f.negate f.infinity_value)
        → Gives {u = u} name
            (IsBest o o.Le f.infinity_value vs)
            (new_min u f name)
            (min_snapshot u f (foldl (min_records u f) (new_min u f name) vs))
          × Gives {u = u} name
              (IsBest o (λ a b. o.Le b a) (f.negate f.infinity_value) vs)
              (new_max u f name)
              (max_snapshot u f (foldl (max_records u f) (new_max u f name) vs))
    unfolding new_min new_max min_snapshot max_snapshot
    extreme_snapshot-records vs h k = (
      rw (foldl-min_records vs f.infinity_value) (
        refl,
        (foldl-IsBest o o.Le o.le_refl o.le_trans f.min min_laws vs f.infinity_value h).1,
        refl,
      ),
      rw (foldl-max_records vs (f.negate f.infinity_value)) (
        refl,
        (foldl-IsBest o (λ a b. o.Le b a) o.le_refl (λ a b c x y. o.le_trans c b a y x) f.max
            max_laws vs (f.negate f.infinity_value) k).1,
        refl,
      ),
    )
