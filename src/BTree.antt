-- ===== src/BTree.antt =====
-- `std::collections::BTreeMap` as src/reactive.rs and src/profiling_aggregator.rs use it: an
-- association list in the order of its keys. The keys' `cmp` and its laws are an interface that each key type fills.
pub mod Laws
pub mod Keys
pub mod Sets
use Prim.Native.Nat.{Ordering}
use rtactor_rs.Base.{◌≡◌, Bool, map, if◌then◌else◌, List, [], ◌∷◌, Option, none, some}

-- What `Ord::cmp` promises. Keys that compare as equal need not be the same value.
pub record Ord (K : Type 0) : Type 0 where
  pub cmp : K → K → Ordering
  pub cmp_self : (a : K) → cmp a a ≡ Ordering.eq
  pub cmp_flip : (a b : K) → cmp a b ≡ Ordering.lt → cmp b a ≡ Ordering.gt
  pub cmp_back : (a b : K) → cmp a b ≡ Ordering.gt → cmp b a ≡ Ordering.lt
  pub cmp_trans :
      (a b c : K) → cmp a b ≡ Ordering.lt → cmp b c ≡ Ordering.lt → cmp a c ≡ Ordering.lt
  pub cmp_cong : (a b c : K) → cmp a b ≡ Ordering.eq → cmp a c ≡ cmp b c

abbrev pub BTreeMap : Type 0 → Type 0 → Type 0
BTreeMap K V = List (K × V)

module _ {K V : Type 0} where
  -- `keys`.
  abbrev pub keys : BTreeMap K V → List K
  keys = map (λ e. e.0)

module _ {K V : Type 0} ⦃o : Ord K⦄ where
  -- `get`.
  unfoldable pub find : K → BTreeMap K V → Option V
  find k [] = none
  find k ((j, v) ∷ m) = elim (o.cmp k j) [
    | Ordering.lt ↦ none
    | Ordering.eq ↦ some v
    | Ordering.gt ↦ find k m
  ]

  -- `insert`: an equal key stays and takes the new value.
  unfoldable pub insert : K → V → BTreeMap K V → BTreeMap K V
  insert k v [] = (k, v) ∷ []
  insert k v ((j, w) ∷ m) = elim (o.cmp k j) [
    | Ordering.lt ↦ (k, v) ∷ (j, w) ∷ m
    | Ordering.eq ↦ (j, v) ∷ m
    | Ordering.gt ↦ (j, w) ∷ insert k v m
  ]

  -- `remove`, and `OccupiedEntry::remove`.
  unfoldable pub remove : K → BTreeMap K V → BTreeMap K V
  remove k [] = []
  remove k ((j, w) ∷ m) = elim (o.cmp k j) [
    | Ordering.lt ↦ (j, w) ∷ m
    | Ordering.eq ↦ m
    | Ordering.gt ↦ (j, w) ∷ remove k m
  ]

  -- `retain`, by what is kept.
  unfoldable pub retain : (V → Bool) → BTreeMap K V → BTreeMap K V
  retain keep [] = []
  retain keep ((k, v) ∷ m) = if keep v then (k, v) ∷ retain keep m else retain keep m

  -- A key is below every key of a map.
  abbrev pub Above : K → BTreeMap K V → Type 0
  Above k [] = Unit
  Above k ((j, w) ∷ m) = (o.cmp k j ≡ Ordering.lt) × Above k m

  abbrev pub IsSorted : BTreeMap K V → Type 0
  IsSorted [] = Unit
  IsSorted ((k, v) ∷ m) = Above k m × IsSorted m
