-- ===== src/BTree/Sets.antt =====
-- What `retain` keeps.
use rtactor_rs.Base.{Bool, [], ◌∷◌, arith}
use rtactor_rs.BTree.{Ord, BTreeMap, retain, Above, IsSorted}

module _ {K V : Type 0} ⦃o : Ord K⦄ where
  Above-retain : (k : K) (keep : V → Bool) (m : BTreeMap K V) → Above k m → Above k (retain keep m)
  unfolding retain
  Above-retain k keep [] a = tt
  Above-retain k keep ((j, v) ∷ m) a = ground (arith, Above-retain k keep m a.1)

  pub retain-IsSorted : (keep : V → Bool) (m : BTreeMap K V) → IsSorted m → IsSorted (retain keep m)
  unfolding retain
  retain-IsSorted keep [] s = tt
  retain-IsSorted keep ((k, v) ∷ m) s =
      ground (arith, Above-retain k keep m s.0, retain-IsSorted keep m s.1)
