-- ===== src/BTree/Laws.antt =====
-- The laws of the ordered association list.
use Prim.Native.Nat.{Ordering}
use rtactor_rs.Base.{◌≡◌, refl, ◌∙◌, [], ◌∷◌, none, some, arith}
use rtactor_rs.BTree.{Ord, BTreeMap, find, insert, remove, Above, IsSorted}

-- What a map that keeps `v` under `k` answers at `j`, and otherwise answers `rest`.
abbrev pub found {ℓ} : {A : Type ℓ} → Ordering → A → A → A
found Ordering.eq hit rest = hit
found _ hit rest = rest

module _ {K : Type 0} ⦃o : Ord K⦄ where
  cmp_cong_right : (a b c : K) → o.cmp a b ≡ Ordering.eq → o.cmp c a ≡ o.cmp c b
  cmp_cong_right a b c e = ground (
    arith,
    o.cmp_cong a b c e,
    o.cmp_flip a c,
    o.cmp_flip b c,
    o.cmp_flip c a,
    o.cmp_flip c b,
    o.cmp_back a c,
    o.cmp_back b c,
    o.cmp_back c a,
    o.cmp_back c b,
  )

module _ {K V : Type 0} ⦃o : Ord K⦄ where
  Above-trans : (k j : K) (m : BTreeMap K V) → o.cmp k j ≡ Ordering.lt → Above j m → Above k m
  Above-trans k j [] h a = tt
  Above-trans k j ((i, v) ∷ m) h a = (o.cmp_trans k j i h a.0, Above-trans k j m h a.1)

  Above-cong : (k j : K) (m : BTreeMap K V) → o.cmp k j ≡ Ordering.eq → Above j m → Above k m
  Above-cong k j [] h a = tt
  Above-cong k j ((i, v) ∷ m) h a = (o.cmp_cong k j i h ∙ a.0, Above-cong k j m h a.1)

  Above-insert :
      (k j : K) (v : V) (m : BTreeMap K V)
      → o.cmp k j ≡ Ordering.lt
      → Above k m
      → Above k (insert j v m)
  unfolding insert
  Above-insert k j v [] h a = (h, tt)
  Above-insert k j v ((i, w) ∷ m) h a = ground (arith, Above-insert k j v m h a.1)

  Above-remove : (k j : K) (m : BTreeMap K V) → Above k m → Above k (remove j m)
  unfolding remove
  Above-remove k j [] a = tt
  Above-remove k j ((i, w) ∷ m) a = ground (arith, Above-remove k j m a.1)

  pub insert-IsSorted : (k : K) (v : V) (m : BTreeMap K V) → IsSorted m → IsSorted (insert k v m)
  unfolding insert
  insert-IsSorted k v [] s = (tt, tt)
  insert-IsSorted k v ((j, w) ∷ m) s =
      ground
        (arith, Above-trans k j m, Above-insert j k v m, o.cmp_back k j, insert-IsSorted k v m s.1)

  pub remove-IsSorted : (k : K) (m : BTreeMap K V) → IsSorted m → IsSorted (remove k m)
  unfolding remove
  remove-IsSorted k [] s = tt
  remove-IsSorted k ((j, w) ∷ m) s = ground (arith, Above-remove j k m s.0, remove-IsSorted k m s.1)

  pub find-Above : (k : K) (m : BTreeMap K V) → Above k m → find k m ≡ none
  unfolding find
  find-Above k [] a = refl
  find-Above k ((j, w) ∷ m) a = ground arith

  -- `remove` of the least key gives the rest back, and `insert` below every key is a cons.
  pub remove_head : (k : K) (v : V) (m : BTreeMap K V) → remove k ((k, v) ∷ m) ≡ m
  unfolding remove
  remove_head k v m = ground (arith, o.cmp_self k)

  pub insert-Above : (k : K) (v : V) (m : BTreeMap K V) → Above k m → insert k v m ≡ (k, v) ∷ m
  unfolding insert
  insert-Above k v [] a = refl
  insert-Above k v ((j, w) ∷ m) a = ground arith

  pub find-insert :
      (j k : K) (v : V) (m : BTreeMap K V)
      → find j (insert k v m) ≡ found (o.cmp j k) (some v) (find j m)
  unfolding find insert
  find-insert j k v [] = ground arith
  find-insert j k v ((i, w) ∷ m) = ground (
    arith,
    find-insert j k v m,
    o.cmp_trans j k i,
    o.cmp_trans j i k,
    o.cmp_back k i,
    o.cmp_cong j i k,
    cmp_cong_right k i j,
  )

  pub find-remove :
      (j k : K) (m : BTreeMap K V)
      → IsSorted m
      → find j (remove k m) ≡ found (o.cmp j k) none (find j m)
  unfolding find remove
  find-remove j k [] s = ground arith
  find-remove j k ((i, w) ∷ m) s = ground (
    arith,
    find-remove j k m s.1,
    o.cmp_trans j k i,
    o.cmp_trans j i k,
    o.cmp_back k i,
    o.cmp_cong j i k,
    o.cmp_cong j k i,
    cmp_cong_right k i j,
    find-Above j m,
    Above-trans j i m,
    Above-cong j i m,
  )
