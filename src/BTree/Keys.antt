-- ===== src/BTree/Keys.antt =====
-- Orders for keys: the numbers, and values by a number that they hold.
use Prim.Native.Nat.{Ordering}
use rtactor_rs.Base.{ℕ, ◌≡◌, compare, arith}
use rtactor_rs.BTree.{Ord}

module _ {K : Type 0} (number : K → ℕ) where
  pub compare_self : (a : K) → compare (number a) (number a) ≡ Ordering.eq
  compare_self a = ground arith

  pub compare_flip :
      (a b : K)
      → compare (number a) (number b) ≡ Ordering.lt
      → compare (number b) (number a) ≡ Ordering.gt
  compare_flip a b h = ground arith

  pub compare_back :
      (a b : K)
      → compare (number a) (number b) ≡ Ordering.gt
      → compare (number b) (number a) ≡ Ordering.lt
  compare_back a b h = ground arith

  pub compare_trans :
      (a b c : K)
      → compare (number a) (number b) ≡ Ordering.lt
      → compare (number b) (number c) ≡ Ordering.lt
      → compare (number a) (number c) ≡ Ordering.lt
  compare_trans a b c h k = ground arith

  pub compare_cong :
      (a b c : K)
      → compare (number a) (number b) ≡ Ordering.eq
      → compare (number a) (number c) ≡ compare (number b) (number c)
  compare_cong a b c h = ground arith

  abbrev pub ord_by : Ord K
  ord_by = record {
    cmp = λ a b. compare (number a) (number b);
    cmp_self = compare_self;
    cmp_flip = compare_flip;
    cmp_back = compare_back;
    cmp_trans = compare_trans;
    cmp_cong = compare_cong;
  }

abbrev pub nat_ord : Ord ℕ
nat_ord = ord_by (λ n. n)
