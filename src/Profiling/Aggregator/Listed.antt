-- ===== src/Profiling/Aggregator/Listed.antt =====
-- The registered names of a list in the dictionary of an aggregator, and how a change under one name
-- shows in them.
use rtactor_rs.Base.{
  sym, append-nil, ◌≡◌, ◌≢◌, refl, ◌∙◌, ap, Option, none, some, List, [], ◌∷◌, ◌++◌, All, arith,
}
use Prim.Native.Nat.{Ordering}
use rtactor_rs.BTree.{Ord, BTreeMap, find, insert}
use rtactor_rs.BTree.Laws.{found, find-insert}
use rtactor_rs.Actor.Message.{Env, MetricEntry}
use rtactor_rs.Profiling.State.{ActorEntry}
use rtactor_rs.Profiling.Aggregator.{names_metric_lists, list_of, swap_list}

module _ {K : Type 0} ⦃o : Ord K⦄ where
  -- The keys differ.
  abbrev pub IsApart : K → K → Type 0
  IsApart a b = o.cmp a b ≢ Ordering.eq

  pub IsApart-sym : (a b : K) → IsApart a b → IsApart b a
  IsApart-sym a b h = ground (arith, o.cmp_flip a b, o.cmp_back a b)

  pub lt-IsApart : (a b : K) → o.cmp a b ≡ Ordering.lt → IsApart a b
  lt-IsApart a b h = ground arith

  -- Every name stands once in a list.
  abbrev pub IsDistinct : List K → Type 0
  IsDistinct [] = Unit
  IsDistinct (n ∷ ns) = All (IsApart n) ns × IsDistinct ns

module _ {K V : Type 0} ⦃o : Ord K⦄ where
  pub find-insert_self : (n : K) (v : V) (m : BTreeMap K V) → find n (insert n v m) ≡ some v
  find-insert_self n v m =
      find-insert n n v m ∙ ap (λ c. found c (some v) (find n m)) (o.cmp_self n)

module _ {K V X : Type 0} ⦃o : Ord K⦄ (f : K → V → X) where
  listed_step : K → Option V → List X → List X
  listed_step n none rest = rest
  listed_step n (some e) rest = f n e ∷ rest

  -- What stands under the names that are in a map.
  unfoldable pub listed : BTreeMap K V → List K → List X
  unfolding listed_step
  listed m [] = []
  listed m (n ∷ ns) = listed_step n (find n m) (listed m ns)

  pub listed-none :
      (m : BTreeMap K V) (n : K) (ns : List K) → find n m ≡ none → listed m (n ∷ ns) ≡ listed m ns
  unfolding listed
  listed-none m n ns h = ap (λ e. listed_step n e (listed m ns)) h

  pub listed-some :
      (m : BTreeMap K V) (n : K) (ns : List K) (e : V)
      → find n m ≡ some e
      → listed m (n ∷ ns) ≡ f n e ∷ listed m ns
  unfolding listed
  listed-some m n ns e h = ap (λ e. listed_step n e (listed m ns)) h

  pub listed-append :
      (m : BTreeMap K V) (xs ys : List K) → listed m (xs ++ ys) ≡ listed m xs ++ listed m ys
  unfolding listed
  listed-append m [] ys = refl
  listed-append m (n ∷ xs) ys = ground (arith, listed-append m xs ys)

  pub listed-insert :
      (m : BTreeMap K V) (n : K) (e : V) (ns : List K)
      → All (IsApart n) ns
      → listed (insert n e m) ns ≡ listed m ns
  unfolding listed
  listed-insert m n e [] a = refl
  listed-insert m n e (j ∷ ns) a =
      ground (arith, find-insert j n e m, IsApart-sym n j a.0, listed-insert m n e ns a.1)

module _ {u : Env} where
  abbrev pub with_list : u.Text → ActorEntry u → u.Text × List (MetricEntry u)
  with_list n e = (n, list_of e.metric_list)

  pub names_metric_lists-listed :
      (dict : BTreeMap u.Text (ActorEntry u)) (ns : List u.Text)
      → names_metric_lists dict ns ≡ listed ⦃o = u.text_ord⦄ with_list dict ns
  unfolding names_metric_lists listed
  names_metric_lists-listed dict [] = refl
  names_metric_lists-listed dict (n ∷ ns) = ground (arith, names_metric_lists-listed dict ns)

  -- The list that an actor gave is put in the place of the one that was taken.
  pub swap_list-insert :
      (dict : BTreeMap u.Text (ActorEntry u)) (n : u.Text) (e : ActorEntry u)
      (list : Option (List (MetricEntry u)))
      → swap_list n list (insert ⦃o = u.text_ord⦄ n e dict)
        ≡ insert ⦃o = u.text_ord⦄ n
            (record e { metric_list = list })
            (insert ⦃o = u.text_ord⦄ n e dict)
  unfolding swap_list
  swap_list-insert dict n e list = rw (find-insert_self ⦃o = u.text_ord⦄ n e dict, swap_list) refl

  pub names-insert :
      (dict : BTreeMap u.Text (ActorEntry u)) (n : u.Text) (e : ActorEntry u) (ns : List u.Text)
      → All (IsApart ⦃o = u.text_ord⦄ n) ns
      → names_metric_lists (insert ⦃o = u.text_ord⦄ n e dict) ns ≡ names_metric_lists dict ns
  names-insert dict n e ns h =
      names_metric_lists-listed _ ns
      ∙ listed-insert ⦃o = u.text_ord⦄ with_list dict n e ns h
      ∙ sym (names_metric_lists-listed dict ns)

  names-append :
      (dict : BTreeMap u.Text (ActorEntry u)) (xs ys : List u.Text)
      → names_metric_lists dict (xs ++ ys)
        ≡ names_metric_lists dict xs ++ names_metric_lists dict ys
  unfolding names_metric_lists
  names-append dict [] ys = refl
  names-append dict (x ∷ xs) ys = ground (arith, names-append dict xs ys)

  pub names-none :
      (dict : BTreeMap u.Text (ActorEntry u)) (n : u.Text) (xs : List u.Text)
      → find ⦃o = u.text_ord⦄ n dict ≡ none
      → names_metric_lists dict (xs ++ n ∷ []) ≡ names_metric_lists dict xs
  unfolding listed
  names-none dict n xs h =
      let none_there =
        names_metric_lists-listed dict (n ∷ [])
        ∙ listed-none ⦃o = u.text_ord⦄ with_list dict n [] h in
      names-append dict xs (n ∷ [])
      ∙ ap (λ l. names_metric_lists dict xs ++ l) none_there
      ∙ append-nil _

  pub names-some :
      (dict : BTreeMap u.Text (ActorEntry u)) (n : u.Text) (e : ActorEntry u) (xs : List u.Text)
      → find ⦃o = u.text_ord⦄ n dict ≡ some e
      → names_metric_lists dict (xs ++ n ∷ []) ≡ names_metric_lists dict xs ++ with_list n e ∷ []
  unfolding listed
  names-some dict n e xs h =
      let one_there =
        names_metric_lists-listed dict (n ∷ [])
        ∙ listed-some ⦃o = u.text_ord⦄ with_list dict n [] e h in
      names-append dict xs (n ∷ []) ∙ ap (λ l. names_metric_lists dict xs ++ l) one_there
