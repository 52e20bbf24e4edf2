-- ===== src/Profiling/Aggregator/Rounds.antt =====
-- The snapshot of the aggregator in src/profiling_aggregator.rs over all its names.
use rtactor_rs.Base.{
  ℕ, suc, ◌≡◌, refl, sym, ◌∙◌, ap, some, Option-cases, inl, inr, List, [], ◌∷◌, ◌++◌, All,
  All-append, arith, length, length-append, drop, drop-append, get_elem?-append, get_elem?,
  append-nil, append_assoc,
}
use rtactor_rs.BTree.{Ord, BTreeMap, find}
use rtactor_rs.Reactive.Instant.{Instant}
use rtactor_rs.Actor.Message.{Env, Addr, MetricEntry}
use rtactor_rs.Profiling.State.{ActorEntry}
use rtactor_rs.Profiling.Aggregator.{names_metric_lists}
use rtactor_rs.Profiling.Aggregator.Listed.{
  IsApart, IsApart-sym, IsDistinct, listed, listed-none, listed-some, find-insert_self,
  names-insert, names-none, names-some,
}
use rtactor_rs.Profiling.Aggregator.Snapshot.{with_addr, Answer, targets_of}
use rtactor_rs.Profiling.Aggregator.Round.{Goal, no_more, skip, ask, targets-answer, after_answer}

-- What is apart from each name of a list stays so when one more name is put at the list's end.
All-IsApart :
    {K : Type 0} ⦃o : Ord K⦄ (n : K) (ns done : List K)
    → All (IsApart n) ns
    → All (λ j. All (IsApart j) done) ns
    → All (λ j. All (IsApart j) (done ++ n ∷ [])) ns
All-IsApart n [] done a b = tt
All-IsApart n (j ∷ ns) done a b = (
  All-append (IsApart j) done (n ∷ []) b.0 (IsApart-sym n j a.0, tt),
  All-IsApart n ns done a.1 b.1,
)

names-answer :
    {u : Env} (n : u.Text) (done : List u.Text) (e : ActorEntry u) (list : List (MetricEntry u))
    (dict : BTreeMap u.Text (ActorEntry u))
    → All (IsApart ⦃o = u.text_ord⦄ n) done
    → names_metric_lists (after_answer n e list dict) (done ++ n ∷ [])
      ≡ names_metric_lists dict done ++ (n, list) ∷ []
names-answer {u} n done e list dict h =
    names-some _ n _ done (find-insert_self ⦃o = u.text_ord⦄ n _ _)
    ∙ ap (λ l. l ++ (n, list) ∷ []) (names-insert _ n _ done h ∙ names-insert dict n _ done h)

suc_zero : (k : ℕ) → suc k ≡ 0 → ⊥
suc_zero k h = omega arith

left : (a b c : ℕ) → suc a ≡ suc b → c ≡ b → a ≡ c
left a b c h k = omega arith

suc-done :
    {A : Type 0} (i : ℕ) (n : A) (done : List A) → i ≡ length done → suc i ≡ length (done ++ n ∷ [])
suc-done i n done h = omega (arith, length-append done (n ∷ []))

split_at :
    {A : Type 0} (l done ns : List A) (n : A) (i : ℕ)
    → l ≡ done ++ n ∷ ns
    → i ≡ length done
    → (get_elem? l i ≡ some n) × (drop (suc i) l ≡ ns) × (l ≡ (done ++ n ∷ []) ++ ns)
split_at l done ns n i e k =
    let e' = e ∙ sym (append_assoc done (n ∷ []) ns) in
    (
      ap (λ xs. get_elem? xs i) e ∙ ap (get_elem? (done ++ n ∷ ns)) k ∙ get_elem?-append done ns n,
      ap (drop (suc i)) e'
          ∙ ap (λ j. drop j ((done ++ n ∷ []) ++ ns)) (suc-done i n done k)
          ∙ drop-append (done ++ n ∷ []) ns,
      e',
    )

module _ {u : Env} (observers : BTreeMap Addr (Unit {0})) (l : List u.Text) (t : Instant) where
  pub rounds :
      (ns done : List u.Text) (dict : BTreeMap u.Text (ActorEntry u)) (i : ℕ)
      (got : List (u.Text × List (MetricEntry u))) (answers : List (Answer u))
      → l ≡ done ++ ns
      → i ≡ length done
      → got ≡ names_metric_lists dict done
      → IsDistinct ⦃o = u.text_ord⦄ ns
      → All (λ j. All (IsApart ⦃o = u.text_ord⦄ j) done) ns
      → length answers ≡ length (targets_of dict ns)
      → Goal observers l t ns got i dict answers
  unfolding listed
  rounds [] done dict i got [] e k g d a len =
      no_more observers l t got dict i
        (g ∙ ap (names_metric_lists dict) (sym (e ∙ append-nil done)))
  rounds [] done dict i got (x ∷ answers) e k g d a len = elim (suc_zero (length answers) len) [ ]
  rounds (n ∷ ns) done dict i got answers e k g d a len =
      let (here, rest, split) = split_at l done ns n i e k in
      let k' = suc-done i n done k in
      let apart = All-IsApart ⦃o = u.text_ord⦄ n ns done d.0 a.1 in
      elim (Option-cases (find ⦃o = u.text_ord⦄ n dict)) [
        | inl h ↦ skip observers l t n ns got dict i answers h (
            rounds ns (done ++ n ∷ []) dict (suc i) got answers split k'
              (g ∙ sym (names-none dict n done h)) d.1 apart
              (len ∙ ap length (listed-none ⦃o = u.text_ord⦄ with_addr dict n ns h)))
        | inr (entry, h) ↦
            elim answers
                as (λ answers'.
                  answers' ≡ answers → Goal observers l t (n ∷ ns) got i dict answers') [
                    | [] ↦ λ same.
                        elim (suc_zero _ (
                          sym (
                            ap length same
                            ∙ len
                            ∙ ap length
                                (listed-some ⦃o = u.text_ord⦄ with_addr dict n ns entry h)))) [ ]
                    | x ∷ answers' ↦ λ same.
                        ask observers l t n ns got dict entry i x answers' h here rest d.0 (
                          rounds ns (done ++ n ∷ []) (after_answer n entry x.list dict) (suc i)
                            (got ++ (n, x.list) ∷ []) answers' split k'
                            (ap (λ m. m ++ (n, x.list) ∷ []) g
                              ∙ sym (names-answer n done entry x.list dict a.0))
                            d.1 apart
                            (left (length answers') _ _
                              (ap length same
                                ∙ len
                                ∙ ap length
                                    (listed-some ⦃o = u.text_ord⦄ with_addr dict n ns entry h))
                              (ap length (targets-answer n ns entry x.list dict d.0))))
                  ]
              refl
      ]
