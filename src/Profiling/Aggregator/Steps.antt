-- ===== src/Profiling/Aggregator/Steps.antt =====
-- What `request_next`, `names_metric_lists` and `swap_list` of the aggregator do by whether a name is
-- registered.
use rtactor_rs.Base.{ℕ, suc, ◌≡◌, refl, Option, none, some, List, [], ◌∷◌}
use rtactor_rs.BTree.{BTreeMap, find, insert}
use rtactor_rs.Actor.Message.{Env, metrics_request}
use rtactor_rs.Actor.World.{World}
use rtactor_rs.Reactive.Context.{Context, send_request}
use rtactor_rs.Profiling.State.{ActorEntry}
use rtactor_rs.Profiling.Aggregator.{request_next}

module _ {u : Env} (dict : BTreeMap u.Text (ActorEntry u)) (name : u.Text) (rest : List u.Text)
    (index : ℕ) (c : Context) (w : World u) where
  pub request_next-none :
      find ⦃o = u.text_ord⦄ name dict ≡ none
      → request_next dict (name ∷ rest) index c w ≡ request_next dict rest (suc index) c w
  unfolding request_next
  request_next-none h = rw (h, request_next) refl

  -- The outcome when the actor under a name is asked.
  abbrev pub asked :
      ActorEntry u → Option ((BTreeMap u.Text (ActorEntry u) × ℕ × ℕ) × Context × World u)
  asked entry =
      let (id, c', w') = send_request c entry.addr (metrics_request (some [])) w in
      some (
        (insert ⦃o = u.text_ord⦄ name (record entry { metric_list = none }) dict, index, id),
        c',
        w',
      )

  pub request_next-some :
      (entry : ActorEntry u)
      → find ⦃o = u.text_ord⦄ name dict ≡ some entry
      → request_next dict (name ∷ rest) index c w ≡ asked entry
  unfolding request_next
  request_next-some entry h = rw (h, request_next) refl
