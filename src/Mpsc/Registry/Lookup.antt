-- ===== src/Mpsc/Registry/Lookup.antt =====
-- The registered behaviours as a map from actor ids, and what each operation does to it.
use rtactor_rs.Base.{
  ℕ, zero, suc, ◌+◌, ◌<◌, ◌≤◌, ◌≡◌, refl, Option, none, some, List, [], ◌∷◌, ◌++◌, arith, ◌==◌,
  if◌then◌else◌, get_elem?, set, erase_idx,
}
use rtactor_rs.Mpsc.Registry.{index_of, insert_by_key, sort_by_key}

module _ {B : Type 0} where
  -- The behaviour of an actor.
  abbrev pub behavior_at : ℕ → List (ℕ × B) → Option B
  behavior_at id [] = none
  behavior_at id ((k, b) ∷ l) = if k == id then some b else behavior_at id l

  -- Ids rise along the list, from a bound on and below another.
  abbrev pub Ordered : ℕ → ℕ → List (ℕ × B) → Type 0
  Ordered lo hi [] = lo ≤ hi
  Ordered lo hi ((k, b) ∷ l) = (lo ≤ k) × Ordered (k + 1) hi l

  Ordered-le : (lo hi : ℕ) (l : List (ℕ × B)) → Ordered lo hi l → lo ≤ hi
  Ordered-le lo hi [] o = o
  Ordered-le lo hi ((k, b) ∷ l) o = omega (arith, Ordered-le (k + 1) hi l o.1)

  Ordered-mono :
      (lo lo' hi hi' : ℕ) (l : List (ℕ × B))
      → lo' ≤ lo
      → hi ≤ hi'
      → Ordered lo hi l
      → Ordered lo' hi' l
  Ordered-mono lo lo' hi hi' [] p q o = omega arith
  Ordered-mono lo lo' hi hi' ((k, b) ∷ l) p q o =
      (omega arith, Ordered-mono (k + 1) (k + 1) hi hi' l (omega arith) q o.1)

  pub Ordered-append :
      (lo hi : ℕ) (l : List (ℕ × B)) (b : B)
      → Ordered lo hi l
      → Ordered lo (hi + 1) (l ++ (hi, b) ∷ [])
  Ordered-append lo hi [] b o = omega arith
  Ordered-append lo hi ((k, c) ∷ l) b o = (o.0, Ordered-append (k + 1) hi l b o.1)

  insert_first :
      (k hi : ℕ) (c : B) (l : List (ℕ × B))
      → Ordered (k + 1) hi l
      → insert_by_key (k, c) l ≡ (k, c) ∷ l
  unfolding insert_by_key
  insert_first k hi c [] o = refl
  insert_first k hi c ((j, d) ∷ l) o = ground arith

  pub sort_by_key-append :
      (lo hi : ℕ) (l : List (ℕ × B)) (b : B)
      → Ordered lo hi l
      → sort_by_key (l ++ (hi, b) ∷ []) ≡ l ++ (hi, b) ∷ []
  unfolding sort_by_key insert_by_key
  sort_by_key-append lo hi [] b o = refl
  sort_by_key-append lo hi ((k, c) ∷ l) b o =
      rw (sort_by_key-append (k + 1) hi l b o.1)
        (insert_first k (hi + 1) c (l ++ (hi, b) ∷ []) (Ordered-append (k + 1) hi l b o.1))

  pub behavior_at-append :
      (lo hi id : ℕ) (l : List (ℕ × B)) (b : B)
      → Ordered lo hi l
      → behavior_at id (l ++ (hi, b) ∷ []) ≡ (if hi == id then some b else behavior_at id l)
  behavior_at-append lo hi id [] b o = refl
  behavior_at-append lo hi id ((k, c) ∷ l) b o =
      ground (arith, behavior_at-append (k + 1) hi id l b o.1, Ordered-le (k + 1) hi l o.1)

  behavior_at-above :
      (lo hi id : ℕ) (l : List (ℕ × B)) → Ordered lo hi l → id < lo → behavior_at id l ≡ none
  behavior_at-above lo hi id [] o h = refl
  behavior_at-above lo hi id ((k, c) ∷ l) o h =
      ground (arith, behavior_at-above (k + 1) hi id l o.1)

  pub behavior_at-fresh : (lo hi : ℕ) (l : List (ℕ × B)) → Ordered lo hi l → behavior_at hi l ≡ none
  behavior_at-fresh lo hi [] o = refl
  behavior_at-fresh lo hi ((k, c) ∷ l) o =
      ground (arith, behavior_at-fresh (k + 1) hi l o.1, Ordered-le (k + 1) hi l o.1)

  pub index_of-none : (id : ℕ) (l : List (ℕ × B)) → index_of id l ≡ none → behavior_at id l ≡ none
  unfolding index_of
  index_of-none id [] e = refl
  index_of-none id ((k, c) ∷ l) e = ground (arith, index_of-none id l)

  pub index_of-some :
      (id : ℕ) (l : List (ℕ × B)) (i : ℕ)
      → index_of id l ≡ some i
      → (b : B) × (behavior_at id l ≡ some b) × (get_elem? l i ≡ some (id, b))
  unfolding index_of
  index_of-some id [] i e = cc
  index_of-some id ((k, c) ∷ l) zero e = (c, ground arith, ground arith)
  index_of-some id ((k, c) ∷ l) (suc i) e =
      let (b, p, q) = index_of-some id l i (ground arith) in (b, ground arith, ground arith)

  pub behavior_at-set :
      (id j : ℕ) (l : List (ℕ × B)) (i : ℕ) (b : B)
      → index_of id l ≡ some i
      → behavior_at j (set l i (id, b)) ≡ (if id == j then some b else behavior_at j l)
  unfolding index_of
  behavior_at-set id j [] i b e = cc
  behavior_at-set id j ((k, c) ∷ l) zero b e = ground arith
  behavior_at-set id j ((k, c) ∷ l) (suc i) b e = ground (arith, behavior_at-set id j l i b)

  pub Ordered-set :
      (lo hi id : ℕ) (l : List (ℕ × B)) (i : ℕ) (b : B)
      → index_of id l ≡ some i
      → Ordered lo hi l
      → Ordered lo hi (set l i (id, b))
  unfolding index_of
  Ordered-set lo hi id [] i b e o = cc
  Ordered-set lo hi id ((k, c) ∷ l) zero b e o = let q : id ≡ k = ground arith in rw q (o.0, o.1)
  Ordered-set lo hi id ((k, c) ∷ l) (suc i) b e o =
      (o.0, Ordered-set (k + 1) hi id l i b (ground arith) o.1)

  pub behavior_at-erase_idx :
      (lo hi id j : ℕ) (l : List (ℕ × B)) (i : ℕ)
      → Ordered lo hi l
      → index_of id l ≡ some i
      → behavior_at j (erase_idx l i) ≡ (if id == j then none else behavior_at j l)
  unfolding index_of
  behavior_at-erase_idx lo hi id j [] i o e = cc
  behavior_at-erase_idx lo hi id j ((k, c) ∷ l) zero o e =
      ground (arith, behavior_at-above (k + 1) hi j l o.1)
  behavior_at-erase_idx lo hi id j ((k, c) ∷ l) (suc i) o e =
      ground (arith, behavior_at-erase_idx (k + 1) hi id j l i o.1)

  pub Ordered-erase_idx :
      (lo hi : ℕ) (l : List (ℕ × B)) (i : ℕ) → Ordered lo hi l → Ordered lo hi (erase_idx l i)
  Ordered-erase_idx lo hi [] i o = o
  Ordered-erase_idx lo hi ((k, c) ∷ l) zero o =
      Ordered-mono (k + 1) lo hi hi l (omega arith) (omega arith) o.1
  Ordered-erase_idx lo hi ((k, c) ∷ l) (suc i) o = (o.0, Ordered-erase_idx (k + 1) hi l i o.1)
