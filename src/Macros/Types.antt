-- ===== src/Macros/Types.antt =====
-- How what the macros of src/rtactor-macros/src/lib.rs generate fits together.
use rtactor_rs.Base.{
  ◌⊎◌, inl, inr, ◌≡◌, refl, ◌∙◌, ap, Bool, true, false, Option, none, some, List, [], ◌∷◌, map,
}
use rtactor_rs.Macros.Syntax.{
  Syntax, Args, type_args, no_args, malformed_args, Fields, named, unnamed, unit, Variant, Data,
  Attribute, enum_data, other_data, DeriveInput, ResponseVariant, RequestMethod, Trait,
  sync_accessor, async_accessor,
}
use rtactor_rs.Macros.Derive.{
  cons_variant, each_variant, map_option, find_response_val, response_at, response_variant,
  derive_response_enum, return_type_at, sync_method, sync_variant, derive_sync_requester,
  async_method, async_variant, derive_async_requester,
}

abbrev pub BindsPayload : {T : Type 0} → Bool → Option T → Type 0
BindsPayload true (some t) = Unit
BindsPayload false none = Unit
BindsPayload _ _ = ⊥

module _ {s : Syntax} where
  -- The variant of `Response` that a method takes for a success.
  abbrev pub matched : RequestMethod s → ResponseVariant s
  matched m = record { name = m.ok_variant; payload = m.return_type }

  -- A method builds a variant of the derived enum from its parameters, which are the fields of the
  -- variant, but one without fields as a variant of `Request`.
  abbrev pub BuildsFrom : s.Ident → Fields s → RequestMethod s → Type 0
  BuildsFrom e (named fields) m =
      (m.params ≡ fields)
      × (m.builds.enum_name ≡ e)
      × (m.builds.fields ≡ some (map (λ p. p.0) fields))
  BuildsFrom e unit m =
      (m.params ≡ []) × (m.builds.enum_name ≡ s.request_ident) × (m.builds.fields ≡ none)
  BuildsFrom e unnamed m = ⊥

  -- The method of a variant: its name, what it builds and what it takes for a success.
  abbrev pub IsMethodOf : s.Ident → Variant s → RequestMethod s → Type 0
  IsMethodOf e v m =
      (m.is_async ≡ false)
      × (m.name ≡ s.to_snake v.ident)
      × (m.builds.variant ≡ v.ident)
      × (m.ok_variant ≡ v.ident)
      × BuildsFrom e v.fields m
      × BindsPayload m.binds_data m.return_type

  -- There is a method for each variant, in order.
  abbrev pub AreMethodsOf : s.Ident → List (Variant s) → List (RequestMethod s) → Type 0
  AreMethodsOf e [] [] = Unit
  AreMethodsOf e (v ∷ vs) (m ∷ ms) = IsMethodOf e v m × AreMethodsOf e vs ms
  AreMethodsOf e _ _ = ⊥

  abbrev pub as_async : RequestMethod s → RequestMethod s
  as_async m = record m { is_async = true }

  -- What a derived response and a derived method have to do with each other.
  Fit : s.Ident → Variant s → Option (ResponseVariant s) → Option (RequestMethod s) → Type 0
  Fit e v r none = (r ≡ none) ⊎ (v.fields ≡ unnamed)
  Fit e v none (some m) = ⊥
  Fit e v (some r) (some m) = (r ≡ matched m) × IsMethodOf e v m

  -- Some variant has fields without names.
  abbrev pub HasUnnamed : List (Variant s) → Type 0
  HasUnnamed [] = ⊥
  HasUnnamed (v ∷ vs) = (v.fields ≡ unnamed) ⊎ HasUnnamed vs

  FitAll :
      s.Ident
      → List (Variant s)
      → Option (List (ResponseVariant s))
      → Option (List (RequestMethod s))
      → Type 0
  FitAll e vs rs none = (rs ≡ none) ⊎ HasUnnamed vs
  FitAll e vs none (some ms) = ⊥
  FitAll e vs (some rs) (some ms) = (rs ≡ map matched ms) × AreMethodsOf e vs ms

  method-Fit :
      (e name : s.Ident) (attrs : List (Attribute s)) (a : Option (Args s)) (f : Fields s)
      → Fit e
          (record { ident = name; attrs = attrs; fields = f })
          (response_at name a)
          (sync_method e name (return_type_at a) f)
  unfolding Fit response_at sync_method return_type_at
  method-Fit e name attrs none (named fields) =
      (refl, (refl, refl, refl, refl, (refl, refl, refl), tt))
  method-Fit e name attrs none unit = (refl, (refl, refl, refl, refl, (refl, refl, refl), tt))
  method-Fit e name attrs none unnamed = inr refl
  method-Fit e name attrs (some (type_args t)) (named fields) =
      (refl, (refl, refl, refl, refl, (refl, refl, refl), tt))
  method-Fit e name attrs (some (type_args t)) unit =
      (refl, (refl, refl, refl, refl, (refl, refl, refl), tt))
  method-Fit e name attrs (some (type_args t)) unnamed = inr refl
  method-Fit e name attrs (some no_args) (named fields) =
      (refl, (refl, refl, refl, refl, (refl, refl, refl), tt))
  method-Fit e name attrs (some no_args) unit =
      (refl, (refl, refl, refl, refl, (refl, refl, refl), tt))
  method-Fit e name attrs (some no_args) unnamed = inr refl
  method-Fit e name attrs (some malformed_args) f = inl refl

  cons_variant-none :
      (r : Option (ResponseVariant s)) (rs : Option (List (ResponseVariant s)))
      → rs ≡ none
      → cons_variant r rs ≡ none
  unfolding cons_variant
  cons_variant-none none rs h = refl
  cons_variant-none (some r) rs h = ap (cons_variant (some r)) h

  cons_variant-FitAll :
      (e : s.Ident) (v : Variant s) (vs : List (Variant s)) (r : Option (ResponseVariant s))
      (m : Option (RequestMethod s)) (rs : Option (List (ResponseVariant s)))
      (ms : Option (List (RequestMethod s)))
      → Fit e v r m
      → FitAll e vs rs ms
      → FitAll e (v ∷ vs) (cons_variant r rs) (cons_variant m ms)
  unfolding Fit FitAll cons_variant
  cons_variant-FitAll e v vs r none rs ms (inl p) a = inl (ap (λ x. cons_variant x rs) p)
  cons_variant-FitAll e v vs r none rs ms (inr p) a = inr (inl p)
  cons_variant-FitAll e v vs r (some m) rs none f (inl p) = inl (cons_variant-none r rs p)
  cons_variant-FitAll e v vs r (some m) rs none f (inr p) = inr (inr p)
  cons_variant-FitAll e v vs none (some m) rs (some ms) f a = elim f [ ]
  cons_variant-FitAll e v vs (some r) (some m) none (some ms) f a = elim a [ ]
  cons_variant-FitAll e v vs (some r) (some m) (some rs) (some ms) f a =
      (ap (λ x. x ∷ rs) f.0 ∙ ap (λ xs. matched m ∷ xs) a.0, (f.1, a.1))

  variants-FitAll :
      (e : s.Ident) (vs : List (Variant s))
      → FitAll e vs (each_variant response_variant vs) (each_variant (sync_variant e) vs)
  unfolding FitAll each_variant response_variant sync_variant
  variants-FitAll e [] = (refl, tt)
  variants-FitAll e (v ∷ vs) =
      cons_variant-FitAll e v vs _ _ _ _
        (method-Fit e v.ident v.attrs (find_response_val v.attrs) v.fields) (variants-FitAll e vs)

  method-async :
      (e name : s.Ident) (r : Option (Option s.Ty)) (f : Fields s)
      → async_method e name r f ≡ map_option as_async (sync_method e name r f)
  unfolding sync_method async_method
  method-async e name none f = refl
  method-async e name (some r) (named fields) = refl
  method-async e name (some r) unit = refl
  method-async e name (some r) unnamed = refl

  cons_variant-async :
      (m : Option (RequestMethod s)) (ms : Option (List (RequestMethod s)))
      → cons_variant (map_option as_async m) (map_option (map as_async) ms)
        ≡ map_option (map as_async) (cons_variant m ms)
  unfolding cons_variant
  cons_variant-async none ms = refl
  cons_variant-async (some m) none = refl
  cons_variant-async (some m) (some ms) = refl

  variants-async :
      (e : s.Ident) (vs : List (Variant s))
      → each_variant (async_variant e) vs
        ≡ map_option (map as_async) (each_variant (sync_variant e) vs)
  unfolding each_variant async_variant sync_variant
  variants-async e [] = refl
  variants-async e (v ∷ vs) =
      ap (λ m. cons_variant m (each_variant (async_variant e) vs))
        (method-async e v.ident _ v.fields)
      ∙ ap (cons_variant (map_option as_async (sync_variant e v))) (variants-async e vs)
      ∙ cons_variant-async (sync_variant e v) _

  -- A trait that extends the asynchronous accessor in place of the other.
  abbrev pub made_async : Trait (RequestMethod s) → Trait (RequestMethod s)
  made_async (sync_accessor ms) = async_accessor (map as_async ms)
  made_async (async_accessor ms) = async_accessor ms

  -- The methods fit the derived `Response`, or there is a reason why there are none.
  abbrev pub FitsResponse :
      s.Ident
      → Data s
      → Option (List (ResponseVariant s))
      → Option (Trait (RequestMethod s))
      → Type 0
  FitsResponse e other_data rs none = Unit
  FitsResponse e (enum_data vs) rs none = (rs ≡ none) ⊎ HasUnnamed vs
  FitsResponse e d rs (some (async_accessor ms)) = ⊥
  FitsResponse e other_data rs (some (sync_accessor ms)) = ⊥
  FitsResponse e (enum_data vs) rs (some (sync_accessor ms)) =
      (rs ≡ some (map matched ms)) × AreMethodsOf e vs ms

  FitAll-FitsResponse :
      (e : s.Ident) (vs : List (Variant s)) (rs : Option (List (ResponseVariant s)))
      (ms : Option (List (RequestMethod s)))
      → FitAll e vs rs ms
      → FitsResponse e (enum_data vs) rs (map_option sync_accessor ms)
  unfolding FitAll
  FitAll-FitsResponse e vs rs none f = f
  FitAll-FitsResponse e vs none (some ms) f = elim f [ ]
  FitAll-FitsResponse e vs (some rs) (some ms) f = (ap some f.0, f.1)

  made_async-map :
      (ms : Option (List (RequestMethod s)))
      → map_option async_accessor (map_option (map as_async) ms)
        ≡ map_option made_async (map_option sync_accessor ms)
  made_async-map none = refl
  made_async-map (some ms) = refl

  data_lem :
      (e : s.Ident) (d : Data s)
      → FitsResponse e d
          (derive_response_enum (record { ident = e; data_of = d }))
          (derive_sync_requester (record { ident = e; data_of = d }))
        × (derive_async_requester (record { ident = e; data_of = d })
            ≡ map_option made_async (derive_sync_requester (record { ident = e; data_of = d })))
  unfolding derive_response_enum derive_sync_requester derive_async_requester
  data_lem e other_data = (tt, refl)
  data_lem e (enum_data vs) = (
    FitAll-FitsResponse e vs _ _ (variants-FitAll e vs),
    ap (map_option async_accessor) (variants-async e vs) ∙ made_async-map _,
  )

  -- Where a requester is derived, it has a method for each variant of the enum, in order, with the
  -- name of the variant in snake case. The derived `Response` has for each of them the variant that
  -- the method takes for a success, with the type that the method returns, and the method binds data
  -- exactly if there is some. The parameters are the fields of the variant, and the method builds
  -- that variant of the derived enum from them, but a variant without fields it builds as one of an
  -- enum `Request`, whatever the derived enum is called. No requester is derived only for what is no
  -- enum, for unnamed fields, or where no `Response` is. The asynchronous requester is derived for
  -- the same inputs, with the same methods made async.
  pub derive_requester_lem :
      (input : DeriveInput s)
      → FitsResponse input.ident input.data_of
          (derive_response_enum input)
          (derive_sync_requester input)
        × (derive_async_requester input ≡ map_option made_async (derive_sync_requester input))
  derive_requester_lem input = data_lem input.ident input.data_of
