-- ===== src/Macros/Derive.antt =====
-- The macros of src/rtactor-macros/src/lib.rs; `none` is a panic of a macro.
use rtactor_rs.Base.{Bool, true, false, Option, none, some, List, [], ◌∷◌, map, if◌then◌else◌}
use rtactor_rs.Macros.Syntax.{
  Syntax, Args, type_args, no_args, malformed_args, Attribute, Fields, named, unnamed, unit,
  Variant, enum_data, other_data, DeriveInput, ResponseVariant, NotifyMethod, RequestMethod, Trait,
  sync_accessor, async_accessor,
}

-- The variants one after the other; one that panics ends the macro.
unfoldable pub cons_variant : {B : Type 0} → Option B → Option (List B) → Option (List B)
cons_variant (some x) (some xs) = some (x ∷ xs)
cons_variant _ _ = none

unfoldable pub each_variant : {A B : Type 0} → (A → Option B) → List A → Option (List B)
unfolding cons_variant
each_variant f [] = some []
each_variant f (v ∷ vs) = cons_variant (f v) (each_variant f vs)

abbrev pub map_option : {A B : Type 0} → (A → B) → Option A → Option B
map_option f none = none
map_option f (some a) = some (f a)

is_response_val_path : (s : Syntax) → Option s.Ident → Bool
is_response_val_path s none = false
is_response_val_path s (some ident) = s.is_response_val ident

-- Whether `ok_var_name` and `ok_ret_value` are `variant_data`.
unfoldable pub has_variant_data : {A : Type 0} → Option A → Bool
has_variant_data (some t) = true
has_variant_data none = false

module _ {s : Syntax} where
  -- The arguments of the first attribute `response_val`, the `find` on the attributes of a variant.
  unfoldable pub find_response_val : List (Attribute s) → Option (Args s)
  unfolding is_response_val_path
  find_response_val [] = none
  find_response_val (a ∷ rest) =
      if is_response_val_path s a.path then some a.args else find_response_val rest

  -- `derive_response_enum`, on one variant.
  unfoldable pub response_at : s.Ident → Option (Args s) → Option (ResponseVariant s)
  response_at name (some (type_args t)) = some (record { name = name; payload = some t })
  response_at name (some no_args) = some (record { name = name; payload = none })
  response_at name (some malformed_args) = none
  response_at name none = some (record { name = name; payload = none })

  unfoldable pub response_variant : Variant s → Option (ResponseVariant s)
  unfolding response_at find_response_val
  response_variant v = response_at v.ident (find_response_val v.attrs)

  unfoldable pub derive_response_enum : DeriveInput s → Option (List (ResponseVariant s))
  unfolding response_variant each_variant
  derive_response_enum input = elim input.data_of [
    | enum_data variants ↦ each_variant response_variant variants
    | other_data ↦ none
  ]

  -- `derive_sync_notifier`.
  unfoldable pub notify_method : s.Ident → Variant s → Option (NotifyMethod s)
  notify_method enum_name v = elim v.fields [
    | named fields ↦ some (record {
      name = s.to_snake v.ident;
      params = fields;
      builds = record {
        enum_name = enum_name;
        variant = v.ident;
        fields = some (map (λ field. field.0) fields);
      };
    })
    | unnamed ↦ none
    | unit ↦ some (record {
      name = s.to_snake v.ident;
      params = [];
      builds = record { enum_name = enum_name; variant = v.ident; fields = none };
    })
  ]

  unfoldable pub derive_sync_notifier : DeriveInput s → Option (Trait (NotifyMethod s))
  unfolding notify_method each_variant
  derive_sync_notifier input = elim input.data_of [
    | enum_data variants ↦
        map_option sync_accessor (each_variant (notify_method input.ident) variants)
    | other_data ↦ none
  ]

  -- `return_type` of the requesters.
  unfoldable pub return_type_at : Option (Args s) → Option (Option s.Ty)
  return_type_at (some (type_args t)) = some (some t)
  return_type_at (some no_args) = some none
  return_type_at (some malformed_args) = none
  return_type_at none = some none

  -- The method of a variant in `derive_sync_requester`. A unit variant is built as one of `Request`.
  unfoldable pub sync_method :
      s.Ident → s.Ident → Option (Option s.Ty) → Fields s → Option (RequestMethod s)
  unfolding has_variant_data
  sync_method enum_name variant none fields = none
  sync_method enum_name variant (some return_type) (named fields) = some (record {
    is_async = false;
    name = s.to_snake variant;
    params = fields;
    builds = record {
      enum_name = enum_name;
      variant = variant;
      fields = some (map (λ field. field.0) fields);
    };
    return_type = return_type;
    ok_variant = variant;
    binds_data = has_variant_data return_type;
  })
  sync_method enum_name variant (some return_type) unnamed = none
  sync_method enum_name variant (some return_type) unit = some (record {
    is_async = false;
    name = s.to_snake variant;
    params = [];
    builds = record { enum_name = s.request_ident; variant = variant; fields = none };
    return_type = return_type;
    ok_variant = variant;
    binds_data = has_variant_data return_type;
  })

  unfoldable pub sync_variant : s.Ident → Variant s → Option (RequestMethod s)
  unfolding find_response_val return_type_at sync_method
  sync_variant enum_name v =
      sync_method enum_name v.ident (return_type_at (find_response_val v.attrs)) v.fields

  unfoldable pub derive_sync_requester : DeriveInput s → Option (Trait (RequestMethod s))
  unfolding sync_variant each_variant
  derive_sync_requester input = elim input.data_of [
    | enum_data variants ↦
        map_option sync_accessor (each_variant (sync_variant input.ident) variants)
    | other_data ↦ none
  ]

  -- The same of `derive_async_requester`.
  unfoldable pub async_method :
      s.Ident → s.Ident → Option (Option s.Ty) → Fields s → Option (RequestMethod s)
  unfolding has_variant_data
  async_method enum_name variant none fields = none
  async_method enum_name variant (some return_type) (named fields) = some (record {
    is_async = true;
    name = s.to_snake variant;
    params = fields;
    builds = record {
      enum_name = enum_name;
      variant = variant;
      fields = some (map (λ field. field.0) fields);
    };
    return_type = return_type;
    ok_variant = variant;
    binds_data = has_variant_data return_type;
  })
  async_method enum_name variant (some return_type) unnamed = none
  async_method enum_name variant (some return_type) unit = some (record {
    is_async = true;
    name = s.to_snake variant;
    params = [];
    builds = record { enum_name = s.request_ident; variant = variant; fields = none };
    return_type = return_type;
    ok_variant = variant;
    binds_data = has_variant_data return_type;
  })

  unfoldable pub async_variant : s.Ident → Variant s → Option (RequestMethod s)
  unfolding find_response_val return_type_at async_method
  async_variant enum_name v =
      async_method enum_name v.ident (return_type_at (find_response_val v.attrs)) v.fields

  unfoldable pub derive_async_requester : DeriveInput s → Option (Trait (RequestMethod s))
  unfolding async_variant each_variant
  derive_async_requester input = elim input.data_of [
    | enum_data variants ↦
        map_option async_accessor (each_variant (async_variant input.ident) variants)
    | other_data ↦ none
  ]
