-- ===== src/Macros/Syntax.antt =====
-- What the macros of src/rtactor-macros/src/lib.rs read, as the crate `syn` parses it, and what their
-- `quote!` blocks are filled with.
use rtactor_rs.Base.{Bool, Option, List}

-- Identifiers and types of the source code, and what the macros do with an identifier: the
-- comparison with `"response_val"`, and `to_case(Case::Snake)` of the crate `convert_case`. `request_ident` is `Request`.
pub record Syntax : Type 1 where
  pub Ident : Type 0
  pub Ty : Type 0
  pub is_response_val : Ident → Bool
  pub to_snake : Ident → Ident
  pub request_ident : Ident

-- What `parse_args` of an attribute finds: a type, nothing, or neither.
pub data Args (s : Syntax) : Type 0 where
  type_args : s.Ty → Args s
  no_args malformed_args : Args s

-- `path` is what `a.path.get_ident()` answers.
pub record Attribute (s : Syntax) : Type 0 where
  pub path : Option s.Ident
  pub args : Args s

-- `syn::Fields`.
pub data Fields (s : Syntax) : Type 0 where
  named : List (s.Ident × s.Ty) → Fields s
  unnamed unit : Fields s

pub record Variant (s : Syntax) : Type 0 where
  pub ident : s.Ident
  pub attrs : List (Attribute s)
  pub fields : Fields s

pub data Data (s : Syntax) : Type 0 where
  enum_data : List (Variant s) → Data s
  other_data : Data s

pub record DeriveInput (s : Syntax) : Type 0 where
  pub ident : s.Ident
  pub data_of : Data s

-- One variant of the generated `Response`: `Name()` or `Name(Type)`.
pub record ResponseVariant (s : Syntax) : Type 0 where
  pub name : s.Ident
  pub payload : Option s.Ty

-- `Enum::Variant`, with the fields that are filled by the parameters of their names.
pub record Construction (s : Syntax) : Type 0 where
  pub enum_name : s.Ident
  pub variant : s.Ident
  pub fields : Option (List s.Ident)

-- A generated method of a notifier.
pub record NotifyMethod (s : Syntax) : Type 0 where
  pub name : s.Ident
  pub params : List (s.Ident × s.Ty)
  pub builds : Construction s

-- A generated method of a requester, which has one more parameter, `duration`. It returns a result
-- around `return_type` or around `()`, and takes for a success the variant `ok_variant` of `Response`, whose
-- data it binds and returns if `binds_data`.
pub record RequestMethod (s : Syntax) : Type 0 where
  pub is_async : Bool
  pub name : s.Ident
  pub params : List (s.Ident × s.Ty)
  pub builds : Construction s
  pub return_type : Option s.Ty
  pub ok_variant : s.Ident
  pub binds_data : Bool

-- A generated trait, by the accessor that it extends.
pub data Trait (M : Type 0) : Type 0 where
  sync_accessor async_accessor : List M → Trait M
