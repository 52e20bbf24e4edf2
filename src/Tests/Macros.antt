-- ===== src/Tests/Macros.antt =====
-- A request enum with a variant that has a response value and one that has none, and a generated
-- method on an accessor. Identifiers and types are numbers; 1 is `response_val`, and 0 is `Request`.
use rtactor_rs.Base.{
  ℕ, zero, suc, ◌≡◌, refl, ◌==◌, inr, Option, none, some, List, [], ◌∷◌, ◌++◌, arith,
}
use rtactor_rs.Actor.Message.{Any, value, reactive, ok_response, notification, queue_full}
use rtactor_rs.Actor.World.{ok}
use rtactor_rs.Active.Mailbox.{ActiveMailbox, RecvTimeout, arrived, timed_out}
use rtactor_rs.Macros.Syntax.{Syntax, type_args, named, unit, enum_data, DeriveInput}
use rtactor_rs.Macros.Derive.{derive_response_enum, derive_sync_requester}
use rtactor_rs.Macros.Types.{FitsResponse, derive_requester_lem}
use rtactor_rs.Accessors.{Accessor, sync_call}
use rtactor_rs.Accessors.Calls.{after_call, sync_call-returned}
use rtactor_rs.Tests.Sample.{sample_env, sample_world}

abbrev sample_syntax : Syntax
sample_syntax = record {
  Ident = ℕ;
  Ty = ℕ;
  is_response_val = λ i. i == 1;
  to_snake = λ i. suc i;
  request_ident = 0;
}

-- `enum Request { SetValue { val: i32 }, #[response_val(i32)] GetValue }`.
abbrev sample_enum : DeriveInput sample_syntax
sample_enum = record {
  ident = 0;
  data_of = enum_data (
      record { ident = 10; attrs = []; fields = named ((30, 32) ∷ []) }
      ∷ record {
        ident = 20;
        attrs = record { path = some 1; args = type_args 32 } ∷ [];
        fields = unit;
      }
      ∷ []);
}

derive_requester_lem_example :
    FitsResponse sample_enum.ident sample_enum.data_of
      (derive_response_enum sample_enum)
      (derive_sync_requester sample_enum)
derive_requester_lem_example = (derive_requester_lem sample_enum).0

-- The response variant that the method takes holds a positive number.
abbrev as_value : Any sample_env → Option ℕ
as_value (value n) = some n
as_value _ = none

abbrev not_zero : ℕ → Option ℕ
not_zero zero = none
not_zero (suc n) = some (suc n)

abbrev accessor : Accessor (ActiveMailbox sample_env)
accessor = record {
  mailbox = record { id = 3; tx = 0; last_request_id = 8; message_list = [] };
  target_addr = reactive 0 2;
}

abbrev others : List (RecvTimeout sample_env)
others = arrived (ok_response 8 (value 1)) ∷ arrived (notification (value 3)) ∷ []

sync_call-returned_example :
    (sync_call as_value not_zero accessor
      (value 7)
      (sample_world [] [])
      (others ++ arrived (ok_response 9 (value 4)) ∷ timed_out ∷ [])).1
    ≡ some (ok 4, after_call as_value not_zero accessor others, timed_out ∷ [])
sync_call-returned_example =
    (sync_call-returned as_value not_zero accessor (value 7) (sample_world [] []) others
      (timed_out ∷ []) (value 4) 4 7 queue_full (value 0) (inr (omega arith), (tt, tt)) refl).0
