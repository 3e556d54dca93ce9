-- ===== src/Parameters/Tests.antt =====
-- Values for the calls of now(), on small inputs.
use zdm_proxy.Prelude.{
  ℕ, suc, ◌≡◌, refl, Option, some, List, [], ◌∷◌, String, string_eq, ok, length, lookup, insert,
}
use zdm_proxy.Query.{is_now}
use zdm_proxy.RequestInfo.{ColumnMetadata}
use zdm_proxy.Messages.{Value}
use zdm_proxy.Samples.{now_term}
use zdm_proxy.Parameters.{
  Uuid, add_positional_values_for_replaced_positional_markers,
  add_positional_values_for_replaced_named_markers, positional_loop, named_marker_loop, named_loop,
  copy_before, slice, new_value, new_value_index, column_at, uuid_at, generate_time_uuid_value,
  is_now_call,
}
use zdm_proxy.Parameters.Places.{ArePlaced, only_now, positional_values_placed}
use zdm_proxy.Parameters.Positional.{Merge, count_now}

abbrev encode_any : Uuid → String → Option Value
encode_any u data_type = some u

abbrev column : String → ColumnMetadata
column name = record { name = name; data_type = "timeuuid" }

abbrev columns : List ColumnMetadata
columns = column "a" ∷ column "zdm__now" ∷ column "b" ∷ []

abbrev values : List Value
values = (1 ∷ []) ∷ (2 ∷ []) ∷ []

abbrev uuids : List Uuid
uuids = (9 ∷ []) ∷ []

abbrev completed : List Value
completed = (1 ∷ []) ∷ (9 ∷ []) ∷ (2 ∷ []) ∷ []

added_nine :
    add_positional_values_for_replaced_positional_markers encode_any values columns uuids
      (now_term ∷ [])
    ≡ ok completed
unfolding add_positional_values_for_replaced_positional_markers positional_loop copy_before slice
    new_value new_value_index column_at uuid_at generate_time_uuid_value is_now_call is_now
added_nine = refl

positional_values_placed_example :
    ((gen : List Value) × Merge values gen completed × (length gen ≡ count_now (now_term ∷ [])))
    × ArePlaced encode_any values columns uuids 0 (only_now (now_term ∷ [])) completed
positional_values_placed_example =
    positional_values_placed encode_any values columns uuids (now_term ∷ []) completed (tt, tt)
      added_nine

filled_by_name :
    add_positional_values_for_replaced_named_markers encode_any values uuids columns ≡ ok completed
unfolding add_positional_values_for_replaced_named_markers named_marker_loop uuid_at
    generate_time_uuid_value
filled_by_name = refl

abbrev given : List (String × Value)
given = ("a", 1 ∷ []) ∷ ("b", 2 ∷ []) ∷ []

named_result :
    (out : List (String × Value)) × (named_loop encode_any uuids columns 0 given ≡ ok out)
unfolding named_loop uuid_at generate_time_uuid_value lookup insert
named_result = (_, refl)

abbrev next_uuid : ℕ → Uuid × ℕ
next_uuid n = (n ∷ [], suc n)
