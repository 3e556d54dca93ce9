-- ===== src/Execution/Tests.antt =====
-- The frames for the clusters, on small inputs.
use zdm_proxy.Prelude.{
  ℕ, suc, ◌≡◌, refl, ◌⊎◌, true, false, Option, none, some, List, [], ◌∷◌, String, string_eq, ok,
  length,
}
use zdm_proxy.Protocol.{RawFrame, to_both}
use zdm_proxy.Query.{is_now}
use zdm_proxy.RequestInfo.{
  generic, PreparedData, ColumnMetadata, VariablesMetadata, get_forward_decision,
}
use zdm_proxy.Messages.{Value, Message, ExecuteMessage, BatchMessage, BatchChild}
use zdm_proxy.Parameters.{
  Uuid, add_values_to_execute_frame, add_values_to_execute_message, add_values_to_options,
  add_values_to_batch_child, add_positional_values_for_replaced_terms,
  add_positional_values_for_replaced_positional_markers, positional_loop, copy_before, slice,
  new_value, new_value_index, column_at, uuid_at, generate_time_uuid_value, is_now_call,
  generate_time_uuids,
}
use zdm_proxy.Samples.{now_term, query_frame, prepare_info}
use zdm_proxy.Execution.{
  goes_to_async, needs_origin, needs_target, uuids_or_generated, with_values, origin_execute,
  target_execute, origin_part, target_part, handle_execute_request, change_child, child_with_values,
  batch_round, batch_rounds, handle_batch_request,
}
use zdm_proxy.Execution.Batching.{id_at, query_at, id_after, batch_ids}
use zdm_proxy.Execution.Frames.{IsCompleted, same_values_for_both}

abbrev encode_any : Uuid → String → Option Value
encode_any u data_type = some u

abbrev next_uuid : ℕ → Uuid × ℕ
next_uuid s = (s ∷ [], suc s)

-- The id and the number of values, as a body.
abbrev body_of : Message → List ℕ
body_of (Message.execute m) = m.query_id
body_of (Message.batch m) = length m.children ∷ []
body_of _ = []

abbrev convert_any : RawFrame → Message → Option RawFrame
convert_any f m = some (record f { body = body_of m })

abbrev column : String → ColumnMetadata
column name = record { name = name; data_type = "timeuuid" }

abbrev metadata : VariablesMetadata
metadata = record { columns = column "a" ∷ column "zdm__now" ∷ column "b" ∷ []; pk_indices = [] }

-- INSERT INTO t (a, u, b) VALUES (?, now(), ?)
abbrev write_with_now : PreparedData
write_with_now = record {
  origin_prepared_id = 1 ∷ [];
  target_prepared_id = 2 ∷ [];
  prepare_request_info = record prepare_info {
    base_request_info = generic (record {
      forward_decision = to_both;
      should_also_be_sent_async = false;
      track_metrics = true;
    });
    replaced_terms = now_term ∷ [];
    contains_positional_markers = true;
  };
  origin_variables_metadata = some metadata;
  target_variables_metadata = some metadata;
}

abbrev execution : ExecuteMessage
execution = record {
  query_id = 1 ∷ [];
  options = some (record { positional_values = (7 ∷ []) ∷ (8 ∷ []) ∷ []; named_values = [] });
}

abbrev with_body : List ℕ → RawFrame
with_body b = record query_frame { body = b }

executed :
    handle_execute_request encode_any convert_any write_with_now query_frame
      (Message.execute execution)
      next_uuid
      none
      9
    ≡ (10, ok (with_body (1 ∷ []), with_body (2 ∷ [])))
unfolding handle_execute_request origin_part target_part needs_origin needs_target goes_to_async
    uuids_or_generated generate_time_uuids origin_execute target_execute with_values
    add_values_to_execute_frame add_values_to_execute_message add_values_to_options
    add_positional_values_for_replaced_terms add_positional_values_for_replaced_positional_markers
    positional_loop copy_before slice new_value new_value_index column_at uuid_at
    generate_time_uuid_value is_now_call is_now get_forward_decision
executed = refl

same_values_for_both_example :
    (us : List Uuid) × (for_origin : ExecuteMessage) × (for_target : ExecuteMessage)
    × (generate_time_uuids next_uuid (now_term ∷ []) 9 ≡ some (us, 10))
    × IsCompleted encode_any convert_any write_with_now query_frame execution next_uuid none
        (some metadata)
        us
        for_origin
    × IsCompleted encode_any convert_any write_with_now query_frame execution next_uuid none
        (some metadata)
        us
        for_target
    × (convert_any query_frame (Message.execute for_origin) ≡ some (with_body (1 ∷ [])))
    × (convert_any query_frame (Message.execute (record for_target { query_id = 2 ∷ [] }))
        ≡ some (with_body (2 ∷ [])))
same_values_for_both_example =
    same_values_for_both encode_any convert_any write_with_now query_frame execution next_uuid none
      9 10 (with_body (1 ∷ [])) (with_body (2 ∷ [])) (unfold get_forward_decision in refl) refl
      executed

-- A plain child and the prepared statement.
abbrev two_children : BatchMessage
two_children = record {
  children =
      record { id = none; query = 5 ∷ []; values = [] }
      ∷ record { id = some (1 ∷ []); query = []; values = (7 ∷ []) ∷ (8 ∷ []) ∷ [] }
      ∷ [];
  options = record { flagged = false; keyspace = "" };
}

batched :
    handle_batch_request encode_any next_uuid convert_any
      ((1, write_with_now) ∷ [])
      query_frame
      (Message.batch two_children)
      9
    ≡ (10, ok (with_body (2 ∷ []), with_body (2 ∷ [])))
unfolding handle_batch_request batch_rounds batch_round change_child child_with_values
    uuids_or_generated generate_time_uuids add_values_to_batch_child
    add_positional_values_for_replaced_terms add_positional_values_for_replaced_positional_markers
    positional_loop copy_before slice new_value new_value_index column_at uuid_at
    generate_time_uuid_value is_now_call is_now
batched = refl

batch_ids_example :
    (ts : List BatchChild) × (os : List BatchChild) × (convert_any query_frame
        (Message.batch (record two_children { children = ts }))
      ≡ some (with_body (2 ∷ [])))
    × ((with_body (2 ∷ []) ≡ query_frame)
        ⊎ (convert_any query_frame (Message.batch (record two_children { children = os }))
            ≡ some (with_body (2 ∷ []))))
    × ((j : ℕ)
        → (id_at j ts
            ≡ id_after encode_any ((1, write_with_now) ∷ []) j (id_at j two_children.children))
          × (query_at j ts ≡ query_at j two_children.children)
          × (id_at j os ≡ id_at j two_children.children)
          × (query_at j os ≡ query_at j two_children.children))
batch_ids_example =
    batch_ids encode_any next_uuid convert_any ((1, write_with_now) ∷ []) query_frame
      (with_body (2 ∷ [])) (with_body (2 ∷ [])) two_children 9 10 batched
