-- ===== src/Forwarding/Tests.antt =====
-- Where requests go, on small inputs.
use zdm_proxy.Prelude.{
  ℕ, ◌≡◌, refl, ◌⊎◌, true, false, Option, none, some, List, [], ◌∷◌, ok, err, bytes_eq,
}
use zdm_proxy.Protocol.{target, OpCode}
use zdm_proxy.Query.{QueryInfo, StatementType}
use zdm_proxy.RequestInfo.{
  RequestInfo, generic, base, prepare, batch, PreparedData, PrepareRequestInfo,
  get_forward_decision, should_also_be_sent_async, should_be_tracked_in_metrics,
}
use zdm_proxy.PreparedCache.{new_prepared_statement_cache, store}
use zdm_proxy.Messages.{
  Codec, Message, ExecuteMessage, BatchMessage, FrameDecodeContext, new_frame_decode_context,
  unprepared, get_or_decode_frame, get_or_inspect_statement, inspect_statements, statements_of,
  inspect_one, request_keyspace, protocol_supports_keyspace_in_request,
}
use zdm_proxy.Samples.{protocol_versions, frame_of, statement_on, prepared_result}
use zdm_proxy.Forwarding.{
  is_system_query, is_system_keyspace, get_request_info_from_query_info, intercepted_query,
  select_info, is_system_local, is_system_peers_v1, is_system_peers_v2,
}
use zdm_proxy.Forwarding.Building.{Settings, build_request_info, build_prepare_info}
use zdm_proxy.Forwarding.Decisions.{expected_decision, one_cluster, routing, execute_like_query}
use zdm_proxy.Forwarding.Batches.{Answers, FirstUnknown, child_ids, batch_children}

abbrev select_users : QueryInfo
select_users = statement_on StatementType.select "ks" "users"

routing_example :
    get_forward_decision (base (get_request_info_from_query_info target false true select_users))
    ≡ expected_decision target false true select_users
routing_example = routing target false true select_users

users_async :
    should_also_be_sent_async
      (base (get_request_info_from_query_info target false true select_users))
    ≡ true
unfolding should_also_be_sent_async get_request_info_from_query_info intercepted_query select_info
    is_system_query is_system_keyspace is_system_local is_system_peers_v1 is_system_peers_v2
users_async = refl

abbrev settings : Settings
settings = record {
  primary_cluster = target;
  forward_system_queries_to_target = false;
  virtualization_enabled = true;
  forward_auth_to_target = false;
}

abbrev execute_one : ExecuteMessage
execute_one = record { query_id = 1 ∷ []; options = none }

abbrev batch_one : BatchMessage
batch_one = record {
  children = record { id = some (5 ∷ []); query = []; values = [] } ∷ [];
  options = record { flagged = false; keyspace = "" };
}

decode_by : OpCode → Option Message
decode_by OpCode.prepare = some (
    Message.prepare
      (record { query = 65 ∷ []; options = record { flagged = false; keyspace = "" } }))
decode_by OpCode.query = some (
    Message.query (record { query = 65 ∷ []; options = record { flagged = false; keyspace = "" } }))
decode_by OpCode.execute = some (Message.execute execute_one)
decode_by OpCode.batch = some (Message.batch batch_one)
decode_by _ = none

abbrev codec : Codec
codec = record {
  decode = λ f. decode_by f.header.op_code;
  inspect_cql_query = λ text keyspace. select_users;
}

abbrev context_of : OpCode → FrameDecodeContext
context_of op = record { frame = frame_of op 1; decoded_frame = none; statements_query_data = [] }

abbrev users_prepared : PrepareRequestInfo
users_prepared = record {
  base_request_info = generic (record {
    forward_decision = one_cluster true;
    should_also_be_sent_async = true;
    track_metrics = true;
  });
  replaced_terms = [];
  contains_positional_markers = false;
  query = 65 ∷ [];
  keyspace = "";
}

prepare_built :
    (c : FrameDecodeContext) × (build_request_info protocol_versions codec settings
        new_prepared_statement_cache [] "ks"
        (context_of OpCode.prepare)
      ≡ ok (prepare users_prepared, c))
unfolding build_request_info build_prepare_info get_or_inspect_statement inspect_statements
    get_or_decode_frame statements_of inspect_one request_keyspace
    protocol_supports_keyspace_in_request decode_by one_cluster get_request_info_from_query_info
    intercepted_query select_info is_system_query is_system_keyspace is_system_local
    is_system_peers_v1 is_system_peers_v2
prepare_built = (_, refl)

execute_decoded :
    (c : FrameDecodeContext) × (get_or_decode_frame protocol_versions codec
        (context_of OpCode.execute)
      ≡ ok (Message.execute execute_one, c))
unfolding get_or_decode_frame decode_by
execute_decoded = (_, refl)

execute_like_query_example :
    (q : RequestInfo) × (i : RequestInfo) × (c'' : FrameDecodeContext) × (build_request_info
        protocol_versions codec settings new_prepared_statement_cache [] "ks"
        (context_of OpCode.query)
      ≡ ok (q, c''))
    × (build_request_info protocol_versions codec settings
          (store
            (prepared_result 1)
            (prepared_result 2)
            users_prepared
            new_prepared_statement_cache)
          []
          "other"
          (context_of OpCode.execute)
        ≡ ok (i, execute_decoded.0))
    × (get_forward_decision i ≡ get_forward_decision q)
    × (should_also_be_sent_async i ≡ should_also_be_sent_async q)
    × (should_be_tracked_in_metrics i ≡ should_be_tracked_in_metrics q)
unfolding new_frame_decode_context
execute_like_query_example =
    execute_like_query protocol_versions codec settings new_prepared_statement_cache
      new_prepared_statement_cache [] [] [] "ks" "other" (frame_of OpCode.prepare 1)
      (frame_of OpCode.query 1)
      (record { query = 65 ∷ []; options = record { flagged = false; keyspace = "" } })
      (record { query = 65 ∷ []; options = record { flagged = false; keyspace = "" } })
      prepare_built.0 (context_of OpCode.execute) execute_decoded.0 users_prepared
      (prepared_result 1) (prepared_result 2) execute_one refl (unfold decode_by in refl)
      prepare_built.1 refl (unfold decode_by in refl) refl refl refl refl execute_decoded.1 refl

batch_decoded :
    (c : FrameDecodeContext) × (get_or_decode_frame protocol_versions codec
        (context_of OpCode.batch)
      ≡ ok (Message.batch batch_one, c))
unfolding get_or_decode_frame decode_by
batch_decoded = (_, refl)

batch_children_example :
    ((ds : List (ℕ × PreparedData)) × (build_request_info protocol_versions codec settings
          new_prepared_statement_cache [] "ks"
          (context_of OpCode.batch)
        ≡ ok (batch ds, batch_decoded.0))
      × Answers new_prepared_statement_cache batch_one.children ds)
    ⊎ ((id : List ℕ) × (build_request_info protocol_versions codec settings
            new_prepared_statement_cache [] "ks"
            (context_of OpCode.batch)
          ≡ err (unprepared id))
        × FirstUnknown new_prepared_statement_cache (child_ids batch_one.children) id)
batch_children_example =
    batch_children protocol_versions codec settings new_prepared_statement_cache [] "ks"
      (context_of OpCode.batch) batch_decoded.0 batch_one refl batch_decoded.1
