-- ===== src/Handler/Tests.antt =====
-- Responses to a PREPARE and UNPREPARED responses, and requests for both clusters, on small inputs.
use zdm_proxy.Prelude.{
  ℕ, suc, ◌≡◌, refl, Option, none, some, List, [], ◌∷◌, String, true, false, ok, lookup, insert,
  nat_eq, int_eq, ◌>>=◌, bytes_eq,
}
use zdm_proxy.Protocol.{RawFrame, to_both, ClusterType, origin}
use zdm_proxy.RequestInfo.{prepare, generic, PrepareRequestInfo, PreparedData, get_forward_decision}
use zdm_proxy.Messages.{Value, Message, ExecuteMessage}
use zdm_proxy.Parameters.{Uuid}
use zdm_proxy.PreparedCache.{new_prepared_statement_cache, store, get}
use zdm_proxy.PreparedCache.Index.{Call, stores, after_calls}
use zdm_proxy.PreparedResponse.{PreparedBody, id_or_empty, process_prepared_response, client_body}
use zdm_proxy.Execution.{converted, handle_execute_request}
use zdm_proxy.Samples.{
  error_frame, result_frame, query_frame, prepare_info, prepared_result, connector,
}
use zdm_proxy.StreamIds.{StreamIdMapper}
use zdm_proxy.Processor.{internal_mapper}
use zdm_proxy.Connector.{sent_frame}
use zdm_proxy.Handler.{
  ResponseMessage, unprepared_message, HandlerState, Connectors, send_by_decision,
  process_client_response, process_message, process_prepared, with_message,
}
use zdm_proxy.Handler.Sending.{both_outcomes, Leaves}
use zdm_proxy.Handler.Responses.{unprepared_translated}
use zdm_proxy.Handler.Prepared.{prepared_then_executed}

-- The target lost its statement 2, which is the origin's 1.
abbrev one_call : List Call
one_call = stores (prepared_result 1) (prepared_result 2) prepare_info ∷ []

abbrev handler : HandlerState
handler = record {
  current_keyspace_name = none;
  prepared_statement_cache = after_calls one_call new_prepared_statement_cache;
}

abbrev lost_two : RawFrame → Option ResponseMessage
lost_two f = some (unprepared_message (2 ∷ []))

abbrev no_body : RawFrame → Option (Option PreparedBody)
no_body f = none

abbrev with_id : RawFrame → ResponseMessage → Option RawFrame
with_id f (unprepared_message id) = some (record f { body = id })
with_id f (ResponseMessage.prepared_result b) =
    some (record f { body = id_or_empty b.prepared_query_id })
with_id f _ = some f

indexed_two : lookup (2 ∷ []) handler.prepared_statement_cache.index ≡ some (1 ∷ [])
unfolding after_calls store lookup insert
indexed_two = refl

unprepared_translated_example :
    (process_client_response lost_two no_body with_id error_frame ClusterType.target
        (prepare prepare_info)
        none
        handler
      ≡ (handler, ok (record error_frame { body = 1 ∷ [] })))
    × ((d : PreparedData) × (get (1 ∷ []) handler.prepared_statement_cache ≡ some d)
        × (d.origin_prepared_id ≡ 1 ∷ []))
unprepared_translated_example =
    unprepared_translated lost_two no_body with_id error_frame (prepare prepare_info) none one_call
      none (2 ∷ []) (1 ∷ []) (record error_frame { body = 1 ∷ [] }) refl refl indexed_two refl

-- A PREPARE of a write.
abbrev body : ℕ → PreparedBody
body id = record { prepared_query_id = some (id ∷ []); variables_metadata = none }

abbrev prepared_write : PrepareRequestInfo
prepared_write = record prepare_info {
  base_request_info = generic (record {
    forward_decision = to_both;
    should_also_be_sent_async = false;
    track_metrics = true;
  });
}

abbrev prepares_one : RawFrame → Option ResponseMessage
prepares_one f = some (ResponseMessage.prepared_result (body 1))

abbrev target_body : RawFrame → Option (Option PreparedBody)
target_body f = some (some (body 2))

abbrev new_handler : HandlerState
new_handler = record {
  current_keyspace_name = none;
  prepared_statement_cache = new_prepared_statement_cache;
}

abbrev later_handler : HandlerState
later_handler = record new_handler {
  prepared_statement_cache =
      store (prepared_result 1) (prepared_result 2) prepared_write new_prepared_statement_cache;
}

abbrev with_one : RawFrame
with_one = record result_frame { body = 1 ∷ [] }

processed :
    process_client_response prepares_one target_body with_id result_frame origin
      (prepare prepared_write)
      (some result_frame)
      new_handler
    ≡ (later_handler, ok with_one)
unfolding process_client_response process_message process_prepared with_message
    process_prepared_response client_body
processed = refl

abbrev encode_any : Uuid → String → Option Value
encode_any u data_type = some u

abbrev next_uuid : ℕ → Uuid × ℕ
next_uuid s = (s ∷ [], suc s)

abbrev convert_request : RawFrame → Message → Option RawFrame
convert_request f (Message.execute m) = some (record f { body = m.query_id })
convert_request f m = none

prepared_then_executed_example :
    (b' : PreparedBody) × (with_id result_frame (ResponseMessage.prepared_result b')
      ≡ some with_one)
    × ((e : ExecuteMessage) (f : RawFrame) (s : ℕ)
        → e.query_id ≡ id_or_empty b'.prepared_query_id
        → (d : PreparedData) × (get e.query_id later_handler.prepared_statement_cache ≡ some d)
          × (handle_execute_request encode_any convert_request d f
                (Message.execute e)
                next_uuid
                none
                s
              ≡ (
                s,
                (converted (convert_request f (Message.execute (record e { query_id = 2 ∷ [] })))
                    >>= λ h. ok (f, h)),
              )))
prepared_then_executed_example =
    prepared_then_executed prepares_one target_body with_id encode_any convert_request next_uuid
      none result_frame origin prepared_write result_frame (body 1) (body 2) new_handler
      later_handler with_one refl refl refl refl (unfold get_forward_decision in refl) processed

-- The origin's connector has ids, and the target's has none.
abbrev connectors : Connectors StreamIdMapper
connectors = record {
  origin_connector = connector;
  target_connector = record connector {
    mapper_state = record connector.mapper_state { cluster_ids = [] };
  };
  heard = [];
}

both_outcomes_example :
    (cs' : Connectors StreamIdMapper) × (send_by_decision internal_mapper
        (λ cc. cc)
        to_both
        query_frame
        query_frame
        connectors
      ≡ some cs')
    × Leaves
        (sent_frame internal_mapper query_frame connectors.origin_connector.mapper_state).1
        (sent_frame internal_mapper query_frame connectors.target_connector.mapper_state).1
        connectors
        cs'
both_outcomes_example = both_outcomes internal_mapper (λ cc. cc) query_frame query_frame connectors
