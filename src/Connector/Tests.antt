-- ===== src/Connector/Tests.antt =====
-- An async connector to the target with two stream ids and room for one frame.
use zdm_proxy.Prelude.{
  ◌≡◌, refl, Bool, true, false, ok, Option, none, some, [], ◌∷◌, ℤ, pos, lookup, nat_eq, int_eq,
}
use zdm_proxy.Protocol.{OpCode, RawFrame, Header, target}
use zdm_proxy.RequestInfo.{PrepareRequestInfo}
use zdm_proxy.StreamIds.{StreamIdMapper, internal_get_new_id_for}
use zdm_proxy.Processor.{internal_mapper, assign_unique_id, set_raw_frame_stream_id}
use zdm_proxy.PreparedCache.{new_prepared_statement_cache}
use zdm_proxy.Requests.Pending.{held}
use zdm_proxy.Samples.{two_ids, connector, write_info, query_frame, result_frame, frame_of}
use zdm_proxy.Connector.{
  ClusterConnector, send_async_request_to_cluster, sent_frame, validate_async_state_for_request,
}
use zdm_proxy.Connector.Errors.{ErrorMessage, decode_error}
use zdm_proxy.Connector.Handling.{handle_async_response}
use zdm_proxy.Connector.Discards.{discarded_loses_id}
use zdm_proxy.Connector.Exchange.{async_exchange}

abbrev full_connector : ClusterConnector StreamIdMapper
full_connector = record connector { write_queue = query_frame ∷ [] }

abbrev no_body : RawFrame → Option (Option ErrorMessage)
no_body f = none

abbrev no_prepare : Header → PrepareRequestInfo → Option RawFrame
no_prepare h p = none

abbrev given_five : RawFrame
given_five = frame_of OpCode.query 5

abbrev response_to_five : RawFrame
response_to_five = frame_of OpCode.result 5

assigned_five :
    sent_frame internal_mapper query_frame two_ids
    ≡ (record two_ids { cluster_ids = 6 ∷ [] }, ok given_five)
unfolding sent_frame assign_unique_id set_raw_frame_stream_id internal_get_new_id_for
assigned_five = refl

abbrev asked : ClusterConnector StreamIdMapper × Bool
asked = send_async_request_to_cluster internal_mapper 0 write_info query_frame true connector

abbrev answered : ClusterConnector StreamIdMapper × Option RawFrame
answered =
    handle_async_response internal_mapper target no_body no_prepare 1 response_to_five
      new_prepared_statement_cache asked.0

async_exchange_example :
    (asked.1 ≡ true)
    × (asked.0.write_queue ≡ given_five ∷ [])
    × (answered.1 ≡ some result_frame)
    × (held (pos 5) answered.0.pending ≡ none)
unfolding held lookup validate_async_state_for_request decode_error
async_exchange_example =
    async_exchange internal_mapper target no_body no_prepare 0 1 write_info query_frame given_five
      response_to_five (record two_ids { cluster_ids = 6 ∷ [] }) new_prepared_statement_cache
      connector refl refl assigned_five refl refl refl refl

abbrev discarded : ClusterConnector StreamIdMapper × Bool
discarded =
    send_async_request_to_cluster internal_mapper 0 write_info query_frame false full_connector

discarded_loses_id_example :
    (discarded.1 ≡ false)
    × (discarded.0.write_queue ≡ query_frame ∷ [])
    × ((j : ℤ) → held j discarded.0.pending ≡ held j full_connector.pending)
    × (discarded.0.mapper_state.cluster_ids ≡ 6 ∷ [])
unfolding lookup validate_async_state_for_request
discarded_loses_id_example =
    discarded_loses_id 0 write_info query_frame false 5 (6 ∷ []) full_connector refl refl refl refl

-- A request, the response to it, and the end of the handler.
