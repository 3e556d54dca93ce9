-- ===== src/Handler/Prepared.antt =====
-- clienthandler.go: a statement from the response to its PREPARE to the frames of its EXECUTE.
use zdm_proxy.Prelude.{◌≡◌, true, false, Option, some, String, ok, ◌>>=◌, arith}
use zdm_proxy.Protocol.{RawFrame, ClusterType, to_both}
use zdm_proxy.RequestInfo.{prepare, execute, PrepareRequestInfo, PreparedData, get_forward_decision}
use zdm_proxy.Messages.{Value, Message, ExecuteMessage}
use zdm_proxy.Parameters.{Uuid}
use zdm_proxy.PreparedCache.{new_prepared_data, get}
use zdm_proxy.PreparedResponse.{PreparedBody, stored_result, id_or_empty}
use zdm_proxy.Execution.{is_replaced, converted, handle_execute_request}
use zdm_proxy.Execution.Frames.{unreplaced_for_both}
use zdm_proxy.Handler.{
  ResponseMessage, prepared_result, HandlerState, has_message, process_client_response,
}
use zdm_proxy.Handler.Responses.{prepared_id_found}

module _ {S : Type 0} (decode : RawFrame → Option ResponseMessage)
    (decode_body : RawFrame → Option (Option PreparedBody))
    (convert : RawFrame → ResponseMessage → Option RawFrame) (encode : Uuid → String → Option Value)
    (convert_request : RawFrame → Message → Option RawFrame) (get_time_uuid : S → Uuid × S)
    (async_cluster : Option ClusterType) where
  -- A client that prepares a write without calls of now() and executes it with the id of the response it
  -- got: the id finds the statement, the origin is sent the client's own frame, and the target the
  -- client's message with the id that the target itself gave in its response to the PREPARE, if the
  -- library converts it; the state of the generator of uuids stays.
  pub prepared_then_executed :
      (response : RawFrame) (cluster : ClusterType) (info : PrepareRequestInfo)
      (target_response : RawFrame) (b t : PreparedBody) (st st' : HandlerState) (g : RawFrame)
      → has_message response.header.op_code ≡ true
      → decode response ≡ some (prepared_result b)
      → decode_body target_response ≡ some (some t)
      → is_replaced info.replaced_terms ≡ false
      → get_forward_decision (execute (new_prepared_data (stored_result b) (stored_result t) info))
        ≡ to_both
      → process_client_response decode decode_body convert response cluster
          (prepare info)
          (some target_response)
          st
        ≡ (st', ok g)
      → (b' : PreparedBody) × (convert response (prepared_result b') ≡ some g)
        × ((e : ExecuteMessage) (f : RawFrame) (s : S)
            → e.query_id ≡ id_or_empty b'.prepared_query_id
            → (d : PreparedData) × (get e.query_id st'.prepared_statement_cache ≡ some d)
              × (handle_execute_request encode convert_request d f
                    (Message.execute e)
                    get_time_uuid
                    async_cluster
                    s
                  ≡ (
                    s,
                    (converted (
                          convert_request f (
                            Message.execute
                              (record e { query_id = id_or_empty t.prepared_query_id })))
                        >>= λ h. ok (f, h)),
                  )))
  prepared_then_executed response cluster info target_response b t st st' g op decoded body
        unreplaced both h =
      let (p, b', f', t', i, sent, same, r, d, found) =
        prepared_id_found decode decode_body convert response (prepare info) (some target_response)
          cluster b st st' g op decoded h in
      let known : (f' ≡ target_response) × (t' ≡ t) × (p ≡ info) = ground (arith, i, r, d, body) in
      let stored = new_prepared_data (stored_result b) (stored_result t) info in
      (
        b',
        sent,
        λ e f s q. (
          stored,
          ground (arith, q, found, known),
          unreplaced_for_both encode convert_request stored f e get_time_uuid async_cluster s both
              unreplaced,
        ),
      )
