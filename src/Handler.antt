-- ===== src/Handler.antt =====
-- proxy/pkg/zdmproxy/clienthandler.go: the steps of the client handler around the clusters: where a
-- request is sent, what follows a failure to send it, and what a response changes before it goes on to
-- the client. The library's conversions between frames and messages are parameters.
pub mod Responses
pub mod Sending
pub mod Prepared
mod Tests
use zdm_proxy.Prelude.{
  ℕ, ◌+◌, ◌-◌, Bool, true, false, ◌&&◌, ◌||◌, not, Option, none, some, is_some, List, [], ◌∷◌, ◌++◌,
  ℤ, String, string_eq, ◌==◌, if◌then◌else◌, Result, ok, err, ◌>>=◌,
}
use zdm_proxy.Protocol.{
  ForwardDecision, to_origin, to_target, to_both, to_none, to_async_only, ClusterType, origin,
  target, cluster_none, OpCode, result, error, RawFrame, Header,
}
use zdm_proxy.RequestInfo.{RequestInfo, PreparedData, get_forward_decision}
use zdm_proxy.StreamIds.{StreamIdError, none_available, negative}
use zdm_proxy.Processor.{Mapper}
use zdm_proxy.PreparedCache.{PreparedStatementCache, get_by_target_prepared_id}
use zdm_proxy.PreparedResponse.{PreparedBody, PreparedError, process_prepared_response}
use zdm_proxy.Connector.{ClusterConnector, send_request_to_cluster}

-- The messages of a response that the handler looks into.
pub data ResponseMessage : Type 0 where
  prepared_result : PreparedBody → ResponseMessage
  set_keyspace : String → ResponseMessage
  unprepared_message : List ℕ → ResponseMessage
  other_response : ResponseMessage

pub data ResponseError : Type 0 where
  response_not_decoded response_not_converted invalid_cluster_type : ResponseError
  prepared_failed : PreparedError → ResponseError
  no_prepared_data : List ℕ → ResponseError

-- currentKeyspaceName, `none` before it is stored, and preparedStatementCache.
pub record HandlerState : Type 0 where
  pub current_keyspace_name : Option String
  pub prepared_statement_cache : PreparedStatementCache

unfoldable pub load_current_keyspace : HandlerState → String
load_current_keyspace st = elim st.current_keyspace_name [ none ↦ "" | some k ↦ k ]

unfoldable pub store_current_keyspace : String → HandlerState → HandlerState
store_current_keyspace keyspace st = record st { current_keyspace_name = some keyspace }

-- The id that the client knows the statement by.
unfoldable pub unprepared_id :
    ClusterType → List ℕ → PreparedStatementCache → Result ResponseError (List ℕ)
unprepared_id origin id psc = ok id
unprepared_id target id psc = elim (get_by_target_prepared_id id psc) [
  | none ↦ err (no_prepared_data id)
  | some d ↦ ok d.origin_prepared_id
]
unprepared_id cluster_none id psc = err invalid_cluster_type

abbrev pub has_message : OpCode → Bool
has_message result = true
has_message error = true
has_message _ = false

-- `decode_body` is the library's DecodeBody of the target's response to a PREPARE.
module _ (decode : RawFrame → Option ResponseMessage)
    (decode_body : RawFrame → Option (Option PreparedBody))
    (convert : RawFrame → ResponseMessage → Option RawFrame) where
  abbrev pub Processed : Type 0
  Processed = HandlerState × Result ResponseError RawFrame

  unfoldable pub with_message : RawFrame → ResponseMessage → HandlerState → Processed
  with_message response m st = elim (convert response m) [
    | none ↦ (st, err response_not_converted)
    | some f ↦ (st, ok f)
  ]

  -- processPreparedResponse, which returns the client's own frame where it changes nothing.
  unfoldable pub process_prepared :
      RawFrame → PreparedBody → RequestInfo → Option RawFrame → HandlerState → Processed
  unfolding with_message
  process_prepared response b info target_response st =
      elim (process_prepared_response decode_body b info target_response
        st.prepared_statement_cache) [
          | err e ↦ (st, err (prepared_failed e))
          | ok (b', psc) ↦
              with_message response (prepared_result b')
                (record st { prepared_statement_cache = psc })
        ]

  unfoldable pub process_message :
      RawFrame
      → ClusterType
      → RequestInfo
      → Option RawFrame
      → ResponseMessage
      → HandlerState
      → Processed
  unfolding process_prepared unprepared_id store_current_keyspace with_message
  process_message response cluster info target_response (prepared_result b) st =
      process_prepared response b info target_response st
  process_message response cluster info target_response (set_keyspace keyspace) st =
      (if keyspace == "" then st else store_current_keyspace keyspace st, ok response)
  process_message response cluster info target_response (unprepared_message id) st =
      elim (unprepared_id cluster id st.prepared_statement_cache) [
        | err e ↦ (st, err e)
        | ok id' ↦ with_message response (unprepared_message id') st
      ]
  process_message response cluster info target_response other_response st = (st, ok response)

  -- `target_response` is the context's.
  unfoldable pub process_client_response :
      RawFrame → ClusterType → RequestInfo → Option RawFrame → HandlerState → Processed
  unfolding process_message
  process_client_response response cluster info target_response st =
      if has_message response.header.op_code
      then (elim (decode response) [
        | none ↦ (st, err response_not_decoded)
        | some m ↦ process_message response cluster info target_response m st
      ])
      else (st, ok response)

-- What a client hears of a request that could not be sent: OVERLOADED, a protocol error, or nothing.
pub data SendFailure : Type 0 where
  overloaded protocol_error nothing : SendFailure

-- By the text of the error, which names a lack of ids or a negative id.
unfoldable pub handle_request_send_failure : StreamIdError → SendFailure
handle_request_send_failure none_available = overloaded
handle_request_send_failure (negative id) = protocol_error
handle_request_send_failure _ = nothing

-- The two connectors, and what the client hears at once, in order.
pub record Connectors (S : Type 0) : Type 0 where
  pub origin_connector : ClusterConnector S
  pub target_connector : ClusterConnector S
  pub heard : List SendFailure

module _ {S : Type 0} (mapper : Mapper S) where
  abbrev pub hear : Option StreamIdError → Connectors S → Connectors S
  hear none cs = cs
  hear (some e) cs = record cs { heard = cs.heard ++ (handle_request_send_failure e ∷ []) }

  unfoldable pub send_to_origin : RawFrame → Connectors S → Connectors S × Option StreamIdError
  send_to_origin f cs =
      let (cc, e) = send_request_to_cluster mapper f cs.origin_connector in
      (record cs { origin_connector = cc }, e)

  unfoldable pub send_to_target : RawFrame → Connectors S → Connectors S × Option StreamIdError
  send_to_target f cs =
      let (cc, e) = send_request_to_cluster mapper f cs.target_connector in
      (record cs { target_connector = cc }, e)

  -- The switch of executeRequest, `heartbeat_origin` and `heartbeat_target` being sendHeartbeat of
  -- each connector; `none` is the error of another decision. The target's error is dropped where
  -- the request goes to both.
  unfoldable pub send_by_decision :
      (ClusterConnector S → ClusterConnector S)
      → ForwardDecision
      → RawFrame
      → RawFrame
      → Connectors S
      → Option (Connectors S)
  unfolding send_to_origin send_to_target
  send_by_decision heartbeat to_both for_origin for_target cs =
      let (cs', e) = send_to_origin for_origin cs in
      let (cs'', e') = send_to_target for_target cs' in
      some (if is_some e then hear e cs' else cs'')
  send_by_decision heartbeat to_origin for_origin for_target cs =
      let (cs', e) = send_to_origin for_origin cs in
      let heard' = hear e cs' in
      some (record heard' { target_connector = heartbeat heard'.target_connector })
  send_by_decision heartbeat to_target for_origin for_target cs =
      let (cs', e) = send_to_target for_target cs in
      let heard' = hear e cs' in
      some (record heard' { origin_connector = heartbeat heard'.origin_connector })
  send_by_decision heartbeat to_async_only for_origin for_target cs = some cs
  send_by_decision heartbeat to_none for_origin for_target cs = none
