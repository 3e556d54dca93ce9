-- ===== src/Connector/Handling.antt =====
-- proxy/pkg/zdmproxy/clusterconn.go: what the async connector does with a response, and with the
-- timeout of a request. One PREPARE at most is sent for a response, under the new address `ctx`.
use zdm_proxy.Prelude.{
  ℕ, ◌+◌, ◌-◌, Bool, true, false, not, Option, none, some, List, [], ◌∷◌, ℤ, nat_eq, lookup,
  if◌then◌else◌,
}
use zdm_proxy.Protocol.{ClusterType, target, event, OpCode, Header, RawFrame, cluster_beq}
use zdm_proxy.RequestInfo.{prepare, PreparedData, PrepareRequestInfo, should_be_tracked_in_metrics}
use zdm_proxy.Processor.{Mapper}
use zdm_proxy.PreparedCache.{PreparedStatementCache, get, get_by_target_prepared_id}
use zdm_proxy.Requests.Context.{AsyncRequestContext}
use zdm_proxy.Requests.Pending.{PendingRequests, mark_as_done, time_out, clear}
use zdm_proxy.Connector.{ClusterConnector, shutdown, request_done, send_async_request_to_cluster}
use zdm_proxy.Connector.Errors.{
  protocol_error_code, ErrorMessage, decode_error, track_cluster_error,
}

abbrev pub is_protocol_error : ErrorMessage → Bool
is_protocol_error e = elim e.code [ protocol_error_code ↦ true | _ ↦ false ]

abbrev pub is_event : OpCode → Bool
is_event event = true
is_event _ = false

-- response.Header.StreamId = id
abbrev pub with_stream_id : ℤ → RawFrame → RawFrame
with_stream_id id f = record f { header = record (f.header) { stream_id = id } }

-- The statement of an id that the cluster does not know.
unfoldable pub prepared_data_of :
    ClusterType → List ℕ → PreparedStatementCache → Option PreparedData
prepared_data_of cluster id psc =
    if cluster_beq cluster target then get_by_target_prepared_id id psc else get id psc

-- The context of a response that is the outcome of a request.
abbrev pub finished_context : PendingRequests × Option ℕ × Bool → Option AsyncRequestContext
finished_context (p, none, done) = none
finished_context (p, some ctx, done) = if done then lookup ctx p.contexts else none

module _ {S : Type 0} (mapper : Mapper S) (cluster : ClusterType)
    (decode_body : RawFrame → Option (Option ErrorMessage))
    (convert_prepare : Header → PrepareRequestInfo → Option RawFrame) where
  -- The PREPARE that follows an UNPREPARED error; `true` if it is sent.
  unfoldable pub prepare_again :
      ℕ → List ℕ → Header → PreparedStatementCache → ClusterConnector S → ClusterConnector S × Bool
  unfolding prepared_data_of
  prepare_again ctx id header psc cc = elim (prepared_data_of cluster id psc) [
    | none ↦ (cc, false)
    | some d ↦ elim (convert_prepare header d.prepare_request_info) [
      | none ↦ (cc, false)
      | some f ↦
          send_async_request_to_cluster mapper ctx (prepare d.prepare_request_info) f false cc
    ]
  ]

  -- `if callDone { clientHandlerRequestWg.Done() }`
  abbrev pub done_unless : ClusterConnector S × Bool → ClusterConnector S
  done_unless (cc, sent) = if sent then cc else request_done cc

  -- The end of a request that no client waits for.
  unfoldable pub finish_unexpected :
      ℕ
      → AsyncRequestContext
      → Option ErrorMessage
      → Header
      → PreparedStatementCache
      → ClusterConnector S
      → ClusterConnector S
  unfolding prepare_again
  finish_unexpected ctx c none header psc cc = request_done cc
  finish_unexpected ctx c (some e) header psc cc =
      let cc' : ClusterConnector S =
        if should_be_tracked_in_metrics c.request_info
        then record cc { error_metrics = track_cluster_error e.code cc.error_metrics }
        else cc in
      elim e.unprepared_id [
        | none ↦ request_done cc'
        | some id ↦ done_unless (prepare_again ctx id header psc cc')
      ]

  -- After markAsDone: `none` where nothing is passed on to the client handler.
  unfoldable pub finish_async :
      ℕ
      → Option AsyncRequestContext
      → Option ErrorMessage
      → RawFrame
      → PreparedStatementCache
      → ClusterConnector S
      → ClusterConnector S × Option RawFrame
  unfolding finish_unexpected
  finish_async ctx none e f psc cc = (cc, none)
  finish_async ctx (some c) e f psc cc =
      if c.expected_response
      then (cc, some (with_stream_id c.request_stream_id f))
      else (finish_unexpected ctx c e f.header psc cc, none)

  unfoldable pub receive_async :
      ℕ
      → Option ErrorMessage
      → RawFrame
      → PreparedStatementCache
      → ClusterConnector S
      → ClusterConnector S × Option RawFrame
  unfolding finish_async
  receive_async ctx e f psc cc =
      let r = mark_as_done f.header.stream_id cc.pending in
      finish_async ctx (finished_context r) e f psc (record cc { pending = r.0 })

  unfoldable pub handle_async_response :
      ℕ
      → RawFrame
      → PreparedStatementCache
      → ClusterConnector S
      → ClusterConnector S × Option RawFrame
  unfolding decode_error receive_async
  handle_async_response ctx f psc cc = elim (decode_error decode_body f) [
    | none ↦ (shutdown cc, none)
    | some e ↦ elim e [
      | none ↦ if is_event f.header.op_code then (cc, none) else receive_async ctx none f psc cc
      | some m ↦
          if is_protocol_error m then (shutdown cc, none) else receive_async ctx (some m) f psc cc
    ]
  ]

-- The timer of a request that no client waits for.
unfoldable pub async_timer : {S : Type 0} → ℤ → ℕ → ClusterConnector S → ClusterConnector S
async_timer stream_id ctx cc =
    let (p, finished) = time_out stream_id ctx cc.pending in
    let cc' = record cc { pending = p } in if finished then request_done cc' else cc'

-- The number of Done calls of the function that the client handler passes to clear, which is called
-- with each context that is canceled.
abbrev pub is_unexpected : Option AsyncRequestContext → Bool
is_unexpected none = false
is_unexpected (some c) = not c.expected_response

unfoldable pub canceled_done : PendingRequests → List ℕ → ℕ
canceled_done p [] = 0
canceled_done p (ctx ∷ ctxs) =
    let others = canceled_done p ctxs in
    if is_unexpected (lookup ctx p.contexts) then others + 1 else others

unfoldable pub clear_async : {S : Type 0} → ClusterConnector S → ClusterConnector S
unfolding canceled_done
clear_async cc =
    let (p, ctxs) = clear cc.pending in
    record cc { pending = p; requests_in_flight = cc.requests_in_flight - canceled_done p ctxs }
