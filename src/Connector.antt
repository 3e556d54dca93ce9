-- ===== src/Connector.antt =====
-- proxy/pkg/zdmproxy/clusterconn.go: the connection to a cluster, its sending of requests and, where it
-- is the async connector, its handling of responses; with Enqueue and EnqueueAsync of coalescer.go and
-- the error metrics of clienthandler.go. Each function is one step of the connector.
pub mod Errors
pub mod Handling
pub mod Discards
pub mod Exchange
pub mod Stored
mod Tests
use zdm_proxy.Prelude.{
  ℕ, suc, ◌+◌, ◌-◌, Bool, true, false, ◌&&◌, not, Option, none, some, is_some, List, [], ◌∷◌, ◌++◌,
  ℤ, pos, int_eq, nat_eq, String, length, ltb, lookup, insert, if◌then◌else◌, Result, ok, err,
}
use zdm_proxy.Protocol.{
  ClusterType, target, origin, cluster_none, OpCode, startup, auth_response, options, event, error,
  Header, RawFrame, cluster_beq,
}
use zdm_proxy.RequestInfo.{
  RequestInfo, prepare, PreparedData, PrepareRequestInfo, should_be_tracked_in_metrics,
}
use zdm_proxy.StreamIds.{StreamIdError}
use zdm_proxy.Processor.{Mapper, assign_unique_id}
use zdm_proxy.PreparedCache.{PreparedStatementCache, get, get_by_target_prepared_id}
use zdm_proxy.Requests.Context.{
  AsyncRequestContext, NodeMetrics, NodeMetricsInstance, new_async_request_context, on_async,
}
use zdm_proxy.Requests.Pending.{PendingRequests, store, cancel, mark_as_done}
use zdm_proxy.Handshake.{
  ConnectorState, connector_handshake, connector_ready, connector_shutdown, set_ready,
}
use zdm_proxy.Connector.Errors.{
  ErrorCode, protocol_error_code, ErrorMessage, ErrorMetrics, decode_error, track_cluster_error,
}

-- ClusterConnector, with the state of its frame processor's mapper and its write queue, whose capacity
-- is `queue_size`. `canceled` is whether its context is; `requests_in_flight` is what the connector's
-- requests without a waiting client add to the client handler's wait group.
pub record ClusterConnector (S : Type 0) : Type 0 where
  pub state : ConnectorState
  pub mapper_state : S
  pub pending : PendingRequests
  pub write_queue : List RawFrame
  pub queue_size : ℕ
  pub canceled : Bool
  pub requests_in_flight : ℕ
  pub error_metrics : ErrorMetrics

-- Enqueue waits for room, so the queue here may hold what waits beside what the channel holds.
unfoldable pub enqueue : {S : Type 0} → RawFrame → ClusterConnector S → ClusterConnector S
enqueue f cc = record cc { write_queue = cc.write_queue ++ (f ∷ []) }

-- EnqueueAsync does not wait: it drops the frame where the queue is full.
unfoldable pub enqueue_async :
    {S : Type 0} → RawFrame → ClusterConnector S → ClusterConnector S × Bool
unfolding enqueue
enqueue_async f cc =
    if ltb (length cc.write_queue) cc.queue_size then (enqueue f cc, true) else (cc, false)

unfoldable pub validate_async_state_for_request : ConnectorState → OpCode → Bool
validate_async_state_for_request connector_shutdown op = false
validate_async_state_for_request connector_ready op = true
validate_async_state_for_request connector_handshake startup = true
validate_async_state_for_request connector_handshake auth_response = true
validate_async_state_for_request connector_handshake options = true
validate_async_state_for_request connector_handshake _ = false

-- Shutdown cancels the context. The state changes where the response loop ends.
unfoldable pub shutdown : {S : Type 0} → ClusterConnector S → ClusterConnector S
shutdown cc = record cc { canceled = true }

unfoldable pub end_response_loop : {S : Type 0} → ClusterConnector S → ClusterConnector S
end_response_loop cc = record cc { state = connector_shutdown }

unfoldable pub is_shutdown : {S : Type 0} → ClusterConnector S → Bool
is_shutdown cc = elim cc.state [ connector_shutdown ↦ true | _ ↦ false ]

unfoldable pub connector_set_ready : {S : Type 0} → ClusterConnector S → ClusterConnector S × Bool
unfolding set_ready
connector_set_ready cc = let (s, done) = set_ready cc.state in (record cc { state = s }, done)

-- clientHandlerRequestWg.Done
abbrev pub request_done : {S : Type 0} → ClusterConnector S → ClusterConnector S
request_done cc = record cc { requests_in_flight = cc.requests_in_flight - 1 }

-- A context that has been stored: its timer runs, and its request is in flight.
abbrev pub with_timer : AsyncRequestContext → AsyncRequestContext
with_timer c = record c { timer = some true }

abbrev pub enter_flight : NodeMetricsInstance → NodeMetricsInstance
enter_flight m = record m {
  in_flight_requests = record (m.in_flight_requests) { added = m.in_flight_requests.added + 1 };
}

-- asyncPendingRequests.store of a new context at a new address; it stays out of the heap where it is
-- not stored, since nothing refers to it then.
unfoldable pub store_new : ℕ → AsyncRequestContext → ℤ → PendingRequests → PendingRequests × Bool
unfolding store
store_new ctx c stream_id p =
    let (p', stored) = store stream_id ctx p in
    if stored
    then (
      record p' {
        contexts = insert ctx (with_timer c) p'.contexts;
        node_metrics =
            if should_be_tracked_in_metrics c.request_info
            then on_async enter_flight p'.node_metrics
            else p'.node_metrics;
      },
      true,
    )
    else (p', false)

-- What follows an id.
unfoldable pub send_stored :
    {S : Type 0}
    → ℕ
    → AsyncRequestContext
    → RawFrame
    → ClusterConnector S
    → ClusterConnector S × Bool
unfolding store_new enqueue_async
send_stored ctx c g cc =
    let (p', stored) = store_new ctx c g.header.stream_id cc.pending in
    let (cc', enqueued) = enqueue_async g (record cc { pending = p' }) in
    if stored
    then (if enqueued
        then (cc', true)
        else (record cc { pending = (cancel g.header.stream_id ctx p').0 }, false))
    else (record cc { pending = p' }, false)

-- What follows the call of AssignUniqueId.
unfoldable pub send_assigned :
    {S : Type 0}
    → ℕ
    → AsyncRequestContext
    → Result StreamIdError RawFrame
    → ClusterConnector S
    → ClusterConnector S × Bool
unfolding send_stored
send_assigned ctx c (err e) cc = (cc, false)
send_assigned ctx c (ok g) cc = send_stored ctx c g cc

module _ {S : Type 0} (mapper : Mapper S) where
  -- The frame with its id, and the state of the mapper. The code never passes a nil frame.
  unfoldable pub sent_frame : RawFrame → S → S × Result StreamIdError RawFrame
  unfolding assign_unique_id
  sent_frame f s =
      let (s', f', e) = assign_unique_id mapper (some f) s in
      elim e [ some e' ↦ (s', err e') | none ↦ (s', elim f' [ none ↦ ok f | some g ↦ ok g ]) ]

  unfoldable pub send_request_to_cluster :
      RawFrame → ClusterConnector S → ClusterConnector S × Option StreamIdError
  unfolding sent_frame enqueue
  send_request_to_cluster f cc =
      let (s', r) = sent_frame f cc.mapper_state in
      elim r [
        | err e ↦ (record cc { mapper_state = s' }, some e)
        | ok g ↦ (enqueue g (record cc { mapper_state = s' }), none)
      ]

  -- One goroutine's way through sendAsyncRequestToCluster: the timer, responses and the end of the handler
  -- come before it or after it.
  unfoldable pub send_async_request_to_cluster :
      ℕ → RequestInfo → RawFrame → Bool → ClusterConnector S → ClusterConnector S × Bool
  unfolding validate_async_state_for_request send_assigned
  send_async_request_to_cluster ctx info f expected_response cc =
      let c = new_async_request_context info f.header.stream_id expected_response in
      let (s', r) = sent_frame f cc.mapper_state in
      if validate_async_state_for_request cc.state f.header.op_code
      then send_assigned ctx c r (record cc { mapper_state = s' })
      else (cc, false)

  -- The part of ClientHandler's sendToAsyncConnector that a fire-and-forget request takes.
  unfoldable pub fire_and_forget :
      ℕ → RequestInfo → RawFrame → ClusterConnector S → ClusterConnector S × Bool
  unfolding send_async_request_to_cluster
  fire_and_forget ctx info f cc =
      let counted = record cc { requests_in_flight = cc.requests_in_flight + 1 } in
      let (cc', sent) = send_async_request_to_cluster ctx info f false counted in
      if validate_async_state_for_request cc.state f.header.op_code
      then (if sent then (cc', true) else (request_done cc', false))
      else (cc, false)
