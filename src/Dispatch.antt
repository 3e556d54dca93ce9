-- ===== src/Dispatch.antt =====
-- clienthandler.go: executeRequest of a decoded request, unless it is for the async connector alone, as in
-- its handshake. An intercepted request is answered by the proxy. Any other goes to the origin, the target
-- or both: with the frames of Execution, the context of Lifecycle and the sending of Handler, in the order
-- of the code, and with the copy for the async connector, which no client waits for.
pub mod Stored
pub mod Copies
pub mod Forward
pub mod Forwarded
pub mod Answered
mod Tests
mod ForwardTest
mod AnsweredTest
use zdm_proxy.Prelude.{
  ℕ, Bool, true, false, Option, none, some, List, [], ◌∷◌, ◌++◌, String, if◌then◌else◌, Result, ok,
  err,
}
use zdm_proxy.Protocol.{
  ForwardDecision, to_none, decision_beq, ClusterType, target, cluster_beq, RawFrame,
}
use zdm_proxy.RequestInfo.{
  RequestInfo, PrepareRequestInfo, base, generic, intercepted, prepare, execute, batch,
  get_forward_decision, should_also_be_sent_async,
}
use zdm_proxy.Messages.{Value, Message}
use zdm_proxy.Parameters.{Uuid}
use zdm_proxy.Processor.{Mapper}
use zdm_proxy.Requests.Context.{FramePointer}
use zdm_proxy.Connector.{ClusterConnector, fire_and_forget}
use zdm_proxy.Execution.Intercepted.{
  Tables, InterceptedError, InterceptedMessage, handle_intercepted_request, handle_prepare_request,
  handle_intercepted_execute,
}
use zdm_proxy.PreparedCache.{PreparedStatementCache}
use zdm_proxy.SystemTables.{DataType}
use zdm_proxy.SystemTables.Values.{Cell}
use zdm_proxy.Execution.{ExecutionError, handle_execute_request, handle_batch_request}
use zdm_proxy.Handler.{Connectors, send_by_decision}
use zdm_proxy.Lifecycle.{Table, store_request}

-- What the client handler is given: the mappers of its connectors, the clusters, the codecs, what the
-- control connection knows, the port of the proxy and the generator of uuids.
pub record Setting (S A G : Type 0) : Type 0 where
  pub mapper : Mapper S
  pub async_mapper : Mapper A
  pub primary_cluster : ClusterType
  pub async_cluster : Option ClusterType
  pub heartbeat : ClusterConnector S → ClusterConnector S
  pub encode : Uuid → String → Option Value
  pub convert : RawFrame → Message → Option RawFrame
  pub get_time_uuid : G → Uuid × G
  pub tables : Tables
  pub proxy_listen_port : ℕ
  pub encode_cell : DataType → Cell → Option (Option (List ℕ))
  pub md5_sum : List ℕ → List ℕ
  pub codes : String → List ℕ
  pub convert_intercepted : RawFrame → InterceptedMessage → Option RawFrame

-- What the client handler has of requests, connections and uuids, and the responses of the proxy's own
-- that executeRequest has sent to the client or to a custom channel, in order.
pub record ClientHandler (S A G : Type 0) : Type 0 where
  pub table : Table
  pub connectors : Connectors S
  pub async_connector : Option (ClusterConnector A)
  pub generator : G
  pub client_responses : List RawFrame

pub data RequestFailure : Type 0 where
  not_executed : ExecutionError → RequestFailure
  not_answered : InterceptedError → RequestFailure
  no_client_response stream_id_collision unknown_decision : RequestFailure

-- What the switch over the request infos gives: a response of the proxy's own, with the prepared
-- statements after it, or the frames for the origin and the target.
pub data Framed : Type 0 where
  own_response : RawFrame → PreparedStatementCache → Framed
  for_clusters : RawFrame × RawFrame → Framed

abbrev pub answered_by_proxy :
    Result InterceptedError (RawFrame × PreparedStatementCache) → Result RequestFailure Framed
answered_by_proxy (err e) = err (not_answered e)
answered_by_proxy (ok (g, psc)) = ok (own_response g psc)

abbrev pub framed : Result ExecutionError (RawFrame × RawFrame) → Result RequestFailure Framed
framed (err e) = err (not_executed e)
framed (ok fs) = ok (for_clusters fs)

-- A PREPARE has a response of the proxy's own or a frame for both clusters.
abbrev pub framed_prepare :
    RawFrame
    → Result InterceptedError (Option RawFrame × Option RawFrame × PreparedStatementCache)
    → Result RequestFailure Framed
framed_prepare f (err e) = err (not_answered e)
framed_prepare f (ok (some g, h, psc)) = ok (own_response g psc)
framed_prepare f (ok (none, some h, psc)) = ok (for_clusters (h, h))
framed_prepare f (ok (none, none, psc)) = ok (for_clusters (f, f))

abbrev pub answer_at_once :
    {S A G : Type 0} → RawFrame → PreparedStatementCache → ClientHandler S A G → ClientHandler S A G
answer_at_once g psc ch = record ch {
  table = record ch.table { handler = record ch.table.handler { prepared_statement_cache = psc } };
  client_responses = ch.client_responses ++ (g ∷ []);
}

-- The frame for the async connector, of the frames for the origin and the target.
abbrev pub async_request : ClusterType → RawFrame × RawFrame → RawFrame
async_request primary (for_origin, for_target) =
    if cluster_beq primary target then for_origin else for_target

-- What follows storeRequestContext: a collision, an unknown decision, or the connectors as they are after
-- the sending, with the async connector `copied`.
abbrev pub after_store :
    {S A G : Type 0}
    → Table
    → Bool
    → Option (Connectors S)
    → Option (ClusterConnector A)
    → ClientHandler S A G
    → ClientHandler S A G × Option RequestFailure
after_store t false sent copied ch = (record ch { table = t }, some stream_id_collision)
after_store t true none copied ch = (record ch { table = t }, some unknown_decision)
after_store t true (some cs) copied ch =
    (record ch { table = t; connectors = cs; async_connector = copied }, none)

module _ {A : Type 0} (async_mapper : Mapper A) (primary : ClusterType) where
  -- sendToAsyncConnector of a request that is also sent to a cluster. The async connector keeps its
  -- contexts apart, so the address may be the same.
  unfoldable pub send_to_async_connector :
      ℕ
      → RequestInfo
      → RawFrame × RawFrame
      → Option (ClusterConnector A)
      → Option (ClusterConnector A)
  send_to_async_connector ctx info frames none = none
  send_to_async_connector ctx info frames (some ac) =
      if should_also_be_sent_async info
      then some (fire_and_forget async_mapper ctx info (async_request primary frames) ac).0
      else some ac

module _ {S A G : Type 0} (env : Setting S A G) where
  open env use {
    mapper, async_mapper, primary_cluster, async_cluster, heartbeat, encode, convert, get_time_uuid,
    tables, proxy_listen_port, encode_cell, md5_sum, codes, convert_intercepted,
  }

  -- The switch over the request infos, with the client's keyspace.
  unfoldable pub request_frames :
      RequestInfo
      → RawFrame
      → Message
      → String
      → PreparedStatementCache
      → G
      → G × Result RequestFailure Framed
  request_frames (base (generic g)) f m keyspace psc s = (s, ok (for_clusters (f, f)))
  request_frames (base (intercepted type clause)) f m keyspace psc s = (
    s,
    answered_by_proxy (
        handle_intercepted_request encode_cell md5_sum codes tables proxy_listen_port
          convert_intercepted none (intercepted type clause) f keyspace psc),
  )
  request_frames (prepare p) f m keyspace psc s = (
    s,
    framed_prepare f (
        handle_prepare_request encode_cell md5_sum codes tables proxy_listen_port
          convert_intercepted p f keyspace psc),
  )
  request_frames (execute d) f m keyspace psc s =
      let (s', r) = handle_execute_request encode convert d f m get_time_uuid async_cluster s in
      if decision_beq (get_forward_decision (execute d)) to_none
      then (
        s,
        answered_by_proxy (
            handle_intercepted_execute encode_cell md5_sum codes tables proxy_listen_port
              convert_intercepted d f keyspace psc),
      )
      else (s', framed r)
  request_frames (batch entries) f m keyspace psc s =
      let (s', r) = handle_batch_request encode get_time_uuid convert entries f m s in
      (s', framed r)

  -- What follows the frames: the result of the sending matters if the context is stored.
  unfoldable pub store_and_send :
      ℕ
      → FramePointer
      → RequestInfo
      → RawFrame × RawFrame
      → ClientHandler S A G
      → ClientHandler S A G × Option RequestFailure
  unfolding send_to_async_connector
  store_and_send ctx req info (for_origin, for_target) ch =
      let (t, stored) = store_request ctx req info ch.table in
      after_store t stored
        (send_by_decision mapper heartbeat (get_forward_decision info) for_origin for_target
          ch.connectors)
        (send_to_async_connector async_mapper primary_cluster ctx info (for_origin, for_target)
          ch.async_connector)
        ch

  -- What follows the switch.
  abbrev pub after_frames :
      ℕ
      → FramePointer
      → RequestInfo
      → Result RequestFailure Framed
      → ClientHandler S A G
      → ClientHandler S A G × Option RequestFailure
  after_frames ctx req info (err e) ch = (ch, some e)
  after_frames ctx req info (ok (own_response g psc)) ch = (answer_at_once g psc ch, none)
  after_frames ctx req info (ok (for_clusters fs)) ch =
      if decision_beq (get_forward_decision info) to_none
      then (ch, some no_client_response)
      else store_and_send ctx req info fs ch

  unfoldable pub execute_request :
      ℕ
      → FramePointer
      → RequestInfo
      → Message
      → String
      → ClientHandler S A G
      → ClientHandler S A G × Option RequestFailure
  unfolding request_frames store_and_send
  execute_request ctx req info m keyspace ch =
      let (s, r) =
        request_frames info req.frame m keyspace ch.table.handler.prepared_statement_cache
          ch.generator in
      after_frames ctx req info r (record ch { generator = s })
