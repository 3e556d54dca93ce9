-- ===== src/Connector/Discards.antt =====
-- clusterconn.go with streamidmapper.go: requests to the async connector that are not sent.
use zdm_proxy.Prelude.{
  ℕ, ◌≡◌, refl, Bool, true, false, none, List, ◌∷◌, ℤ, pos, int_beq_iff, nat_eq, length, ltb,
  lookup, arith, ok,
}
use zdm_proxy.Protocol.{RawFrame}
use zdm_proxy.RequestInfo.{RequestInfo}
use zdm_proxy.StreamIds.{StreamIdMapper, internal_get_new_id_for, gauge_add}
use zdm_proxy.Processor.{Mapper, internal_mapper, assign_unique_id, set_raw_frame_stream_id}
use zdm_proxy.Requests.Context.{AsyncRequestContext, new_async_request_context}
use zdm_proxy.Requests.Pending.{held}
use zdm_proxy.Connector.{
  ClusterConnector, validate_async_state_for_request, sent_frame, send_stored,
  send_async_request_to_cluster, enqueue_async, enqueue,
}
use zdm_proxy.Connector.Exchange.{send_stored_slots, send_async_stored}

-- A request that the connector's state refuses changes nothing, not even the stream ids.
pub refused_unchanged :
    {S : Type 0} (mapper : Mapper S) (ctx : ℕ) (info : RequestInfo) (f : RawFrame) (expected : Bool)
    (cc : ClusterConnector S)
    → validate_async_state_for_request cc.state f.header.op_code ≡ false
    → send_async_request_to_cluster mapper ctx info f expected cc ≡ (cc, false)
unfolding send_async_request_to_cluster
refused_unchanged mapper ctx info f expected cc refused = ground (arith, refused)

internal_id :
    (f : RawFrame) (id : ℕ) (rest : List ℕ) (m : StreamIdMapper)
    → m.cluster_ids ≡ id ∷ rest
    → (g : RawFrame) × (m' : StreamIdMapper) × (sent_frame internal_mapper f m ≡ (m', ok g))
      × (g.header.stream_id ≡ pos id)
      × (m'.cluster_ids ≡ rest)
unfolding sent_frame assign_unique_id set_raw_frame_stream_id internal_get_new_id_for
internal_id f id rest m e =
    let m' : StreamIdMapper = record m { cluster_ids = rest; metrics = gauge_add 1 m.metrics } in
    (
      set_raw_frame_stream_id f (pos id),
      m',
      ground (arith, e),
      ground (arith, int_beq_iff f.header.stream_id (pos id)),
      refl,
    )

mapper-send_stored :
    {S : Type 0} (ctx : ℕ) (c : AsyncRequestContext) (g : RawFrame) (cc : ClusterConnector S)
    → (send_stored ctx c g cc).0.mapper_state ≡ cc.mapper_state
unfolding send_stored enqueue_async enqueue
mapper-send_stored ctx c g cc = ground arith

-- A request to the async connector whose frame finds the write queue full is not sent, and leaves the
-- queue and every slot as they are; but the stream id that it was given is lost to the connector.
pub discarded_loses_id :
    (ctx : ℕ) (info : RequestInfo) (f : RawFrame) (expected : Bool) (id : ℕ) (rest : List ℕ)
    (cc : ClusterConnector StreamIdMapper)
    → lookup ctx cc.pending.contexts ≡ none
    → validate_async_state_for_request cc.state f.header.op_code ≡ true
    → cc.mapper_state.cluster_ids ≡ id ∷ rest
    → ltb (length cc.write_queue) cc.queue_size ≡ false
    → let (cc', sent) = send_async_request_to_cluster internal_mapper ctx info f expected cc in
      (sent ≡ false)
      × (cc'.write_queue ≡ cc.write_queue)
      × ((j : ℤ) → held j cc'.pending ≡ held j cc.pending)
      × (cc'.mapper_state.cluster_ids ≡ rest)
unfolding new_async_request_context
discarded_loses_id ctx info f expected id rest cc unused valid ids full =
    let (g, m', assigned, at, left) = internal_id f id rest cc.mapper_state ids in
    let c = new_async_request_context info f.header.stream_id expected in
    let before : ClusterConnector StreamIdMapper = record cc { mapper_state = m' } in
    let same = send_async_stored internal_mapper ctx info f g expected m' cc valid assigned in
    let slots = λ (j : ℤ). send_stored_slots ctx c g before j unused refl in
    (
      ground (arith, same, full, slots (pos id)),
      ground (arith, same, full, slots (pos id)),
      λ j. ground (arith, same, full, slots j),
      ground (arith, same, left, mapper-send_stored ctx c g before),
    )
