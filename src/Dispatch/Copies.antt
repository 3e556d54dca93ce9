-- ===== src/Dispatch/Copies.antt =====
-- clienthandler.go: a read that goes to the primary cluster and is copied to the async connector.
use zdm_proxy.PreparedCache.{PreparedStatementCache}
use zdm_proxy.Prelude.{
  ℕ, ◌≡◌, refl, ap, ◌∙◌, true, false, Option, none, some, String, if◌then◌else◌, ok, arith,
}
use zdm_proxy.Protocol.{
  ForwardDecision, to_origin, to_target, to_none, decision_beq, ClusterType, origin, target,
  cluster_none, RawFrame, cluster_beq,
}
use zdm_proxy.RequestInfo.{
  RequestInfo, execute, PreparedData, get_forward_decision, should_also_be_sent_async,
}
use zdm_proxy.Messages.{Message, ExecuteMessage}
use zdm_proxy.Processor.{Mapper}
use zdm_proxy.Requests.Context.{FramePointer}
use zdm_proxy.Connector.{ClusterConnector, fire_and_forget}
use zdm_proxy.Execution.{is_replaced, needs_target, goes_to_async}
use zdm_proxy.Execution.Frames.{unreplaced_with_target}
use zdm_proxy.Handler.{Connectors, send_by_decision}
use zdm_proxy.Lifecycle.{store_request}
use zdm_proxy.Dispatch.{
  Setting, ClientHandler, for_clusters, request_frames, send_to_async_connector, store_and_send,
  execute_request,
}

-- The decision for a read of the primary cluster, and the other cluster.
abbrev pub to_primary : ClusterType → ForwardDecision
to_primary primary = if cluster_beq primary target then to_target else to_origin

abbrev pub secondary : ClusterType → ClusterType
secondary primary = if cluster_beq primary target then origin else target

-- The client's frame to the origin, or the one with the target's prepared id to the target.
abbrev pub own_frame : ClusterType → RawFrame → RawFrame → RawFrame
own_frame cluster f h = if cluster_beq cluster target then h else f

target_needed :
    (primary : ClusterType) (info : RequestInfo)
    → get_forward_decision info ≡ to_primary primary
    → should_also_be_sent_async info ≡ true
    → needs_target
        (get_forward_decision info)
        (should_also_be_sent_async info)
        (some (secondary primary))
      ≡ true
unfolding needs_target goes_to_async
target_needed cluster_none info reads copied = ground (arith, reads, copied)
target_needed origin info reads copied = ground (arith, reads, copied)
target_needed target info reads copied = ground (arith, reads, copied)

to_primary_sent : (primary : ClusterType) → decision_beq (to_primary primary) to_none ≡ false
to_primary_sent cluster_none = refl
to_primary_sent origin = refl
to_primary_sent target = refl

sends_to_primary :
    {S : Type 0} (mapper : Mapper S) (heartbeat : ClusterConnector S → ClusterConnector S)
    (primary : ClusterType) (f h : RawFrame) (before : Connectors S)
    → (cs : Connectors S) × (send_by_decision mapper heartbeat (to_primary primary) f h before
        ≡ some cs)
unfolding send_by_decision
sends_to_primary mapper heartbeat cluster_none f h before = (_, refl)
sends_to_primary mapper heartbeat origin f h before = (_, refl)
sends_to_primary mapper heartbeat target f h before = (_, refl)

-- `secondary` is the cluster of the async connector.
module _ {S A G : Type 0} (env : Setting S A G) (d : PreparedData) (f h : RawFrame)
    (e : ExecuteMessage)
    (with_target_id : env.convert f (Message.execute (record e { query_id = d.target_prepared_id }))
      ≡ some h)
    (other : env.async_cluster ≡ some (secondary env.primary_cluster))
    (reads : get_forward_decision (execute d) ≡ to_primary env.primary_cluster)
    (copied : should_also_be_sent_async (execute d) ≡ true)
    (unreplaced : is_replaced d.prepare_request_info.replaced_terms ≡ false) where
  open env use {
    mapper, async_mapper, primary_cluster, heartbeat, encode, convert, get_time_uuid, async_cluster,
  }

  not_intercepted : decision_beq (get_forward_decision (execute d)) to_none ≡ false
  not_intercepted = ap (λ k. decision_beq k to_none) reads ∙ to_primary_sent primary_cluster

  -- The frames of a read: the client's, and the one with the target's id.
  read_frames :
      (keyspace : String) (psc : PreparedStatementCache) (s : G)
      → request_frames env (execute d) f (Message.execute e) keyspace psc s
        ≡ (s, ok (for_clusters (f, h)))
  unfolding request_frames
  read_frames keyspace psc s =
      let needed =
        ap (needs_target (get_forward_decision (execute d)) (should_also_be_sent_async (execute d)))
          other
        ∙ target_needed primary_cluster (execute d) reads copied in
      ground (
        arith,
        with_target_id,
        not_intercepted,
        unreplaced_with_target encode convert d f e get_time_uuid async_cluster s needed unreplaced,
      )

  copy_sent :
      (ctx : ℕ) (o : Option (ClusterConnector A)) (ac : ClusterConnector A)
      → o ≡ some ac
      → send_to_async_connector async_mapper primary_cluster ctx (execute d) (f, h) o
        ≡ some
            (fire_and_forget async_mapper ctx
              (execute d)
              (own_frame (secondary primary_cluster) f h)
              ac).0
  unfolding send_to_async_connector
  copy_sent ctx o ac connected = ground (arith, connected, copied)

  -- A read of a prepared statement without calls of now(), which goes to the primary cluster and is
  -- copied to the async connector of the other one, if its context is stored: the primary is sent the
  -- frame that has its own prepared id, and so is the async connector. The uuids stay as they are.
  pub copies_have_own_ids :
      (ctx : ℕ) (req : FramePointer) (keyspace : String) (ch : ClientHandler S A G)
      (ac : ClusterConnector A)
      → req.frame ≡ f
      → ch.async_connector ≡ some ac
      → (store_request ctx req (execute d) ch.table).1 ≡ true
      → (cs : Connectors S) × (send_by_decision mapper heartbeat
            (to_primary primary_cluster)
            (own_frame origin f h)
            (own_frame target f h)
            ch.connectors
          ≡ some cs)
        × (execute_request env ctx req (execute d) (Message.execute e) keyspace ch ≡ (
          record ch {
            table = (store_request ctx req (execute d) ch.table).0;
            connectors = cs;
            async_connector =
                some
                  (fire_and_forget async_mapper ctx
                    (execute d)
                    (own_frame (secondary primary_cluster) f h)
                    ac).0;
          },
          none,
        ))
  unfolding execute_request store_and_send
  copies_have_own_ids ctx req keyspace ch ac same connected stored =
      let (cs, sent) = sends_to_primary mapper heartbeat primary_cluster f h ch.connectors in
      let fs = read_frames keyspace ch.table.handler.prepared_statement_cache ch.generator in
      let now : execute_request env ctx req (execute d) (Message.execute e) keyspace ch
          ≡ store_and_send env ctx req (execute d) (f, h) ch =
        ground (arith, same, fs, not_intercepted) in
      let decided : send_by_decision mapper heartbeat (get_forward_decision (execute d)) f h
            ch.connectors
          ≡ some cs =
        ap (λ k. send_by_decision mapper heartbeat k f h ch.connectors) reads ∙ sent in
      let moved = copy_sent ctx ch.async_connector ac connected in
      (cs, sent, now ∙ ground (arith, stored, decided, moved))
