-- ===== src/Dispatch/Stored.antt =====
-- clienthandler.go: no request reaches a cluster without a context that waits for its responses.
use zdm_proxy.Prelude.{
  ℕ, ◌≡◌, refl, sym, subst, Bool, true, false, Option, none, some, [], ◌∷◌, ◌++◌, int_eq, nat_eq,
  String, lookup, Result, ok, err, arith, inl, inr, Bool-cases, if◌then◌else◌,
}
use zdm_proxy.Protocol.{RawFrame, to_none, decision_beq}
use zdm_proxy.RequestInfo.{
  RequestInfo, BaseRequestInfo, PrepareRequestInfo, base, generic, intercepted, prepare, execute,
  batch, get_forward_decision,
}
use zdm_proxy.Messages.{Message}
use zdm_proxy.PreparedCache.{PreparedStatementCache}
use zdm_proxy.Requests.Context.{FramePointer}
use zdm_proxy.Connector.{ClusterConnector}
use zdm_proxy.Execution.{ExecutionError, handle_execute_request, handle_batch_request}
use zdm_proxy.Execution.Intercepted.{handle_prepare_request}
use zdm_proxy.Handler.{Connectors, send_by_decision}
use zdm_proxy.Lifecycle.{Table, held, store_request}
use zdm_proxy.Lifecycle.Storing.{waiting, stored_waits}
use zdm_proxy.Dispatch.{
  Setting, ClientHandler, RequestFailure, no_client_response, Framed, own_response, for_clusters,
  framed, framed_prepare, request_frames, after_store, send_to_async_connector, after_frames,
  store_and_send, execute_request, answer_at_once,
}

-- A request that the proxy answers by itself, by its decision.
abbrev pub IsIntercepted : RequestInfo → Type 0
IsIntercepted info = decision_beq (get_forward_decision info) to_none ≡ true

framed_for_clusters :
    (r : Result ExecutionError (RawFrame × RawFrame)) (g : RawFrame) (psc : PreparedStatementCache)
    → framed r ≡ ok (own_response g psc)
    → ⊥
framed_for_clusters (err e) g psc h = cc
framed_for_clusters (ok fs) g psc h = cc

module _ {S A G : Type 0} (env : Setting S A G) where
  open env use {
    encode, convert, get_time_uuid, tables, proxy_listen_port, encode_cell, md5_sum, codes,
    convert_intercepted, async_cluster,
  }

  own_prepare-IsIntercepted :
      (b : BaseRequestInfo) (p : PrepareRequestInfo) (f : RawFrame) (keyspace : String)
      (psc psc' : PreparedStatementCache) (g : RawFrame)
      → p.base_request_info ≡ b
      → framed_prepare f (
          handle_prepare_request encode_cell md5_sum codes tables proxy_listen_port
            convert_intercepted p f keyspace psc)
        ≡ ok (own_response g psc')
      → IsIntercepted (prepare p)
  unfolding handle_prepare_request get_forward_decision
  own_prepare-IsIntercepted (generic i) p f keyspace psc psc' g same h =
      absurd (ground (arith, same, h))
  own_prepare-IsIntercepted (intercepted type clause) p f keyspace psc psc' g same h =
      ground (arith, same)

  own_response-IsIntercepted :
      (info : RequestInfo) (f : RawFrame) (m : Message) (keyspace : String)
      (psc psc' : PreparedStatementCache) (s : G) (g : RawFrame)
      → (request_frames env info f m keyspace psc s).1 ≡ ok (own_response g psc')
      → IsIntercepted info
  unfolding request_frames get_forward_decision
  own_response-IsIntercepted (base (generic i)) f m keyspace psc psc' s g h =
      absurd (ground (arith, h))
  own_response-IsIntercepted (base (intercepted type clause)) f m keyspace psc psc' s g h = refl
  own_response-IsIntercepted (prepare p) f m keyspace psc psc' s g h =
      own_prepare-IsIntercepted p.base_request_info p f keyspace psc psc' g refl h
  own_response-IsIntercepted (execute d) f m keyspace psc psc' s g h =
      elim (Bool-cases (decision_beq (get_forward_decision (execute d)) to_none)) [
        | inl e ↦ e
        | inr e ↦ absurd (
            framed_for_clusters
              (handle_execute_request encode convert d f m get_time_uuid async_cluster s).1 g psc'
              (ground (arith, e, h)))
      ]
  own_response-IsIntercepted (batch entries) f m keyspace psc psc' s g h = absurd (
      framed_for_clusters (handle_batch_request encode get_time_uuid convert entries f m s).1 g psc'
        h)

module _ {S A G : Type 0} (ch : ClientHandler S A G) where
  -- Nothing has gone to a connector.
  abbrev pub IsUnsent : ClientHandler S A G → Type 0
  IsUnsent ch' = (ch'.connectors ≡ ch.connectors) × (ch'.async_connector ≡ ch.async_connector)

  -- The client has one response of the proxy's own, and nothing is stored.
  abbrev pub IsAnswered : ClientHandler S A G → Type 0
  IsAnswered ch' =
      IsUnsent ch'
      × (ch'.table.holders ≡ ch.table.holders)
      × (ch'.table.contexts ≡ ch.table.contexts)
      × ((g : RawFrame) × (ch'.client_responses ≡ ch.client_responses ++ (g ∷ [])))

  -- The request's context is new in the holder of its stream id, which was empty.
  abbrev pub IsStored : ℕ → FramePointer → RequestInfo → ClientHandler S A G → Type 0
  IsStored ctx req info ch' =
      (ch'.client_responses ≡ ch.client_responses)
      × (held req.frame.header.stream_id ch.table.holders ≡ none)
      × (held req.frame.header.stream_id ch'.table.holders ≡ some ctx)
      × (lookup ctx ch'.table.contexts ≡ some (waiting req info))

module _ {S A G : Type 0} (ctx : ℕ) (req : FramePointer) (info : RequestInfo)
    (ch : ClientHandler S A G) where
  -- What a request that succeeds leaves, by whether the proxy answers it.
  abbrev pub LeavesDone : Bool → ClientHandler S A G → Type 0
  LeavesDone true ch' = IsAnswered ch ch'
  LeavesDone false ch' = IsStored ch ctx req info ch'

  -- What a request leaves, by whether it failed.
  abbrev pub Leaves : Option RequestFailure → ClientHandler S A G → Type 0
  Leaves (some e) ch' = IsUnsent ch ch' × (ch'.client_responses ≡ ch.client_responses)
  Leaves none ch' = LeavesDone (decision_beq (get_forward_decision info) to_none) ch'

  after_store-Leaves :
      (t : Table) (stored : Bool) (sent : Option (Connectors S))
      (copied : Option (ClusterConnector A)) (s : G)
      → decision_beq (get_forward_decision info) to_none ≡ false
      → (stored ≡ true
          → (held req.frame.header.stream_id ch.table.holders ≡ none)
            × (held req.frame.header.stream_id t.holders ≡ some ctx)
            × (lookup ctx t.contexts ≡ some (waiting req info)))
      → let (ch', failure) = after_store t stored sent copied (record ch { generator = s }) in
        Leaves failure ch'
  after_store-Leaves t false sent copied s d facts = ((refl, refl), refl)
  after_store-Leaves t true none copied s d facts = ((refl, refl), refl)
  after_store-Leaves t true (some cs) copied s d facts =
      subst
        (λ b. LeavesDone b (after_store t true (some cs) copied (record ch { generator = s })).0)
        (sym d) (let (free, has, found) = facts refl in (refl, free, has, found))

  module _ (env : Setting S A G) where
    open env use {mapper, async_mapper, primary_cluster, heartbeat}

    -- What for_clusters gives, by the test of the decision.
    abbrev by_test : RawFrame × RawFrame → G → Bool → ClientHandler S A G × Option RequestFailure
    by_test fs s b =
        if b
        then (record ch { generator = s }, some no_client_response)
        else store_and_send env ctx req info fs (record ch { generator = s })

    for_clusters-Leaves :
        (b : Bool) (fs : RawFrame × RawFrame) (s : G)
        → decision_beq (get_forward_decision info) to_none ≡ b
        → Leaves (by_test fs s b).1 (by_test fs s b).0
    unfolding store_and_send
    for_clusters-Leaves true fs s d = ((refl, refl), refl)
    for_clusters-Leaves false (for_origin, for_target) s d =
        let (t, stored) = store_request ctx req info ch.table in
        after_store-Leaves t stored
          (send_by_decision mapper heartbeat (get_forward_decision info) for_origin for_target
            ch.connectors)
          (send_to_async_connector async_mapper primary_cluster ctx info (for_origin, for_target)
            ch.async_connector)
          s d (stored_waits ctx req info ch.table)

    after_frames-Leaves :
        (r : Result RequestFailure Framed) (s : G)
        → ((g : RawFrame) (psc : PreparedStatementCache)
            → r ≡ ok (own_response g psc)
            → IsIntercepted info)
        → let (ch', failure) = after_frames env ctx req info r (record ch { generator = s }) in
          Leaves failure ch'
    after_frames-Leaves (err e) s own = ((refl, refl), refl)
    after_frames-Leaves (ok (own_response g psc)) s own =
        subst (λ b. LeavesDone b (answer_at_once g psc (record ch { generator = s })))
          (sym (own g psc refl)) ((refl, refl), refl, refl, (g, refl))
    after_frames-Leaves (ok (for_clusters fs)) s own =
        for_clusters-Leaves (decision_beq (get_forward_decision info) to_none) fs s refl

    -- A request that fails has sent nothing, to a connector or to the client. Of those that do not fail, one
    -- with the decision NONE has sent nothing to a connector and stored nothing, and its client has one
    -- response of the proxy's own. Any other found the holder of its stream id empty, and is there now: its
    -- context is new, and waits with its timer.
    pub sent_or_untouched :
        (m : Message) (keyspace : String)
        → let (ch', failure) = execute_request env ctx req info m keyspace ch in Leaves failure ch'
    unfolding execute_request
    sent_or_untouched m keyspace =
        let psc = ch.table.handler.prepared_statement_cache in
        let (s, r) = request_frames env info req.frame m keyspace psc ch.generator in
        after_frames-Leaves r s (λ g psc' h.
          own_response-IsIntercepted env info req.frame m keyspace psc psc' ch.generator g h)
