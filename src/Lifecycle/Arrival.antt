-- ===== src/Lifecycle/Arrival.antt =====
-- clienthandler.go: the two responses of a request for both clusters, each as it comes.
use zdm_proxy.Prelude.{
  ℕ, ◌≡◌, ap, ◌∙◌, true, false, Option, some, [], ◌∷◌, ◌++◌, ℤ, int_eq, nat_eq, eqb_iff, lookup,
  lookup-insert, Result, arith,
}
use zdm_proxy.Protocol.{
  to_both, ClusterType, origin, target, cluster_none, RawFrame, ClusterConnectorType,
}
use zdm_proxy.RequestInfo.{RequestInfo, get_forward_decision}
use zdm_proxy.Requests.Context.{
  RequestContext, NodeMetrics, FramePointer, done, is_pending, stop_timer, has_all_responses,
  set_cluster_response, set_response,
}
use zdm_proxy.Responses.{compute_client_response}
use zdm_proxy.Connector.Errors.{ErrorMessage, decode_error}
use zdm_proxy.Handler.{HandlerState, ResponseError}
use zdm_proxy.Lifecycle.{
  Outcome, Table, held, get_or_create_holder, final_response, finish_request, on_held,
  is_protocol_error, try_process_protocol_error, handle_response,
}
use zdm_proxy.Lifecycle.Storing.{waiting}
use zdm_proxy.Lifecycle.Holders.{held-get_or_create}

abbrev pub done_by : RawFrame → ClusterType → RequestContext → RequestContext
done_by f cluster c =
    let c' = set_cluster_response f cluster c in
    record c' { state = done; timer = stop_timer c'.timer }

asks_kept :
    (f : RawFrame) (cluster : ClusterType) (c : RequestContext) (req : FramePointer)
    → c.request ≡ some req
    → (done_by f cluster c).request ≡ some req
asks_kept f origin c req asks = asks
asks_kept f target c req asks = asks
asks_kept f cluster_none c req asks = asks

set_not_last :
    (f : RawFrame) (cluster : ClusterType) (connector : ClusterConnectorType) (c : RequestContext)
    (m : NodeMetrics)
    → is_pending c.state ≡ true
    → get_forward_decision c.request_info ≡ to_both
    → has_all_responses to_both (set_cluster_response f cluster c) ≡ false
    → ((set_response f cluster connector (c, m)).0 ≡ set_cluster_response f cluster c)
      × ((set_response f cluster connector (c, m)).2 ≡ false)
unfolding set_response
set_not_last f origin connector c m pend both waits = ground (arith, pend, both, waits)
set_not_last f target connector c m pend both waits = ground (arith, pend, both, waits)
set_not_last f cluster_none connector c m pend both waits = ground (arith, pend, both, waits)

set_last :
    (f : RawFrame) (cluster : ClusterType) (connector : ClusterConnectorType) (c : RequestContext)
    (m : NodeMetrics)
    → is_pending c.state ≡ true
    → get_forward_decision c.request_info ≡ to_both
    → has_all_responses to_both (set_cluster_response f cluster c) ≡ true
    → ((set_response f cluster connector (c, m)).0 ≡ done_by f cluster c)
      × ((set_response f cluster connector (c, m)).2 ≡ true)
unfolding set_response
set_last f origin connector c m pend both all = ground (arith, pend, both, all)
set_last f target connector c m pend both all = ground (arith, pend, both, all)
set_last f cluster_none connector c m pend both all = ground (arith, pend, both, all)

module _ (primary async : ClusterType)
    (process : RawFrame
      → ClusterType
      → RequestInfo
      → Option RawFrame
      → HandlerState
      → HandlerState × Result ResponseError RawFrame)
    (decode_body : RawFrame → Option (Option ErrorMessage)) where
  abbrev pub handle : RawFrame → ClusterType → ClusterConnectorType → Table → Table
  handle f cluster connector t =
      handle_response primary async process decode_body f cluster connector t

  abbrev pub answer_to : FramePointer → RequestContext → Table → Outcome
  answer_to req c t =
      (final_response primary async process
        (compute_client_response primary async req.frame c t.proxy_metrics).0 c t.handler).1

  finish_answers :
      (k : ℤ) (ctx : ℕ) (c : RequestContext) (t : Table) (req : FramePointer)
      → c.request ≡ some req
      → (finish_request primary async process k ctx c t).outcomes
        ≡ t.outcomes ++ ((ctx, answer_to req c t) ∷ [])
  unfolding finish_request
  finish_answers k ctx c t req asks = ground (arith, asks)

  module _ (f : RawFrame) (cluster : ClusterType) (connector : ClusterConnectorType) (t : Table)
      (ctx : ℕ) (c : RequestContext)
      (plain : is_protocol_error (decode_error decode_body f) ≡ false)
      (has : held f.header.stream_id t.holders ≡ some ctx) (found : lookup ctx t.contexts ≡ some c)
      (pend : is_pending c.state ≡ true)
      (both : get_forward_decision c.request_info ≡ to_both) where
    -- A response that is not the last one is kept, and nothing is answered.
    pub first_response :
        has_all_responses to_both (set_cluster_response f cluster c) ≡ false
        → (held f.header.stream_id (handle f cluster connector t).holders ≡ some ctx)
          × (lookup ctx (handle f cluster connector t).contexts
              ≡ some (set_cluster_response f cluster c))
          × ((handle f cluster connector t).outcomes ≡ t.outcomes)
          × ((handle f cluster connector t).handler ≡ t.handler)
          × ((handle f cluster connector t).proxy_metrics ≡ t.proxy_metrics)
    unfolding handle_response try_process_protocol_error on_held
    first_response waiting =
        let k = f.header.stream_id in
        let now : handle f cluster connector t
            ≡ on_held (set_response f cluster connector) (finish_request primary async process) k
                (record t { holders = get_or_create_holder k t.holders }) =
          ground (arith, plain) in
        let (c', same) = set_not_last f cluster connector c t.node_metrics pend both waiting in
        let kept = held-get_or_create k k t.holders in
        (
          ap (λ (u : Table). held k u.holders) now ∙ ground (arith, kept, has, found, same),
          ap (λ (u : Table). lookup ctx u.contexts) now
              ∙ ground (
                arith,
                kept,
                has,
                found,
                c',
                same,
                eqb_iff ctx ctx,
                lookup-insert ctx ctx (set_response f cluster connector (c, t.node_metrics)).0
                    t.contexts,
              ),
          ap (λ (u : Table). u.outcomes) now ∙ ground (arith, kept, has, found, same),
          ap (λ (u : Table). u.handler) now ∙ ground (arith, kept, has, found, same),
          ap (λ (u : Table). u.proxy_metrics) now ∙ ground (arith, kept, has, found, same),
        )

    -- The last response gives the answer.
    pub last_response :
        (req : FramePointer)
        → c.request ≡ some req
        → has_all_responses to_both (set_cluster_response f cluster c) ≡ true
        → (handle f cluster connector t).outcomes
          ≡ t.outcomes ++ ((ctx, answer_to req (done_by f cluster c) t) ∷ [])
    unfolding handle_response try_process_protocol_error on_held
    last_response req asks all =
        let k = f.header.stream_id in
        let now : handle f cluster connector t
            ≡ on_held (set_response f cluster connector) (finish_request primary async process) k
                (record t { holders = get_or_create_holder k t.holders }) =
          ground (arith, plain) in
        let (c', fin) = set_last f cluster connector c t.node_metrics pend both all in
        let kept = held-get_or_create k k t.holders in
        let r = set_response f cluster connector (c, t.node_metrics) in
        let t' : Table = record t {
          holders = get_or_create_holder k t.holders;
          node_metrics = r.1;
        } in
        let follows : on_held (set_response f cluster connector)
              (finish_request primary async process) k
              (record t { holders = get_or_create_holder k t.holders })
            ≡ finish_request primary async process k ctx r.0 t' =
          ground (arith, kept, has, found, fin) in
        ap (λ (u : Table). u.outcomes) (now ∙ follows)
        ∙ (ap (λ d. (finish_request primary async process k ctx d t').outcomes) c'
            ∙ finish_answers k ctx (done_by f cluster c) t' req (asks_kept f cluster c req asks))
