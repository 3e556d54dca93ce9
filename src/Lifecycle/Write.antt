-- ===== src/Lifecycle/Write.antt =====
-- clienthandler.go: a request for both clusters, from its storing to the answer of its client.
use zdm_proxy.Prelude.{
  ℕ, ◌≡◌, refl, sym, ap, ◌∙◌, true, false, Option, some, [], ◌∷◌, ◌++◌, int_eq, nat_eq, lookup,
  Result, ok, err, arith,
}
use zdm_proxy.Protocol.{to_both, ClusterType, origin, target, RawFrame, ClusterConnectorType}
use zdm_proxy.RequestInfo.{RequestInfo, get_forward_decision}
use zdm_proxy.Requests.Context.{
  RequestContext, FramePointer, is_pending, has_all_responses, set_cluster_response,
  new_request_context,
}
use zdm_proxy.Responses.{compute_client_response, aggregate_and_track_responses, both_response_of}
use zdm_proxy.Connector.Errors.{ErrorMessage, decode_error}
use zdm_proxy.Handler.{HandlerState, ResponseError}
use zdm_proxy.Lifecycle.{Outcome, answered, failed, Table, held, is_protocol_error, handle_response}
use zdm_proxy.Lifecycle.Storing.{waiting}
use zdm_proxy.Lifecycle.Arrival.{done_by, handle, answer_to, first_response, last_response}

module _ (primary async : ClusterType)
    (process : RawFrame
      → ClusterType
      → RequestInfo
      → Option RawFrame
      → HandlerState
      → HandlerState × Result ResponseError RawFrame)
    (decode_body : RawFrame → Option (Option ErrorMessage)) where
  -- What the client is to get for two responses: what `process` makes of the aggregated one.
  abbrev pub expected : FramePointer → RequestInfo → RawFrame → RawFrame → Table → Outcome
  expected req info o g t =
      let (f, cluster) =
        (aggregate_and_track_responses primary info req.frame o g t.proxy_metrics).0 in
      elim (process f cluster info (some g) t.handler).1 [ err e ↦ failed | ok r ↦ answered r ]

  expected_lem :
      (req : FramePointer) (info : RequestInfo) (o g : RawFrame) (t : Table) (c : RequestContext)
      → get_forward_decision info ≡ to_both
      → c.request_info ≡ info
      → c.origin_response ≡ some o
      → c.target_response ≡ some g
      → answer_to primary async process decode_body req c t ≡ expected req info o g t
  unfolding compute_client_response both_response_of
  expected_lem req info o g t c both same from_origin from_target =
      ground (arith, both, same, from_origin, from_target)

  module _ (t : Table) (ctx : ℕ) (req : FramePointer) (c : RequestContext)
      (has : held req.frame.header.stream_id t.holders ≡ some ctx)
      (found : lookup ctx t.contexts ≡ some c) (pend : is_pending c.state ≡ true)
      (both : get_forward_decision c.request_info ≡ to_both) (asks : c.request ≡ some req) where
    two_responses :
        (f : RawFrame) (cluster : ClusterType) (connector : ClusterConnectorType) (f' : RawFrame)
        (cluster' : ClusterType) (connector' : ClusterConnectorType)
        → is_protocol_error (decode_error decode_body f) ≡ false
        → is_protocol_error (decode_error decode_body f') ≡ false
        → f.header.stream_id ≡ req.frame.header.stream_id
        → f'.header.stream_id ≡ req.frame.header.stream_id
        → has_all_responses to_both (set_cluster_response f cluster c) ≡ false
        → has_all_responses to_both
            (set_cluster_response f' cluster' (set_cluster_response f cluster c))
          ≡ true
        → (set_cluster_response f cluster c).request_info ≡ c.request_info
        → is_pending (set_cluster_response f cluster c).state ≡ true
        → (set_cluster_response f cluster c).request ≡ some req
        → (handle primary async process decode_body f' cluster' connector'
            (handle primary async process decode_body f cluster connector t)).outcomes
          ≡ t.outcomes
            ++ ((
              ctx,
              answer_to primary async process decode_body req
                  (done_by f' cluster' (set_cluster_response f cluster c))
                  t,
            )
                ∷ [])
    two_responses f cluster connector f' cluster' connector' plain plain' same same' waits all info
          pend' asks' =
        let c' = set_cluster_response f cluster c in
        let (has', found', answers, handler, metrics) =
          first_response primary async process decode_body f cluster connector t ctx c plain
            (ap (λ k. held k t.holders) same ∙ has) found pend both waits in
        let t' = handle primary async process decode_body f cluster connector t in
        let key : f'.header.stream_id ≡ f.header.stream_id = same' ∙ sym same in
        let out =
          last_response primary async process decode_body f' cluster' connector' t' ctx c' plain'
            (ap (λ k. held k t'.holders) key ∙ has') found' pend'
            (ap get_forward_decision info ∙ both) req asks' all in
        out ∙ ground (arith, answers, handler, metrics)

  -- A write that waits for both responses, which come in either order and are no protocol errors, is
  -- answered by the second of them.
  pub waiting_answered :
      (t : Table) (ctx : ℕ) (req : FramePointer) (info : RequestInfo) (o g : RawFrame)
      (connector connector' : ClusterConnectorType)
      → held req.frame.header.stream_id t.holders ≡ some ctx
      → lookup ctx t.contexts ≡ some (waiting req info)
      → get_forward_decision info ≡ to_both
      → is_protocol_error (decode_error decode_body o) ≡ false
      → is_protocol_error (decode_error decode_body g) ≡ false
      → o.header.stream_id ≡ req.frame.header.stream_id
      → g.header.stream_id ≡ req.frame.header.stream_id
      → ((handle_response primary async process decode_body g target connector'
            (handle_response primary async process decode_body o origin connector t)).outcomes
          ≡ t.outcomes ++ ((ctx, expected req info o g t) ∷ []))
        × ((handle_response primary async process decode_body o origin connector
              (handle_response primary async process decode_body g target connector' t)).outcomes
            ≡ t.outcomes ++ ((ctx, expected req info o g t) ∷ []))
  unfolding new_request_context
  waiting_answered t ctx req info o g connector connector' has found both plain plain' same same' =
      let c = waiting req info in
      let first =
        two_responses t ctx req c has found refl both refl o origin connector g target connector'
          plain plain' same same' refl refl refl refl refl in
      let second =
        two_responses t ctx req c has found refl both refl g target connector' o origin connector
          plain' plain same' same refl refl refl refl refl in
      let of_origin =
        expected_lem req info o g t (done_by g target (set_cluster_response o origin c)) both refl
          refl refl in
      let of_target =
        expected_lem req info o g t (done_by o origin (set_cluster_response g target c)) both refl
          refl refl in
      (first ∙ ground (arith, of_origin), second ∙ ground (arith, of_target))
