-- ===== src/Lifecycle/Timeouts.antt =====
-- clienthandler.go: what the timer of a request ends, which its clusters have not answered.
use zdm_proxy.Prelude.{
  ℕ, ◌-◌, ◌≡◌, ap, ◌∙◌, true, Option, some, none, [], ◌∷◌, ◌++◌, int_eq, nat_eq, int_beq_iff,
  eqb_iff, lookup, Result, arith,
}
use zdm_proxy.Protocol.{RawFrame, ClusterType}
use zdm_proxy.RequestInfo.{RequestInfo}
use zdm_proxy.Requests.Context.{RequestContext, FramePointer, set_timeout, is_pending}
use zdm_proxy.Requests.Outcome.{WaitsForClusters, Inv}
use zdm_proxy.Responses.Aggregation.{timed_out_is_not_answered}
use zdm_proxy.Handler.{HandlerState, ResponseError}
use zdm_proxy.Lifecycle.{
  Table, failed, held, get_or_create_holder, clear_holder, finish_request, on_held, handle_timeout,
  send_outcome, free_holder, leave,
}
use zdm_proxy.Lifecycle.Holders.{held-get_or_create, held-clear}

module _ (primary async : ClusterType)
    (process : RawFrame
      → ClusterType
      → RequestInfo
      → Option RawFrame
      → HandlerState
      → HandlerState × Result ResponseError RawFrame) where
  -- When a request to the clusters is what its stream id's holder has, is pending and keeps the invariant of
  -- contexts (a pending one lacks a response, a done one has all), its timeout ends it with an error:
  -- nothing is sent to its client, and the state that responses change stays. The stream id is free
  -- again, and the wait group has one request less.
  pub timed_out_ended :
      (t : Table) (ctx : ℕ) (req : FramePointer) (c : RequestContext)
      → WaitsForClusters c.request_info
      → Inv c
      → held req.frame.header.stream_id t.holders ≡ some ctx
      → lookup ctx t.contexts ≡ some c
      → is_pending c.state ≡ true
      → c.request ≡ some req
      → let t' = handle_timeout primary async process req t in
        (t'.outcomes ≡ t.outcomes ++ ((ctx, failed) ∷ []))
        × (t'.handler ≡ t.handler)
        × (held req.frame.header.stream_id t'.holders ≡ none)
        × (t'.requests_in_flight ≡ t.requests_in_flight - 1)
  unfolding handle_timeout on_held finish_request set_timeout
  timed_out_ended t ctx req c w v has found pend asks =
      let k = req.frame.header.stream_id in
      let late : (set_timeout req (c, t.node_metrics)).2 ≡ true =
        ground (arith, pend, asks, eqb_iff req.address req.address) in
      let (e, fails) =
        timed_out_is_not_answered primary async req.frame req c t.node_metrics t.proxy_metrics w v
          late in
      let has' : held k (get_or_create_holder k t.holders) ≡ some ctx =
        held-get_or_create k k t.holders ∙ has in
      let freed : held k (clear_holder k ctx (get_or_create_holder k t.holders)) ≡ none = ground (
        arith,
        has',
        held-clear k k ctx (get_or_create_holder k t.holders),
        int_beq_iff k k,
        eqb_iff ctx ctx,
      ) in
      let c' = (set_timeout req (c, t.node_metrics)).0 in
      let m = (set_timeout req (c, t.node_metrics)).1 in
      let now : handle_timeout primary async process req t
          ≡ leave (
              send_outcome primary async process ctx req c' (
                free_holder k ctx
                  (record t { holders = get_or_create_holder k t.holders; node_metrics = m }))) =
        ground (arith, has', found, late, asks, pend) in
      (
        ap (λ u. u.outcomes) now ∙ ground (arith, fails),
        ap (λ u. u.handler) now ∙ ground (arith, fails),
        ap (λ u. held k u.holders) now ∙ freed,
        ap (λ u. u.requests_in_flight) now,
      )
