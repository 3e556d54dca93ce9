-- ===== src/Requests/Answers.antt =====
-- requestcontext.go: a request that is finished by a response holds the clusters' own responses.
use zdm_proxy.Prelude.{
  ◌≡◌, refl, ap, sym, ◌∙◌, ◌⊎◌, inl, inr, true, some, List, [], ◌∷◌, arith, Option-cases, subst,
}
use zdm_proxy.Protocol.{to_both, ClusterType, cluster_none, origin, target, RawFrame}
use zdm_proxy.RequestInfo.{RequestInfo, get_forward_decision}
use zdm_proxy.Requests.Context.{
  RequestContext, NodeMetrics, FramePointer, done, has_all_responses, set_timeout, cancel,
  set_response, new_request_context,
}
use zdm_proxy.Requests.Outcome.{
  Event, times_out, cancels, responds, on_event, run, Inv, new-Inv, run-Inv, Received, first, later,
  response_of, IsResponse, on_event-response, WaitsForClusters,
}

is_first :
    (e : Event) (f : RawFrame) (from : ClusterType) (es : List Event)
    → IsResponse e f from
    → Received f from (e ∷ es)
is_first (times_out req) f from es h = absurd h
is_first cancels f from es h = absurd h
is_first (responds g other connector) f from es h =
    subst (λ o. Received f from (responds g o connector ∷ es)) (sym h.1)
      (subst (λ r. Received f from (responds r from connector ∷ es)) (sym h.0) (first connector))

run-response :
    (es : List Event) (c : RequestContext) (m : NodeMetrics) (f : RawFrame) (from : ClusterType)
    → response_of from (run es (c, m)).0 ≡ some f
    → (response_of from c ≡ some f) ⊎ Received f from es
unfolding run
run-response [] c m f from h = inl h
run-response (e ∷ es) c m f from h =
    let (c', m', finished) = on_event e (c, m) in
    elim (run-response es c' m' f from h) [
      | inr r ↦ inr (later e r)
      | inl k ↦ elim (on_event-response e c m f from k) [
        | inl old ↦ inl old
        | inr now ↦ inr (is_first e f from es now)
      ]
    ]

pub on_event-info :
    (e : Event) (c : RequestContext) (m : NodeMetrics)
    → (on_event e (c, m)).0.request_info ≡ c.request_info
unfolding on_event set_timeout cancel set_response
on_event-info (times_out req) c m = ground arith
on_event-info cancels c m = ground arith
on_event-info (responds f cluster connector) c m = ground arith

run-info :
    (es : List Event) (c : RequestContext) (m : NodeMetrics)
    → (run es (c, m)).0.request_info ≡ c.request_info
unfolding run
run-info [] c m = refl
run-info (e ∷ es) c m =
    let (c', m', finished) = on_event e (c, m) in run-info es c' m' ∙ on_event-info e c m

-- A response that a new request holds was received from that cluster.
new-response :
    (req : FramePointer) (info : RequestInfo) (es : List Event) (m : NodeMetrics) (f : RawFrame)
    (from : ClusterType)
    → response_of from (run es (new_request_context req info, m)).0 ≡ some f
    → Received f from es
unfolding new_request_context
new-response req info es m f origin h = elim (run-response es _ m f origin h) [
  | inl k ↦ absurd (ground arith)
  | inr r ↦ r
]
new-response req info es m f target h = elim (run-response es _ m f target h) [
  | inl k ↦ absurd (ground arith)
  | inr r ↦ r
]
new-response req info es m f cluster_none h = absurd (ground arith)

both_present :
    (c : RequestContext)
    → get_forward_decision c.request_info ≡ to_both
    → has_all_responses (get_forward_decision c.request_info) c ≡ true
    → (f : RawFrame) × (g : RawFrame) × (c.origin_response ≡ some f) × (c.target_response ≡ some g)
both_present c both all = elim (Option-cases c.origin_response) [
  | inl e ↦ absurd (ground arith)
  | inr (f, e) ↦ elim (Option-cases c.target_response) [
    | inl k ↦ absurd (ground arith)
    | inr (g, k) ↦ (f, g, e, k)
  ]
]

pub both-WaitsForClusters :
    (info : RequestInfo) → get_forward_decision info ≡ to_both → WaitsForClusters info
both-WaitsForClusters info both = (λ e. cc, λ e. cc)

-- A new request for both clusters that ends as done holds one response from each: each of them was
-- received from that cluster in one of the events.
pub done_has_both :
    (req : FramePointer) (info : RequestInfo) (es : List Event) (m : NodeMetrics)
    → get_forward_decision info ≡ to_both
    → (run es (new_request_context req info, m)).0.state ≡ done
    → (f : RawFrame) × (g : RawFrame) × ((run es
          (new_request_context req info, m)).0.origin_response
        ≡ some f)
      × ((run es (new_request_context req info, m)).0.target_response ≡ some g)
      × Received f origin es
      × Received g target es
unfolding new_request_context
done_has_both req info es m both finished =
    let c = new_request_context req info in
    let c' = (run es (c, m)).0 in
    let v : Inv c' = run-Inv es c m (new-Inv req info (both-WaitsForClusters info both)) in
    let (f, g, e, k) =
      both_present c' (ap get_forward_decision (run-info es c m) ∙ both) (v.complete finished) in
    (f, g, e, k, new-response req info es m f origin e, new-response req info es m g target k)
