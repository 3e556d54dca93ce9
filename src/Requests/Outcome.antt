-- ===== src/Requests/Outcome.antt =====
-- requestcontext.go: a request has exactly one outcome, however its responses, its timeout and its
-- cancellation are ordered.
use zdm_proxy.Prelude.{
  ℕ, ◌+◌, ◌≡◌, ◌≢◌, ◌⊎◌, Bool, true, false, Option, none, some, List, [], ◌∷◌, arith,
}
use zdm_proxy.Protocol.{
  ForwardDecision, to_none, to_async_only, ClusterType, cluster_none, origin, target,
  ClusterConnectorType, RawFrame,
}
use zdm_proxy.RequestInfo.{RequestInfo, get_forward_decision}
use zdm_proxy.Requests.Context.{
  RequestContext, NodeMetrics, FramePointer, RequestState, pending, done, has_all_responses,
  set_timeout, cancel, set_response, new_request_context,
}

-- What can happen to a request that waits for its clusters.
pub data Event : Type 0 where
  times_out : FramePointer → Event
  cancels : Event
  responds : RawFrame → ClusterType → ClusterConnectorType → Event

-- The method's state and result: `true` hands the request to finishRequest or cancelRequest.
unfoldable pub on_event : Event → RequestContext × NodeMetrics → RequestContext × NodeMetrics × Bool
on_event (times_out req) (c, m) = set_timeout req (c, m)
on_event cancels (c, m) = let (c', finished) = cancel c in (c', m, finished)
on_event (responds f cluster connector) (c, m) = set_response f cluster connector (c, m)

abbrev pub one_if_finished : Bool → ℕ
one_if_finished true = 1
one_if_finished false = 0

-- The state after the events, and how often a method returned `true`.
unfoldable pub run : List Event → RequestContext × NodeMetrics → RequestContext × NodeMetrics × ℕ
run [] (c, m) = (c, m, 0)
run (e ∷ es) (c, m) =
    let (c', m', finished) = on_event e (c, m) in
    let (c'', m'', n) = run es (c', m') in (c'', m'', one_if_finished finished + n)

abbrev pub outcomes_left : RequestState → ℕ
outcomes_left pending = 1
outcomes_left _ = 0

-- One event: an outcome is reported exactly when the context leaves the pending state.
on_event-outcome :
    (e : Event) (c : RequestContext) (m : NodeMetrics)
    → let (c', m', finished) = on_event e (c, m) in
      one_if_finished finished + outcomes_left c'.state ≡ outcomes_left c.state
unfolding on_event set_timeout cancel set_response
on_event-outcome (times_out req) c m = ground arith
on_event-outcome cancels c m = ground arith
on_event-outcome (responds f cluster connector) c m = ground arith

-- However the events are ordered and repeated, the methods report exactly as many outcomes as the
-- context has left: one for a new request that leaves the pending state, none after that.
pub run-outcomes :
    (es : List Event) (c : RequestContext) (m : NodeMetrics)
    → let (c', m', n) = run es (c, m) in n + outcomes_left c'.state ≡ outcomes_left c.state
unfolding run
run-outcomes [] c m = omega arith
run-outcomes (e ∷ es) c m =
    let (c', m', finished) = on_event e (c, m) in
    omega (arith, on_event-outcome e c m, run-outcomes es c' m')

-- The responses that a decision asks for.
abbrev pub Answered : ForwardDecision → RequestContext → Type 0
Answered d c = has_all_responses d c ≡ true

-- A done request has all its responses, and a pending one still waits for one.
pub record Inv (c : RequestContext) : Type 0 where
  pub complete : c.state ≡ done → Answered (get_forward_decision c.request_info) c
  pub waiting :
      c.state ≡ pending → has_all_responses (get_forward_decision c.request_info) c ≡ false

-- A request that waits for the clusters: not an intercepted one, nor one for the async connector.
abbrev pub WaitsForClusters : RequestInfo → Type 0
WaitsForClusters info =
    (get_forward_decision info ≢ to_none) × (get_forward_decision info ≢ to_async_only)

pub new-Inv :
    (req : FramePointer) (info : RequestInfo)
    → WaitsForClusters info
    → Inv (new_request_context req info)
unfolding new_request_context
new-Inv req info w = record { complete = λ h. cc; waiting = λ h. ground arith }

pub on_event-Inv :
    (e : Event) (c : RequestContext) (m : NodeMetrics) → Inv c → Inv (on_event e (c, m)).0
unfolding on_event set_timeout cancel set_response
on_event-Inv (times_out req) c m v = record {
  complete = λ h. ground (arith, v.complete);
  waiting = λ h. ground (arith, v.waiting);
}
on_event-Inv cancels c m v = record {
  complete = λ h. ground (arith, v.complete);
  waiting = λ h. ground (arith, v.waiting);
}
on_event-Inv (responds f cluster connector) c m v = record {
  complete = λ h. ground (arith, v.complete);
  waiting = λ h. ground (arith, v.waiting);
}

pub run-Inv :
    (es : List Event) (c : RequestContext) (m : NodeMetrics) → Inv c → Inv (run es (c, m)).0
unfolding run
run-Inv [] c m v = v
run-Inv (e ∷ es) c m v =
    let (c', m', finished) = on_event e (c, m) in run-Inv es c' m' (on_event-Inv e c m v)

-- The cluster sent the frame in one of the events.
pub data Received (f : RawFrame) (from : ClusterType) : List Event → Type 0 where
  first :
      {es : List Event} (connector : ClusterConnectorType)
      → Received f from (responds f from connector ∷ es)
  later : {es : List Event} (e : Event) → Received f from es → Received f from (e ∷ es)

-- What a context holds for a cluster was there before the event, or is the event's response.
abbrev pub response_of : ClusterType → RequestContext → Option RawFrame
response_of origin c = c.origin_response
response_of target c = c.target_response
response_of cluster_none c = none

abbrev pub IsResponse : Event → RawFrame → ClusterType → Type 0
IsResponse (responds g other connector) f from = (g ≡ f) × (other ≡ from)
IsResponse _ f from = ⊥

pub on_event-response :
    (e : Event) (c : RequestContext) (m : NodeMetrics) (f : RawFrame) (from : ClusterType)
    → response_of from (on_event e (c, m)).0 ≡ some f
    → (response_of from c ≡ some f) ⊎ IsResponse e f from
unfolding on_event set_timeout cancel set_response
on_event-response (times_out req) c m f from h = ground arith
on_event-response cancels c m f from h = ground arith
on_event-response (responds g other connector) c m f from h = ground arith
