-- ===== src/Responses/Aggregation.antt =====
-- clienthandler.go: the failure wins, and a request that is over by its responses has an answer.
use zdm_proxy.Prelude.{
  ℕ, ◌+◌, ◌≡◌, refl, ◌⊎◌, Bool, true, false, ◌&&◌, not, Option, none, some, Result, ok, err, arith,
  ◌∙◌,
}
use zdm_proxy.Protocol.{
  ForwardDecision, to_origin, to_target, to_both, to_none, to_async_only, ClusterType, cluster_none,
  origin, target, RawFrame,
}
use zdm_proxy.RequestInfo.{RequestInfo, get_forward_decision, should_be_tracked_in_metrics}
use zdm_proxy.Requests.Context.{
  RequestContext, NodeMetrics, FramePointer, done, set_timeout, has_all_responses,
}
use zdm_proxy.Requests.Outcome.{Inv, WaitsForClusters, response_of}
use zdm_proxy.Responses.{
  ProxyMetrics, is_response_successful, aggregate_and_track_responses, compute_client_response,
  response_by_decision, both_response_of, origin_response_of, target_response_of, async_response_of,
  ResponseFailure, is_supported, is_prepare,
}

-- All failures of writes that are counted.
abbrev pub failed_writes : ProxyMetrics → ℕ
failed_writes m = m.failed_writes_on_both + m.failed_writes_on_origin + m.failed_writes_on_target

abbrev pub one_if : Bool → ℕ
one_if true = 1
one_if false = 0

-- Who answers, as a table: the origin's failure first, then the target's; of two successes SUPPORTED
-- comes from the target, PREPARED from the origin, and all else from the primary cluster.
pub answering_cluster : Bool → Bool → Bool → Bool → ClusterType → ClusterType
answering_cluster false _ _ _ _ = origin
answering_cluster true false _ _ _ = target
answering_cluster true true true _ _ = target
answering_cluster true true false true _ = origin
answering_cluster true true false false target = target
answering_cluster true true false false _ = origin

-- The client sees a success only if both clusters report one. It gets one of the two responses,
-- named after its cluster, from the cluster that the table names; and exactly one failure of a write
-- is counted if there is one and the request is tracked.
pub failure_wins :
    (primary : ClusterType) (info : RequestInfo) (request from_origin from_target : RawFrame)
    (m : ProxyMetrics)
    → let ((f, cluster), m') =
        aggregate_and_track_responses primary info request from_origin from_target m in
      (is_response_successful f
        ≡ (is_response_successful from_origin && is_response_successful from_target))
      × (((f ≡ from_origin) × (cluster ≡ origin)) ⊎ ((f ≡ from_target) × (cluster ≡ target)))
      × (cluster
          ≡ answering_cluster
              (is_response_successful from_origin)
              (is_response_successful from_target)
              (is_supported from_origin.header.op_code)
              (is_prepare request.header.op_code)
              primary)
      × (failed_writes m'
          ≡ failed_writes m
            + one_if (
                should_be_tracked_in_metrics info
                && not (is_response_successful from_origin && is_response_successful from_target)))
unfolding aggregate_and_track_responses answering_cluster
failure_wins primary info request from_origin from_target m =
    (ground arith, ground arith, ground arith, ground arith)

is_ok {ℓ κ} : {E : Type ℓ} {A : Type κ} → Result E A → Bool
is_ok (ok a) = true
is_ok (err e) = false

value_of {ℓ κ} : {E : Type ℓ} {A : Type κ} (r : Result E A) → is_ok r ≡ true → (a : A) × (r ≡ ok a)
unfolding is_ok
value_of (ok a) h = (a, refl)
value_of (err e) h = cc

error_of {ℓ κ} :
    {E : Type ℓ} {A : Type κ} (r : Result E A) → is_ok r ≡ false → (e : E) × (r ≡ err e)
unfolding is_ok
error_of (ok a) h = cc
error_of (err e) h = (e, refl)

-- computeClientResponse succeeds exactly if the responses that the decision asks for are there.
computed_if_complete :
    (primary async : ClusterType) (request : RawFrame) (c : RequestContext) (m : ProxyMetrics)
    → WaitsForClusters c.request_info
    → is_ok (compute_client_response primary async request c m).0
      ≡ has_all_responses (get_forward_decision c.request_info) c
unfolding is_ok compute_client_response
computed_if_complete primary async request c m w = ground arith

from_both :
    (primary : ClusterType) (info : RequestInfo) (request : RawFrame) (o t : Option RawFrame)
    (m : ProxyMetrics) (f : RawFrame) (cluster : ClusterType)
    → (both_response_of primary info request o t m).0 ≡ ok (f, cluster)
    → ((cluster ≡ origin) × (o ≡ some f)) ⊎ ((cluster ≡ target) × (t ≡ some f))
unfolding both_response_of
from_both primary info request none t m f cluster h = absurd (cc)
from_both primary info request (some o) none m f cluster h = absurd (cc)
from_both primary info request (some o) (some t) m f cluster h =
    ground (arith, (failure_wins primary info request o t m).1)

from_decision :
    (d : ForwardDecision) (primary async : ClusterType) (request : RawFrame) (c : RequestContext)
    (m : ProxyMetrics) (f : RawFrame) (cluster : ClusterType)
    → (response_by_decision d primary async request c m).0 ≡ ok (f, cluster)
    → response_of cluster c ≡ some f
unfolding origin_response_of target_response_of async_response_of
from_decision to_origin primary async request c m f cluster h = ground arith
from_decision to_target primary async request c m f cluster h = ground arith
from_decision to_both primary async request c m f cluster h = ground (
  arith,
  from_both primary c.request_info request c.origin_response c.target_response m f cluster h,
)
from_decision to_none primary async request c m f cluster h = absurd (cc)
from_decision to_async_only primary origin request c m f cluster h = ground arith
from_decision to_async_only primary target request c m f cluster h = ground arith
from_decision to_async_only primary cluster_none request c m f cluster h = absurd (cc)

-- A request for the clusters that is done and keeps the invariant of contexts has an answer:
-- computeClientResponse returns a response, and it is the one that the context holds from the
-- cluster it is attributed to.
pub done_is_answered :
    (primary async : ClusterType) (request : RawFrame) (c : RequestContext) (m : ProxyMetrics)
    → WaitsForClusters c.request_info
    → Inv c
    → c.state ≡ done
    → (r : RawFrame × ClusterType) × ((compute_client_response primary async request c m).0 ≡ ok r)
      × (response_of r.1 c ≡ some r.0)
done_is_answered primary async request c m w v finished =
    let computed = (compute_client_response primary async request c m).0 in
    let (r, e) =
      value_of computed (computed_if_complete primary async request c m w ∙ v.complete finished) in
    (
      r,
      e,
      from_decision (get_forward_decision c.request_info) primary async request c m r.0 r.1
          (unfold compute_client_response in e),
    )

-- A request for the clusters that keeps the invariant of contexts and that SetTimeout times out
-- has no answer: computeClientResponse fails.
pub timed_out_is_not_answered :
    (primary async : ClusterType) (request : RawFrame) (req : FramePointer) (c : RequestContext)
    (nm : NodeMetrics) (m : ProxyMetrics)
    → WaitsForClusters c.request_info
    → Inv c
    → (set_timeout req (c, nm)).2 ≡ true
    → (e : ResponseFailure) × ((compute_client_response primary async request
          (set_timeout req (c, nm)).0
          m).0
        ≡ err e)
timed_out_is_not_answered primary async request req c nm m w v late = error_of _ (
    computed_if_complete primary async request (set_timeout req (c, nm)).0 m
      (unfold set_timeout in ground arith)
    ∙ unfold set_timeout in ground (arith, v.waiting))
