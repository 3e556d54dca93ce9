-- ===== src/Responses.antt =====
-- proxy/pkg/zdmproxy/clienthandler.go: the response that a client gets from the clusters' responses.
pub mod Aggregation
mod Tests
use zdm_proxy.Prelude.{
  ℕ, ◌+◌, Bool, true, false, ◌&&◌, not, Option, none, some, if◌then◌else◌, Result, ok, err,
}
use zdm_proxy.Protocol.{
  ForwardDecision, to_origin, to_target, to_both, to_none, to_async_only, ClusterType, cluster_none,
  origin, target, cluster_beq, OpCode, error, supported, prepare, RawFrame,
}
use zdm_proxy.RequestInfo.{RequestInfo, get_forward_decision, should_be_tracked_in_metrics}
use zdm_proxy.Requests.Context.{RequestContext}

-- The failure counters of metrics.ProxyMetrics.
pub record ProxyMetrics : Type 0 where
  pub failed_reads_origin : ℕ
  pub failed_reads_target : ℕ
  pub failed_writes_on_both : ℕ
  pub failed_writes_on_origin : ℕ
  pub failed_writes_on_target : ℕ

abbrev pub is_error : OpCode → Bool
is_error error = true
is_error _ = false

unfoldable pub is_supported : OpCode → Bool
is_supported supported = true
is_supported _ = false

unfoldable pub is_prepare : OpCode → Bool
is_prepare prepare = true
is_prepare _ = false

unfoldable pub is_response_successful : RawFrame → Bool
is_response_successful response = not (is_error response.header.op_code)

-- The parts of aggregateAndTrackResponses: both succeed, and at least one fails.
unfoldable pub both_successful :
    ClusterType → RawFrame → RawFrame → RawFrame → RawFrame × ClusterType
both_successful primary request from_origin from_target =
    if is_supported from_origin.header.op_code
    then (from_target, target)
    else if is_prepare request.header.op_code
    then (from_origin, origin)
    else if cluster_beq primary target
    then (from_target, target)
    else (from_origin, origin)

unfoldable pub aggregate_and_track_responses :
    ClusterType
    → RequestInfo
    → RawFrame
    → RawFrame
    → RawFrame
    → ProxyMetrics
    → (RawFrame × ClusterType) × ProxyMetrics
unfolding both_successful
aggregate_and_track_responses primary info request from_origin from_target m =
    let origin_ok = is_response_successful from_origin in
    let target_ok = is_response_successful from_target in
    let tracked = should_be_tracked_in_metrics info in
    if origin_ok && target_ok
    then (both_successful primary request from_origin from_target, m)
    else if not origin_ok && not target_ok
    then (
      (from_origin, origin),
      if tracked then record m { failed_writes_on_both = m.failed_writes_on_both + 1 } else m,
    )
    else if not origin_ok
    then (
      (from_origin, origin),
      if tracked then record m { failed_writes_on_origin = m.failed_writes_on_origin + 1 } else m,
    )
    else (
      (from_target, target),
      if tracked then record m { failed_writes_on_target = m.failed_writes_on_target + 1 } else m,
    )

pub data ResponseFailure : Type 0 where
  no_response : ClusterType → ResponseFailure
  unknown_cluster not_forwarded : ResponseFailure

-- A read's response is counted if it is a failure.
abbrev pub count_read_origin : Bool → RawFrame → ProxyMetrics → ProxyMetrics
count_read_origin tracked response m =
    if tracked && not (is_response_successful response)
    then record m { failed_reads_origin = m.failed_reads_origin + 1 }
    else m

abbrev pub count_read_target : Bool → RawFrame → ProxyMetrics → ProxyMetrics
count_read_target tracked response m =
    if tracked && not (is_response_successful response)
    then record m { failed_reads_target = m.failed_reads_target + 1 }
    else m

abbrev pub Computed : Type 0
Computed = Result ResponseFailure (RawFrame × ClusterType) × ProxyMetrics

-- The cases of computeClientResponse, one for each forward decision.
unfoldable pub origin_response_of : Bool → Option RawFrame → ProxyMetrics → Computed
origin_response_of tracked none m = (err (no_response origin), m)
origin_response_of tracked (some f) m = (ok (f, origin), count_read_origin tracked f m)

unfoldable pub target_response_of : Bool → Option RawFrame → ProxyMetrics → Computed
target_response_of tracked none m = (err (no_response target), m)
target_response_of tracked (some f) m = (ok (f, target), count_read_target tracked f m)

unfoldable pub both_response_of :
    ClusterType
    → RequestInfo
    → RawFrame
    → Option RawFrame
    → Option RawFrame
    → ProxyMetrics
    → Computed
unfolding aggregate_and_track_responses
both_response_of primary info request none t m = (err (no_response origin), m)
both_response_of primary info request (some o) none m = (err (no_response target), m)
both_response_of primary info request (some o) (some t) m =
    let (r, m') = aggregate_and_track_responses primary info request o t m in (ok r, m')

unfoldable pub async_response_of :
    ClusterType → Option RawFrame → Option RawFrame → ProxyMetrics → Computed
async_response_of target o none m = (err (no_response target), m)
async_response_of target o (some f) m = (ok (f, target), m)
async_response_of origin none t m = (err (no_response origin), m)
async_response_of origin (some f) t m = (ok (f, origin), m)
async_response_of cluster_none o t m = (err unknown_cluster, m)

abbrev pub response_by_decision :
    ForwardDecision
    → ClusterType
    → ClusterType
    → RawFrame
    → RequestContext
    → ProxyMetrics
    → Computed
response_by_decision to_origin primary async request c m =
    origin_response_of (should_be_tracked_in_metrics c.request_info) c.origin_response m
response_by_decision to_target primary async request c m =
    target_response_of (should_be_tracked_in_metrics c.request_info) c.target_response m
response_by_decision to_both primary async request c m =
    both_response_of primary c.request_info request c.origin_response c.target_response m
response_by_decision to_async_only primary async request c m =
    async_response_of async c.origin_response c.target_response m
response_by_decision to_none primary async request c m = (err not_forwarded, m)

-- `request` is the frame that the context's request points to.
unfoldable pub compute_client_response :
    ClusterType → ClusterType → RawFrame → RequestContext → ProxyMetrics → Computed
unfolding origin_response_of target_response_of both_response_of async_response_of
compute_client_response primary async request c m =
    response_by_decision (get_forward_decision c.request_info) primary async request c m
