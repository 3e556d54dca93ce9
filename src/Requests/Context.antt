-- ===== src/Requests/Context.antt =====
-- requestcontext.go: the contexts of a request to the clusters and of a request to the async
-- connector. Each method runs under the context's lock, so a method is one step.
use zdm_proxy.Prelude.{
  ℕ, ◌+◌, Bool, true, false, ◌&&◌, not, Option, none, some, is_some, ℤ, eqb, if◌then◌else◌,
}
use zdm_proxy.Protocol.{
  ForwardDecision, to_origin, to_target, to_both, to_none, to_async_only, ClusterType, cluster_none,
  origin, target, ClusterConnectorType, origin_connector, target_connector, RawFrame, decision_beq,
}
use zdm_proxy.RequestInfo.{RequestInfo, get_forward_decision, should_be_tracked_in_metrics}
use zdm_proxy.StreamIds.{Gauge}

pub data RequestState : Type 0 where
  pending timed_out done canceled : RequestState

abbrev pub is_pending : RequestState → Bool
is_pending pending = true
is_pending _ = false

abbrev pub is_done : RequestState → Bool
is_done done = true
is_done _ = false

-- A *frame.RawFrame that is compared by address.
pub record FramePointer : Type 0 where
  pub address : ℕ
  pub frame : RawFrame

-- The counters of metrics.NodeMetricsInstance that a context writes to; a histogram is the number of
-- its Track calls.
pub record NodeMetricsInstance : Type 0 where
  pub client_timeouts : ℕ
  pub read_durations : ℕ
  pub write_durations : ℕ
  pub in_flight_requests : Gauge

pub record NodeMetrics : Type 0 where
  pub origin_metrics : NodeMetricsInstance
  pub target_metrics : NodeMetricsInstance
  pub async_metrics : NodeMetricsInstance

abbrev pub count_timeout : Bool → NodeMetricsInstance → NodeMetricsInstance
count_timeout b m = if b then record m { client_timeouts = m.client_timeouts + 1 } else m

-- isWriteStatement chooses the histogram.
abbrev pub track_duration : Bool → NodeMetricsInstance → NodeMetricsInstance
track_duration write m =
    if write
    then record m { write_durations = m.write_durations + 1 }
    else record m { read_durations = m.read_durations + 1 }

abbrev pub leave_flight : NodeMetricsInstance → NodeMetricsInstance
leave_flight m = record m {
  in_flight_requests = record (m.in_flight_requests) {
    subtracted = m.in_flight_requests.subtracted + 1;
  };
}

abbrev pub is_write_statement : RequestInfo → Bool
is_write_statement info = decision_beq (get_forward_decision info) to_both

-- requestContextImpl; `timer` is `none` before SetTimer, and then whether the timer runs.
pub record RequestContext : Type 0 where
  pub request : Option FramePointer
  pub request_info : RequestInfo
  pub origin_response : Option RawFrame
  pub target_response : Option RawFrame
  pub state : RequestState
  pub timer : Option Bool

unfoldable pub new_request_context : FramePointer → RequestInfo → RequestContext
new_request_context req info = record {
  request = some req;
  request_info = info;
  origin_response = none;
  target_response = none;
  state = pending;
  timer = none;
}

abbrev pub stop_timer : Option Bool → Option Bool
stop_timer none = none
stop_timer (some running) = some false

-- recv.request == req
abbrev pub same_request : Option FramePointer → FramePointer → Bool
same_request none req = false
same_request (some p) req = eqb p.address req.address

abbrev pub sent_origin : ForwardDecision → Bool
sent_origin to_both = true
sent_origin to_origin = true
sent_origin _ = false

abbrev pub sent_target : ForwardDecision → Bool
sent_target to_both = true
sent_target to_target = true
sent_target _ = false

-- A timeout counts against each cluster that was asked and has not answered.
unfoldable pub track_timeout : RequestContext → NodeMetrics → NodeMetrics
track_timeout c m =
    if should_be_tracked_in_metrics c.request_info
    then record m {
      origin_metrics =
          count_timeout
            (sent_origin (get_forward_decision c.request_info) && not (is_some c.origin_response))
            m.origin_metrics;
      target_metrics =
          count_timeout
            (sent_target (get_forward_decision c.request_info) && not (is_some c.target_response))
            m.target_metrics;
    }
    else m

unfoldable pub set_timeout :
    FramePointer → RequestContext × NodeMetrics → RequestContext × NodeMetrics × Bool
set_timeout req (c, m) =
    if is_pending c.state && same_request c.request req
    then (record c { state = timed_out }, track_timeout c m, true)
    else (c, m, false)

unfoldable pub cancel : RequestContext → RequestContext × Bool
cancel c =
    if is_pending c.state
    then (record c { state = canceled; timer = stop_timer c.timer }, true)
    else (c, false)

-- `recv.originResponse = f` or `recv.targetResponse = f`; another cluster is logged.
abbrev pub set_cluster_response : RawFrame → ClusterType → RequestContext → RequestContext
set_cluster_response f origin c = record c { origin_response = some f }
set_cluster_response f target c = record c { target_response = some f }
set_cluster_response f cluster_none c = c

abbrev pub has_all_responses : ForwardDecision → RequestContext → Bool
has_all_responses to_target c = is_some c.target_response
has_all_responses to_origin c = is_some c.origin_response
has_all_responses to_both c = is_some c.origin_response && is_some c.target_response
has_all_responses to_none c = true
has_all_responses to_async_only c = true

unfoldable pub update_internal_state :
    RawFrame → ClusterType → RequestContext → RequestContext × RequestState × Bool
update_internal_state f cluster c =
    if is_pending c.state
    then (let c' = set_cluster_response f cluster c in
        if has_all_responses (get_forward_decision c'.request_info) c'
        then (record c' { state = done }, done, true)
        else (c', c'.state, true))
    else (c, c.state, false)

abbrev pub track_response : Bool → ClusterConnectorType → NodeMetrics → NodeMetrics
track_response write origin_connector m = record m {
  origin_metrics = track_duration write m.origin_metrics;
}
track_response write target_connector m = record m {
  target_metrics = track_duration write m.target_metrics;
}
track_response write _ m = m

unfoldable pub set_response :
    RawFrame
    → ClusterType
    → ClusterConnectorType
    → RequestContext × NodeMetrics
    → RequestContext × NodeMetrics × Bool
unfolding update_internal_state
set_response f cluster connector (c, m) =
    let (c', state, updated) = update_internal_state f cluster c in
    if updated
    then (let finished = is_done state in
        (
          if finished then record c' { timer = stop_timer c'.timer } else c',
          if should_be_tracked_in_metrics c'.request_info
              then track_response (is_write_statement c'.request_info) connector m
              else m,
          finished,
        ))
    else (c', m, false)

-- asyncRequestContextImpl
pub record AsyncRequestContext : Type 0 where
  pub state : RequestState
  pub timer : Option Bool
  pub request_stream_id : ℤ
  pub expected_response : Bool
  pub request_info : RequestInfo

unfoldable pub new_async_request_context : RequestInfo → ℤ → Bool → AsyncRequestContext
new_async_request_context info stream_id expected = record {
  state = pending;
  timer = none;
  request_stream_id = stream_id;
  expected_response = expected;
  request_info = info;
}

abbrev pub on_async : (NodeMetricsInstance → NodeMetricsInstance) → NodeMetrics → NodeMetrics
on_async f m = record m { async_metrics = f m.async_metrics }

unfoldable pub async_set_timeout :
    AsyncRequestContext × NodeMetrics → AsyncRequestContext × NodeMetrics × Bool
async_set_timeout (c, m) =
    if is_pending c.state
    then (
      record c { state = timed_out },
      if should_be_tracked_in_metrics c.request_info
          then on_async (λ a. count_timeout true (leave_flight a)) m
          else m,
      true,
    )
    else (c, m, false)

unfoldable pub async_cancel :
    AsyncRequestContext × NodeMetrics → AsyncRequestContext × NodeMetrics × Bool
async_cancel (c, m) =
    if is_pending c.state
    then (
      record c { state = canceled; timer = stop_timer c.timer },
      if should_be_tracked_in_metrics c.request_info then on_async leave_flight m else m,
      true,
    )
    else (c, m, false)

unfoldable pub async_set_response :
    AsyncRequestContext × NodeMetrics → AsyncRequestContext × NodeMetrics × Bool
async_set_response (c, m) =
    if is_pending c.state
    then (
      record c { state = done; timer = stop_timer c.timer },
      if should_be_tracked_in_metrics c.request_info
          then on_async (λ a. leave_flight (track_duration (is_write_statement c.request_info) a)) m
          else m,
      true,
    )
    else (c, m, false)
