-- ===== src/Lifecycle.antt =====
-- proxy/pkg/zdmproxy/clienthandler.go: a request between its storing in the handler's map of context
-- holders and its outcome. handle_response and handle_timeout are the way of one goroutine through its
-- critical sections with nobody in between; Interleaving takes the sections one at a time. Storing a
-- request is one step in both. The error metrics of clusters are left out.
pub mod Holders
pub mod Storing
pub mod Interleaving
pub mod Phases
pub mod Ends
pub mod Timeouts
pub mod Arrival
pub mod Write
mod Tests
use zdm_proxy.Prelude.{
  ℕ, suc, ◌+◌, ◌-◌, Bool, true, false, ◌&&◌, not, Option, none, some, is_some, List, [], ◌∷◌, ◌++◌,
  ℤ, int_eq, nat_eq, eqb, lookup, insert, if◌then◌else◌, Result, ok, err,
}
use zdm_proxy.Protocol.{
  ForwardDecision, to_origin, to_target, to_both, to_none, to_async_only, ClusterType, RawFrame,
  Header, ClusterConnectorType, decision_beq,
}
use zdm_proxy.RequestInfo.{RequestInfo, get_forward_decision, should_be_tracked_in_metrics}
use zdm_proxy.StreamIds.{Gauge}
use zdm_proxy.Requests.Context.{
  RequestContext, NodeMetrics, FramePointer, new_request_context, set_timeout, set_response, cancel,
}
use zdm_proxy.Responses.{ProxyMetrics, ResponseFailure, Computed, compute_client_response}
use zdm_proxy.Connector.Errors.{ErrorMessage, ErrorCode, protocol_error_code, decode_error}
use zdm_proxy.Handler.{HandlerState, ResponseError}

-- The gauges and histograms of metrics.ProxyMetrics, a histogram being the number of its Track calls.
pub record InFlightMetrics : Type 0 where
  pub writes : Gauge
  pub reads_origin : Gauge
  pub reads_target : Gauge
  pub writes_durations : ℕ
  pub reads_origin_durations : ℕ
  pub reads_target_durations : ℕ

-- What becomes of a request: a frame that goes to its client or its custom response channel, an error or a
-- cancellation. With these two a client gets nothing, and a channel is closed.
pub data Outcome : Type 0 where
  answered : RawFrame → Outcome
  failed closed : Outcome

-- requestContextHolders, whose holders have the address of a context or nothing; the contexts by
-- address; clientHandlerRequestWaitGroup; protocolErrOccurred; and what has become of requests, in order.
pub record Table : Type 0 where
  pub holders : List (ℤ × Option ℕ)
  pub contexts : List (ℕ × RequestContext)
  pub node_metrics : NodeMetrics
  pub proxy_metrics : ProxyMetrics
  pub in_flight_metrics : InFlightMetrics
  pub handler : HandlerState
  pub requests_in_flight : ℕ
  pub protocol_err_occurred : Bool
  pub protocol_errors : List RawFrame
  pub outcomes : List (ℕ × Outcome)

-- requestContextHolder.Get, of a map that may lack the holder.
unfoldable pub held : ℤ → List (ℤ × Option ℕ) → Option ℕ
held stream_id holders = elim (lookup stream_id holders) [ none ↦ none | some h ↦ h ]

unfoldable pub get_or_create_holder : ℤ → List (ℤ × Option ℕ) → List (ℤ × Option ℕ)
get_or_create_holder stream_id holders = elim (lookup stream_id holders) [
  | none ↦ insert stream_id none holders
  | some h ↦ holders
]

abbrev pub is_address : ℕ → Option ℕ → Bool
is_address ctx none = false
is_address ctx (some other) = eqb ctx other

-- requestContextHolder.Clear, whose error is only logged.
unfoldable pub clear_holder : ℤ → ℕ → List (ℤ × Option ℕ) → List (ℤ × Option ℕ)
unfolding held
clear_holder stream_id ctx holders =
    if is_address ctx (held stream_id holders) then insert stream_id none holders else holders

abbrev pub gauge_up : Gauge → Gauge
gauge_up g = record g { added = g.added + 1 }

abbrev pub gauge_down : Gauge → Gauge
gauge_down g = record g { subtracted = g.subtracted + 1 }

abbrev pub enter_by_decision : ForwardDecision → InFlightMetrics → InFlightMetrics
enter_by_decision to_both m = record m { writes = gauge_up m.writes }
enter_by_decision to_origin m = record m { reads_origin = gauge_up m.reads_origin }
enter_by_decision to_target m = record m { reads_target = gauge_up m.reads_target }
enter_by_decision _ m = m

abbrev pub leave_by_decision : ForwardDecision → InFlightMetrics → InFlightMetrics
leave_by_decision to_both m = record m { writes = gauge_down m.writes }
leave_by_decision to_origin m = record m { reads_origin = gauge_down m.reads_origin }
leave_by_decision to_target m = record m { reads_target = gauge_down m.reads_target }
leave_by_decision _ m = m

abbrev pub track_by_decision : ForwardDecision → InFlightMetrics → InFlightMetrics
track_by_decision to_both m = record m { writes_durations = m.writes_durations + 1 }
track_by_decision to_origin m = record m { reads_origin_durations = m.reads_origin_durations + 1 }
track_by_decision to_target m = record m { reads_target_durations = m.reads_target_durations + 1 }
track_by_decision _ m = m

abbrev pub if_tracked :
    RequestInfo → (InFlightMetrics → InFlightMetrics) → InFlightMetrics → InFlightMetrics
if_tracked info change m = if should_be_tracked_in_metrics info then change m else m

-- executeRequest from NewRequestContext to SetTimer, of a request that is for a cluster: the new context
-- is at the address `ctx`. `false` is the error of a stream id collision.
unfoldable pub store_request : ℕ → FramePointer → RequestInfo → Table → Table × Bool
unfolding get_or_create_holder held new_request_context
store_request ctx req info t =
    let stream_id = req.frame.header.stream_id in
    let holders = get_or_create_holder stream_id t.holders in
    if is_some (held stream_id holders) then (record t { holders = holders }, false) else (
      record t {
        holders = insert stream_id (some ctx) holders;
        contexts =
            insert ctx (record (new_request_context req info) { timer = some true }) t.contexts;
        in_flight_metrics =
            if_tracked info (enter_by_decision (get_forward_decision info)) t.in_flight_metrics;
        requests_in_flight = t.requests_in_flight + 1;
      },
      true,
    )

abbrev pub emptied : Outcome → RequestContext → RequestContext
emptied (answered f) c = record c { request = none; origin_response = none; target_response = none }
emptied _ c = c

-- holder.Clear of a request.
abbrev pub free_holder : ℤ → ℕ → Table → Table
free_holder stream_id ctx t = record t { holders = clear_holder stream_id ctx t.holders }

-- clientHandlerRequestWaitGroup.Done()
abbrev pub leave : Table → Table
leave t = record t { requests_in_flight = t.requests_in_flight - 1 }

-- cancelRequest between Clear and Done.
abbrev pub close_request : ℕ → RequestContext → Table → Table
close_request ctx c t = record t {
  in_flight_metrics =
      if_tracked c.request_info (leave_by_decision (get_forward_decision c.request_info))
        t.in_flight_metrics;
  outcomes = t.outcomes ++ ((ctx, closed) ∷ []);
}

unfoldable pub cancel_request : ℤ → ℕ → RequestContext → Table → Table
unfolding clear_holder
cancel_request stream_id ctx c t = leave (
    close_request ctx c
      (free_holder stream_id ctx (record t { contexts = insert ctx c t.contexts })))

-- A method of the context that a holder has, and what follows where it returns true.
unfoldable pub on_held :
    (RequestContext × NodeMetrics → RequestContext × NodeMetrics × Bool)
    → (ℤ → ℕ → RequestContext → Table → Table)
    → ℤ
    → Table
    → Table
unfolding held
on_held method follow stream_id t = elim (held stream_id t.holders) [
  | none ↦ t
  | some ctx ↦ elim (lookup ctx t.contexts) [
    | none ↦ t
    | some c ↦
        let (c', m, finished) = method (c, t.node_metrics) in
        if finished
        then follow stream_id ctx c' (record t { node_metrics = m })
        else record t { node_metrics = m; contexts = insert ctx c' t.contexts }
  ]
]

abbrev pub is_protocol_error : Option (Option ErrorMessage) → Bool
is_protocol_error (some (some e)) = elim e.code [ protocol_error_code ↦ true | _ ↦ false ]
is_protocol_error _ = false

-- tryProcessProtocolError: the first protocol error goes to the client, and no other does.
unfoldable pub try_process_protocol_error :
    (RawFrame → Option (Option ErrorMessage)) → RawFrame → Table → Table × Bool
unfolding decode_error
try_process_protocol_error decode_body f t =
    if is_protocol_error (decode_error decode_body f)
    then (
      if t.protocol_err_occurred then t else record t {
        protocol_err_occurred = true;
        protocol_errors = t.protocol_errors ++ (f ∷ []);
      },
      true,
    )
    else (t, false)

abbrev pub cancel_method : RequestContext × NodeMetrics → RequestContext × NodeMetrics × Bool
cancel_method (c, m) = let (c', finished) = cancel c in (c', m, finished)

-- clearRequestContexts, over the keys of the map.
unfoldable pub clear_request_contexts : List ℤ → Table → Table
unfolding on_held cancel_request
clear_request_contexts [] t = t
clear_request_contexts (stream_id ∷ keys) t =
    clear_request_contexts keys (on_held cancel_method cancel_request stream_id t)

-- `process` is processClientResponse of a response, the cluster it is from, the request info and the
-- target's response. `primary` is the primary cluster and `async` the async connector's.
module _ (primary async : ClusterType)
    (process : RawFrame
      → ClusterType
      → RequestInfo
      → Option RawFrame
      → HandlerState
      → HandlerState × Result ResponseError RawFrame) where
  -- The response that goes to the client, and the handler's state.
  abbrev pub final_response :
      Result ResponseFailure (RawFrame × ClusterType)
      → RequestContext
      → HandlerState
      → HandlerState × Outcome
  final_response (err e) c st = (st, failed)
  final_response (ok (f, cluster)) c st =
      let (st', r) = process f cluster c.request_info c.target_response st in
      if decision_beq (get_forward_decision c.request_info) to_async_only
      then (st, answered f)
      else (st', elim r [ err e ↦ failed | ok g ↦ answered g ])

  -- finishRequest between Clear and Done: the response is computed and sent.
  abbrev pub send_outcome : ℕ → FramePointer → RequestContext → Table → Table
  send_outcome ctx req c t =
      let (r, pm) = compute_client_response primary async req.frame c t.proxy_metrics in
      let (st, a) = final_response r c t.handler in
      let decision = get_forward_decision c.request_info in
      record t {
        contexts = insert ctx (emptied a c) t.contexts;
        proxy_metrics = pm;
        in_flight_metrics =
            if_tracked c.request_info
              (λ m. leave_by_decision decision (track_by_decision decision m)) t.in_flight_metrics;
        handler = st;
        outcomes = t.outcomes ++ ((ctx, a) ∷ []);
      }

  -- A context whose request is nil has been finished, and is not finished again.
  unfoldable pub finish_request : ℤ → ℕ → RequestContext → Table → Table
  unfolding clear_holder
  finish_request stream_id ctx c t = elim c.request [
    | none ↦ t
    | some req ↦ leave (send_outcome ctx req c (free_holder stream_id ctx t))
  ]

  -- A response without a frame, which the timer of the request sends.
  unfoldable pub handle_timeout : FramePointer → Table → Table
  unfolding on_held finish_request get_or_create_holder
  handle_timeout req t =
      let stream_id = req.frame.header.stream_id in
      on_held (set_timeout req) finish_request stream_id
        (record t { holders = get_or_create_holder stream_id t.holders })

  -- The step of responseLoop for a response of the origin's or the target's connector.
  unfoldable pub handle_response :
      (RawFrame → Option (Option ErrorMessage))
      → RawFrame
      → ClusterType
      → ClusterConnectorType
      → Table
      → Table
  unfolding try_process_protocol_error on_held finish_request get_or_create_holder
  handle_response decode_body f cluster connector t =
      let (t', processed) = try_process_protocol_error decode_body f t in
      let stream_id = f.header.stream_id in
      if processed
      then t'
      else on_held (set_response f cluster connector) finish_request stream_id
          (record t' { holders = get_or_create_holder stream_id t'.holders })
