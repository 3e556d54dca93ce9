-- ===== src/Lifecycle/Tests.antt =====
-- A write with the stream id 1 and its timeout, step by step.
use zdm_proxy.Prelude.{
  ◌≡◌, ◌-◌, ◌++◌, none, refl, Option, some, [], ◌∷◌, pos, int_eq, nat_eq, lookup, insert, ok,
  Result,
}
use zdm_proxy.Protocol.{RawFrame, ClusterType, origin, origin_connector}
use zdm_proxy.RequestInfo.{RequestInfo, get_forward_decision}
use zdm_proxy.Requests.Context.{
  RequestContext, new_request_context, set_timeout, set_response, update_internal_state,
}
use zdm_proxy.Handler.{HandlerState, ResponseError}
use zdm_proxy.Samples.{result_frame, empty_table, request_pointer, write_info}
use zdm_proxy.Lifecycle.{failed, held, get_or_create_holder, store_request, handle_timeout, Table}
use zdm_proxy.Lifecycle.Timeouts.{timed_out_ended}
use zdm_proxy.Requests.Outcome.{Inv, WaitsForClusters}
use zdm_proxy.Responses.{compute_client_response}
use zdm_proxy.Lifecycle.Storing.{waiting}
use zdm_proxy.Lifecycle.Interleaving.{
  Stage, to_clear, to_send, Phase, System, timeout, response, store_step, event_step, clear_step,
  send_step,
}

abbrev unchanged :
    RawFrame
    → ClusterType
    → RequestInfo
    → Option RawFrame
    → HandlerState
    → HandlerState × Result ResponseError RawFrame
unchanged f cluster info target_response st = (st, ok f)

abbrev in_stage : Stage → Phase
in_stage stage = record { stream_id = pos 1; stage = stage }

abbrev stored : System
stored = store_step 7 request_pointer write_info (record { table = empty_table; phases = [] })

abbrev context : RequestContext
context = waiting request_pointer write_info

abbrev timed_out_context : RequestContext
timed_out_context = (set_timeout request_pointer (context, empty_table.node_metrics)).0

abbrev timed_out : System
timed_out = event_step (timeout request_pointer) 7 (in_stage Stage.waiting) context stored

abbrev freed : System
freed = clear_step 7 (in_stage to_clear) timed_out

abbrev sent : System
sent =
    send_step origin origin unchanged 7 (in_stage to_send) request_pointer timed_out_context freed

-- The timeout sends nothing to the client.
nothing_sent : sent.table.outcomes ≡ (7, failed) ∷ []
unfolding store_step event_step store_request held get_or_create_holder lookup insert
    new_request_context set_timeout compute_client_response get_forward_decision
nothing_sent = refl

-- The write when the origin alone has responded.
abbrev half_answered : Table
half_answered =
    (event_step (response result_frame origin origin_connector) 7 (in_stage Stage.waiting) context
      stored).table

abbrev pending_context : RequestContext
pending_context = record context { origin_response = some result_frame }

for_clusters : WaitsForClusters write_info
unfolding get_forward_decision
for_clusters = (λ e. cc, λ e. cc)

pending_context-Inv : Inv pending_context
unfolding new_request_context get_forward_decision
pending_context-Inv = record { complete = λ h. cc; waiting = λ h. refl }

held_seven : held (pos 1) half_answered.holders ≡ some 7
unfolding store_step event_step store_request held get_or_create_holder lookup insert set_response
    update_internal_state new_request_context
held_seven = refl

found_seven : lookup 7 half_answered.contexts ≡ some pending_context
unfolding store_step event_step store_request held get_or_create_holder lookup insert set_response
    update_internal_state new_request_context get_forward_decision
found_seven = refl

timed_out_ended_example :
    let t' = handle_timeout origin origin unchanged request_pointer half_answered in
    (t'.outcomes ≡ half_answered.outcomes ++ ((7, failed) ∷ []))
    × (t'.handler ≡ half_answered.handler)
    × (held (pos 1) t'.holders ≡ none)
    × (t'.requests_in_flight ≡ half_answered.requests_in_flight - 1)
unfolding new_request_context
timed_out_ended_example =
    timed_out_ended origin origin unchanged half_answered 7 request_pointer pending_context
      for_clusters pending_context-Inv held_seven found_seven refl refl
