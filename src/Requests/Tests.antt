-- ===== src/Requests/Tests.antt =====
-- The contexts of requests on small inputs.
use zdm_proxy.Prelude.{
  ℕ, ◌≡◌, refl, true, false, some, List, [], ◌∷◌, ℤ, pos, lookup, nat_eq, int_eq, insert,
}
use zdm_proxy.Protocol.{origin, target, origin_connector, target_connector, to_both}
use zdm_proxy.RequestInfo.{get_forward_decision}
use zdm_proxy.Samples.{result_frame, error_frame, request_pointer, write_info, no_node_metrics}
use zdm_proxy.Requests.Context.{
  RequestContext, new_request_context, new_async_request_context, async_set_response,
}
use zdm_proxy.Requests.Outcome.{Event, responds}
use zdm_proxy.Requests.Pending.{
  PendingRequests, held, store, mark_as_done, get_or_create_request_context_holder, set_if_empty,
  finish_by, on_context, clear_pending_request_state,
}
use zdm_proxy.Requests.Slots.{waits}
use zdm_proxy.Requests.Waiting.{Inv, stores, receives, perform, perform-Inv}

abbrev new_write : RequestContext
new_write = new_request_context request_pointer write_info

-- Both clusters answer, then a late timeout.
abbrev both_answer : List Event
both_answer =
    responds result_frame target target_connector
    ∷ responds error_frame origin origin_connector
    ∷ []

write_for_both : get_forward_decision write_info ≡ to_both
unfolding get_forward_decision
write_for_both = refl

-- One async request that waits, and no slot taken.
abbrev one_waiting : PendingRequests
one_waiting = record {
  contexts = (3, new_async_request_context write_info (pos 3) true) ∷ [];
  pending = [];
  node_metrics = no_node_metrics;
}

abbrev own_id : ℕ → ℤ
own_id ctx = pos ctx

one_waiting-Inv : Inv own_id one_waiting
unfolding held lookup
one_waiting-Inv = record { homes = λ k ctx h. absurd (cc); waiting = λ k ctx h. absurd (cc) }

three_waits : waits 3 one_waiting ≡ true
unfolding lookup new_async_request_context
three_waits = refl

perform-Inv_example : Inv own_id (perform own_id (stores 3) one_waiting)
perform-Inv_example = perform-Inv own_id (stores 3) one_waiting one_waiting-Inv three_waits

abbrev stored : PendingRequests
stored = perform own_id (stores 3) one_waiting

stored_under_three : held (pos 3) stored ≡ some 3
unfolding held perform store get_or_create_request_context_holder set_if_empty lookup insert
stored_under_three = refl

abbrev answered : PendingRequests
answered = perform own_id (receives (pos 3)) stored

three_is_over : waits 3 answered ≡ false
unfolding perform mark_as_done store get_or_create_request_context_holder set_if_empty held
    finish_by on_context clear_pending_request_state async_set_response new_async_request_context
    lookup insert get_forward_decision
three_is_over = refl
