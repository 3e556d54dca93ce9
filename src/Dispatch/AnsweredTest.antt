-- ===== src/Dispatch/AnsweredTest.antt =====
-- A QUERY for both clusters, with the responses of both.
use zdm_proxy.Prelude.{
  ℕ, ◌≡◌, refl, arith, Option, none, some, [], ◌∷◌, ◌++◌, int_eq, nat_eq, lookup, insert,
}
use zdm_proxy.Protocol.{RawFrame, origin, target, cluster_none, origin_connector, target_connector}
use zdm_proxy.RequestInfo.{get_forward_decision}
use zdm_proxy.Messages.{get_or_decode_and_inspect, get_or_inspect_statement}
use zdm_proxy.Forwarding.{get_request_info_from_query_info}
use zdm_proxy.Connector.Errors.{ErrorMessage, decode_error}
use zdm_proxy.PreparedResponse.{PreparedBody}
use zdm_proxy.StreamIds.{StreamIdMapper}
use zdm_proxy.Handler.{ResponseMessage, send_by_decision}
use zdm_proxy.Requests.Context.{RequestContext, FramePointer, new_request_context}
use zdm_proxy.Lifecycle.{store_request}
use zdm_proxy.Lifecycle.Storing.{waiting}
use zdm_proxy.Samples.{query_frame, result_frame, request_pointer, write_info}
use zdm_proxy.Dispatch.{ClientHandler}
use zdm_proxy.Dispatch.Forward.{forward_request}
use zdm_proxy.Dispatch.Tests.{client_handler, setting}
use zdm_proxy.Dispatch.ForwardTest.{inspection, with_header_keeps, forwarded, query_does_not_fail}
use zdm_proxy.Dispatch.Answered.{respond, answer_of_both, forwarded_write_answered}

abbrev no_change : RawFrame → Option ResponseMessage
no_change f = some ResponseMessage.other_response

abbrev no_body : RawFrame → Option (Option PreparedBody)
no_body f = none

abbrev unconverted : RawFrame → ResponseMessage → Option RawFrame
unconverted f m = none

abbrev no_error : RawFrame → Option (Option ErrorMessage)
no_error f = none

abbrev after : ClientHandler StreamIdMapper StreamIdMapper ℕ
after = (forwarded query_frame).0

is_done : forward_request setting inspection 7 17 query_frame client_handler ≡ (after, none)
is_done = ground (arith, query_does_not_fail)

abbrev context : RequestContext
context = waiting request_pointer write_info

is_found : lookup 7 after.table.contexts ≡ some context
unfolding forward_request get_or_decode_and_inspect get_or_inspect_statement
    get_request_info_from_query_info get_forward_decision store_request lookup insert
    send_by_decision new_request_context
is_found = refl

forwarded_write_answered_example :
    (req : FramePointer) × (context.request ≡ some req)
    × (req.frame.header ≡ query_frame.header)
    × ((respond setting inspection cluster_none no_change no_body unconverted no_error result_frame
          target target_connector
          (respond setting inspection cluster_none no_change no_body unconverted no_error
            result_frame origin origin_connector after.table)).outcomes
        ≡ after.table.outcomes
          ++ ((
            7,
            answer_of_both setting inspection cluster_none no_change no_body unconverted no_error
                req context.request_info result_frame result_frame after.table,
          )
              ∷ []))
    × ((respond setting inspection cluster_none no_change no_body unconverted no_error result_frame
          origin origin_connector
          (respond setting inspection cluster_none no_change no_body unconverted no_error
            result_frame target target_connector after.table)).outcomes
        ≡ after.table.outcomes
          ++ ((
            7,
            answer_of_both setting inspection cluster_none no_change no_body unconverted no_error
                req context.request_info result_frame result_frame after.table,
          )
              ∷ []))
forwarded_write_answered_example =
    forwarded_write_answered setting inspection cluster_none no_change no_body unconverted no_error
      with_header_keeps 7 17 query_frame client_handler after context is_done
      (unfold lookup in refl) is_found result_frame result_frame origin_connector target_connector
      (unfold new_request_context get_forward_decision in refl) (unfold decode_error in refl)
      (unfold decode_error in refl) refl refl
