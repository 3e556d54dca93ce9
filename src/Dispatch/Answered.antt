-- ===== src/Dispatch/Answered.antt =====
-- clienthandler.go: a client's request for both clusters, from forwardRequest to its answer.
use zdm_proxy.Prelude.{
  ℕ, ◌≡◌, ◌∙◌, sym, ap, subst, inl, inr, false, Option, none, some, [], ◌∷◌, ◌++◌, int_eq, nat_eq,
  lookup, arith,
}
use zdm_proxy.Protocol.{
  RawFrame, Header, to_both, ClusterType, origin, target, ClusterConnectorType,
}
use zdm_proxy.RequestInfo.{RequestInfo, get_forward_decision}
use zdm_proxy.Messages.{Message}
use zdm_proxy.Requests.Context.{RequestContext, FramePointer, new_request_context}
use zdm_proxy.Connector.Errors.{ErrorMessage, decode_error}
use zdm_proxy.Handler.{ResponseMessage, process_client_response}
use zdm_proxy.PreparedResponse.{PreparedBody}
use zdm_proxy.Lifecycle.{Table, Outcome, is_protocol_error, handle_response}
use zdm_proxy.Lifecycle.Storing.{waiting}
use zdm_proxy.Lifecycle.Write.{expected, waiting_answered}
use zdm_proxy.Dispatch.{Setting, ClientHandler}
use zdm_proxy.Dispatch.Forward.{Inspection, forward_request}
use zdm_proxy.Dispatch.Forwarded.{Forwards, IsWaiting, forwarded_or_untouched}

-- `decode`, `decode_body` and `convert` are the library's codec of responses, `decode_error_body` that of
-- errors, and `async` is the cluster of the async connector.
module _ {S A G : Type 0} (env : Setting S A G) (inspection : Inspection) (async : ClusterType)
    (decode : RawFrame → Option ResponseMessage)
    (decode_body : RawFrame → Option (Option PreparedBody))
    (convert : RawFrame → ResponseMessage → Option RawFrame)
    (decode_error_body : RawFrame → Option (Option ErrorMessage)) where
  abbrev pub respond : RawFrame → ClusterType → ClusterConnectorType → Table → Table
  respond f cluster connector t =
      handle_response env.primary_cluster async (process_client_response decode decode_body convert)
        decode_error_body f cluster connector t

  -- What the client gets for the responses `o` of the origin and `g` of the target.
  abbrev pub answer_of_both : FramePointer → RequestInfo → RawFrame → RawFrame → Table → Outcome
  answer_of_both =
      expected env.primary_cluster async (process_client_response decode decode_body convert)
        decode_error_body

  module _
      (keeps : (h : Header) (m : Message) (g : RawFrame)
        → inspection.encode_frame h m ≡ some g
        → g.header ≡ h)
      (ctx address : ℕ) (f : RawFrame) (ch ch' : ClientHandler S A G) (c : RequestContext)
      (done : forward_request env inspection ctx address f ch ≡ (ch', none))
      (fresh : lookup ctx ch.table.contexts ≡ none)
      (found : lookup ctx ch'.table.contexts ≡ some c) where
    forwarded_waits : IsWaiting ctx f ch ch'
    forwarded_waits =
        elim (subst (λ r. Forwards ctx f ch r.1 r.0) done
          (forwarded_or_untouched ctx f ch env inspection keeps address)) [
            | inl (unsent, holders, contexts, answered) ↦
                absurd (ground (arith, fresh, found, contexts))
            | inr w ↦ w
          ]

    -- A request is forwarded without failure to both clusters, at a context address that is not in use, by
    -- an encoder that keeps headers. Then the responses of the clusters, under its stream id, neither a
    -- protocol error, and in either order, give it one answer, when the second of them comes: what
    -- processClientResponse makes of the response that aggregateAndTrackResponses chooses of the two.
    pub forwarded_write_answered :
        (o g : RawFrame) (connector connector' : ClusterConnectorType)
        → get_forward_decision c.request_info ≡ to_both
        → is_protocol_error (decode_error decode_error_body o) ≡ false
        → is_protocol_error (decode_error decode_error_body g) ≡ false
        → o.header.stream_id ≡ f.header.stream_id
        → g.header.stream_id ≡ f.header.stream_id
        → (req : FramePointer) × (c.request ≡ some req)
          × (req.frame.header ≡ f.header)
          × ((respond g target connector' (respond o origin connector ch'.table)).outcomes
              ≡ ch'.table.outcomes ++ ((ctx, answer_of_both req c.request_info o g ch'.table) ∷ []))
          × ((respond o origin connector (respond g target connector' ch'.table)).outcomes
              ≡ ch'.table.outcomes ++ ((ctx, answer_of_both req c.request_info o g ch'.table) ∷ []))
    unfolding new_request_context
    forwarded_write_answered o g connector connector' both plain plain' under under' =
        let (req, info, same, (responses, free, has, waits)) = forwarded_waits in
        let is : c ≡ waiting req info = ground (arith, found, waits) in
        let info_of : c.request_info ≡ info = ap (λ (x : RequestContext). x.request_info) is in
        let (first, second) =
          waiting_answered env.primary_cluster async
            (process_client_response decode decode_body convert) decode_error_body ch'.table ctx req
            info o g connector connector' has waits (sym (ap get_forward_decision info_of) ∙ both)
            plain plain' (under ∙ sym (ap (λ (h : Header). h.stream_id) same))
            (under' ∙ sym (ap (λ (h : Header). h.stream_id) same)) in
        let renamed =
          ap (λ i. ch'.table.outcomes ++ ((ctx, answer_of_both req i o g ch'.table) ∷ []))
            (sym info_of) in
        (req, ap (λ (x : RequestContext). x.request) is, same, first ∙ renamed, second ∙ renamed)
