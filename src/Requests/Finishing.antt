-- ===== src/Requests/Finishing.antt =====
-- requestcontext.go: responses from the clusters that were asked finish a request.
use zdm_proxy.Prelude.{
  ◌≡◌, ◌≢◌, refl, ap, ◌∙◌, ◌⊎◌, inl, inr, Bool, true, ◌||◌, is_some, List, [], ◌∷◌, arith,
  Bool-cases, All,
}
use zdm_proxy.Protocol.{
  to_both, ClusterType, cluster_none, origin, target, ClusterConnectorType, RawFrame,
}
use zdm_proxy.RequestInfo.{RequestInfo, get_forward_decision}
use zdm_proxy.Requests.Context.{
  RequestContext, NodeMetrics, FramePointer, pending, done, is_pending, is_done, set_timeout,
  cancel, set_response, new_request_context,
}
use zdm_proxy.Requests.Outcome.{
  Event, times_out, cancels, responds, on_event, run, Inv, new-Inv, on_event-Inv, Received, first,
  later, response_of,
}
use zdm_proxy.Requests.Answers.{both-WaitsForClusters, on_event-info}

-- Responses alone, with no timeout and no cancellation.
abbrev pub IsResponds : Event → Type 0
IsResponds (responds f cluster connector) = Unit
IsResponds _ = ⊥

-- Neither timed out nor canceled.
abbrev alive : RequestContext → Bool
alive c = is_pending c.state || is_done c.state

keeps_response :
    (e : Event) (c : RequestContext) (m : NodeMetrics) (from : ClusterType)
    → is_some (response_of from c) ≡ true
    → is_some (response_of from (on_event e (c, m)).0) ≡ true
unfolding on_event set_timeout cancel set_response
keeps_response (times_out req) c m from h = ground arith
keeps_response cancels c m from h = ground arith
keeps_response (responds f cluster connector) c m from h = ground arith

-- A response to a pending request is kept, and leaves it pending or done.
takes_response :
    (f : RawFrame) (from : ClusterType) (connector : ClusterConnectorType) (c : RequestContext)
    (m : NodeMetrics)
    → c.state ≡ pending
    → from ≢ cluster_none
    → is_some (response_of from (on_event (responds f from connector) (c, m)).0) ≡ true
unfolding on_event set_response
takes_response f origin connector c m p ne = ground arith
takes_response f target connector c m p ne = ground arith
takes_response f cluster_none connector c m p ne = absurd (ne refl)

stays_alive :
    (e : Event) (c : RequestContext) (m : NodeMetrics)
    → IsResponds e
    → alive c ≡ true
    → alive (on_event e (c, m)).0 ≡ true
unfolding on_event set_response
stays_alive (times_out req) c m i h = absurd i
stays_alive cancels c m i h = absurd i
stays_alive (responds f cluster connector) c m i h = ground arith

stays_done :
    (e : Event) (c : RequestContext) (m : NodeMetrics)
    → c.state ≡ done
    → (on_event e (c, m)).0.state ≡ done
unfolding on_event set_timeout cancel set_response
stays_done (times_out req) c m h = ground arith
stays_done cancels c m h = ground arith
stays_done (responds f cluster connector) c m h = ground arith

-- The cluster has answered, or will in one of the events.
abbrev Answers : ClusterType → RequestContext → List Event → Type 0
Answers from c es = (is_some (response_of from c) ≡ true) ⊎ ((f : RawFrame) × Received f from es)

still_to_come :
    {e : Event} {es : List Event} (f : RawFrame) (from : ClusterType) (c : RequestContext)
    (m : NodeMetrics)
    → c.state ≡ pending
    → from ≢ cluster_none
    → Received f from (e ∷ es)
    → Answers from (on_event e (c, m)).0 es
still_to_come f from c m p ne (first connector) = inl (takes_response f from connector c m p ne)
still_to_come f from c m p ne (later e r) = inr (f, r)

after_one_event :
    (e : Event) (es : List Event) (from : ClusterType) (c : RequestContext) (m : NodeMetrics)
    → c.state ≡ pending
    → from ≢ cluster_none
    → Answers from c (e ∷ es)
    → Answers from (on_event e (c, m)).0 es
after_one_event e es from c m p ne (inl h) = inl (keeps_response e c m from h)
after_one_event e es from c m p ne (inr (f, r)) = still_to_come f from c m p ne r

no_event : {f : RawFrame} {from : ClusterType} → Received f from [] → ⊥
no_event = elim [ ]

answered_now :
    (from : ClusterType) (c : RequestContext)
    → Answers from c []
    → is_some (response_of from c) ≡ true
answered_now from c (inl h) = h
answered_now from c (inr (f, r)) = absurd (no_event r)

stays_done_run :
    (es : List Event) (c : RequestContext) (m : NodeMetrics)
    → c.state ≡ done
    → (run es (c, m)).0.state ≡ done
unfolding run
stays_done_run [] c m h = h
stays_done_run (e ∷ es) c m h =
    let (c', m', finished) = on_event e (c, m) in stays_done_run es c' m' (stays_done e c m h)

done_in_the_end :
    (es : List Event) (c : RequestContext) (m : NodeMetrics)
    → get_forward_decision c.request_info ≡ to_both
    → Inv c
    → alive c ≡ true
    → All IsResponds es
    → Answers origin c es
    → Answers target c es
    → (run es (c, m)).0.state ≡ done
unfolding run
done_in_the_end [] c m both v h only o t =
    ground (arith, answered_now origin c o, answered_now target c t, v.waiting)
done_in_the_end (e ∷ es) c m both v h only o t = elim (Bool-cases (is_done c.state)) [
  | inl d ↦
      let (c', m', finished) = on_event e (c, m) in
      stays_done_run es c' m' (stays_done e c m (ground arith))
  | inr d ↦
      let p : c.state ≡ pending = ground arith in
      let (c', m', finished) = on_event e (c, m) in
      done_in_the_end es c' m' (ap get_forward_decision (on_event-info e c m) ∙ both)
        (on_event-Inv e c m v) (stays_alive e c m only.0 h) only.1
        (after_one_event e es origin c m p (λ k. cc) o)
        (after_one_event e es target c m p (λ k. cc) t)
]

-- If nothing but responses comes, in any order and any number, and both clusters answer, then a new
-- request for both clusters is done.
pub both_answers_finish :
    (req : FramePointer) (info : RequestInfo) (es : List Event) (m : NodeMetrics) (f g : RawFrame)
    → get_forward_decision info ≡ to_both
    → All IsResponds es
    → Received f origin es
    → Received g target es
    → (run es (new_request_context req info, m)).0.state ≡ done
unfolding new_request_context
both_answers_finish req info es m f g both only o t =
    done_in_the_end es (new_request_context req info) m both
      (new-Inv req info (both-WaitsForClusters info both)) refl only (inr (f, o)) (inr (g, t))
