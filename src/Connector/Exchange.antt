-- ===== src/Connector/Exchange.antt =====
-- clusterconn.go: a request to the async connector that is sent holds the slot of its new stream id
-- until its response, which goes on under the stream id that the request came with.
use zdm_proxy.Prelude.{
  ℕ, ◌≡◌, refl, ap, ◌∙◌, Bool, true, false, ◌&&◌, not, Option, none, some, is_some, [], ◌∷◌, ◌++◌,
  ℤ, int_beq, int_beq_iff, int_eq, nat_eq, length, ltb, lookup, if◌then◌else◌, arith, inl, inr,
  Option-cases, ok,
}
use zdm_proxy.Protocol.{RawFrame, Header, ClusterType}
use zdm_proxy.RequestInfo.{RequestInfo, PrepareRequestInfo}
use zdm_proxy.Processor.{Mapper}
use zdm_proxy.PreparedCache.{PreparedStatementCache}
use zdm_proxy.Requests.Context.{
  AsyncRequestContext, async_cancel, async_set_response, new_async_request_context, is_pending,
}
use zdm_proxy.Requests.Pending.{
  PendingRequests, held, store, cancel, get_or_create_request_context_holder, set_if_empty,
  mark_as_done,
}
use zdm_proxy.Requests.Slots.{
  held-get_or_create, held-set_if_empty, held-finish_by, waits, contexts-get_or_create,
  cancel-Finishes, set_response-Finishes, finish_by-reports,
}
use zdm_proxy.Connector.{
  ClusterConnector, enqueue, enqueue_async, validate_async_state_for_request, with_timer,
  sent_frame, store_new, send_stored, send_assigned, send_async_request_to_cluster,
}
use zdm_proxy.Connector.Errors.{ErrorMessage, decode_error}
use zdm_proxy.Connector.Handling.{
  finish_async, finished_context, receive_async, handle_async_response, with_stream_id, is_event,
}
use zdm_proxy.Connector.Stored.{store_new_found, found_after}

held-store :
    (k j : ℤ) (ctx : ℕ) (p : PendingRequests)
    → ((store k ctx p).1 ≡ not (is_some (held k p)))
      × (held j (store k ctx p).0
          ≡ (if not (is_some (held k p)) && int_beq k j then some ctx else held j p))
unfolding store set_if_empty
held-store k j ctx p =
    let p' = get_or_create_request_context_holder k p in
    elim (Option-cases (held k p)) [
      | inl e ↦ ground (
        arith,
        e,
        held-get_or_create k k p,
        held-get_or_create k j p,
        held-set_if_empty k j ctx p',
      )
      | inr (other, e) ↦ ground (arith, e, held-get_or_create k k p, held-get_or_create k j p)
    ]

held-store_new :
    (ctx : ℕ) (c : AsyncRequestContext) (k j : ℤ) (p : PendingRequests)
    → ((store_new ctx c k p).1 ≡ not (is_some (held k p)))
      × (held j (store_new ctx c k p).0
          ≡ (if not (is_some (held k p)) && int_beq k j then some ctx else held j p))
unfolding store_new held
held-store_new ctx c k j p = ground (arith, held-store k j ctx p)

-- The cancellation of a request that waits in its slot frees the slot alone.
held-cancel :
    (k j : ℤ) (ctx : ℕ) (p : PendingRequests)
    → held k p ≡ some ctx
    → waits ctx p ≡ true
    → held j (cancel k ctx p).0 ≡ (if int_beq k j then none else held j p)
unfolding cancel
held-cancel k j ctx p h w =
    let p' = get_or_create_request_context_holder k p in
    let waits' : waits ctx p' ≡ true =
      ground (arith, w, ap (lookup ctx) (contexts-get_or_create k p)) in
    ground (
      arith,
      held-get_or_create k j p,
      held-finish_by async_cancel cancel-Finishes k j ctx p' (held-get_or_create k k p ∙ h) waits',
    )

module _ {S : Type 0} where
  -- Whether a request is sent: its slot is empty and the write queue has room.
  abbrev pub can_send : ℤ → ClusterConnector S → Bool
  can_send k cc = not (is_some (held k cc.pending)) && ltb (length cc.write_queue) cc.queue_size

  pub send_stored_slots :
      (ctx : ℕ) (c : AsyncRequestContext) (g : RawFrame) (cc : ClusterConnector S) (j : ℤ)
      → lookup ctx cc.pending.contexts ≡ none
      → is_pending c.state ≡ true
      → let (cc', sent) = send_stored ctx c g cc in
        (sent ≡ can_send g.header.stream_id cc)
        × (cc'.write_queue ≡ (if sent then cc.write_queue ++ (g ∷ []) else cc.write_queue))
        × (held j cc'.pending
            ≡ (if sent && int_beq g.header.stream_id j then some ctx else held j cc.pending))
  unfolding send_stored enqueue_async enqueue
  send_stored_slots ctx c g cc j unused pend =
      let k = g.header.stream_id in
      let p' = (store_new ctx c k cc.pending).0 in
      let (stored, own) = held-store_new ctx c k k cc.pending in
      let (stored', slot) = held-store_new ctx c k j cc.pending in
      let found = store_new_found ctx c k cc.pending unused in
      elim (Option-cases (held k cc.pending)) [
        | inr (other, e) ↦ ground (arith, e, stored, slot)
        | inl e ↦
            let own' : held k p' ≡ some ctx = ground (arith, e, own, int_beq_iff k k) in
            let waiting : waits ctx p' ≡ true = ground (arith, e, stored, found, pend) in
            ground (arith, e, stored, slot, held-cancel k j ctx p' own' waiting, int_beq_iff k j)
      ]

-- The context of a request that is sent stands under its address.
pub send_stored_found :
    {S : Type 0} (ctx : ℕ) (c : AsyncRequestContext) (g : RawFrame) (cc : ClusterConnector S)
    → lookup ctx cc.pending.contexts ≡ none
    → (send_stored ctx c g cc).1 ≡ true
    → lookup ctx (send_stored ctx c g cc).0.pending.contexts ≡ some (with_timer c)
unfolding send_stored enqueue_async enqueue
send_stored_found ctx c g cc unused sent =
    ground (arith, sent, store_new_found ctx c g.header.stream_id cc.pending unused)

pub send_async_stored :
    {S : Type 0} (mapper : Mapper S) (ctx : ℕ) (info : RequestInfo) (f g : RawFrame)
    (expected : Bool) (s' : S) (cc : ClusterConnector S)
    → validate_async_state_for_request cc.state f.header.op_code ≡ true
    → sent_frame mapper f cc.mapper_state ≡ (s', ok g)
    → send_async_request_to_cluster mapper ctx info f expected cc
      ≡ send_stored ctx
          (new_async_request_context info f.header.stream_id expected)
          g
          (record cc { mapper_state = s' })
unfolding send_async_request_to_cluster send_assigned
send_async_stored mapper ctx info f g expected s' cc valid assigned =
    ground (arith, valid, assigned)

-- The response under a stream id whose slot holds a waiting request ends that request.
finished-mark_as_done :
    (k : ℤ) (ctx : ℕ) (c : AsyncRequestContext) (p : PendingRequests)
    → held k p ≡ some ctx
    → lookup ctx p.contexts ≡ some c
    → is_pending c.state ≡ true
    → (finished_context (mark_as_done k p)
        ≡ some (async_set_response (c, (get_or_create_request_context_holder k p).node_metrics)).0)
      × (held k (mark_as_done k p).0 ≡ none)
unfolding mark_as_done
finished-mark_as_done k ctx c p h l w =
    let p' = get_or_create_request_context_holder k p in
    let h' = held-get_or_create k k p ∙ h in
    let l' = ap (lookup ctx) (contexts-get_or_create k p) ∙ l in
    let w' : waits ctx p' ≡ true = ground (arith, l', w) in
    ground (
      arith,
      h',
      w',
      finish_by-reports async_set_response set_response-Finishes k ctx p',
      found_after k ctx p' c l',
      held-finish_by async_set_response set_response-Finishes k k ctx p' h' w',
      int_beq_iff k k,
    )

module _ {S : Type 0} (mapper : Mapper S) (cluster : ClusterType)
    (decode_body : RawFrame → Option (Option ErrorMessage))
    (convert_prepare : Header → PrepareRequestInfo → Option RawFrame) where
  -- A request that a client waits for, whose frame gets a free stream id while the write queue has
  -- room, is sent; the response under that id, if it can be decoded and is neither an error nor an
  -- event, frees the id's slot and is passed on under the request's own stream id.
  pub async_exchange :
      (ctx ctx' : ℕ) (info : RequestInfo) (f g response : RawFrame) (s' : S)
      (psc : PreparedStatementCache) (cc : ClusterConnector S)
      → lookup ctx cc.pending.contexts ≡ none
      → validate_async_state_for_request cc.state f.header.op_code ≡ true
      → sent_frame mapper f cc.mapper_state ≡ (s', ok g)
      → can_send g.header.stream_id cc ≡ true
      → response.header.stream_id ≡ g.header.stream_id
      → decode_error decode_body response ≡ some none
      → is_event response.header.op_code ≡ false
      → let (cc', sent) = send_async_request_to_cluster mapper ctx info f true cc in
        let (cc'', passed_on) =
          handle_async_response mapper cluster decode_body convert_prepare ctx' response psc cc' in
        (sent ≡ true)
        × (cc'.write_queue ≡ cc.write_queue ++ (g ∷ []))
        × (passed_on ≡ some (with_stream_id f.header.stream_id response))
        × (held g.header.stream_id cc''.pending ≡ none)
  unfolding handle_async_response receive_async finish_async new_async_request_context
      async_set_response
  async_exchange ctx ctx' info f g response s' psc cc unused valid assigned can same decoded plain =
      let k = g.header.stream_id in
      let c = new_async_request_context info f.header.stream_id true in
      let before : ClusterConnector S = record cc { mapper_state = s' } in
      let after = send_stored ctx c g before in
      let sends = send_async_stored mapper ctx info f g true s' cc valid assigned in
      let (sent, queue, slot) = send_stored_slots ctx c g before k unused refl in
      let sent' : after.1 ≡ true = ground (arith, sent, can) in
      let found = send_stored_found ctx c g before unused sent' in
      let own : held k after.0.pending ≡ some ctx = ground (arith, slot, sent', int_beq_iff k k) in
      let (context, freed) =
        finished-mark_as_done k ctx (with_timer c) after.0.pending own found refl in
      ground (arith, sends, sent', queue, same, decoded, plain, context, freed)
