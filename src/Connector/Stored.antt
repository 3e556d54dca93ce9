-- ===== src/Connector/Stored.antt =====
-- clusterconn.go and pendingrequests.go: the context of a request to the async connector, from its storing
-- to its response.
use zdm_proxy.Prelude.{
  ℕ, ◌≡◌, ap, ◌∙◌, none, some, ℤ, int_eq, nat_eq, lookup, lookup-insert, if◌then◌else◌, arith,
}
use zdm_proxy.Requests.Context.{AsyncRequestContext, async_set_response}
use zdm_proxy.Requests.Pending.{
  PendingRequests, get_or_create_request_context_holder, store, finish_by, on_context,
}
use zdm_proxy.Requests.Slots.{contexts-get_or_create, contexts-clear, contexts-set_if_empty}
use zdm_proxy.Connector.{store_new, with_timer}

contexts-store : (k : ℤ) (ctx : ℕ) (p : PendingRequests) → (store k ctx p).0.contexts ≡ p.contexts
unfolding store
contexts-store k ctx p =
    contexts-set_if_empty k ctx (get_or_create_request_context_holder k p)
    ∙ contexts-get_or_create k p

-- A new context stands under its address if its request is stored, and nothing does if not.
pub store_new_found :
    (ctx : ℕ) (c : AsyncRequestContext) (k : ℤ) (p : PendingRequests)
    → lookup ctx p.contexts ≡ none
    → let (p', stored) = store_new ctx c k p in
      lookup ctx p'.contexts ≡ (if stored then some (with_timer c) else none)
unfolding store_new
store_new_found ctx c k p unused = ground (
  arith,
  unused,
  ap (lookup ctx) (contexts-store k ctx p),
  lookup-insert ctx ctx (with_timer c) (store k ctx p).0.contexts,
)

-- A response to the request at the address leaves what set_response makes of its context.
pub found_after :
    (k : ℤ) (ctx : ℕ) (p : PendingRequests) (c : AsyncRequestContext)
    → lookup ctx p.contexts ≡ some c
    → lookup ctx (finish_by async_set_response k ctx p).0.contexts
      ≡ some (async_set_response (c, p.node_metrics)).0
unfolding finish_by on_context
found_after k ctx p c e =
    let c' = (async_set_response (c, p.node_metrics)).0 in
    ground (
      arith,
      e,
      ap (lookup ctx) (contexts-clear k ctx (on_context async_set_response ctx p).0),
      lookup-insert ctx ctx c' p.contexts,
    )
