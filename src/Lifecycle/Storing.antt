-- ===== src/Lifecycle/Storing.antt =====
-- clienthandler.go: what the storing of a request leaves.
use zdm_proxy.Prelude.{
  ℕ, ◌≡◌, true, none, some, int_eq, nat_eq, int_beq_iff, eqb_iff, lookup, lookup-insert, inl, inr,
  arith, Option-cases,
}
use zdm_proxy.RequestInfo.{RequestInfo}
use zdm_proxy.Requests.Context.{FramePointer, RequestContext, new_request_context}
use zdm_proxy.Lifecycle.{Table, held, get_or_create_holder, store_request}
use zdm_proxy.Lifecycle.Holders.{held-insert, held-get_or_create}

abbrev pub waiting : FramePointer → RequestInfo → RequestContext
waiting req info = record (new_request_context req info) { timer = some true }

-- A request that is stored found the holder of its stream id empty, and is there now, new.
pub stored_waits :
    (ctx : ℕ) (req : FramePointer) (info : RequestInfo) (t : Table)
    → (store_request ctx req info t).1 ≡ true
    → (held req.frame.header.stream_id t.holders ≡ none)
      × (held req.frame.header.stream_id (store_request ctx req info t).0.holders ≡ some ctx)
      × (lookup ctx (store_request ctx req info t).0.contexts ≡ some (waiting req info))
unfolding store_request
stored_waits ctx req info t stored =
    let k = req.frame.header.stream_id in
    let holders = get_or_create_holder k t.holders in
    elim (Option-cases (held k holders)) [
      | inr (other, e) ↦ absurd (ground (arith, e, stored))
      | inl e ↦ (
        ground (arith, e, held-get_or_create k k t.holders),
        ground (arith, e, held-insert k k (some ctx) holders, int_beq_iff k k),
        ground (arith, e, lookup-insert ctx ctx (waiting req info) t.contexts, eqb_iff ctx ctx),
      )
    ]
