-- ===== src/Requests/Pending.antt =====
-- pendingrequests.go and requestContextHolder of requestcontext.go: the requests that the async
-- connector waits for. Contexts are shared with timers, so they stand on a heap under their address.
use zdm_proxy.Prelude.{
  ℕ, Bool, true, false, Option, none, some, List, [], ◌∷◌, ◌++◌, ℤ, eqb, int_eq, nat_eq,
  if◌then◌else◌, lookup, insert,
}
use zdm_proxy.Requests.Context.{
  AsyncRequestContext, NodeMetrics, async_set_timeout, async_cancel, async_set_response,
}

-- A holder is the address of its context, or `none` where it is empty; it stays in the map for good.
pub record PendingRequests : Type 0 where
  pub contexts : List (ℕ × AsyncRequestContext)
  pub pending : List (ℤ × Option ℕ)
  pub node_metrics : NodeMetrics

abbrev pub content : Option (Option ℕ) → Option ℕ
content none = none
content (some holder) = holder

-- requestContextHolder.Get, of the holder of a stream id.
unfoldable pub held : ℤ → PendingRequests → Option ℕ
held stream_id p = content (lookup stream_id p.pending)

unfoldable pub get_or_create_request_context_holder : ℤ → PendingRequests → PendingRequests
get_or_create_request_context_holder stream_id p = elim (lookup stream_id p.pending) [
  | some _ ↦ p
  | none ↦ record p { pending = insert stream_id none p.pending }
]

-- requestContextHolder.SetIfEmpty; `false` for the error.
unfoldable pub set_if_empty : ℤ → ℕ → PendingRequests → PendingRequests × Bool
unfolding held
set_if_empty stream_id ctx p = elim (held stream_id p) [
  | some _ ↦ (p, false)
  | none ↦ (record p { pending = insert stream_id (some ctx) p.pending }, true)
]

-- requestContextHolder.Clear; `false` for either error.
unfoldable pub clear_pending_request_state : ℤ → ℕ → PendingRequests → PendingRequests × Bool
unfolding held
clear_pending_request_state stream_id ctx p = elim (held stream_id p) [
  | none ↦ (p, false)
  | some other ↦
      if eqb other ctx
      then (record p { pending = insert stream_id none p.pending }, true)
      else (p, false)
]

-- A method of the context at an address. The code holds only addresses of contexts that exist.
unfoldable pub on_context :
    (AsyncRequestContext × NodeMetrics → AsyncRequestContext × NodeMetrics × Bool)
    → ℕ
    → PendingRequests
    → PendingRequests × Bool
on_context method ctx p = elim (lookup ctx p.contexts) [
  | none ↦ (p, false)
  | some c ↦
      let (c', m', finished) = method (c, p.node_metrics) in
      (record p { contexts = insert ctx c' p.contexts; node_metrics = m' }, finished)
]

unfoldable pub store : ℤ → ℕ → PendingRequests → PendingRequests × Bool
unfolding get_or_create_request_context_holder set_if_empty
store stream_id ctx p =
    set_if_empty stream_id ctx (get_or_create_request_context_holder stream_id p)

-- What timeOut, cancel and markAsDone share: the method, and if it reports the outcome, the slot.
unfoldable pub finish_by :
    (AsyncRequestContext × NodeMetrics → AsyncRequestContext × NodeMetrics × Bool)
    → ℤ
    → ℕ
    → PendingRequests
    → PendingRequests × Bool
unfolding on_context clear_pending_request_state
finish_by method stream_id ctx p =
    let (p', finished) = on_context method ctx p in
    if finished then ((clear_pending_request_state stream_id ctx p').0, true) else (p', false)

unfoldable pub time_out : ℤ → ℕ → PendingRequests → PendingRequests × Bool
unfolding get_or_create_request_context_holder finish_by
time_out stream_id ctx p =
    finish_by async_set_timeout stream_id ctx (get_or_create_request_context_holder stream_id p)

unfoldable pub cancel : ℤ → ℕ → PendingRequests → PendingRequests × Bool
unfolding get_or_create_request_context_holder finish_by
cancel stream_id ctx p =
    finish_by async_cancel stream_id ctx (get_or_create_request_context_holder stream_id p)

unfoldable pub mark_as_done : ℤ → PendingRequests → PendingRequests × Option ℕ × Bool
unfolding get_or_create_request_context_holder held finish_by
mark_as_done stream_id p =
    let p' = get_or_create_request_context_holder stream_id p in
    elim (held stream_id p') [
      | none ↦ (p', none, false)
      | some ctx ↦
          let (p'', finished) = finish_by async_set_response stream_id ctx p' in
          (p'', some ctx, finished)
    ]

-- The function that clear passes to Range, with the contexts that it hands to onCancelFunc.
unfoldable pub cancel_slot : ℤ → PendingRequests → PendingRequests × List ℕ
unfolding held finish_by
cancel_slot stream_id p = elim (held stream_id p) [
  | none ↦ (p, [])
  | some ctx ↦
      let (p', canceled) = finish_by async_cancel stream_id ctx p in
      (p', if canceled then ctx ∷ [] else [])
]

-- Range visits every key of the map; a slot is read when it is visited.
unfoldable pub clear_range : List (ℤ × Option ℕ) → PendingRequests → PendingRequests × List ℕ
unfolding cancel_slot
clear_range [] p = (p, [])
clear_range ((stream_id, _) ∷ rest) p =
    let (p', ctxs) = cancel_slot stream_id p in
    let (p'', others) = clear_range rest p' in (p'', ctxs ++ others)

unfoldable pub clear : PendingRequests → PendingRequests × List ℕ
unfolding clear_range
clear p = clear_range p.pending p
