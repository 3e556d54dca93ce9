-- ===== src/Requests/Slots.antt =====
-- pendingrequests.go: a slot holds only a request that waits, and each outcome frees its own slot.
use zdm_proxy.Prelude.{
  ℕ, ◌≡◌, ◌≢◌, ap, Bool, true, false, Option, none, some, ℤ, int_beq, int_beq_iff, eqb, int_eq,
  nat_eq, if◌then◌else◌, ◌⊎◌, inl, inr, lookup, lookup-insert, Option-cases, arith,
}
use zdm_proxy.Requests.Context.{
  AsyncRequestContext, NodeMetrics, is_pending, async_set_timeout, async_cancel, async_set_response,
}
use zdm_proxy.Requests.Pending.{
  PendingRequests, held, get_or_create_request_context_holder, set_if_empty,
  clear_pending_request_state, on_context, finish_by,
}

-- Whether the context at an address still waits for its outcome.
abbrev pub found_waiting : Option AsyncRequestContext → Bool
found_waiting none = false
found_waiting (some c) = is_pending c.state

abbrev pub waits : ℕ → PendingRequests → Bool
waits ctx p = found_waiting (lookup ctx p.contexts)

pub held-get_or_create :
    (k j : ℤ) (p : PendingRequests) → held j (get_or_create_request_context_holder k p) ≡ held j p
unfolding held get_or_create_request_context_holder
held-get_or_create k j p = ground (arith, lookup-insert k j none p.pending, int_beq_iff k j)

pub contexts-get_or_create :
    (k : ℤ) (p : PendingRequests) → (get_or_create_request_context_holder k p).contexts ≡ p.contexts
unfolding get_or_create_request_context_holder
contexts-get_or_create k p = ground arith

pub held-set_if_empty :
    (k j : ℤ) (ctx : ℕ) (p : PendingRequests)
    → held k p ≡ none
    → held j (set_if_empty k ctx p).0 ≡ (if int_beq k j then some ctx else held j p)
unfolding held set_if_empty
held-set_if_empty k j ctx p h = ground (arith, lookup-insert k j (some ctx) p.pending)

pub contexts-set_if_empty :
    (k : ℤ) (ctx : ℕ) (p : PendingRequests) → (set_if_empty k ctx p).0.contexts ≡ p.contexts
unfolding set_if_empty
contexts-set_if_empty k ctx p = ground arith

pub set_if_empty_full :
    (k : ℤ) (ctx : ℕ) (p : PendingRequests) (other : ℕ)
    → held k p ≡ some other
    → set_if_empty k ctx p ≡ (p, false)
unfolding set_if_empty
set_if_empty_full k ctx p other h = ground arith

-- Clear empties the slot exactly if it holds that context.
pub held-clear :
    (k j : ℤ) (ctx : ℕ) (p : PendingRequests)
    → held k p ≡ some ctx
    → held j (clear_pending_request_state k ctx p).0 ≡ (if int_beq k j then none else held j p)
unfolding held clear_pending_request_state
held-clear k j ctx p h = ground (arith, lookup-insert k j none p.pending)

pub held-clear_other :
    (k j : ℤ) (ctx : ℕ) (p : PendingRequests)
    → held k p ≢ some ctx
    → held j (clear_pending_request_state k ctx p).0 ≡ held j p
unfolding held clear_pending_request_state
held-clear_other k j ctx p h = ground arith

pub contexts-clear :
    (k : ℤ) (ctx : ℕ) (p : PendingRequests)
    → (clear_pending_request_state k ctx p).0.contexts ≡ p.contexts
unfolding clear_pending_request_state
contexts-clear k ctx p = ground arith

-- A method that ends a waiting context, and reports whether it did.
pub record Finishes
    (method : AsyncRequestContext × NodeMetrics → AsyncRequestContext × NodeMetrics × Bool)
    : Type 0 where
  pub reports : (c : AsyncRequestContext) (m : NodeMetrics) → (method (c, m)).2 ≡ is_pending c.state
  pub ends :
      (c : AsyncRequestContext) (m : NodeMetrics) → is_pending (method (c, m)).0.state ≡ false

pub set_timeout-Finishes : Finishes async_set_timeout
unfolding async_set_timeout
set_timeout-Finishes = record { reports = λ c m. ground arith; ends = λ c m. ground arith }

pub cancel-Finishes : Finishes async_cancel
unfolding async_cancel
cancel-Finishes = record { reports = λ c m. ground arith; ends = λ c m. ground arith }

pub set_response-Finishes : Finishes async_set_response
unfolding async_set_response
set_response-Finishes = record { reports = λ c m. ground arith; ends = λ c m. ground arith }

module _ (method : AsyncRequestContext × NodeMetrics → AsyncRequestContext × NodeMetrics × Bool)
    (fin : Finishes method) where
  pub on_context-reports :
      (ctx : ℕ) (p : PendingRequests) → (on_context method ctx p).1 ≡ waits ctx p
  unfolding on_context
  on_context-reports ctx p = elim (Option-cases (lookup ctx p.contexts)) [
    | inl e ↦ ground arith
    | inr (c, e) ↦ ground (arith, fin.reports c p.node_metrics)
  ]

  pub waits-on_context :
      (ctx j : ℕ) (p : PendingRequests)
      → waits j (on_context method ctx p).0 ≡ (if eqb ctx j then false else waits j p)
  unfolding on_context
  waits-on_context ctx j p = elim (Option-cases (lookup ctx p.contexts)) [
    | inl e ↦ ground arith
    | inr (c, e) ↦ ground (
      arith,
      fin.ends c p.node_metrics,
      lookup-insert ctx j (method (c, p.node_metrics)).0 p.contexts,
    )
  ]

  pub held-on_context :
      (ctx : ℕ) (j : ℤ) (p : PendingRequests) → held j (on_context method ctx p).0 ≡ held j p
  unfolding on_context held
  held-on_context ctx j p = ground arith

  pub finish_by-reports :
      (k : ℤ) (ctx : ℕ) (p : PendingRequests) → (finish_by method k ctx p).1 ≡ waits ctx p
  unfolding finish_by
  finish_by-reports k ctx p = ground (arith, on_context-reports ctx p)

  pub waits-finish_by :
      (k : ℤ) (ctx j : ℕ) (p : PendingRequests)
      → waits j (finish_by method k ctx p).0 ≡ (if eqb ctx j then false else waits j p)
  unfolding finish_by
  waits-finish_by k ctx j p = ground (
    arith,
    waits-on_context ctx j p,
    ap (lookup j) (contexts-clear k ctx (on_context method ctx p).0),
  )

  -- The slot of a context that was waiting is emptied, and no other slot changes.
  pub held-finish_by :
      (k j : ℤ) (ctx : ℕ) (p : PendingRequests)
      → held k p ≡ some ctx
      → waits ctx p ≡ true
      → held j (finish_by method k ctx p).0 ≡ (if int_beq k j then none else held j p)
  unfolding finish_by
  held-finish_by k j ctx p h w = ground (
    arith,
    on_context-reports ctx p,
    held-on_context ctx k p,
    held-on_context ctx j p,
    held-clear k j ctx (on_context method ctx p).0,
  )

  -- No slot changes that does not hold the context, and none if the context was not waiting.
  pub held-finish_by_other :
      (k j : ℤ) (ctx : ℕ) (p : PendingRequests)
      → (held k p ≢ some ctx) ⊎ (waits ctx p ≡ false)
      → held j (finish_by method k ctx p).0 ≡ held j p
  unfolding finish_by
  held-finish_by_other k j ctx p (inl h) = ground (
    arith,
    held-on_context ctx k p,
    held-on_context ctx j p,
    held-clear_other k j ctx (on_context method ctx p).0,
  )
  held-finish_by_other k j ctx p (inr h) =
      ground (arith, on_context-reports ctx p, held-on_context ctx j p)
