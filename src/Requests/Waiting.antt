-- ===== src/Requests/Waiting.antt =====
-- pendingrequests.go: every operation keeps the slots for requests that wait, and a request that is
-- over cannot disturb the one that has taken its stream id since.
use zdm_proxy.Prelude.{
  ℕ, ◌≡◌, ◌≢◌, refl, sym, ap, ◌∙◌, subst, Bool, true, false, Option, none, some, List, [], ◌∷◌, ℤ,
  int_beq, int_beq_iff, eqb, int_eq, nat_eq, if◌then◌else◌, ◌⊎◌, inl, inr, Bool-cases, lookup,
  Option-cases, arith,
}
use zdm_proxy.Requests.Context.{
  AsyncRequestContext, NodeMetrics, async_set_timeout, async_cancel, async_set_response,
}
use zdm_proxy.Requests.Pending.{
  PendingRequests, held, get_or_create_request_context_holder, set_if_empty, store, finish_by,
  time_out, cancel, mark_as_done, cancel_slot, clear_range, clear,
}
use zdm_proxy.Requests.Slots.{
  waits, held-get_or_create, contexts-get_or_create, held-set_if_empty, contexts-set_if_empty,
  set_if_empty_full, Finishes, set_timeout-Finishes, cancel-Finishes, set_response-Finishes,
  finish_by-reports, waits-finish_by, held-finish_by, held-finish_by_other,
}

-- `home` gives the stream id under which a context is stored; the code passes the two together.
pub record Inv (home : ℕ → ℤ) (p : PendingRequests) : Type 0 where
  pub homes : (k : ℤ) (ctx : ℕ) → held k p ≡ some ctx → home ctx ≡ k
  pub waiting : (k : ℤ) (ctx : ℕ) → held k p ≡ some ctx → waits ctx p ≡ true

slot_cases : (k : ℤ) (ctx : ℕ) (p : PendingRequests) → (held k p ≡ some ctx) ⊎ (held k p ≢ some ctx)
slot_cases k ctx p = elim (Option-cases (held k p)) [
  | inl e ↦ inr (λ h. cc)
  | inr (other, e) ↦ elim (Bool-cases (eqb other ctx)) [
    | inl same ↦ inl (ground arith)
    | inr differs ↦ inr (λ h. ground arith)
  ]
]

module _ (home : ℕ → ℤ) where
  create-Inv :
      (k : ℤ) (p : PendingRequests)
      → Inv home p
      → Inv home (get_or_create_request_context_holder k p)
  create-Inv k p v = record {
    homes = λ j ctx h. v.homes j ctx (sym (held-get_or_create k j p) ∙ h);
    waiting = λ j ctx h. ground (
      arith,
      v.waiting j ctx (sym (held-get_or_create k j p) ∙ h),
      ap (lookup ctx) (contexts-get_or_create k p),
    );
  }

  -- What a slot holds after a context has been finished, it held before, and it is another context.
  still_held :
      (method : AsyncRequestContext × NodeMetrics → AsyncRequestContext × NodeMetrics × Bool)
      → Finishes method
      → (ctx : ℕ) (p : PendingRequests) (j : ℤ) (other : ℕ) → Inv home p
      → held j (finish_by method (home ctx) ctx p).0 ≡ some other
      → (held j p ≡ some other) × (other ≢ ctx)
  still_held method fin ctx p j other v h = elim (slot_cases (home ctx) ctx p) [
    | inl own ↦ ground (
      arith,
      held-finish_by method fin (home ctx) j ctx p own (v.waiting (home ctx) ctx own),
      v.homes j other,
      int_beq_iff (home ctx) j,
    )
    | inr foreign ↦ ground (
      arith,
      held-finish_by_other method fin (home ctx) j ctx p (inl foreign),
      v.homes j other,
      int_beq_iff (home ctx) j,
    )
  ]

  finish_by-Inv :
      (method : AsyncRequestContext × NodeMetrics → AsyncRequestContext × NodeMetrics × Bool)
      → Finishes method
      → (ctx : ℕ) (p : PendingRequests) → Inv home p
      → Inv home (finish_by method (home ctx) ctx p).0
  finish_by-Inv method fin ctx p v = record {
    homes = λ j other h. v.homes j other (still_held method fin ctx p j other v h).0;
    waiting = λ j other h.
        let (before, ne) = still_held method fin ctx p j other v h in
        ground
          (arith, ne, v.waiting j other before, waits-finish_by method fin (home ctx) ctx other p);
  }

  set_if_empty-Inv :
      (ctx : ℕ) (p : PendingRequests)
      → Inv home p
      → waits ctx p ≡ true
      → Inv home (set_if_empty (home ctx) ctx p).0
  set_if_empty-Inv ctx p v w = elim (Option-cases (held (home ctx) p)) [
    | inr (other, e) ↦ rw (set_if_empty_full (home ctx) ctx p other e) v
    | inl e ↦ record {
      homes = λ j c h.
          ground
            (arith, held-set_if_empty (home ctx) j ctx p e, v.homes j c, int_beq_iff (home ctx) j);
      waiting = λ j c h. ground (
        arith,
        held-set_if_empty (home ctx) j ctx p e,
        v.waiting j c,
        ap (lookup c) (contexts-set_if_empty (home ctx) ctx p),
      );
    }
  ]

  -- A slot is taken only by a context that waits, under its own stream id.
  store-Inv :
      (ctx : ℕ) (p : PendingRequests)
      → Inv home p
      → waits ctx p ≡ true
      → Inv home (store (home ctx) ctx p).0
  unfolding store
  store-Inv ctx p v w =
      set_if_empty-Inv ctx _ (create-Inv (home ctx) p v)
        (ground (arith, ap (lookup ctx) (contexts-get_or_create (home ctx) p)))

  time_out-Inv :
      (ctx : ℕ) (p : PendingRequests) → Inv home p → Inv home (time_out (home ctx) ctx p).0
  unfolding time_out
  time_out-Inv ctx p v =
      finish_by-Inv async_set_timeout set_timeout-Finishes ctx _ (create-Inv (home ctx) p v)

  cancel-Inv : (ctx : ℕ) (p : PendingRequests) → Inv home p → Inv home (cancel (home ctx) ctx p).0
  unfolding cancel
  cancel-Inv ctx p v = finish_by-Inv async_cancel cancel-Finishes ctx _ (create-Inv (home ctx) p v)

  mark_as_done-Inv : (k : ℤ) (p : PendingRequests) → Inv home p → Inv home (mark_as_done k p).0
  unfolding mark_as_done
  mark_as_done-Inv k p v =
      let p' = get_or_create_request_context_holder k p in
      let v' : Inv home p' = create-Inv k p v in
      elim (Option-cases (held k p')) [
        | inl e ↦ rw (e, mark_as_done) v'
        | inr (ctx, e) ↦
            rw (e, mark_as_done)
              (subst (λ j. Inv home (finish_by async_set_response j ctx p').0) (v'.homes k ctx e)
                (finish_by-Inv async_set_response set_response-Finishes ctx p' v'))
      ]

  cancel_slot-Inv : (k : ℤ) (p : PendingRequests) → Inv home p → Inv home (cancel_slot k p).0
  unfolding cancel_slot
  cancel_slot-Inv k p v = elim (Option-cases (held k p)) [
    | inl e ↦ rw (e, cancel_slot) v
    | inr (ctx, e) ↦
        rw (e, cancel_slot)
          (subst (λ j. Inv home (finish_by async_cancel j ctx p).0) (v.homes k ctx e)
            (finish_by-Inv async_cancel cancel-Finishes ctx p v))
  ]

  -- The visit of a slot empties it, and fills none.
  held-cancel_slot :
      (k j : ℤ) (p : PendingRequests)
      → Inv home p
      → held j (cancel_slot k p).0 ≡ (if int_beq k j then none else held j p)
  unfolding cancel_slot
  held-cancel_slot k j p v = elim (Option-cases (held k p)) [
    | inl e ↦ ground (arith, int_beq_iff k j)
    | inr (ctx, e) ↦
        rw (e, cancel_slot)
          (held-finish_by async_cancel cancel-Finishes k j ctx p e (v.waiting k ctx e))
  ]

  clear_range-Inv :
      (es : List (ℤ × Option ℕ)) (p : PendingRequests) → Inv home p → Inv home (clear_range es p).0
  unfolding clear_range
  clear_range-Inv [] p v = v
  clear_range-Inv ((k, _) ∷ es) p v = clear_range-Inv es (cancel_slot k p).0 (cancel_slot-Inv k p v)

  clear_range_empties :
      (es : List (ℤ × Option ℕ)) (j : ℤ) (p : PendingRequests)
      → Inv home p
      → (held j p ≡ none) ⊎ (lookup j es ≢ none)
      → held j (clear_range es p).0 ≡ none
  unfolding clear_range lookup
  clear_range_empties [] j p v (inl h) = h
  clear_range_empties [] j p v (inr h) = absurd (h refl)
  clear_range_empties ((k, o) ∷ es) j p v h =
      clear_range_empties es j (cancel_slot k p).0 (cancel_slot-Inv k p v)
        (elim (Bool-cases (int_beq k j)) [
          | inl same ↦ inl (ground (arith, held-cancel_slot k j p v))
          | inr differs ↦ elim h [
            | inl e ↦ inl (ground (arith, held-cancel_slot k j p v))
            | inr n ↦ inr (λ m. n (ground arith))
          ]
        ])

  -- Under the invariant, after clear no slot holds a request.
  pub clear_empties : (j : ℤ) (p : PendingRequests) → Inv home p → held j (clear p).0 ≡ none
  unfolding clear held
  clear_empties j p v =
      clear_range_empties p.pending j p v (elim (Option-cases (lookup j p.pending)) [
        | inl e ↦ inl (rw e)
        | inr (o, e) ↦ inr (λ m. cc)
      ])

-- The calls of the async connector. A context is stored, timed out and canceled under its own id.
pub data Operation : Type 0 where
  stores times_out cancels : ℕ → Operation
  receives : ℤ → Operation
  clears : Operation

unfoldable pub perform : (ℕ → ℤ) → Operation → PendingRequests → PendingRequests
perform home (stores ctx) p = (store (home ctx) ctx p).0
perform home (times_out ctx) p = (time_out (home ctx) ctx p).0
perform home (cancels ctx) p = (cancel (home ctx) ctx p).0
perform home (receives k) p = (mark_as_done k p).0
perform home clears p = (clear p).0

-- Only a context that still waits is stored: sendAsyncRequestToCluster stores a new one.
abbrev pub Allowed : Operation → PendingRequests → Type 0
Allowed (stores ctx) p = waits ctx p ≡ true
Allowed _ p = Unit

-- Every operation keeps it so that a slot holds only a request that waits, stored under the stream
-- id of the slot, when a request that is stored still waits.
pub perform-Inv :
    (home : ℕ → ℤ) (op : Operation) (p : PendingRequests)
    → Inv home p
    → Allowed op p
    → Inv home (perform home op p)
unfolding perform
perform-Inv home (stores ctx) p v w = store-Inv home ctx p v w
perform-Inv home (times_out ctx) p v w = time_out-Inv home ctx p v
perform-Inv home (cancels ctx) p v w = cancel-Inv home ctx p v
perform-Inv home (receives k) p v w = mark_as_done-Inv home k p v
perform-Inv home clears p v w = unfold clear in clear_range-Inv home p.pending p v

-- A timeout that comes after the outcome of its request reports nothing and leaves every slot as it
-- is, whichever request holds the stream id by then.
pub late_time_out :
    (k : ℤ) (ctx : ℕ) (p : PendingRequests)
    → waits ctx p ≡ false
    → ((time_out k ctx p).1 ≡ false) × ((j : ℤ) → held j (time_out k ctx p).0 ≡ held j p)
unfolding time_out
late_time_out k ctx p over =
    let p' = get_or_create_request_context_holder k p in
    let over' : waits ctx p' ≡ false =
      ground (arith, ap (lookup ctx) (contexts-get_or_create k p)) in
    (
      finish_by-reports async_set_timeout set_timeout-Finishes k ctx p' ∙ over',
      λ j.
          held-finish_by_other async_set_timeout set_timeout-Finishes k j ctx p' (inr over')
          ∙ held-get_or_create k j p,
    )

-- Under the invariant, a response to a stored request reports that request as done, frees its slot,
-- and changes no other.
pub mark_as_done_lem :
    (home : ℕ → ℤ) (k : ℤ) (ctx : ℕ) (p : PendingRequests)
    → Inv home p
    → held k p ≡ some ctx
    → ((mark_as_done k p).1 ≡ some ctx)
      × ((mark_as_done k p).2 ≡ true)
      × ((j : ℤ) → held j (mark_as_done k p).0 ≡ (if int_beq k j then none else held j p))
unfolding mark_as_done
mark_as_done_lem home k ctx p v h =
    let p' = get_or_create_request_context_holder k p in
    let v' : Inv home p' = create-Inv home k p v in
    let e : held k p' ≡ some ctx = held-get_or_create k k p ∙ h in
    rw (e, mark_as_done)
      (
        refl,
        finish_by-reports async_set_response set_response-Finishes k ctx p' ∙ v'.waiting k ctx e,
        λ j. ground (
          arith,
          held-finish_by async_set_response set_response-Finishes k j ctx p' e (v'.waiting k ctx e),
          held-get_or_create k j p,
        ),
      )
