-- ===== src/Lifecycle/Phases.antt =====
-- clienthandler.go: the invariant of the goroutines of requests, kept by what each of their steps changes.
use zdm_proxy.Prelude.{
  ℕ, ◌+◌, ◌-◌, ◌≡◌, Bool, true, false, ◌&&◌, Option, none, some, is_some, List, [], ◌∷◌, ◌++◌, ℤ,
  int_eq, nat_eq, int_beq, int_beq_iff, eqb, eqb_iff, lookup, insert, lookup-insert, if◌then◌else◌,
  arith, inl, inr, Option-cases,
}
use zdm_proxy.Requests.Context.{RequestContext, is_pending}
use zdm_proxy.Lifecycle.{Outcome, held, get_or_create_holder, clear_holder}
use zdm_proxy.Lifecycle.Holders.{held-insert, held-get_or_create, held-clear}
use zdm_proxy.Lifecycle.Interleaving.{
  Stage, waiting, to_clear, to_send, to_leave, over, Phase, System, with_stage,
}

-- How often something has become of the request at the address.
abbrev pub outcomes_of : ℕ → List (ℕ × Outcome) → ℕ
outcomes_of ctx [] = 0
outcomes_of ctx ((at, a) ∷ rest) = (if eqb at ctx then 1 else 0) + outcomes_of ctx rest

outcomes_of-append :
    (ctx at : ℕ) (a : Outcome) (l : List (ℕ × Outcome))
    → outcomes_of ctx (l ++ ((at, a) ∷ [])) ≡ outcomes_of ctx l + (if eqb at ctx then 1 else 0)
outcomes_of-append ctx at a [] = omega arith
outcomes_of-append ctx at a ((b, x) ∷ l) = ground (arith, outcomes_of-append ctx at a l)

abbrev pub weight_of : Option RequestContext → ℕ
weight_of none = 0
weight_of (some c) = if is_pending c.state then 1 else 0

abbrev pub waits_in : Stage → ℕ
waits_in waiting = 1
waits_in _ = 0

abbrev pub sent_in : Stage → ℕ
sent_in to_leave = 1
sent_in over = 1
sent_in _ = 0

abbrev pub active_in : Stage → ℕ
active_in over = 0
active_in _ = 1

abbrev pub holds_in : Stage → Bool
holds_in waiting = true
holds_in to_clear = true
holds_in _ = false

abbrev pub waits_by : Option Phase → ℕ
waits_by none = 0
waits_by (some ph) = waits_in ph.stage

-- Whether the outcome of a request has been sent.
abbrev pub sent_by : Option Phase → ℕ
sent_by none = 0
sent_by (some ph) = sent_in ph.stage

abbrev active_by : Option Phase → ℕ
active_by none = 0
active_by (some ph) = active_in ph.stage

abbrev pub holds_by : ℤ → Option Phase → Bool
holds_by k none = false
holds_by k (some ph) = int_beq ph.stream_id k && holds_in ph.stage

-- The requests that have not ended.
abbrev pub active : List (ℕ × Phase) → ℕ
active [] = 0
active ((ctx, ph) ∷ rest) = active_in ph.stage + active rest

active-insert :
    (ctx : ℕ) (ph : Phase) (phases : List (ℕ × Phase))
    → active (insert ctx ph phases) + active_by (lookup ctx phases)
      ≡ active phases + active_in ph.stage
unfolding lookup insert
active-insert ctx ph [] = omega arith
active-insert ctx ph ((at, d) ∷ rest) = ground (arith, active-insert ctx ph rest)

-- What the invariant is about.
pub record Core : Type 0 where
  pub holders : List (ℤ × Option ℕ)
  pub contexts : List (ℕ × RequestContext)
  pub requests_in_flight : ℕ
  pub outcomes : List (ℕ × Outcome)
  pub phases : List (ℕ × Phase)

abbrev pub core : System → Core
core s = record {
  holders = s.table.holders;
  contexts = s.table.contexts;
  requests_in_flight = s.table.requests_in_flight;
  outcomes = s.table.outcomes;
  phases = s.phases;
}

pub record Inv (t : Core) : Type 0 where
  pub sent : (ctx : ℕ) → outcomes_of ctx t.outcomes ≡ sent_by (lookup ctx t.phases)
  pub pending : (ctx : ℕ) → weight_of (lookup ctx t.contexts) ≡ waits_by (lookup ctx t.phases)
  pub known : (ctx : ℕ) → is_some (lookup ctx t.contexts) ≡ is_some (lookup ctx t.phases)
  pub counted : t.requests_in_flight ≡ active t.phases
  pub holds :
      (k : ℤ) (ctx : ℕ) → held k t.holders ≡ some ctx → holds_by k (lookup ctx t.phases) ≡ true

module _ (t : Core) (v : Inv t) where
  pub created-Inv : (k : ℤ) → Inv (record t { holders = get_or_create_holder k t.holders })
  created-Inv k = record {
    sent = v.sent;
    pending = v.pending;
    known = v.known;
    counted = v.counted;
    holds = λ j ctx h. ground (arith, h, held-get_or_create k j t.holders, v.holds j ctx);
  }

  pub stored-Inv :
      (k : ℤ) (ctx : ℕ) (c : RequestContext)
      → lookup ctx t.contexts ≡ none
      → is_pending c.state ≡ true
      → Inv (record t {
        holders = insert k (some ctx) t.holders;
        contexts = insert ctx c t.contexts;
        requests_in_flight = t.requests_in_flight + 1;
        phases = insert ctx (record { stream_id = k; stage = waiting }) t.phases;
      })
  stored-Inv k ctx c new pend =
      let ph : Phase = record { stream_id = k; stage = waiting } in
      let free : lookup ctx t.phases ≡ none = elim (Option-cases (lookup ctx t.phases)) [
        | inl n ↦ n
        | inr (p, n) ↦ absurd (ground (arith, v.known ctx, n, new))
      ] in
      record {
        sent = λ a. ground (arith, v.sent a, free, lookup-insert ctx a ph t.phases, eqb_iff ctx a);
        pending = λ a. ground (
          arith,
          v.pending a,
          pend,
          lookup-insert ctx a ph t.phases,
          lookup-insert ctx a c t.contexts,
        );
        known = λ a.
            ground
              (arith, v.known a, lookup-insert ctx a ph t.phases, lookup-insert ctx a c t.contexts);
        counted = ground (arith, v.counted, free, active-insert ctx ph t.phases);
        holds = λ j a h. ground (
          arith,
          h,
          free,
          held-insert k j (some ctx) t.holders,
          int_beq_iff k j,
          lookup-insert ctx a ph t.phases,
          eqb_iff ctx a,
          v.holds j a,
        );
      }

  -- A context that changes, and stays pending if it was.
  pub kept-Inv :
      (ctx : ℕ) (c c' : RequestContext)
      → lookup ctx t.contexts ≡ some c
      → is_pending c'.state ≡ is_pending c.state
      → Inv (record t { contexts = insert ctx c' t.contexts })
  kept-Inv ctx c c' found same = record {
    sent = v.sent;
    pending = λ a.
        ground (arith, v.pending a, found, same, lookup-insert ctx a c' t.contexts, eqb_iff ctx a);
    known = λ a. ground (arith, v.known a, found, lookup-insert ctx a c' t.contexts, eqb_iff ctx a);
    counted = v.counted;
    holds = v.holds;
  }

  -- A context that changes, with the phase of its request.
  pub event-Inv :
      (ctx : ℕ) (ph ph' : Phase) (c c' : RequestContext)
      → lookup ctx t.phases ≡ some ph
      → lookup ctx t.contexts ≡ some c
      → ph'.stream_id ≡ ph.stream_id
      → (if is_pending c'.state then 1 else 0) ≡ waits_in ph'.stage
      → sent_in ph'.stage ≡ sent_in ph.stage
      → active_in ph'.stage ≡ active_in ph.stage
      → holds_in ph'.stage ≡ holds_in ph.stage
      → Inv (record t { contexts = insert ctx c' t.contexts; phases = insert ctx ph' t.phases })
  event-Inv ctx ph ph' c c' at found same waits sent active holds = record {
    sent = λ a. ground (arith, v.sent a, at, sent, lookup-insert ctx a ph' t.phases, eqb_iff ctx a);
    pending = λ a. ground (
      arith,
      v.pending a,
      waits,
      lookup-insert ctx a ph' t.phases,
      lookup-insert ctx a c' t.contexts,
    );
    known = λ a.
        ground
          (arith, v.known a, lookup-insert ctx a ph' t.phases, lookup-insert ctx a c' t.contexts);
    counted = ground (arith, v.counted, at, active, active-insert ctx ph' t.phases);
    holds = λ j a h.
        ground
          (arith, at, same, holds, v.holds j a h, lookup-insert ctx a ph' t.phases, eqb_iff ctx a);
  }

  pub cleared-Inv :
      (ctx : ℕ) (ph : Phase)
      → lookup ctx t.phases ≡ some ph
      → ph.stage ≡ to_clear
      → Inv (record t {
        holders = clear_holder ph.stream_id ctx t.holders;
        phases = with_stage ctx ph to_send t.phases;
      })
  cleared-Inv ctx ph at stage =
      let ph' : Phase = record ph { stage = to_send } in
      record {
        sent = λ a.
            ground (arith, v.sent a, at, stage, lookup-insert ctx a ph' t.phases, eqb_iff ctx a);
        pending = λ a.
            ground (arith, v.pending a, at, stage, lookup-insert ctx a ph' t.phases, eqb_iff ctx a);
        known = λ a. ground (arith, v.known a, at, lookup-insert ctx a ph' t.phases, eqb_iff ctx a);
        counted = ground (arith, v.counted, at, stage, active-insert ctx ph' t.phases);
        holds = λ j a h. ground (
          arith,
          h,
          at,
          held-clear ph.stream_id j ctx t.holders,
          int_beq_iff ph.stream_id j,
          lookup-insert ctx a ph' t.phases,
          eqb_iff ctx a,
          v.holds j a,
        );
      }

  pub sent-Inv :
      (ctx : ℕ) (ph : Phase) (a : Outcome) (contexts : List (ℕ × RequestContext))
      → lookup ctx t.phases ≡ some ph
      → ph.stage ≡ to_send
      → ((b : ℕ) → weight_of (lookup b contexts) ≡ weight_of (lookup b t.contexts))
      → ((b : ℕ) → is_some (lookup b contexts) ≡ is_some (lookup b t.contexts))
      → Inv (record t {
        contexts = contexts;
        outcomes = t.outcomes ++ ((ctx, a) ∷ []);
        phases = with_stage ctx ph to_leave t.phases;
      })
  sent-Inv ctx ph a contexts at stage weighs knows =
      let ph' : Phase = record ph { stage = to_leave } in
      record {
        sent = λ b. ground (
          arith,
          v.sent b,
          at,
          stage,
          lookup-insert ctx b ph' t.phases,
          outcomes_of-append b ctx a t.outcomes,
          eqb_iff ctx b,
        );
        pending = λ b. ground (
          arith,
          v.pending b,
          weighs b,
          at,
          stage,
          lookup-insert ctx b ph' t.phases,
          eqb_iff ctx b,
        );
        known = λ b.
            ground (arith, v.known b, knows b, at, lookup-insert ctx b ph' t.phases, eqb_iff ctx b);
        counted = ground (arith, v.counted, at, stage, active-insert ctx ph' t.phases);
        holds = λ j b h.
            ground
              (arith, at, stage, v.holds j b h, lookup-insert ctx b ph' t.phases, eqb_iff ctx b);
      }

  pub left-Inv :
      (ctx : ℕ) (ph : Phase)
      → lookup ctx t.phases ≡ some ph
      → ph.stage ≡ to_leave
      → Inv (record t {
        requests_in_flight = t.requests_in_flight - 1;
        phases = with_stage ctx ph over t.phases;
      })
  left-Inv ctx ph at stage =
      let ph' : Phase = record ph { stage = over } in
      record {
        sent = λ a.
            ground (arith, v.sent a, at, stage, lookup-insert ctx a ph' t.phases, eqb_iff ctx a);
        pending = λ a.
            ground (arith, v.pending a, at, stage, lookup-insert ctx a ph' t.phases, eqb_iff ctx a);
        known = λ a. ground (arith, v.known a, at, lookup-insert ctx a ph' t.phases, eqb_iff ctx a);
        counted = ground (arith, v.counted, at, stage, active-insert ctx ph' t.phases);
        holds = λ j b h.
            ground
              (arith, at, stage, v.holds j b h, lookup-insert ctx b ph' t.phases, eqb_iff ctx b);
      }
