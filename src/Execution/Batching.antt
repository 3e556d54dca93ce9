-- ===== src/Execution/Batching.antt =====
-- clienthandler.go: handleBatchRequest changes the ids of prepared children for the target alone.
use zdm_proxy.Prelude.{
  ℕ, zero, suc, ◌≡◌, refl, ◌⊎◌, Option, none, some, List, [], ◌∷◌, String, length, get_elem?, eqb,
  if◌then◌else◌, Result, ok, inl, inr, Option-cases, Result-cases, Bool-cases, arith,
}
use zdm_proxy.Protocol.{RawFrame}
use zdm_proxy.RequestInfo.{PreparedData, VariablesMetadata}
use zdm_proxy.Messages.{Value, Message, BatchMessage, BatchChild}
use zdm_proxy.Parameters.{Uuid, add_values_to_batch_child, add_positional_values_for_replaced_terms}
use zdm_proxy.Execution.{
  ExecutionError, is_replaced, uuids_or_generated, change_child, child_with_values, with_target_id,
  batch_round, batch_rounds, handle_batch_request,
}

-- The ids and the queries of children, in order.
abbrev pub id_at : ℕ → List BatchChild → Option (Option (List ℕ))
id_at j children = elim (get_elem? children j) [ none ↦ none | some c ↦ some c.id ]

abbrev pub query_at : ℕ → List BatchChild → Option (List ℕ)
query_at j children = elim (get_elem? children j) [ none ↦ none | some c ↦ some c.query ]

-- A change of a child to an id, or one that keeps it.
abbrev Gives : Option (Option (List ℕ)) → (BatchChild → Result ExecutionError BatchChild) → Type 0
Gives id change =
    (c c' : BatchChild)
    → change c ≡ ok c'
    → (c'.id ≡ elim id [ none ↦ c.id | some new ↦ new ]) × (c'.query ≡ c.query)

change_child_ids :
    (id : Option (Option (List ℕ))) (change : BatchChild → Result ExecutionError BatchChild)
    → Gives id change
    → (index j : ℕ) (cs cs' : List BatchChild) → change_child index change cs ≡ ok cs'
    → (id_at j cs'
        ≡ (if eqb index j then elim id [ none ↦ id_at j cs | some new ↦ some new ] else id_at j cs))
      × (query_at j cs' ≡ query_at j cs)
      × (length cs' ≡ length cs)
unfolding change_child
change_child_ids id change gives index j [] cs' e = cc
change_child_ids id change gives zero zero (c ∷ cs) cs' e = elim (Result-cases (change c)) [
  | inr (q, n) ↦ absurd (ground (arith, n, e))
  | inl (c', n) ↦ ground (arith, n, e, gives c c' n)
]
change_child_ids id change gives zero (suc j) (c ∷ cs) cs' e = elim (Result-cases (change c)) [
  | inr (q, n) ↦ absurd (ground (arith, n, e))
  | inl (c', n) ↦ ground (arith, n, e)
]
change_child_ids id change gives (suc index) zero (c ∷ cs) cs' e =
    elim (Result-cases (change_child index change cs)) [
      | inr (q, n) ↦ absurd (ground (arith, n, e))
      | inl (ds, n) ↦ ground (arith, n, e, change_child_ids id change gives index 0 cs ds n)
    ]
change_child_ids id change gives (suc index) (suc j) (c ∷ cs) cs' e =
    elim (Result-cases (change_child index change cs)) [
      | inr (q, n) ↦ absurd (ground (arith, n, e))
      | inl (ds, n) ↦ ground (arith, n, e, change_child_ids id change gives index j cs ds n)
    ]

module _ (encode : Uuid → String → Option Value) where
  with_values-Gives :
      (d : PreparedData) (metadata : Option VariablesMetadata) (us : List Uuid)
      → Gives none (child_with_values encode d metadata us)
  unfolding child_with_values add_values_to_batch_child
  with_values-Gives d none us c c' e = cc
  with_values-Gives d (some v) us c c' e =
      elim (Result-cases
        (add_positional_values_for_replaced_terms encode c.values d.prepare_request_info v us)) [
          | inr (q, n) ↦ absurd (ground (arith, n, e))
          | inl (vs, n) ↦ ground (arith, n, e)
        ]

  target_id-Gives :
      (d : PreparedData) → Gives (some (some d.target_prepared_id)) (with_target_id encode d)
  target_id-Gives d c c' e = ground (arith, e)

  -- The children of each cluster are the client's but for the values and, at the indices of prepared
  -- statements for the target, the ids.
  abbrev pub id_after :
      List (ℕ × PreparedData) → ℕ → Option (Option (List ℕ)) → Option (Option (List ℕ))
  id_after [] j id = id
  id_after ((index, d) ∷ entries) j id =
      id_after entries j (if eqb index j then some (some d.target_prepared_id) else id)

  abbrev or_else : List BatchChild → Option (List BatchChild) → List BatchChild
  or_else children none = children
  or_else children (some cs) = cs

  -- Against the client's children and the target's before.
  abbrev Built : List BatchChild → List BatchChild → Option (List BatchChild) → ℕ → Type 0
  Built children before for_origin j =
      (id_at j (or_else children for_origin) ≡ id_at j children)
      × (query_at j (or_else children for_origin) ≡ query_at j children)
      × (query_at j before ≡ query_at j children)

  batch_round_ids :
      (index j : ℕ) (d : PreparedData) (us : List Uuid) (children ts : List BatchChild)
      (os : Option (List BatchChild)) (r : List BatchChild × Option (List BatchChild))
      → Built children ts os j
      → batch_round encode (index, d) us children (ts, os) ≡ ok r
      → Built children r.0 r.1 j
        × (id_at j r.0 ≡ (if eqb index j then some (some d.target_prepared_id) else id_at j ts))
  unfolding batch_round
  batch_round_ids index j d us children ts os r h e =
      let id = some (some d.target_prepared_id) in
      let given = child_with_values encode d d.target_variables_metadata us in
      let given' = child_with_values encode d d.origin_variables_metadata us in
      let mine : List BatchChild = or_else children os in
      elim (Bool-cases (is_replaced d.prepare_request_info.replaced_terms)) [
        | inr b ↦ elim (Result-cases (change_child index (with_target_id encode d) ts)) [
          | inr (q, n) ↦ absurd (ground (arith, b, n, e))
          | inl (t, n) ↦ ground (
            arith,
            b,
            n,
            e,
            h,
            change_child_ids id (with_target_id encode d) (target_id-Gives d) index j ts t n,
          )
        ]
        | inl b ↦ elim (Result-cases (change_child index given ts)) [
          | inr (q, n) ↦ absurd (ground (arith, b, n, e))
          | inl (t, n) ↦ elim (Result-cases (change_child index given' mine)) [
            | inr (q, k) ↦ absurd (ground (arith, b, n, k, e))
            | inl (o, k) ↦ elim (Result-cases (change_child index (with_target_id encode d) t)) [
              | inr (q, l) ↦ absurd (ground (arith, b, n, k, l, e))
              | inl (t', l) ↦
                  let kept =
                    change_child_ids none given (with_values-Gives d d.target_variables_metadata us)
                      index j ts t n in
                  let kept' =
                    change_child_ids none given'
                      (with_values-Gives d d.origin_variables_metadata us) index j mine o k in
                  let set =
                    change_child_ids id (with_target_id encode d) (target_id-Gives d) index j t t'
                      l in
                  ground (arith, b, n, k, l, e, h, kept, kept', set)
            ]
          ]
        ]
      ]

  module _ {S : Type 0} (get_time_uuid : S → Uuid × S) where
    batch_rounds_ids :
        (entries : List (ℕ × PreparedData)) (j : ℕ) (children ts : List BatchChild)
        (os : Option (List BatchChild)) (s s' : S) (r : List BatchChild × Option (List BatchChild))
        → Built children ts os j
        → batch_rounds encode get_time_uuid entries children (ts, os) s ≡ (s', ok r)
        → Built children r.0 r.1 j × (id_at j r.0 ≡ id_after entries j (id_at j ts))
    unfolding batch_rounds
    batch_rounds_ids [] j children ts os s s' r h e = ground (arith, h, e)
    batch_rounds_ids ((index, d) ∷ entries) j children ts os s s' r h e =
        let terms = d.prepare_request_info.replaced_terms in
        let (t, u) =
          uuids_or_generated get_time_uuid (if is_replaced terms then none else some []) terms s in
        elim (Result-cases u) [
          | inr (q, n) ↦ absurd (ground (arith, n, e))
          | inl (us, n) ↦ elim (Result-cases (batch_round encode (index, d) us children (ts, os))) [
            | inr (q, k) ↦ absurd (ground (arith, n, k, e))
            | inl (next, k) ↦
                let (built, id) = batch_round_ids index j d us children ts os next h k in
                let rest =
                  batch_rounds_ids entries j children next.0 next.1 t s' r built
                    (ground (arith, n, k, e)) in
                ground (arith, rest, id)
          ]
        ]

    abbrev batch_of : BatchMessage → List BatchChild → Message
    batch_of b children = Message.batch (record b { children = children })

    frames_of :
        (convert : RawFrame → Message → Option RawFrame) (entries : List (ℕ × PreparedData))
        (f g h : RawFrame) (b : BatchMessage) (s s' : S) (ts : List BatchChild)
        (os : Option (List BatchChild))
        → (batch_rounds encode get_time_uuid entries b.children (b.children, none) s).1
          ≡ ok (ts, os)
        → handle_batch_request encode get_time_uuid convert entries f (Message.batch b) s
          ≡ (s', ok (g, h))
        → (convert f (batch_of b ts) ≡ some h)
          × ((g ≡ f) ⊎ (convert f (batch_of b (or_else b.children os)) ≡ some g))
    unfolding handle_batch_request
    frames_of convert entries f g h b s s' ts none n e =
        elim (Option-cases (convert f (batch_of b ts))) [
          | inl k ↦ absurd (ground (arith, n, k, e))
          | inr (h', k) ↦ (ground (arith, n, k, e), inl (ground (arith, n, k, e)))
        ]
    frames_of convert entries f g h b s s' ts (some cs) n e =
        elim (Option-cases (convert f (batch_of b cs))) [
          | inl l ↦ absurd (ground (arith, n, l, e))
          | inr (g', l) ↦ elim (Option-cases (convert f (batch_of b ts))) [
            | inl k ↦ absurd (ground (arith, n, l, k, e))
            | inr (h', k) ↦ (ground (arith, n, l, k, e), inr (ground (arith, n, l, k, e)))
          ]
        ]

    -- A BATCH that is handled becomes two: the target's, whose children have the client's queries, and
    -- the client's ids but at the indices of the prepared statements, where they have the target's; and
    -- the origin's, which is the client's frame or one whose children have the client's queries and ids.
    pub batch_ids :
        (convert : RawFrame → Message → Option RawFrame) (entries : List (ℕ × PreparedData))
        (f g h : RawFrame) (b : BatchMessage) (s s' : S)
        → handle_batch_request encode get_time_uuid convert entries f (Message.batch b) s
          ≡ (s', ok (g, h))
        → (ts : List BatchChild) × (os : List BatchChild) × (convert f
              (Message.batch (record b { children = ts }))
            ≡ some h)
          × ((g ≡ f) ⊎ (convert f (Message.batch (record b { children = os })) ≡ some g))
          × ((j : ℕ)
              → (id_at j ts ≡ id_after entries j (id_at j b.children))
                × (query_at j ts ≡ query_at j b.children)
                × (id_at j os ≡ id_at j b.children)
                × (query_at j os ≡ query_at j b.children))
    unfolding handle_batch_request
    batch_ids convert entries f g h b s s' e =
        let (t, built) =
          batch_rounds encode get_time_uuid entries b.children (b.children, none) s in
        elim (Result-cases built) [
          | inr (q, n) ↦ absurd (ground (arith, n, e))
          | inl ((ts, os), n) ↦
              let out = λ (j : ℕ).
                batch_rounds_ids entries j b.children b.children none s t (ts, os)
                  (refl, refl, refl) (ground (arith, n)) in
              let (sent, kept) = frames_of convert entries f g h b s s' ts os n e in
              (ts, or_else b.children os, sent, kept, λ j. ground (arith, out j))
        ]
