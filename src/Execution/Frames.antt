-- ===== src/Execution/Frames.antt =====
-- clienthandler.go: handleExecuteRequest gives both clusters the same values, and each its own id.
use zdm_proxy.Prelude.{
  ◌≡◌, refl, true, false, Option, none, some, List, String, ok, ◌>>=◌, inl, inr, Option-cases,
  Result-cases, arith,
}
use zdm_proxy.Protocol.{to_both, ClusterType, RawFrame}
use zdm_proxy.RequestInfo.{
  execute, PreparedData, PrepareRequestInfo, VariablesMetadata, get_forward_decision,
  should_also_be_sent_async,
}
use zdm_proxy.Messages.{Value, Message, ExecuteMessage}
use zdm_proxy.Parameters.{Uuid, generate_time_uuids, add_values_to_execute_frame}
use zdm_proxy.Execution.{
  is_replaced, needs_origin, needs_target, uuids_or_generated, with_values, converted,
  origin_execute, target_execute, target_execute_as_is, origin_part, target_part,
  handle_execute_request,
}

with_values_lem :
    (encode : Uuid → String → Option Value) (e : ExecuteMessage) (info : PrepareRequestInfo)
    (metadata : Option VariablesMetadata) (us : List Uuid) (m' : ExecuteMessage)
    → with_values encode (Message.execute e) info metadata us ≡ ok m'
    → (v : VariablesMetadata) × (metadata ≡ some v)
      × (add_values_to_execute_frame encode e info v us ≡ ok m')
unfolding with_values
with_values_lem encode e info none us m' h = cc
with_values_lem encode e info (some v) us m' h =
    elim (Result-cases (add_values_to_execute_frame encode e info v us)) [
      | inr (q, n) ↦ absurd (ground (arith, n, h))
      | inl (w, n) ↦ (v, refl, ground (arith, n, h))
    ]

converted_lem : (o : Option RawFrame) (f : RawFrame) → converted o ≡ ok f → o ≡ some f
converted_lem none f h = cc
converted_lem (some g) f h = ground (arith, h)

module _ {S : Type 0} (encode : Uuid → String → Option Value)
    (convert : RawFrame → Message → Option RawFrame) (d : PreparedData) (f : RawFrame)
    (e : ExecuteMessage) (get_time_uuid : S → Uuid × S) (async_cluster : Option ClusterType) where
  abbrev info : PrepareRequestInfo
  info = d.prepare_request_info

  -- A message for a cluster: the client's with the values for its metadata.
  abbrev pub IsCompleted : Option VariablesMetadata → List Uuid → ExecuteMessage → Type 0
  IsCompleted metadata us m' =
      (v : VariablesMetadata) × (metadata ≡ some v)
      × (add_values_to_execute_frame encode e info v us ≡ ok m')

  origin_execute_lem :
      (us : List Uuid) (g : RawFrame)
      → origin_execute encode convert d f (Message.execute e) us ≡ ok g
      → (m' : ExecuteMessage) × IsCompleted d.origin_variables_metadata us m'
        × (convert f (Message.execute m') ≡ some g)
  unfolding origin_execute
  origin_execute_lem us g h =
      elim (Result-cases
        (with_values encode (Message.execute e) info d.origin_variables_metadata us)) [
          | inr (q, n) ↦ absurd (ground (arith, n, h))
          | inl (m', n) ↦ (
            m',
            with_values_lem encode e info d.origin_variables_metadata us m' n,
            converted_lem (convert f (Message.execute m')) g (ground (arith, n, h)),
          )
        ]

  target_execute_lem :
      (us : List Uuid) (g : RawFrame)
      → target_execute encode convert d f (Message.execute e) us ≡ ok g
      → (m' : ExecuteMessage) × IsCompleted d.target_variables_metadata us m'
        × (convert f (Message.execute (record m' { query_id = d.target_prepared_id })) ≡ some g)
  unfolding target_execute
  target_execute_lem us g h =
      elim (Result-cases
        (with_values encode (Message.execute e) info d.target_variables_metadata us)) [
          | inr (q, n) ↦ absurd (ground (arith, n, h))
          | inl (m', n) ↦ (
            m',
            with_values_lem encode e info d.target_variables_metadata us m' n,
            converted_lem
                (convert f (Message.execute (record m' { query_id = d.target_prepared_id }))) g
                (ground (arith, n, h)),
          )
        ]

  -- An EXECUTE for both clusters of a statement with replaced calls, if it succeeds, has generated
  -- uuids once: the origin's frame has the client's message completed with them by the origin's
  -- metadata, and the target's frame the message completed with the same uuids by the target's
  -- metadata and with the target's prepared id.
  pub same_values_for_both :
      (s s' : S) (g h : RawFrame)
      → get_forward_decision (execute d) ≡ to_both
      → is_replaced info.replaced_terms ≡ true
      → handle_execute_request encode convert d f (Message.execute e) get_time_uuid async_cluster s
        ≡ (s', ok (g, h))
      → (us : List Uuid) × (for_origin : ExecuteMessage) × (for_target : ExecuteMessage)
        × (generate_time_uuids get_time_uuid info.replaced_terms s ≡ some (us, s'))
        × IsCompleted d.origin_variables_metadata us for_origin
        × IsCompleted d.target_variables_metadata us for_target
        × (convert f (Message.execute for_origin) ≡ some g)
        × (convert f (Message.execute (record for_target { query_id = d.target_prepared_id }))
            ≡ some h)
  unfolding handle_execute_request origin_part target_part needs_origin needs_target
      uuids_or_generated
  same_values_for_both s s' g h both replaced r =
      elim (Option-cases (generate_time_uuids get_time_uuid info.replaced_terms s)) [
        | inl n ↦ absurd (ground (arith, both, replaced, n, r))
        | inr ((us, t), n) ↦
            elim (Result-cases (origin_execute encode convert d f (Message.execute e) us)) [
              | inr (q, k) ↦ absurd (ground (arith, both, replaced, n, k, r))
              | inl (o, k) ↦
                  elim (Result-cases (target_execute encode convert d f (Message.execute e) us)) [
                    | inr (q, l) ↦ absurd (ground (arith, both, replaced, n, k, l, r))
                    | inl (w, l) ↦
                        let same : (t ≡ s') × (o ≡ g) × (w ≡ h) =
                          ground (arith, both, replaced, n, k, l, r) in
                        let (m, filled, sent) = origin_execute_lem us g (ground (arith, k, same)) in
                        let (m', filled', sent') =
                          target_execute_lem us h (ground (arith, l, same)) in
                        (us, m, m', ground (arith, n, same), filled, filled', sent, sent')
                  ]
            ]
      ]

  -- An EXECUTE of a statement without replaced calls that the target or its async connector gets leaves
  -- the client's frame to the origin, and changes nothing of the target's message but the prepared id.
  pub unreplaced_with_target :
      (s : S)
      → needs_target
          (get_forward_decision (execute d))
          (should_also_be_sent_async (execute d))
          async_cluster
        ≡ true
      → is_replaced info.replaced_terms ≡ false
      → handle_execute_request encode convert d f (Message.execute e) get_time_uuid async_cluster s
        ≡ (
          s,
          (converted (convert f (Message.execute (record e { query_id = d.target_prepared_id })))
              >>= λ h. ok (f, h)),
        )
  unfolding handle_execute_request origin_part target_part target_execute_as_is
  unreplaced_with_target s needed replaced = ground (arith, needed, replaced)

  pub unreplaced_for_both :
      (s : S)
      → get_forward_decision (execute d) ≡ to_both
      → is_replaced info.replaced_terms ≡ false
      → handle_execute_request encode convert d f (Message.execute e) get_time_uuid async_cluster s
        ≡ (
          s,
          (converted (convert f (Message.execute (record e { query_id = d.target_prepared_id })))
              >>= λ h. ok (f, h)),
        )
  unfolding needs_target
  unreplaced_for_both s both replaced = unreplaced_with_target s (ground (arith, both)) replaced
