-- ===== src/Execution.antt =====
-- proxy/pkg/zdmproxy/clienthandler.go: the frames that a request becomes for each cluster, and the
-- answers to intercepted queries. The library's conversion of a frame with another message is the
-- parameter `convert`, and `get_time_uuid` is the generator of uuids behind its interface.
pub mod Intercepted
pub mod Frames
pub mod Batching
pub mod Virtual
mod Tests
mod PeersTest
use zdm_proxy.Prelude.{
  ℕ, zero, suc, Bool, true, false, ◌&&◌, ◌||◌, not, Option, none, some, List, [], ◌∷◌, String,
  nat_eq, if◌then◌else◌, Result, ok, err, ◌>>=◌,
}
use zdm_proxy.Protocol.{
  ForwardDecision, to_origin, to_target, to_both, to_none, to_async_only, ClusterType, origin,
  target, cluster_none, RawFrame, ProtocolVersions, decision_beq, cluster_beq,
}
use zdm_proxy.Query.{Term}
use zdm_proxy.RequestInfo.{
  RequestInfo, execute, PrepareRequestInfo, PreparedData, VariablesMetadata, get_forward_decision,
  should_also_be_sent_async,
}
use zdm_proxy.Messages.{
  Value, Message, ExecuteMessage, BatchMessage, BatchChild, Codec, FrameDecodeContext,
  get_or_decode_frame, RequestError,
}
use zdm_proxy.Parameters.{
  Uuid, ParameterError, generate_time_uuids, add_values_to_execute_frame, add_values_to_batch_child,
}

-- `panics` stands for a nil pointer or an index that Go refuses.
pub data ExecutionError : Type 0 where
  could_not_decode not_converted unexpected_message panics : ExecutionError
  could_not_add_values : ParameterError → ExecutionError

abbrev pub is_replaced : List Term → Bool
is_replaced [] = false
is_replaced (t ∷ terms) = true

-- Whether the async connector, of the cluster `async_cluster`, gets the request.
unfoldable pub goes_to_async : ForwardDecision → Bool → Option ClusterType → ClusterType → Bool
goes_to_async decision also_async none cluster = false
goes_to_async decision also_async (some async_cluster) cluster =
    (also_async || decision_beq decision to_async_only) && cluster_beq async_cluster cluster

-- Whether a frame for a cluster is needed.
unfoldable pub needs_origin : ForwardDecision → Bool → Option ClusterType → Bool
unfolding goes_to_async
needs_origin decision also_async async_cluster =
    decision_beq decision to_both
    || (decision_beq decision to_origin || goes_to_async decision also_async async_cluster origin)

unfoldable pub needs_target : ForwardDecision → Bool → Option ClusterType → Bool
unfolding goes_to_async
needs_target decision also_async async_cluster =
    decision_beq decision to_both
    || (decision_beq decision to_target || goes_to_async decision also_async async_cluster target)

module _ {S : Type 0} (get_time_uuid : S → Uuid × S) where
  -- generateTimeUuids, unless the uuids are there already.
  unfoldable pub uuids_or_generated :
      Option (List Uuid) → List Term → S → S × Result ExecutionError (List Uuid)
  uuids_or_generated (some us) terms s = (s, ok us)
  uuids_or_generated none terms s = elim (generate_time_uuids get_time_uuid terms s) [
    | none ↦ (s, err panics)
    | some (us, s') ↦ (s', ok us)
  ]

module _ (encode : Uuid → String → Option Value) where
  -- AddValuesToExecuteFrame on a copy of the client's message.
  unfoldable pub with_values :
      Message
      → PrepareRequestInfo
      → Option VariablesMetadata
      → List Uuid
      → Result ExecutionError ExecuteMessage
  with_values (Message.execute m) info none uuids = err panics
  with_values (Message.execute m) info (some metadata) uuids =
      elim (add_values_to_execute_frame encode m info metadata uuids) [
        | err e ↦ err (could_not_add_values e)
        | ok m' ↦ ok m'
      ]
  with_values m info metadata uuids = err unexpected_message

  -- The message for the target without values to add.
  abbrev pub execute_of : Message → Result ExecutionError ExecuteMessage
  execute_of (Message.execute m) = ok m
  execute_of m = err unexpected_message

abbrev pub converted : Option RawFrame → Result ExecutionError RawFrame
converted none = err not_converted
converted (some f) = ok f

module _ (encode : Uuid → String → Option Value) (convert : RawFrame → Message → Option RawFrame)
    (d : PreparedData) (f : RawFrame) (m : Message) where
  open d use {
    prepare_request_info, origin_variables_metadata, target_variables_metadata, target_prepared_id,
  }

  unfoldable pub origin_execute : List Uuid → Result ExecutionError RawFrame
  origin_execute uuids = do
    m' ← with_values encode m prepare_request_info origin_variables_metadata uuids
    converted (convert f (Message.execute m'))

  -- The target's prepared id takes the place of the origin's.
  abbrev pub for_target : ExecuteMessage → Message
  for_target m' = Message.execute (record m' { query_id = target_prepared_id })

  unfoldable pub target_execute : List Uuid → Result ExecutionError RawFrame
  target_execute uuids = do
    m' ← with_values encode m prepare_request_info target_variables_metadata uuids
    converted (convert f (for_target m'))

  unfoldable pub target_execute_as_is : Result ExecutionError RawFrame
  target_execute_as_is = execute_of encode m >>= λ m'. converted (convert f (for_target m'))

  module _ {S : Type 0} (get_time_uuid : S → Uuid × S) where
    -- The frame for the origin and, if they were generated, the uuids.
    unfoldable pub origin_part :
        Bool → S → S × Result ExecutionError (RawFrame × Option (List Uuid))
    unfolding uuids_or_generated
    origin_part needed s =
        let (s', r) = uuids_or_generated get_time_uuid none prepare_request_info.replaced_terms s in
        if needed && is_replaced prepare_request_info.replaced_terms
        then (s', (r >>= λ us. origin_execute us >>= λ g. ok (g, some us)))
        else (s, ok (f, none))

    unfoldable pub target_part : Bool → Option (List Uuid) → S → S × Result ExecutionError RawFrame
    unfolding uuids_or_generated
    target_part needed uuids s =
        let (s', r) =
          uuids_or_generated get_time_uuid uuids prepare_request_info.replaced_terms s in
        if needed
        then (if is_replaced prepare_request_info.replaced_terms
            then (s', (r >>= λ us. target_execute us))
            else (s, target_execute_as_is))
        else (s, ok f)

    -- handleExecuteRequest of a decoded frame that is not intercepted: the frames for origin and target.
    unfoldable pub handle_execute_request :
        Option ClusterType → S → S × Result ExecutionError (RawFrame × RawFrame)
    handle_execute_request async_cluster s =
        let info = execute d in
        let decision = get_forward_decision info in
        let also_async = should_also_be_sent_async info in
        let (s', r) = origin_part (needs_origin decision also_async async_cluster) s in
        elim r [
          | err e ↦ (s', err e)
          | ok (g, us) ↦
              let (s'', r') = target_part (needs_target decision also_async async_cluster) us s' in
              (s'', (r' >>= λ h. ok (g, h)))
        ]

-- Children[index], changed; an index out of range panics.
unfoldable pub change_child :
    ℕ
    → (BatchChild → Result ExecutionError BatchChild)
    → List BatchChild
    → Result ExecutionError (List BatchChild)
change_child index change [] = err panics
change_child zero change (c ∷ children) = change c >>= λ c'. ok (c' ∷ children)
change_child (suc index) change (c ∷ children) =
    change_child index change children >>= λ cs. ok (c ∷ cs)

module _ (encode : Uuid → String → Option Value) where
  -- addValuesToBatchChild of a prepared statement.
  unfoldable pub child_with_values :
      PreparedData
      → Option VariablesMetadata
      → List Uuid
      → BatchChild
      → Result ExecutionError BatchChild
  child_with_values d none uuids child = err panics
  child_with_values d (some metadata) uuids child =
      elim (add_values_to_batch_child encode child d.prepare_request_info metadata uuids) [
        | err e ↦ err (could_not_add_values e)
        | ok child' ↦ ok child'
      ]

  abbrev pub with_target_id : PreparedData → BatchChild → Result ExecutionError BatchChild
  with_target_id d child = ok (record child { id = some d.target_prepared_id })

  -- A round of the loop of handleBatchRequest with its uuids, on the target's children and, from the
  -- first statement with values to add on, the origin's.
  unfoldable pub batch_round :
      ℕ × PreparedData
      → List Uuid
      → List BatchChild
      → List BatchChild × Option (List BatchChild)
      → Result ExecutionError (List BatchChild × Option (List BatchChild))
  unfolding change_child child_with_values
  batch_round (index, d) uuids children (for_target, for_origin) =
      if is_replaced d.prepare_request_info.replaced_terms
      then (do
        t ← change_child index (child_with_values d d.target_variables_metadata uuids) for_target
        o ←
            change_child index (child_with_values d d.origin_variables_metadata uuids)
              (elim for_origin [ none ↦ children | some cs ↦ cs ])
        t' ← change_child index (with_target_id d) t
        ok (t', some o))
      else (change_child index (with_target_id d) for_target >>= λ t. ok (t, for_origin))

  module _ {S : Type 0} (get_time_uuid : S → Uuid × S) where
    -- The loop ranges over a map, whose order Go leaves open.
    unfoldable pub batch_rounds :
        List (ℕ × PreparedData)
        → List BatchChild
        → List BatchChild × Option (List BatchChild)
        → S
        → S × Result ExecutionError (List BatchChild × Option (List BatchChild))
    unfolding batch_round uuids_or_generated
    batch_rounds [] children built s = (s, ok built)
    batch_rounds ((index, d) ∷ entries) children built s =
        let terms = d.prepare_request_info.replaced_terms in
        let (s', r) =
          uuids_or_generated get_time_uuid (if is_replaced terms then none else some []) terms s in
        elim (r >>= λ us. batch_round (index, d) us children built) [
          | err e ↦ (s', err e)
          | ok built' ↦ batch_rounds entries children built' s'
        ]

    unfoldable pub handle_batch_request :
        (RawFrame → Message → Option RawFrame)
        → List (ℕ × PreparedData)
        → RawFrame
        → Message
        → S
        → S × Result ExecutionError (RawFrame × RawFrame)
    unfolding batch_rounds
    handle_batch_request convert entries f (Message.batch b) s =
        let (s', r) = batch_rounds entries b.children (b.children, none) s in
        (
          s',
          (r >>= λ built.
              let batch_of : List BatchChild → Message =
                λ cs. Message.batch (record b { children = cs }) in
              let for_origin : Result ExecutionError RawFrame = elim built.1 [
                | none ↦ ok f
                | some cs ↦ converted (convert f (batch_of cs))
              ] in
              for_origin >>= λ g. converted (convert f (batch_of built.0)) >>= λ h. ok (g, h)),
        )
    handle_batch_request convert entries f m s = (s, err unexpected_message)
