-- ===== src/Forwarding/Decisions.antt =====
-- cqlparser.go: where requests go.
use text.Mathlib.Text.{starts_with}
use zdm_proxy.Prelude.{
  ℕ, [], ◌∷◌, ◌∙◌, ◌==◌, ◌≡◌, refl, sym, ap, subst, ◌⊎◌, inl, inr, Bool, true, false, ◌&&◌, ◌||◌,
  not, some, List, String, if◌then◌else◌, ok, arith, Result-cases, bytes_beq_iff, bytes_eq,
  string_eq,
}
use zdm_proxy.Protocol.{
  ForwardDecision, to_origin, to_target, to_both, to_none, ClusterType, cluster_none, origin,
  target, cluster_beq, OpCode, ProtocolVersions, RawFrame,
}
use zdm_proxy.Query.{QueryInfo}
use zdm_proxy.RequestInfo.{
  RequestInfo, BaseRequestInfo, PrepareRequestInfo, PreparedData, base, prepare, execute,
  get_forward_decision, should_also_be_sent_async, should_be_tracked_in_metrics,
}
use zdm_proxy.PreparedCache.{PreparedResult, PreparedStatementCache, get, store, new_prepared_data}
use zdm_proxy.PreparedCache.Index.{store_lookups}
use zdm_proxy.Messages.{
  Codec, Message, ExecuteMessage, PrepareMessage, QueryMessage, KeyspaceOption, request_keyspace,
  inspect_statements, statements_of, inspect_one, new_frame_decode_context, FrameDecodeContext,
  StatementReplacedTerms, get_or_decode_frame, get_or_inspect_statement,
}
use zdm_proxy.Forwarding.{
  get_request_info_from_query_info, is_select, is_use, is_system_query, is_system_local,
  is_system_peers_v1, is_system_peers_v2, is_system_keyspace, intercepted_query, select_info,
}
use zdm_proxy.Forwarding.Building.{
  Settings, single_replaced_terms, get_prepared_data, build_request_info, build_query_info,
  build_prepare_info, build_by_op_code, info_of_query, build_execute_info,
}

unfoldable pub one_cluster : Bool → ForwardDecision
one_cluster to_the_target = if to_the_target then to_target else to_origin

-- The specification of the routing, as a table of who gets a statement. It names the keyspaces and tables
-- by themselves.
abbrev pub keyspace_of : QueryInfo → String
keyspace_of q = if q.keyspace_name == "" then q.request_keyspace else q.keyspace_name

abbrev pub in_system : String → Bool
in_system keyspace =
    keyspace == "system" || (starts_with keyspace "system_" || starts_with keyspace "dse_")

abbrev pub kept_by_proxy : QueryInfo → Bool
kept_by_proxy q =
    keyspace_of q == "system"
    && (q.table_name == "local" || (q.table_name == "peers" || q.table_name == "peers_v2"))

unfoldable pub expected_decision : ClusterType → Bool → Bool → QueryInfo → ForwardDecision
expected_decision primary system_to_target virtualization q =
    if not (is_select q.statement_type)
    then to_both
    else if virtualization && kept_by_proxy q
    then to_none
    else if in_system (keyspace_of q)
    then (if system_to_target then to_target else to_origin)
    else (elim primary [ target ↦ to_target | _ ↦ to_origin ])

-- A statement that is no SELECT goes to both clusters. A SELECT from the tables local, peers or peers_v2 of
-- the keyspace system, which is the query's or else the request's, goes to none when virtualization is
-- on. Another one from a keyspace that is named system or begins with system_ or dse_ goes to the cluster
-- of the setting, and any other to the target if that is the primary, and to the origin if not.
pub routing :
    (primary : ClusterType) (system_to_target virtualization : Bool) (q : QueryInfo)
    → get_forward_decision
        (base (get_request_info_from_query_info primary system_to_target virtualization q))
      ≡ expected_decision primary system_to_target virtualization q
unfolding get_request_info_from_query_info get_forward_decision select_info expected_decision
    intercepted_query is_system_query is_system_keyspace is_system_local is_system_peers_v1
    is_system_peers_v2
routing cluster_none system_to_target virtualization q = ground arith
routing origin system_to_target virtualization q = ground arith
routing target system_to_target virtualization q = ground arith

-- A statement that goes on to the async connector is a USE, or a SELECT outside the system keyspaces
-- that goes to the primary cluster alone.
pub async_copies :
    (primary : ClusterType) (system_to_target virtualization : Bool) (q : QueryInfo)
    → let info =
        base (get_request_info_from_query_info primary system_to_target virtualization q) in
      should_also_be_sent_async info ≡ true
      → (is_use q.statement_type ≡ true)
        ⊎ ((is_select q.statement_type ≡ true)
            × (is_system_query q ≡ false)
            × (get_forward_decision info ≡ one_cluster (cluster_beq primary target)))
unfolding get_request_info_from_query_info get_forward_decision should_also_be_sent_async
    select_info one_cluster
async_copies primary system_to_target virtualization q h = ground arith

module _ (versions : ProtocolVersions) (codec : Codec) (settings : Settings) where
  -- The decisions for a text in a keyspace.
  abbrev of_text : PreparedStatementCache → List ℕ → KeyspaceOption → ℕ → String → BaseRequestInfo
  of_text psc text options version current =
      info_of_query versions codec settings psc
        (codec.inspect_cql_query text (request_keyspace versions codec version options current))

  prepared_base :
      (psc : PreparedStatementCache) (replaced : List StatementReplacedTerms) (current : String)
      (f : RawFrame) (m : PrepareMessage) (c' : FrameDecodeContext) (p : PrepareRequestInfo)
      → codec.decode f ≡ some (Message.prepare m)
      → build_prepare_info versions codec settings psc replaced current (new_frame_decode_context f)
        ≡ ok (prepare p, c')
      → p.base_request_info ≡ of_text psc m.query m.options f.header.version current
  unfolding build_prepare_info get_or_inspect_statement inspect_statements get_or_decode_frame
      statements_of inspect_one new_frame_decode_context
  prepared_base psc replaced current f m c' p decodes h =
      elim (Result-cases (single_replaced_terms replaced)) [
        | inr (e, k) ↦ absurd (ground (arith, decodes, h, k))
        | inl (terms, k) ↦ ground (arith, decodes, h, k)
      ]

  query_base :
      (psc : PreparedStatementCache) (current : String) (f : RawFrame) (m : QueryMessage)
      → codec.decode f ≡ some (Message.query m)
      → (c'' : FrameDecodeContext) × (build_query_info versions codec settings psc current
            (new_frame_decode_context f)
          ≡ ok (base (of_text psc m.query m.options f.header.version current), c''))
  unfolding build_query_info get_or_inspect_statement inspect_statements get_or_decode_frame
      statements_of inspect_one new_frame_decode_context
  query_base psc current f m decodes = (
    record {
      frame = f;
      decoded_frame = some (Message.query m);
      statements_query_data =
          inspect_one versions codec 0 m.query
            (request_keyspace versions codec f.header.version m.options current)
          ∷ [];
    },
    ground (arith, decodes),
  )

  executed :
      (psc : PreparedStatementCache) (current : String) (c c' : FrameDecodeContext)
      (e : ExecuteMessage) (d : PreparedData)
      → get_or_decode_frame versions codec c ≡ ok (Message.execute e, c')
      → get e.query_id psc ≡ some d
      → build_execute_info versions codec settings psc c ≡ ok (execute d, c')
  unfolding build_execute_info get_prepared_data
  executed psc current c c' e d h g = ground arith

  -- When a PREPARE frame has been taken apart and the clusters' answers stored, an EXECUTE of the origin's
  -- id gets the decisions that a QUERY frame with the same text gets, of the same version, keyspace option
  -- and current keyspace: which clusters, whether a copy goes to the async connector, and whether it is
  -- counted.
  pub execute_like_query :
      (psc psc' : PreparedStatementCache) (replaced others more : List StatementReplacedTerms)
      (current now : String) (f h : RawFrame) (m : PrepareMessage) (n : QueryMessage)
      (c' x x' : FrameDecodeContext) (p : PrepareRequestInfo)
      (from_origin from_target : PreparedResult) (e : ExecuteMessage)
      → f.header.op_code ≡ OpCode.prepare
      → codec.decode f ≡ some (Message.prepare m)
      → build_request_info versions codec settings psc replaced current (new_frame_decode_context f)
        ≡ ok (prepare p, c')
      → h.header.op_code ≡ OpCode.query
      → codec.decode h ≡ some (Message.query n)
      → n.query ≡ m.query
      → n.options ≡ m.options
      → h.header.version ≡ f.header.version
      → x.frame.header.op_code ≡ OpCode.execute
      → get_or_decode_frame versions codec x ≡ ok (Message.execute e, x')
      → e.query_id ≡ from_origin.prepared_query_id
      → (q : RequestInfo) × (i : RequestInfo) × (c'' : FrameDecodeContext) × (build_request_info
            versions codec settings psc' others current
            (new_frame_decode_context h)
          ≡ ok (q, c''))
        × (build_request_info versions codec settings
              (store from_origin from_target p psc)
              more
              now
              x
            ≡ ok (i, x'))
        × (get_forward_decision i ≡ get_forward_decision q)
        × (should_also_be_sent_async i ≡ should_also_be_sent_async q)
        × (should_be_tracked_in_metrics i ≡ should_be_tracked_in_metrics q)
  unfolding build_request_info get_forward_decision should_also_be_sent_async
      should_be_tracked_in_metrics new_frame_decode_context
  execute_like_query psc psc' replaced others more current now f h m n c' x x' p o t e is_prepare
        decodes built is_query decodes' text options version is_execute decoded same =
      let b = prepared_base psc replaced current f m c' p decodes (
        subst
          (λ op.
            build_by_op_code versions codec settings psc op replaced current
              (new_frame_decode_context f)
            ≡ ok (prepare p, c'))
          is_prepare built) in
      let (c'', q) = query_base psc' current h n decodes' in
      let same_base : of_text psc' n.query n.options h.header.version current
          ≡ p.base_request_info =
        ground (arith, b, text, options, version) in
      let d = new_prepared_data o t p in
      let g : get e.query_id (store o t p psc) ≡ some d = ground (
        arith,
        (store_lookups psc o t p).0 e.query_id,
        bytes_beq_iff o.prepared_query_id o.prepared_query_id,
      ) in
      (
        base p.base_request_info,
        execute d,
        c'',
        subst
            (λ op.
              build_by_op_code versions codec settings psc' op others current
                (new_frame_decode_context h)
              ≡ ok (base p.base_request_info, c''))
            (sym is_query) (q ∙ ap (λ i. ok (base i, c'')) same_base),
        subst
            (λ op.
              build_by_op_code versions codec settings (store o t p psc) op more now x
              ≡ ok (execute d, x'))
            (sym is_execute) (executed (store o t p psc) current x x' e d decoded g),
        refl,
        refl,
        refl,
      )
