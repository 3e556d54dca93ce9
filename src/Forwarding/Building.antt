-- ===== src/Forwarding/Building.antt =====
-- cqlparser.go: buildRequestInfo, the request info of a frame.
use zdm_proxy.Prelude.{
  ℕ, Bool, true, false, none, some, List, [], ◌∷◌, String, length, if◌then◌else◌, Result, ok, err,
  ◌>>=◌, suc,
}
use zdm_proxy.Protocol.{to_origin, to_target, to_both, ClusterType, OpCode, ProtocolVersions}
use zdm_proxy.Query.{Term, QueryInfo}
use zdm_proxy.RequestInfo.{
  RequestInfo, BaseRequestInfo, PreparedData, base, prepare, execute, batch,
}
use zdm_proxy.PreparedCache.{PreparedStatementCache, get}
use zdm_proxy.Messages.{
  Codec, Message, BatchChild, FrameDecodeContext, StatementReplacedTerms, RequestError,
  unexpected_message, replaced_terms_count, unprepared, get_or_decode_frame,
  get_or_inspect_statement,
}
use zdm_proxy.Forwarding.{get_request_info_from_query_info, generic_info}

-- What buildRequestInfo takes from the client handler's settings.
pub record Settings : Type 0 where
  pub primary_cluster : ClusterType
  pub forward_system_queries_to_target : Bool
  pub virtualization_enabled : Bool
  pub forward_auth_to_target : Bool

-- A miss is an UnpreparedExecuteError.
unfoldable pub get_prepared_data :
    PreparedStatementCache → List ℕ → Result RequestError PreparedData
get_prepared_data psc id = elim (get id psc) [ none ↦ err (unprepared id) | some d ↦ ok d ]

-- The prepared data of the children that have an id, by the child's index.
unfoldable pub prepared_children :
    PreparedStatementCache → ℕ → List BatchChild → Result RequestError (List (ℕ × PreparedData))
unfolding get_prepared_data
prepared_children psc index [] = ok []
prepared_children psc index (child ∷ rest) =
    let others = prepared_children psc (suc index) rest in
    elim child.id [
      | none ↦ others
      | some id ↦ get_prepared_data psc id >>= λ d. others >>= λ ds. ok ((index, d) ∷ ds)
    ]

abbrev pub single_replaced_terms : List StatementReplacedTerms → Result RequestError (List Term)
single_replaced_terms [] = ok []
single_replaced_terms (s ∷ []) = ok s.replaced_terms
single_replaced_terms (s ∷ t ∷ rest) = err (replaced_terms_count (length (s ∷ t ∷ rest)))

module _ (versions : ProtocolVersions) (codec : Codec) (settings : Settings)
    (psc : PreparedStatementCache) where
  open settings use {
    primary_cluster, forward_system_queries_to_target, virtualization_enabled,
    forward_auth_to_target,
  }

  abbrev pub info_of_query : QueryInfo → BaseRequestInfo
  info_of_query =
      get_request_info_from_query_info primary_cluster forward_system_queries_to_target
        virtualization_enabled

  abbrev pub Built : Type 0
  Built = Result RequestError (RequestInfo × FrameDecodeContext)

  unfoldable pub build_query_info : String → FrameDecodeContext → Built
  build_query_info current c = do
    (s, c') ← get_or_inspect_statement versions codec current c
    ok (base (info_of_query s.query_data), c')

  unfoldable pub build_prepare_info :
      List StatementReplacedTerms → String → FrameDecodeContext → Built
  build_prepare_info replaced current c = do
    (s, c') ← get_or_inspect_statement versions codec current c
    (m, c'') ← get_or_decode_frame versions codec c'
    elim m [
      | Message.prepare p ↦ single_replaced_terms replaced >>= λ terms. ok (
        prepare (record {
          base_request_info = info_of_query s.query_data;
          replaced_terms = terms;
          contains_positional_markers = s.query_data.positional_bind_markers;
          query = p.query;
          keyspace = p.options.keyspace;
        }),
        c'',
      )
      | _ ↦ err unexpected_message
    ]

  unfoldable pub build_batch_info : FrameDecodeContext → Built
  unfolding prepared_children
  build_batch_info c = do
    (m, c') ← get_or_decode_frame versions codec c
    elim m [
      | Message.batch b ↦ prepared_children psc 0 b.children >>= λ ds. ok (batch ds, c')
      | _ ↦ err unexpected_message
    ]

  unfoldable pub build_execute_info : FrameDecodeContext → Built
  unfolding get_prepared_data
  build_execute_info c = do
    (m, c') ← get_or_decode_frame versions codec c
    elim m [
      | Message.execute e ↦ get_prepared_data psc e.query_id >>= λ d. ok (execute d, c')
      | _ ↦ err unexpected_message
    ]

  abbrev pub build_by_op_code :
      OpCode → List StatementReplacedTerms → String → FrameDecodeContext → Built
  build_by_op_code OpCode.query replaced current c = build_query_info current c
  build_by_op_code OpCode.prepare replaced current c = build_prepare_info replaced current c
  build_by_op_code OpCode.batch replaced current c = build_batch_info c
  build_by_op_code OpCode.execute replaced current c = build_execute_info c
  build_by_op_code OpCode.auth_response replaced current c =
      ok (
        base (generic_info (if forward_auth_to_target then to_target else to_origin) false false),
        c,
      )
  build_by_op_code OpCode.register replaced current c =
      ok (base (generic_info to_both false false), c)
  build_by_op_code OpCode.startup replaced current c =
      ok (base (generic_info to_both false false), c)
  build_by_op_code _ replaced current c = ok (base (generic_info to_both true false), c)

  unfoldable pub build_request_info :
      List StatementReplacedTerms → String → FrameDecodeContext → Built
  unfolding build_query_info build_prepare_info build_batch_info build_execute_info
  build_request_info replaced current c = build_by_op_code c.frame.header.op_code replaced current c
