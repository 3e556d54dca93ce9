-- ===== src/Execution/Intercepted.antt =====
-- proxy/pkg/zdmproxy/clienthandler.go: handleInterceptedRequest and handlePrepareRequest. What the
-- control connection knows is `Tables`, and `convert` is the library's ConvertToRawFrame of a frame
-- with the version and stream id of the client's.
use zdm_proxy.Prelude.{ℕ, Option, none, some, List, String, get_elem?, Result, ok, err, ◌>>=◌}
use zdm_proxy.Protocol.{RawFrame}
use zdm_proxy.Query.{SelectClause}
use zdm_proxy.RequestInfo.{
  PreparedData, InterceptedQueryType, peers_v1, peers_v2, local, BaseRequestInfo, generic,
  intercepted, PrepareRequestInfo,
}
use zdm_proxy.PreparedCache.{PreparedStatementCache, store_intercepted}
use zdm_proxy.SystemTables.{DataType, SystemError, column_not_found}
use zdm_proxy.SystemTables.Values.{Cell, OptionalColumn, HostRow}
use zdm_proxy.SystemTables.Results.{
  SystemResult, prepared, new_system_local_result, new_system_peers_result,
}

-- GetVirtualHosts, `none` for its error, and the other getters of the control connection.
pub record Tables : Type 0 where
  pub virtual_hosts : Option (List HostRow)
  pub peers_column_names : List String
  pub local_column_data : List (String × OptionalColumn)
  pub local_virtual_host_index : ℕ

pub data InterceptedError : Type 0 where
  no_virtual_hosts no_select_clause not_intercepted not_converted index_panics : InterceptedError
  table_error : SystemError → InterceptedError

-- message.Invalid, of a missing table or column, or a result.
pub data InterceptedMessage : Type 0 where
  unconfigured_peers_v2 : InterceptedMessage
  undefined_column : String → InterceptedMessage
  system_result : SystemResult → InterceptedMessage

-- A column that is not found becomes an answer; any other error stays one.
abbrev pub answer_of : Result SystemError SystemResult → Result InterceptedError InterceptedMessage
answer_of (ok r) = ok (system_result r)
answer_of (err (column_not_found name)) = ok (undefined_column name)
answer_of (err e) = err (table_error e)

-- StoreIntercepted of a prepared result.
unfoldable pub store_answer :
    Option PrepareRequestInfo → InterceptedMessage → PreparedStatementCache → PreparedStatementCache
store_answer (some info) (system_result (prepared id columns)) psc =
    store_intercepted (record { prepared_query_id = id; variables_metadata = none }) info psc
store_answer _ _ psc = psc

module _ (encode_cell : DataType → Cell → Option (Option (List ℕ))) (md5_sum : List ℕ → List ℕ)
    (codes : String → List ℕ) (tables : Tables) (proxy_port : ℕ)
    (convert : RawFrame → InterceptedMessage → Option RawFrame) where
  open tables use {virtual_hosts, peers_column_names, local_column_data, local_virtual_host_index}

  unfoldable pub peers_answer :
      Option PrepareRequestInfo
      → String
      → Option SelectClause
      → List HostRow
      → Result InterceptedError InterceptedMessage
  peers_answer info keyspace none hosts = err no_select_clause
  peers_answer info keyspace (some clause) hosts = answer_of (
      new_system_peers_result encode_cell md5_sum codes info keyspace local_column_data proxy_port
        clause peers_column_names hosts local_virtual_host_index)

  unfoldable pub local_answer :
      Option PrepareRequestInfo
      → String
      → Option SelectClause
      → List HostRow
      → Result InterceptedError InterceptedMessage
  local_answer info keyspace none hosts = err no_select_clause
  local_answer info keyspace (some clause) hosts = elim (get_elem? hosts local_virtual_host_index) [
    | none ↦ err index_panics
    | some h ↦ answer_of (
        new_system_local_result encode_cell md5_sum codes info keyspace local_column_data proxy_port
          clause h)
  ]

  abbrev pub intercepted_answer :
      InterceptedQueryType
      → Option PrepareRequestInfo
      → String
      → Option SelectClause
      → List HostRow
      → Result InterceptedError InterceptedMessage
  intercepted_answer peers_v2 info keyspace clause hosts = ok unconfigured_peers_v2
  intercepted_answer peers_v1 info keyspace clause hosts = peers_answer info keyspace clause hosts
  intercepted_answer local info keyspace clause hosts = local_answer info keyspace clause hosts

  -- `info` is the request info of a PREPARE.
  unfoldable pub handle_intercepted_request :
      Option PrepareRequestInfo
      → BaseRequestInfo
      → RawFrame
      → String
      → PreparedStatementCache
      → Result InterceptedError (RawFrame × PreparedStatementCache)
  unfolding store_answer
  handle_intercepted_request info (generic g) f keyspace psc = err not_intercepted
  handle_intercepted_request info (intercepted type clause) f keyspace psc = elim virtual_hosts [
    | none ↦ err no_virtual_hosts
    | some hosts ↦ intercepted_answer type info keyspace clause hosts >>= λ m. elim (convert f m) [
      | none ↦ err not_converted
      | some g ↦ ok (g, store_answer info m psc)
    ]
  ]

  -- The client's response, if the statement is intercepted, and the frame for both clusters, if not.
  unfoldable pub handle_prepare_request :
      PrepareRequestInfo
      → RawFrame
      → String
      → PreparedStatementCache
      → Result InterceptedError (Option RawFrame × Option RawFrame × PreparedStatementCache)
  unfolding handle_intercepted_request
  handle_prepare_request info f keyspace psc = elim info.base_request_info [
    | generic g ↦ ok (none, some f, psc)
    | intercepted type clause ↦
        handle_intercepted_request (some info) (intercepted type clause) f keyspace psc >>= λ r.
        ok (some r.0, none, r.1)
  ]

  -- handleExecuteRequest of a statement whose decision is NONE. Its rows are not prepared.
  unfoldable pub handle_intercepted_execute :
      PreparedData
      → RawFrame
      → String
      → PreparedStatementCache
      → Result InterceptedError (RawFrame × PreparedStatementCache)
  unfolding handle_intercepted_request
  handle_intercepted_execute d f keyspace psc =
      handle_intercepted_request none d.prepare_request_info.base_request_info f keyspace psc
