-- ===== src/Execution/Virtual.antt =====
-- clienthandler.go: a PREPARE of a query of system.peers, which the proxy answers by itself.
use zdm_proxy.Prelude.{
  ℕ, ◌≡◌, Option, none, some, List, String, bytes_beq_iff, bytes_eq, lookup, lookup-insert, Result,
  ok, arith,
}
use zdm_proxy.Protocol.{RawFrame}
use zdm_proxy.Query.{SelectClause}
use zdm_proxy.RequestInfo.{peers_v1, intercepted, PrepareRequestInfo, PreparedData}
use zdm_proxy.PreparedCache.{
  PreparedResult, PreparedStatementCache, new_prepared_data, store_intercepted, get,
  get_by_target_prepared_id,
}
use zdm_proxy.SystemTables.{DataType, SystemError, SystemColumn}
use zdm_proxy.SystemTables.Values.{Cell, HostRow}
use zdm_proxy.SystemTables.Results.{SystemResult, rows, prepared, new_system_peers_result}
use zdm_proxy.Execution.Intercepted.{
  Tables, InterceptedMessage, system_result, store_answer, peers_answer, handle_intercepted_request,
  handle_prepare_request, handle_intercepted_execute,
}

module _ (encode_cell : DataType → Cell → Option (Option (List ℕ))) (md5_sum : List ℕ → List ℕ)
    (codes : String → List ℕ) (tables : Tables) (proxy_port : ℕ)
    (convert : RawFrame → InterceptedMessage → Option RawFrame) where
  abbrev peers_result :
      Option PrepareRequestInfo
      → String
      → SelectClause
      → List HostRow
      → Result SystemError SystemResult
  peers_result info keyspace clause hosts =
      new_system_peers_result encode_cell md5_sum codes info keyspace tables.local_column_data
        proxy_port clause tables.peers_column_names hosts tables.local_virtual_host_index

  -- A PREPARE of a query of system.peers goes to no cluster. Its result's id finds the statement in the
  -- cache, unless a cluster gave the same id; what the ids of the target find is as before. An EXECUTE
  -- of what is found is answered with the query's rows, and leaves the cache as it is.
  pub peers_prepared_then_executed :
      (info : PrepareRequestInfo) (clause : SelectClause) (hosts : List HostRow) (f g : RawFrame)
      (keyspace : String) (psc : PreparedStatementCache) (id : List ℕ) (columns : List SystemColumn)
      → tables.virtual_hosts ≡ some hosts
      → info.base_request_info ≡ intercepted peers_v1 (some clause)
      → peers_result (some info) keyspace clause hosts ≡ ok (prepared id columns)
      → convert f (system_result (prepared id columns)) ≡ some g
      → lookup id psc.cache ≡ none
      → (psc' : PreparedStatementCache) × (d : PreparedData) × (handle_prepare_request encode_cell
            md5_sum codes tables proxy_port convert info f keyspace psc
          ≡ ok (some g, none, psc'))
        × (get id psc' ≡ some d)
        × ((t : List ℕ) → get_by_target_prepared_id t psc' ≡ get_by_target_prepared_id t psc)
        × ((f' g' : RawFrame) (keyspace' : String) (columns' : List SystemColumn)
              (cells : List (List (Option (List ℕ))))
            → peers_result none keyspace' clause hosts ≡ ok (rows columns' cells)
            → convert f' (system_result (rows columns' cells)) ≡ some g'
            → handle_intercepted_execute encode_cell md5_sum codes tables proxy_port convert d f'
                keyspace' psc'
              ≡ ok (g', psc'))
  unfolding handle_prepare_request handle_intercepted_execute handle_intercepted_request
      peers_answer store_answer store_intercepted get get_by_target_prepared_id
  peers_prepared_then_executed info clause hosts f g keyspace psc id columns known base answered
        sent new =
      let result : PreparedResult = record { prepared_query_id = id; variables_metadata = none } in
      let d = new_prepared_data result result info in
      (
        store_intercepted result info psc,
        d,
        ground (arith, known, base, answered, sent),
        ground (arith, new, lookup-insert id id d psc.intercepted_cache, bytes_beq_iff id id),
        λ t. ground arith,
        λ f' g' keyspace' columns' cells answered' sent'.
            ground (arith, known, base, answered', sent'),
      )
