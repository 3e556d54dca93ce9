-- ===== src/Execution/PeersTest.antt =====
-- A PREPARE of SELECT rpc_address FROM system.peers, and its EXECUTE, with two proxy instances.
use zdm_proxy.Prelude.{
  ℕ, ◌≡◌, refl, Option, none, some, List, [], ◌∷◌, String, string_eq, ok, lookup,
}
use zdm_proxy.Protocol.{RawFrame}
use zdm_proxy.Query.{id_selector, SelectClause}
use zdm_proxy.RequestInfo.{intercepted, peers_v1, PrepareRequestInfo, PreparedData}
use zdm_proxy.PreparedCache.{
  PreparedStatementCache, new_prepared_statement_cache, get, get_by_target_prepared_id,
}
use zdm_proxy.Samples.{query_frame, prepare_info}
use zdm_proxy.SystemTables.{
  DataType, SystemColumn, peers_column, inet, filter_system_columns, filter_selectors,
  column_from_selector, find_column_metadata, unaliased_column_name_from_selector,
}
use zdm_proxy.SystemTables.Values.{
  Cell, address, HostRow, get_filtered_system_values, selector_values, add_system_column_value,
  add_found, add_column_helper, add_to_later_row, system_value, virtual_value,
}
use zdm_proxy.SystemTables.Results.{
  rows, prepared, new_system_peers_result, peer_rows, peer_data, encode_rows_result, encode_rows,
  encode_row, encode_prepared_result,
}
use zdm_proxy.Execution.Intercepted.{
  Tables, InterceptedMessage, system_result, handle_prepare_request, handle_intercepted_execute,
}
use zdm_proxy.Execution.Virtual.{peers_prepared_then_executed}

abbrev instance_row : ℕ → HostRow
instance_row n = record {
  addr = n ∷ [];
  host_id = [];
  tokens = [];
  rack = "rack1";
  partitioner = "Murmur3Partitioner";
  datacenter = "dc1";
  schema_version = none;
  column_data = [];
}

abbrev encode_address : DataType → Cell → Option (Option (List ℕ))
encode_address t c = elim c [ address a ↦ some (some a) | _ ↦ some none ]

abbrev clause : SelectClause
clause = record { selectors = some (id_selector "rpc_address" ∷ []) }

abbrev known_tables : Tables
known_tables = record {
  virtual_hosts = some (instance_row 1 ∷ instance_row 2 ∷ []);
  peers_column_names = [];
  local_column_data = [];
  local_virtual_host_index = 1;
}

abbrev peers_info : PrepareRequestInfo
peers_info = record prepare_info {
  base_request_info = intercepted peers_v1 (some clause);
  query = 3 ∷ [];
}

abbrev hash : List ℕ → List ℕ
hash l = 77 ∷ l

abbrev no_codes : String → List ℕ
no_codes s = []

abbrev convert_any : RawFrame → InterceptedMessage → Option RawFrame
convert_any f m = some f

abbrev shown : List SystemColumn
shown = peers_column "rpc_address" inet ∷ []

peers_prepared :
    new_system_peers_result encode_address hash no_codes
      (some peers_info)
      ""
      []
      9042
      clause
      []
      (instance_row 1 ∷ instance_row 2 ∷ [])
      1
    ≡ ok (prepared (77 ∷ 3 ∷ []) shown)
unfolding new_system_peers_result peer_rows peer_data encode_rows_result encode_rows encode_row
    filter_system_columns filter_selectors column_from_selector find_column_metadata
    get_filtered_system_values selector_values add_system_column_value add_found add_column_helper
    add_to_later_row system_value virtual_value unaliased_column_name_from_selector
    encode_prepared_result
peers_prepared = refl

peers_prepared_then_executed_example :
    (psc' : PreparedStatementCache) × (d : PreparedData) × (handle_prepare_request encode_address
        hash no_codes known_tables 9042 convert_any peers_info query_frame ""
        new_prepared_statement_cache
      ≡ ok (some query_frame, none, psc'))
    × (get (77 ∷ 3 ∷ []) psc' ≡ some d)
    × ((t : List ℕ)
        → get_by_target_prepared_id t psc'
          ≡ get_by_target_prepared_id t new_prepared_statement_cache)
    × ((f' g' : RawFrame) (keyspace' : String) (columns' : List SystemColumn)
          (cells : List (List (Option (List ℕ))))
        → new_system_peers_result encode_address hash no_codes none keyspace' [] 9042 clause []
            (instance_row 1 ∷ instance_row 2 ∷ [])
            1
          ≡ ok (rows columns' cells)
        → convert_any f' (system_result (rows columns' cells)) ≡ some g'
        → handle_intercepted_execute encode_address hash no_codes known_tables 9042 convert_any d f'
            keyspace' psc'
          ≡ ok (g', psc'))
peers_prepared_then_executed_example =
    peers_prepared_then_executed encode_address hash no_codes known_tables 9042 convert_any
      peers_info clause (instance_row 1 ∷ instance_row 2 ∷ []) query_frame query_frame ""
      new_prepared_statement_cache (77 ∷ 3 ∷ []) shown refl refl peers_prepared refl
      (unfold lookup in refl)
