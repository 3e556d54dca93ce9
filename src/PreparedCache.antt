-- ===== src/PreparedCache.antt =====
-- proxy/pkg/zdmproxy/pscache.go: the prepared statements that the proxy knows, by the id that the
-- origin gave them, with an index from the ids of the target. Every method holds the lock.
pub mod Index
mod Tests
use zdm_proxy.Prelude.{ℕ, ◌+◌, Option, none, some, List, [], bytes_eq, length, lookup, insert}
use zdm_proxy.RequestInfo.{PrepareRequestInfo, PreparedData, VariablesMetadata}

-- message.PreparedResult, of the protocol library: the parts that the proxy reads.
pub record PreparedResult : Type 0 where
  pub prepared_query_id : List ℕ
  pub variables_metadata : Option VariablesMetadata

pub record PreparedStatementCache : Type 0 where
  pub cache : List (List ℕ × PreparedData)
  pub index : List (List ℕ × List ℕ)
  pub intercepted_cache : List (List ℕ × PreparedData)

abbrev pub new_prepared_statement_cache : PreparedStatementCache
new_prepared_statement_cache = record { cache = []; index = []; intercepted_cache = [] }

unfoldable pub get_prepared_statement_cache_size : PreparedStatementCache → ℕ
get_prepared_statement_cache_size psc = length psc.cache + length psc.intercepted_cache

abbrev pub new_prepared_data : PreparedResult → PreparedResult → PrepareRequestInfo → PreparedData
new_prepared_data from_origin from_target info = record {
  origin_prepared_id = from_origin.prepared_query_id;
  target_prepared_id = from_target.prepared_query_id;
  prepare_request_info = info;
  origin_variables_metadata = from_origin.variables_metadata;
  target_variables_metadata = from_target.variables_metadata;
}

unfoldable pub store :
    PreparedResult
    → PreparedResult
    → PrepareRequestInfo
    → PreparedStatementCache
    → PreparedStatementCache
store from_origin from_target info psc = record psc {
  cache =
      insert from_origin.prepared_query_id (new_prepared_data from_origin from_target info)
        psc.cache;
  index = insert from_target.prepared_query_id from_origin.prepared_query_id psc.index;
}

unfoldable pub store_intercepted :
    PreparedResult → PrepareRequestInfo → PreparedStatementCache → PreparedStatementCache
store_intercepted result info psc = record psc {
  intercepted_cache =
      insert result.prepared_query_id (new_prepared_data result result info) psc.intercepted_cache;
}

unfoldable pub get : List ℕ → PreparedStatementCache → Option PreparedData
get origin_prepared_id psc = elim (lookup origin_prepared_id psc.cache) [
  | some d ↦ some d
  | none ↦ lookup origin_prepared_id psc.intercepted_cache
]

unfoldable pub get_by_target_prepared_id : List ℕ → PreparedStatementCache → Option PreparedData
get_by_target_prepared_id target_prepared_id psc = elim (lookup target_prepared_id psc.index) [
  | none ↦ none
  | some origin_prepared_id ↦ lookup origin_prepared_id psc.cache
]
