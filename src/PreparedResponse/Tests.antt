-- ===== src/PreparedResponse/Tests.antt =====
-- The response to a PREPARE on small inputs.
use zdm_proxy.Prelude.{
  ℕ, ◌≡◌, refl, true, Option, none, some, List, [], ◌∷◌, String, map, ok, arith, length,
}
use zdm_proxy.Protocol.{RawFrame}
use zdm_proxy.RequestInfo.{prepare, ColumnMetadata}
use zdm_proxy.PreparedCache.{PreparedStatementCache, new_prepared_statement_cache, store}
use zdm_proxy.Samples.{result_frame, prepare_info}
use zdm_proxy.PreparedResponse.{
  PreparedBody, stored_result, found_in_markers, remove_named, remove_positions,
  process_prepared_response, client_body,
}
use zdm_proxy.PreparedResponse.Columns.{only_unmarked, unmarked_columns_stay}
use zdm_proxy.PreparedResponse.Positions.{before_last, without, columns_before_last_removed}

abbrev column : String → ColumnMetadata
column name = record { name = name; data_type = "" }

abbrev columns : List ColumnMetadata
columns = column "a" ∷ column "zdm__now" ∷ column "zzz" ∷ []

unmarked_columns_stay_example : (remove_named columns columns 0 0).1 ≡ only_unmarked columns
unmarked_columns_stay_example = unmarked_columns_stay columns

-- A column of the client's own is found among the markers.
own_column_found : found_in_markers "a" ≡ true
unfolding found_in_markers
own_column_found = refl

-- The marker in the last place stays.
last_marker_stays : remove_positions columns (some 2 ∷ []) 0 ≡ ok ([], columns)
unfolding remove_positions
last_marker_stays = refl

columns_before_last_removed_example :
    remove_positions columns (map some (1 ∷ 2 ∷ [])) 0
    ≡ ok (
      before_last (length columns) (1 ∷ 2 ∷ []),
      without 0 (before_last (length columns) (1 ∷ 2 ∷ [])) columns,
    )
columns_before_last_removed_example =
    columns_before_last_removed columns (1 ∷ 2 ∷ []) (omega arith, (omega arith, tt))

abbrev body : ℕ → PreparedBody
body id = record { prepared_query_id = some (id ∷ []); variables_metadata = none }

abbrev decode : RawFrame → Option (Option PreparedBody)
decode f = some (some (body 2))

abbrev stored : PreparedStatementCache
stored =
    store (stored_result (body 1)) (stored_result (body 2)) prepare_info
      new_prepared_statement_cache

processed :
    process_prepared_response decode
      (body 1)
      (prepare prepare_info)
      (some result_frame)
      new_prepared_statement_cache
    ≡ ok (body 1, stored)
unfolding process_prepared_response client_body
processed = refl
