-- ===== src/SystemTables/Results.antt =====
-- proxy/pkg/zdmproxy/nativeprotocol.go: the results of queries of system.local and system.peers, and of
-- the preparation of such queries. The codecs of the data types and md5.Sum are parameters.
use zdm_proxy.Prelude.{
  ℕ, suc, ◌-◌, Bool, true, false, ◌&&◌, not, Option, none, some, is_some, List, [], ◌∷◌, ◌++◌,
  String, string_eq, ◌==◌, length, eqb, if◌then◌else◌, Result, ok, err, ◌>>=◌,
}
use zdm_proxy.Query.{Selector, count_selector, id_selector, aliased_selector, SelectClause}
use zdm_proxy.RequestInfo.{PrepareRequestInfo}
use zdm_proxy.SystemTables.{
  DataType, SystemColumn, SystemError, no_columns, not_encoded, panics, filter_system_columns,
  system_local_columns, system_peers_columns,
}
use zdm_proxy.SystemTables.Values.{Cell, null, OptionalColumn, HostRow, get_filtered_system_values}

-- message.RowsResult and message.PreparedResult of a system table; an encoded nil is `none`.
pub data SystemResult : Type 0 where
  rows : List SystemColumn → List (List (Option (List ℕ))) → SystemResult
  prepared : List ℕ → List SystemColumn → SystemResult

module _ (encode_cell : DataType → Cell → Option (Option (List ℕ))) where
  -- A row of `columns` values: those that it lacks are nil, and one too many is out of range.
  unfoldable pub encode_row :
      List SystemColumn → List Cell → Result SystemError (List (Option (List ℕ)))
  encode_row [] [] = ok []
  encode_row [] (v ∷ row) = err panics
  encode_row (c ∷ columns) [] = encode_row columns [] >>= λ r. ok (none ∷ r)
  encode_row (c ∷ columns) (v ∷ row) =
      let rest = encode_row columns row in
      elim (encode_cell c.data_type v) [
        | none ↦ err not_encoded
        | some e ↦ rest >>= λ r. ok (e ∷ r)
      ]

  unfoldable pub encode_rows :
      List SystemColumn → List (List Cell) → Result SystemError (List (List (Option (List ℕ))))
  unfolding encode_row
  encode_rows columns [] = ok []
  encode_rows columns (row ∷ rest) = do
    r ← encode_row columns row
    rs ← encode_rows columns rest
    ok (r ∷ rs)

  unfoldable pub encode_rows_result :
      List SystemColumn → List (List Cell) → Result SystemError SystemResult
  encode_rows_result columns table = encode_rows columns table >>= λ rs. ok (rows columns rs)

-- `codes` are the bytes of a string.
unfoldable pub encode_prepared_result :
    (List ℕ → List ℕ)
    → (String → List ℕ)
    → PrepareRequestInfo
    → String
    → List SystemColumn
    → Result SystemError SystemResult
encode_prepared_result md5_sum codes info connection_keyspace columns = elim columns [
  | [] ↦ err no_columns
  | c ∷ cs ↦
      let keyspace = if info.keyspace == "" then connection_keyspace else info.keyspace in
      ok (prepared (md5_sum (info.query ++ codes keyspace)) (c ∷ cs))
]

abbrev pub is_count_selector : Selector → Bool
is_count_selector (count_selector name) = true
is_count_selector (id_selector name) = false
is_count_selector (aliased_selector s alias) = elim s [ count_selector name ↦ true | _ ↦ false ]

-- `rows[0][i] = nil` for the other selectors; an index out of range would panic.
unfoldable pub clear_values : List Selector → List Cell → Result SystemError (List Cell)
clear_values [] row = ok row
clear_values (s ∷ selectors) [] =
    if is_count_selector s then clear_values selectors [] else err panics
clear_values (s ∷ selectors) (v ∷ row) =
    clear_values selectors row >>= λ r. ok ((if is_count_selector s then v else null) ∷ r)

module _ (encode_cell : DataType → Cell → Option (Option (List ℕ))) (md5_sum : List ℕ → List ℕ)
    (codes : String → List ℕ) (info : Option PrepareRequestInfo) (connection_keyspace : String)
    (local_data : List (String × OptionalColumn)) (proxy_port : ℕ) (clause : SelectClause) where
  unfoldable pub new_system_local_result : HostRow → Result SystemError SystemResult
  new_system_local_result h = do
    cols ← filter_system_columns clause system_local_columns "local"
    grown ← get_filtered_system_values none local_data proxy_port 1 h clause true [] (cols.0)
    elim info [
      | some i ↦ encode_prepared_result md5_sum codes i connection_keyspace grown.1
      | none ↦ encode_rows_result encode_cell grown.1 (grown.0 ∷ [])
    ]

  -- `peers` is getFilteredSystemValues at a row count: `first`, the columns and the result columns.
  abbrev pub peer_values :
      List String
      → ℕ
      → HostRow
      → Bool
      → List SystemColumn
      → List SystemColumn
      → Result SystemError (List Cell × List SystemColumn)
  peer_values names row_count h first columns result_columns =
      get_filtered_system_values (some names) local_data proxy_port row_count h clause first columns
        result_columns

  -- The loop over the virtual hosts at the index `i`: the rows and the columns. `alone` is whether
  -- there is one host only, and `local` the index of this proxy's.
  unfoldable pub peer_rows :
      List String
      → ℕ
      → Bool
      → Bool
      → ℕ
      → ℕ
      → List HostRow
      → Bool
      → List SystemColumn
      → List SystemColumn
      → Result SystemError (List (List Cell) × List SystemColumn)
  peer_rows names row_count has_count alone local i [] first columns result_columns =
      ok ([], columns)
  peer_rows names row_count has_count alone local i (h ∷ hosts) first columns result_columns =
      let others =
        peer_rows names row_count has_count alone local (suc i) hosts first columns
          result_columns in
      if eqb i local && not alone
      then others
      else (peer_values names row_count h first columns result_columns >>= λ r.
          if is_some info
          then ok ([], r.1)
          else (if has_count
              then ok (r.0 ∷ [], r.1)
              else (peer_rows names row_count has_count alone local (suc i) hosts false r.1
                    (if first then r.1 else result_columns)
                  >>= λ more. ok (r.0 ∷ more.0, more.1))))

  -- The rows of a query where there is one host only: this proxy.
  unfoldable pub peer_data :
      Bool → Bool → ℕ → List (List Cell) → Result SystemError (List (List Cell))
  unfolding clear_values
  peer_data has_count alone local table =
      if eqb local 0 && (alone && not has_count)
      then ok []
      else (if has_count && alone
          then (elim clause.selectors [
            | none ↦ ok table
            | some selectors ↦ elim table [
              | [] ↦ err panics
              | row ∷ rest ↦ clear_values selectors row >>= λ r. ok (r ∷ rest)
            ]
          ])
          else ok table)

  -- Without a host the capacity of `rows` would be negative.
  unfoldable pub new_system_peers_result :
      List String → List HostRow → ℕ → Result SystemError SystemResult
  new_system_peers_result names [] local =
      filter_system_columns clause system_peers_columns "peers" >>= λ cols. err panics
  new_system_peers_result names (h ∷ others) local = do
    let hosts : List HostRow = h ∷ others
    cols ← filter_system_columns clause system_peers_columns "peers"
    let alone = eqb (length hosts) 1
    all ← peer_rows names (length hosts - 1) (cols.1) alone local 0 hosts true [] (cols.0)
    elim info [
      | some i ↦ encode_prepared_result md5_sum codes i connection_keyspace all.1
      | none ↦ do
        table ← peer_data (cols.1) alone local all.0
        encode_rows_result encode_cell all.1 table
    ]
