-- ===== src/SystemTables/Values.antt =====
-- proxy/pkg/zdmproxy/nativeprotocol.go: the values of a row. A row grows beside the columns of the
-- result, which the first row fills. An interface{} that is nil, or a nil pointer, is `null`.
use zdm_proxy.Prelude.{
  ℕ, Bool, true, false, not, ◌||◌, Option, none, some, List, [], ◌∷◌, ◌++◌, String, string_eq,
  nat_eq, ◌==◌, length, get_elem?, lookup, eqb, if◌then◌else◌, Result, ok, err, ◌>>=◌,
}
use zdm_proxy.Query.{Selector, SelectClause}
use zdm_proxy.SystemTables.{
  SystemColumn, SystemError, no_column_value, no_peer_value, could_not_find_value, length_mismatch,
  name_mismatch, selector_mismatch, unaliased_column_name_from_selector, is_count_name, panics,
}

pub data Cell : Type 0 where
  null : Cell
  address identifier : List ℕ → Cell
  text : String → Cell
  texts : List String → Cell
  number : ℕ → Cell
  other_value : List ℕ → Cell

pub record OptionalColumn : Type 0 where
  pub column : Cell
  pub exists : Bool

-- The fields of a VirtualHost and of its Host that a row shows.
pub record HostRow : Type 0 where
  pub addr : List ℕ
  pub host_id : List ℕ
  pub tokens : List String
  pub rack : String
  pub partitioner : String
  pub datacenter : String
  pub schema_version : Option (List ℕ)
  pub column_data : List (String × OptionalColumn)

-- A row and the columns of the result.
abbrev pub Grown : Type 0
Grown = Result SystemError (List Cell × List SystemColumn)

-- The checks of a row that is not the first, at the index of its next value.
unfoldable pub add_to_later_row :
    Bool → SystemColumn → Bool → Cell → List Cell → List SystemColumn → Grown
add_to_later_row star col exists value row columns = elim (get_elem? columns (length row)) [
  | none ↦ err (length_mismatch col.name)
  | some c ↦
      if not (c.name == col.name)
      then err (name_mismatch col.name)
      else (if exists
          then ok (row ++ (value ∷ []), columns)
          else (if star then ok (row, columns) else err (could_not_find_value col.name)))
]

unfoldable pub add_column_helper :
    Bool → Bool → SystemColumn → Bool → Cell → List Cell → List SystemColumn → Grown
unfolding add_to_later_row
add_column_helper star true col exists value row columns =
    if exists
    then ok (row ++ (value ∷ []), columns ++ (col ∷ []))
    else (if star then ok (row, columns) else err (could_not_find_value col.name))
add_column_helper star false col exists value row columns =
    add_to_later_row star col exists value row columns

-- What addSystemColumnValue adds for a name: a value with whether it exists, nothing for the star, or
-- an error.
pub data Found : Type 0 where
  value : Bool → Cell → Found
  skipped : Found
  failed : SystemError → Found

abbrev pub schema_cell : Option (List ℕ) → Cell
schema_cell none = null
schema_cell (some id) = identifier id

-- The switch on the names that the virtual host has values for.
unfoldable pub virtual_value : String → HostRow → Option Cell
virtual_value name h =
    if name == "peer"
      || (name == "broadcast_address"
          || (name == "listen_address" || (name == "rpc_address" || name == "preferred_ip")))
    then some (address h.addr)
    else if name == "data_center"
    then some (text h.datacenter)
    else if name == "host_id"
    then some (identifier h.host_id)
    else if name == "rack"
    then some (text h.rack)
    else if name == "tokens"
    then some (texts h.tokens)
    else if name == "truncated_at"
    then some null
    else if name == "partitioner"
    then some (text h.partitioner)
    else if name == "schema_version"
    then some (schema_cell h.schema_version)
    else none

-- overrideColumnIfExists for the address and the ports, and addColumnIfExists.
unfoldable pub host_value : String → ℕ → HostRow → OptionalColumn → Found
host_value name proxy_port h c =
    if name == "native_transport_address"
    then value c.exists (address h.addr)
    else if name == "native_transport_port" || name == "native_transport_port_ssl"
    then value c.exists (number proxy_port)
    else value c.exists c.column

-- _, exists := names[name]
abbrev pub has_name : String → List String → Bool
has_name name [] = false
has_name name (n ∷ names) = n == name || has_name name names

-- `peers_columns` is `none` for system.local.
unfoldable pub node_value :
    Bool → String → Option (List String) → List (String × OptionalColumn) → ℕ → HostRow → Found
node_value star name peers_columns local_data proxy_port h = elim (lookup name h.column_data) [
  | some c ↦ elim peers_columns [
    | none ↦ host_value name proxy_port h c
    | some names ↦
        if has_name name names
        then host_value name proxy_port h c
        else (if star then skipped else failed (no_peer_value name))
  ]
  | none ↦ elim peers_columns [
    | some names ↦ failed (no_column_value name)
    | none ↦ elim (lookup name local_data) [
      | some c ↦ value c.exists c.column
      | none ↦ failed (no_column_value name)
    ]
  ]
]

unfoldable pub system_value :
    Bool → String → Option (List String) → List (String × OptionalColumn) → ℕ → ℕ → HostRow → Found
system_value star name peers_columns local_data proxy_port row_count h =
    elim (virtual_value name h) [
      | some c ↦ value true c
      | none ↦
          if is_count_name name
          then value true (number row_count)
          else node_value star name peers_columns local_data proxy_port h
    ]

unfoldable pub add_found :
    Bool → Bool → SystemColumn → Found → List Cell → List SystemColumn → Grown
unfolding add_column_helper
add_found star first col (value exists c) row columns =
    add_column_helper star first col exists c row columns
add_found star first col skipped row columns = ok (row, columns)
add_found star first col (failed e) row columns = err e

module _ (peers_columns : Option (List String)) (local_data : List (String × OptionalColumn))
    (proxy_port row_count : ℕ) (h : HostRow) where
  unfoldable pub add_system_column_value :
      Bool → Bool → SystemColumn → String → List Cell → List SystemColumn → Grown
  unfolding system_value add_found
  add_system_column_value star first col name row columns =
      add_found star first col
        (system_value star name peers_columns local_data proxy_port row_count h) row columns

  -- The loop over the result columns of a star.
  unfoldable pub star_values : Bool → List SystemColumn → List Cell → List SystemColumn → Grown
  unfolding add_system_column_value
  star_values first [] row columns = ok (row, columns)
  star_values first (col ∷ cols) row columns =
      add_system_column_value true first col col.name row columns >>= λ r.
      star_values first cols r.0 r.1

  -- The loop over the selectors, with the result column at each index.
  unfoldable pub selector_values :
      Bool → List Selector → List SystemColumn → List Cell → List SystemColumn → Grown
  unfolding add_system_column_value
  selector_values first [] cols row columns = ok (row, columns)
  selector_values first (s ∷ selectors) [] row columns = err panics
  selector_values first (s ∷ selectors) (col ∷ cols) row columns =
      add_system_column_value false first col (unaliased_column_name_from_selector s) row columns
      >>= λ r. selector_values first selectors cols r.0 r.1

  unfoldable pub get_filtered_system_values :
      SelectClause → Bool → List SystemColumn → List SystemColumn → Grown
  unfolding star_values selector_values
  get_filtered_system_values clause first columns result_columns = elim clause.selectors [
    | none ↦ star_values first result_columns [] columns
    | some selectors ↦
        if eqb (length selectors) (length result_columns)
        then selector_values first selectors result_columns [] columns
        else err selector_mismatch
  ]
