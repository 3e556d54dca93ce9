-- ===== src/SystemTables/Tests.antt =====
-- Queries of system.local and system.peers with three proxy instances, this one being the second.
use zdm_proxy.Prelude.{
  ℕ, ◌≡◌, refl, false, Option, none, some, List, [], ◌∷◌, String, string_eq, map, ok, arith,
}
use zdm_proxy.Query.{Selector, id_selector, count_selector, aliased_selector, SelectClause}
use zdm_proxy.SystemTables.{
  DataType, SystemColumn, peers_column, local_column, inet, varchar, filter_system_columns,
  filter_selectors, column_from_selector, find_column_metadata, unaliased_column_name_from_selector,
  is_count_name, system_peers_columns, int,
}
use zdm_proxy.SystemTables.Values.{
  Cell, address, number, HostRow, get_filtered_system_values, selector_values,
  add_system_column_value, add_found, add_column_helper, add_to_later_row, system_value, node_value,
  host_value, virtual_value,
}
use zdm_proxy.SystemTables.Results.{
  rows, new_system_local_result, new_system_peers_result, peer_rows, peer_data, encode_rows_result,
  encode_rows, encode_row,
}
use zdm_proxy.SystemTables.Rows.{selector_cell}
use zdm_proxy.SystemTables.Peers.{peers_result_lem}

abbrev instance_row : ℕ → HostRow
instance_row n = record {
  addr = n ∷ [];
  host_id = [];
  tokens = [];
  rack = "rack1";
  partitioner = "Murmur3Partitioner";
  datacenter = "dc1";
  schema_version = none;
  column_data = [];
}

-- SELECT rpc_address AS a, rack
abbrev address_and_rack : List Selector
address_and_rack = aliased_selector (id_selector "rpc_address") "a" ∷ id_selector "rack" ∷ []

abbrev clause_of : List Selector → SelectClause
clause_of selectors = record { selectors = some selectors }

abbrev encode_address : DataType → Cell → Option (Option (List ℕ))
encode_address t c = elim c [
  | address a ↦ some (some a)
  | number n ↦ some (some (n ∷ []))
  | _ ↦ some none
]

abbrev no_hash : List ℕ → List ℕ
no_hash l = l

abbrev no_codes : String → List ℕ
no_codes s = []

abbrev peers_columns_shown : List SystemColumn
peers_columns_shown = peers_column "a" inet ∷ peers_column "rack" varchar ∷ []

abbrev local_columns_shown : List SystemColumn
local_columns_shown = local_column "a" inet ∷ local_column "rack" varchar ∷ []

peers_filtered :
    filter_system_columns (clause_of address_and_rack) system_peers_columns "peers"
    ≡ ok (peers_columns_shown, false)
unfolding filter_system_columns filter_selectors column_from_selector find_column_metadata
peers_filtered = refl

peers_shown :
    new_system_peers_result encode_address no_hash no_codes none "" [] 9042
      (clause_of address_and_rack)
      []
      (instance_row 1 ∷ instance_row 2 ∷ instance_row 3 ∷ [])
      1
    ≡ ok (rows peers_columns_shown ((some (1 ∷ []) ∷ none ∷ []) ∷ (some (3 ∷ []) ∷ none ∷ []) ∷ []))
unfolding new_system_peers_result peer_rows peer_data encode_rows_result encode_rows encode_row
    filter_system_columns filter_selectors column_from_selector find_column_metadata
    get_filtered_system_values selector_values add_system_column_value add_found add_column_helper
    add_to_later_row system_value virtual_value unaliased_column_name_from_selector
peers_shown = refl

-- SELECT count(*) has one row, with the number of peers.
peers_counted :
    new_system_peers_result encode_address no_hash no_codes none "" [] 9042
      (clause_of (count_selector "count" ∷ []))
      []
      (instance_row 1 ∷ instance_row 2 ∷ instance_row 3 ∷ [])
      1
    ≡ ok (rows (peers_column "count" int ∷ []) ((some (2 ∷ []) ∷ []) ∷ []))
unfolding new_system_peers_result peer_rows peer_data encode_rows_result encode_rows encode_row
    filter_system_columns filter_selectors column_from_selector find_column_metadata
    get_filtered_system_values selector_values add_system_column_value add_found add_column_helper
    add_to_later_row system_value virtual_value node_value host_value is_count_name
    unaliased_column_name_from_selector
peers_counted = refl

local_shown :
    new_system_local_result encode_address no_hash no_codes none "" [] 9042
      (clause_of address_and_rack)
      (instance_row 2)
    ≡ ok (rows local_columns_shown ((some (2 ∷ []) ∷ none ∷ []) ∷ []))
unfolding new_system_local_result encode_rows_result encode_rows encode_row filter_system_columns
    filter_selectors column_from_selector find_column_metadata get_filtered_system_values
    selector_values add_system_column_value add_found add_column_helper system_value virtual_value
    unaliased_column_name_from_selector
local_shown = refl

peers_result_lem_example :
    (map (λ (c : SystemColumn). c.name) peers_columns_shown ≡ "a" ∷ "rack" ∷ [])
    × (encode_rows encode_address peers_columns_shown (
          map
            (λ h. map (selector_cell (some []) [] 9042 2 h) address_and_rack)
            (instance_row 1 ∷ instance_row 3 ∷ []))
        ≡ ok ((some (1 ∷ []) ∷ none ∷ []) ∷ (some (3 ∷ []) ∷ none ∷ []) ∷ []))
peers_result_lem_example =
    peers_result_lem encode_address no_hash no_codes "" [] 9042 (clause_of address_and_rack)
      address_and_rack refl [] (instance_row 1) (instance_row 2 ∷ instance_row 3 ∷ []) 1
      peers_columns_shown peers_columns_shown
      ((some (1 ∷ []) ∷ none ∷ []) ∷ (some (3 ∷ []) ∷ none ∷ []) ∷ []) (omega arith) peers_filtered
      peers_shown
