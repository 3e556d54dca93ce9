-- ===== src/SystemTables/Rows.antt =====
-- nativeprotocol.go: the row of a host shows the value of each selector, under the selector's name.
use zdm_proxy.Prelude.{
  ℕ, ◌≡◌, ◌≢◌, refl, ap, Bool, true, false, ◌||◌, Option, some, List, [], ◌∷◌, ◌++◌, map, String,
  string_eq, ◌==◌, length, append_assoc, get_elem?, eqb, if◌then◌else◌, ok, inl, inr, Result-cases,
  Option-cases, Bool-cases, arith,
}
use zdm_proxy.Query.{Selector, id_selector, count_selector, aliased_selector, SelectClause}
use zdm_proxy.SystemTables.{
  SystemColumn, find_column_metadata, column_from_selector, selector_name, filter_selectors,
  unaliased_column_name_from_selector,
}
use zdm_proxy.SystemTables.Values.{
  Cell, null, OptionalColumn, HostRow, Found, value, skipped, failed, system_value, node_value,
  host_value, add_found, address, add_column_helper, add_to_later_row, add_system_column_value,
  selector_values, virtual_value, get_filtered_system_values,
}

append_nil {ℓ} : {A : Type ℓ} (xs : List A) → xs ++ [] ≡ xs
append_nil [] = refl
append_nil (x ∷ xs) = ap (λ l. x ∷ l) (append_nil xs)

find_column_metadata_name :
    (cols : List SystemColumn) (name : String) (c : SystemColumn)
    → find_column_metadata cols name ≡ some c
    → c.name ≡ name
unfolding find_column_metadata
find_column_metadata_name [] name c e = cc
find_column_metadata_name (d ∷ cols) name c e =
    ground (arith, e, string_eq.equal_iff d.name name, find_column_metadata_name cols name c)

column_from_selector_name :
    (cols : List SystemColumn) (keyspace table : String) (s : Selector) (r : SystemColumn × Bool)
    → column_from_selector cols keyspace table s ≡ ok r
    → r.0.name ≡ selector_name s
unfolding column_from_selector
column_from_selector_name cols keyspace table (count_selector name) r e = ground (arith, e)
column_from_selector_name cols keyspace table (id_selector name) r e =
    elim (Option-cases (find_column_metadata cols name)) [
      | inl n ↦ absurd (ground (arith, n, e))
      | inr (c, n) ↦ ground (arith, n, e, find_column_metadata_name cols name c n)
    ]
column_from_selector_name cols keyspace table (aliased_selector s alias) r e =
    elim (Result-cases (column_from_selector cols keyspace table s)) [
      | inl (q, n) ↦ ground (arith, n, e)
      | inr (q, n) ↦ absurd (ground (arith, n, e))
    ]

pub filter_selectors_names :
    (cols : List SystemColumn) (table : String) (selectors : List Selector)
    (r : List SystemColumn × Bool)
    → filter_selectors cols table selectors ≡ ok r
    → map (λ (c : SystemColumn). c.name) r.0 ≡ map selector_name selectors
unfolding filter_selectors
filter_selectors_names cols table [] r e = ground (arith, e)
filter_selectors_names cols table (s ∷ selectors) r e =
    elim (Result-cases (column_from_selector cols "system" table s)) [
      | inr (q, n) ↦ absurd (ground (arith, n, e))
      | inl (c, n) ↦ elim (Result-cases (filter_selectors cols table selectors)) [
        | inr (q, n') ↦ absurd (ground (arith, n, n', e))
        | inl (rest, n') ↦ ground (
          arith,
          n,
          n',
          e,
          column_from_selector_name cols "system" table s c n,
          filter_selectors_names cols table selectors rest n',
        )
      ]
    ]

-- The value that is added.
abbrev pub cell_of : Found → Cell
cell_of (value exists c) = c
cell_of _ = null

add_found_row :
    (first : Bool) (col : SystemColumn) (f : Found) (row : List Cell) (columns : List SystemColumn)
    (r : List Cell × List SystemColumn)
    → f ≢ skipped
    → add_found false first col f row columns ≡ ok r
    → (r.0 ≡ row ++ (cell_of f ∷ [])) × (r.1 ≡ (if first then columns ++ (col ∷ []) else columns))
unfolding add_found add_column_helper add_to_later_row
add_found_row true col (value exists c) row columns r n e = ground (arith, e)
add_found_row false col (value exists c) row columns r n e =
    elim (Option-cases (get_elem? columns (length row))) [
      | inl h ↦ absurd (ground (arith, h, e))
      | inr (d, h) ↦ ground (arith, h, e)
    ]
add_found_row first col skipped row columns r n e = absurd (n refl)
add_found_row first col (failed x) row columns r n e = cc

module _ (peers_columns : Option (List String)) (local_data : List (String × OptionalColumn))
    (proxy_port row_count : ℕ) (h : HostRow) where
  node_not_skipped :
      (name : String) → node_value false name peers_columns local_data proxy_port h ≢ skipped
  unfolding node_value host_value
  node_not_skipped name = ground arith

  not_skipped :
      (name : String)
      → system_value false name peers_columns local_data proxy_port row_count h ≢ skipped
  unfolding system_value
  not_skipped name = ground (arith, node_not_skipped name)

  -- The value of a selector in the row of the host.
  abbrev pub selector_cell : Selector → Cell
  selector_cell s = cell_of (
      system_value false (unaliased_column_name_from_selector s) peers_columns local_data proxy_port
        row_count h)

  -- A row of selectors is the value of each, and the first row makes their columns the result's.
  pub selector_values_row :
      (first : Bool) (selectors : List Selector) (cols : List SystemColumn) (row : List Cell)
      (columns : List SystemColumn) (r : List Cell × List SystemColumn)
      → length selectors ≡ length cols
      → selector_values peers_columns local_data proxy_port row_count h first selectors cols row
          columns
        ≡ ok r
      → (r.0 ≡ row ++ map selector_cell selectors)
        × (r.1 ≡ (if first then columns ++ cols else columns))
  unfolding selector_values add_system_column_value
  selector_values_row first [] [] row columns r l e =
      ground (arith, e, append_nil row, append_nil columns)
  selector_values_row first [] (c ∷ cols) row columns r l e = absurd (omega (arith, l))
  selector_values_row first (s ∷ selectors) [] row columns r l e = cc
  selector_values_row first (s ∷ selectors) (col ∷ cols) row columns r l e =
      let name = unaliased_column_name_from_selector s in
      let f = system_value false name peers_columns local_data proxy_port row_count h in
      elim (Result-cases (add_found false first col f row columns)) [
        | inr (q, n) ↦ absurd (ground (arith, n, e))
        | inl (next, n) ↦
            let (grown, filled) = add_found_row first col f row columns next (not_skipped name) n in
            let (rest, rest') =
              selector_values_row first selectors cols next.0 next.1 r (omega (arith, l))
                (ground (arith, n, e)) in
            ground (
              arith,
              grown,
              filled,
              rest,
              rest',
              append_assoc row (selector_cell s ∷ []) (map selector_cell selectors),
              append_assoc columns (col ∷ []) cols,
            )
      ]

  pub filtered_selectors :
      (clause : SelectClause) (selectors : List Selector) (first : Bool)
      (columns cols : List SystemColumn) (r : List Cell × List SystemColumn)
      → clause.selectors ≡ some selectors
      → get_filtered_system_values peers_columns local_data proxy_port row_count h clause first
          columns cols
        ≡ ok r
      → (r.0 ≡ map selector_cell selectors) × (r.1 ≡ (if first then columns ++ cols else columns))
  unfolding get_filtered_system_values
  filtered_selectors clause selectors first columns cols r c e =
      elim (Bool-cases (eqb (length selectors) (length cols))) [
        | inr n ↦ absurd (ground (arith, c, n, e))
        | inl n ↦
            selector_values_row first selectors cols [] columns r (ground (arith, n))
              (ground (arith, c, n, e))
      ]

  -- The columns that hold the address of a node.
  abbrev pub is_address_name : String → Bool
  is_address_name name =
      name == "peer"
      || (name == "broadcast_address"
          || (name == "listen_address" || (name == "rpc_address" || name == "preferred_ip")))

  -- In any row, the value of a selector of an address column of the node (peer, broadcast_address,
  -- listen_address, rpc_address or preferred_ip, under an alias or not) is the address of the proxy
  -- instance that stands for the node, whatever the cluster's node said.
  pub addresses_are_virtual :
      (s : Selector)
      → is_address_name (unaliased_column_name_from_selector s) ≡ true
      → selector_cell s ≡ address h.addr
  unfolding system_value virtual_value
  addresses_are_virtual s a = ground (arith, a)
