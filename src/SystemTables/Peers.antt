-- ===== src/SystemTables/Peers.antt =====
-- nativeprotocol.go: the whole results of system.local and system.peers for a list of selectors.
use zdm_proxy.Prelude.{
  ℕ, zero, suc, ◌+◌, ◌-◌, ◌<◌, ◌≡◌, refl, sym, subst, Bool, true, false, ◌&&◌, not, Option, none,
  some, List, [], ◌∷◌, ◌++◌, map, String, string_eq, length, eqb, if◌then◌else◌, ok, inl, inr,
  Result-cases, Bool-cases, arith,
}
use zdm_proxy.Query.{Selector, SelectClause}
use zdm_proxy.SystemTables.{
  DataType, SystemColumn, filter_system_columns, selector_name, system_local_columns,
  system_peers_columns,
}
use zdm_proxy.SystemTables.Values.{Cell, OptionalColumn, HostRow, get_filtered_system_values}
use zdm_proxy.SystemTables.Results.{
  rows, encode_rows, encode_rows_result, new_system_local_result, peer_rows, peer_data,
  new_system_peers_result,
}
use zdm_proxy.SystemTables.Rows.{selector_cell, filtered_selectors, filter_selectors_names}

filter_system_names :
    (clause : SelectClause) (selectors : List Selector) (cols : List SystemColumn) (table : String)
    (r : List SystemColumn × Bool)
    → clause.selectors ≡ some selectors
    → filter_system_columns clause cols table ≡ ok r
    → map (λ (c : SystemColumn). c.name) r.0 ≡ map selector_name selectors
unfolding filter_system_columns
filter_system_names clause selectors cols table r c e =
    filter_selectors_names cols table selectors r (ground (arith, c, e))

-- The list without the element at an index.
abbrev pub remove_at {ℓ} : {A : Type ℓ} → ℕ → List A → List A
remove_at i [] = []
remove_at zero (x ∷ xs) = xs
remove_at (suc i) (x ∷ xs) = x ∷ remove_at i xs

module _ (encode_cell : DataType → Cell → Option (Option (List ℕ))) (md5_sum : List ℕ → List ℕ)
    (codes : String → List ℕ) (connection_keyspace : String)
    (local_data : List (String × OptionalColumn)) (proxy_port : ℕ) (clause : SelectClause)
    (selectors : List Selector) (named : clause.selectors ≡ some selectors) where
  -- The answer to a query of system.local with selectors, where there is one, is the one row of their
  -- values, encoded, with columns that have the selectors' names.
  pub local_result_lem :
      (h : HostRow) (columns : List SystemColumn) (table : List (List (Option (List ℕ))))
      → new_system_local_result encode_cell md5_sum codes none connection_keyspace local_data
          proxy_port clause h
        ≡ ok (rows columns table)
      → (map (λ (c : SystemColumn). c.name) columns ≡ map selector_name selectors)
        × (encode_rows encode_cell columns
              (map (selector_cell none local_data proxy_port 1 h) selectors ∷ [])
            ≡ ok table)
  unfolding new_system_local_result encode_rows_result
  local_result_lem h columns table e =
      elim (Result-cases (filter_system_columns clause system_local_columns "local")) [
        | inr (q, n) ↦ absurd (ground (arith, n, e))
        | inl (cols, n) ↦
            elim (Result-cases
              (get_filtered_system_values none local_data proxy_port 1 h clause true [] cols.0)) [
                | inr (q, n') ↦ absurd (ground (arith, n, n', e))
                | inl (grown, n') ↦
                    let (cells, filled) =
                      filtered_selectors none local_data proxy_port 1 h clause selectors true []
                        cols.0 grown named n' in
                    elim (Result-cases (encode_rows encode_cell grown.1 (grown.0 ∷ []))) [
                      | inr (q, k) ↦ absurd (ground (arith, n, n', k, e))
                      | inl (t, k) ↦ ground (
                        arith,
                        n,
                        n',
                        k,
                        e,
                        cells,
                        filled,
                        filter_system_names clause selectors system_local_columns "local" cols named
                            n,
                      )
                    ]
              ]
      ]

  -- The hosts that get a row.
  abbrev kept : Bool → ℕ → ℕ → List HostRow → List HostRow
  kept alone local i [] = []
  kept alone local i (h ∷ hosts) =
      let rest = kept alone local (suc i) hosts in
      if eqb i local && not alone then rest else h ∷ rest

  abbrev is_filled : List HostRow → Bool
  is_filled [] = false
  is_filled (h ∷ hosts) = true

  -- The row of a host in system.peers.
  abbrev pub peer_row : List String → ℕ → HostRow → List Cell
  peer_row names row_count h =
      map (selector_cell (some names) local_data proxy_port row_count h) selectors

  peer_rows_lem :
      (names : List String) (row_count : ℕ) (alone : Bool) (local i : ℕ) (hosts : List HostRow)
      (first : Bool) (columns cols : List SystemColumn) (r : List (List Cell) × List SystemColumn)
      → peer_rows encode_cell md5_sum codes none connection_keyspace local_data proxy_port clause
          names row_count false alone local i hosts first columns cols
        ≡ ok r
      → (r.0 ≡ map (peer_row names row_count) (kept alone local i hosts))
        × (r.1
            ≡ (if first && is_filled (kept alone local i hosts) then columns ++ cols else columns))
  unfolding peer_rows
  peer_rows_lem names row_count alone local i [] first columns cols r e = ground (arith, e)
  peer_rows_lem names row_count alone local i (h ∷ hosts) first columns cols r e =
      elim (Bool-cases (eqb i local && not alone)) [
        | inl skips ↦ ground (
          arith,
          skips,
          peer_rows_lem names row_count alone local (suc i) hosts first columns cols r
              (ground (arith, skips, e)),
        )
        | inr keeps ↦
            elim (Result-cases (
              get_filtered_system_values (some names) local_data proxy_port row_count h clause first
                columns cols)) [
                  | inr (q, n) ↦ absurd (ground (arith, keeps, n, e))
                  | inl (grown, n) ↦
                      let (cells, filled) =
                        filtered_selectors (some names) local_data proxy_port row_count h clause
                          selectors first columns cols grown named n in
                      let later : List SystemColumn = if first then grown.1 else cols in
                      elim (Result-cases (
                        peer_rows encode_cell md5_sum codes none connection_keyspace local_data
                          proxy_port clause names row_count false alone local (suc i) hosts false
                          grown.1 later)) [
                            | inr (q, k) ↦ absurd (ground (arith, keeps, n, k, e))
                            | inl (more, k) ↦
                                let (rest, rest') =
                                  peer_rows_lem names row_count alone local (suc i) hosts false
                                    grown.1 later more k in
                                ground (arith, keeps, n, k, e, cells, filled, rest, rest')
                          ]
                ]
      ]

  kept-past : (local i : ℕ) (hosts : List HostRow) → local < i → kept false local i hosts ≡ hosts
  kept-past local i [] lt = refl
  kept-past local i (h ∷ hosts) lt =
      ground (arith, lt, kept-past local (suc i) hosts (omega (arith, lt)))

  kept-remove_at : (k i : ℕ) (hosts : List HostRow) → kept false (i + k) i hosts ≡ remove_at k hosts
  kept-remove_at k i [] = refl
  kept-remove_at zero i (h ∷ hosts) = ground (arith, kept-past (i + 0) (suc i) hosts (omega arith))
  kept-remove_at (suc k) i (h ∷ hosts) =
      let same : i + suc k ≡ suc i + k = omega arith in
      ground (arith, same, kept-remove_at k (suc i) hosts)

  encode_rows_result_ok :
      (cols columns : List SystemColumn) (shown : List (List Cell))
      (table : List (List (Option (List ℕ))))
      → encode_rows_result encode_cell cols shown ≡ ok (rows columns table)
      → (cols ≡ columns) × (encode_rows encode_cell columns shown ≡ ok table)
  unfolding encode_rows_result
  encode_rows_result_ok cols columns shown table e =
      elim (Result-cases (encode_rows encode_cell cols shown)) [
        | inr (q, m) ↦ absurd (ground (arith, m, e))
        | inl (t, m) ↦ ground (arith, m, e)
      ]

  filled_several :
      (local : ℕ) (h g : HostRow) (others : List HostRow)
      → is_filled (kept false local 0 (h ∷ g ∷ others)) ≡ true
  filled_several zero h g others = refl
  filled_several (suc local) h g others = ground arith

  -- Where the proxy is alone, its own row is taken back; otherwise it is left out.
  kept_others :
      (local : ℕ) (h : HostRow) (others : List HostRow)
      → local < suc (length others)
      → let alone = eqb (suc (length others)) 1 in
        (is_filled (kept alone local 0 (h ∷ others)) ≡ true)
        × ((if alone then [] else kept alone local 0 (h ∷ others)) ≡ remove_at local (h ∷ others))
        × ((if alone then eqb local 0 else true) ≡ true)
  kept_others local h [] lt = ground (arith, lt)
  kept_others local h (g ∷ others) lt =
      let several : eqb (suc (suc (length others))) 1 ≡ false = ground arith in
      let same : 0 + local ≡ local = omega arith in
      let whole : kept false local 0 (h ∷ g ∷ others) ≡ remove_at local (h ∷ g ∷ others) =
        subst (λ n. kept false n 0 (h ∷ g ∷ others) ≡ remove_at local (h ∷ g ∷ others)) same
          (kept-remove_at local 0 (h ∷ g ∷ others)) in
      subst
        (λ alone.
          (is_filled (kept alone local 0 (h ∷ g ∷ others)) ≡ true)
          × ((if alone then [] else kept alone local 0 (h ∷ g ∷ others))
              ≡ remove_at local (h ∷ g ∷ others))
          × ((if alone then eqb local 0 else true) ≡ true))
        (sym several) (filled_several local h g others, whole, refl)

  -- The answer to a query of system.peers with selectors but no count(*), where there is one and this
  -- proxy is among the virtual hosts, has a row of the selectors' values for each virtual host but
  -- this proxy's, in their order, encoded, with columns that have the selectors' names.
  pub peers_result_lem :
      (names : List String) (h : HostRow) (others : List HostRow) (local : ℕ)
      (cols columns : List SystemColumn) (table : List (List (Option (List ℕ))))
      → local < suc (length others)
      → filter_system_columns clause system_peers_columns "peers" ≡ ok (cols, false)
      → new_system_peers_result encode_cell md5_sum codes none connection_keyspace local_data
          proxy_port clause names
          (h ∷ others)
          local
        ≡ ok (rows columns table)
      → (map (λ (c : SystemColumn). c.name) columns ≡ map selector_name selectors)
        × (encode_rows encode_cell columns
              (map (peer_row names (length others)) (remove_at local (h ∷ others)))
            ≡ ok table)
  unfolding new_system_peers_result peer_data
  peers_result_lem names h others local cols columns table lt n e =
      let hosts : List HostRow = h ∷ others in
      let alone : Bool = eqb (suc (length others)) 1 in
      let (filled, removed, first) = kept_others local h others lt in
      elim (Result-cases (
        peer_rows encode_cell md5_sum codes none connection_keyspace local_data proxy_port clause
          names (suc (length others) - 1) false alone local 0 hosts true [] cols)) [
            | inr (q, k) ↦ absurd (ground (arith, n, k, e))
            | inl (all, k) ↦
                let (cells, head) =
                  peer_rows_lem names (suc (length others) - 1) alone local 0 hosts true [] cols all
                    k in
                let count : suc (length others) - 1 ≡ length others = omega arith in
                let shown : List (List Cell) = if alone then [] else all.0 in
                let row : HostRow → List Cell = peer_row names (suc (length others) - 1) in
                let shown_rows : shown ≡ map row (remove_at local hosts) = elim (Bool-cases alone) [
                  | inl a ↦ ground (arith, a, removed)
                  | inr a ↦ ground (arith, a, removed, cells)
                ] in
                let names_of =
                  filter_system_names clause selectors system_peers_columns "peers" (cols, false)
                    named n in
                let outcome : encode_rows_result encode_cell all.1 shown ≡ ok (rows columns table) =
                  elim (Bool-cases alone) [
                    | inl a ↦ ground (arith, a, n, k, e, first)
                    | inr a ↦ ground (arith, a, n, k, e)
                  ] in
                let (same, encoded) = encode_rows_result_ok all.1 columns shown table outcome in
                ground (arith, same, encoded, shown_rows, names_of, head, filled, count)
          ]
