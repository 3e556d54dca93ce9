-- ===== src/PreparedResponse.antt =====
-- proxy/pkg/zdmproxy/clienthandler.go: processPreparedResponse, which takes the proxy's own markers out
-- of what the client learns of a prepared statement, and stores the statement.
pub mod Columns
pub mod Storing
mod Tests
pub mod Positions
use Prim.Native.Nat.{Ordering}
use Prim.Native.String.{compare}
use zdm_proxy.Prelude.{
  ℕ, zero, suc, ◌+◌, ◌-◌, Bool, true, false, ◌&&◌, Option, none, some, List, [], ◌∷◌, ◌++◌, String,
  ltb, leb, eqb, length, take, drop, string_eq, ◌==◌, if◌then◌else◌, Result, ok, err, ◌>>=◌,
}
use zdm_proxy.Protocol.{RawFrame}
use zdm_proxy.Query.{Term, zdm_now_named_marker}
use zdm_proxy.RequestInfo.{
  RequestInfo, prepare, PrepareRequestInfo, ColumnMetadata, VariablesMetadata,
}
use zdm_proxy.PreparedCache.{PreparedResult, PreparedStatementCache, store}
use zdm_proxy.Parameters.{new_value_index}

-- message.PreparedResult with an id that may be nil.
pub record PreparedBody : Type 0 where
  pub prepared_query_id : Option (List ℕ)
  pub variables_metadata : Option VariablesMetadata

abbrev pub id_or_empty : Option (List ℕ) → List ℕ
id_or_empty none = []
id_or_empty (some id) = id

abbrev pub stored_result : PreparedBody → PreparedResult
stored_result b = record {
  prepared_query_id = id_or_empty b.prepared_query_id;
  variables_metadata = b.variables_metadata;
}

pub data PreparedError : Type 0 where
  nil_id not_prepare no_target_response target_not_decoded target_not_prepared : PreparedError
  no_variables too_few_columns slice_panics : PreparedError

-- sort.SearchInts of a sorted slice: the first index whose element is not less, or the length.
unfoldable pub search_ints : List ℕ → ℕ → ℕ
search_ints [] x = 0
search_ints (a ∷ rest) x = let further = search_ints rest x in if ltb a x then suc further else 0

-- sort.Ints
abbrev pub insert_int : ℕ → List ℕ → List ℕ
insert_int x [] = x ∷ []
insert_int x (a ∷ rest) =
    let further = insert_int x rest in if leb x a then x ∷ a ∷ rest else a ∷ further

unfoldable pub sort_ints : List ℕ → List ℕ
sort_ints [] = []
sort_ints (x ∷ rest) = insert_int x (sort_ints rest)

-- sort.SearchStrings in the one marker, which is the length of the slice if the marker is less.
unfoldable pub found_in_markers : String → Bool
found_in_markers name = elim (compare zdm_now_named_marker name) [ Ordering.lt ↦ false | _ ↦ true ]

unfoldable pub filter_pk_indices : List ℕ → List ℕ → List ℕ
unfolding search_ints
filter_pk_indices removed [] = []
filter_pk_indices removed (pk ∷ rest) =
    let others = filter_pk_indices removed rest in
    if eqb (search_ints removed pk) (length removed) then pk ∷ others else others

-- `if len(indicesToRemove) > 0 && len(PkIndices) > 0`
unfoldable pub new_pk_indices : List ℕ → List ℕ → List ℕ
unfolding sort_ints filter_pk_indices
new_pk_indices [] pks = pks
new_pk_indices (i ∷ removed) pks = filter_pk_indices (sort_ints (i ∷ removed)) pks

-- The positions of the proxy's markers, `none` for a negative one.
unfoldable pub positional_markers_to_remove : ℕ → List Term → List (Option ℕ)
unfolding new_value_index
positional_markers_to_remove offset [] = []
positional_markers_to_remove offset (t ∷ terms) =
    new_value_index offset t.previous_positional_index
    ∷ positional_markers_to_remove (suc offset) terms

module _ (columns : List ColumnMetadata) where
  -- columns[start:end]
  abbrev pub columns_between : ℕ → ℕ → List ColumnMetadata
  columns_between start end = take (end - start) (drop start columns)

  -- The loop over the positions: the indices that are removed and the columns that stay.
  unfoldable pub remove_positions :
      List (Option ℕ) → ℕ → Result PreparedError (List ℕ × List ColumnMetadata)
  remove_positions [] start = ok ([], drop start columns)
  remove_positions (none ∷ positions) start = err slice_panics
  remove_positions (some p ∷ positions) start =
      let after = remove_positions positions (suc p) in
      let others = remove_positions positions start in
      if ltb (p + 1) (length columns)
      then (if leb start p
          then (after >>= λ r. ok (p ∷ r.0, columns_between start p ++ r.1))
          else err slice_panics)
      else others

  -- The loop over the columns.
  unfoldable pub remove_named : List ColumnMetadata → ℕ → ℕ → List ℕ × List ColumnMetadata
  remove_named [] idx start = ([], drop start columns)
  remove_named (c ∷ cs) idx start =
      let after = remove_named cs (suc idx) (suc idx) in
      let others = remove_named cs (suc idx) start in
      if c.name == ""
      then others
      else if found_in_markers c.name
      then (idx ∷ after.0, columns_between start idx ++ after.1)
      else others

abbrev pub with_columns : VariablesMetadata → List ℕ → List ColumnMetadata → VariablesMetadata
with_columns v removed columns = record v {
  columns = columns;
  pk_indices = new_pk_indices removed v.pk_indices;
}

unfoldable pub without_markers :
    PrepareRequestInfo → VariablesMetadata → Result PreparedError VariablesMetadata
unfolding positional_markers_to_remove remove_positions remove_named new_pk_indices
without_markers info v =
    let positions = positional_markers_to_remove 0 info.replaced_terms in
    if info.contains_positional_markers
    then (if ltb (length v.columns) (length positions)
        then err too_few_columns
        else (remove_positions v.columns positions 0 >>= λ r. ok (with_columns v r.0 r.1)))
    else (let r = remove_named v.columns v.columns 0 0 in ok (with_columns v r.0 r.1))

-- The response that the client gets.
unfoldable pub client_body : PrepareRequestInfo → PreparedBody → Result PreparedError PreparedBody
unfolding without_markers
client_body info b = elim info.replaced_terms [
  | [] ↦ ok b
  | t ∷ terms ↦ elim b.variables_metadata [
    | none ↦ err no_variables
    | some v ↦ without_markers info v >>= λ v'. ok (record b { variables_metadata = some v' })
  ]
]

-- `decode` is the library's DecodeBody: an error, another message, or a prepared result.
unfoldable pub process_prepared_response :
    (RawFrame → Option (Option PreparedBody))
    → PreparedBody
    → RequestInfo
    → Option RawFrame
    → PreparedStatementCache
    → Result PreparedError (PreparedBody × PreparedStatementCache)
unfolding client_body
process_prepared_response decode b info target_response psc = elim b.prepared_query_id [
  | none ↦ err nil_id
  | some id ↦ elim info [
    | prepare p ↦ elim target_response [
      | none ↦ err no_target_response
      | some f ↦ elim (decode f) [
        | none ↦ err target_not_decoded
        | some m ↦ elim m [
          | none ↦ err target_not_prepared
          | some t ↦
              client_body p b >>= λ b'. ok (b', store (stored_result b) (stored_result t) p psc)
        ]
      ]
    ]
    | _ ↦ err not_prepare
  ]
]
