-- ===== src/Parameters.antt =====
-- proxy/pkg/zdmproxy/parametermodifier.go: the values that an EXECUTE or a BATCH needs for the calls
-- of now() that the proxy took out of the prepared statement. The column types' codecs are the
-- library's, and with them generateTimeUuidValue is the parameter `encode`.
pub mod Positional
pub mod Places
pub mod Completion
pub mod Named
pub mod Uuids
mod Tests
use zdm_proxy.Prelude.{
  ℕ, zero, suc, ◌+◌, ◌-◌, Bool, true, false, ◌&&◌, Option, none, some, List, [], ◌∷◌, ◌++◌, String,
  string_eq, ◌==◌, ℤ, pos, negsuc, ltb, leb, length, get_elem?, take, drop, lookup, insert,
  if◌then◌else◌, Result, ok, err, ◌>>=◌,
}
use zdm_proxy.Query.{Term, is_now, is_function_call, zdm_now_named_marker}
use zdm_proxy.RequestInfo.{ColumnMetadata, VariablesMetadata, PrepareRequestInfo}
use zdm_proxy.Messages.{Value, QueryOptions, ExecuteMessage, BatchChild}

abbrev pub Uuid : Type 0
Uuid = List ℕ

-- `panics` stands for a nil pointer or an index that Go refuses.
pub data ParameterError : Type 0 where
  previous_index_too_large : ℕ → ParameterError
  no_column no_uuid no_value : ℕ → ParameterError
  not_encoded : ParameterError
  unknown_column : String → ParameterError
  panics : ParameterError

-- A call of now(). A term without a call would panic, which isFunctionCall keeps out.
unfoldable pub is_now_call : Term → Bool
is_now_call t = elim t.function_call [ none ↦ false | some f ↦ is_now f ]

-- The TimeUuidGenerator, an interface: its state is `S`.
module _ {S : Type 0} (get_time_uuid : S → Uuid × S) where
  -- The comparison by == calls isNow on a nil call where the term has none.
  unfoldable pub generate_time_uuids : List Term → S → Option (List Uuid × S)
  generate_time_uuids [] s = some ([], s)
  generate_time_uuids (t ∷ terms) s =
      let (u, s') = get_time_uuid s in
      let after = generate_time_uuids terms s' in
      let others = generate_time_uuids terms s in
      elim t.function_call [
        | none ↦ none
        | some f ↦
            if is_now f
            then elim after [ none ↦ none | some (us, s'') ↦ some (u ∷ us, s'') ]
            else others
      ]

-- Columns[i] and uuids[i], with the checks before them.
unfoldable pub column_at : ℕ → List ColumnMetadata → Result ParameterError ColumnMetadata
column_at i columns = elim (get_elem? columns i) [ none ↦ err (no_column i) | some c ↦ ok c ]

unfoldable pub uuid_at : ℕ → List Uuid → Result ParameterError Uuid
uuid_at i uuids = elim (get_elem? uuids i) [ none ↦ err (no_uuid i) | some u ↦ ok u ]

-- values[start:end], for an end that is in range.
unfoldable pub slice : ℕ → ℕ → List Value → Result ParameterError (List Value)
slice start end values =
    if leb start end then ok (take (end - start) (drop start values)) else err panics

-- offset + previousPositionalIndex + 1, `none` if it is negative.
unfoldable pub new_value_index : ℕ → ℤ → Option ℕ
new_value_index offset (pos n) = some (offset + n + 1)
new_value_index offset (negsuc n) = if leb n offset then some (offset - n) else none

module _ (encode : Uuid → String → Option Value) where
  unfoldable pub generate_time_uuid_value : Uuid → String → Result ParameterError Value
  generate_time_uuid_value u data_type = elim (encode u data_type) [
    | none ↦ err not_encoded
    | some v ↦ ok v
  ]

  module _ (values : List Value) (columns : List ColumnMetadata) (uuids : List Uuid) where
    -- The original values before a term: what is copied, and the new start.
    unfoldable pub copy_before : ℤ → ℕ → Result ParameterError (List Value × ℕ)
    unfolding slice
    copy_before (negsuc n) start = ok ([], start)
    copy_before (pos n) start =
        if leb (length values) n
        then err (previous_index_too_large n)
        else slice start (suc n) values >>= λ copied. ok (copied, suc n)

    -- The value for a call of now(). A negative index passes the checks and panics.
    unfoldable pub new_value : ℕ → ℤ → ℕ → Result ParameterError Value
    unfolding new_value_index column_at uuid_at generate_time_uuid_value
    new_value offset previous replacement = elim (new_value_index offset previous) [
      | none ↦ uuid_at replacement uuids >>= λ u. err panics
      | some i ↦ column_at i columns >>= λ c.
          uuid_at replacement uuids >>= λ u. generate_time_uuid_value u c.data_type
    ]

    -- The loop of addPositionalValuesForReplacedPositionalMarkers. `offset` and `replacementIdx`
    -- start at 0 and grow together.
    unfoldable pub positional_loop : List Term → ℕ → ℕ → Result ParameterError (List Value)
    unfolding copy_before new_value is_now_call
    positional_loop [] start added = ok (drop start values)
    positional_loop (t ∷ terms) start added = copy_before t.previous_positional_index start >>= λ c.
        let more = positional_loop terms c.1 (suc added) in
        let others = positional_loop terms c.1 added in
        if is_now_call t
        then (new_value added t.previous_positional_index added >>= λ v.
            more >>= λ vs. ok (c.0 ++ (v ∷ vs)))
        else (others >>= λ vs. ok (c.0 ++ vs))

    unfoldable pub add_positional_values_for_replaced_positional_markers :
        List Term → Result ParameterError (List Value)
    unfolding positional_loop
    add_positional_values_for_replaced_positional_markers terms = positional_loop terms 0 0

  module _ (values : List Value) (uuids : List Uuid) where
    unfoldable pub named_marker_loop :
        List ColumnMetadata → ℕ → ℕ → Result ParameterError (List Value)
    unfolding uuid_at generate_time_uuid_value
    named_marker_loop [] replacement current = ok []
    named_marker_loop (c ∷ columns) replacement current =
        let after_new = named_marker_loop columns (suc replacement) current in
        let after_copy = named_marker_loop columns replacement (suc current) in
        if c.name == zdm_now_named_marker
        then (uuid_at replacement uuids >>= λ u.
            generate_time_uuid_value u c.data_type >>= λ v. after_new >>= λ vs. ok (v ∷ vs))
        else elim (get_elem? values current) [
          | none ↦ err (no_value current)
          | some v ↦ after_copy >>= λ vs. ok (v ∷ vs)
        ]

    unfoldable pub add_positional_values_for_replaced_named_markers :
        List ColumnMetadata → Result ParameterError (List Value)
    unfolding named_marker_loop
    add_positional_values_for_replaced_named_markers columns = named_marker_loop columns 0 0

  unfoldable pub add_positional_values_for_replaced_terms :
      List Value
      → PrepareRequestInfo
      → VariablesMetadata
      → List Uuid
      → Result ParameterError (List Value)
  unfolding add_positional_values_for_replaced_positional_markers
      add_positional_values_for_replaced_named_markers
  add_positional_values_for_replaced_terms values info metadata uuids =
      if info.contains_positional_markers
      then add_positional_values_for_replaced_positional_markers values metadata.columns uuids
          info.replaced_terms
      else add_positional_values_for_replaced_named_markers values uuids metadata.columns

  -- addNamedValuesForReplacedNamedMarkers.
  unfoldable pub named_loop :
      List Uuid
      → List ColumnMetadata
      → ℕ
      → List (String × Value)
      → Result ParameterError (List (String × Value))
  unfolding uuid_at generate_time_uuid_value
  named_loop uuids [] replacement named = ok named
  named_loop uuids (c ∷ columns) replacement named =
      let others = named_loop uuids columns replacement named in
      if c.name == "" then others else elim (lookup c.name named) [
        | some v ↦ others
        | none ↦
            if c.name == zdm_now_named_marker
            then (uuid_at replacement uuids >>= λ u. generate_time_uuid_value u c.data_type >>= λ v.
                named_loop uuids columns (suc replacement) (insert zdm_now_named_marker v named))
            else err (unknown_column c.name)
      ]

  abbrev pub no_options : QueryOptions
  no_options = record { positional_values = []; named_values = [] }

  unfoldable pub add_values_to_options :
      QueryOptions
      → PrepareRequestInfo
      → VariablesMetadata
      → List Uuid
      → Result ParameterError QueryOptions
  unfolding named_loop add_positional_values_for_replaced_terms
  add_values_to_options options info metadata uuids = elim options.named_values [
    | [] ↦ do
      vs ← add_positional_values_for_replaced_terms options.positional_values info metadata uuids
      ok (record options { positional_values = vs })
    | n ∷ ns ↦ do
      named ← named_loop uuids metadata.columns 0 (n ∷ ns)
      ok (record options { named_values = named })
  ]

  unfoldable pub add_values_to_execute_message :
      ExecuteMessage
      → PrepareRequestInfo
      → VariablesMetadata
      → List Uuid
      → Result ParameterError ExecuteMessage
  unfolding add_values_to_options
  add_values_to_execute_message m info metadata uuids = do
    o ←
        add_values_to_options (elim m.options [ none ↦ no_options | some o ↦ o ]) info metadata
          uuids
    ok (record m { options = some o })

  unfoldable pub add_values_to_execute_frame :
      ExecuteMessage
      → PrepareRequestInfo
      → VariablesMetadata
      → List Uuid
      → Result ParameterError ExecuteMessage
  unfolding add_values_to_execute_message
  add_values_to_execute_frame m info metadata uuids = elim info.replaced_terms [
    | [] ↦ ok m
    | t ∷ terms ↦ add_values_to_execute_message m info metadata uuids
  ]

  unfoldable pub add_values_to_batch_child :
      BatchChild
      → PrepareRequestInfo
      → VariablesMetadata
      → List Uuid
      → Result ParameterError BatchChild
  unfolding add_positional_values_for_replaced_terms
  add_values_to_batch_child child info metadata uuids = do
    vs ← add_positional_values_for_replaced_terms child.values info metadata uuids
    ok (record child { values = vs })
