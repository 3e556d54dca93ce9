-- ===== src/Replacement.antt =====
-- proxy/pkg/zdmproxy/queryinspector.go: replaceFunctionCalls, which writes a statement anew with
-- something in the place of the calls of now(). A Go string is its bytes: `bytes` gives them.
pub mod Calls
pub mod Rewriting
pub mod Tests
use zdm_proxy.Prelude.{
  ℕ, suc, ◌+◌, ◌-◌, Bool, true, false, ◌&&◌, ◌||◌, not, Option, none, some, List, [], ◌∷◌, ◌++◌,
  String, ℤ, pos, leb, length, take, drop, if◌then◌else◌,
}
use zdm_proxy.Query.{
  Term, FunctionCall, is_now, ParsedStatement, QueryInfo, zdm_now_named_marker, new_literal_term,
  new_named_bind_marker_term, new_positional_bind_marker_term, is_positional_bind_marker,
  is_named_bind_marker,
}

-- What a replacement function returns: the text and the replacementType. A named marker's text has a
-- colon before the name.
pub data Replacement : Type 0 where
  no_replacement positional_marker : Replacement
  literal named_marker : String → Replacement

-- The variables of the loop; `generator` is the state of the TimeUuidGenerator.
pub record Progress (S : Type 0) : Type 0 where
  pub result : List ℕ
  pub next : ℕ
  pub replaced_terms : List Term
  pub previous_positional_index : ℕ
  pub named_markers : Bool
  pub positional_markers : Bool
  pub generator : S

module _ {S : Type 0} (bytes : String → List ℕ) (replacement : FunctionCall → S → S × Replacement)
    (query : List ℕ) where
  abbrev pub text_of : Replacement → List ℕ
  text_of no_replacement = []
  text_of positional_marker = 63 ∷ []
  text_of (literal s) = bytes s
  text_of (named_marker name) = 58 ∷ bytes name

  -- result + query[i:startIndex] + replacement; `none` for a slice that panics.
  unfoldable pub write : Term → FunctionCall → Replacement → Progress S → Option (Progress S)
  write t f r p =
      if leb p.next f.start_index && leb f.start_index (length query)
      then some (record p {
        result = p.result ++ (take (f.start_index - p.next) (drop p.next query) ++ text_of r);
        next = f.stop_index + 1;
        replaced_terms = p.replaced_terms ++ (t ∷ []);
      })
      else none

  abbrev pub new_term : Term → Replacement → Progress S → Term × Progress S
  new_term t no_replacement p = (t, p)
  new_term t (literal s) p = (new_literal_term s t.previous_positional_index, p)
  new_term t (named_marker name) p =
      (new_named_bind_marker_term name t.previous_positional_index, p)
  new_term t positional_marker p = (
    new_positional_bind_marker_term (pos (p.previous_positional_index + 1)),
    record p { previous_positional_index = suc p.previous_positional_index },
  )

  abbrev pub is_replacement : Replacement → Bool
  is_replacement no_replacement = false
  is_replacement _ = true

  abbrev pub note_markers : Term × Progress S → Term × Progress S
  note_markers (t, p) =
      if is_positional_bind_marker t
      then (t, record p { positional_markers = true })
      else if is_named_bind_marker t
      then (t, record p { named_markers = true })
      else (t, p)

  unfoldable pub replace_call : Term → FunctionCall → Progress S → Option (Term × Progress S)
  unfolding write
  replace_call t f p =
      let (g, r) = replacement f p.generator in
      let p' = record p { generator = g } in
      if is_replacement r
      then elim (write t f r p') [ none ↦ none | some q ↦ some (new_term t r q) ]
      else some (t, p')

  abbrev pub noted : Option (Term × Progress S) → Option (Term × Progress S)
  noted none = none
  noted (some r) = some (note_markers r)

  unfoldable pub replace_term : Term → Progress S → Option (Term × Progress S)
  unfolding replace_call
  replace_term t p =
      noted (elim t.function_call [ none ↦ some (t, p) | some f ↦ replace_call t f p ])

  unfoldable pub replace_terms : List Term → Progress S → Option (List Term × Progress S)
  unfolding replace_term
  replace_terms [] p = some ([], p)
  replace_terms (t ∷ terms) p = elim (replace_term t p) [
    | none ↦ none
    | some r ↦ elim (replace_terms terms r.1) [ none ↦ none | some rs ↦ some (r.0 ∷ rs.0, rs.1) ]
  ]

  unfoldable pub replace_statements :
      List ParsedStatement → Progress S → Option (List ParsedStatement × Progress S)
  unfolding replace_terms
  replace_statements [] p = some ([], p)
  replace_statements (s ∷ statements) p = elim (replace_terms s.terms p) [
    | none ↦ none
    | some r ↦ elim (replace_statements statements r.1) [
      | none ↦ none
      | some rs ↦ some (record s { terms = r.0 } ∷ rs.0, rs.1)
    ]
  ]

abbrev pub at_start : {S : Type 0} → S → Progress S
at_start s = record {
  result = [];
  next = 0;
  replaced_terms = [];
  previous_positional_index = 0;
  named_markers = false;
  positional_markers = false;
  generator = s;
}

module _ {S : Type 0} (bytes : String → List ℕ)
    (replacement : FunctionCall → S → S × Replacement) where
  unfoldable pub replace_function_calls : QueryInfo → S → Option (QueryInfo × List Term × S)
  unfolding replace_statements
  replace_function_calls q s =
      if not q.now_function_calls
      then some (q, [], s)
      else elim (replace_statements bytes replacement q.query q.parsed_statements (at_start s)) [
        | none ↦ none
        | some r ↦
            if leb r.1.next (length q.query)
            then some (
              record q {
                query = r.1.result ++ drop r.1.next q.query;
                now_function_calls = false;
                parsed_statements = r.0;
                named_bind_markers = r.1.named_markers;
                positional_bind_markers = r.1.positional_markers;
              },
              r.1.replaced_terms,
              r.1.generator,
            )
            else none
      ]

-- The three replacement functions; `get_time_uuid` yields the text of a uuid.
unfoldable pub now_with_literal :
    {S : Type 0} → (S → String × S) → FunctionCall → S → S × Replacement
now_with_literal get_time_uuid f s =
    let (u, s') = get_time_uuid s in if is_now f then (s', literal u) else (s, no_replacement)

unfoldable pub now_with_positional_marker : {S : Type 0} → FunctionCall → S → S × Replacement
now_with_positional_marker f s = (s, if is_now f then positional_marker else no_replacement)

unfoldable pub now_with_named_marker : {S : Type 0} → FunctionCall → S → S × Replacement
now_with_named_marker f s =
    (s, if is_now f then named_marker zdm_now_named_marker else no_replacement)
