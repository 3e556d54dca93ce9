-- ===== src/Replacement/Tests.antt =====
-- The replacement of calls of now() on a small query: "[now()]", whose call is from 1 to 5.
use zdm_proxy.Prelude.{
  ℕ, ◌≡◌, refl, true, false, some, List, [], ◌∷◌, ◌++◌, String, negsuc, drop, arith,
}
use zdm_proxy.Query.{
  Term, FunctionCall, is_now, QueryInfo, StatementType, new_positional_bind_marker_term,
}
use zdm_proxy.Samples.{statement_on}
use zdm_proxy.Replacement.{
  replace_function_calls, replace_statements, replace_terms, replace_term, replace_call, write,
  now_with_positional_marker,
}
use zdm_proxy.Replacement.Rewriting.{OnlyNow, Rewrites, now_calls_replaced}
use zdm_proxy.Replacement.Calls.{now_terms, all_terms}

abbrev no_bytes : String → List ℕ
no_bytes s = []

only_now_positional : (query : List ℕ) → OnlyNow no_bytes (now_with_positional_marker {S = ℕ}) query
unfolding now_with_positional_marker
only_now_positional query f s = ground arith

abbrev call : FunctionCall
call = record { keyspace = ""; name = "now"; arity = 0; start_index = 1; stop_index = 5 }

abbrev call_term : Term
call_term = record {
  function_call = some call;
  previous_positional_index = negsuc 0;
  positional_index = negsuc 0;
  bind_marker_name = "";
  literal = "";
}

abbrev pub statement : QueryInfo
statement = record (statement_on StatementType.insert "ks" "t") {
  query = 91 ∷ 110 ∷ 111 ∷ 119 ∷ 40 ∷ 41 ∷ 93 ∷ [];
  now_function_calls = true;
  parsed_statements =
      record { statement_index = 0; statement_type = StatementType.insert; terms = call_term ∷ [] }
      ∷ [];
}

replaced :
    (q : QueryInfo) × (terms : List Term) × (s : ℕ) × (replace_function_calls no_bytes
        now_with_positional_marker statement 0
      ≡ some (q, terms, s))
unfolding replace_function_calls replace_statements replace_terms replace_term replace_call write
    now_with_positional_marker is_now new_positional_bind_marker_term
replaced = (_, _, _, refl)

now_calls_replaced_example :
    (replaced.1 ≡ now_terms (all_terms statement.parsed_statements))
    × (replaced.0.now_function_calls ≡ false)
    × ((out : List ℕ) × (j : ℕ) × Rewrites no_bytes
          (now_with_positional_marker {S = ℕ})
          statement.query
          0
          replaced.1
          out
          j
        × (replaced.0.query ≡ out ++ drop j statement.query))
now_calls_replaced_example =
    now_calls_replaced no_bytes now_with_positional_marker statement replaced.0 0 replaced.2
      replaced.1 (only_now_positional statement.query) refl replaced.3

-- "[now()]" has become "[?]".
marked : replaced.0.query ≡ 91 ∷ 63 ∷ 93 ∷ []
unfolding replaced
marked = refl
