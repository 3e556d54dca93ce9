-- ===== src/QueryModifier/Tests.antt =====
-- The query modifier on a small batch.
use zdm_proxy.Prelude.{ℕ, ◌≡◌, refl, none, some, List, [], ◌∷◌, String, false, ok}
use zdm_proxy.Replacement.Tests.{statement}
use zdm_proxy.Replacement.{
  replace_function_calls, replace_statements, replace_terms, replace_term, replace_call, write,
  now_with_literal,
}
use zdm_proxy.Query.{is_now, new_literal_term}
use zdm_proxy.Messages.{Message, BatchMessage, StatementQueryData, StatementReplacedTerms}
use zdm_proxy.QueryModifier.{
  replace_query_in_batch_message, replace_statements_of_batch, replace_statement, replaced_by,
  set_child_queries, set_child_query,
}

abbrev no_bytes : String → List ℕ
no_bytes s = []

abbrev next_text : ℕ → String × ℕ
next_text n = ("", n)

abbrev two_children : BatchMessage
two_children = record {
  children =
      record { id = some (5 ∷ []); query = []; values = (1 ∷ []) ∷ [] }
      ∷ record { id = none; query = 65 ∷ []; values = [] }
      ∷ [];
  options = record { flagged = false; keyspace = "" };
}

abbrev one_statement : List StatementQueryData
one_statement = record { statement_index = 1; query_data = statement } ∷ []

modified :
    (m : Message) × (terms : List StatementReplacedTerms) × (statements : List StatementQueryData)
    × (replace_query_in_batch_message no_bytes next_text
          (Message.batch two_children)
          one_statement
          0
        ≡ (0, ok (m, terms, statements)))
unfolding replace_query_in_batch_message replace_statements_of_batch replace_statement replaced_by
    set_child_queries set_child_query replace_function_calls replace_statements replace_terms
    replace_term replace_call write now_with_literal is_now new_literal_term
modified = (_, _, _, refl)
