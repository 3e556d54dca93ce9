-- ===== src/Query.antt =====
-- proxy/pkg/zdmproxy/queryinspector.go: what the inspection of a CQL statement yields. The walk over
-- the parse tree, which the generated parser drives, is not modelled.
use zdm_proxy.Prelude.{
  ℕ, zero, suc, Bool, ◌&&◌, ◌||◌, not, Option, none, some, List, String, ℤ, pos, negsuc, int_beq,
  ◌==◌, string_eq, nat_eq, is_some,
}

-- statementType
pub data StatementType : Type 0 where
  insert update delete batch select use_keyspace other : StatementType

-- The indices are the first and the last position of the call in the query.
pub record FunctionCall : Type 0 where
  pub keyspace : String
  pub name : String
  pub arity : ℕ
  pub start_index : ℕ
  pub stop_index : ℕ

abbrev pub system_keyspace_name : String
system_keyspace_name = "system"

abbrev pub now_function_name : String
now_function_name = "now"

abbrev pub zdm_now_named_marker : String
zdm_now_named_marker = "zdm__now"

unfoldable pub is_now : FunctionCall → Bool
is_now f =
    (f.keyspace == "" || f.keyspace == system_keyspace_name)
    && f.name == now_function_name
    && f.arity == 0

-- A literal, a function call or a bind marker. -1 stands for no index.
pub record Term : Type 0 where
  pub function_call : Option FunctionCall
  pub previous_positional_index : ℤ
  pub positional_index : ℤ
  pub bind_marker_name : String
  pub literal : String

abbrev pub minus_one : ℤ
minus_one = negsuc 0

-- position - 1
abbrev pub int_pred : ℤ → ℤ
int_pred (pos zero) = negsuc 0
int_pred (pos (suc n)) = pos n
int_pred (negsuc n) = negsuc (suc n)

abbrev pub int_suc : ℤ → ℤ
int_suc (pos n) = pos (suc n)
int_suc (negsuc zero) = pos 0
int_suc (negsuc (suc n)) = negsuc n

unfoldable pub new_named_bind_marker_term : String → ℤ → Term
new_named_bind_marker_term name previous = record {
  function_call = none;
  previous_positional_index = previous;
  positional_index = minus_one;
  bind_marker_name = name;
  literal = "";
}

unfoldable pub new_positional_bind_marker_term : ℤ → Term
new_positional_bind_marker_term position = record {
  function_call = none;
  previous_positional_index = int_pred position;
  positional_index = position;
  bind_marker_name = "";
  literal = "";
}

unfoldable pub new_literal_term : String → ℤ → Term
new_literal_term literal previous = record {
  function_call = none;
  previous_positional_index = previous;
  positional_index = minus_one;
  bind_marker_name = "";
  literal = literal;
}

unfoldable pub new_function_call_term : FunctionCall → ℤ → Term
new_function_call_term call previous = record {
  function_call = some call;
  previous_positional_index = previous;
  positional_index = minus_one;
  bind_marker_name = "";
  literal = "";
}

abbrev pub is_function_call : Term → Bool
is_function_call t = is_some t.function_call

abbrev pub is_positional_bind_marker : Term → Bool
is_positional_bind_marker t = not (int_beq t.positional_index minus_one)

abbrev pub is_named_bind_marker : Term → Bool
is_named_bind_marker t = not (t.bind_marker_name == "")

-- An unaliased identifier, count(*), or either of them under an alias.
pub data Selector : Type 0 where
  id_selector count_selector : String → Selector
  aliased_selector : Selector → String → Selector

-- `none` for the star.
pub record SelectClause : Type 0 where
  pub selectors : Option (List Selector)

pub record ParsedStatement : Type 0 where
  pub statement_index : ℕ
  pub statement_type : StatementType
  pub terms : List Term

-- cqlListener, the one implementation of QueryInfo. A query is the list of its bytes.
pub record QueryInfo : Type 0 where
  pub query : List ℕ
  pub statement_type : StatementType
  pub keyspace_name : String
  pub table_name : String
  pub request_keyspace : String
  pub parsed_select_clause : Option SelectClause
  pub parsed_statements : List ParsedStatement
  pub positional_bind_markers : Bool
  pub named_bind_markers : Bool
  pub now_function_calls : Bool
