-- ===== src/QueryModifier.antt =====
-- proxy/pkg/zdmproxy/querymodifier.go: the calls of now() are taken out of QUERY, PREPARE and BATCH
-- frames. The library's encoder is the parameter `encode`; `get_time_uuid` is the uuid generator.
pub mod Unchanged
pub mod Headers
mod Tests
use zdm_proxy.Prelude.{
  ℕ, zero, suc, Bool, true, false, Option, none, some, List, [], ◌∷◌, String, length, if◌then◌else◌,
  Result, ok, err, ◌>>=◌,
}
use zdm_proxy.Protocol.{Header, RawFrame, OpCode, ProtocolVersions}
use zdm_proxy.Query.{Term, QueryInfo, FunctionCall}
use zdm_proxy.Messages.{
  Message, BatchChild, Codec, StatementQueryData, StatementReplacedTerms, FrameDecodeContext,
  RequestError, not_inspectable, get_or_decode_and_inspect,
}
use zdm_proxy.Replacement.{
  Replacement, replace_function_calls, now_with_literal, now_with_positional_marker,
  now_with_named_marker,
}

pub data ModifierError : Type 0 where
  not_inspected : RequestError → ModifierError
  single_statement_expected : ℕ → ModifierError
  other_message_expected unrecognized_op_code not_encoded replacement_panics : ModifierError
  no_such_child : ℕ → ModifierError

module _ {S : Type 0} (bytes : String → List ℕ) (get_time_uuid : S → String × S) where
  -- The generator goes on where it is, whether the replacement succeeds or not.
  abbrev pub Modified : Type 0
  Modified =
      S × Result ModifierError (Message × List StatementReplacedTerms × List StatementQueryData)

  -- One of the three replacements of a statement's query.
  unfoldable pub replaced_by :
      (FunctionCall → S → S × Replacement)
      → StatementQueryData
      → S
      → S × Result ModifierError (StatementQueryData × List Term)
  replaced_by replacement d s = elim (replace_function_calls bytes replacement d.query_data s) [
    | none ↦ (s, err replacement_panics)
    | some (q, terms, s') ↦ (s', ok (record d { query_data = q }, terms))
  ]

  abbrev pub replaced_terms_at : ℕ → List Term → List StatementReplacedTerms
  replaced_terms_at i terms = record { statement_index = i; replaced_terms = terms } ∷ []

  unfoldable pub replace_query_in_query_message : Message → List StatementQueryData → S → Modified
  unfolding replaced_by
  replace_query_in_query_message m (d ∷ []) s =
      let (s', r) = replaced_by (now_with_literal get_time_uuid) d s in
      if d.query_data.now_function_calls
      then (
        s',
        (r >>= λ new. elim m [
          | Message.query q ↦ ok (
            Message.query (record q { query = new.0.query_data.query }),
            replaced_terms_at 0 new.1,
            new.0 ∷ [],
          )
          | _ ↦ err other_message_expected
        ]),
      )
      else (s, ok (m, [], d ∷ []))
  replace_query_in_query_message m statements s =
      (s, err (single_statement_expected (length statements)))

  unfoldable pub replace_query_in_prepare_message : Message → List StatementQueryData → S → Modified
  unfolding replaced_by
  replace_query_in_prepare_message m (d ∷ []) s =
      let (s', r) =
        replaced_by
          (if d.query_data.named_bind_markers
            then now_with_named_marker
            else now_with_positional_marker)
          d s in
      if d.query_data.now_function_calls
      then (
        s',
        (r >>= λ new. elim m [
          | Message.prepare q ↦ ok (
            Message.prepare (record q { query = new.0.query_data.query }),
            replaced_terms_at 0 new.1,
            new.0 ∷ [],
          )
          | _ ↦ err other_message_expected
        ]),
      )
      else (s, ok (m, [], d ∷ []))
  replace_query_in_prepare_message m statements s =
      (s, err (single_statement_expected (length statements)))

  -- A round of the loop of replaceQueryInBatchMessage.
  unfoldable pub replace_statement :
      StatementQueryData → S → S × Result ModifierError (StatementQueryData × Option (List Term))
  unfolding replaced_by
  replace_statement d s =
      let (s', r) = replaced_by (now_with_literal get_time_uuid) d s in
      if d.query_data.now_function_calls
      then (s', (r >>= λ new. ok (new.0, some new.1)))
      else (s, ok (d, none))

  -- The loop over the statements: the new statements, with the replaced terms of those that are
  -- replaced. Its one error is a panic.
  unfoldable pub replace_statements_of_batch :
      List StatementQueryData
      → S
      → S × Result ModifierError (List (StatementQueryData × Option (List Term)))
  unfolding replace_statement
  replace_statements_of_batch [] s = (s, ok [])
  replace_statements_of_batch (d ∷ statements) s =
      let (s', r) = replace_statement d s in
      let (s'', rs) = replace_statements_of_batch statements s' in
      (s'', (r >>= λ new. rs >>= λ others. ok (new ∷ others)))

-- Children[index].Query = query
unfoldable pub set_child_query : ℕ → List ℕ → List BatchChild → Option (List BatchChild)
set_child_query i query [] = none
set_child_query zero query (c ∷ children) = some (record c { query = query } ∷ children)
set_child_query (suc i) query (c ∷ children) = elim (set_child_query i query children) [
  | none ↦ none
  | some cs ↦ some (c ∷ cs)
]

-- The second loop, over the statements that are replaced.
unfoldable pub set_child_queries :
    List (StatementQueryData × Option (List Term))
    → List BatchChild
    → Result ModifierError (List BatchChild)
unfolding set_child_query
set_child_queries [] children = ok children
set_child_queries ((d, none) ∷ rest) children = set_child_queries rest children
set_child_queries ((d, some terms) ∷ rest) children =
    elim (set_child_query d.statement_index d.query_data.query children) [
      | none ↦ err (no_such_child d.statement_index)
      | some cs ↦ set_child_queries rest cs
    ]

abbrev pub statements_only :
    List (StatementQueryData × Option (List Term)) → List StatementQueryData
statements_only [] = []
statements_only ((d, o) ∷ rest) = d ∷ statements_only rest

abbrev pub terms_only : List (StatementQueryData × Option (List Term)) → List StatementReplacedTerms
terms_only [] = []
terms_only ((d, none) ∷ rest) = terms_only rest
terms_only ((d, some terms) ∷ rest) =
    record { statement_index = d.statement_index; replaced_terms = terms } ∷ terms_only rest

module _ {S : Type 0} (bytes : String → List ℕ) (get_time_uuid : S → String × S) where
  unfoldable pub replace_query_in_batch_message :
      Message → List StatementQueryData → S → Modified bytes get_time_uuid
  unfolding replace_statements_of_batch set_child_queries
  replace_query_in_batch_message m statements s =
      let (s', r) = replace_statements_of_batch bytes get_time_uuid statements s in
      (
        s',
        (r >>= λ rs. elim (terms_only rs) [
          | [] ↦ ok (m, [], statements)
          | t ∷ ts ↦ elim m [
            | Message.batch b ↦ set_child_queries rs b.children >>= λ cs.
                ok (Message.batch (record b { children = cs }), t ∷ ts, statements_only rs)
            | _ ↦ err other_message_expected
          ]
        ]),
      )

  abbrev pub by_op_code :
      OpCode → Message → List StatementQueryData → S → Modified bytes get_time_uuid
  by_op_code OpCode.batch m statements s = replace_query_in_batch_message m statements s
  by_op_code OpCode.query m statements s =
      replace_query_in_query_message bytes get_time_uuid m statements s
  by_op_code OpCode.prepare m statements s =
      replace_query_in_prepare_message bytes get_time_uuid m statements s
  by_op_code _ m statements s = (s, err unrecognized_op_code)

  abbrev pub ReplacedContext : Type 0
  ReplacedContext = S × Result ModifierError (FrameDecodeContext × List StatementReplacedTerms)

  abbrev pub inspection_failed :
      FrameDecodeContext
      → RequestError
      → Result ModifierError (FrameDecodeContext × List StatementReplacedTerms)
  inspection_failed c not_inspectable = ok (c, [])
  inspection_failed c e = err (not_inspected e)

  module _ (versions : ProtocolVersions) (codec : Codec)
      (encode : Header → Message → Option RawFrame) where
    unfoldable pub replace_query_string : String → FrameDecodeContext → S → ReplacedContext
    unfolding replace_query_in_batch_message replace_query_in_query_message
        replace_query_in_prepare_message
    replace_query_string current c s = elim (get_or_decode_and_inspect versions codec current c) [
      | err e ↦ (s, inspection_failed c e)
      | ok (m, statements, c') ↦
          let (s', r) = by_op_code c.frame.header.op_code m statements s in
          (
            s',
            (r >>= λ new. elim (encode c.frame.header new.0) [
              | none ↦ err not_encoded
              | some f ↦ ok (
                record { frame = f; decoded_frame = some new.0; statements_query_data = new.2 },
                new.1,
              )
            ]),
          )
    ]
