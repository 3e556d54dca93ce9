-- ===== src/Messages.antt =====
-- The messages of the protocol library that the proxy takes apart, with the fields that it reads,
-- and the frame decode context of proxy/pkg/zdmproxy/cqlparser.go. What the library's codec and the
-- generated CQL parser return is the parameter `codec`.
use zdm_proxy.Prelude.{
  ℕ, Bool, ◌&&◌, not, Option, none, some, List, [], ◌∷◌, String, leb, eqb, length, if◌then◌else◌,
  Result, ok, err, ◌>>=◌, suc,
}
use zdm_proxy.Protocol.{RawFrame, ProtocolVersions}
use zdm_proxy.Query.{QueryInfo, Term}

-- The keyspace of a request, and whether its flags say that there is one.
pub record KeyspaceOption : Type 0 where
  pub flagged : Bool
  pub keyspace : String

-- A value is its bytes.
abbrev pub Value : Type 0
Value = List ℕ

pub record QueryOptions : Type 0 where
  pub positional_values : List Value
  pub named_values : List (String × Value)

pub record QueryMessage : Type 0 where
  pub query : List ℕ
  pub options : KeyspaceOption

pub record PrepareMessage : Type 0 where
  pub query : List ℕ
  pub options : KeyspaceOption

pub record ExecuteMessage : Type 0 where
  pub query_id : List ℕ
  pub options : Option QueryOptions

-- `id` is `none` for a nil id; a child has an id or a query.
pub record BatchChild : Type 0 where
  pub id : Option (List ℕ)
  pub query : List ℕ
  pub values : List Value

pub record BatchMessage : Type 0 where
  pub children : List BatchChild
  pub options : KeyspaceOption

pub data Message : Type 0 where
  query : QueryMessage → Message
  prepare : PrepareMessage → Message
  execute : ExecuteMessage → Message
  batch : BatchMessage → Message
  other_message : Message

-- ConvertFromRawFrame, and inspectCqlQuery of a query in a keyspace.
pub record Codec : Type 0 where
  pub decode : RawFrame → Option Message
  pub inspect_cql_query : List ℕ → String → QueryInfo

pub record StatementQueryData : Type 0 where
  pub statement_index : ℕ
  pub query_data : QueryInfo

pub record StatementReplacedTerms : Type 0 where
  pub statement_index : ℕ
  pub replaced_terms : List Term

-- `statements` is empty before the first inspection; a nil slice and an empty one are the same to
-- the code.
pub record FrameDecodeContext : Type 0 where
  pub frame : RawFrame
  pub decoded_frame : Option Message
  pub statements_query_data : List StatementQueryData

pub data RequestError : Type 0 where
  decode_failed not_inspectable unexpected_message : RequestError
  statement_count replaced_terms_count : ℕ → RequestError
  unprepared : List ℕ → RequestError

unfoldable pub new_frame_decode_context : RawFrame → FrameDecodeContext
new_frame_decode_context f = record { frame = f; decoded_frame = none; statements_query_data = [] }

module _ (versions : ProtocolVersions) (codec : Codec) where
  open versions use {v5, dse1}
  open codec use {decode, inspect_cql_query}

  -- version >= ProtocolVersion5 && version != ProtocolVersionDse1
  unfoldable pub protocol_supports_keyspace_in_request : ℕ → Bool
  protocol_supports_keyspace_in_request v = leb v5 v && not (eqb v dse1)

  unfoldable pub get_or_decode_frame :
      FrameDecodeContext → Result RequestError (Message × FrameDecodeContext)
  get_or_decode_frame c = elim c.decoded_frame [
    | some m ↦ ok (m, c)
    | none ↦ elim (decode c.frame) [
      | none ↦ err decode_failed
      | some m ↦ ok (m, record c { decoded_frame = some m })
    ]
  ]

  -- The keyspace that the request names takes the place of the current one.
  unfoldable pub request_keyspace : ℕ → KeyspaceOption → String → String
  unfolding protocol_supports_keyspace_in_request
  request_keyspace version options current =
      if protocol_supports_keyspace_in_request version && options.flagged
      then options.keyspace
      else current

  unfoldable pub inspect_one : ℕ → List ℕ → String → StatementQueryData
  inspect_one index text keyspace = record {
    statement_index = index;
    query_data = inspect_cql_query text keyspace;
  }

  -- The children that have a query.
  unfoldable pub inspect_children : ℕ → List BatchChild → String → List StatementQueryData
  unfolding inspect_one
  inspect_children index [] keyspace = []
  inspect_children index (child ∷ rest) keyspace =
      let others = inspect_children (suc index) rest keyspace in
      if eqb (length child.query) 0 then others else inspect_one index child.query keyspace ∷ others

  unfoldable pub statements_of :
      ℕ → Message → String → Result RequestError (List StatementQueryData)
  unfolding request_keyspace inspect_one inspect_children
  statements_of version (query m) current =
      ok (inspect_one 0 m.query (request_keyspace version m.options current) ∷ [])
  statements_of version (prepare m) current =
      ok (inspect_one 0 m.query (request_keyspace version m.options current) ∷ [])
  statements_of version (batch m) current =
      ok (inspect_children 0 m.children (request_keyspace version m.options current))
  statements_of version _ current = err not_inspectable

  unfoldable pub inspect_statements :
      String → FrameDecodeContext → Result RequestError FrameDecodeContext
  unfolding get_or_decode_frame statements_of
  inspect_statements current c = elim c.statements_query_data [
    | s ∷ rest ↦ ok c
    | [] ↦ do
      (m, c') ← get_or_decode_frame c
      statements ← statements_of c.frame.header.version m current
      ok (record c' { statements_query_data = statements })
  ]

  unfoldable pub get_or_inspect_statement :
      String → FrameDecodeContext → Result RequestError (StatementQueryData × FrameDecodeContext)
  unfolding inspect_statements
  get_or_inspect_statement current c = do
    c' ← inspect_statements current c
    elim c'.statements_query_data [
      | s ∷ rest ↦ elim rest [
        | [] ↦ ok (s, c')
        | _ ∷ more ↦ err (statement_count (suc (suc (length more))))
      ]
      | [] ↦ err (statement_count 0)
    ]

  unfoldable pub get_or_decode_and_inspect :
      String
      → FrameDecodeContext
      → Result RequestError (Message × List StatementQueryData × FrameDecodeContext)
  unfolding inspect_statements
  get_or_decode_and_inspect current c = do
    (m, c') ← get_or_decode_frame c
    c'' ← inspect_statements current c'
    ok (m, c''.statements_query_data, c'')
