-- ===== src/Dispatch/Forward.antt =====
-- clienthandler.go: forwardRequest of a client's request: the modification of its query, its request info,
-- and executeRequest; or the proxy's own UNPREPARED for a statement that the cache does not know.
use zdm_proxy.Prelude.{
  ℕ, Bool, Option, none, some, List, [], ◌∷◌, ◌++◌, String, if◌then◌else◌, Result, ok, err,
}
use zdm_proxy.Protocol.{RawFrame, Header, ProtocolVersions}
use zdm_proxy.RequestInfo.{RequestInfo}
use zdm_proxy.Messages.{
  Message, other_message, Codec, FrameDecodeContext, StatementReplacedTerms, RequestError,
  unprepared, new_frame_decode_context,
}
use zdm_proxy.Parameters.{Uuid}
use zdm_proxy.QueryModifier.{ModifierError, replace_query_string}
use zdm_proxy.Forwarding.Building.{Settings, build_request_info}
use zdm_proxy.Handler.{load_current_keyspace}
use zdm_proxy.Dispatch.{Setting, ClientHandler, RequestFailure, execute_request}

-- What forwardRequest is given beside a Setting: the codecs, the texts of strings and uuids, and the
-- configuration.
pub record Inspection : Type 0 where
  pub versions : ProtocolVersions
  pub codec : Codec
  pub encode_frame : Header → Message → Option RawFrame
  pub convert_unprepared : RawFrame → List ℕ → Option RawFrame
  pub bytes : String → List ℕ
  pub uuid_text : Uuid → String
  pub replace_cql_functions : Bool
  pub forward_system_queries_to_target : Bool
  pub virtualization_enabled : Bool
  pub forward_auth_to_target : Bool

pub data ForwardFailure : Type 0 where
  not_modified : ModifierError → ForwardFailure
  not_built : RequestError → ForwardFailure
  unprepared_not_converted : ForwardFailure
  request_failed : RequestFailure → ForwardFailure

-- The message of a frame that buildRequestInfo has decoded, as it does for an EXECUTE and a BATCH.
abbrev pub message_of : FrameDecodeContext → Message
message_of c = elim c.decoded_frame [ none ↦ other_message | some m ↦ m ]

abbrev pub after_execution :
    {S A G : Type 0}
    → ClientHandler S A G × Option RequestFailure
    → ClientHandler S A G × Option ForwardFailure
after_execution (ch, none) = (ch, none)
after_execution (ch, some e) = (ch, some (request_failed e))

-- createUnpreparedFrame, and the sending of its frame.
abbrev pub after_unprepared :
    {S A G : Type 0}
    → Option RawFrame
    → ClientHandler S A G
    → ClientHandler S A G × Option ForwardFailure
after_unprepared none ch = (ch, some unprepared_not_converted)
after_unprepared (some g) ch =
    (record ch { client_responses = ch.client_responses ++ (g ∷ []) }, none)

module _ {S A G : Type 0} (env : Setting S A G) (inspection : Inspection) where
  open env use {primary_cluster, get_time_uuid}
  open inspection use {
    versions, codec, encode_frame, convert_unprepared, bytes, uuid_text, replace_cql_functions,
    forward_system_queries_to_target, virtualization_enabled, forward_auth_to_target,
  }

  abbrev pub settings : Settings
  settings = record {
    primary_cluster = primary_cluster;
    forward_system_queries_to_target = forward_system_queries_to_target;
    virtualization_enabled = virtualization_enabled;
    forward_auth_to_target = forward_auth_to_target;
  }

  -- GetTimeUuid().String()
  abbrev pub next_text : G → String × G
  next_text s = let (u, s') = get_time_uuid s in (uuid_text u, s')

  unfoldable pub modified_request :
      String
      → FrameDecodeContext
      → G
      → G × Result ModifierError (FrameDecodeContext × List StatementReplacedTerms)
  unfolding replace_query_string
  modified_request keyspace c s =
      if replace_cql_functions
      then replace_query_string bytes next_text versions codec encode_frame keyspace c s
      else (s, ok (c, []))

  -- `ctx` is the address of the new context, `address` the one of the frame.
  abbrev pub after_info :
      ℕ
      → ℕ
      → String
      → RawFrame
      → Result RequestError (RequestInfo × FrameDecodeContext)
      → ClientHandler S A G
      → ClientHandler S A G × Option ForwardFailure
  after_info ctx address keyspace f (err (unprepared id)) ch =
      after_unprepared (convert_unprepared f id) ch
  after_info ctx address keyspace f (err e) ch = (ch, some (not_built e))
  after_info ctx address keyspace f (ok (info, c)) ch = after_execution (
      execute_request env ctx (record { address = address; frame = c.frame }) info (message_of c)
        keyspace ch)

  abbrev pub after_modified :
      ℕ
      → ℕ
      → String
      → Result ModifierError (FrameDecodeContext × List StatementReplacedTerms)
      → ClientHandler S A G
      → ClientHandler S A G × Option ForwardFailure
  after_modified ctx address keyspace (err e) ch = (ch, some (not_modified e))
  after_modified ctx address keyspace (ok (c, replaced)) ch =
      after_info ctx address keyspace c.frame
        (build_request_info versions codec settings ch.table.handler.prepared_statement_cache
          replaced keyspace c)
        ch

  unfoldable pub forward_request :
      ℕ → ℕ → RawFrame → ClientHandler S A G → ClientHandler S A G × Option ForwardFailure
  unfolding modified_request execute_request build_request_info load_current_keyspace
      new_frame_decode_context
  forward_request ctx address f ch =
      let keyspace = load_current_keyspace ch.table.handler in
      let (s, r) = modified_request keyspace (new_frame_decode_context f) ch.generator in
      after_modified ctx address keyspace r (record ch { generator = s })
