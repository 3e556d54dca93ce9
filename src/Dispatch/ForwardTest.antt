-- ===== src/Dispatch/ForwardTest.antt =====
-- A QUERY, and an EXECUTE of an unknown statement, from a client whose connectors have ids.
use zdm_proxy.Prelude.{
  arith, ℕ, ◌≡◌, refl, true, false, Option, none, some, List, [], ◌∷◌, String, int_eq, nat_eq,
  bytes_eq, lookup, insert,
}
use zdm_proxy.Protocol.{RawFrame, Header, OpCode}
use zdm_proxy.Query.{QueryInfo, StatementType}
use zdm_proxy.RequestInfo.{get_forward_decision}
use zdm_proxy.Messages.{
  Message, ExecuteMessage, get_or_decode_and_inspect, get_or_inspect_statement,
}
use zdm_proxy.Forwarding.{get_request_info_from_query_info}
use zdm_proxy.Lifecycle.{store_request}
use zdm_proxy.Handler.{send_by_decision}
use zdm_proxy.PreparedCache.{get}
use zdm_proxy.StreamIds.{StreamIdMapper}
use zdm_proxy.Samples.{protocol_versions, frame_of, query_frame, error_frame, statement_on}
use zdm_proxy.Dispatch.{ClientHandler}
use zdm_proxy.Dispatch.Tests.{client_handler, setting}
use zdm_proxy.Dispatch.Forward.{Inspection, ForwardFailure, forward_request}
use zdm_proxy.Dispatch.Forwarded.{Forwards, forwarded_or_untouched, unknown_statement_answered}

abbrev execute_frame : RawFrame
execute_frame = frame_of OpCode.execute 1

abbrev execution : ExecuteMessage
execution = record { query_id = 5 ∷ []; options = none }

abbrev decode : RawFrame → Option Message
decode f = elim f.header.op_code [
  | OpCode.execute ↦ some (Message.execute execution)
  | _ ↦
      some
        (Message.query (record { query = []; options = record { flagged = false; keyspace = "" } }))
]

abbrev an_insert : List ℕ → String → QueryInfo
an_insert text keyspace = statement_on StatementType.insert "ks" "t"

abbrev with_header : Header → Message → Option RawFrame
with_header h m = some (record { header = h; body = [] })

pub with_header_keeps :
    (h : Header) (m : Message) (g : RawFrame) → with_header h m ≡ some g → g.header ≡ h
with_header_keeps h m g e = ground (arith, e)

abbrev unprepared_frame : RawFrame → List ℕ → Option RawFrame
unprepared_frame f id = some error_frame

abbrev pub inspection : Inspection
inspection = record {
  versions = protocol_versions;
  codec = record { decode = decode; inspect_cql_query = an_insert };
  encode_frame = with_header;
  convert_unprepared = unprepared_frame;
  bytes = λ s. [];
  uuid_text = λ u. "";
  replace_cql_functions = true;
  forward_system_queries_to_target = false;
  virtualization_enabled = true;
  forward_auth_to_target = false;
}

abbrev pub forwarded :
    RawFrame → ClientHandler StreamIdMapper StreamIdMapper ℕ × Option ForwardFailure
forwarded f = forward_request setting inspection 7 17 f client_handler

forwarded_or_untouched_example :
    Forwards 7 query_frame client_handler (forwarded query_frame).1 (forwarded query_frame).0
forwarded_or_untouched_example =
    forwarded_or_untouched 7 query_frame client_handler setting inspection with_header_keeps 17

unknown_statement_answered_example :
    forwarded execute_frame ≡ (record client_handler { client_responses = error_frame ∷ [] }, none)
unknown_statement_answered_example =
    unknown_statement_answered 7 17 execute_frame execution client_handler setting inspection refl
      refl (unfold get lookup in refl) error_frame refl

pub query_does_not_fail : (forwarded query_frame).1 ≡ none
unfolding forward_request get_or_decode_and_inspect get_or_inspect_statement
    get_request_info_from_query_info get_forward_decision store_request lookup insert
    send_by_decision
query_does_not_fail = refl
