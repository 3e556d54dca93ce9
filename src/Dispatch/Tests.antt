-- ===== src/Dispatch/Tests.antt =====
-- A write, an intercepted query, and a read that is copied, by a client whose connectors have ids.
use zdm_proxy.Prelude.{
  ℕ, suc, ◌≡◌, refl, Option, none, some, List, [], ◌∷◌, int_eq, nat_eq, String, lookup, insert,
}
use zdm_proxy.Protocol.{RawFrame, origin, target}
use zdm_proxy.RequestInfo.{
  RequestInfo, base, intercepted, peers_v2, execute, PreparedData, get_forward_decision,
  should_also_be_sent_async,
}
use zdm_proxy.Messages.{Value, Message, ExecuteMessage, other_message}
use zdm_proxy.Parameters.{Uuid}
use zdm_proxy.StreamIds.{StreamIdMapper}
use zdm_proxy.Processor.{internal_mapper}
use zdm_proxy.SystemTables.{DataType}
use zdm_proxy.SystemTables.Values.{Cell}
use zdm_proxy.Samples.{
  connector, empty_table, prepare_info, query_frame, result_frame, request_pointer, write_info,
}
use zdm_proxy.Connector.{fire_and_forget}
use zdm_proxy.Execution.Intercepted.{InterceptedMessage, handle_intercepted_request}
use zdm_proxy.Handler.{Connectors, send_by_decision}
use zdm_proxy.Lifecycle.{held, get_or_create_holder, store_request}
use zdm_proxy.Dispatch.{
  Setting, ClientHandler, RequestFailure, request_frames, send_to_async_connector, store_and_send,
  execute_request,
}
use zdm_proxy.Dispatch.Copies.{to_primary, copies_have_own_ids}

abbrev pub client_handler : ClientHandler StreamIdMapper StreamIdMapper ℕ
client_handler = record {
  table = empty_table;
  connectors = record { origin_connector = connector; target_connector = connector; heard = [] };
  async_connector = some connector;
  generator = 0;
  client_responses = [];
}

abbrev encode_any : Uuid → String → Option Value
encode_any u data_type = some u

abbrev with_id : RawFrame → Message → Option RawFrame
with_id f (Message.execute m) = some (record f { body = m.query_id })
with_id f m = none

abbrev next_uuid : ℕ → Uuid × ℕ
next_uuid s = (s ∷ [], suc s)

abbrev no_cell : DataType → Cell → Option (Option (List ℕ))
no_cell t c = some none

abbrev always_result : RawFrame → InterceptedMessage → Option RawFrame
always_result f m = some result_frame

abbrev pub setting : Setting StreamIdMapper StreamIdMapper ℕ
setting = record {
  mapper = internal_mapper;
  async_mapper = internal_mapper;
  primary_cluster = origin;
  async_cluster = some target;
  heartbeat = λ c. c;
  encode = encode_any;
  convert = with_id;
  get_time_uuid = next_uuid;
  tables = record {
    virtual_hosts = some [];
    peers_column_names = [];
    local_column_data = [];
    local_virtual_host_index = 0;
  };
  proxy_listen_port = 9042;
  encode_cell = no_cell;
  md5_sum = λ l. l;
  codes = λ s. [];
  convert_intercepted = always_result;
}

abbrev executed :
    RequestInfo → ClientHandler StreamIdMapper StreamIdMapper ℕ × Option RequestFailure
executed info = execute_request setting 7 request_pointer info other_message "" client_handler

does_not_fail : (executed write_info).1 ≡ none
unfolding execute_request request_frames store_and_send send_to_async_connector send_by_decision
    store_request held get_or_create_holder lookup insert get_forward_decision
    should_also_be_sent_async
does_not_fail = refl

-- SELECT * FROM system.peers_v2
intercepted_answered :
    (executed (base (intercepted peers_v2 none))).0.client_responses ≡ result_frame ∷ []
unfolding execute_request request_frames handle_intercepted_request get_forward_decision
intercepted_answered = refl

abbrev prepared_read : PreparedData
prepared_read = record {
  origin_prepared_id = 1 ∷ [];
  target_prepared_id = 2 ∷ [];
  prepare_request_info = prepare_info;
  origin_variables_metadata = none;
  target_variables_metadata = none;
}

abbrev execution : ExecuteMessage
execution = record { query_id = 1 ∷ []; options = none }

abbrev target_frame : RawFrame
target_frame = record query_frame { body = 2 ∷ [] }

copies_have_own_ids_example :
    (cs : Connectors StreamIdMapper) × (send_by_decision internal_mapper
        (λ c. c)
        (to_primary origin)
        query_frame
        target_frame
        client_handler.connectors
      ≡ some cs)
    × (execute_request setting 7 request_pointer
          (execute prepared_read)
          (Message.execute execution)
          ""
          client_handler
        ≡ (
          record client_handler {
            table = (store_request 7 request_pointer (execute prepared_read) empty_table).0;
            connectors = cs;
            async_connector =
                some
                  (fire_and_forget internal_mapper 7
                    (execute prepared_read)
                    target_frame
                    connector).0;
          },
          none,
        ))
copies_have_own_ids_example =
    copies_have_own_ids setting prepared_read query_frame target_frame execution refl refl
      (unfold get_forward_decision in refl) (unfold should_also_be_sent_async in refl) refl 7
      request_pointer "" client_handler connector refl refl
      (unfold store_request held get_or_create_holder lookup insert in refl)
