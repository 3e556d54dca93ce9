-- ===== src/Samples.antt =====
-- Values for the tests: the protocol's version numbers, frames and statements.
use zdm_proxy.Prelude.{ℕ, true, false, none, some, [], ◌∷◌, String, pos, arith}
use zdm_proxy.Protocol.{to_both, to_origin, OpCode, RawFrame, ProtocolVersions, InOrder}
use zdm_proxy.Query.{QueryInfo, StatementType, Term}
use zdm_proxy.RequestInfo.{RequestInfo, generic, base, PrepareRequestInfo}
use zdm_proxy.PreparedCache.{PreparedResult, new_prepared_statement_cache}
use zdm_proxy.StreamIds.{Gauge, StreamIdMapper}
use zdm_proxy.Lifecycle.{Table}
use zdm_proxy.Handshake.{connector_ready}
use zdm_proxy.Connector.{ClusterConnector}
use zdm_proxy.Connector.Errors.{ErrorMetrics}
use zdm_proxy.Requests.Context.{FramePointer, NodeMetricsInstance, NodeMetrics}

abbrev pub protocol_versions : ProtocolVersions
protocol_versions = record { v2 = 2; v3 = 3; v4 = 4; v5 = 5; dse1 = 65; dse2 = 66 }

pub protocol_versions-InOrder : InOrder protocol_versions
protocol_versions-InOrder = record {
  positive = omega arith;
  v2_v3 = omega arith;
  v3_v4 = omega arith;
  v4_v5 = omega arith;
  v5_dse1 = omega arith;
  dse1_dse2 = omega arith;
}

abbrev pub frame_of : OpCode → ℕ → RawFrame
frame_of op stream = record {
  header = record { version = 4; stream_id = pos stream; op_code = op };
  body = [];
}

abbrev pub result_frame : RawFrame
result_frame = frame_of OpCode.result 1

abbrev pub error_frame : RawFrame
error_frame = frame_of OpCode.error 1

abbrev pub query_frame : RawFrame
query_frame = frame_of OpCode.query 1

abbrev pub request_pointer : FramePointer
request_pointer = record { address = 17; frame = query_frame }

abbrev pub write_info : RequestInfo
write_info = base (
    generic (record {
      forward_decision = to_both;
      should_also_be_sent_async = false;
      track_metrics = true;
    }))

abbrev no_counts : NodeMetricsInstance
no_counts = record {
  client_timeouts = 0;
  read_durations = 0;
  write_durations = 0;
  in_flight_requests = record { added = 0; subtracted = 0 };
}

abbrev pub no_node_metrics : NodeMetrics
no_node_metrics = record {
  origin_metrics = no_counts;
  target_metrics = no_counts;
  async_metrics = no_counts;
}

abbrev pub statement_on : StatementType → String → String → QueryInfo
statement_on type keyspace table = record {
  query = [];
  statement_type = type;
  keyspace_name = keyspace;
  table_name = table;
  request_keyspace = "";
  parsed_select_clause = none;
  parsed_statements = [];
  positional_bind_markers = false;
  named_bind_markers = false;
  now_function_calls = false;
}

abbrev pub prepare_info : PrepareRequestInfo
prepare_info = record {
  base_request_info = generic (record {
    forward_decision = to_origin;
    should_also_be_sent_async = true;
    track_metrics = true;
  });
  replaced_terms = [];
  contains_positional_markers = false;
  query = [];
  keyspace = "";
}

abbrev pub prepared_result : ℕ → PreparedResult
prepared_result id = record { prepared_query_id = id ∷ []; variables_metadata = none }

abbrev pub now_term : Term
now_term = record {
  function_call =
      some (record { keyspace = ""; name = "now"; arity = 0; start_index = 0; stop_index = 4 });
  previous_positional_index = pos 0;
  positional_index = pos 1;
  bind_marker_name = "";
  literal = "";
}

abbrev pub no_errors : ErrorMetrics
no_errors = record {
  unprepared_errors = 0;
  read_timeouts = 0;
  write_timeouts = 0;
  overloaded_errors = 0;
  read_failures = 0;
  write_failures = 0;
  unavailable_errors = 0;
  other_errors = 0;
}

abbrev pub two_ids : StreamIdMapper
two_ids = record {
  id_mapper = [];
  cluster_ids = 5 ∷ 6 ∷ [];
  capacity = 7;
  metrics = none;
  protocol_version = 4;
}

abbrev pub connector : ClusterConnector StreamIdMapper
connector = record {
  state = connector_ready;
  mapper_state = two_ids;
  pending = record { contexts = []; pending = []; node_metrics = no_node_metrics };
  write_queue = [];
  queue_size = 1;
  canceled = false;
  requests_in_flight = 0;
  error_metrics = no_errors;
}

abbrev pub no_gauge : Gauge
no_gauge = record { added = 0; subtracted = 0 }

abbrev pub empty_table : Table
empty_table = record {
  holders = [];
  contexts = [];
  node_metrics = no_node_metrics;
  proxy_metrics = record {
    failed_reads_origin = 0;
    failed_reads_target = 0;
    failed_writes_on_both = 0;
    failed_writes_on_origin = 0;
    failed_writes_on_target = 0;
  };
  in_flight_metrics = record {
    writes = no_gauge;
    reads_origin = no_gauge;
    reads_target = no_gauge;
    writes_durations = 0;
    reads_origin_durations = 0;
    reads_target_durations = 0;
  };
  handler = record {
    current_keyspace_name = none;
    prepared_statement_cache = new_prepared_statement_cache;
  };
  requests_in_flight = 0;
  protocol_err_occurred = false;
  protocol_errors = [];
  outcomes = [];
}
