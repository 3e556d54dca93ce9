-- ===== src/Connector/Errors.antt =====
-- proxy/pkg/zdmproxy/clienthandler.go: decodeError, and the metrics of a cluster's errors. The protocol
-- library's error codes are those that the proxy names, with all others under `other_code`.
use zdm_proxy.Prelude.{ℕ, ◌+◌, Option, none, some, List}
use zdm_proxy.Protocol.{error, RawFrame}

pub data ErrorCode : Type 0 where
  protocol_error_code unprepared_code read_timeout_code write_timeout_code : ErrorCode
  overloaded_code read_failure_code write_failure_code unavailable_code : ErrorCode
  other_code : ℕ → ErrorCode

-- message.Error; an UNPREPARED message has the id.
pub record ErrorMessage : Type 0 where
  pub code : ErrorCode
  pub unprepared_id : Option (List ℕ)

-- The error counters of a metrics.NodeMetricsInstance.
pub record ErrorMetrics : Type 0 where
  pub unprepared_errors : ℕ
  pub read_timeouts : ℕ
  pub write_timeouts : ℕ
  pub overloaded_errors : ℕ
  pub read_failures : ℕ
  pub write_failures : ℕ
  pub unavailable_errors : ℕ
  pub other_errors : ℕ

-- `decode_body` is the library's: an error, another message, or an error message. The result is an
-- error, no error message, or one.
unfoldable pub decode_error :
    (RawFrame → Option (Option ErrorMessage)) → RawFrame → Option (Option ErrorMessage)
decode_error decode_body f = elim f.header.op_code [
  | error ↦ elim (decode_body f) [
    | none ↦ none
    | some m ↦ elim m [ none ↦ none | some e ↦ some (some e) ]
  ]
  | _ ↦ some none
]

-- trackClusterErrorMetricsFromErrorMessage, on the metrics of the connector that is named.
unfoldable pub track_cluster_error : ErrorCode → ErrorMetrics → ErrorMetrics
track_cluster_error unprepared_code m = record m { unprepared_errors = m.unprepared_errors + 1 }
track_cluster_error read_timeout_code m = record m { read_timeouts = m.read_timeouts + 1 }
track_cluster_error write_timeout_code m = record m { write_timeouts = m.write_timeouts + 1 }
track_cluster_error overloaded_code m = record m { overloaded_errors = m.overloaded_errors + 1 }
track_cluster_error read_failure_code m = record m { read_failures = m.read_failures + 1 }
track_cluster_error write_failure_code m = record m { write_failures = m.write_failures + 1 }
track_cluster_error unavailable_code m = record m { unavailable_errors = m.unavailable_errors + 1 }
track_cluster_error _ m = record m { other_errors = m.other_errors + 1 }
