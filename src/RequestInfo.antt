-- ===== src/RequestInfo.antt =====
-- proxy/pkg/zdmproxy/requestinfo.go, and the prepared data of pscache.go that a request refers to.
-- A base request info is what getRequestInfoFromQueryInfo returns: a generic or an intercepted one.
use zdm_proxy.Prelude.{ℕ, Bool, true, false, Option, List, String}
use zdm_proxy.Protocol.{ForwardDecision, to_both, to_none}
use zdm_proxy.Query.{Term, SelectClause}

-- interceptedQueryType
pub data InterceptedQueryType : Type 0 where
  peers_v2 peers_v1 local : InterceptedQueryType

-- baseRequestInfo
pub record GenericRequestInfo : Type 0 where
  pub forward_decision : ForwardDecision
  pub should_also_be_sent_async : Bool
  pub track_metrics : Bool

pub data BaseRequestInfo : Type 0 where
  generic : GenericRequestInfo → BaseRequestInfo
  intercepted : InterceptedQueryType → Option SelectClause → BaseRequestInfo

-- The base of NewInterceptedRequestInfo.
abbrev pub intercepted_base : GenericRequestInfo
intercepted_base = record {
  forward_decision = to_none;
  should_also_be_sent_async = false;
  track_metrics = false;
}

abbrev pub base_of : BaseRequestInfo → GenericRequestInfo
base_of (generic g) = g
base_of (intercepted t c) = intercepted_base

pub record PrepareRequestInfo : Type 0 where
  pub base_request_info : BaseRequestInfo
  pub replaced_terms : List Term
  pub contains_positional_markers : Bool
  pub query : List ℕ
  pub keyspace : String

-- message.ColumnMetadata and message.VariablesMetadata, of the protocol library. The proxy hands a
-- column's type on to the library's codecs and does not look into it.
pub record ColumnMetadata : Type 0 where
  pub name : String
  pub data_type : String

pub record VariablesMetadata : Type 0 where
  pub columns : List ColumnMetadata
  pub pk_indices : List ℕ

-- preparedDataImpl
pub record PreparedData : Type 0 where
  pub origin_prepared_id : List ℕ
  pub target_prepared_id : List ℕ
  pub prepare_request_info : PrepareRequestInfo
  pub origin_variables_metadata : Option VariablesMetadata
  pub target_variables_metadata : Option VariablesMetadata

pub data RequestInfo : Type 0 where
  base : BaseRequestInfo → RequestInfo
  prepare : PrepareRequestInfo → RequestInfo
  execute : PreparedData → RequestInfo
  batch : List (ℕ × PreparedData) → RequestInfo

abbrev pub execute_base : PreparedData → GenericRequestInfo
execute_base d = base_of d.prepare_request_info.base_request_info

-- PREPARE goes to both clusters, unless it is intercepted.
abbrev pub prepare_decision : ForwardDecision → ForwardDecision
prepare_decision to_none = to_none
prepare_decision _ = to_both

unfoldable pub get_forward_decision : RequestInfo → ForwardDecision
get_forward_decision (base b) = (base_of b).forward_decision
get_forward_decision (prepare p) = prepare_decision (base_of p.base_request_info).forward_decision
get_forward_decision (execute d) = (execute_base d).forward_decision
get_forward_decision (batch entries) = to_both

unfoldable pub should_also_be_sent_async : RequestInfo → Bool
should_also_be_sent_async (base b) = (base_of b).should_also_be_sent_async
should_also_be_sent_async (prepare p) = (base_of p.base_request_info).should_also_be_sent_async
should_also_be_sent_async (execute d) = (execute_base d).should_also_be_sent_async
should_also_be_sent_async (batch entries) = false

unfoldable pub should_be_tracked_in_metrics : RequestInfo → Bool
should_be_tracked_in_metrics (base b) = (base_of b).track_metrics
should_be_tracked_in_metrics (prepare p) = false
should_be_tracked_in_metrics (execute d) = (execute_base d).track_metrics
should_be_tracked_in_metrics (batch entries) = true
