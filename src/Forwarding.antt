-- ===== src/Forwarding.antt =====
-- proxy/pkg/zdmproxy/cqlparser.go: the decision to which clusters a request goes. The library's
-- codec and the generated parser are the parameter `codec`.
pub mod Building
pub mod Frames
pub mod Batches
mod Tests
pub mod Decisions
use text.Mathlib.Text.{starts_with}
use zdm_proxy.Prelude.{
  ℕ, ◌+◌, Bool, true, false, ◌&&◌, ◌||◌, not, Option, none, some, List, [], ◌∷◌, String, ltb, eqb,
  leb, length, ◌==◌, string_eq, if◌then◌else◌, Result, ok, err, ◌>>=◌,
}
use zdm_proxy.Protocol.{
  ForwardDecision, to_origin, to_target, to_both, to_none, to_async_only, ClusterType, cluster_none,
  origin, target, cluster_beq, OpCode, RawFrame, ProtocolVersions,
}
use zdm_proxy.Query.{QueryInfo, StatementType, SelectClause, Term, system_keyspace_name}
use zdm_proxy.RequestInfo.{
  RequestInfo, BaseRequestInfo, GenericRequestInfo, generic, intercepted, base, prepare, execute,
  batch, InterceptedQueryType, peers_v1, peers_v2, local, PreparedData, PrepareRequestInfo,
}
use zdm_proxy.PreparedCache.{PreparedStatementCache, get}

-- The applicable keyspace: the one in the query, or else the one of the request.
abbrev pub get_applicable_keyspace : QueryInfo → String
get_applicable_keyspace q = if q.keyspace_name == "" then q.request_keyspace else q.keyspace_name

unfoldable pub is_system_keyspace : String → Bool
is_system_keyspace keyspace = keyspace == system_keyspace_name

unfoldable pub is_system_query : QueryInfo → Bool
unfolding is_system_keyspace
is_system_query q =
    let keyspace = get_applicable_keyspace q in
    is_system_keyspace keyspace || starts_with keyspace "system_" || starts_with keyspace "dse_"

unfoldable pub is_system_peers_v1 : QueryInfo → Bool
unfolding is_system_keyspace
is_system_peers_v1 q = is_system_keyspace (get_applicable_keyspace q) && q.table_name == "peers"

unfoldable pub is_system_peers_v2 : QueryInfo → Bool
unfolding is_system_keyspace
is_system_peers_v2 q = is_system_keyspace (get_applicable_keyspace q) && q.table_name == "peers_v2"

unfoldable pub is_system_local : QueryInfo → Bool
unfolding is_system_keyspace
is_system_local q = is_system_keyspace (get_applicable_keyspace q) && q.table_name == "local"

abbrev pub is_select : StatementType → Bool
is_select StatementType.select = true
is_select _ = false

abbrev pub is_use : StatementType → Bool
is_use StatementType.use_keyspace = true
is_use _ = false

abbrev pub generic_info : ForwardDecision → Bool → Bool → BaseRequestInfo
generic_info decision also_async track = generic (record {
  forward_decision = decision;
  should_also_be_sent_async = also_async;
  track_metrics = track;
})

-- The intercepted queries, which the proxy answers by itself.
unfoldable pub intercepted_query : QueryInfo → Option InterceptedQueryType
intercepted_query q =
    if is_system_local q
    then some local
    else if is_system_peers_v1 q
    then some peers_v1
    else if is_system_peers_v2 q
    then some peers_v2
    else none

-- The SELECT statements that are forwarded.
unfoldable pub select_info : ClusterType → Bool → QueryInfo → BaseRequestInfo
select_info primary forward_system_queries_to_target q =
    if is_system_query q
    then generic_info (if forward_system_queries_to_target then to_target else to_origin) false true
    else generic_info (if cluster_beq primary target then to_target else to_origin) true true

unfoldable pub get_request_info_from_query_info :
    ClusterType → Bool → Bool → QueryInfo → BaseRequestInfo
unfolding intercepted_query select_info
get_request_info_from_query_info primary forward_system_queries_to_target virtualization_enabled q =
    if is_select q.statement_type
    then elim (if virtualization_enabled then intercepted_query q else none) [
      | some t ↦ intercepted t q.parsed_select_clause
      | none ↦ select_info primary forward_system_queries_to_target q
    ]
    else generic_info to_both (is_use q.statement_type) true
