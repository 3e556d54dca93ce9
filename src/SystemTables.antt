-- ===== src/SystemTables.antt =====
-- proxy/pkg/zdmproxy/nativeprotocol.go: the tables system.local and system.peers as the proxy shows
-- them to its clients, with a row for each proxy instance in the place of the cluster's nodes.
pub mod Values
pub mod Results
pub mod Rows
pub mod Peers
mod Tests
use Prim.Native.Char.{code}
use zdm_proxy.Prelude.{
  ℕ, ◌+◌, Bool, true, false, ◌&&◌, ◌||◌, not, Option, none, some, List, [], ◌∷◌, String, string_eq,
  bytes_eq, ◌==◌, leb, if◌then◌else◌, Result, ok, err, ◌>>=◌,
}
use zdm_proxy.Query.{Selector, id_selector, count_selector, aliased_selector, SelectClause}

-- The data types of the columns, of the protocol library.
pub data DataType : Type 0 where
  varchar inet int boolean uuid bigint varchar_set uuid_blob_map : DataType

-- message.ColumnMetadata, of the protocol library, of a system table.
pub record SystemColumn : Type 0 where
  pub keyspace : String
  pub table : String
  pub name : String
  pub data_type : DataType

abbrev pub system_column : String → String → DataType → SystemColumn
system_column table name data_type = record {
  keyspace = "system";
  table = table;
  name = name;
  data_type = data_type;
}

abbrev pub local_column : String → DataType → SystemColumn
local_column = system_column "local"

abbrev pub peers_column : String → DataType → SystemColumn
peers_column = system_column "peers"

abbrev pub system_local_columns : List SystemColumn
system_local_columns =
    local_column "key" varchar
    ∷ local_column "bootstrapped" varchar
    ∷ local_column "broadcast_address" inet
    ∷ local_column "cluster_name" varchar
    ∷ local_column "cql_version" varchar
    ∷ local_column "data_center" varchar
    ∷ local_column "dse_version" varchar
    ∷ local_column "gossip_generation" int
    ∷ local_column "graph" boolean
    ∷ local_column "host_id" uuid
    ∷ local_column "jmx_port" int
    ∷ local_column "last_nodesync_checkpoint_time" bigint
    ∷ local_column "listen_address" inet
    ∷ local_column "native_protocol_version" varchar
    ∷ local_column "native_transport_port" int
    ∷ local_column "native_transport_port_ssl" int
    ∷ local_column "partitioner" varchar
    ∷ local_column "native_transport_address" inet
    ∷ local_column "rack" varchar
    ∷ local_column "release_version" varchar
    ∷ local_column "rpc_address" inet
    ∷ local_column "schema_version" uuid
    ∷ local_column "server_id" varchar
    ∷ local_column "storage_port" int
    ∷ local_column "storage_port_ssl" int
    ∷ local_column "thrift_version" varchar
    ∷ local_column "tokens" varchar_set
    ∷ local_column "truncated_at" uuid_blob_map
    ∷ local_column "workload" varchar
    ∷ local_column "workloads" varchar_set
    ∷ []

abbrev pub system_peers_columns : List SystemColumn
system_peers_columns =
    peers_column "peer" inet
    ∷ peers_column "data_center" varchar
    ∷ peers_column "dse_version" varchar
    ∷ peers_column "graph" boolean
    ∷ peers_column "host_id" uuid
    ∷ peers_column "jmx_port" int
    ∷ peers_column "native_transport_address" inet
    ∷ peers_column "native_transport_port" int
    ∷ peers_column "native_transport_port_ssl" int
    ∷ peers_column "preferred_ip" inet
    ∷ peers_column "rack" varchar
    ∷ peers_column "release_version" varchar
    ∷ peers_column "rpc_address" inet
    ∷ peers_column "schema_version" uuid
    ∷ peers_column "server_id" varchar
    ∷ peers_column "storage_port" int
    ∷ peers_column "storage_port_ssl" int
    ∷ peers_column "tokens" varchar_set
    ∷ peers_column "workload" varchar
    ∷ peers_column "workloads" varchar_set
    ∷ []

-- The errors of this file, one for each message; `panics` is an index that Go refuses.
pub data SystemError : Type 0 where
  column_not_found no_column_value no_peer_value could_not_find_value : String → SystemError
  length_mismatch name_mismatch : String → SystemError
  selector_mismatch no_columns not_encoded panics : SystemError

unfoldable pub find_column_metadata : List SystemColumn → String → Option SystemColumn
find_column_metadata [] name = none
find_column_metadata (c ∷ cols) name =
    let further = find_column_metadata cols name in if c.name == name then some c else further

-- The column of a selector, and whether it is count(*).
unfoldable pub column_from_selector :
    List SystemColumn → String → String → Selector → Result SystemError (SystemColumn × Bool)
unfolding find_column_metadata
column_from_selector cols keyspace table (count_selector name) =
    ok (record { keyspace = keyspace; table = table; name = name; data_type = int }, true)
column_from_selector cols keyspace table (id_selector name) =
    elim (find_column_metadata cols name) [
      | some c ↦ ok (c, false)
      | none ↦ err (column_not_found name)
    ]
column_from_selector cols keyspace table (aliased_selector s alias) =
    column_from_selector cols keyspace table s >>= λ r. ok (record (r.0) { name = alias }, r.1)

-- Selector.Name
abbrev pub selector_name : Selector → String
selector_name (count_selector name) = name
selector_name (id_selector name) = name
selector_name (aliased_selector s alias) = alias

unfoldable pub unaliased_column_name_from_selector : Selector → String
unaliased_column_name_from_selector (count_selector name) = name
unaliased_column_name_from_selector (id_selector name) = name
unaliased_column_name_from_selector (aliased_selector s alias) = selector_name s

unfoldable pub filter_selectors :
    List SystemColumn → String → List Selector → Result SystemError (List SystemColumn × Bool)
unfolding column_from_selector
filter_selectors cols table [] = ok ([], false)
filter_selectors cols table (s ∷ selectors) = do
  c ← column_from_selector cols "system" table s
  rest ← filter_selectors cols table selectors
  ok (c.0 ∷ rest.0, c.1 || rest.1)

unfoldable pub filter_system_columns :
    SelectClause → List SystemColumn → String → Result SystemError (List SystemColumn × Bool)
unfolding filter_selectors
filter_system_columns clause cols table = elim clause.selectors [
  | none ↦ ok (cols, false)
  | some selectors ↦ filter_selectors cols table selectors
]

-- strings.ToLower(name) == "count", of which no letter is the lower case of one that is not ASCII.
abbrev pub lower : ℕ → ℕ
lower c = if leb 65 c && leb c 90 then c + 32 else c

abbrev pub lower_codes : String → List ℕ
lower_codes String.[] = []
lower_codes (String.◌∷◌ c s) = lower (code c) ∷ lower_codes s

unfoldable pub is_count_name : String → Bool
is_count_name name = lower_codes name == (99 ∷ 111 ∷ 117 ∷ 110 ∷ 116 ∷ [])
