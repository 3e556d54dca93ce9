-- ===== src/Protocol.antt =====
-- proxy/pkg/zdmproxy/cqlparser.go, clusterconn.go and proxy/pkg/common/types.go: the small
-- enumerations of the proxy, and the parts of the protocol library's frames that the proxy reads.
-- The library's op codes are those that the proxy names, with all others under `other`.
use zdm_proxy.Prelude.{ℕ, ◌<◌, ◌≡◌, ◌↔◌, Bool, true, false, List, ℤ, arith}

-- forwardDecision
pub data ForwardDecision : Type 0 where
  to_origin to_target to_both to_none to_async_only : ForwardDecision

-- common.ClusterType
pub data ClusterType : Type 0 where
  cluster_none origin target : ClusterType

-- ClusterConnectorType
pub data ClusterConnectorType : Type 0 where
  connector_none origin_connector target_connector async_connector : ClusterConnectorType

-- primitive.OpCode, of the protocol library.
pub data OpCode : Type 0 where
  startup options query prepare execute batch register auth_response : OpCode
  error ready authenticate supported result event auth_challenge auth_success : OpCode
  other : ℕ → OpCode

-- frame.Header and frame.RawFrame, of the protocol library.
pub record Header : Type 0 where
  pub version : ℕ
  pub stream_id : ℤ
  pub op_code : OpCode

pub record RawFrame : Type 0 where
  pub header : Header
  pub body : List ℕ

-- The constants primitive.ProtocolVersion2 and so on are the library's: a parameter, in the order
-- that the protocol gives them.
pub record ProtocolVersions : Type 0 where
  pub v2 : ℕ
  pub v3 : ℕ
  pub v4 : ℕ
  pub v5 : ℕ
  pub dse1 : ℕ
  pub dse2 : ℕ

pub record InOrder (p : ProtocolVersions) : Type 0 where
  pub positive : 0 < p.v2
  pub v2_v3 : p.v2 < p.v3
  pub v3_v4 : p.v3 < p.v4
  pub v4_v5 : p.v4 < p.v5
  pub v5_dse1 : p.v5 < p.dse1
  pub dse1_dse2 : p.dse1 < p.dse2

abbrev pub cluster_beq : ClusterType → ClusterType → Bool
cluster_beq cluster_none cluster_none = true
cluster_beq origin origin = true
cluster_beq target target = true
cluster_beq _ _ = false

pub cluster_beq_iff : (a b : ClusterType) → (cluster_beq a b ≡ true) ↔ (a ≡ b)
cluster_beq_iff a b = ground arith

abbrev pub decision_beq : ForwardDecision → ForwardDecision → Bool
decision_beq to_origin to_origin = true
decision_beq to_target to_target = true
decision_beq to_both to_both = true
decision_beq to_none to_none = true
decision_beq to_async_only to_async_only = true
decision_beq _ _ = false
