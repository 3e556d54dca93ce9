-- ===== src/Topology/Tests.antt =====
-- The assignment of hosts on small inputs.
use zdm_proxy.Prelude.{
  ℕ, suc, ◌+◌, ◌%◌, ◌≡◌, refl, true, some, List, [], ◌∷◌, string_eq, ok, ltb, if◌then◌else◌,
}
use zdm_proxy.Samples.{protocol_versions, protocol_versions-InOrder}
use zdm_proxy.Topology.{Host, filter_hosts, filter_hosts_by_datacenter, filter_local, non_empty}
use zdm_proxy.Topology.RoundRobin.{System, start, Reach, here, next, adds, add_one, round_robin}
use zdm_proxy.Topology.Negotiation.{
  Attempt, unsupported, connected, conn_and_negotiate_proto_ver, first_answer, versions_below,
  negotiation,
}

abbrev host : ℕ → Host
host n = record { host_id = n; datacenter = "dc1" }

abbrev three_hosts : List Host
three_hosts = host 0 ∷ host 1 ∷ host 2 ∷ []

local_hosts : filter_hosts three_hosts "" "dc2" "dc1" ≡ ok (three_hosts, "dc1")
unfolding filter_hosts filter_hosts_by_datacenter filter_local non_empty
local_hosts = refl

-- One call has added one and wraps: it stands between its two additions.
abbrev wrapping : System
wrapping = record { counter = 2; between = 1; added = 1 }

reached_wrapping : Reach 2 (start 1) wrapping
unfolding add_one
reached_wrapping = next here (adds 2 0 true refl refl)

round_robin_example : (add_one 2 wrapping.counter).1 ≡ (1 + suc wrapping.added) % 2
round_robin_example = round_robin 2 1 wrapping reached_wrapping

-- A server that knows versions 3 and 4.
abbrev up_to_four : ℕ → Attempt
up_to_four version = if ltb 4 version then unsupported else connected

negotiation_example :
    conn_and_negotiate_proto_ver protocol_versions up_to_four (5 + 0) 66
    ≡ some (first_answer protocol_versions up_to_four 66 (versions_below protocol_versions 66))
negotiation_example = negotiation protocol_versions up_to_four protocol_versions-InOrder 0 66
