-- ===== src/Topology.antt =====
-- proxy/pkg/zdmproxy/controlconn.go: which hosts of a cluster a proxy instance connects to, the
-- virtual hosts that it shows its clients, and the negotiation of the protocol version.
pub mod Assignment
pub mod Datacenters
pub mod Tokens
pub mod RoundRobin
pub mod Negotiation
mod Tests
use zdm_proxy.Prelude.{
  ℕ, zero, suc, ◌+◌, ◌-◌, ◌*◌, ◌/◌, ◌%◌, Bool, true, false, Option, none, some, List, [], ◌∷◌,
  String, string_eq, ◌==◌, ℤ, pos, negsuc, eqb, leb, length, get_elem?, if◌then◌else◌, Result, ok,
  err, ◌>>=◌,
}
use zdm_proxy.Protocol.{ProtocolVersions}

-- Host: the fields that the assignment reads.
pub record Host : Type 0 where
  pub host_id : ℕ
  pub datacenter : String

-- The loop of computeAssignedHosts, at the counter `i`.
unfoldable pub assign_from : ℕ → ℕ → ℕ → List Host → List Host
assign_from wanted count i [] = []
assign_from wanted count i (h ∷ hosts) =
    let rest = assign_from wanted count ((i + 1) % count) hosts in
    if eqb i wanted then h ∷ rest else rest

unfoldable pub compute_assigned_hosts : ℕ → ℕ → List Host → List Host
unfolding assign_from
compute_assigned_hosts index count ordered_hosts =
    assign_from (index % length ordered_hosts) count 0 ordered_hosts

-- An index out of range would panic: `none`.
unfoldable pub assign_virtual_from : ℕ → ℕ → List Host → Option (List Host)
assign_virtual_from i zero hosts = some []
assign_virtual_from i (suc n) hosts =
    let rest = assign_virtual_from (i + 1) n hosts in
    elim (get_elem? hosts (i % length hosts)) [
      | none ↦ none
      | some h ↦ elim rest [ none ↦ none | some hs ↦ some (h ∷ hs) ]
    ]

unfoldable pub compute_assigned_hosts_for_virtualization : ℕ → List Host → Option (List Host)
unfolding assign_virtual_from
compute_assigned_hosts_for_virtualization count ordered_hosts =
    assign_virtual_from 0 count ordered_hosts

unfoldable pub filter_hosts_by_datacenter : String → List Host → List Host
filter_hosts_by_datacenter datacenter [] = []
filter_hosts_by_datacenter datacenter (h ∷ hosts) =
    let rest = filter_hosts_by_datacenter datacenter hosts in
    if h.datacenter == datacenter then h ∷ rest else rest

pub data FilterError : Type 0 where
  current_dc_not_found local_dc_not_found : String → FilterError

-- The hosts of one datacenter, unless there are none.
unfoldable pub non_empty :
    FilterError → String → List Host → Result FilterError (List Host × String)
non_empty e datacenter [] = err e
non_empty e datacenter (h ∷ hosts) = ok (h ∷ hosts, datacenter)

unfoldable pub filter_local : String → List Host → Result FilterError (List Host × String)
unfolding non_empty
filter_local local_host_dc hosts =
    non_empty (local_dc_not_found local_host_dc) local_host_dc
      (filter_hosts_by_datacenter local_host_dc hosts)

unfoldable pub filter_hosts :
    List Host → String → String → String → Result FilterError (List Host × String)
unfolding non_empty filter_local
filter_hosts hosts current_dc configured_dc local_host_dc =
    if current_dc == ""
    then (if configured_dc == ""
        then filter_local local_host_dc hosts
        else elim (filter_hosts_by_datacenter configured_dc hosts) [
          | [] ↦ filter_local local_host_dc hosts
          | h ∷ hs ↦ ok (h ∷ hs, configured_dc)
        ])
    else non_empty (current_dc_not_found current_dc) current_dc
        (filter_hosts_by_datacenter current_dc hosts)
