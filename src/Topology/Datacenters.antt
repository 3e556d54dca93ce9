-- ===== src/Topology/Datacenters.antt =====
-- controlconn.go: the hosts of one datacenter.
use zdm_proxy.Prelude.{
  ◌<◌, ◌≡◌, ◌≢◌, sym, subst, ◌⊎◌, inl, inr, List, [], ◌∷◌, String, string_eq, ◌==◌, length, ok,
  arith, All, Bool-cases,
}
use zdm_proxy.Topology.{Host, filter_hosts_by_datacenter, non_empty, filter_local, filter_hosts}

filter_hosts-All :
    (dc : String) (hosts : List Host)
    → All (λ h. h.datacenter ≡ dc) (filter_hosts_by_datacenter dc hosts)
unfolding filter_hosts_by_datacenter
filter_hosts-All dc [] = tt
filter_hosts-All dc (h ∷ hosts) = elim (Bool-cases (h.datacenter == dc)) [
  | inl here ↦
      rw (here, filter_hosts_by_datacenter)
        ((string_eq.equal_iff h.datacenter dc).0 here, filter_hosts-All dc hosts)
  | inr elsewhere ↦ rw (elsewhere, filter_hosts_by_datacenter) (filter_hosts-All dc hosts)
]

-- Which datacenter filterHosts may settle on: the current one, if there is one; or else the
-- configured one; or else that of the local host, if none is configured or it has no hosts.
pub Chosen : List Host → String → String → String → String → Type 0
Chosen hosts current_dc configured_dc local_host_dc dc =
    ((current_dc ≢ "") × (dc ≡ current_dc))
    ⊎ ((current_dc ≡ "")
        × (((configured_dc ≢ "") × (dc ≡ configured_dc))
            ⊎ ((dc ≡ local_host_dc)
                × ((configured_dc ≡ "") ⊎ (filter_hosts_by_datacenter configured_dc hosts ≡ [])))))

chosen_lem :
    (hosts : List Host) (current_dc configured_dc local_host_dc dc : String) (found : List Host)
    → filter_hosts hosts current_dc configured_dc local_host_dc ≡ ok (found, dc)
    → (found ≡ filter_hosts_by_datacenter dc hosts)
      × (0 < length found)
      × Chosen hosts current_dc configured_dc local_host_dc dc
unfolding filter_hosts filter_local non_empty Chosen
chosen_lem hosts current_dc configured_dc local_host_dc dc found h =
    ground (arith, h, string_eq.equal_iff current_dc "", string_eq.equal_iff configured_dc "")

-- What filterHosts returns are all the hosts of one datacenter and at least one; the datacenter is
-- the current one if there is one, or else the configured one unless it has no hosts, or else the
-- local host's.
pub filtered_to_one_datacenter :
    (hosts : List Host) (current_dc configured_dc local_host_dc dc : String) (found : List Host)
    → filter_hosts hosts current_dc configured_dc local_host_dc ≡ ok (found, dc)
    → (found ≡ filter_hosts_by_datacenter dc hosts)
      × (0 < length found)
      × All (λ h. h.datacenter ≡ dc) found
      × Chosen hosts current_dc configured_dc local_host_dc dc
filtered_to_one_datacenter hosts current_dc configured_dc local_host_dc dc found h =
    let (e, n, c) = chosen_lem hosts current_dc configured_dc local_host_dc dc found h in
    (e, n, subst (All (λ h. h.datacenter ≡ dc)) (sym e) (filter_hosts-All dc hosts), c)
