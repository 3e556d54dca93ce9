-- ===== src/Config/Tests.antt =====
-- Settings of two proxies and of TLS.
use zdm_proxy.Prelude.{
  map, ℕ, ◌≤◌, ◌≡◌, refl, if◌then◌else◌, true, Option, none, some, List, [], ◌∷◌, pos, String,
  string_eq, ◌==◌, ok, err, get_elem?,
}
use zdm_proxy.Config.{
  is_defined, is_not_defined, without_spaces, split_commas, parse_contact_points, bundle_and_custom,
  parse_cluster_tls_config, TopologyConfig, parse_addresses, proxy_addresses, checked_topology,
  parse_topology_config, parse_cluster_contact_points,
}
use zdm_proxy.Config.Topology.{addresses_given, topology_in_range}

two_points : parse_contact_points "10.0.0.1, 10.0.0.2" ≡ "10.0.0.1" ∷ "10.0.0.2" ∷ []
unfolding parse_contact_points split_commas without_spaces
two_points = refl

bundle_without_contact_points : parse_cluster_contact_points "bundle.zip" "" "" 0 true ≡ ok none
unfolding parse_cluster_contact_points is_defined is_not_defined
bundle_without_contact_points = refl

abbrev parse_one : String → Option (List ℕ)
parse_one s = if s == "10.0.0.1" then some (10 ∷ 0 ∷ 0 ∷ 1 ∷ []) else some (10 ∷ 0 ∷ 0 ∷ 2 ∷ [])

abbrev no_host : String → Option (List (Option (List ℕ)))
no_host s = none

abbrev two_proxies : TopologyConfig
two_proxies = record {
  virtualization_enabled = true;
  addresses = (10 ∷ 0 ∷ 0 ∷ 1 ∷ []) ∷ (10 ∷ 0 ∷ 0 ∷ 2 ∷ []) ∷ [];
  count = 2;
  index = 1;
  num_tokens = 8;
}

parsed :
    parse_topology_config parse_one no_host "10.0.0.1, 10.0.0.2" "" (pos 1) (pos 8) ≡ ok two_proxies
unfolding parse_topology_config proxy_addresses is_not_defined parse_addresses parse_contact_points
    split_commas without_spaces checked_topology
parsed = refl

topology_in_range_example :
    (pos 1 ≡ pos 1)
    × (pos 8 ≡ pos 8)
    × (two_proxies.count ≡ 2)
    × (1 ≤ 8)
    × (8 ≤ 256)
    × (map some two_proxies.addresses ≡ addresses_given parse_one no_host "10.0.0.1, 10.0.0.2" "")
    × ((a : List ℕ) × (get_elem? two_proxies.addresses 1 ≡ some a))
topology_in_range_example =
    topology_in_range parse_one no_host "10.0.0.1, 10.0.0.2" "" (pos 1) (pos 8) two_proxies parsed

bundle_with_ca_refused :
    parse_cluster_tls_config "bundle.zip" "ca.pem" "" "" ≡ err bundle_and_custom
unfolding parse_cluster_tls_config is_defined is_not_defined
bundle_with_ca_refused = refl
