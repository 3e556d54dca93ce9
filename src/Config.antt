-- ===== src/Config.antt =====
-- proxy/pkg/config/config.go: the settings of the topology, the contact points and TLS, which are
-- validated before the proxy starts. A setting that is not there is the empty text.
pub mod Text
pub mod Tls
pub mod Topology
mod Tests
use Prim.Native.Char.{code}
use zdm_proxy.Prelude.{
  ℕ, ◌+◌, Bool, true, false, ◌&&◌, ◌||◌, not, Option, none, some, List, [], ◌∷◌, ℤ, pos, negsuc,
  int_eq, String, string_eq, ◌==◌, eqb, ltb, leb, length, if◌then◌else◌, Result, ok, err, ◌>>=◌,
}

unfoldable pub is_defined : String → Bool
is_defined property_value = not (property_value == "")

unfoldable pub is_not_defined : String → Bool
is_not_defined property_value = property_value == ""

-- strings.ReplaceAll(setting, " ", "")
unfoldable pub without_spaces : String → String
without_spaces String.[] = String.[]
without_spaces (String.◌∷◌ c s) =
    let rest = without_spaces s in if eqb (code c) 32 then rest else String.◌∷◌ c rest

-- strings.Split(setting, ",")
unfoldable pub split_commas : String → List String
split_commas String.[] = "" ∷ []
split_commas (String.◌∷◌ c s) =
    let rest = split_commas s in
    if eqb (code c) 44
    then "" ∷ rest
    else (elim rest [ [] ↦ String.◌∷◌ c String.[] ∷ [] | part ∷ parts ↦ String.◌∷◌ c part ∷ parts ])

unfoldable pub parse_contact_points : String → List String
unfolding without_spaces split_commas
parse_contact_points setting = split_commas (without_spaces setting)

pub data ContactPointsError : Type 0 where
  bundle_and_contact_points bundle_and_datacenter nothing_given : ContactPointsError
  no_port datacenter_without_assignment not_parsed : ContactPointsError

-- ParseOriginContactPoints and ParseTargetContactPoints, of the settings of the cluster.
unfoldable pub parse_cluster_contact_points :
    String → String → String → ℕ → Bool → Result ContactPointsError (Option (List String))
unfolding is_defined is_not_defined parse_contact_points
parse_cluster_contact_points bundle_path contact_points local_datacenter port
      enable_host_assignment =
    if is_defined bundle_path && is_defined contact_points
    then err bundle_and_contact_points
    else if is_defined bundle_path && is_defined local_datacenter
    then err bundle_and_datacenter
    else if is_not_defined bundle_path && is_not_defined contact_points
    then err nothing_given
    else if is_defined contact_points && eqb port 0
    then err no_port
    else if not enable_host_assignment && is_defined local_datacenter
    then err datacenter_without_assignment
    else if is_not_defined bundle_path
    then (let points = parse_contact_points contact_points in
        if leb (length points) 0 then err not_parsed else ok (some points))
    else ok none

-- common.ClusterTlsConfig
pub record ClusterTlsConfig : Type 0 where
  pub tls_enabled : Bool
  pub server_ca_path : String
  pub client_cert_path : String
  pub client_key_path : String
  pub secure_connect_bundle_path : String

abbrev pub no_tls : ClusterTlsConfig
no_tls = record {
  tls_enabled = false;
  server_ca_path = "";
  client_cert_path = "";
  client_key_path = "";
  secure_connect_bundle_path = "";
}

pub data TlsError : Type 0 where
  bundle_and_custom incomplete_tls : TlsError

-- ParseOriginTlsConfig and ParseTargetTlsConfig.
unfoldable pub parse_cluster_tls_config :
    String → String → String → String → Result TlsError ClusterTlsConfig
unfolding is_defined is_not_defined
parse_cluster_tls_config bundle_path ca_path cert_path key_path =
    if is_not_defined bundle_path
      && (is_not_defined ca_path && (is_not_defined cert_path && is_not_defined key_path))
    then ok no_tls
    else if is_defined bundle_path
    then (if is_defined ca_path || (is_defined cert_path || is_defined key_path)
        then err bundle_and_custom
        else ok (record no_tls { tls_enabled = true; secure_connect_bundle_path = bundle_path }))
    else if is_defined ca_path && (is_not_defined cert_path && is_not_defined key_path)
    then ok (record no_tls { tls_enabled = true; server_ca_path = ca_path })
    else if is_defined ca_path && (is_defined cert_path && is_defined key_path)
    then ok (record no_tls {
      tls_enabled = true;
      server_ca_path = ca_path;
      client_cert_path = cert_path;
      client_key_path = key_path;
    })
    else err incomplete_tls

-- common.ProxyTlsConfig
pub record ProxyTlsConfig : Type 0 where
  pub tls_enabled : Bool
  pub proxy_ca_path : String
  pub proxy_cert_path : String
  pub proxy_key_path : String
  pub client_auth : Bool

unfoldable pub parse_proxy_tls_config :
    String → String → String → Bool → Result TlsError ProxyTlsConfig
unfolding is_defined is_not_defined
parse_proxy_tls_config ca_path cert_path key_path require_client_auth =
    if is_not_defined ca_path && (is_not_defined cert_path && is_not_defined key_path)
    then ok (record {
      tls_enabled = false;
      proxy_ca_path = "";
      proxy_cert_path = "";
      proxy_key_path = "";
      client_auth = false;
    })
    else if is_defined ca_path && (is_defined cert_path && is_defined key_path)
    then ok (record {
      tls_enabled = true;
      proxy_ca_path = ca_path;
      proxy_cert_path = cert_path;
      proxy_key_path = key_path;
      client_auth = require_client_auth;
    })
    else err incomplete_tls

-- common.TopologyConfig; an address is its bytes.
pub record TopologyConfig : Type 0 where
  pub virtualization_enabled : Bool
  pub addresses : List (List ℕ)
  pub count : ℕ
  pub index : ℕ
  pub num_tokens : ℕ

pub data TopologyError : Type 0 where
  no_addresses : TopologyError
  invalid_address : String → TopologyError
  invalid_index : ℤ → TopologyError
  invalid_num_tokens : ℤ → TopologyError

abbrev pub default_local_address : List ℕ
default_local_address = 127 ∷ 0 ∷ 0 ∷ 1 ∷ []

-- What follows the addresses, of the settings that are numbers.
unfoldable pub checked_topology : List (List ℕ) → ℤ → ℤ → Result TopologyError TopologyConfig
checked_topology addresses (negsuc n) num_tokens = err (invalid_index (negsuc n))
checked_topology addresses (pos index) (negsuc n) =
    if leb (length addresses) index
    then err (invalid_index (pos index))
    else err (invalid_num_tokens (negsuc n))
checked_topology addresses (pos index) (pos num_tokens) =
    if leb (length addresses) index
    then err (invalid_index (pos index))
    else if leb num_tokens 0 || ltb 256 num_tokens
    then err (invalid_num_tokens (pos num_tokens))
    else ok (record {
      virtualization_enabled = true;
      addresses = addresses;
      count = length addresses;
      index = index;
      num_tokens = num_tokens;
    })

-- `parse_ip` is net.ParseIP, and `lookup_ip` net.LookupIP with the results' forms of four bytes.
module _ (parse_ip : String → Option (List ℕ))
    (lookup_ip : String → Option (List (Option (List ℕ)))) where
  abbrev pub first_ip4 : List (Option (List ℕ)) → Option (List ℕ)
  first_ip4 [] = none
  first_ip4 (some ip ∷ ips) = some ip
  first_ip4 (none ∷ ips) = first_ip4 ips

  unfoldable pub lookup_first_ip4 : String → Option (List ℕ)
  lookup_first_ip4 host = elim (lookup_ip host) [ none ↦ none | some ips ↦ first_ip4 ips ]

  unfoldable pub parse_addresses : List String → Result TopologyError (List (List ℕ))
  parse_addresses [] = ok []
  parse_addresses (address ∷ rest) =
      let others = parse_addresses rest in
      elim (parse_ip address) [
        | none ↦ err (invalid_address address)
        | some ip ↦ others >>= λ ips. ok (ip ∷ ips)
      ]

  unfoldable pub proxy_addresses : String → String → Result TopologyError (List (List ℕ))
  unfolding is_defined is_not_defined lookup_first_ip4 parse_contact_points parse_addresses
  proxy_addresses topology_addresses listen_address =
      if is_not_defined topology_addresses
      then (if is_defined listen_address
          then (elim (lookup_first_ip4 listen_address) [
            | none ↦ ok (default_local_address ∷ [])
            | some ip ↦ ok (ip ∷ [])
          ])
          else ok (default_local_address ∷ []))
      else (let addresses = parse_contact_points topology_addresses in
          if leb (length addresses) 0 then err no_addresses else parse_addresses addresses)

  unfoldable pub parse_topology_config :
      String → String → ℤ → ℤ → Result TopologyError TopologyConfig
  unfolding proxy_addresses checked_topology
  parse_topology_config topology_addresses listen_address index num_tokens =
      proxy_addresses topology_addresses listen_address >>= λ addresses.
      checked_topology addresses index num_tokens
