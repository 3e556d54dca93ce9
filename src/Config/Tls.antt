-- ===== src/Config/Tls.antt =====
-- config.go: which TLS settings are accepted, and what comes of them.
use zdm_proxy.Prelude.{
  ◌≡◌, Bool, ◌&&◌, ◌||◌, not, String, string_eq, ◌==◌, if◌then◌else◌, ok, err, arith,
}
use zdm_proxy.Config.{
  is_defined, is_not_defined, incomplete_tls, bundle_and_custom, parse_cluster_tls_config,
}

abbrev pub given : String → Bool
given s = not (s == "")

-- A bundle with no file, or no bundle and of the files none, the server's alone, or all.
abbrev pub acceptable : String → String → String → String → Bool
acceptable bundle ca cert key =
    if given bundle
    then not (given ca || (given cert || given key))
    else if given ca
    then (given cert && given key) || not (given cert || given key)
    else not (given cert || given key)

-- The TLS settings of a cluster are accepted exactly if they are a bundle without files, or without a
-- bundle no file, the server's certificate alone, or all three files. What comes of them is the settings
-- as they are, with TLS enabled exactly if one of them is given.
tls_config_lem :
    (bundle ca cert key : String)
    → parse_cluster_tls_config bundle ca cert key ≡ (
        if acceptable bundle ca cert key
        then ok (record {
          tls_enabled = given bundle || given ca;
          server_ca_path = ca;
          client_cert_path = cert;
          client_key_path = key;
          secure_connect_bundle_path = bundle;
        })
        else err (if given bundle then bundle_and_custom else incomplete_tls))
unfolding parse_cluster_tls_config is_defined is_not_defined
tls_config_lem bundle ca cert key = ground (
  arith,
  string_eq.equal_iff bundle "",
  string_eq.equal_iff ca "",
  string_eq.equal_iff cert "",
  string_eq.equal_iff key "",
)
