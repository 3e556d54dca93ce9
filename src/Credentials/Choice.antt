-- ===== src/Credentials/Choice.antt =====
-- clienthandler.go: every connection gets the credentials that are meant for its cluster.
use zdm_proxy.Prelude.{
  ℕ, ◌≡◌, Bool, ◌&&◌, ◌||◌, not, Option, none, some, List, if◌then◌else◌, ok, err, arith,
}
use zdm_proxy.Protocol.{ClusterType, cluster_none, origin, target, RawFrame, cluster_beq}
use zdm_proxy.Credentials.{
  AuthCredentials, marshal, with_credentials, parse_credentials_from_request,
}
use zdm_proxy.Credentials.Client.{
  AuthSettings, HandshakeCreds, forward_auth, handle_client_credentials, origin_credentials,
  target_credentials, frame_not_converted, handshake_credentials, async_credentials,
}

-- The cluster that the client's credentials are for, and the two clusters of the handshake.
abbrev pub client_cluster : AuthSettings → ClusterType
client_cluster s = if s.target_creds_on_client_request then target else origin

abbrev pub primary_cluster : AuthSettings → ClusterType
primary_cluster s = if s.forward_auth_to_target then target else origin

abbrev pub secondary_cluster : AuthSettings → ClusterType
secondary_cluster s = if s.forward_auth_to_target then origin else target

-- The configuration's credentials for a cluster, unless the client's are for it.
abbrev pub meant_for : AuthSettings → AuthCredentials → ClusterType → AuthCredentials
meant_for s client cluster =
    if cluster_beq cluster (client_cluster s)
    then client
    else (if cluster_beq cluster target then target_credentials s else origin_credentials s)

-- What the async connector gets: what is meant for its cluster. Nobody uses it where there is no
-- connector to a cluster, and there it is the client's.
abbrev pub meant_for_async : AuthSettings → AuthCredentials → Option ClusterType → AuthCredentials
meant_for_async s client none = client
meant_for_async s client (some cluster_none) = client
meant_for_async s client (some cluster) = meant_for s client cluster

-- A frame with the client's credentials, which is decoded, leaves the credentials that are meant for its
-- cluster for the secondary handshake, with an async connector or without one, and for the async
-- handshake those that are meant for the async connector's cluster, or the client's if there is no such
-- connector; the frame for the primary cluster is the client's own if the client's credentials are for
-- that cluster, and otherwise the one with the token of the credentials meant for it, if the library can
-- convert that.
pub credentials_by_cluster :
    (s : AuthSettings) (decode : RawFrame → Option (Option (Option (List ℕ))))
    (convert : RawFrame → List ℕ → Option RawFrame) (f : RawFrame) (token : Option (List ℕ))
    (client : AuthCredentials) (creds : HandshakeCreds)
    → decode f ≡ some (some token)
    → parse_credentials_from_request token ≡ with_credentials client
    → let r = handle_client_credentials s decode convert f creds in
      (r.0.secondary ≡ some (meant_for s client (secondary_cluster s)))
      × (r.0.async ≡ some (meant_for_async s client s.async_connector))
      × (r.1 ≡ (
          if cluster_beq (primary_cluster s) (client_cluster s)
          then ok f
          else elim (convert f (marshal (meant_for s client (primary_cluster s)))) [
            | none ↦ err frame_not_converted
            | some f' ↦ ok f'
          ]))
unfolding handle_client_credentials handshake_credentials async_credentials
credentials_by_cluster s decode convert f token client creds d p = ground (arith, d, p)

-- If exactly one cluster asks for authentication, the handshake's primary cluster is that one, and
-- the client's credentials are for it; if both or none do, the primary cluster is the origin, and the
-- client's credentials are for the origin exactly if the configuration says so.
pub forward_auth_follows :
    (on_origin on_target to_origin : Bool)
    → forward_auth (some on_origin) (some on_target) to_origin ≡ (
      on_target && not on_origin,
      (on_target && not on_origin) || (not (on_origin && not on_target) && not to_origin),
    )
unfolding forward_auth
forward_auth_follows on_origin on_target to_origin = ground arith
