-- ===== src/Credentials/Client.antt =====
-- proxy/pkg/zdmproxy/clienthandler.go: handleClientCredentials and forwardAuthToTarget, which choose
-- the credentials of each connection from the client's and those of the configuration.
use zdm_proxy.Prelude.{
  ℕ, Bool, true, false, ◌&&◌, not, Option, none, some, List, [], if◌then◌else◌, Result, ok, err,
}
use zdm_proxy.Protocol.{ClusterType, origin, target, RawFrame, cluster_beq}
use zdm_proxy.Credentials.{
  AuthCredentials, marshal, without_credentials, not_unmarshaled, with_credentials,
  parse_credentials_from_request,
}

-- The fields of ClientHandler that do not change; `async_connector` is the cluster type of the async
-- connector, if there is one.
pub record AuthSettings : Type 0 where
  pub forward_auth_to_target : Bool
  pub target_creds_on_client_request : Bool
  pub origin_username : List ℕ
  pub origin_password : List ℕ
  pub target_username : List ℕ
  pub target_password : List ℕ
  pub async_connector : Option ClusterType

-- secondaryHandshakeCreds and asyncHandshakeCreds
pub record HandshakeCreds : Type 0 where
  pub secondary : Option AuthCredentials
  pub async : Option AuthCredentials

-- IsAuthEnabled of each control connection is `none` for an error, and the target's is not called
-- after an error of the origin's. The results are forwardAuthToTarget and targetCredsOnClientRequest.
unfoldable pub forward_auth : Option Bool → Option Bool → Bool → Bool × Bool
forward_auth none enabled_on_target forward_client_creds_to_origin = (false, true)
forward_auth (some enabled_on_origin) none forward_client_creds_to_origin = (false, true)
forward_auth (some enabled_on_origin) (some enabled_on_target) forward_client_creds_to_origin =
    if not enabled_on_origin && enabled_on_target
    then (true, true)
    else if enabled_on_origin && not enabled_on_target
    then (false, false)
    else (false, not forward_client_creds_to_origin)

-- &AuthCredentials{Username: ..., Password: ...}
abbrev pub credentials_of : List ℕ → List ℕ → AuthCredentials
credentials_of username password = record { auth_id = []; username = username; password = password }

pub data CredentialsError : Type 0 where
  frame_not_decoded not_auth_response bad_token frame_not_converted : CredentialsError

module _ (settings : AuthSettings) where
  open settings use {
    forward_auth_to_target, target_creds_on_client_request, origin_username, origin_password,
    target_username, target_password, async_connector,
  }

  abbrev pub origin_credentials : AuthCredentials
  origin_credentials = credentials_of origin_username origin_password

  abbrev pub target_credentials : AuthCredentials
  target_credentials = credentials_of target_username target_password

  -- secondaryHandshakeCreds, and primaryHandshakeCreds, which is nil at first.
  unfoldable pub handshake_credentials : AuthCredentials → AuthCredentials × Option AuthCredentials
  handshake_credentials client =
      if forward_auth_to_target
      then (if target_creds_on_client_request
          then (origin_credentials, none)
          else (client, some target_credentials))
      else (if target_creds_on_client_request
          then (client, some origin_credentials)
          else (target_credentials, none))

  unfoldable pub async_credentials : AuthCredentials → AuthCredentials
  async_credentials client = elim async_connector [
    | none ↦ client
    | some cluster ↦
        let replaced =
          if target_creds_on_client_request && cluster_beq cluster origin
          then origin_credentials
          else client in
        if not target_creds_on_client_request && cluster_beq cluster target
        then target_credentials
        else replaced
  ]

  -- `decode` is the library's ConvertFromRawFrame: an error, another message than AUTH_RESPONSE, or a
  -- token, which may be nil; `convert` is ConvertToRawFrame of the frame with another token. The
  -- fields are set before the last error.
  unfoldable pub handle_client_credentials :
      (RawFrame → Option (Option (Option (List ℕ))))
      → (RawFrame → List ℕ → Option RawFrame)
      → RawFrame
      → HandshakeCreds
      → HandshakeCreds × Result CredentialsError RawFrame
  unfolding handshake_credentials async_credentials
  handle_client_credentials decode convert f creds = elim (decode f) [
    | none ↦ (creds, err frame_not_decoded)
    | some message ↦ elim message [
      | none ↦ (creds, err not_auth_response)
      | some token ↦ elim (parse_credentials_from_request token) [
        | not_unmarshaled ↦ (creds, err bad_token)
        | without_credentials ↦ (creds, ok f)
        | with_credentials client ↦
            let (secondary, primary) = handshake_credentials client in
            let creds' : HandshakeCreds = record {
              secondary = some secondary;
              async = some (async_credentials client);
            } in
            elim primary [
              | none ↦ (creds', ok f)
              | some p ↦ elim (convert f (marshal p)) [
                | none ↦ (creds', err frame_not_converted)
                | some f' ↦ (creds', ok f')
              ]
            ]
      ]
    ]
  ]
