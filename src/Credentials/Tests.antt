-- ===== src/Credentials/Tests.antt =====
-- The tokens of a user, and the choice of credentials.
use zdm_proxy.Prelude.{
  ℕ, ◌≡◌, ◌≤◌, ◌↔◌, refl, true, false, Option, none, some, List, [], ◌∷◌, pos, string_eq, Result,
  ok, arith,
}
use zdm_proxy.Protocol.{RawFrame, auth_response, target}
use zdm_proxy.Credentials.{
  AuthCredentials, no_auth_credentials, marshal, unmarshal, read_bytes, read_username_and_password,
  parse_credentials_from_request, with_credentials, initial_response,
}
use zdm_proxy.Credentials.Client.{
  AuthSettings, HandshakeCreds, forward_auth, handle_client_credentials, credentials_of,
  CredentialsError,
}
use zdm_proxy.Credentials.Choice.{credentials_by_cluster, forward_auth_follows}
use zdm_proxy.Credentials.Tokens.{
  unmarshal-marshal, unmarshal_reads, parse-initial_response, delimiters,
}

abbrev user : AuthCredentials
user = record { auth_id = []; username = 117 ∷ []; password = 112 ∷ 113 ∷ [] }

-- A password with a byte 0 is cut.
cut_password :
    unmarshal (65 ∷ 0 ∷ 117 ∷ 0 ∷ 112 ∷ 0 ∷ 113 ∷ []) no_auth_credentials
    ≡ (record { auth_id = 65 ∷ []; username = 117 ∷ []; password = 112 ∷ [] }, true)
unfolding unmarshal read_bytes read_username_and_password
cut_password = refl

unmarshal-marshal_example : unmarshal (marshal user) no_auth_credentials ≡ (user, true)
unmarshal-marshal_example =
    unmarshal-marshal user no_auth_credentials (ground arith) (ground arith) (ground arith)

reads_credentials :
    ((unmarshal (0 ∷ 117 ∷ []) no_auth_credentials).1 ≡ true) ↔ (2 ≤ delimiters (0 ∷ 117 ∷ []))
reads_credentials = unmarshal_reads (0 ∷ 117 ∷ []) no_auth_credentials

initial_response_parsed :
    parse_credentials_from_request
      (some (initial_response "org.apache.cassandra.auth.PasswordAuthenticator" user))
    ≡ with_credentials user
initial_response_parsed =
    parse-initial_response "org.apache.cassandra.auth.PasswordAuthenticator" user (ground arith)
      (ground arith) (ground arith)

-- The client's credentials are for the target; the origin's come from the configuration.
abbrev auth_settings : AuthSettings
auth_settings = record {
  forward_auth_to_target = false;
  target_creds_on_client_request = true;
  origin_username = 111 ∷ [];
  origin_password = 112 ∷ [];
  target_username = [];
  target_password = [];
  async_connector = some target;
}

abbrev client_frame : RawFrame
client_frame = record {
  header = record { version = 4; stream_id = pos 1; op_code = auth_response };
  body = 0 ∷ 117 ∷ 0 ∷ 112 ∷ 113 ∷ [];
}

abbrev decode_token : RawFrame → Option (Option (Option (List ℕ)))
decode_token f = some (some (some f.body))

abbrev convert_token : RawFrame → List ℕ → Option RawFrame
convert_token f token = some (record f { body = token })

parsed_token : parse_credentials_from_request (some client_frame.body) ≡ with_credentials user
unfolding parse_credentials_from_request unmarshal read_bytes read_username_and_password
parsed_token = refl

abbrev handled_credentials : HandshakeCreds × Result CredentialsError RawFrame
handled_credentials =
    handle_client_credentials auth_settings decode_token convert_token client_frame
      (record { secondary = none; async = none })

credentials_by_cluster_example :
    (handled_credentials.0.secondary ≡ some user)
    × (handled_credentials.0.async ≡ some user)
    × (handled_credentials.1
        ≡ ok (record client_frame { body = marshal (credentials_of (111 ∷ []) (112 ∷ [])) }))
credentials_by_cluster_example =
    credentials_by_cluster auth_settings decode_token convert_token client_frame
      (some client_frame.body) user (record { secondary = none; async = none }) refl parsed_token

follows_primary : forward_auth (some true) (some true) true ≡ (false, false)
follows_primary = forward_auth_follows true true true
