-- ===== src/Handshake/Tests.antt =====
-- Handshakes with a small cluster.
use zdm_proxy.Prelude.{
  ℕ, ◌≡◌, ◌≢◌, ◌≤◌, refl, true, false, Option, none, some, List, [], ◌∷◌, ◌==◌, bytes_eq, pos,
  length, suc, if◌then◌else◌,
}
use zdm_proxy.Protocol.{
  Header, RawFrame, OpCode, startup, auth_response, authenticate, auth_challenge, auth_success,
  ready, error,
}
use zdm_proxy.Credentials.{
  AuthCredentials, dse_authenticator, mechanism, expected_challenge, marshal, initial_response,
  evaluate_challenge,
}
use zdm_proxy.Handshake.{
  HandshakeMessage, authenticate_message, auth_challenge_message, authentication_error,
  other_message, Reply, response, Loop, Ended, ConnectorState, connector_handshake, connector_ready,
  connector_shutdown, handle_secondary_handshake_startup, nil_last_response, max_auth_retries,
  max_attempts, auth_error, Phase, rounds, round, round_request, conclude, set_ready, after_request,
  after_reply, after_response, handle_secondary_handshake_response, perform_handshake_step,
  handshake_token, HandshakeError, already_shutdown,
}
use zdm_proxy.Handshake.Progress.{handshake_ends}
use zdm_proxy.Handshake.Success.{success_completed, is_completed}

abbrev message_frame : OpCode → List ℕ → RawFrame
message_frame op body = record {
  header = record { version = 4; stream_id = pos 1; op_code = op };
  body = body;
}

abbrev decode_message : RawFrame → Option HandshakeMessage
decode_message f = elim f.header.op_code [
  | authenticate ↦ some (authenticate_message dse_authenticator)
  | auth_challenge ↦ some (auth_challenge_message f.body)
  | error ↦ some (authentication_error "bad credentials")
  | _ ↦ some other_message
]

abbrev convert_token : Header → List ℕ → Option RawFrame
convert_token h token =
    some (record { header = record h { op_code = auth_response }; body = token })

abbrev user : AuthCredentials
user = record { auth_id = []; username = 117 ∷ []; password = 112 ∷ [] }

abbrev other_user : AuthCredentials
other_user = record { auth_id = []; username = 118 ∷ []; password = 112 ∷ [] }

abbrev user_token : List ℕ
user_token = 0 ∷ 117 ∷ 0 ∷ 112 ∷ []

-- The cluster asks for the credentials of `user`.
abbrev cluster_reply : List RawFrame → RawFrame → Reply
cluster_reply before f = response (
    if f.body == mechanism
    then message_frame auth_challenge expected_challenge
    else (if f.body == user_token then message_frame auth_success [] else message_frame error []))

-- A cluster that challenges for ever.
abbrev stubborn_reply : List RawFrame → RawFrame → Reply
stubborn_reply before f = response (message_frame auth_challenge expected_challenge)

abbrev startup_frame : RawFrame
startup_frame = message_frame startup []

abbrev asks : RawFrame
asks = message_frame authenticate []

abbrev end_of : Option Ended → Option (Option HandshakeError × ConnectorState)
end_of none = none
end_of (some (e, state, l)) = some (e, state)

wrong_credentials :
    end_of (
      handle_secondary_handshake_startup decode_message convert_token
        (some other_user)
        startup_frame
        asks
        false
        cluster_reply
        connector_handshake)
    ≡ some (some (auth_error "bad credentials"), connector_handshake)
unfolding handle_secondary_handshake_startup rounds round round_request perform_handshake_step
    handshake_token after_request after_reply after_response handle_secondary_handshake_response
    conclude initial_response evaluate_challenge marshal
wrong_credentials = refl

too_many_challenges :
    end_of (
      handle_secondary_handshake_startup decode_message convert_token
        (some user)
        startup_frame
        asks
        false
        stubborn_reply
        connector_handshake)
    ≡ some (some max_attempts, connector_handshake)
unfolding handle_secondary_handshake_startup rounds round round_request perform_handshake_step
    handshake_token after_request after_reply after_response handle_secondary_handshake_response
    conclude initial_response evaluate_challenge marshal
too_many_challenges = refl

abbrev ready_reply : List RawFrame → RawFrame → Reply
ready_reply before f = response (message_frame ready [])

shut_down_meanwhile :
    end_of (
      handle_secondary_handshake_startup decode_message convert_token none startup_frame asks true
        ready_reply connector_shutdown)
    ≡ some (some already_shutdown, connector_shutdown)
unfolding handle_secondary_handshake_startup rounds round round_request after_request after_reply
    after_response handle_secondary_handshake_response conclude set_ready
shut_down_meanwhile = refl

handshake_ends_example :
    (r : Ended) × (handle_secondary_handshake_startup decode_message convert_token
        (some user)
        startup_frame
        asks
        true
        stubborn_reply
        connector_handshake
      ≡ some r)
    × (length r.2.sent ≤ suc max_auth_retries)
    × (r.0 ≢ some nil_last_response)
handshake_ends_example =
    handshake_ends decode_message convert_token (some user) startup_frame asks true stubborn_reply
      connector_handshake

abbrev after_ready : Loop
after_ready = record {
  phase = Phase.phase1;
  attempts = 1;
  last_response = none;
  sent = startup_frame ∷ [];
  received = message_frame ready [] ∷ [];
}

ready_at_once :
    handle_secondary_handshake_startup decode_message convert_token none startup_frame asks true
      ready_reply connector_handshake
    ≡ some (none, connector_ready, after_ready)
unfolding handle_secondary_handshake_startup rounds round round_request after_request after_reply
    after_response handle_secondary_handshake_response conclude set_ready
ready_at_once = refl

success_completed_example :
    (is_completed after_ready.received ≡ true) × (connector_ready ≡ connector_ready)
success_completed_example =
    success_completed decode_message convert_token none startup_frame asks true ready_reply
      connector_handshake connector_ready after_ready ready_at_once
