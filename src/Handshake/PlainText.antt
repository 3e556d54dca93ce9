-- ===== src/Handshake/PlainText.antt =====
-- startup.go and auth.go: the conversation with a DSE node that asks for plain text credentials.
use zdm_proxy.Prelude.{
  ℕ, ◌≡◌, refl, false, Option, none, some, List, [], ◌∷◌, string_eq, bytes_eq, arith,
}
use zdm_proxy.Protocol.{Header, RawFrame, authenticate, auth_challenge, auth_success}
use zdm_proxy.Credentials.{
  AuthCredentials, initial_response, evaluate_challenge, marshal, mechanism, dse_authenticator,
  expected_challenge,
}
use zdm_proxy.Handshake.{
  HandshakeMessage, authenticate_message, auth_challenge_message, Reply, Loop, phase2,
  ConnectorState, handshake_token, handle_secondary_handshake_response, perform_handshake_step,
  round_request, after_response, after_reply, after_request, round, rounds,
  handle_secondary_handshake_startup, conclude, response,
}

-- A DSE node that asks for authentication in its answer to STARTUP, replies to PLAIN with the
-- challenge PLAIN-START, and to the token of the credentials with AUTH_SUCCESS, is authenticated to
-- with exactly these two frames, if the library can decode its responses and encode the frames.
plain_text_succeeds :
    (decode : RawFrame → Option HandshakeMessage) (convert : Header → List ℕ → Option RawFrame)
    (c : AuthCredentials)
    (startup_request startup_response plain token challenge success : RawFrame)
    (m : HandshakeMessage) (exchange : List RawFrame → RawFrame → Reply) (state : ConnectorState)
    → startup_response.header.op_code ≡ authenticate
    → decode startup_response ≡ some (authenticate_message dse_authenticator)
    → convert startup_request.header mechanism ≡ some plain
    → exchange [] plain ≡ response challenge
    → challenge.header.op_code ≡ auth_challenge
    → decode challenge ≡ some (auth_challenge_message expected_challenge)
    → convert startup_request.header (marshal c) ≡ some token
    → exchange (plain ∷ []) token ≡ response success
    → success.header.op_code ≡ auth_success
    → decode success ≡ some m
    → (l : Loop) × (handle_secondary_handshake_startup decode convert
          (some c)
          startup_request
          startup_response
          false
          exchange
          state
        ≡ some (none, state, l))
      × (l.sent ≡ plain ∷ token ∷ [])
      × (l.received ≡ startup_response ∷ challenge ∷ success ∷ [])
unfolding handle_secondary_handshake_startup rounds round round_request perform_handshake_step
    handshake_token after_request after_reply after_response handle_secondary_handshake_response
    conclude initial_response evaluate_challenge
plain_text_succeeds decode convert c startup_request startup_response plain token challenge success
      m exchange state a b d e f g h i j k =
    (
      record {
        phase = phase2;
        attempts = 3;
        last_response = some (auth_challenge_message expected_challenge);
        sent = plain ∷ token ∷ [];
        received = startup_response ∷ challenge ∷ success ∷ [];
      },
      ground (arith, a, b, d, e, f, g, h, i, j, k),
      refl,
      refl,
    )
