-- ===== src/Handshake.antt =====
-- proxy/pkg/zdmproxy/startup.go, performHandshakeStep of auth.go, and the state of an async connector
-- of clusterconn.go: the handshake with the secondary cluster and with the async connector, which the
-- proxy performs once the client's own handshake with the primary cluster has succeeded.
pub mod PlainText
pub mod Progress
pub mod Success
mod Tests
use zdm_proxy.Prelude.{
  ℕ, zero, suc, Bool, true, false, not, Option, none, some, List, [], ◌∷◌, ◌++◌, String, ltb,
  if◌then◌else◌, Result, ok, err,
}
use zdm_proxy.Protocol.{
  ForwardDecision, to_origin, to_target, to_async_only, OpCode, authenticate, auth_challenge, ready,
  auth_success, Header, RawFrame,
}
use zdm_proxy.RequestInfo.{GenericRequestInfo}
use zdm_proxy.Credentials.{AuthCredentials, initial_response, evaluate_challenge}

-- ConnectorState
pub data ConnectorState : Type 0 where
  connector_handshake connector_ready connector_shutdown : ConnectorState

-- CompareAndSwapInt32 of the handshake state by the ready one.
unfoldable pub set_ready : ConnectorState → ConnectorState × Bool
set_ready connector_handshake = (connector_ready, true)
set_ready state = (state, false)

-- The messages of the protocol library that a handshake looks into.
pub data HandshakeMessage : Type 0 where
  authenticate_message : String → HandshakeMessage
  auth_challenge_message : List ℕ → HandshakeMessage
  authentication_error : String → HandshakeMessage
  other_message : HandshakeMessage

-- A phase other than 1 is 2.
pub data Phase : Type 0 where
  phase1 phase2 : Phase

pub data HandshakeError : Type 0 where
  max_attempts no_credentials unexpected_step_message bad_challenge : HandshakeError
  nil_last_response not_converted unable_to_send : HandshakeError
  no_response shutdown not_decoded : HandshakeError
  auth_error : String → HandshakeError
  unexpected_response : OpCode → HandshakeError
  already_shutdown : HandshakeError

-- What comes of executeRequest of a handshake frame and the wait on its channel: an error, a channel
-- closed without a response, a shutdown, or the aggregated response.
pub data Reply : Type 0 where
  send_error channel_closed shut_down : Reply
  response : RawFrame → Reply

abbrev pub max_auth_retries : ℕ
max_auth_retries = 5

-- A round for each attempt, and one that finds that there were too many.
abbrev pub handshake_fuel : ℕ
handshake_fuel = suc (suc max_auth_retries)

-- The variables of the loop. `sent` and `received` are the frames of the conversation so far.
pub record Loop : Type 0 where
  pub phase : Phase
  pub attempts : ℕ
  pub last_response : Option HandshakeMessage
  pub sent : List RawFrame
  pub received : List RawFrame

abbrev pub loop_start : Loop
loop_start = record { phase = phase1; attempts = 0; last_response = none; sent = []; received = [] }

-- `none` for success.
abbrev pub Finish : Type 0
Finish = Option HandshakeError × Loop

pub data Round : Type 0 where
  finished : Option HandshakeError → Loop → Round
  again : Loop → Round

abbrev pub Ended : Type 0
Ended = Option HandshakeError × ConnectorState × Loop

-- `if asyncConnector { if SetReady() ... }` after a success.
unfoldable pub conclude : Bool → Option HandshakeError → Loop → ConnectorState → Ended
unfolding set_ready
conclude async_connector (some e) l state = (some e, state, l)
conclude false none l state = (none, state, l)
conclude true none l state =
    let (state', is_set) = set_ready state in
    (if is_set then none else some already_shutdown, state', l)

-- performHandshakeStep up to its frame: the token. A nil response would panic.
unfoldable pub handshake_token :
    AuthCredentials → Option HandshakeMessage → Result HandshakeError (List ℕ)
handshake_token c none = err nil_last_response
handshake_token c (some (authenticate_message authenticator)) =
    ok (initial_response authenticator c)
handshake_token c (some (auth_challenge_message challenge)) =
    elim (evaluate_challenge challenge c) [ none ↦ err bad_challenge | some token ↦ ok token ]
handshake_token c (some _) = err unexpected_step_message

-- `decode` is ConvertFromRawFrame, and `convert` is ConvertToRawFrame of the AUTH_RESPONSE with a
-- version, a stream id and a token, of which it takes those of a header.
module _ (decode : RawFrame → Option HandshakeMessage)
    (convert : Header → List ℕ → Option RawFrame) where
  -- handleSecondaryHandshakeResponse; the new phase, the parsed frame and whether it is done.
  unfoldable pub handle_secondary_handshake_response :
      Phase → RawFrame → Result HandshakeError (Phase × HandshakeMessage × Bool)
  handle_secondary_handshake_response phase f = elim (decode f) [
    | none ↦ err not_decoded
    | some m ↦ elim f.header.op_code [
      | authenticate ↦ ok (phase2, m, false)
      | auth_challenge ↦ ok (phase, m, false)
      | ready ↦ ok (phase, m, true)
      | auth_success ↦ ok (phase, m, true)
      | op ↦ elim m [
        | authentication_error text ↦ err (auth_error text)
        | _ ↦ err (unexpected_response op)
      ]
    ]
  ]

  unfoldable pub perform_handshake_step :
      AuthCredentials → RawFrame → Option HandshakeMessage → Result HandshakeError RawFrame
  unfolding handshake_token
  perform_handshake_step c startup last = elim (handshake_token c last) [
    | err e ↦ err e
    | ok token ↦ elim (convert startup.header token) [ none ↦ err not_converted | some f ↦ ok f ]
  ]

  -- The end of a round, of its response.
  unfoldable pub after_response : RawFrame → Loop → Round
  unfolding handle_secondary_handshake_response
  after_response f l =
      let l' : Loop = record l { received = l.received ++ (f ∷ []) } in
      elim (handle_secondary_handshake_response l.phase f) [
        | err e ↦ finished (some e) l'
        | ok (phase, m, done) ↦
            if done
            then finished none l'
            else again (record l' { phase = phase; last_response = some m })
      ]

  unfoldable pub after_reply : Reply → RawFrame → Loop → Round
  unfolding after_response
  after_reply send_error request l = finished (some unable_to_send) l
  after_reply channel_closed request l =
      finished (some no_response) (record l { sent = l.sent ++ (request ∷ []) })
  after_reply shut_down request l =
      finished (some shutdown) (record l { sent = l.sent ++ (request ∷ []) })
  after_reply (response f) request l =
      after_response f (record l { sent = l.sent ++ (request ∷ []) })

  module _ (authenticator : Option AuthCredentials) (startup_request startup_response : RawFrame)
      (async_connector : Bool) where
    -- The request of a round, and the response that is known without sending it.
    unfoldable pub round_request : Loop → Result HandshakeError (RawFrame × Option RawFrame)
    unfolding perform_handshake_step
    round_request l = elim l.phase [
      | phase1 ↦ ok (startup_request, if async_connector then none else some startup_response)
      | phase2 ↦ elim authenticator [
        | none ↦ err no_credentials
        | some c ↦ elim (perform_handshake_step c startup_request l.last_response) [
          | err e ↦ err e
          | ok f ↦ ok (f, none)
        ]
      ]
    ]

  -- The reply depends on the frames that were sent before.
  module _ (exchange : List RawFrame → RawFrame → Reply) where
    unfoldable pub after_request : Result HandshakeError (RawFrame × Option RawFrame) → Loop → Round
    unfolding after_response after_reply
    after_request (err e) l = finished (some e) l
    after_request (ok (request, some f)) l = after_response f l
    after_request (ok (request, none)) l = after_reply (exchange l.sent request) request l

  module _ (authenticator : Option AuthCredentials) (startup_request startup_response : RawFrame)
      (async_connector : Bool) (exchange : List RawFrame → RawFrame → Reply) where
    unfoldable pub round : Loop → Round
    unfolding round_request after_request
    round l =
        let l' : Loop = record l { attempts = suc l.attempts } in
        if ltb max_auth_retries l.attempts
        then finished (some max_attempts) l
        else after_request exchange
            (round_request authenticator startup_request startup_response async_connector l') l'

    -- `none` where the fuel is too little.
    unfoldable pub rounds : ℕ → Loop → Option Finish
    unfolding round
    rounds zero l = none
    rounds (suc fuel) l = elim (round l) [
      | finished e l' ↦ some (e, l')
      | again l' ↦ rounds fuel l'
    ]

    -- `state` is the async connector's when the handshake ends, which it sets to ready.
    unfoldable pub handle_secondary_handshake_startup : ConnectorState → Option Ended
    unfolding rounds conclude
    handle_secondary_handshake_startup state = elim (rounds handshake_fuel loop_start) [
      | none ↦ none
      | some (e, l) ↦ some (conclude async_connector e l state)
    ]

-- The forward decision of the handshake's requests, and their request info.
unfoldable pub handshake_request_info : Bool → Bool → GenericRequestInfo
handshake_request_info async_connector forward_auth_to_target = record {
  forward_decision =
      if async_connector
      then to_async_only
      else (if forward_auth_to_target then to_origin else to_target);
  should_also_be_sent_async = async_connector;
  track_metrics = false;
}

-- validateSecondaryStartupResponse
unfoldable pub validate_secondary_startup_response : RawFrame → Option HandshakeError
validate_secondary_startup_response f = elim f.header.op_code [
  | authenticate ↦ none
  | auth_challenge ↦ none
  | ready ↦ none
  | auth_success ↦ none
  | op ↦ some (unexpected_response op)
]
