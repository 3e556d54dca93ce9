-- ===== src/Handshake/Success.antt =====
-- startup.go: when the handshake succeeds, and what it sends without credentials.
use zdm_proxy.Prelude.{
  ℕ, suc, ◌≡◌, ◌≢◌, refl, Bool, true, false, Option, none, some, List, [], ◌∷◌, ◌++◌, string_eq,
  bytes_eq, All, arith, Result, ok, err, subst, sym, if◌then◌else◌,
}
use zdm_proxy.Protocol.{Header, RawFrame, OpCode, ready, auth_success}
use zdm_proxy.Credentials.{AuthCredentials}
use zdm_proxy.Handshake.{
  HandshakeMessage, HandshakeError, Reply, Loop, Round, loop_start,
  handle_secondary_handshake_response, round_request, after_response, after_reply, after_request,
  round, handshake_fuel, handle_secondary_handshake_startup, set_ready, ConnectorState,
  connector_ready, Ended, conclude, response, send_error, channel_closed, shut_down,
}
use zdm_proxy.Handshake.Progress.{Kept, rounds_kept, startup_result, conclude_log}

-- The responses that complete a handshake.
abbrev pub completes : OpCode → Bool
completes ready = true
completes auth_success = true
completes _ = false

abbrev pub last {ℓ} : {A : Type ℓ} → List A → Option A
last [] = none
last (x ∷ xs) = elim (last xs) [ none ↦ some x | some y ↦ some y ]

last-append {ℓ} : {A : Type ℓ} (xs : List A) (x : A) → last (xs ++ (x ∷ [])) ≡ some x
last-append [] x = refl
last-append (y ∷ ys) x = ground (arith, last-append ys x)

-- The last frame of a conversation completes the handshake.
abbrev pub is_completed : List RawFrame → Bool
is_completed received = elim (last received) [ none ↦ false | some f ↦ completes f.header.op_code ]

All-append {ℓ κ} :
    {A : Type ℓ} (P : A → Type κ) (xs : List A) (x : A) → All P xs → P x → All P (xs ++ (x ∷ []))
All-append P [] x h p = (p, tt)
All-append P (y ∷ ys) x h p = (h.0, All-append P ys x h.1 p)

conclude_success :
    (async_connector : Bool) (e : Option HandshakeError) (l l' : Loop)
    (state state' : ConnectorState)
    → conclude async_connector e l state ≡ (none, state', l')
    → (e ≡ none) × (l ≡ l') × (state' ≡ (if async_connector then connector_ready else state))
unfolding conclude set_ready
conclude_success async_connector e l l' state state' h = ground (arith, h)

conclude_ready :
    (async_connector : Bool) (e : Option HandshakeError) (l : Loop) (state : ConnectorState)
    → (conclude async_connector e l state).0 ≢ none
    → (conclude async_connector e l state).1 ≡ state
unfolding conclude set_ready
conclude_ready async_connector e l state h = ground (arith, h)

module _ (decode : RawFrame → Option HandshakeMessage) (convert : Header → List ℕ → Option RawFrame)
    (authenticator : Option AuthCredentials) (startup_request startup_response : RawFrame)
    (async_connector : Bool) (exchange : List RawFrame → RawFrame → Reply) where
  abbrev Succeeds : Round → Type 0
  Succeeds = Kept (λ l. Unit) (λ e l. e ≡ none → is_completed l.received ≡ true)

  after_response_completed :
      (f : RawFrame) (l : Loop) → Succeeds (after_response decode convert f l)
  unfolding after_response handle_secondary_handshake_response
  after_response_completed f l = ground (arith, last-append l.received f)

  after_reply_completed :
      (r : Reply) (f : RawFrame) (l : Loop) → Succeeds (after_reply decode convert r f l)
  unfolding after_reply
  after_reply_completed (response g) f l =
      after_response_completed g (record l { sent = l.sent ++ (f ∷ []) })
  after_reply_completed _ f l = ground arith

  after_request_completed :
      (r : Result HandshakeError (RawFrame × Option RawFrame)) (l : Loop)
      → Succeeds (after_request decode convert exchange r l)
  unfolding after_request
  after_request_completed (err e) l = ground arith
  after_request_completed (ok (f, some g)) l = after_response_completed g l
  after_request_completed (ok (f, none)) l = after_reply_completed (exchange l.sent f) f l

  round_completed :
      (l : Loop)
      → Succeeds (
          round decode convert authenticator startup_request startup_response async_connector
            exchange l)
  unfolding round
  round_completed l =
      let next : Loop = record l { attempts = suc l.attempts } in
      let r =
        round_request decode convert authenticator startup_request startup_response async_connector
          next in
      ground (arith, after_request_completed r next)

  -- A handshake that succeeds has ended with READY or AUTH_SUCCESS from the cluster, and has made the
  -- async connector ready if it was the async connector's.
  pub success_completed :
      (state state' : ConnectorState) (l : Loop)
      → handle_secondary_handshake_startup decode convert authenticator startup_request
          startup_response async_connector exchange state
        ≡ some (none, state', l)
      → (is_completed l.received ≡ true)
        × (state' ≡ (if async_connector then connector_ready else state))
  success_completed state state' l h =
      let (e, l', at, out) =
        startup_result decode convert authenticator startup_request startup_response async_connector
          exchange state in
      let done =
        rounds_kept decode convert authenticator startup_request startup_response async_connector
          exchange (λ l. Unit) (λ e l. e ≡ none → is_completed l.received ≡ true)
          (λ l u. round_completed l) handshake_fuel loop_start e l' tt at in
      let (success, same, at_end) =
        conclude_success async_connector e l' l state state' (ground (arith, out, h)) in
      ground (arith, done success, same, at_end)

-- The requests of a handshake without credentials.
module _ (decode : RawFrame → Option HandshakeMessage) (convert : Header → List ℕ → Option RawFrame)
    (startup_request startup_response : RawFrame) (async_connector : Bool)
    (exchange : List RawFrame → RawFrame → Reply) where
  abbrev AllStartup : List RawFrame → Type 0
  AllStartup = All (λ f. (f ≡ startup_request) × (async_connector ≡ true))

  abbrev Sends : Round → Type 0
  Sends = Kept (λ l. AllStartup l.sent) (λ e l. AllStartup l.sent)

  after_response-Sends :
      (f : RawFrame) (l : Loop) → AllStartup l.sent → Sends (after_response decode convert f l)
  unfolding after_response
  after_response-Sends f l h = ground (arith, h)

  after_reply-Sends :
      (r : Reply) (f : RawFrame) (l : Loop)
      → (f ≡ startup_request) × (async_connector ≡ true)
      → AllStartup l.sent
      → Sends (after_reply decode convert r f l)
  unfolding after_reply
  after_reply-Sends send_error f l e h = h
  after_reply-Sends channel_closed f l e h =
      All-append (λ g. (g ≡ startup_request) × (async_connector ≡ true)) l.sent f h e
  after_reply-Sends shut_down f l e h =
      All-append (λ g. (g ≡ startup_request) × (async_connector ≡ true)) l.sent f h e
  after_reply-Sends (response g) f l e h =
      after_response-Sends g (record l { sent = l.sent ++ (f ∷ []) })
        (All-append (λ g. (g ≡ startup_request) × (async_connector ≡ true)) l.sent f h e)

  after_request-Sends :
      (r : Result HandshakeError (RawFrame × Option RawFrame)) (l : Loop)
      → ((f : RawFrame) → r ≡ ok (f, none) → (f ≡ startup_request) × (async_connector ≡ true))
      → AllStartup l.sent
      → Sends (after_request decode convert exchange r l)
  unfolding after_request
  after_request-Sends (err e) l only h = h
  after_request-Sends (ok (f, some g)) l only h = after_response-Sends g l h
  after_request-Sends (ok (f, none)) l only h =
      after_reply-Sends (exchange l.sent f) f l (only f refl) h

  round-Sends :
      (l : Loop)
      → AllStartup l.sent
      → Sends
          (round decode convert none startup_request startup_response async_connector exchange l)
  unfolding round round_request
  round-Sends l h =
      let next : Loop = record l { attempts = suc l.attempts } in
      let r =
        round_request decode convert none startup_request startup_response async_connector next in
      let only : (f : RawFrame)
          → r ≡ ok (f, none)
          → (f ≡ startup_request) × (async_connector ≡ true) =
        λ f e. ground (arith, e) in
      ground (arith, h, after_request-Sends r next only h)

  -- Without credentials nothing is sent but the client's STARTUP request, and that to an async
  -- connector alone.
  pub without_credentials_sends :
      (state : ConnectorState)
      → (r : Ended) × (handle_secondary_handshake_startup decode convert none startup_request
            startup_response async_connector exchange state
          ≡ some r)
        × AllStartup r.2.sent
  without_credentials_sends state =
      let (e, l, at, out) =
        startup_result decode convert none startup_request startup_response async_connector exchange
          state in
      let sends =
        rounds_kept decode convert none startup_request startup_response async_connector exchange
          (λ l. AllStartup l.sent) (λ e l. AllStartup l.sent) round-Sends handshake_fuel loop_start
          e l tt at in
      (
        conclude async_connector e l state,
        out,
        subst (λ (x : Loop). AllStartup x.sent) (sym (conclude_log async_connector e l state))
            sends,
      )
