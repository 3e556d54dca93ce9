-- ===== src/Handshake/Progress.antt =====
-- startup.go: the handshake ends within its attempts, and what it sends on the way.
use zdm_proxy.Prelude.{
  ℕ, zero, suc, ◌+◌, ◌≤◌, ◌<◌, ◌≡◌, ◌≢◌, refl, Bool, true, Option, none, some, is_some, List, [],
  ◌∷◌, ◌++◌, length, length-append, ltb, arith, inl, inr, Option-cases, Bool-cases, Result, ok, err,
  subst, ◌⊎◌,
}
use zdm_proxy.Protocol.{Header, RawFrame}
use zdm_proxy.Credentials.{AuthCredentials}
use zdm_proxy.Handshake.{
  HandshakeMessage, HandshakeError, nil_last_response, Reply, Loop, Round, phase2, finished, again,
  loop_start, handshake_token, handle_secondary_handshake_response, perform_handshake_step,
  round_request, after_response, after_reply, after_request, round, rounds, handshake_fuel,
  handle_secondary_handshake_startup, set_ready, ConnectorState, Ended, conclude, max_auth_retries,
  response, send_error, channel_closed, shut_down,
}

-- What a round keeps, and what it ends with.
abbrev pub Kept : (Loop → Type 0) → (Option HandshakeError → Loop → Type 0) → Round → Type 0
Kept P Q (finished e l) = Q e l
Kept P Q (again l) = P l

Round-cases :
    (r : Round)
    → ((e : Option HandshakeError) × (l : Loop) × (r ≡ finished e l)) ⊎ ((l : Loop) × (r ≡ again l))
Round-cases (finished e l) = inl (e, l, refl)
Round-cases (again l) = inr (l, refl)

-- Between two rounds: no more frames than attempts, no more attempts than are allowed, and in the
-- second phase a response to answer.
pub record IsUnderWay (l : Loop) : Type 0 where
  pub sent_by_attempt : length l.sent ≤ l.attempts
  pub allowed : l.attempts ≤ suc max_auth_retries
  pub answerable : l.phase ≡ phase2 → is_some l.last_response ≡ true

-- At the end.
pub record IsOver (e : Option HandshakeError) (l : Loop) : Type 0 where
  pub few_sent : length l.sent ≤ suc max_auth_retries
  pub no_nil : e ≢ some nil_last_response

pub conclude_log :
    (async_connector : Bool) (e : Option HandshakeError) (l : Loop) (state : ConnectorState)
    → (conclude async_connector e l state).2 ≡ l
unfolding conclude set_ready
conclude_log async_connector e l state = ground arith

conclude_nil :
    (async_connector : Bool) (e : Option HandshakeError) (l : Loop) (state : ConnectorState)
    → e ≢ some nil_last_response
    → (conclude async_connector e l state).0 ≢ some nil_last_response
unfolding conclude set_ready
conclude_nil async_connector e l state h = ground (arith, h)

module _ (decode : RawFrame → Option HandshakeMessage) (convert : Header → List ℕ → Option RawFrame)
    (authenticator : Option AuthCredentials) (startup_request startup_response : RawFrame)
    (async_connector : Bool) (exchange : List RawFrame → RawFrame → Reply) where
  abbrev run_round : Loop → Round
  run_round =
      round decode convert authenticator startup_request startup_response async_connector exchange

  abbrev run_rounds : ℕ → Loop → Option (Option HandshakeError × Loop)
  run_rounds =
      rounds decode convert authenticator startup_request startup_response async_connector exchange

  -- The invariant rule of the loop.
  pub rounds_kept :
      (P : Loop → Type 0) (Q : Option HandshakeError → Loop → Type 0)
      → ((l : Loop) → P l → Kept P Q (run_round l))
      → (fuel : ℕ) (l : Loop) (e : Option HandshakeError) (l' : Loop) → P l
      → run_rounds fuel l ≡ some (e, l')
      → Q e l'
  unfolding rounds
  rounds_kept P Q keep zero l e l' h r = cc
  rounds_kept P Q keep (suc fuel) l e l' h r = elim (Round-cases (run_round l)) [
    | inl (e', end, at) ↦
        let last = subst (λ x. Kept P Q x) at (keep l h) in
        let same : (e', end) ≡ (e, l') = ground (arith, at, r) in
        subst (λ (x : Option HandshakeError × Loop). Q x.0 x.1) same last
    | inr (next, at) ↦
        rounds_kept P Q keep fuel next e l' (subst (λ x. Kept P Q x) at (keep l h))
          (ground (arith, at, r))
  ]

  after_response-Kept :
      (f : RawFrame) (l : Loop)
      → length l.sent ≤ l.attempts
      → l.attempts ≤ suc max_auth_retries
      → (l.phase ≡ phase2 → is_some l.last_response ≡ true)
      → Kept IsUnderWay IsOver (after_response decode convert f l)
  unfolding after_response handle_secondary_handshake_response
  after_response-Kept f l h a s = ground (arith, h, a, s)

  after_reply-Kept :
      (r : Reply) (f : RawFrame) (l : Loop)
      → suc (length l.sent) ≤ l.attempts
      → l.attempts ≤ suc max_auth_retries
      → (l.phase ≡ phase2 → is_some l.last_response ≡ true)
      → Kept IsUnderWay IsOver (after_reply decode convert r f l)
  unfolding after_reply
  after_reply-Kept send_error f l h a s = ground (arith, h, a)
  after_reply-Kept channel_closed f l h a s = ground (arith, h, a, length-append l.sent (f ∷ []))
  after_reply-Kept shut_down f l h a s = ground (arith, h, a, length-append l.sent (f ∷ []))
  after_reply-Kept (response g) f l h a s =
      after_response-Kept g (record l { sent = l.sent ++ (f ∷ []) })
        (omega (arith, h, length-append l.sent (f ∷ []))) a s

  after_request-Kept :
      (r : Result HandshakeError (RawFrame × Option RawFrame)) (l : Loop)
      → r ≢ err nil_last_response
      → suc (length l.sent) ≤ l.attempts
      → l.attempts ≤ suc max_auth_retries
      → (l.phase ≡ phase2 → is_some l.last_response ≡ true)
      → Kept IsUnderWay IsOver (after_request decode convert exchange r l)
  unfolding after_request
  after_request-Kept (err e) l n h a s = ground (arith, n, h, a)
  after_request-Kept (ok (f, some g)) l n h a s = after_response-Kept g l (omega (arith, h)) a s
  after_request-Kept (ok (f, none)) l n h a s = after_reply-Kept (exchange l.sent f) f l h a s

  round_request_answerable :
      (l : Loop)
      → (l.phase ≡ phase2 → is_some l.last_response ≡ true)
      → round_request decode convert authenticator startup_request startup_response async_connector
          l
        ≢ err nil_last_response
  unfolding round_request perform_handshake_step handshake_token
  round_request_answerable l s = ground (arith, s)

  run_round-IsUnderWay : (l : Loop) → IsUnderWay l → Kept IsUnderWay IsOver (run_round l)
  unfolding round
  run_round-IsUnderWay l h =
      let next : Loop = record l { attempts = suc l.attempts } in
      elim (Bool-cases (ltb max_auth_retries l.attempts)) [
        | inl b ↦ ground (arith, h, b)
        | inr b ↦
            let kept =
              after_request-Kept
                (round_request decode convert authenticator startup_request startup_response
                  async_connector next)
                next (round_request_answerable next h.answerable) (omega (arith, h.sent_by_attempt))
                (ground (arith, b)) h.answerable in
            ground (arith, b, kept)
      ]

  -- A round that goes on was one attempt.
  abbrev Went : ℕ → Round → Type 0
  Went n = Kept (λ l. l.attempts ≡ n) (λ e l. Unit)

  after_response-Went :
      (f : RawFrame) (l : Loop) → Went l.attempts (after_response decode convert f l)
  unfolding after_response handle_secondary_handshake_response
  after_response-Went f l = ground arith

  after_request-Went :
      (r : Result HandshakeError (RawFrame × Option RawFrame)) (l : Loop)
      → Went l.attempts (after_request decode convert exchange r l)
  unfolding after_request after_reply
  after_request-Went (err e) l = tt
  after_request-Went (ok (f, some g)) l = after_response-Went g l
  after_request-Went (ok (f, none)) l =
      ground
        (arith, λ (g : RawFrame). after_response-Went g (record l { sent = l.sent ++ (f ∷ []) }))

  run_round_went :
      (l l' : Loop)
      → run_round l ≡ again l'
      → (l'.attempts ≡ suc l.attempts) × (l.attempts ≤ max_auth_retries)
  unfolding round
  run_round_went l l' e =
      let next : Loop = record l { attempts = suc l.attempts } in
      elim (Bool-cases (ltb max_auth_retries l.attempts)) [
        | inl b ↦ absurd (ground (arith, b, e))
        | inr b ↦
            let r =
              round_request decode convert authenticator startup_request startup_response
                async_connector next in
            let at : after_request decode convert exchange r next ≡ again l' =
              ground (arith, b, e) in
            (subst (λ x. Went (suc l.attempts) x) at (after_request-Went r next), ground (arith, b))
      ]

  -- Fuel for the attempts that are left, and for the round that finds none left, is enough.
  rounds_finish :
      (fuel : ℕ) (l : Loop)
      → suc max_auth_retries < fuel + l.attempts
      → l.attempts ≤ suc max_auth_retries
      → is_some (run_rounds fuel l) ≡ true
  unfolding rounds
  rounds_finish zero l enough a = absurd (omega (arith, enough, a))
  rounds_finish (suc fuel) l enough a = elim (Round-cases (run_round l)) [
    | inl (e, end, at) ↦ ground (arith, at)
    | inr (next, at) ↦
        let (counted, few) = run_round_went l next at in
        let rest =
          rounds_finish fuel next (omega (arith, enough, counted)) (omega (arith, counted, few)) in
        ground (arith, at, rest)
  ]

  pub startup_result :
      (state : ConnectorState)
      → (e : Option HandshakeError) × (l : Loop) × (run_rounds handshake_fuel loop_start
          ≡ some (e, l))
        × (handle_secondary_handshake_startup decode convert authenticator startup_request
              startup_response async_connector exchange state
            ≡ some (conclude async_connector e l state))
  unfolding handle_secondary_handshake_startup
  startup_result state =
      let total = rounds_finish handshake_fuel loop_start (omega arith) (omega arith) in
      elim (Option-cases (run_rounds handshake_fuel loop_start)) [
        | inl h ↦ absurd (ground (arith, h, total))
        | inr ((e, l), h) ↦ (e, l, h, ground (arith, h))
      ]

  -- The handshake ends, whatever the cluster replies: it has sent at most six frames, and it has never
  -- read a response that there was not.
  pub handshake_ends :
      (state : ConnectorState)
      → (r : Ended) × (handle_secondary_handshake_startup decode convert authenticator
            startup_request startup_response async_connector exchange state
          ≡ some r)
        × (length r.2.sent ≤ suc max_auth_retries)
        × (r.0 ≢ some nil_last_response)
  handshake_ends state =
      let (e, l, at, out) = startup_result state in
      let over =
        rounds_kept IsUnderWay IsOver run_round-IsUnderWay handshake_fuel loop_start e l
          (ground arith) at in
      (
        conclude async_connector e l state,
        out,
        ground (arith, conclude_log async_connector e l state, over.few_sent),
        conclude_nil async_connector e l state over.no_nil,
      )
