-- ===== src/Handler/Sending.antt =====
-- clienthandler.go: a request for both clusters goes to the origin first.
use zdm_proxy.Prelude.{◌≡◌, refl, ap, some, [], ◌∷◌, ◌++◌, Result, ok, err, arith}
use zdm_proxy.Protocol.{RawFrame, to_both}
use zdm_proxy.StreamIds.{StreamIdError, none_available, negative}
use zdm_proxy.Processor.{Mapper}
use zdm_proxy.Connector.{ClusterConnector, enqueue, sent_frame, send_request_to_cluster}
use zdm_proxy.Handler.{
  SendFailure, overloaded, protocol_error, hear, handle_request_send_failure, Connectors,
  send_to_origin, send_to_target, send_by_decision,
}

-- What a client should hear of a frame that got no id: that the proxy is overloaded if there is no id left,
-- that it broke the protocol if its own id is negative, and nothing of a fault inside the proxy.
abbrev pub hears : StreamIdError → SendFailure
hears none_available = overloaded
hears (negative id) = protocol_error
hears _ = SendFailure.nothing

hears_lem : (e : StreamIdError) → handle_request_send_failure e ≡ hears e
unfolding handle_request_send_failure
hears_lem e = ground arith

module _ {S : Type 0} where
  -- What sending leaves, for the origin's and the target's frame with its id or without one.
  abbrev pub Leaves :
      Result StreamIdError RawFrame
      → Result StreamIdError RawFrame
      → Connectors S
      → Connectors S
      → Type 0
  Leaves (err e) r cs cs' =
      (cs'.target_connector ≡ cs.target_connector)
      × (cs'.origin_connector.write_queue ≡ cs.origin_connector.write_queue)
      × (cs'.heard ≡ cs.heard ++ (hears e ∷ []))
  Leaves (ok g) (err e) cs cs' =
      (cs'.target_connector.write_queue ≡ cs.target_connector.write_queue)
      × (cs'.origin_connector.write_queue ≡ cs.origin_connector.write_queue ++ (g ∷ []))
      × (cs'.heard ≡ cs.heard)
  Leaves (ok g) (ok h) cs cs' =
      (cs'.target_connector.write_queue ≡ cs.target_connector.write_queue ++ (h ∷ []))
      × (cs'.origin_connector.write_queue ≡ cs.origin_connector.write_queue ++ (g ∷ []))
      × (cs'.heard ≡ cs.heard)

  module _ (mapper : Mapper S) (heartbeat : ClusterConnector S → ClusterConnector S)
      (for_origin for_target : RawFrame) (cs : Connectors S) where
    abbrev gives_origin : S × Result StreamIdError RawFrame
    gives_origin = sent_frame mapper for_origin cs.origin_connector.mapper_state

    abbrev gives_target : S × Result StreamIdError RawFrame
    gives_target = sent_frame mapper for_target cs.target_connector.mapper_state

    abbrev Outcome : Result StreamIdError RawFrame → Result StreamIdError RawFrame → Type 0
    Outcome r q =
        (cs' : Connectors S) × (send_by_decision mapper heartbeat to_both for_origin for_target cs
          ≡ some cs')
        × Leaves r q cs cs'

    outcome :
        (r q : Result StreamIdError RawFrame)
        → gives_origin.1 ≡ r
        → gives_target.1 ≡ q
        → Outcome r q
    unfolding send_by_decision send_to_origin send_to_target send_request_to_cluster enqueue
    outcome (err e) q n k =
        let old = record cs.origin_connector { mapper_state = gives_origin.0 } in
        (
          hear mapper (some e) (record cs { origin_connector = old }),
          ground (arith, n),
          (refl, refl, ap (λ h. cs.heard ++ (h ∷ [])) (hears_lem e)),
        )
    outcome (ok g) (err e) n k =
        let old = enqueue g (record cs.origin_connector { mapper_state = gives_origin.0 }) in
        let new = record cs.target_connector { mapper_state = gives_target.0 } in
        (
          record cs { origin_connector = old; target_connector = new },
          ground (arith, n, k),
          (refl, refl, refl),
        )
    outcome (ok g) (ok h) n k =
        let old = enqueue g (record cs.origin_connector { mapper_state = gives_origin.0 }) in
        let new = enqueue h (record cs.target_connector { mapper_state = gives_target.0 }) in
        (
          record cs { origin_connector = old; target_connector = new },
          ground (arith, n, k),
          (refl, refl, refl),
        )

    -- Sending a request to both clusters never fails. Without an id of the origin connector the target's
    -- connector stays as it was, nothing is queued, and the client hears of the failure at once: OVERLOADED if
    -- there is no id left, a protocol error if its own id is negative. With
    -- one, the origin's frame is queued under its id, and the target's too if it gets an id; if it gets
    -- none, nothing is queued for the target and the client hears nothing of it.
    pub both_outcomes :
        (cs' : Connectors S) × (send_by_decision mapper heartbeat to_both for_origin for_target cs
          ≡ some cs')
        × Leaves
            (sent_frame mapper for_origin cs.origin_connector.mapper_state).1
            (sent_frame mapper for_target cs.target_connector.mapper_state).1
            cs
            cs'
    both_outcomes = outcome gives_origin.1 gives_target.1 refl refl
