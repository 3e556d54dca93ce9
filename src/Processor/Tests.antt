-- ===== src/Processor/Tests.antt =====
-- The frame processor on a small input.
use zdm_proxy.Prelude.{◌≡◌, refl, none, some, [], ◌∷◌, pos}
use zdm_proxy.Protocol.{OpCode}
use zdm_proxy.Samples.{protocol_versions, frame_of}
use zdm_proxy.StreamIds.Replies.{gets, calls}
use zdm_proxy.StreamIds.Tests.{two_ids, two_ids-Inv, after_seven, got_zero}
use zdm_proxy.Processor.{client_mapper, assign_unique_id, release_id_raw, set_raw_frame_stream_id}
use zdm_proxy.Processor.RoundTrip.{response_round_trip}

-- A client's query under 7 goes to the cluster under 0.
assigned_zero :
    assign_unique_id (client_mapper protocol_versions) (some (frame_of OpCode.query 7)) two_ids
    ≡ (after_seven, some (frame_of OpCode.query 0), none)
unfolding assign_unique_id set_raw_frame_stream_id after_seven
assigned_zero = rw (assign_unique_id, got_zero) refl

response_round_trip_example :
    (frame_of OpCode.query 0 ≡ frame_of OpCode.query 0)
    × ((release_id_raw
          (client_mapper protocol_versions)
          (some (frame_of OpCode.result 0))
          (calls protocol_versions after_seven (gets (pos 9) ∷ []))).1
        ≡ some (frame_of OpCode.result 7))
    × ((release_id_raw
          (client_mapper protocol_versions)
          (some (frame_of OpCode.result 0))
          (calls protocol_versions after_seven (gets (pos 9) ∷ []))).2
        ≡ none)
response_round_trip_example =
    response_round_trip protocol_versions (frame_of OpCode.query 7) (frame_of OpCode.query 0)
      (frame_of OpCode.result 0) two_ids after_seven (gets (pos 9) ∷ []) two_ids-Inv assigned_zero
      (λ e. cc, tt) refl
