-- ===== src/Processor.antt =====
-- proxy/pkg/zdmproxy/frameprocessor.go: the processor puts a cluster's id in the place of a request's
-- stream id, and the request's in the response. It stands on any StreamIdMapper, the interface of
-- streamidmapper.go, here a record of operations on a state; both mappers of that file fill it.
pub mod RoundTrip
pub mod Tests
use zdm_proxy.Prelude.{
  ℕ, Bool, true, false, Option, none, some, ℤ, pos, int_beq, if◌then◌else◌, Result, ok, err,
}
use zdm_proxy.Protocol.{Header, RawFrame, ProtocolVersions}
use zdm_proxy.Messages.{Message}
use zdm_proxy.StreamIds.{
  StreamIdMapper, StreamIdError, get_new_id_for, release_id, close, internal_get_new_id_for,
  internal_release_id,
}

-- The interface StreamIdMapper.
pub record Mapper (S : Type 0) : Type 0 where
  pub get_new_id_for : ℤ → S → S × Result StreamIdError ℕ
  pub release_id : ℤ → S → S × Result StreamIdError ℤ
  pub close : S → S

abbrev pub client_mapper : ProtocolVersions → Mapper StreamIdMapper
client_mapper versions = record {
  get_new_id_for = get_new_id_for versions;
  release_id = release_id;
  close = close;
}

-- The mapper for the proxy's own requests ignores their stream ids.
abbrev pub internal_mapper : Mapper StreamIdMapper
internal_mapper = record {
  get_new_id_for = λ stream_id. internal_get_new_id_for;
  release_id = internal_release_id;
  close = close;
}

-- frame.Frame, of the protocol library: a decoded frame.
pub record Frame : Type 0 where
  pub header : Header
  pub body : Message

abbrev pub set_stream_id : ℤ → Header → Header
set_stream_id id h = record h { stream_id = id }

unfoldable pub set_raw_frame_stream_id : RawFrame → ℤ → RawFrame
set_raw_frame_stream_id f id =
    if int_beq f.header.stream_id id
    then f
    else record { header = set_stream_id id f.header; body = f.body }

unfoldable pub set_frame_stream_id : Frame → ℤ → Frame
set_frame_stream_id f id =
    if int_beq f.header.stream_id id
    then f
    else record { header = set_stream_id id f.header; body = f.body }

-- The methods return the frame beside the error; `none` is a nil frame or a nil error.
abbrev pub Processed : Type 0 → Type 0 → Type 0
Processed S F = S × Option F × Option StreamIdError

module _ {S : Type 0} (mapper : Mapper S) where
  unfoldable pub assign_unique_id : Option RawFrame → S → Processed S RawFrame
  unfolding set_raw_frame_stream_id
  assign_unique_id none s = (s, none, none)
  assign_unique_id (some f) s =
      let (s', r) = mapper.get_new_id_for f.header.stream_id s in
      elim r [
        | err e ↦ (s', some f, some e)
        | ok id ↦ (s', some (set_raw_frame_stream_id f (pos id)), none)
      ]

  unfoldable pub assign_unique_id_frame : Option Frame → S → Processed S Frame
  unfolding set_frame_stream_id
  assign_unique_id_frame none s = (s, none, none)
  assign_unique_id_frame (some f) s =
      let (s', r) = mapper.get_new_id_for f.header.stream_id s in
      elim r [
        | err e ↦ (s', some f, some e)
        | ok id ↦ (s', some (set_frame_stream_id f (pos id)), none)
      ]

  unfoldable pub release_id_raw : Option RawFrame → S → Processed S RawFrame
  unfolding set_raw_frame_stream_id
  release_id_raw none s = (s, none, none)
  release_id_raw (some f) s =
      let (s', r) = mapper.release_id f.header.stream_id s in
      elim r [
        | err e ↦ (s', some f, some e)
        | ok original ↦ (s', some (set_raw_frame_stream_id f original), none)
      ]

  unfoldable pub release_id_frame : Option Frame → S → Processed S Frame
  unfolding set_frame_stream_id
  release_id_frame none s = (s, none, none)
  release_id_frame (some f) s =
      let (s', r) = mapper.release_id f.header.stream_id s in
      elim r [
        | err e ↦ (s', some f, some e)
        | ok original ↦ (s', some (set_frame_stream_id f original), none)
      ]

  unfoldable pub close_processor : S → S
  close_processor s = mapper.close s
