-- ===== src/TimeUuid.antt =====
-- proxy/pkg/zdmproxy/timeuuid.go: the generator of time uuids. The clock's readings are a parameter:
-- seconds since 1970 and nanoseconds. A sum that passes int64 keeps the low 60 bits, which are all that
-- a uuid has of it. The source has one generator for all the client handlers: a TimeUuidGenerator is its
-- state at the calls of one user that no other user's come between, and the calls of several users are
-- one sequence, in the order of their atomic increments.
pub mod Layout
pub mod Distinct
mod Tests
use zdm_proxy.Prelude.{ℕ, suc, ◌+◌, ◌*◌, ◌/◌, ◌%◌, ◌^◌, List, [], ◌∷◌, ◌++◌}
use zdm_proxy.Parameters.{Uuid}

-- A reading of the clock.
pub record Instant : Type 0 where
  pub seconds : ℕ
  pub nanoseconds : ℕ

-- timeUuidGeneratorImpl, with the number of the readings so far; a node id has six bytes.
pub record TimeUuidGenerator : Type 0 where
  pub node_id : List ℕ
  pub clock_seq : ℕ
  pub readings : ℕ

-- From 1582-10-15 to 1970-01-01.
abbrev pub gregorian_seconds : ℕ
gregorian_seconds = 12219292800

-- The number of intervals of 100 ns.
unfoldable pub get_time : Instant → ℕ
get_time now = (now.seconds + gregorian_seconds) * 10000000 + now.nanoseconds / 100

abbrev pub be_uint16 : ℕ → List ℕ
be_uint16 x = (x / 256 % 256) ∷ (x % 256) ∷ []

abbrev pub be_uint32 : ℕ → List ℕ
be_uint32 x = (x / 16777216 % 256) ∷ (x / 65536 % 256) ∷ (x / 256 % 256) ∷ (x % 256) ∷ []

-- `b & 0x0F | 0x10` of the first byte, and `b & 0x3F | 0x80`.
abbrev pub set_version : List ℕ → List ℕ
set_version [] = []
set_version (b ∷ bytes) = (b % 16 + 16) ∷ bytes

abbrev pub set_variant : List ℕ → List ℕ
set_variant [] = []
set_variant (b ∷ bytes) = (b % 64 + 128) ∷ bytes

unfoldable pub new_time_uuid : ℕ → ℕ → List ℕ → Uuid
new_time_uuid now clock_seq node_id =
    let time_low = now % 4294967296 in
    let time_mid = now / 4294967296 % 65536 in
    let time_hi = now / 281474976710656 % 4096 in
    be_uint32 time_low
    ++ (be_uint16 time_mid
        ++ (set_version (be_uint16 time_hi) ++ (set_variant (be_uint16 clock_seq) ++ node_id)))

module _ (clock : ℕ → Instant) where
  -- The counter has 32 bits; 16 of them are the clock sequence.
  unfoldable pub get_time_and_clock_seq : TimeUuidGenerator → (ℕ × ℕ) × TimeUuidGenerator
  unfolding get_time
  get_time_and_clock_seq g =
      let seq = (g.clock_seq + 1) % 4294967296 in
      (
        (get_time (clock g.readings), seq % 65536),
        record g { clock_seq = seq; readings = suc g.readings },
      )

  unfoldable pub get_time_uuid : TimeUuidGenerator → Uuid × TimeUuidGenerator
  unfolding get_time_and_clock_seq new_time_uuid
  get_time_uuid g =
      let ((now, seq), g') = get_time_and_clock_seq g in (new_time_uuid now seq g.node_id, g')

-- newTimeUuidGenerator, of its random bytes: the multicast bit of the node id is set. Of no bytes there
-- is no first one.
unfoldable pub new_time_uuid_generator : ℕ → List ℕ → ℕ → ℕ → TimeUuidGenerator
new_time_uuid_generator first rest seq_hi seq_lo = record {
  node_id = (first / 2 * 2 + 1) ∷ rest;
  clock_seq = seq_hi * 256 + seq_lo;
  readings = 0;
}
