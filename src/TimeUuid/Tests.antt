-- ===== src/TimeUuid/Tests.antt =====
-- A time uuid, and two of a clock that stands still.
use zdm_proxy.Prelude.{ℕ, ◌%◌, ◌≡◌, ◌≢◌, refl, some, List, [], ◌∷◌, string_eq, arith}
use zdm_proxy.Query.{is_now}
use zdm_proxy.Parameters.{Uuid, generate_time_uuids}
use zdm_proxy.Samples.{now_term}
use zdm_proxy.TimeUuid.{
  Instant, TimeUuidGenerator, new_time_uuid, get_time_uuid, get_time, new_time_uuid_generator,
}
use zdm_proxy.TimeUuid.Layout.{
  time_of, version_of, variant_of, clock_seq_of, node_of, time_uuid_fields,
}
use zdm_proxy.TimeUuid.Distinct.{generated_distinct}

-- 2024-01-01 00:00:00, and 100 ns.
abbrev still : ℕ → Instant
still reading = record { seconds = 1704067200; nanoseconds = 100 }

abbrev generator : TimeUuidGenerator
generator = new_time_uuid_generator 10 (2 ∷ 3 ∷ 4 ∷ 5 ∷ 6 ∷ []) 255 255

hundred_nanoseconds : get_time (still 0) ≡ 139233600000000001
unfolding get_time
hundred_nanoseconds = refl

abbrev node : List ℕ
node = 11 ∷ 2 ∷ 3 ∷ 4 ∷ 5 ∷ 6 ∷ []

time_uuid_fields_example :
    (time_of (new_time_uuid 139233600000000001 65535 node)
      ≡ 139233600000000001 % 1152921504606846976)
    × (version_of (new_time_uuid 139233600000000001 65535 node) ≡ 1)
    × (variant_of (new_time_uuid 139233600000000001 65535 node) ≡ 2)
    × (clock_seq_of (new_time_uuid 139233600000000001 65535 node) ≡ 16383)
    × (node_of (new_time_uuid 139233600000000001 65535 node) ≡ node)
time_uuid_fields_example = time_uuid_fields 139233600000000001 65535 node

abbrev first_uuid : Uuid
first_uuid = (get_time_uuid still generator).0

abbrev second_uuid : Uuid
second_uuid = (get_time_uuid still (get_time_uuid still generator).1).0

abbrev later_generator : TimeUuidGenerator
later_generator = (get_time_uuid still (get_time_uuid still generator).1).1

two_generated :
    generate_time_uuids (get_time_uuid still) (now_term ∷ now_term ∷ []) generator
    ≡ some (first_uuid ∷ second_uuid ∷ [], later_generator)
unfolding generate_time_uuids is_now
two_generated = refl

generated_distinct_example : first_uuid ≢ second_uuid
generated_distinct_example =
    generated_distinct still (now_term ∷ now_term ∷ []) generator later_generator
      (first_uuid ∷ second_uuid ∷ []) 0 1 first_uuid second_uuid two_generated (omega arith)
      (omega arith) refl refl
