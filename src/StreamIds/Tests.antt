-- ===== src/StreamIds/Tests.antt =====
-- The stream id mapper on small inputs.
use zdm_proxy.Prelude.{
  ◌<◌, ◌≡◌, refl, true, none, some, is_some, [], ◌∷◌, pos, ok, arith, length, lookup, insert,
  delete, nat_eq,
}
use zdm_proxy.Samples.{protocol_versions}
use zdm_proxy.StreamIds.{
  StreamIdMapper, new_stream_id_mapper, max_stream_ids, get_new_id_for, record_id, put_id, take_id,
  forget_id, validate_stream_id, ids_from,
}
use zdm_proxy.StreamIds.Interleaving.{System, Reach, here, next, takes, records, forgets}
use zdm_proxy.StreamIds.Invariant.{Inv, quiet, new-Inv, no_collision, no_overflow}

-- A mapper with two ids.
abbrev pub two_ids : StreamIdMapper
two_ids = new_stream_id_mapper protocol_versions 4 2 none

pub two_ids-Inv : Inv (quiet two_ids)
two_ids-Inv = new-Inv protocol_versions 4 2 none

unfoldable pub after_seven : StreamIdMapper
after_seven = (get_new_id_for protocol_versions (pos 7) two_ids).0

pub got_zero : get_new_id_for protocol_versions (pos 7) two_ids ≡ (after_seven, ok 0)
unfolding after_seven get_new_id_for new_stream_id_mapper ids_from max_stream_ids validate_stream_id
    take_id record_id lookup
got_zero = refl

valid_seven : validate_stream_id protocol_versions two_ids.protocol_version (pos 7) ≡ none
unfolding validate_stream_id new_stream_id_mapper
valid_seven = refl

some_free : length two_ids.id_mapper < two_ids.capacity
unfolding new_stream_id_mapper max_stream_ids
some_free = omega arith

-- One call has read an id from the channel.
one_taken : System
unfolding new_stream_id_mapper ids_from max_stream_ids
one_taken = record {
  mapper = record two_ids { cluster_ids = 1 ∷ [] };
  taken = (0, pos 7) ∷ [];
  released = [];
}

reached_one_taken : Reach (quiet two_ids) one_taken
unfolding one_taken take_id new_stream_id_mapper ids_from max_stream_ids
reached_one_taken = next here (takes (pos 7) 0 _ refl refl)

no_collision_example :
    ((record_id 0 (pos 7) one_taken.mapper).1 ≡ ok 0)
    × (lookup 0 (record_id 0 (pos 7) one_taken.mapper).0.id_mapper ≡ some (pos 7))
no_collision_example =
    no_collision protocol_versions 4 2 none one_taken reached_one_taken [] [] 0 (pos 7)
      (unfold one_taken in refl)

one_released : System
unfolding new_stream_id_mapper ids_from max_stream_ids
one_released = record {
  mapper = record two_ids { cluster_ids = 1 ∷ [] };
  taken = [];
  released = 0 ∷ [];
}

reached_one_released : Reach (quiet two_ids) one_released
unfolding one_released one_taken take_id record_id forget_id new_stream_id_mapper ids_from
    max_stream_ids lookup insert delete
reached_one_released =
    next (next reached_one_taken (records [] [] 0 (pos 7) refl refl))
      (forgets 0 (pos 7) _ refl refl)

no_overflow_example : is_some (put_id 0 one_released.mapper) ≡ true
no_overflow_example =
    no_overflow protocol_versions 4 2 none one_released reached_one_released [] [] 0
      (unfold one_released in refl)
