-- ===== src/StreamIds/Invariant.antt =====
-- Every id has exactly one place, whatever the order in which the goroutines go on.
use zdm_proxy.Prelude.{
  ℕ, zero, suc, ◌+◌, ◌<◌, ◌≡◌, refl, true, Option, none, some, List, [], ◌∷◌, ◌++◌, ℤ, arith,
  length, length-append, ltb, nat_eq, lookup, lookup-insert, ok, ap, subst, sym, is_some,
}
use zdm_proxy.Protocol.{ProtocolVersions}
use zdm_proxy.StreamIds.{
  StreamIdMapper, Gauge, max_stream_ids, new_stream_id_mapper, ids_from, take_id, record_id,
  forget_id, put_id,
}
use zdm_proxy.StreamIds.Counts.{
  one_if, occurs, key_occurs, occurs-append, key_occurs-append, lookup_of_absent,
  key_occurs_of_lookup, key_occurs-insert, length-insert, key_occurs-delete, length-delete,
}
use zdm_proxy.StreamIds.Interleaving.{
  System, Step, takes, records, forgets, puts, Reach, here, next, after_put,
}

-- Where the id `i` stands, counted over the channel, the map and the calls in between.
abbrev pub places : ℕ → System → ℕ
places i s =
    occurs i s.mapper.cluster_ids
    + key_occurs i s.taken
    + key_occurs i s.mapper.id_mapper
    + occurs i s.released

pub record Inv (s : System) : Type 0 where
  pub once : (i : ℕ) → places i s ≡ one_if (ltb i s.mapper.capacity)
  pub sized :
      length s.mapper.cluster_ids + length s.taken + length s.mapper.id_mapper + length s.released
      ≡ s.mapper.capacity

takes-Inv :
    (s : System) (stream_id : ℤ) (id : ℕ) (m : StreamIdMapper)
    → take_id s.mapper ≡ some (id, m)
    → Inv s
    → Inv (record { mapper = m; taken = (id, stream_id) ∷ s.taken; released = s.released })
unfolding take_id occurs key_occurs
takes-Inv s stream_id id m h v = record {
  once = λ i. ground (arith, v.once i);
  sized = ground (arith, v.sized);
}

-- An id that a call holds is not in the map.
absent_of_taken :
    (s : System) (before after : List (ℕ × ℤ)) (id : ℕ) (stream_id : ℤ)
    → s.taken ≡ before ++ ((id, stream_id) ∷ after)
    → Inv s
    → lookup id s.mapper.id_mapper ≡ none
unfolding key_occurs
absent_of_taken s before after id stream_id h v = lookup_of_absent id s.mapper.id_mapper (
    ground (
      arith,
      v.once id,
      ap (key_occurs id) h,
      key_occurs-append id before ((id, stream_id) ∷ after),
    ))

records-Inv :
    (s : System) (before after : List (ℕ × ℤ)) (id : ℕ) (stream_id : ℤ)
    → s.taken ≡ before ++ ((id, stream_id) ∷ after)
    → Inv s
    → Inv (record {
      mapper = (record_id id stream_id s.mapper).0;
      taken = before ++ after;
      released = s.released;
    })
unfolding record_id key_occurs
records-Inv s before after id stream_id h v =
    let free = absent_of_taken s before after id stream_id h v in
    record {
      once = λ i. ground (
        arith,
        free,
        v.once i,
        ap (key_occurs i) h,
        key_occurs-append i before ((id, stream_id) ∷ after),
        key_occurs-append i before after,
        key_occurs-insert id stream_id i s.mapper.id_mapper free,
      );
      sized = ground (
        arith,
        free,
        v.sized,
        ap (length {A = ℕ × ℤ}) h,
        length-append before ((id, stream_id) ∷ after),
        length-append before after,
        length-insert id stream_id s.mapper.id_mapper free,
      );
    }

forgets-Inv :
    (s : System) (id : ℕ) (original : ℤ) (m : StreamIdMapper)
    → forget_id id s.mapper ≡ some (original, m)
    → Inv s
    → Inv (record { mapper = m; taken = s.taken; released = id ∷ s.released })
unfolding forget_id occurs
forgets-Inv s id original m h v =
    let found : lookup id s.mapper.id_mapper ≡ some original = ground arith in
    let held = key_occurs_of_lookup id s.mapper.id_mapper original found in
    record {
      once =
          λ i. ground (arith, v.once i, v.once id, held, key_occurs-delete id i s.mapper.id_mapper);
      sized = ground (arith, v.sized, v.once id, held, length-delete id s.mapper.id_mapper);
    }

-- There is room in the channel for every id that a call is giving back.
room_of_released :
    (s : System) (before after : List ℕ) (id : ℕ)
    → s.released ≡ before ++ (id ∷ after)
    → Inv s
    → length s.mapper.cluster_ids < s.mapper.capacity
room_of_released s before after id h v =
    omega (arith, v.sized, ap (length {A = ℕ}) h, length-append before (id ∷ after))

puts-Inv :
    (s : System) (before after : List ℕ) (id : ℕ)
    → s.released ≡ before ++ (id ∷ after)
    → Inv s
    → Inv (record {
      mapper = after_put s.mapper (put_id id s.mapper);
      taken = s.taken;
      released = before ++ after;
    })
unfolding put_id occurs
puts-Inv s before after id h v =
    let room = room_of_released s before after id h v in
    record {
      once = λ i. ground (
        arith,
        room,
        v.once i,
        ap (occurs i) h,
        occurs-append i before (id ∷ after),
        occurs-append i before after,
        occurs-append i s.mapper.cluster_ids (id ∷ []),
      );
      sized = ground (
        arith,
        room,
        v.sized,
        ap (length {A = ℕ}) h,
        length-append before (id ∷ after),
        length-append before after,
        length-append s.mapper.cluster_ids (id ∷ []),
      );
    }

pub Step-Inv : {s t : System} → Step s t → Inv s → Inv t
Step-Inv {s} (takes stream_id id m h e) v = subst Inv (sym e) (takes-Inv s stream_id id m h v)
Step-Inv {s} (records before after id stream_id h e) v =
    subst Inv (sym e) (records-Inv s before after id stream_id h v)
Step-Inv {s} (forgets id original m h e) v = subst Inv (sym e) (forgets-Inv s id original m h v)
Step-Inv {s} (puts before after id h e) v = subst Inv (sym e) (puts-Inv s before after id h v)

pub Reach-Inv : {s t : System} → Reach s t → Inv s → Inv t
Reach-Inv here v = v
Reach-Inv (next r st) v = Step-Inv st (Reach-Inv r v)

occurs-ids_from : (i n j : ℕ) → occurs j (ids_from i n) + one_if (ltb j i) ≡ one_if (ltb j (i + n))
unfolding occurs ids_from
occurs-ids_from i zero j = ground arith
occurs-ids_from i (suc n) j = ground (arith, occurs-ids_from (suc i) n j)

length-ids_from : (i n : ℕ) → length (ids_from i n) ≡ n
unfolding ids_from
length-ids_from i zero = refl
length-ids_from i (suc n) = ap suc (length-ids_from (suc i) n)

-- A mapper with no call under way.
abbrev pub quiet : StreamIdMapper → System
quiet m = record { mapper = m; taken = []; released = [] }

full-Inv :
    (n protocol_version : ℕ) (metrics : Option Gauge)
    → Inv (
        quiet (record {
          id_mapper = [];
          cluster_ids = ids_from 0 n;
          capacity = n;
          metrics = metrics;
          protocol_version = protocol_version;
        }))
unfolding occurs key_occurs
full-Inv n protocol_version metrics = record {
  once = λ i. ground (arith, occurs-ids_from 0 n i);
  sized = omega (arith, length-ids_from 0 n);
}

pub new-Inv :
    (versions : ProtocolVersions) (protocol_version proxy_max : ℕ) (metrics : Option Gauge)
    → Inv (quiet (new_stream_id_mapper versions protocol_version proxy_max metrics))
unfolding new_stream_id_mapper
new-Inv versions protocol_version proxy_max metrics =
    full-Inv (max_stream_ids versions protocol_version proxy_max) protocol_version metrics

-- After any interleaving of calls on a new mapper, an id that a call has read from the channel is
-- not in the map: the locked part of GetNewIdFor stores it under the request's stream id and
-- reports no collision.
pub no_collision :
    (versions : ProtocolVersions) (protocol_version proxy_max : ℕ) (metrics : Option Gauge)
    (s : System)
    → Reach (quiet (new_stream_id_mapper versions protocol_version proxy_max metrics)) s
    → (before after : List (ℕ × ℤ)) (id : ℕ) (stream_id : ℤ)
    → s.taken ≡ before ++ ((id, stream_id) ∷ after)
    → ((record_id id stream_id s.mapper).1 ≡ ok id)
      × (lookup id (record_id id stream_id s.mapper).0.id_mapper ≡ some stream_id)
unfolding record_id
no_collision versions protocol_version proxy_max metrics s r before after id stream_id h =
    let v = Reach-Inv r (new-Inv versions protocol_version proxy_max metrics) in
    ground (
      arith,
      absent_of_taken s before after id stream_id h v,
      lookup-insert id id stream_id s.mapper.id_mapper,
    )

-- After any interleaving of calls on a new mapper, the channel has room for an id that a call gives
-- back: the send of ReleaseId succeeds.
pub no_overflow :
    (versions : ProtocolVersions) (protocol_version proxy_max : ℕ) (metrics : Option Gauge)
    (s : System)
    → Reach (quiet (new_stream_id_mapper versions protocol_version proxy_max metrics)) s
    → (before after : List ℕ) (id : ℕ) → s.released ≡ before ++ (id ∷ after)
    → is_some (put_id id s.mapper) ≡ true
unfolding put_id
no_overflow versions protocol_version proxy_max metrics s r before after id h =
    let v = Reach-Inv r (new-Inv versions protocol_version proxy_max metrics) in
    ground (arith, room_of_released s before after id h v)
