-- ===== src/StreamIds.antt =====
-- proxy/pkg/zdmproxy/streamidmapper.go: the two mappers from a client's stream ids to the ids that
-- the proxy uses on a cluster connection. The channel of free ids is a list, oldest first.
pub mod Counts
pub mod Interleaving
pub mod Invariant
pub mod Replies
pub mod Tests
use zdm_proxy.Prelude.{
  ℕ, zero, suc, ◌+◌, ◌-◌, Bool, true, false, ◌&&◌, Option, none, some, List, [], ◌∷◌, ◌++◌, ℤ, pos,
  negsuc, length, ltb, leb, ◌==◌, nat_eq, if◌then◌else◌, lookup, insert, delete, Result, ok, err,
}
use zdm_proxy.Protocol.{ProtocolVersions}

-- The errors of this file, one for each message.
pub data StreamIdError : Type 0 where
  out_of_range negative : ℤ → StreamIdError
  collision : ℕ → StreamIdError
  none_available : StreamIdError
  invalid not_found channel_full : ℤ → StreamIdError

-- What the code has asked of a metrics.Gauge, whose value is `added` less `subtracted`.
pub record Gauge : Type 0 where
  pub added : ℕ
  pub subtracted : ℕ

-- `if metrics != nil { metrics.Add(n) }`, and Subtract.
abbrev pub gauge_add : ℕ → Option Gauge → Option Gauge
gauge_add n none = none
gauge_add n (some g) = some (record g { added = g.added + n })

abbrev pub gauge_subtract : ℕ → Option Gauge → Option Gauge
gauge_subtract n none = none
gauge_subtract n (some g) = some (record g { subtracted = g.subtracted + n })

-- `capacity` is cap(clusterIds).
pub record StreamIdMapper : Type 0 where
  pub id_mapper : List (ℕ × ℤ)
  pub cluster_ids : List ℕ
  pub capacity : ℕ
  pub metrics : Option Gauge
  pub protocol_version : ℕ

abbrev pub max_stream_ids_v3 : ℕ
max_stream_ids_v3 = 2048

abbrev pub max_stream_ids_v2 : ℕ
max_stream_ids_v2 = 127

-- The ids from `i` on, `n` of them.
pub ids_from : ℕ → ℕ → List ℕ
ids_from i zero = []
ids_from i (suc n) = i ∷ ids_from (suc i) n

-- `id := <-clusterIds`, which takes the oldest id or fails at once, and counts it.
pub take_id : StreamIdMapper → Option (ℕ × StreamIdMapper)
take_id m = elim m.cluster_ids [
  | [] ↦ none
  | id ∷ rest ↦ some (id, record m { cluster_ids = rest; metrics = gauge_add 1 m.metrics })
]

-- The locked part of GetNewIdFor.
pub record_id : ℕ → ℤ → StreamIdMapper → StreamIdMapper × Result StreamIdError ℕ
record_id id stream_id m = elim (lookup id m.id_mapper) [
  | some _ ↦ (m, err (collision id))
  | none ↦ (record m { id_mapper = insert id stream_id m.id_mapper }, ok id)
]

-- streamId > math.MaxInt8 || streamId < math.MinInt8
abbrev pub out_of_int8 : ℤ → Bool
out_of_int8 (pos n) = ltb 127 n
out_of_int8 (negsuc n) = ltb 127 n

abbrev pub is_negative : ℤ → Bool
is_negative (pos n) = false
is_negative (negsuc n) = true

module _ (versions : ProtocolVersions) where
  open versions use {v2, v3}

  unfoldable pub max_stream_ids : ℕ → ℕ → ℕ
  max_stream_ids proto_ver proxy_max =
      let max_supported = if proto_ver == v2 then max_stream_ids_v2 else max_stream_ids_v3 in
      if ltb max_supported proxy_max then max_supported else proxy_max

  pub validate_stream_id : ℕ → ℤ → Option StreamIdError
  validate_stream_id version stream_id =
      if ltb version v3 && out_of_int8 stream_id
      then some (out_of_range stream_id)
      else if is_negative stream_id
      then some (negative stream_id)
      else none

  pub new_stream_id_mapper : ℕ → ℕ → Option Gauge → StreamIdMapper
  unfolding max_stream_ids ids_from
  new_stream_id_mapper protocol_version proxy_max metrics =
      let maximum_stream_ids = max_stream_ids protocol_version proxy_max in
      record {
        id_mapper = [];
        cluster_ids = ids_from 0 maximum_stream_ids;
        capacity = maximum_stream_ids;
        metrics = metrics;
        protocol_version = protocol_version;
      }

  pub get_new_id_for : ℤ → StreamIdMapper → StreamIdMapper × Result StreamIdError ℕ
  unfolding validate_stream_id take_id record_id
  get_new_id_for stream_id m = elim (validate_stream_id m.protocol_version stream_id) [
    | some e ↦ (m, err e)
    | none ↦ elim (take_id m) [
      | none ↦ (m, err none_available)
      | some (id, m') ↦ record_id id stream_id m'
    ]
  ]

-- syntheticId < 0 || int(syntheticId) >= cap(clusterIds)
pub valid_id : StreamIdMapper → ℤ → Option ℕ
valid_id m (negsuc n) = none
valid_id m (pos id) = if leb m.capacity id then none else some id

-- The locked part of ReleaseId.
pub forget_id : ℕ → StreamIdMapper → Option (ℤ × StreamIdMapper)
forget_id id m = elim (lookup id m.id_mapper) [
  | none ↦ none
  | some original ↦ some (original, record m { id_mapper = delete id m.id_mapper })
]

-- `clusterIds <- id`, which fails at once on a full channel.
pub put_id : ℕ → StreamIdMapper → Option StreamIdMapper
put_id id m =
    if ltb (length m.cluster_ids) m.capacity
    then some (record m {
      cluster_ids = m.cluster_ids ++ (id ∷ []);
      metrics = gauge_subtract 1 m.metrics;
    })
    else none

pub release_id : ℤ → StreamIdMapper → StreamIdMapper × Result StreamIdError ℤ
unfolding valid_id forget_id put_id
release_id synthetic m = elim (valid_id m synthetic) [
  | none ↦ (m, err (invalid synthetic))
  | some id ↦ elim (forget_id id m) [
    | none ↦ (m, err (not_found synthetic))
    | some (original, m') ↦ elim (put_id id m') [
      | none ↦ (m', err (channel_full synthetic))
      | some m'' ↦ (m'', ok original)
    ]
  ]
]

-- The mapper of the proxy's own requests keeps no map.
unfoldable pub internal_get_new_id_for : StreamIdMapper → StreamIdMapper × Result StreamIdError ℕ
internal_get_new_id_for m = elim m.cluster_ids [
  | [] ↦ (m, err none_available)
  | id ∷ rest ↦ (record m { cluster_ids = rest; metrics = gauge_add 1 m.metrics }, ok id)
]

pub internal_release_id : ℤ → StreamIdMapper → StreamIdMapper × Result StreamIdError ℤ
unfolding valid_id put_id
internal_release_id synthetic m = elim (valid_id m synthetic) [
  | none ↦ (m, err (invalid synthetic))
  | some id ↦ elim (put_id id m) [
    | none ↦ (m, err (channel_full synthetic))
    | some m' ↦ (m', ok synthetic)
  ]
]

-- Close takes what is still in use off the gauge.
pub close : StreamIdMapper → StreamIdMapper
close m =
    if m.capacity == length m.cluster_ids
    then m
    else record m { metrics = gauge_subtract (m.capacity - length m.cluster_ids) m.metrics }
