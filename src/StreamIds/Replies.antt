-- ===== src/StreamIds/Replies.antt =====
-- The calls of streamidmapper.go one after another: an id in use belongs to one request, and gives
-- back the stream id of that request.
use zdm_proxy.Prelude.{
  ℕ, ◌<◌, ◌≡◌, ◌≢◌, refl, none, some, List, [], ◌∷◌, ℤ, pos, negsuc, arith, length, nat_eq, lookup,
  lookup-insert, lookup-delete, ok, Option-cases, inl, inr, ap, subst, All,
}
use zdm_proxy.Protocol.{ProtocolVersions}
use zdm_proxy.StreamIds.{
  StreamIdMapper, validate_stream_id, take_id, record_id, valid_id, forget_id, put_id,
  get_new_id_for, release_id,
}
use zdm_proxy.StreamIds.Counts.{occurs, lookup_of_absent, key_occurs_of_lookup, length-delete}
use zdm_proxy.StreamIds.Interleaving.{Reach, here, next, takes, records, forgets, puts}
use zdm_proxy.StreamIds.Invariant.{Inv, quiet, Reach-Inv}

pub data Call : Type 0 where
  gets releases : ℤ → Call

module _ (versions : ProtocolVersions) where
  pub call : StreamIdMapper → Call → StreamIdMapper
  call m (gets stream_id) = (get_new_id_for versions stream_id m).0
  call m (releases synthetic) = (release_id synthetic m).0

  pub calls : StreamIdMapper → List Call → StreamIdMapper
  calls m [] = m
  calls m (c ∷ cs) = calls (call m c) cs

  -- A call is a sequence of the atomic steps.
  gets-Reach :
      (stream_id : ℤ) (m : StreamIdMapper)
      → Reach (quiet m) (quiet (get_new_id_for versions stream_id m).0)
  unfolding get_new_id_for
  gets-Reach stream_id m =
      elim (Option-cases (validate_stream_id versions m.protocol_version stream_id)) [
        | inr (e, h) ↦ rw (h, get_new_id_for) here
        | inl h ↦
            rw (h, get_new_id_for)
              (elim (Option-cases (take_id m)) [
                | inl n ↦ rw n here
                | inr ((id, m'), k) ↦ rw k (
                    next (next here (takes stream_id id m' k refl))
                      (records [] [] id stream_id refl refl))
              ])
      ]

pub releases-Reach :
    (synthetic : ℤ) (m : StreamIdMapper) → Reach (quiet m) (quiet (release_id synthetic m).0)
unfolding release_id
releases-Reach synthetic m = elim (Option-cases (valid_id m synthetic)) [
  | inl h ↦ rw (h, release_id) here
  | inr (id, h) ↦
      rw (h, release_id)
        (elim (Option-cases (forget_id id m)) [
          | inl n ↦ rw n here
          | inr ((original, m'), k) ↦ rw k (
              next (next here (forgets id original m' k refl))
                (puts [] [] id refl (ground (arith, Option-cases (put_id id m')))))
        ])
]

module _ (versions : ProtocolVersions) where
  call-Inv : (c : Call) (m : StreamIdMapper) → Inv (quiet m) → Inv (quiet (call versions m c))
  unfolding call
  call-Inv (gets stream_id) m v = Reach-Inv (gets-Reach versions stream_id m) v
  call-Inv (releases synthetic) m v = Reach-Inv (releases-Reach synthetic m) v

  pub calls-Inv :
      (cs : List Call) (m : StreamIdMapper) → Inv (quiet m) → Inv (quiet (calls versions m cs))
  unfolding calls
  calls-Inv [] m v = v
  calls-Inv (c ∷ cs) m v = calls-Inv cs (call versions m c) (call-Inv c m v)

  -- On a mapper that keeps the invariant with no call under way, an id that GetNewIdFor returns
  -- is in range, was not in use, and now stands for the request.
  pub get_new_id_for_fresh :
      (stream_id : ℤ) (m m' : StreamIdMapper) (id : ℕ)
      → Inv (quiet m)
      → get_new_id_for versions stream_id m ≡ (m', ok id)
      → (id < m.capacity)
        × (lookup id m.id_mapper ≡ none)
        × (lookup id m'.id_mapper ≡ some stream_id)
  unfolding get_new_id_for take_id record_id occurs
  get_new_id_for_fresh stream_id m m' id v h = ground (
    arith,
    v.once id,
    lookup_of_absent id m.id_mapper,
    lookup-insert id id stream_id m.id_mapper,
    Option-cases (validate_stream_id versions m.protocol_version stream_id),
  )

  next_free :
      (ids : List ℕ) (stream_id : ℤ) (m : StreamIdMapper)
      → m.cluster_ids ≡ ids
      → Inv (quiet m)
      → validate_stream_id versions m.protocol_version stream_id ≡ none
      → length m.id_mapper < m.capacity
      → (id : ℕ) × ((get_new_id_for versions stream_id m).1 ≡ ok id)
  unfolding get_new_id_for take_id record_id occurs
  next_free [] stream_id m e v valid room = absurd (omega (arith, v.sized, ap (length {A = ℕ}) e))
  next_free (id ∷ rest) stream_id m e v valid room =
      (id, ground (arith, v.once id, ap (occurs id) e, lookup_of_absent id m.id_mapper))

  -- On a mapper that keeps the invariant with no call under way, while fewer requests are in
  -- flight than the connection has ids, GetNewIdFor succeeds on every stream id that passes the
  -- validation.
  pub get_new_id_for_total :
      (stream_id : ℤ) (m : StreamIdMapper)
      → Inv (quiet m)
      → validate_stream_id versions m.protocol_version stream_id ≡ none
      → length m.id_mapper < m.capacity
      → (id : ℕ) × ((get_new_id_for versions stream_id m).1 ≡ ok id)
  get_new_id_for_total stream_id m v valid room =
      next_free m.cluster_ids stream_id m refl v valid room

record_id_keeps :
    (j : ℕ) (other : ℤ) (m : StreamIdMapper) (id : ℕ) (stream_id : ℤ)
    → lookup id m.id_mapper ≡ some stream_id
    → lookup id (record_id j other m).0.id_mapper ≡ some stream_id
unfolding record_id
record_id_keeps j other m id stream_id held = ground (arith, lookup-insert j id other m.id_mapper)

release_keeps :
    (j : ℕ) (m : StreamIdMapper) (id : ℕ) (stream_id : ℤ)
    → pos j ≢ pos id
    → lookup id m.id_mapper ≡ some stream_id
    → lookup id (release_id (pos j) m).0.id_mapper ≡ some stream_id
unfolding release_id
release_keeps j m id stream_id ne held = ground (arith, lookup-delete j id m.id_mapper)

module _ (versions : ProtocolVersions) where
  get_keeps :
      (other : ℤ) (m : StreamIdMapper) (id : ℕ) (stream_id : ℤ)
      → lookup id m.id_mapper ≡ some stream_id
      → lookup id (get_new_id_for versions other m).0.id_mapper ≡ some stream_id
  unfolding get_new_id_for
  get_keeps other m id stream_id held =
      elim (Option-cases (validate_stream_id versions m.protocol_version other)) [
        | inr (e, h) ↦ rw (h, get_new_id_for) held
        | inl h ↦
            rw (h, get_new_id_for)
              (elim (Option-cases (take_id m)) [
                | inl n ↦ rw n held
                | inr ((j, m'), k) ↦
                    rw k (record_id_keeps j other m' id stream_id (unfold take_id in ground arith))
              ])
      ]

  -- No other call touches the entry of an id in use.
  call_keeps :
      (c : Call) (m : StreamIdMapper) (id : ℕ) (stream_id : ℤ)
      → c ≢ releases (pos id)
      → lookup id m.id_mapper ≡ some stream_id
      → lookup id (call versions m c).id_mapper ≡ some stream_id
  unfolding call
  call_keeps (gets other) m id stream_id ne held = get_keeps other m id stream_id held
  call_keeps (releases (negsuc n)) m id stream_id ne held = unfold release_id in held
  call_keeps (releases (pos j)) m id stream_id ne held =
      release_keeps j m id stream_id (λ e. ne (ap releases e)) held

  calls_keep :
      (cs : List Call) (m : StreamIdMapper) (id : ℕ) (stream_id : ℤ)
      → All (λ c. c ≢ releases (pos id)) cs
      → lookup id m.id_mapper ≡ some stream_id
      → lookup id (calls versions m cs).id_mapper ≡ some stream_id
  unfolding calls
  calls_keep [] m id stream_id ne held = held
  calls_keep (c ∷ cs) m id stream_id ne held =
      calls_keep cs (call versions m c) id stream_id ne.1 (call_keeps c m id stream_id ne.0 held)

-- An id in use is given back to the request that holds it, and is then not in use.
release_held :
    (m : StreamIdMapper) (id : ℕ) (stream_id : ℤ)
    → Inv (quiet m)
    → lookup id m.id_mapper ≡ some stream_id
    → ((release_id (pos id) m).1 ≡ ok stream_id)
      × (lookup id (release_id (pos id) m).0.id_mapper ≡ none)
unfolding release_id
release_held m id stream_id v held = ground (
  arith,
  v.once id,
  v.sized,
  key_occurs_of_lookup id m.id_mapper stream_id held,
  length-delete id m.id_mapper,
  lookup-delete id id m.id_mapper,
)

module _ (versions : ProtocolVersions) where
  -- On a mapper that keeps the invariant with no call under way, when GetNewIdFor has given a
  -- request an id, then whatever calls for other ids come in between, ReleaseId on that id
  -- returns the stream id of the request.
  pub release_after_get :
      (stream_id : ℤ) (m m' : StreamIdMapper) (id : ℕ) (cs : List Call)
      → Inv (quiet m)
      → get_new_id_for versions stream_id m ≡ (m', ok id)
      → All (λ c. c ≢ releases (pos id)) cs
      → (release_id (pos id) (calls versions m' cs)).1 ≡ ok stream_id
  release_after_get stream_id m m' id cs v h ne =
      let v' : Inv (quiet m') =
        subst (λ r. Inv (quiet r.0)) h (Reach-Inv (gets-Reach versions stream_id m) v) in
      (release_held (calls versions m' cs) id stream_id (calls-Inv versions cs m' v') (
        calls_keep versions cs m' id stream_id ne
          (get_new_id_for_fresh versions stream_id m m' id v h).2)).0
