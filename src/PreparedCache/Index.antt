-- ===== src/PreparedCache/Index.antt =====
-- pscache.go: the index from the target's ids never leads astray.
use zdm_proxy.Prelude.{
  ℕ, ◌≡◌, Bool, true, false, ◌||◌, Option, none, some, is_some, List, [], ◌∷◌, bytes_beq,
  bytes_beq_iff, bytes_eq, lookup, lookup-insert, if◌then◌else◌, arith, Option-cases, inl, inr,
}
use zdm_proxy.RequestInfo.{PrepareRequestInfo, PreparedData}
use zdm_proxy.PreparedCache.{
  PreparedResult, PreparedStatementCache, new_prepared_statement_cache, new_prepared_data, store,
  store_intercepted, get, get_by_target_prepared_id,
}

-- An index entry leads to a cache entry, and a cache entry holds the id that it stands under.
pub record Inv (psc : PreparedStatementCache) : Type 0 where
  pub indexed : (t o : List ℕ) → lookup t psc.index ≡ some o → is_some (lookup o psc.cache) ≡ true
  pub keyed :
      (o : List ℕ) (d : PreparedData) → lookup o psc.cache ≡ some d → d.origin_prepared_id ≡ o

pub new-Inv : Inv new_prepared_statement_cache
unfolding lookup
new-Inv = record { indexed = λ t o h. cc; keyed = λ o d h. absurd (cc) }

module _ (psc : PreparedStatementCache) (v : Inv psc) where
  store-Inv :
      (from_origin from_target : PreparedResult) (info : PrepareRequestInfo)
      → Inv (store from_origin from_target info psc)
  unfolding store
  store-Inv from_origin from_target info =
      let o = from_origin.prepared_query_id in
      let t = from_target.prepared_query_id in
      let d = new_prepared_data from_origin from_target info in
      record {
        indexed = λ t' o' h. ground (
          arith,
          lookup-insert t t' o psc.index,
          lookup-insert o o' d psc.cache,
          bytes_beq_iff o o',
          v.indexed t' o',
        );
        keyed = λ o' d' h.
            ground (arith, lookup-insert o o' d psc.cache, bytes_beq_iff o o', v.keyed o' d');
      }

  store_intercepted-Inv :
      (result : PreparedResult) (info : PrepareRequestInfo)
      → Inv (store_intercepted result info psc)
  unfolding store_intercepted
  store_intercepted-Inv result info = record { indexed = v.indexed; keyed = v.keyed }

-- The cache is written by these two calls alone.
pub data Call : Type 0 where
  stores : PreparedResult → PreparedResult → PrepareRequestInfo → Call
  stores_intercepted : PreparedResult → PrepareRequestInfo → Call

unfoldable pub after_calls : List Call → PreparedStatementCache → PreparedStatementCache
after_calls [] psc = psc
after_calls (stores o t info ∷ cs) psc = after_calls cs (store o t info psc)
after_calls (stores_intercepted r info ∷ cs) psc = after_calls cs (store_intercepted r info psc)

after_calls-Inv :
    (cs : List Call) (psc : PreparedStatementCache) → Inv psc → Inv (after_calls cs psc)
unfolding after_calls
after_calls-Inv [] psc v = v
after_calls-Inv (stores o t info ∷ cs) psc v = after_calls-Inv cs _ (store-Inv psc v o t info)
after_calls-Inv (stores_intercepted r info ∷ cs) psc v =
    after_calls-Inv cs _ (store_intercepted-Inv psc v r info)

indexed_found :
    (psc : PreparedStatementCache) (t o : List ℕ)
    → Inv psc
    → lookup t psc.index ≡ some o
    → (d : PreparedData) × (get_by_target_prepared_id t psc ≡ some d)
      × (get o psc ≡ some d)
      × (d.origin_prepared_id ≡ o)
unfolding get get_by_target_prepared_id
indexed_found psc t o v h = elim (Option-cases (lookup o psc.cache)) [
  | inl e ↦ absurd (ground (arith, v.indexed t o h))
  | inr (d, e) ↦ (d, ground arith, ground arith, v.keyed o d e)
]

-- In every cache that the proxy can build, an id of the target that is in the index finds prepared
-- data: the missing entry that GetByTargetPreparedId calls a bug does not occur. The data has the
-- origin's id that the index names, and the client's lookup by that id finds the same data.
pub index_never_dangles :
    (cs : List Call) (t o : List ℕ)
    → lookup t (after_calls cs new_prepared_statement_cache).index ≡ some o
    → (d : PreparedData) × (get_by_target_prepared_id t
          (after_calls cs new_prepared_statement_cache)
        ≡ some d)
      × (get o (after_calls cs new_prepared_statement_cache) ≡ some d)
      × (d.origin_prepared_id ≡ o)
index_never_dangles cs t o h =
    indexed_found _ t o (after_calls-Inv cs new_prepared_statement_cache new-Inv) h

abbrev pub is_id : List ℕ → Option (List ℕ) → Bool
is_id o none = false
is_id o (some id) = bytes_beq o id

-- The index sends the target's id to this id of the origin.
abbrev pub leads_to : List ℕ → List ℕ → PreparedStatementCache → Bool
leads_to o t psc = is_id o (lookup t psc.index)

-- After Store, the origin's id finds the new data and every other id of a client what it found
-- before; so does the target's id, and with it every id that the index sends to the same origin's id.
pub store_lookups :
    (psc : PreparedStatementCache) (from_origin from_target : PreparedResult)
    (info : PrepareRequestInfo)
    → let o = from_origin.prepared_query_id in
      let t = from_target.prepared_query_id in
      let psc' = store from_origin from_target info psc in
      let d = new_prepared_data from_origin from_target info in
      ((id : List ℕ) → get id psc' ≡ (if bytes_beq o id then some d else get id psc))
      × ((id : List ℕ)
          → get_by_target_prepared_id id psc' ≡ (
              if bytes_beq t id || leads_to o id psc
              then some d
              else get_by_target_prepared_id id psc))
unfolding get get_by_target_prepared_id store
store_lookups psc from_origin from_target info =
    let o = from_origin.prepared_query_id in
    let t = from_target.prepared_query_id in
    let d = new_prepared_data from_origin from_target info in
    (
      λ id. ground (arith, lookup-insert o id d psc.cache),
      λ id. elim (Option-cases (lookup id psc.index)) [
        | inl e ↦ ground (
          arith,
          lookup-insert t id o psc.index,
          lookup-insert o o d psc.cache,
          bytes_beq_iff o o,
        )
        | inr (o', e) ↦ ground (
          arith,
          lookup-insert t id o psc.index,
          lookup-insert o o d psc.cache,
          lookup-insert o o' d psc.cache,
          bytes_beq_iff o o,
        )
      ],
    )
