-- ===== src/PreparedCache/Tests.antt =====
-- The cache of prepared statements on a small input.
use zdm_proxy.Prelude.{◌≡◌, refl, some, List, [], ◌∷◌, bytes_eq, lookup, insert}
use zdm_proxy.RequestInfo.{PreparedData}
use zdm_proxy.Samples.{prepared_result, prepare_info}
use zdm_proxy.PreparedCache.{new_prepared_statement_cache, store, get, get_by_target_prepared_id}
use zdm_proxy.PreparedCache.Index.{Call, stores, after_calls, index_never_dangles}

abbrev one_call : List Call
one_call = stores (prepared_result 1) (prepared_result 2) prepare_info ∷ []

indexed_two :
    lookup (2 ∷ []) (after_calls one_call new_prepared_statement_cache).index ≡ some (1 ∷ [])
unfolding after_calls store lookup insert
indexed_two = refl

index_never_dangles_example :
    (d : PreparedData) × (get_by_target_prepared_id
        (2 ∷ [])
        (after_calls one_call new_prepared_statement_cache)
      ≡ some d)
    × (get (1 ∷ []) (after_calls one_call new_prepared_statement_cache) ≡ some d)
    × (d.origin_prepared_id ≡ 1 ∷ [])
index_never_dangles_example = index_never_dangles one_call (2 ∷ []) (1 ∷ []) indexed_two
