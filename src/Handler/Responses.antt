-- ===== src/Handler/Responses.antt =====
-- clienthandler.go: what the handler keeps of a response that goes on to the client.
use zdm_proxy.Prelude.{
  ℕ, ◌≡◌, true, Option, some, List, String, string_eq, bytes_beq_iff, bytes_eq, ok, inl, inr,
  Option-cases, Result-cases, lookup, arith,
}
use zdm_proxy.Protocol.{RawFrame, ClusterType, target}
use zdm_proxy.RequestInfo.{RequestInfo, prepare, PrepareRequestInfo, PreparedData}
use zdm_proxy.PreparedCache.{new_prepared_statement_cache, new_prepared_data, get}
use zdm_proxy.PreparedCache.Index.{Call, after_calls, index_never_dangles, store_lookups}
use zdm_proxy.PreparedResponse.{PreparedBody, stored_result, id_or_empty, process_prepared_response}
use zdm_proxy.PreparedResponse.Storing.{prepared_statement_stored}
use zdm_proxy.Handler.{
  ResponseMessage, prepared_result, unprepared_message, HandlerState, has_message, unprepared_id,
  with_message, process_prepared, process_message, process_client_response,
}

module _ (decode : RawFrame → Option ResponseMessage)
    (decode_body : RawFrame → Option (Option PreparedBody))
    (convert : RawFrame → ResponseMessage → Option RawFrame) (response : RawFrame)
    (info : RequestInfo) (target_response : Option RawFrame) where
  -- An UNPREPARED response of the target, for an id that the index of the cache has, reaches the client
  -- with the id that the index leads to, whatever the cache's history; and that id finds the data of the
  -- statement among the client's ids, so that the client prepares again what the target has lost.
  pub unprepared_translated :
      (cs : List Call) (keyspace : Option String) (t o : List ℕ) (g : RawFrame)
      → let st : HandlerState = record {
        current_keyspace_name = keyspace;
        prepared_statement_cache = after_calls cs new_prepared_statement_cache;
      } in
        has_message response.header.op_code ≡ true
        → decode response ≡ some (unprepared_message t)
        → lookup t st.prepared_statement_cache.index ≡ some o
        → convert response (unprepared_message o) ≡ some g
        → (process_client_response decode decode_body convert response target info target_response
              st
            ≡ (st, ok g))
          × ((d : PreparedData) × (get o st.prepared_statement_cache ≡ some d)
              × (d.origin_prepared_id ≡ o))
  unfolding process_client_response process_message unprepared_id with_message
  unprepared_translated cs keyspace t o g op decoded indexed sent =
      let (d, by_target, by_origin, same) = index_never_dangles cs t o indexed in
      (ground (arith, op, decoded, by_target, same, sent), (d, by_origin, same))

  -- When the response of the origin to a PREPARE has been processed, the client has the id of the
  -- origin's result, and the id finds data in the handler's cache with the ids of both clusters'
  -- results, in that order, and the request info of the PREPARE.
  pub prepared_id_found :
      (cluster : ClusterType) (b : PreparedBody) (st st' : HandlerState) (g : RawFrame)
      → has_message response.header.op_code ≡ true
      → decode response ≡ some (prepared_result b)
      → process_client_response decode decode_body convert response cluster info target_response st
        ≡ (st', ok g)
      → (p : PrepareRequestInfo) × (b' : PreparedBody) × (f : RawFrame) × (t : PreparedBody) × (info
          ≡ prepare p)
        × (convert response (prepared_result b') ≡ some g)
        × (b'.prepared_query_id ≡ b.prepared_query_id)
        × (target_response ≡ some f)
        × (decode_body f ≡ some (some t))
        × (get (id_or_empty b'.prepared_query_id) st'.prepared_statement_cache
            ≡ some (new_prepared_data (stored_result b) (stored_result t) p))
  unfolding process_client_response process_message process_prepared with_message
  prepared_id_found cluster b st st' g op decoded h =
      elim (Result-cases (
        process_prepared_response decode_body b info target_response st.prepared_statement_cache)) [
          | inr (e, n) ↦ absurd (ground (arith, op, decoded, n, h))
          | inl ((b', psc), n) ↦ elim (Option-cases (convert response (prepared_result b'))) [
            | inl k ↦ absurd (ground (arith, op, decoded, n, k, h))
            | inr (g', k) ↦
                let (p, f, t, i, r, d, s, same) =
                  prepared_statement_stored decode_body b info target_response
                    st.prepared_statement_cache psc b' n in
                let (found, by_target) =
                  store_lookups st.prepared_statement_cache (stored_result b) (stored_result t) p in
                let out : (g' ≡ g) × (psc ≡ st'.prepared_statement_cache) =
                  ground (arith, op, decoded, n, k, h) in
                (
                  p,
                  b',
                  f,
                  t,
                  i,
                  ground (arith, k, out),
                  same,
                  r,
                  d,
                  ground (
                    arith,
                    out,
                    s,
                    same,
                    found (id_or_empty b.prepared_query_id),
                    bytes_beq_iff (id_or_empty b.prepared_query_id)
                        (id_or_empty b.prepared_query_id),
                  ),
                )
          ]
        ]
