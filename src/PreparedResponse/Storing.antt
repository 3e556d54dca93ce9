-- ===== src/PreparedResponse/Storing.antt =====
-- clienthandler.go: what is stored of a prepared statement, and what the client learns of it.
use zdm_proxy.Prelude.{
  ◌≡◌, refl, sym, ap, ◌∙◌, inl, inr, Option, none, some, Option-cases, string_eq, ok, Result-cases,
  arith,
}
use zdm_proxy.Protocol.{RawFrame}
use zdm_proxy.RequestInfo.{RequestInfo, prepare, base, execute, batch, PrepareRequestInfo}
use zdm_proxy.PreparedCache.{PreparedStatementCache, store}
use zdm_proxy.PreparedResponse.{PreparedBody, stored_result, client_body, process_prepared_response}

module _ (decode : RawFrame → Option (Option PreparedBody)) (b : PreparedBody) where
  id_kept :
      (p : PrepareRequestInfo) (b' : PreparedBody)
      → client_body p b ≡ ok b'
      → b'.prepared_query_id ≡ b.prepared_query_id
  unfolding client_body
  id_kept p b' h = ground (arith, h)

  -- What is stored for a PREPARE, and what comes back of it.
  Stored :
      RequestInfo
      → Option RawFrame
      → PreparedStatementCache
      → PreparedBody
      → PreparedStatementCache
      → Type 0
  Stored info response psc b' psc' =
      (p : PrepareRequestInfo) × (f : RawFrame) × (t : PreparedBody) × (info ≡ prepare p)
      × (response ≡ some f)
      × (decode f ≡ some (some t))
      × (client_body p b ≡ ok b')
      × (psc' ≡ store (stored_result b) (stored_result t) p psc)

  prepare_branch :
      (p : PrepareRequestInfo) (f : RawFrame) (psc : PreparedStatementCache) (b' : PreparedBody)
      (psc' : PreparedStatementCache)
      → process_prepared_response decode b (prepare p) (some f) psc ≡ ok (b', psc')
      → Stored (prepare p) (some f) psc b' psc'
  unfolding process_prepared_response Stored
  prepare_branch p f psc b' psc' h = elim (Option-cases b.prepared_query_id) [
    | inl e ↦ absurd (ground (arith, h, e))
    | inr (id, e) ↦ elim (Option-cases (decode f)) [
      | inl d ↦ absurd (ground (arith, h, e, d))
      | inr (m, d) ↦ elim (Option-cases m) [
        | inl n ↦ absurd (ground (arith, h, e, d, n))
        | inr (t, n) ↦ elim (Result-cases (client_body p b)) [
          | inr (x, k) ↦ absurd (ground (arith, h, e, d, n, k))
          | inl (c, k) ↦
              let body : c ≡ b' = ground (arith, h, e, d, n, k) in
              let cache : store (stored_result b) (stored_result t) p psc ≡ psc' =
                ground (arith, h, e, d, n, k) in
              (p, f, t, refl, refl, d ∙ ap (λ m. some m) n, k ∙ ap (λ r. ok r) body, sym cache)
        ]
      ]
    ]
  ]

  -- When the response to a PREPARE has been processed, the target's response was a prepared result too,
  -- and the cache has been given both results as the clusters sent them, with the proxy's markers; the
  -- client's response has the origin's id.
  pub prepared_statement_stored :
      (info : RequestInfo) (response : Option RawFrame) (psc psc' : PreparedStatementCache)
      (b' : PreparedBody)
      → process_prepared_response decode b info response psc ≡ ok (b', psc')
      → (p : PrepareRequestInfo) × (f : RawFrame) × (t : PreparedBody) × (info ≡ prepare p)
        × (response ≡ some f)
        × (decode f ≡ some (some t))
        × (psc' ≡ store (stored_result b) (stored_result t) p psc)
        × (b'.prepared_query_id ≡ b.prepared_query_id)
  unfolding process_prepared_response Stored client_body
  prepared_statement_stored (base g) response psc psc' b' h = absurd (ground (arith, h))
  prepared_statement_stored (execute d) response psc psc' b' h = absurd (ground (arith, h))
  prepared_statement_stored (batch ds) response psc psc' b' h = absurd (ground (arith, h))
  prepared_statement_stored (prepare p) none psc psc' b' h = absurd (ground (arith, h))
  prepared_statement_stored (prepare p) (some f) psc psc' b' h =
      let (q, g, t, e, r, d, c, s) = prepare_branch p f psc b' psc' h in
      (q, g, t, e, r, d, s, id_kept q b' c)
