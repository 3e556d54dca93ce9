-- ===== src/TimeUuid/Distinct.antt =====
-- timeuuid.go and parametermodifier.go: the uuids for the calls of now() of one statement differ.
use zdm_proxy.Prelude.{
  ℕ, zero, suc, ◌+◌, ◌%◌, ◌<◌, ◌≡◌, ◌≢◌, sym, ap, ◌∙◌, none, some, List, [], ◌∷◌, string_eq,
  get_elem?, arith, inl, inr, Option-cases, Bool-cases,
}
use zdm_proxy.Query.{Term, is_now}
use zdm_proxy.Parameters.{Uuid, generate_time_uuids}
use zdm_proxy.TimeUuid.{Instant, TimeUuidGenerator, get_time, get_time_and_clock_seq, get_time_uuid}
use zdm_proxy.TimeUuid.Layout.{clock_seq_of, time_uuid_fields}

module _ (clock : ℕ → Instant) where
  drawn_seq :
      (g : TimeUuidGenerator)
      → (clock_seq_of (get_time_uuid clock g).0 ≡ (g.clock_seq + 1) % 16384)
        × ((get_time_uuid clock g).1.clock_seq % 16384 ≡ (g.clock_seq + 1) % 16384)
  unfolding get_time_uuid get_time_and_clock_seq
  drawn_seq g =
      let now = get_time (clock g.readings) in
      let seq = (g.clock_seq + 1) % 4294967296 in
      ((time_uuid_fields now (seq % 65536) g.node_id).3 ∙ omega arith, omega arith)

  elem_of_cons :
      (v : Uuid) (vs us : List Uuid) (i : ℕ) (u : Uuid)
      → v ∷ vs ≡ us
      → get_elem? us (suc i) ≡ some u
      → get_elem? vs i ≡ some u
  elem_of_cons v vs us i u e h = ap (λ l. get_elem? l (suc i)) e ∙ h

  first_of_cons :
      (v : Uuid) (vs us : List Uuid) (u : Uuid) → v ∷ vs ≡ us → get_elem? us 0 ≡ some u → v ≡ u
  first_of_cons v vs us u e h =
      let same : some v ≡ some u = ap (λ l. get_elem? l 0) e ∙ h in ground (arith, same)

  by_place :
      (v : Uuid) (vs us : List Uuid) (i : ℕ) (u : Uuid) (first next : ℕ)
      → v ∷ vs ≡ us
      → get_elem? us i ≡ some u
      → clock_seq_of v ≡ (first + 1) % 16384
      → next % 16384 ≡ (first + 1) % 16384
      → ((j : ℕ) (w : Uuid) → get_elem? vs j ≡ some w → clock_seq_of w ≡ (next + 1 + j) % 16384)
      → clock_seq_of u ≡ (first + 1 + i) % 16384
  by_place v vs us zero u first next split h drawn same others =
      sym (ap clock_seq_of (first_of_cons v vs us u split h)) ∙ drawn ∙ omega arith
  by_place v vs us (suc i) u first next split h drawn same others =
      others i u (elem_of_cons v vs us i u split h) ∙ omega (arith, same)

  -- The clock sequence of each uuid follows from its place.
  generated_seq :
      (terms : List Term) (g g' : TimeUuidGenerator) (us : List Uuid) (i : ℕ) (u : Uuid)
      → generate_time_uuids (get_time_uuid clock) terms g ≡ some (us, g')
      → get_elem? us i ≡ some u
      → clock_seq_of u ≡ (g.clock_seq + 1 + i) % 16384
  unfolding generate_time_uuids
  generated_seq [] g g' us i u e h =
      let empty : us ≡ [] = ground (arith, e) in
      let missing : none ≡ some u = sym (ap (λ l. get_elem? l i) empty) ∙ h in
      absurd (ground (arith, missing))
  generated_seq (t ∷ terms) g g' us i u e h =
      let (v, next) = get_time_uuid clock g in
      elim (Option-cases t.function_call) [
        | inl n ↦ absurd (ground (arith, n, e))
        | inr (f, n) ↦ elim (Bool-cases (is_now f)) [
          | inr other ↦ generated_seq terms g g' us i u (ground (arith, n, other, e)) h
          | inl now ↦ elim (Option-cases (generate_time_uuids (get_time_uuid clock) terms next)) [
            | inl k ↦ absurd (ground (arith, n, now, k, e))
            | inr ((vs, g''), k) ↦
                let split : v ∷ vs ≡ us = ground (arith, n, now, k, e) in
                let (drawn, same) = drawn_seq g in
                by_place v vs us i u g.clock_seq next.clock_seq split h drawn same
                  (λ j w at. generated_seq terms next g'' vs j w k at)
          ]
        ]
      ]

  -- However the clock reads, two uuids that are generated for a statement at different places, less
  -- than 16384 apart, are not the same.
  pub generated_distinct :
      (terms : List Term) (g g' : TimeUuidGenerator) (us : List Uuid) (i j : ℕ) (u w : Uuid)
      → generate_time_uuids (get_time_uuid clock) terms g ≡ some (us, g')
      → i < j
      → j < i + 16384
      → get_elem? us i ≡ some u
      → get_elem? us j ≡ some w
      → u ≢ w
  generated_distinct terms g g' us i j u w e before bound at_i at_j same = omega (
    arith,
    ap clock_seq_of same,
    generated_seq terms g g' us i u e at_i,
    generated_seq terms g g' us j w e at_j,
    bound,
    before,
  )
