-- ===== src/Parameters/Named.antt =====
-- parametermodifier.go: the values of statements with named markers.
use zdm_proxy.Prelude.{
  ℕ, suc, ◌≡◌, ◌≢◌, refl, sym, subst, ap, ◌⊎◌, inl, inr, true, Bool-cases, Option, none, some,
  is_some, Option-cases, List, [], ◌∷◌, String, string_eq, ◌==◌, length, get_elem?, lookup, insert,
  lookup-insert, ok, Result-cases, arith, All,
}
use zdm_proxy.Query.{zdm_now_named_marker}
use zdm_proxy.RequestInfo.{ColumnMetadata}
use zdm_proxy.Messages.{Value}
use zdm_proxy.Parameters.{
  Uuid, uuid_at, generate_time_uuid_value, named_marker_loop, named_loop,
  add_positional_values_for_replaced_named_markers,
}

module _ (encode : Uuid → String → Option Value) (uuids : List Uuid) where
  module _ (values : List Value) where
    -- The values that the columns should get: an encoded uuid for each column of the marker, and the
    -- original values in order for the others.
    pub Filled : List ColumnMetadata → ℕ → ℕ → List Value → Type 0
    Filled [] i j [] = Unit
    Filled (c ∷ columns) i j (v ∷ out) =
        ((c.name ≡ zdm_now_named_marker)
          × ((u : Uuid) × (get_elem? uuids i ≡ some u) × (encode u c.data_type ≡ some v))
          × Filled columns (suc i) j out)
        ⊎ ((c.name ≢ zdm_now_named_marker)
            × (get_elem? values j ≡ some v)
            × Filled columns i (suc j) out)
    Filled _ i j _ = ⊥

    same_length :
        (columns : List ColumnMetadata) (i j : ℕ) (out : List Value)
        → Filled columns i j out
        → length out ≡ length columns
    unfolding Filled
    same_length [] i j [] f = refl
    same_length [] i j (v ∷ out) f = absurd f
    same_length (c ∷ columns) i j [] f = absurd f
    same_length (c ∷ columns) i j (v ∷ out) (inl (e, u, f)) =
        ap suc (same_length columns (suc i) j out f)
    same_length (c ∷ columns) i j (v ∷ out) (inr (e, u, f)) =
        ap suc (same_length columns i (suc j) out f)

    filled :
        (columns : List ColumnMetadata) (i j : ℕ) (out : List Value)
        → named_marker_loop encode values uuids columns i j ≡ ok out
        → Filled columns i j out
    unfolding named_marker_loop uuid_at generate_time_uuid_value Filled
    filled [] i j [] h = tt
    filled [] i j (v ∷ out) h = absurd (ground (arith, h))
    filled (c ∷ columns) i j out h = elim (Bool-cases (c.name == zdm_now_named_marker)) [
      | inl now ↦ elim (Option-cases (get_elem? uuids i)) [
        | inl k ↦ absurd (ground (arith, h, now, k))
        | inr (u, k) ↦ elim (Option-cases (encode u c.data_type)) [
          | inl m ↦ absurd (ground (arith, h, now, k, m))
          | inr (v, m) ↦
              elim (Result-cases (named_marker_loop encode values uuids columns (suc i) j)) [
                | inr (x, f) ↦ absurd (ground (arith, h, now, k, m, f))
                | inl (vs, f) ↦
                    let o : v ∷ vs ≡ out = ground (arith, h, now, k, m, f) in
                    subst (Filled (c ∷ columns) i j) o (
                      inl (
                        (string_eq.equal_iff c.name zdm_now_named_marker).0 now,
                        (u, k, m),
                        filled columns (suc i) j vs f,
                      ))
              ]
        ]
      ]
      | inr other ↦ elim (Option-cases (get_elem? values j)) [
        | inl k ↦ absurd (ground (arith, h, other, k))
        | inr (v, k) ↦
            elim (Result-cases (named_marker_loop encode values uuids columns i (suc j))) [
              | inr (x, f) ↦ absurd (ground (arith, h, other, k, f))
              | inl (vs, f) ↦
                  let o : v ∷ vs ≡ out = ground (arith, h, other, k, f) in
                  subst (Filled (c ∷ columns) i j) o (
                    inr (
                      λ e.
                          ground
                            (arith, other, (string_eq.equal_iff c.name zdm_now_named_marker).1 e),
                      k,
                      filled columns i (suc j) vs f,
                    ))
            ]
      ]
    ]

    -- When the call succeeds, there is one value for each column: an encoded uuid for each column of
    -- the marker, in the order of the uuids, and for the others the original values in order.
    pub values_for_columns :
        (columns : List ColumnMetadata) (out : List Value)
        → add_positional_values_for_replaced_named_markers encode values uuids columns ≡ ok out
        → (length out ≡ length columns) × Filled columns 0 0 out
    unfolding add_positional_values_for_replaced_named_markers
    values_for_columns columns out h =
        let f = filled columns 0 0 out h in (same_length columns 0 0 out f, f)

  -- What is in the map of named values: the values given, and one for the marker.
  Named : List ColumnMetadata → List (String × Value) → List (String × Value) → Type 0
  Named columns given out =
      ((n : String)
        → (lookup n out ≡ lookup n given) ⊎ ((n ≡ zdm_now_named_marker) × (lookup n given ≡ none)))
      × All (λ c. (c.name ≡ "") ⊎ (is_some (lookup c.name out) ≡ true)) columns

  added :
      (n : String) (v : Value) (given : List (String × Value))
      → lookup zdm_now_named_marker given ≡ none
      → (lookup n (insert zdm_now_named_marker v given) ≡ lookup n given)
        ⊎ ((n ≡ zdm_now_named_marker) × (lookup n given ≡ none))
  added n v given free = elim (Bool-cases (zdm_now_named_marker == n)) [
    | inl e ↦
        let same : zdm_now_named_marker ≡ n = (string_eq.equal_iff zdm_now_named_marker n).0 e in
        inr (sym same, subst (λ n. lookup n given ≡ none) same free)
    | inr e ↦ inl (ground (arith, lookup-insert zdm_now_named_marker n v given, e))
  ]

  one_column :
      (c : ColumnMetadata) (columns : List ColumnMetadata)
      (given between out : List (String × Value))
      → ((c.name ≡ "") ⊎ (is_some (lookup c.name between) ≡ true))
      → ((n : String)
          → (lookup n between ≡ lookup n given)
            ⊎ ((n ≡ zdm_now_named_marker) × (lookup n given ≡ none)))
      → Named columns between out
      → Named (c ∷ columns) given out
  unfolding Named
  one_column c columns given between out here before (after, others) =
      (λ n. ground (arith, before n, after n), (ground (arith, here, after c.name), others))

  named_loop_lem :
      (columns : List ColumnMetadata) (i : ℕ) (given out : List (String × Value))
      → named_loop encode uuids columns i given ≡ ok out
      → Named columns given out
  unfolding named_loop uuid_at generate_time_uuid_value
  named_loop_lem [] i given out h = unfold Named in (λ n. inl (ground (arith, h)), tt)
  named_loop_lem (c ∷ columns) i given out h = elim (Bool-cases (c.name == "")) [
    | inl e ↦
        one_column c columns given given out (inl ((string_eq.equal_iff c.name "").0 e))
          (λ n. inl refl) (named_loop_lem columns i given out (ground (arith, h, e)))
    | inr e ↦ elim (Option-cases (lookup c.name given)) [
      | inr (v, k) ↦
          one_column c columns given given out (inr (ground (arith, k))) (λ n. inl refl)
            (named_loop_lem columns i given out (ground (arith, h, e, k)))
      | inl k ↦ elim (Bool-cases (c.name == zdm_now_named_marker)) [
        | inr m ↦ absurd (ground (arith, h, e, k, m))
        | inl m ↦ elim (Option-cases (get_elem? uuids i)) [
          | inl l ↦ absurd (ground (arith, h, e, k, m, l))
          | inr (u, l) ↦ elim (Option-cases (encode u c.data_type)) [
            | inl f ↦ absurd (ground (arith, h, e, k, m, l, f))
            | inr (v, f) ↦
                let same : c.name ≡ zdm_now_named_marker =
                  (string_eq.equal_iff c.name zdm_now_named_marker).0 m in
                let free : lookup zdm_now_named_marker given ≡ none =
                  subst (λ n. lookup n given ≡ none) same k in
                one_column c columns given (insert zdm_now_named_marker v given) out
                  (inr (
                    ground (
                      arith,
                      same,
                      lookup-insert zdm_now_named_marker c.name v given,
                      string_eq.equal_iff zdm_now_named_marker c.name,
                    )))
                  (λ n. added n v given free)
                  (named_loop_lem columns (suc i) (insert zdm_now_named_marker v given) out
                    (ground (arith, h, e, k, m, l, f)))
          ]
        ]
      ]
    ]
  ]

  -- When the call succeeds, every column with a name has a value; the values that the client gave
  -- are as they were, and at most the marker's has been added to them.
  pub named_values_completed :
      (columns : List ColumnMetadata) (given out : List (String × Value))
      → named_loop encode uuids columns 0 given ≡ ok out
      → ((n : String)
          → (lookup n out ≡ lookup n given)
            ⊎ ((n ≡ zdm_now_named_marker) × (lookup n given ≡ none)))
        × All (λ c. (c.name ≡ "") ⊎ (is_some (lookup c.name out) ≡ true)) columns
  unfolding Named
  named_values_completed columns given out h = named_loop_lem columns 0 given out h
