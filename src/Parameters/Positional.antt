-- ===== src/Parameters/Positional.antt =====
-- parametermodifier.go: the positional values with the generated ones among them.
use zdm_proxy.Prelude.{
  drop-between, ℕ, suc, ◌-◌, ◌≤◌, ◌≡◌, refl, sym, ap, ◌∙◌, subst, inl, inr, Bool-cases, Option,
  some, Option-cases, List, [], ◌∷◌, ◌++◌, String, ℤ, pos, negsuc, length, get_elem?, take, drop,
  if◌then◌else◌, ok, Result-cases, arith,
}
use zdm_proxy.Query.{Term}
use zdm_proxy.RequestInfo.{ColumnMetadata}
use zdm_proxy.Messages.{Value}
use zdm_proxy.Parameters.{
  Uuid, is_now_call, slice, copy_before, new_value, new_value_index, column_at, uuid_at,
  generate_time_uuid_value, positional_loop, add_positional_values_for_replaced_positional_markers,
}

-- An interleaving of two lists that keeps the order of each.
pub data Merge : List Value → List Value → List Value → Type 0 where
  nothing : Merge [] [] []
  original : {xs ys zs : List Value} (v : Value) → Merge xs ys zs → Merge (v ∷ xs) ys (v ∷ zs)
  generated : {xs ys zs : List Value} (v : Value) → Merge xs ys zs → Merge xs (v ∷ ys) (v ∷ zs)

originals_only : (xs : List Value) → Merge xs [] xs
originals_only [] = nothing
originals_only (v ∷ xs) = original v (originals_only xs)

copies_first :
    {xs ys zs : List Value} (cs : List Value) → Merge xs ys zs → Merge (cs ++ xs) ys (cs ++ zs)
copies_first [] m = m
copies_first (v ∷ cs) m = original v (copies_first cs m)

unfoldable pub count_now : List Term → ℕ
count_now [] = 0
count_now (t ∷ terms) = let n = count_now terms in if is_now_call t then suc n else n

pub slice_lem :
    (start end : ℕ) (values copied : List Value)
    → slice start end values ≡ ok copied
    → drop start values ≡ copied ++ drop end values
unfolding slice
slice_lem start end values copied h =
    let le : start ≤ end = ground (arith, h) in
    let e : take (end - start) (drop start values) ≡ copied = ground (arith, h) in
    drop-between start end values le ∙ ap (λ c. c ++ drop end values) e

module _ (encode : Uuid → String → Option Value) (values : List Value)
    (columns : List ColumnMetadata) (uuids : List Uuid) where
  copy_before_lem :
      (previous : ℤ) (start start' : ℕ) (copied : List Value)
      → copy_before encode values columns uuids previous start ≡ ok (copied, start')
      → drop start values ≡ copied ++ drop start' values
  unfolding copy_before
  copy_before_lem (negsuc n) start start' copied h = ground (arith, h)
  copy_before_lem (pos n) start start' copied h = elim (Result-cases (slice start (suc n) values)) [
    | inl (c, e) ↦ slice_lem start (suc n) values c e ∙ ground (arith, h, e)
    | inr (x, e) ↦ absurd (ground (arith, h, e))
  ]

  -- Each value is the encoding, in the type of some column, of the uuid in its place.
  abbrev pub Encoded : ℕ → List Value → Type 0
  Encoded i [] = Unit
  Encoded i (v ∷ vs) =
      ((u : Uuid) × (c : ℕ) × (column : ColumnMetadata) × (get_elem? uuids i ≡ some u)
        × (get_elem? columns c ≡ some column)
        × (encode u column.data_type ≡ some v))
      × Encoded (suc i) vs

  new_value_lem :
      (offset : ℕ) (previous : ℤ) (i : ℕ) (v : Value)
      → new_value encode values columns uuids offset previous i ≡ ok v
      → (u : Uuid) × (c : ℕ) × (column : ColumnMetadata) × (get_elem? uuids i ≡ some u)
        × (get_elem? columns c ≡ some column)
        × (encode u column.data_type ≡ some v)
  unfolding new_value column_at uuid_at generate_time_uuid_value
  new_value_lem offset previous i v h = elim (Option-cases (new_value_index offset previous)) [
    | inl n ↦ absurd (ground (arith, h, n, Option-cases (get_elem? uuids i)))
    | inr (c, n) ↦ elim (Option-cases (get_elem? columns c)) [
      | inl m ↦ absurd (ground (arith, h, n, m))
      | inr (column, m) ↦ elim (Option-cases (get_elem? uuids i)) [
        | inl k ↦ absurd (ground (arith, h, n, m, k))
        | inr (u, k) ↦ (u, c, column, k, m, ground (arith, h, n, m, k))
      ]
    ]
  ]

  -- What the loop appends after the position `start` and with `added` values generated.
  Appended : List Term → ℕ → ℕ → List Value → Type 0
  Appended terms start added out =
      (gen : List Value) × Merge (drop start values) gen out
      × (length gen ≡ count_now terms)
      × Encoded added gen

  positional_loop_lem :
      (terms : List Term) (start added : ℕ) (out : List Value)
      → positional_loop encode values columns uuids terms start added ≡ ok out
      → Appended terms start added out
  unfolding positional_loop count_now Appended
  positional_loop_lem [] start added out h =
      let e : drop start values ≡ out = ground (arith, h) in
      ([], subst (Merge (drop start values) []) e (originals_only (drop start values)), refl, tt)
  positional_loop_lem (t ∷ terms) start added out h =
      elim (Result-cases
        (copy_before encode values columns uuids t.previous_positional_index start)) [
          | inr (x, e) ↦ absurd (ground (arith, h, e))
          | inl ((copied, start'), e) ↦
              let split = copy_before_lem t.previous_positional_index start start' copied e in
              elim (Bool-cases (is_now_call t)) [
                | inr other ↦
                    elim (Result-cases
                      (positional_loop encode values columns uuids terms start' added)) [
                        | inr (x, f) ↦ absurd (ground (arith, h, e, other, f))
                        | inl (vs, f) ↦
                            let (gen, m, n, enc) = positional_loop_lem terms start' added vs f in
                            let o : copied ++ vs ≡ out = ground (arith, h, e, other, f) in
                            (
                              gen,
                              subst (Merge (drop start values) gen) o (
                                  subst (λ xs. Merge xs gen (copied ++ vs)) (sym split)
                                    (copies_first copied m)),
                              ground (arith, other, n),
                              enc,
                            )
                      ]
                | inl now ↦
                    elim (Result-cases (
                      new_value encode values columns uuids added t.previous_positional_index
                        added)) [
                          | inr (x, f) ↦ absurd (ground (arith, h, e, now, f))
                          | inl (v, g) ↦
                              elim (Result-cases (
                                positional_loop encode values columns uuids terms start'
                                  (suc added))) [
                                    | inr (x, f) ↦ absurd (ground (arith, h, e, now, g, f))
                                    | inl (vs, f) ↦
                                        let (gen, m, n, enc) =
                                          positional_loop_lem terms start' (suc added) vs f in
                                        let o : copied ++ (v ∷ vs) ≡ out =
                                          ground (arith, h, e, now, g, f) in
                                        (
                                          v ∷ gen,
                                          subst (Merge (drop start values) (v ∷ gen)) o (
                                              subst (λ xs. Merge xs (v ∷ gen) (copied ++ (v ∷ vs)))
                                                (sym split) (copies_first copied (generated v m))),
                                          ground (arith, now, n),
                                          (
                                            new_value_lem added t.previous_positional_index added v
                                                g,
                                            enc,
                                          ),
                                        )
                                  ]
                        ]
              ]
        ]

  -- When the call succeeds, the result is the original values, all of them and in their order, with
  -- one value in between for each call of now(), and the n-th of these encodes the n-th uuid in the
  -- type of a column.
  pub positional_values_merged :
      (terms : List Term) (out : List Value)
      → add_positional_values_for_replaced_positional_markers encode values columns uuids terms
        ≡ ok out
      → (gen : List Value) × Merge values gen out × (length gen ≡ count_now terms) × Encoded 0 gen
  unfolding add_positional_values_for_replaced_positional_markers Appended
  positional_values_merged terms out h = positional_loop_lem terms 0 0 out h
