-- ===== src/Parameters/Completion.antt =====
-- parametermodifier.go: when the positional values can be completed.
use zdm_proxy.Prelude.{
  ℕ, zero, suc, ◌+◌, ◌-◌, ◌≤◌, ◌<◌, ◌≡◌, refl, inl, inr, true, false, Bool-cases, Option, some,
  List, [], ◌∷◌, ◌++◌, String, ℤ, pos, negsuc, length, get_elem?, take, drop, ok, arith,
}
use zdm_proxy.Query.{Term}
use zdm_proxy.RequestInfo.{ColumnMetadata}
use zdm_proxy.Messages.{Value}
use zdm_proxy.Parameters.{
  Uuid, is_now_call, slice, copy_before, new_value, new_value_index, column_at, uuid_at,
  generate_time_uuid_value, positional_loop, add_positional_values_for_replaced_positional_markers,
}
use zdm_proxy.Parameters.Positional.{count_now}

-- The previous indices of the terms: none, or one in range and not before the ones of the terms
-- before.
pub data InRange (values : List Value) : List Term → ℕ → Type 0 where
  no_terms : {start : ℕ} → InRange values [] start
  at_start :
      {t : Term} {terms : List Term} {start : ℕ}
      → t.previous_positional_index ≡ negsuc 0
      → InRange values terms start
      → InRange values (t ∷ terms) start
  after_value :
      {t : Term} {terms : List Term} {start : ℕ} (n : ℕ)
      → t.previous_positional_index ≡ pos n
      → start ≤ suc n
      → n < length values
      → InRange values terms (suc n)
      → InRange values (t ∷ terms) start

get_elem?-total {ℓ} :
    {A : Type ℓ} (xs : List A) (i : ℕ) → i < length xs → (x : A) × (get_elem? xs i ≡ some x)
get_elem?-total [] i lt = absurd (omega (arith, lt))
get_elem?-total (x ∷ xs) zero lt = (x, refl)
get_elem?-total (x ∷ xs) (suc i) lt = get_elem?-total xs i (omega (arith, lt))

-- A codec that encodes every uuid in every type of a column.
abbrev pub Total : (Uuid → String → Option Value) → Type 0
Total encode = (u : Uuid) (data_type : String) → (v : Value) × (encode u data_type ≡ some v)

module _ (encode : Uuid → String → Option Value) (values : List Value)
    (columns : List ColumnMetadata) (uuids : List Uuid) (total : Total encode) where
  new_value_total :
      (offset : ℕ) (previous : ℤ) (c i : ℕ)
      → new_value_index offset previous ≡ some c
      → c < length columns
      → i < length uuids
      → (v : Value) × (new_value encode values columns uuids offset previous i ≡ ok v)
  unfolding new_value column_at uuid_at generate_time_uuid_value
  new_value_total offset previous c i n c_lt i_lt =
      let (column, m) = get_elem?-total columns c c_lt in
      let (u, k) = get_elem?-total uuids i i_lt in
      let (v, e) = total u column.data_type in (v, ground (arith, n, m, k, e))

  Completes : List Term → ℕ → ℕ → Type 0
  Completes terms start added =
      (out : List Value) × (positional_loop encode values columns uuids terms start added ≡ ok out)

  -- One term, when the others can be completed.
  now_term :
      (t : Term) (terms : List Term) (start start' added c : ℕ) (copied : List Value)
      → copy_before encode values columns uuids t.previous_positional_index start
        ≡ ok (copied, start')
      → is_now_call t ≡ true
      → new_value_index added t.previous_positional_index ≡ some c
      → c < length columns
      → added < length uuids
      → Completes terms start' (suc added)
      → Completes (t ∷ terms) start added
  unfolding positional_loop Completes
  now_term t terms start start' added c copied e now n c_lt i_lt (vs, f) =
      let (v, g) = new_value_total added t.previous_positional_index c added n c_lt i_lt in
      (copied ++ (v ∷ vs), ground (arith, e, now, f, g))

  other_term :
      (t : Term) (terms : List Term) (start start' added : ℕ) (copied : List Value)
      → copy_before encode values columns uuids t.previous_positional_index start
        ≡ ok (copied, start')
      → is_now_call t ≡ false
      → Completes terms start' added
      → Completes (t ∷ terms) start added
  unfolding positional_loop Completes
  other_term t terms start start' added copied e other (vs, f) =
      (copied ++ vs, ground (arith, e, other, f))

  loop_completes :
      (terms : List Term) (start added : ℕ)
      → InRange values terms start
      → length values + added + count_now terms ≤ length columns
      → added + count_now terms ≤ length uuids
      → Completes terms start added
  unfolding count_now copy_before slice new_value_index
  loop_completes [] start added r cs us =
      unfold positional_loop Completes in (drop start values, refl)
  loop_completes (t ∷ terms) start added (at_start p r) cs us =
      let copied : copy_before encode values columns uuids t.previous_positional_index start
          ≡ ok ([], start) =
        ground (arith, p) in
      elim (Bool-cases (is_now_call t)) [
        | inl now ↦
            now_term t terms start start added added [] copied now (ground (arith, p))
              (ground (arith, now, cs)) (ground (arith, now, us))
              (loop_completes terms start (suc added) r (ground (arith, now, cs))
                (ground (arith, now, us)))
        | inr other ↦ other_term t terms start start added [] copied other (
            loop_completes terms start added r (ground (arith, other, cs))
              (ground (arith, other, us)))
      ]
  loop_completes (t ∷ terms) start added (after_value n p le lt r) cs us =
      let taken : List Value = take (suc n - start) (drop start values) in
      let copied : copy_before encode values columns uuids t.previous_positional_index start
          ≡ ok (taken, suc n) =
        ground (arith, p, le, lt) in
      elim (Bool-cases (is_now_call t)) [
        | inl now ↦
            now_term t terms start (suc n) added (added + n + 1) taken copied now
              (ground (arith, p)) (ground (arith, now, cs, lt)) (ground (arith, now, us))
              (loop_completes terms (suc n) (suc added) r (ground (arith, now, cs))
                (ground (arith, now, us)))
        | inr other ↦ other_term t terms start (suc n) added taken copied other (
            loop_completes terms (suc n) added r (ground (arith, other, cs))
              (ground (arith, other, us)))
      ]

  -- The call succeeds when the terms' previous indices are in range and in order, the metadata has
  -- a column for every original value and every call of now(), there is a uuid for every call, and
  -- the codecs encode it.
  pub positional_values_completed :
      (terms : List Term)
      → InRange values terms 0
      → length values + count_now terms ≤ length columns
      → count_now terms ≤ length uuids
      → (out : List Value) × (add_positional_values_for_replaced_positional_markers encode values
            columns uuids terms
          ≡ ok out)
  unfolding add_positional_values_for_replaced_positional_markers Completes
  positional_values_completed terms r cs us =
      loop_completes terms 0 0 r (omega (arith, cs)) (omega (arith, us))
