-- ===== src/Parameters/Places.antt =====
-- parametermodifier.go: the places of the generated values among the positional ones.
use zdm_proxy.Prelude.{
  ℕ, zero, suc, ◌+◌, ◌-◌, ◌≤◌, ◌≡◌, refl, sym, ap, ◌∙◌, subst, inl, inr, Bool-cases, Option, some,
  Option-cases, List, [], ◌∷◌, ◌++◌, String, ℤ, pos, negsuc, length, get_elem?, drop, length-append,
  append_assoc, if◌then◌else◌, ok, Result-cases, arith,
}
use zdm_proxy.Query.{Term}
use zdm_proxy.RequestInfo.{ColumnMetadata}
use zdm_proxy.Messages.{Value}
use zdm_proxy.Parameters.{
  Uuid, is_now_call, slice, copy_before, new_value, new_value_index, column_at, uuid_at,
  generate_time_uuid_value, positional_loop, add_positional_values_for_replaced_positional_markers,
}
use zdm_proxy.Parameters.Positional.{Merge, count_now, slice_lem, positional_values_merged}

-- The terms that are calls of now().
unfoldable pub only_now : List Term → List Term
only_now [] = []
only_now (t ∷ terms) = let rest = only_now terms in if is_now_call t then t ∷ rest else rest

-- How many of the client's values come before a term, by the index of the last one, which is -1 for none.
abbrev pub values_before : ℤ → ℕ
values_before (pos n) = suc n
values_before (negsuc n) = 0

abbrev IsFirst : ℤ → ℕ → Type 0
IsFirst (pos n) start = Unit
IsFirst (negsuc n) start = (n ≡ 0) × (start ≡ 0)

abbrev start_after : ℤ → ℕ → ℕ
start_after (pos n) start = suc n
start_after (negsuc n) start = start

-- An index is at least -1, and the terms without a value before them come first.
abbrev pub InOrder : ℕ → List Term → Type 0
InOrder start [] = Unit
InOrder start (t ∷ terms) =
    IsFirst t.previous_positional_index start
    × InOrder (start_after t.previous_positional_index start) terms

length-drop {ℓ} : {A : Type ℓ} (n : ℕ) (xs : List A) → length (drop n xs) ≡ length xs - n
length-drop zero xs = omega arith
length-drop (suc n) [] = omega arith
length-drop (suc n) (x ∷ xs) = omega (arith, length-drop n xs)

at_length {ℓ} :
    {A : Type ℓ} (xs ys : List A) (x : A) → get_elem? (xs ++ (x ∷ ys)) (length xs) ≡ some x
at_length [] ys x = refl
at_length (y ∷ xs) ys x = at_length xs ys x

module _ (encode : Uuid → String → Option Value) (values : List Value)
    (columns : List ColumnMetadata) (uuids : List Uuid) where
  -- The value of a call: it encodes the uuid in its turn, in the type of the column in its place.
  abbrev pub IsPlaced : ℕ → ℕ → List Value → Type 0
  IsPlaced k place out =
      (u : Uuid) × (column : ColumnMetadata) × (v : Value) × (get_elem? uuids k ≡ some u)
      × (get_elem? columns place ≡ some column)
      × (encode u column.data_type ≡ some v)
      × (get_elem? out place ≡ some v)

  -- The place of each call comes after the client's values before it and the values of the calls before.
  abbrev pub ArePlaced : ℕ → List Term → List Value → Type 0
  ArePlaced k [] out = Unit
  ArePlaced k (t ∷ calls) out =
      IsPlaced k (values_before t.previous_positional_index + k) out × ArePlaced (suc k) calls out

  copied_length :
      (previous : ℤ) (start start' : ℕ) (copied : List Value)
      → copy_before encode values columns uuids previous start ≡ ok (copied, start')
      → (length copied + start ≡ start') × (start' ≡ start_after previous start)
  unfolding copy_before
  copied_length (negsuc n) start start' copied h = ground (arith, h)
  copied_length (pos n) start start' copied h = elim (Result-cases (slice start (suc n) values)) [
    | inr (x, e) ↦ absurd (ground (arith, h, e))
    | inl (c, e) ↦
        let ended : (c ≡ copied) × (suc n ≡ start') × (suc n ≤ length values) =
          ground (arith, h, e) in
        let le : start ≤ suc n = unfold slice in ground (arith, e) in
        let lengths = ap length (slice_lem start (suc n) values c e) in
        (
          omega (
            arith,
            ap length ended.0,
            ended,
            le,
            lengths,
            length-append c (drop (suc n) values),
            length-drop start values,
            length-drop (suc n) values,
          ),
          sym ended.1,
        )
  ]

  index_of :
      (previous : ℤ) (start k : ℕ)
      → IsFirst previous start
      → new_value_index k previous ≡ some (values_before previous + k)
  unfolding new_value_index
  index_of (pos n) start k first = ap some (omega arith)
  index_of (negsuc n) start k first = ground (arith, first)

  new_value_at :
      (previous : ℤ) (start k : ℕ) (v : Value)
      → IsFirst previous start
      → new_value encode values columns uuids k previous k ≡ ok v
      → (u : Uuid) × (column : ColumnMetadata) × (get_elem? uuids k ≡ some u)
        × (get_elem? columns (values_before previous + k) ≡ some column)
        × (encode u column.data_type ≡ some v)
  unfolding new_value column_at uuid_at generate_time_uuid_value
  new_value_at previous start k v first h =
      let index = index_of previous start k first in
      elim (Option-cases (get_elem? columns (values_before previous + k))) [
        | inl m ↦ absurd (ground (arith, index, m, h))
        | inr (column, m) ↦ elim (Option-cases (get_elem? uuids k)) [
          | inl j ↦ absurd (ground (arith, index, m, j, h))
          | inr (u, j) ↦ (u, column, j, m, ground (arith, index, m, j, h))
        ]
      ]

  start_of :
      (previous : ℤ) (start : ℕ)
      → IsFirst previous start
      → start_after previous start ≡ values_before previous
  start_of (pos n) start first = refl
  start_of (negsuc n) start first = first.1

  loop_places :
      (terms : List Term) (start k : ℕ) (out before : List Value)
      → positional_loop encode values columns uuids terms start k ≡ ok out
      → length before ≡ start + k
      → InOrder start terms
      → ArePlaced k (only_now terms) (before ++ out)
  unfolding positional_loop only_now
  loop_places [] start k out before h len order = tt
  loop_places (t ∷ terms) start k out before h len (first, order) =
      let previous = t.previous_positional_index in
      elim (Result-cases (copy_before encode values columns uuids previous start)) [
        | inr (x, e) ↦ absurd (ground (arith, h, e))
        | inl ((copied, start'), e) ↦
            let (long, is_start) = copied_length previous start start' copied e in
            let order' = subst (λ s. InOrder s terms) (sym is_start) order in
            let len' : length (before ++ copied) ≡ start' + k =
              omega (arith, length-append before copied, len, long) in
            elim (Bool-cases (is_now_call t)) [
              | inr other ↦
                  elim (Result-cases (positional_loop encode values columns uuids terms start' k)) [
                    | inr (x, g) ↦ absurd (ground (arith, h, e, other, g))
                    | inl (vs, g) ↦
                        let is : copied ++ vs ≡ out = ground (arith, h, e, other, g) in
                        let rest = loop_places terms start' k vs (before ++ copied) g len' order' in
                        let joined = append_assoc before copied vs ∙ ap (λ l. before ++ l) is in
                        let calls : only_now terms ≡ only_now (t ∷ terms) = ground (arith, other) in
                        subst (λ l. ArePlaced k l (before ++ out)) calls
                          (subst (ArePlaced k (only_now terms)) joined rest)
                  ]
              | inl now ↦ elim (Result-cases (new_value encode values columns uuids k previous k)) [
                | inr (x, g) ↦ absurd (ground (arith, h, e, now, g))
                | inl (v, g) ↦
                    elim (Result-cases
                      (positional_loop encode values columns uuids terms start' (suc k))) [
                        | inr (x, i) ↦ absurd (ground (arith, h, e, now, g, i))
                        | inl (vs, i) ↦
                            let is : copied ++ (v ∷ vs) ≡ out = ground (arith, h, e, now, g, i) in
                            let rest =
                              loop_places terms start' (suc k) vs ((before ++ copied) ++ (v ∷ [])) i
                                (omega (arith, length-append (before ++ copied) (v ∷ []), len'))
                                order' in
                            let joined =
                              append_assoc before copied (v ∷ vs) ∙ ap (λ l. before ++ l) is in
                            let calls : t ∷ only_now terms ≡ only_now (t ∷ terms) =
                              ground (arith, now) in
                            let place : values_before previous + k ≡ length (before ++ copied) =
                              omega (arith, len', is_start, start_of previous start first) in
                            let (u, column, has, has', encodes) =
                              new_value_at previous start k v first g in
                            subst (λ l. ArePlaced k l (before ++ out)) calls
                              (
                                (
                                  u,
                                  column,
                                  v,
                                  has,
                                  has',
                                  encodes,
                                  ap (get_elem? (before ++ out)) place
                                      ∙ (ap (λ l. get_elem? l (length (before ++ copied)))
                                            (sym joined)
                                          ∙ at_length (before ++ copied) vs v),
                                ),
                                subst (ArePlaced (suc k) (only_now terms))
                                    (append_assoc (before ++ copied) (v ∷ []) vs ∙ joined) rest,
                              )
                      ]
              ]
            ]
      ]

  -- When the indices of the terms are at least -1 and the terms with -1 come first, and the call succeeds,
  -- the result is the client's values, all of them and in their order, with one value in between for each
  -- call of now(). The value of a call stands after the client's values that come before the call and the
  -- values of the calls before it, and encodes the uuid in its turn in the type of the column that has
  -- the same place.
  pub positional_values_placed :
      (terms : List Term) (out : List Value)
      → InOrder 0 terms
      → add_positional_values_for_replaced_positional_markers encode values columns uuids terms
        ≡ ok out
      → ((gen : List Value) × Merge values gen out × (length gen ≡ count_now terms))
        × ArePlaced 0 (only_now terms) out
  unfolding add_positional_values_for_replaced_positional_markers
  positional_values_placed terms out order h =
      let (gen, merged, count, encoded) =
        positional_values_merged encode values columns uuids terms out h in
      ((gen, merged, count), loop_places terms 0 0 out [] h refl order)
