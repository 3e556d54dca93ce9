-- ===== src/PreparedResponse/Columns.antt =====
-- clienthandler.go: which columns and key indices of a prepared statement the client still sees.
use Prim.Native.Nat.{Ordering}
use Prim.Native.String.{compare, String}
use zdm_proxy.Prelude.{
  ℕ, suc, ◌-◌, ◌≤◌, ◌≡◌, refl, ap, ◌∙◌, inl, inr, Bool, true, ◌&&◌, ◌||◌, not, Bool-cases, List, [],
  ◌∷◌, ◌++◌, false, string_eq, ◌==◌, ltb, eqb, length, take, drop, drop-between, drop-suc,
  take-between_suc, append_assoc, if◌then◌else◌, arith,
}
use zdm_proxy.RequestInfo.{ColumnMetadata}
use zdm_proxy.PreparedResponse.{
  found_in_markers, search_ints, filter_pk_indices, columns_between, remove_named,
}

-- Whether the name comes after the marker's in the order of strings.
abbrev pub after_marker : String → Bool
after_marker name = elim (compare "zdm__now" name) [ Ordering.lt ↦ true | _ ↦ false ]

-- The columns that stay of a statement with named markers: those without a name and those whose name
-- comes after the marker's.
unfoldable pub unmarked : ColumnMetadata → Bool
unmarked c = c.name == "" || after_marker c.name

after_marker_lem : (name : String) → after_marker name ≡ not (found_in_markers name)
unfolding found_in_markers
after_marker_lem name = ground arith

unfoldable pub only_unmarked : List ColumnMetadata → List ColumnMetadata
unfolding unmarked
only_unmarked [] = []
only_unmarked (c ∷ cs) = let rest = only_unmarked cs in if unmarked c then c ∷ rest else rest

module _ (columns : List ColumnMetadata) where
  nothing_between : (n : ℕ) → columns_between columns n n ≡ []
  nothing_between n =
      let none_left : n - n ≡ 0 = omega arith in ap (λ k. take k (drop n columns)) none_left

  remove_named_lem :
      (cs : List ColumnMetadata) (idx start : ℕ)
      → start ≤ idx
      → drop idx columns ≡ cs
      → (remove_named columns cs idx start).1
        ≡ columns_between columns start idx ++ only_unmarked cs
  unfolding remove_named only_unmarked unmarked
  remove_named_lem [] idx start le e =
      drop-between start idx columns le ∙ ap (λ l. columns_between columns start idx ++ l) e
  remove_named_lem (c ∷ cs) idx start le e =
      let e' : drop (suc idx) columns ≡ cs = drop-suc idx columns c cs e in
      let others = remove_named_lem cs (suc idx) start (omega (arith, le)) e' in
      let kept : columns_between columns start (suc idx) ++ only_unmarked cs
          ≡ columns_between columns start idx ++ (c ∷ only_unmarked cs) =
        ap (λ l. l ++ only_unmarked cs) (take-between_suc start idx columns c cs le e)
        ∙ append_assoc (columns_between columns start idx) (c ∷ []) (only_unmarked cs) in
      elim (Bool-cases (c.name == "")) [
        | inl anonymous ↦ ground (arith, anonymous, others ∙ kept)
        | inr named ↦ elim (Bool-cases (found_in_markers c.name)) [
          | inl found ↦ ground (
            arith,
            after_marker_lem c.name,
            named,
            found,
            remove_named_lem cs (suc idx) (suc idx) (omega arith) e',
            nothing_between (suc idx),
          )
          | inr other ↦ ground (arith, after_marker_lem c.name, named, other, others ∙ kept)
        ]
      ]

  -- In a statement with named markers the client still sees the columns without a name and those
  -- whose name comes after the marker's name, in their order, and no others.
  pub unmarked_columns_stay : (remove_named columns columns 0 0).1 ≡ only_unmarked columns
  unmarked_columns_stay = remove_named_lem columns 0 0 (omega arith) refl

-- Whether the number is greater than all of the list.
unfoldable pub above_all : List ℕ → ℕ → Bool
above_all [] x = true
above_all (a ∷ rest) x = ltb a x && above_all rest x

search_ints_bound : (removed : List ℕ) (x : ℕ) → search_ints removed x ≤ length removed
unfolding search_ints
search_ints_bound [] x = omega arith
search_ints_bound (a ∷ rest) x = ground (arith, search_ints_bound rest x)

search_ints_lem :
    (removed : List ℕ) (x : ℕ) → eqb (search_ints removed x) (length removed) ≡ above_all removed x
unfolding search_ints above_all
search_ints_lem [] x = refl
search_ints_lem (a ∷ rest) x = ground (arith, search_ints_lem rest x, search_ints_bound rest x)

unfoldable pub only_above : List ℕ → List ℕ → List ℕ
only_above removed [] = []
only_above removed (pk ∷ rest) =
    let others = only_above removed rest in if above_all removed pk then pk ∷ others else others

-- The key indices that stay are those above every index that is removed.
pub key_indices_above_stay :
    (removed pks : List ℕ) → filter_pk_indices removed pks ≡ only_above removed pks
unfolding filter_pk_indices only_above
key_indices_above_stay removed [] = refl
key_indices_above_stay removed (pk ∷ rest) =
    ground (arith, search_ints_lem removed pk, key_indices_above_stay removed rest)
