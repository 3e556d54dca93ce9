-- ===== src/PreparedResponse/Positions.antt =====
-- clienthandler.go: which columns of a statement with positional markers the client still sees.
use zdm_proxy.Prelude.{
  ℕ, zero, suc, ◌+◌, ◌-◌, ◌≤◌, ◌<◌, ◌≡◌, refl, sym, ap, ◌∙◌, inl, inr, Bool, false, ◌||◌,
  Bool-cases, some, List, [], ◌∷◌, ◌++◌, map, ltb, eqb, length, take, drop, drop-drop,
  if◌then◌else◌, ok, arith,
}
use zdm_proxy.RequestInfo.{ColumnMetadata}
use zdm_proxy.PreparedResponse.{remove_positions}

unfoldable pub member : ℕ → List ℕ → Bool
member i [] = false
member i (p ∷ ps) = eqb i p || member i ps

-- Positions that increase, from `start` on.
abbrev pub Increasing : ℕ → List ℕ → Type 0
Increasing start [] = Unit
Increasing start (p ∷ ps) = (start ≤ p) × Increasing (suc p) ps

-- The positions before the last of `n` columns.
unfoldable pub before_last : ℕ → List ℕ → List ℕ
before_last n [] = []
before_last n (p ∷ ps) = let rest = before_last n ps in if ltb (p + 1) n then p ∷ rest else rest

-- The columns, the first of them at index `i`, without those at the positions.
unfoldable pub without : ℕ → List ℕ → List ColumnMetadata → List ColumnMetadata
unfolding member
without i removed [] = []
without i removed (c ∷ cs) =
    let rest = without (suc i) removed cs in if member i removed then rest else c ∷ rest

weaker : (s t : ℕ) (ps : List ℕ) → s ≤ t → Increasing t ps → Increasing s ps
weaker s t [] le a = tt
weaker s t (p ∷ ps) le (lt, a) = (omega (arith, le, lt), a)

before_last-Increasing : (n s : ℕ) (ps : List ℕ) → Increasing s ps → Increasing s (before_last n ps)
unfolding before_last
before_last-Increasing n s [] a = tt
before_last-Increasing n s (p ∷ ps) (le, a) = elim (Bool-cases (ltb (p + 1) n)) [
  | inl now ↦ rw (now, before_last) (le, before_last-Increasing n (suc p) ps a)
  | inr past ↦
      rw (past, before_last)
        (weaker s (suc p) (before_last n ps) (omega (arith, le))
          (before_last-Increasing n (suc p) ps a))
]

member_below : (i s : ℕ) (ps : List ℕ) → i < s → Increasing s ps → member i ps ≡ false
unfolding member
member_below i s [] lt a = refl
member_below i s (p ∷ ps) lt (le, a) =
    ground (arith, lt, le, member_below i (suc p) ps (omega (arith, lt, le)) a)

without_nothing : (i : ℕ) (cs : List ColumnMetadata) → without i [] cs ≡ cs
unfolding without member
without_nothing i [] = refl
without_nothing i (c ∷ cs) = ap (λ l. c ∷ l) (without_nothing (suc i) cs)

-- A position that has been passed no longer matters.
without_passed :
    (p i : ℕ) (ps : List ℕ) (cs : List ColumnMetadata)
    → p < i
    → without i (p ∷ ps) cs ≡ without i ps cs
unfolding without member
without_passed p i ps [] lt = refl
without_passed p i ps (c ∷ cs) lt =
    ground (arith, lt, without_passed p (suc i) ps cs (omega (arith, lt)))

-- The columns before the first position all stay.
without_ahead :
    (k i p : ℕ) (ps : List ℕ) (cs rest : List ColumnMetadata) (c : ColumnMetadata)
    → i + k ≡ p
    → Increasing (suc p) ps
    → drop k cs ≡ c ∷ rest
    → without i (p ∷ ps) cs ≡ take k cs ++ without (suc p) ps rest
unfolding without member
without_ahead zero i p ps [] rest c at a e = absurd (cc)
without_ahead zero i p ps (d ∷ cs) rest c at a e =
    let same : i ≡ p = omega (arith, at) in
    let tail : cs ≡ rest = ground (arith, e) in
    ground (
      arith,
      same,
      without_passed p (suc i) ps cs (omega (arith, same)),
      ap (without (suc i) ps) tail,
      ap (λ j. without (suc j) ps rest) same,
    )
without_ahead (suc k) i p ps [] rest c at a e = absurd (cc)
without_ahead (suc k) i p ps (d ∷ cs) rest c at a e = ground (
  arith,
  at,
  member_below i (suc p) ps (omega (arith, at)) a,
  without_ahead k (suc i) p ps cs rest c (omega (arith, at)) a e,
)

drop-cons :
    (p : ℕ) (xs : List ColumnMetadata)
    → p < length xs
    → (c : ColumnMetadata) × (drop p xs ≡ c ∷ drop (suc p) xs)
drop-cons p [] lt = absurd (omega (arith, lt))
drop-cons zero (x ∷ xs) lt = (x, refl)
drop-cons (suc p) (x ∷ xs) lt = drop-cons p xs (omega (arith, lt))

module _ (columns : List ColumnMetadata) where
  positions_lem :
      (ps : List ℕ) (start : ℕ)
      → Increasing start ps
      → let removed = before_last (length columns) ps in
        remove_positions columns (map some ps) start
        ≡ ok (removed, without start removed (drop start columns))
  unfolding remove_positions before_last
  positions_lem [] start a =
      ap (λ cs. ok ([], cs)) (sym (without_nothing start (drop start columns)))
  positions_lem (p ∷ ps) start (le, a) = elim (Bool-cases (ltb (p + 1) (length columns))) [
    | inr past ↦
        ground (arith, past, positions_lem ps start (weaker start (suc p) ps (omega (arith, le)) a))
    | inl now ↦
        let removed = before_last (length columns) ps in
        let (c, e) = drop-cons p columns (ground (arith, now)) in
        let at : start + (p - start) ≡ p = omega (arith, le) in
        let split =
          without_ahead (p - start) start p removed (drop start columns) (drop (suc p) columns) c at
            (before_last-Increasing (length columns) (suc p) ps a)
            (drop-drop start (p - start) columns ∙ ap (λ n. drop n columns) at ∙ e) in
        ground (arith, now, le, positions_lem ps (suc p) a, split)
  ]

  -- For positions that increase, the loop succeeds: the client sees all columns but those at the
  -- positions before the last column, in their order.
  pub columns_before_last_removed :
      (positions : List ℕ)
      → Increasing 0 positions
      → remove_positions columns (map some positions) 0
        ≡ ok (
          before_last (length columns) positions,
          without 0 (before_last (length columns) positions) columns,
        )
  columns_before_last_removed positions a = positions_lem positions 0 a
