-- ===== src/Prelude/Lists.antt =====
-- Lists measured and indexed by native numbers, under the library's names.
use Prim.Native.Nat.{ℕ, zero, suc, ◌+◌, ◌-◌, ◌≤◌}
use mathlib.Core.Path.{◌≡◌, refl, ap, ◌∙◌}
use mathlib.Core.List.{List, [], ◌∷◌, ◌++◌}
use mathlib.Core.Option.{Option, none, some}
use native.Mathlib.Omega.{arith}

module _ {ℓ} {A : Type ℓ} where
  abbrev pub length : List A → ℕ
  length [] = 0
  length (x ∷ xs) = suc (length xs)

  abbrev pub get_elem? : List A → ℕ → Option A
  get_elem? [] i = none
  get_elem? (x ∷ xs) zero = some x
  get_elem? (x ∷ xs) (suc i) = get_elem? xs i

  abbrev pub take : ℕ → List A → List A
  take zero xs = []
  take (suc n) [] = []
  take (suc n) (x ∷ xs) = x ∷ take n xs

  abbrev pub drop : ℕ → List A → List A
  drop zero xs = xs
  drop (suc n) [] = []
  drop (suc n) (x ∷ xs) = drop n xs

  pub length-append : (xs ys : List A) → length (xs ++ ys) ≡ length xs + length ys
  length-append [] ys = omega arith
  length-append (x ∷ xs) ys = omega (arith, length-append xs ys)

  drop-nil : (n : ℕ) → ◌≡◌ {A = List A} (drop n []) []
  drop-nil zero = refl
  drop-nil (suc n) = refl

  take-nil : (n : ℕ) → ◌≡◌ {A = List A} (take n []) []
  take-nil zero = refl
  take-nil (suc n) = refl

  take-append-drop : (k : ℕ) (xs : List A) → xs ≡ take k xs ++ drop k xs
  take-append-drop zero xs = refl
  take-append-drop (suc k) [] = refl
  take-append-drop (suc k) (x ∷ xs) = ap (λ l. x ∷ l) (take-append-drop k xs)

  -- A list from `start` on, cut `k` places further.
  pub drop-split :
      (start k : ℕ) (xs : List A) → drop start xs ≡ take k (drop start xs) ++ drop (start + k) xs
  drop-split zero k xs = take-append-drop k xs ∙ ap (λ n. take k xs ++ drop n xs) (omega arith)
  drop-split (suc s) k [] = ground (arith, take-nil k, drop-nil (suc s + k))
  drop-split (suc s) k (x ∷ xs) =
      let same : suc (s + k) ≡ suc s + k = omega arith in
      drop-split s k xs ∙ ap (λ n. take k (drop s xs) ++ drop n (x ∷ xs)) same

  -- A list from `start` to `end`, and from `end` on.
  pub drop-between :
      (start end : ℕ) (xs : List A)
      → start ≤ end
      → drop start xs ≡ take (end - start) (drop start xs) ++ drop end xs
  drop-between start end xs le =
      drop-split start (end - start) xs
      ∙ ap (λ n. take (end - start) (drop start xs) ++ drop n xs) (omega (arith, le))

  pub drop-suc :
      (n : ℕ) (xs : List A) (x : A) (rest : List A) → drop n xs ≡ x ∷ rest → drop (suc n) xs ≡ rest
  drop-suc zero [] x rest e = cc
  drop-suc zero (y ∷ xs) x rest e = cc
  drop-suc (suc n) [] x rest e = cc
  drop-suc (suc n) (y ∷ xs) x rest e = drop-suc n xs x rest e

  take_one_more :
      (k : ℕ) (xs : List A) (x : A) (rest : List A)
      → drop k xs ≡ x ∷ rest
      → take (suc k) xs ≡ take k xs ++ (x ∷ [])
  take_one_more zero [] x rest e = cc
  take_one_more zero (y ∷ xs) x rest e = cc
  take_one_more (suc k) [] x rest e = cc
  take_one_more (suc k) (y ∷ xs) x rest e = ap (λ l. y ∷ l) (take_one_more k xs x rest e)

  pub drop-drop : (s k : ℕ) (xs : List A) → drop k (drop s xs) ≡ drop (s + k) xs
  drop-drop zero k xs = ap (λ n. drop n xs) (omega arith)
  drop-drop (suc s) k [] = ground (arith, drop-nil k, drop-nil (suc s + k))
  drop-drop (suc s) k (x ∷ xs) =
      let same : suc (s + k) ≡ suc s + k = omega arith in
      drop-drop s k xs ∙ ap (λ n. drop n (x ∷ xs)) same

  -- One element more between `start` and an end.
  pub take-between_suc :
      (start end : ℕ) (xs : List A) (x : A) (rest : List A)
      → start ≤ end
      → drop end xs ≡ x ∷ rest
      → take (suc end - start) (drop start xs) ≡ take (end - start) (drop start xs) ++ (x ∷ [])
  take-between_suc start end xs x rest le e =
      let steps : suc end - start ≡ suc (end - start) = omega (arith, le) in
      let at : start + (end - start) ≡ end = omega (arith, le) in
      ap (λ k. take k (drop start xs)) steps
      ∙ take_one_more (end - start) (drop start xs) x rest
          (drop-drop start (end - start) xs ∙ ap (λ n. drop n xs) at ∙ e)

  pub append_assoc : (xs ys zs : List A) → (xs ++ ys) ++ zs ≡ xs ++ (ys ++ zs)
  append_assoc [] ys zs = refl
  append_assoc (x ∷ xs) ys zs = ap (λ l. x ∷ l) (append_assoc xs ys zs)

-- A predicate by recursion computes to tuples, which the tactics read and build.
abbrev pub All {ℓ κ} : {A : Type ℓ} → (A → Type κ) → List A → Type κ
All P [] = Unit
All P (x ∷ xs) = P x × All P xs
