-- ===== src/StreamIds/Counts.antt =====
-- How often an id stands in a channel or among the keys of a map.
use zdm_proxy.Prelude.{
  ℕ, suc, ◌+◌, ◌≤◌, ◌≡◌, refl, Bool, true, false, none, some, List, [], ◌∷◌, ◌++◌, arith, length,
  ◌==◌, nat_eq, if◌then◌else◌, lookup, insert, delete,
}

abbrev pub one_if : Bool → ℕ
one_if true = 1
one_if false = 0

unfoldable pub occurs : ℕ → List ℕ → ℕ
occurs i [] = 0
occurs i (j ∷ js) = one_if (j == i) + occurs i js

pub occurs-append : (i : ℕ) (xs ys : List ℕ) → occurs i (xs ++ ys) ≡ occurs i xs + occurs i ys
unfolding occurs
occurs-append i [] ys = omega arith
occurs-append i (x ∷ xs) ys = omega (arith, occurs-append i xs ys)

module _ {ℓ} {V : Type ℓ} where
  unfoldable pub key_occurs : ℕ → List (ℕ × V) → ℕ
  key_occurs i [] = 0
  key_occurs i ((j, v) ∷ m) = one_if (j == i) + key_occurs i m

module _ {ℓ} {V : Type ℓ} where
  pub key_occurs-append :
      (i : ℕ) (xs ys : List (ℕ × V)) → key_occurs i (xs ++ ys) ≡ key_occurs i xs + key_occurs i ys
  unfolding key_occurs
  key_occurs-append i [] ys = omega arith
  key_occurs-append i ((j, v) ∷ xs) ys = omega (arith, key_occurs-append i xs ys)

  pub lookup_of_absent : (i : ℕ) (m : List (ℕ × V)) → key_occurs i m ≡ 0 → lookup i m ≡ none
  unfolding key_occurs lookup
  lookup_of_absent i [] h = refl
  lookup_of_absent i ((j, v) ∷ m) h = ground (arith, lookup_of_absent i m)

  pub key_occurs_of_lookup :
      (i : ℕ) (m : List (ℕ × V)) (v : V) → lookup i m ≡ some v → 1 ≤ key_occurs i m
  unfolding key_occurs lookup
  key_occurs_of_lookup i [] v h = ground arith
  key_occurs_of_lookup i ((j, w) ∷ m) v h = ground (arith, key_occurs_of_lookup i m v)

  pub key_occurs-insert :
      (k : ℕ) (v : V) (j : ℕ) (m : List (ℕ × V))
      → lookup k m ≡ none
      → key_occurs j (insert k v m) ≡ one_if (k == j) + key_occurs j m
  unfolding key_occurs lookup insert
  key_occurs-insert k v j [] h = refl
  key_occurs-insert k v j ((i, w) ∷ m) h = ground (arith, key_occurs-insert k v j m)

  pub length-insert :
      (k : ℕ) (v : V) (m : List (ℕ × V))
      → lookup k m ≡ none
      → length (insert k v m) ≡ suc (length m)
  unfolding lookup insert
  length-insert k v [] h = refl
  length-insert k v ((i, w) ∷ m) h = ground (arith, length-insert k v m)

  pub key_occurs-delete :
      (k j : ℕ) (m : List (ℕ × V))
      → key_occurs j (delete k m) ≡ (if k == j then 0 else key_occurs j m)
  unfolding key_occurs delete
  key_occurs-delete k j [] = ground arith
  key_occurs-delete k j ((i, w) ∷ m) = ground (arith, key_occurs-delete k j m)

  pub length-delete : (k : ℕ) (m : List (ℕ × V)) → length (delete k m) + key_occurs k m ≡ length m
  unfolding key_occurs delete
  length-delete k [] = refl
  length-delete k ((i, w) ∷ m) = ground (arith, length-delete k m)
