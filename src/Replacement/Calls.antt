-- ===== src/Replacement/Calls.antt =====
-- queryinspector.go: the calls of now() among the terms of a statement.
use zdm_proxy.Prelude.{
  ◌≡◌, refl, ap, Bool, false, none, some, List, [], ◌∷◌, ◌++◌, if◌then◌else◌, arith,
}
use zdm_proxy.Query.{Term, is_now, ParsedStatement}

-- The terms that are calls of now().
abbrev pub calls_now : Term → Bool
calls_now t = elim t.function_call [ none ↦ false | some f ↦ is_now f ]

unfoldable pub now_terms : List Term → List Term
now_terms [] = []
now_terms (t ∷ terms) = let rest = now_terms terms in if calls_now t then t ∷ rest else rest

unfoldable pub all_terms : List ParsedStatement → List Term
all_terms [] = []
all_terms (s ∷ statements) = s.terms ++ all_terms statements

pub append-nil {ℓ} : {A : Type ℓ} (xs : List A) → xs ++ [] ≡ xs
append-nil [] = refl
append-nil (x ∷ xs) = ap (λ l. x ∷ l) (append-nil xs)

pub now_terms-append : (us vs : List Term) → now_terms (us ++ vs) ≡ now_terms us ++ now_terms vs
unfolding now_terms
now_terms-append [] vs = refl
now_terms-append (u ∷ us) vs = ground (arith, now_terms-append us vs)
