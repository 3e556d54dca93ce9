-- ===== src/Parameters/Uuids.antt =====
-- parametermodifier.go: the generated uuids.
use zdm_proxy.Prelude.{
  ◌≡◌, refl, inl, inr, true, Bool-cases, some, List, [], ◌∷◌, string_eq, length, arith, All,
}
use zdm_proxy.Query.{Term, is_function_call}
use zdm_proxy.Parameters.{Uuid, is_now_call, generate_time_uuids}
use zdm_proxy.Parameters.Positional.{count_now}

-- Terms that are all function calls, as the replaced terms of a statement are.
abbrev pub AllCalls : List Term → Type 0
AllCalls terms = All (λ t. is_function_call t ≡ true) terms

-- For terms that are all function calls, one uuid is generated for each call of now().
pub uuids_for_calls :
    {S : Type 0} (get_time_uuid : S → Uuid × S) (terms : List Term) (s : S)
    → AllCalls terms
    → (us : List Uuid) × (s' : S) × (generate_time_uuids get_time_uuid terms s ≡ some (us, s'))
      × (length us ≡ count_now terms)
unfolding generate_time_uuids count_now is_now_call
uuids_for_calls get_time_uuid [] s a = ([], s, refl, refl)
uuids_for_calls get_time_uuid (t ∷ terms) s (a, rest) = elim (Bool-cases (is_now_call t)) [
  | inl now ↦
      let (us, s', e, n) = uuids_for_calls get_time_uuid terms (get_time_uuid s).1 rest in
      ((get_time_uuid s).0 ∷ us, s', ground (arith, a, now, e), ground (arith, now, n))
  | inr other ↦
      let (us, s', e, n) = uuids_for_calls get_time_uuid terms s rest in
      (us, s', ground (arith, a, other, e), ground (arith, other, n))
]
