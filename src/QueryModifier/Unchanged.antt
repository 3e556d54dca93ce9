-- ===== src/QueryModifier/Unchanged.antt =====
-- querymodifier.go: what a replacement leaves as it is.
use zdm_proxy.Prelude.{
  ℕ, zero, suc, ◌≡◌, refl, ap, ◌∙◌, sym, ◌⊎◌, Option, none, some, Option-cases, inl, inr, List, [],
  ◌∷◌, String, ok, Result-cases, arith,
}
use zdm_proxy.Query.{Term}
use zdm_proxy.Messages.{
  Message, BatchChild, BatchMessage, StatementQueryData, StatementReplacedTerms, Value,
}
use zdm_proxy.QueryModifier.{
  set_child_query, set_child_queries, replace_query_in_batch_message, replace_statements_of_batch,
  terms_only,
}

list_cases {ℓ} :
    {A : Type ℓ} (xs : List A) → (xs ≡ []) ⊎ ((x : A) × (rest : List A) × (xs ≡ x ∷ rest))
list_cases [] = inl refl
list_cases (x ∷ xs) = inr (x, xs, refl)

-- What a batch's children have beside their queries.
unfoldable pub ids_and_values : List BatchChild → List (Option (List ℕ) × List Value)
ids_and_values [] = []
ids_and_values (c ∷ children) = (c.id, c.values) ∷ ids_and_values children

set_child_keeps :
    (i : ℕ) (query : List ℕ) (children out : List BatchChild)
    → set_child_query i query children ≡ some out
    → ids_and_values out ≡ ids_and_values children
unfolding set_child_query ids_and_values
set_child_keeps i query [] out h = absurd (ground (arith, h))
set_child_keeps zero query (c ∷ children) out h =
    let e : record c { query = query } ∷ children ≡ out = ground (arith, h) in
    ap ids_and_values (sym e)
set_child_keeps (suc i) query (c ∷ children) out h =
    elim (Option-cases (set_child_query i query children)) [
      | inl n ↦ absurd (ground (arith, h, n))
      | inr (cs, n) ↦
          let e : c ∷ cs ≡ out = ground (arith, h, n) in
          ap ids_and_values (sym e)
          ∙ ap (λ l. (c.id, c.values) ∷ l) (set_child_keeps i query children cs n)
    ]

set_children_keep :
    (rs : List (StatementQueryData × Option (List Term))) (children out : List BatchChild)
    → set_child_queries rs children ≡ ok out
    → ids_and_values out ≡ ids_and_values children
unfolding set_child_queries
set_children_keep [] children out h = ap ids_and_values (ground (arith, h))
set_children_keep ((d, none) ∷ rs) children out h = set_children_keep rs children out h
set_children_keep ((d, some terms) ∷ rs) children out h =
    elim (Option-cases (set_child_query d.statement_index d.query_data.query children)) [
      | inl n ↦ absurd (ground (arith, h, n))
      | inr (cs, n) ↦
          set_children_keep rs cs out (ground (arith, h, n))
          ∙ set_child_keeps d.statement_index d.query_data.query children cs n
    ]

module _ {S : Type 0} (bytes : String → List ℕ) (get_time_uuid : S → String × S) where
  -- A batch that goes through the modifier stays a batch with as many children in the same order, each
  -- with its prepared id and its values, and with the same options: only queries change.
  pub batch_keeps_ids_and_values :
      (b : BatchMessage) (statements statements' : List StatementQueryData) (s : S) (m : Message)
      (terms : List StatementReplacedTerms)
      → (replace_query_in_batch_message bytes get_time_uuid (Message.batch b) statements s).1
        ≡ ok (m, terms, statements')
      → (b' : BatchMessage) × (m ≡ Message.batch b')
        × (ids_and_values b'.children ≡ ids_and_values b.children)
        × (b'.options ≡ b.options)
  unfolding replace_query_in_batch_message
  batch_keeps_ids_and_values b statements statements' s m terms h =
      elim (Result-cases (replace_statements_of_batch bytes get_time_uuid statements s).1) [
        | inr (x, k) ↦ absurd (ground (arith, h, k))
        | inl (rs, k) ↦ elim (list_cases (terms_only rs)) [
          | inl none_replaced ↦
              let same : Message.batch b ≡ m = ground (arith, h, k, none_replaced) in
              (b, sym same, refl, refl)
          | inr (t, ts, some_replaced) ↦ elim (Result-cases (set_child_queries rs b.children)) [
            | inr (x, l) ↦ absurd (ground (arith, h, k, some_replaced, l))
            | inl (cs, l) ↦
                let changed : Message.batch (record b { children = cs }) ≡ m =
                  ground (arith, h, k, some_replaced, l) in
                (
                  record b { children = cs },
                  sym changed,
                  set_children_keep rs b.children cs l,
                  refl,
                )
          ]
        ]
      ]
