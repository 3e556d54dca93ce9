-- ===== src/Replacement/Rewriting.antt =====
-- queryinspector.go: the statement outside the calls of now() stays as it is.
use zdm_proxy.Prelude.{
  ℕ, ◌+◌, ◌-◌, ◌≤◌, ◌≡◌, refl, sym, ap, ◌∙◌, subst, inl, inr, true, false, Bool-cases, some,
  Option-cases, List, [], ◌∷◌, ◌++◌, append_assoc, String, leb, length, take, drop, arith,
}
use zdm_proxy.Query.{Term, FunctionCall, is_now, ParsedStatement, QueryInfo}
use zdm_proxy.Replacement.{
  Replacement, Progress, text_of, write, is_replacement, note_markers, replace_call, replace_term,
  replace_terms, replace_statements, at_start, replace_function_calls,
}
use zdm_proxy.Replacement.Calls.{calls_now, now_terms, all_terms, append-nil, now_terms-append}

module _ {S : Type 0} (bytes : String → List ℕ) (replacement : FunctionCall → S → S × Replacement)
    (query : List ℕ) where
  -- The query from `i` on, rewritten up to `j`: the terms' calls give way to texts, and what stands
  -- between them is copied.
  pub data Rewrites : ℕ → List Term → List ℕ → ℕ → Type 0 where
    finished : {i : ℕ} → Rewrites i [] [] i
    edits :
        {i j : ℕ} {terms : List Term} {out : List ℕ} (t : Term) (f : FunctionCall) (r : Replacement)
        → t.function_call ≡ some f
        → i ≤ f.start_index
        → f.start_index ≤ length query
        → Rewrites (f.stop_index + 1) terms out j
        → Rewrites i
            (t ∷ terms)
            (take (f.start_index - i) (drop i query) ++ (text_of bytes replacement query r ++ out))
            j

  -- How one part of the loop moves on.
  record Moves (terms : List Term) (p p' : Progress S) : Type 0 where
    out : List ℕ
    rewrites : Rewrites p.next (now_terms terms) out p'.next
    results : p'.result ≡ p.result ++ out
    replaced : p'.replaced_terms ≡ p.replaced_terms ++ now_terms terms

  -- The function replaces the calls of now() and no others.
  abbrev pub OnlyNow : Type 0
  OnlyNow =
      (f : FunctionCall) (s : S)
      → is_replacement bytes replacement query (replacement f s).1 ≡ is_now f

  -- A term that is no call of now() moves nothing.
  nothing-Moves :
      (t : Term) (p p' : Progress S)
      → calls_now t ≡ false
      → p'.next ≡ p.next
      → p'.result ≡ p.result
      → p'.replaced_terms ≡ p.replaced_terms
      → Moves (t ∷ []) p p'
  unfolding now_terms
  nothing-Moves t p p' other n res rep =
      let listed : now_terms (t ∷ []) ≡ [] = ground (arith, other) in
      record {
        out = [];
        rewrites =
            subst (λ ts. Rewrites p.next ts [] p'.next) (sym listed)
              (subst (λ j. Rewrites p.next [] [] j) (sym n) finished);
        results = res ∙ sym (append-nil p.result);
        replaced =
            rep ∙ sym (append-nil p.replaced_terms) ∙ ap (λ l. p.replaced_terms ++ l) (sym listed);
      }

  call-Moves :
      (t : Term) (f : FunctionCall) (p : Progress S) (r : Term × Progress S)
      → OnlyNow
      → t.function_call ≡ some f
      → replace_call bytes replacement query t f p ≡ some r
      → Moves (t ∷ []) p r.1
  unfolding replace_call write now_terms
  call-Moves t f p r only e h = elim (Bool-cases (is_now f)) [
    | inl now ↦
        let x = (replacement f p.generator).1 in
        let is_x : is_replacement bytes replacement query x ≡ true = only f p.generator ∙ now in
        let from : p.next ≤ f.start_index = ground (arith, h, is_x) in
        let within : f.start_index ≤ length query = ground (arith, h, is_x) in
        let moved : r.1.next ≡ f.stop_index + 1 = ground (arith, h, is_x) in
        let plain : List ℕ = take (f.start_index - p.next) (drop p.next query) in
        let text : List ℕ = text_of bytes replacement query x in
        let result : r.1.result ≡ p.result ++ (plain ++ text) = ground (arith, h, is_x) in
        let listed : now_terms (t ∷ []) ≡ t ∷ [] = ground (arith, e, now) in
        record {
          out = plain ++ (text ++ []);
          rewrites =
              subst (λ ts. Rewrites p.next ts (plain ++ (text ++ [])) r.1.next) (sym listed)
                (subst (λ j. Rewrites p.next (t ∷ []) (plain ++ (text ++ [])) j) (sym moved)
                  (edits t f x e from within finished));
          results = result ∙ ap (λ l. p.result ++ (plain ++ l)) (sym (append-nil text));
          replaced = ground (arith, h, is_x) ∙ ap (λ l. p.replaced_terms ++ l) (sym listed);
        }
    | inr other ↦
        let none_x : is_replacement bytes replacement query (replacement f p.generator).1 ≡ false =
          only f p.generator ∙ other in
        nothing-Moves t p r.1 (ground (arith, e, other)) (ground (arith, h, none_x))
          (ground (arith, h, none_x)) (ground (arith, h, none_x))
  ]

  note-Moves :
      (terms : List Term) (p : Progress S) (r : Term × Progress S)
      → Moves terms p r.1
      → Moves terms p (note_markers bytes replacement query r).1
  note-Moves terms p (u, q) m =
      let r' = note_markers bytes replacement query (u, q) in
      let n : r'.1.next ≡ q.next = ground arith in
      record {
        out = m.out;
        rewrites = subst (λ j. Rewrites p.next (now_terms terms) m.out j) (sym n) m.rewrites;
        results = ground arith ∙ m.results;
        replaced = ground arith ∙ m.replaced;
      }

  term-Moves :
      (t : Term) (p : Progress S) (r : Term × Progress S)
      → OnlyNow
      → replace_term bytes replacement query t p ≡ some r
      → Moves (t ∷ []) p r.1
  unfolding replace_term
  term-Moves t p r only h = elim (Option-cases t.function_call) [
    | inl e ↦
        let same : note_markers bytes replacement query (t, p) ≡ r = ground (arith, h, e) in
        subst (λ (x : Term × Progress S). Moves (t ∷ []) p x.1) same
          (note-Moves (t ∷ []) p (t, p) (nothing-Moves t p p (ground (arith, e)) refl refl refl))
    | inr (f, e) ↦ elim (Option-cases (replace_call bytes replacement query t f p)) [
      | inl k ↦ absurd (ground (arith, h, e, k))
      | inr (x, k) ↦
          let same : note_markers bytes replacement query x ≡ r = ground (arith, h, e, k) in
          subst (λ (y : Term × Progress S). Moves (t ∷ []) p y.1) same
            (note-Moves (t ∷ []) p x (call-Moves t f p x only e k))
    ]
  ]

  Rewrites-append :
      {i j k : ℕ} {us vs : List Term} {o1 o2 : List ℕ}
      → Rewrites i us o1 j
      → Rewrites j vs o2 k
      → Rewrites i (us ++ vs) (o1 ++ o2) k
  Rewrites-append finished b = b
  Rewrites-append {i} {k = k} {vs = vs} {o2 = o2}
        (edits {terms = terms} {out = out} t f r e from within a) b =
      let plain : List ℕ = take (f.start_index - i) (drop i query) in
      let text : List ℕ = text_of bytes replacement query r in
      let assoc : plain ++ (text ++ (out ++ o2)) ≡ (plain ++ (text ++ out)) ++ o2 =
        ap (λ l. plain ++ l) (sym (append_assoc text out o2))
        ∙ sym (append_assoc plain (text ++ out) o2) in
      subst (λ o. Rewrites i (t ∷ (terms ++ vs)) o k) assoc
        (edits t f r e from within (Rewrites-append a b))

  both_move :
      (us vs : List Term) (p q r : Progress S) → Moves us p q → Moves vs q r → Moves (us ++ vs) p r
  both_move us vs p q r a b = record {
    out = a.out ++ b.out;
    rewrites =
        subst (λ ts. Rewrites p.next ts (a.out ++ b.out) r.next) (sym (now_terms-append us vs))
          (Rewrites-append a.rewrites b.rewrites);
    results = b.results ∙ ap (λ l. l ++ b.out) a.results ∙ append_assoc p.result a.out b.out;
    replaced =
        b.replaced
        ∙ ap (λ l. l ++ now_terms vs) a.replaced
        ∙ append_assoc p.replaced_terms (now_terms us) (now_terms vs)
        ∙ ap (λ l. p.replaced_terms ++ l) (sym (now_terms-append us vs));
  }

  empty-Moves : (p : Progress S) → Moves [] p p
  unfolding now_terms
  empty-Moves p = record {
    out = [];
    rewrites = finished;
    results = sym (append-nil p.result);
    replaced = sym (append-nil p.replaced_terms);
  }

  terms_move :
      (terms : List Term) (p : Progress S) (r : List Term × Progress S)
      → OnlyNow
      → replace_terms bytes replacement query terms p ≡ some r
      → Moves terms p r.1
  unfolding replace_terms
  terms_move [] p r only h = subst (λ q. Moves [] p q) (ground (arith, h)) (empty-Moves p)
  terms_move (t ∷ terms) p r only h =
      elim (Option-cases (replace_term bytes replacement query t p)) [
        | inl k ↦ absurd (ground (arith, h, k))
        | inr (x, k) ↦ elim (Option-cases (replace_terms bytes replacement query terms x.1)) [
          | inl l ↦ absurd (ground (arith, h, k, l))
          | inr (y, l) ↦
              subst (λ q. Moves (t ∷ terms) p q) (ground (arith, h, k, l))
                (both_move (t ∷ []) terms p x.1 y.1 (term-Moves t p x only k)
                  (terms_move terms x.1 y only l))
        ]
      ]

  statements_move :
      (statements : List ParsedStatement) (p : Progress S) (r : List ParsedStatement × Progress S)
      → OnlyNow
      → replace_statements bytes replacement query statements p ≡ some r
      → Moves (all_terms statements) p r.1
  unfolding replace_statements all_terms
  statements_move [] p r only h = subst (λ q. Moves [] p q) (ground (arith, h)) (empty-Moves p)
  statements_move (s ∷ statements) p r only h =
      elim (Option-cases (replace_terms bytes replacement query s.terms p)) [
        | inl k ↦ absurd (ground (arith, h, k))
        | inr (x, k) ↦
            elim (Option-cases (replace_statements bytes replacement query statements x.1)) [
              | inl l ↦ absurd (ground (arith, h, k, l))
              | inr (y, l) ↦
                  subst (λ q. Moves (s.terms ++ all_terms statements) p q) (ground (arith, h, k, l))
                    (both_move s.terms (all_terms statements) p x.1 y.1
                      (terms_move s.terms p x only k) (statements_move statements x.1 y only l))
            ]
      ]

module _ {S : Type 0} (bytes : String → List ℕ)
    (replacement : FunctionCall → S → S × Replacement) where
  -- For a function that replaces the calls of now() and no others, the new query is the old one with
  -- a text in the place of each call of now() and with everything between the calls, before them and
  -- after them unchanged; the terms that are reported are those calls, in order, and the new query
  -- is marked as having none.
  pub now_calls_replaced :
      (q q' : QueryInfo) (s s' : S) (replaced : List Term)
      → OnlyNow bytes replacement q.query
      → q.now_function_calls ≡ true
      → replace_function_calls bytes replacement q s ≡ some (q', replaced, s')
      → (replaced ≡ now_terms (all_terms q.parsed_statements))
        × (q'.now_function_calls ≡ false)
        × ((out : List ℕ) × (j : ℕ) × Rewrites bytes replacement q.query 0 replaced out j
            × (q'.query ≡ out ++ drop j q.query))
  unfolding replace_function_calls
  now_calls_replaced q q' s s' replaced only has h =
      elim (Option-cases
        (replace_statements bytes replacement q.query q.parsed_statements (at_start s))) [
          | inl k ↦ absurd (ground (arith, h, has, k))
          | inr (r, k) ↦
              let m =
                statements_move bytes replacement q.query q.parsed_statements (at_start s) r only
                  k in
              let ended : leb r.1.next (length q.query) ≡ true = ground (arith, h, has, k) in
              let told : r.1.replaced_terms ≡ replaced = ground (arith, h, has, k, ended) in
              let text : r.1.result ++ drop r.1.next q.query ≡ q'.query =
                ground (arith, h, has, k, ended) in
              let all : replaced ≡ now_terms (all_terms q.parsed_statements) =
                sym told ∙ m.replaced in
              (
                all,
                ground (arith, h, has, k, ended),
                (
                  m.out,
                  r.1.next,
                  subst (λ ts. Rewrites bytes replacement q.query 0 ts m.out r.1.next) (sym all)
                      m.rewrites,
                  sym text ∙ ap (λ o. o ++ drop r.1.next q.query) m.results,
                ),
              )
        ]
