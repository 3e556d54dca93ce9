-- ===== src/Config/Text.antt =====
-- config.go: the parts of a setting with commas.
use Prim.Native.Char.{Char, code}
use Prim.Native.String as Native
use text.Mathlib.TextLemmas.{nil-append, cons-append}
use text.Mathlib.TextEquality.{Char-path}
use zdm_proxy.Prelude.{
  ◌≡◌, ◌⊎◌, refl, ap, sym, ◌∙◌, false, List, [], ◌∷◌, String, eqb, length, leb, arith, inl, inr,
  Bool-cases,
}
use zdm_proxy.Config.{without_spaces, split_commas, parse_contact_points}

abbrev pub comma : Char
comma = ","

-- strings.Join(parts, ",")
abbrev pub join_commas : List String → String
join_commas [] = ""
join_commas (part ∷ []) = part
join_commas (part ∷ next ∷ parts) = Native.◌++◌ part (String.◌∷◌ comma (join_commas (next ∷ parts)))

list_cases :
    (l : List String) → (l ≡ []) ⊎ ((part : String) × (parts : List String) × (l ≡ part ∷ parts))
list_cases [] = inl refl
list_cases (part ∷ parts) = inr (part, parts, refl)

join_longer :
    (c : Char) (part : String) (parts : List String)
    → join_commas (String.◌∷◌ c part ∷ parts) ≡ String.◌∷◌ c (join_commas (part ∷ parts))
join_longer c part [] = refl
join_longer c part (next ∷ parts) =
    cons-append c part (String.◌∷◌ comma (join_commas (next ∷ parts)))

pub split-some :
    (s : String) → (part : String) × (parts : List String) × (split_commas s ≡ part ∷ parts)
unfolding split_commas
split-some String.[] = ("", [], refl)
split-some (String.◌∷◌ c s) =
    let (part, parts, e) = split-some s in
    elim (Bool-cases (eqb (code c) 44)) [
      | inl h ↦ ("", split_commas s, ground (arith, h))
      | inr h ↦ (String.◌∷◌ c part, parts, ground (arith, h, e))
    ]

pub join-split : (s : String) → join_commas (split_commas s) ≡ s
unfolding split_commas
join-split String.[] = refl
join-split (String.◌∷◌ c s) =
    let (part, parts, e) = split-some s in
    let back : join_commas (part ∷ parts) ≡ s = sym (ap join_commas e) ∙ join-split s in
    elim (Bool-cases (eqb (code c) 44)) [
      | inl h ↦
          let now : split_commas (String.◌∷◌ c s) ≡ "" ∷ part ∷ parts = ground (arith, h, e) in
          let same : comma ≡ c = Char-path comma c (ground (arith, h)) in
          ap join_commas now
          ∙ nil-append (String.◌∷◌ comma (join_commas (part ∷ parts)))
          ∙ (ap (λ d. String.◌∷◌ d (join_commas (part ∷ parts))) same ∙ ap (String.◌∷◌ c) back)
      | inr h ↦
          let now : split_commas (String.◌∷◌ c s) ≡ String.◌∷◌ c part ∷ parts =
            ground (arith, h, e) in
          ap join_commas now ∙ (join_longer c part parts ∙ ap (String.◌∷◌ c) back)
    ]

-- The contact points of a setting, joined again with commas, are the setting without its spaces; there is
-- always at least one, which may be empty.
pub contact_points_joined :
    (setting : String)
    → (join_commas (parse_contact_points setting) ≡ without_spaces setting)
      × (leb (length (parse_contact_points setting)) 0 ≡ false)
unfolding parse_contact_points
contact_points_joined setting =
    let (part, parts, e) = split-some (without_spaces setting) in
    (join-split (without_spaces setting), ground (arith, e))
