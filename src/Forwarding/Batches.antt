-- ===== src/Forwarding/Batches.antt =====
-- cqlparser.go: the prepared data of a batch, and when a batch is refused.
use zdm_proxy.Prelude.{
  ℕ, zero, suc, ◌+◌, ◌<◌, int_eq, nat_eq, eqb, Option, lookup, get_elem?, if◌then◌else◌, ◌≡◌, refl,
  ◌∙◌, ap, ◌⊎◌, inl, inr, true, none, some, is_some, List, [], ◌∷◌, ◌++◌, String, ok, err, arith,
  Option-cases, bytes_eq, All, string_eq,
}
use zdm_proxy.Protocol.{OpCode, ProtocolVersions}
use zdm_proxy.RequestInfo.{PreparedData, batch}
use zdm_proxy.PreparedCache.{PreparedStatementCache, get}
use zdm_proxy.Messages.{
  Codec, Message, BatchChild, BatchMessage, FrameDecodeContext, StatementReplacedTerms, unprepared,
  get_or_decode_frame,
}
use zdm_proxy.Forwarding.Building.{
  Settings, prepared_children, get_prepared_data, build_request_info, build_by_op_code,
  build_batch_info,
}

-- The ids that the children of a batch have.
unfoldable pub child_ids : List BatchChild → List (List ℕ)
child_ids [] = []
child_ids (child ∷ rest) = elim child.id [ none ↦ child_ids rest | some id ↦ id ∷ child_ids rest ]

-- The data that a child at an index should have: the cache's for its id, and none without an id.
abbrev pub data_of : PreparedStatementCache → Option BatchChild → Option PreparedData
data_of psc none = none
data_of psc (some child) = elim child.id [ none ↦ none | some id ↦ get id psc ]

-- The entries, as a map by index, have for each index what the child there should have.
abbrev pub Answers : PreparedStatementCache → List BatchChild → List (ℕ × PreparedData) → Type 0
Answers psc children ds = (i : ℕ) → lookup i ds ≡ data_of psc (get_elem? children i)

-- The same of the children from an index on.
abbrev AnswersFrom : PreparedStatementCache → ℕ → List BatchChild → List (ℕ × PreparedData) → Type 0
AnswersFrom psc start children ds =
    ((i : ℕ) → i < start → lookup i ds ≡ none)
    × ((i : ℕ) → lookup (start + i) ds ≡ data_of psc (get_elem? children i))

at_child :
    (psc : PreparedStatementCache) (start : ℕ) (child : BatchChild) (rest : List BatchChild)
    (ds ds' : List (ℕ × PreparedData))
    → AnswersFrom psc (suc start) rest ds
    → ((i : ℕ) → lookup i ds' ≡ (if eqb start i then data_of psc (some child) else lookup i ds))
    → (i : ℕ) → lookup (start + i) ds' ≡ data_of psc (get_elem? (child ∷ rest) i)
at_child psc start child rest ds ds' (below, from) more zero =
    let here : start + 0 ≡ start = omega arith in
    ap (λ j. lookup j ds') here ∙ ground (arith, more start)
at_child psc start child rest ds ds' (below, from) more (suc i) =
    let later : start + suc i ≡ suc start + i = omega arith in
    more (start + suc i) ∙ ground (arith, from i, ap (λ j. lookup j ds) later)

next_child :
    (psc : PreparedStatementCache) (start : ℕ) (child : BatchChild) (rest : List BatchChild)
    (ds ds' : List (ℕ × PreparedData))
    → AnswersFrom psc (suc start) rest ds
    → ((i : ℕ) → lookup i ds' ≡ (if eqb start i then data_of psc (some child) else lookup i ds))
    → AnswersFrom psc start (child ∷ rest) ds'
next_child psc start child rest ds ds' answers more = (
  λ i lt. ground (arith, lt, more i, answers.0 i),
  at_child psc start child rest ds ds' answers more,
)

abbrev pub Known : PreparedStatementCache → List ℕ → Type 0
Known psc id = is_some (get id psc) ≡ true

-- The first of the ids that the cache does not know.
pub record FirstUnknown (psc : PreparedStatementCache) (ids : List (List ℕ)) (id : List ℕ)
    : Type 0 where
  pub before : List (List ℕ)
  pub after : List (List ℕ)
  pub splits : ids ≡ before ++ (id ∷ after)
  pub known : All (Known psc) before
  pub unknown : get id psc ≡ none

-- One more child with a known id before the others.
one_more_child :
    (psc : PreparedStatementCache) (first id : List ℕ) (ids : List (List ℕ))
    → Known psc first
    → FirstUnknown psc ids id
    → FirstUnknown psc (first ∷ ids) id
one_more_child psc first id ids k u = record {
  before = first ∷ u.before;
  after = u.after;
  splits = ap (λ l. first ∷ l) u.splits;
  known = (k, u.known);
  unknown = u.unknown;
}

Looked : PreparedStatementCache → ℕ → List BatchChild → Type 0
Looked psc i children =
    ((ds : List (ℕ × PreparedData)) × (prepared_children psc i children ≡ ok ds)
      × AnswersFrom psc i children ds)
    ⊎ ((id : List ℕ) × (prepared_children psc i children ≡ err (unprepared id))
        × FirstUnknown psc (child_ids children) id)

prepared_children_lem :
    (psc : PreparedStatementCache) (i : ℕ) (children : List BatchChild) → Looked psc i children
unfolding prepared_children get_prepared_data child_ids Looked lookup
prepared_children_lem psc i [] = inl ([], refl, (λ i lt. refl, λ i. refl))
prepared_children_lem psc i (child ∷ rest) = elim (Option-cases child.id) [
  | inl n ↦ elim (prepared_children_lem psc (suc i) rest) [
    | inl (ds, e, a) ↦ inl (
      ds,
      ground (arith, n, e),
      next_child psc i child rest ds ds a (λ j. ground (arith, n, a.0 j)),
    )
    | inr (other, e, u) ↦ inr (other, ground (arith, n, e), rw (n, child_ids) u)
  ]
  | inr (id, k) ↦ elim (Option-cases (get id psc)) [
    | inl n ↦ inr (
      id,
      ground (arith, k, n),
      rw (k, child_ids)
          (record { before = []; after = child_ids rest; splits = refl; known = tt; unknown = n }),
    )
    | inr (d, g) ↦ elim (prepared_children_lem psc (suc i) rest) [
      | inl (ds, e, a) ↦ inl (
        (i, d) ∷ ds,
        ground (arith, k, g, e),
        next_child psc i child rest ds ((i, d) ∷ ds) a (λ j. ground (arith, k, g)),
      )
      | inr (other, e, u) ↦ inr (
        other,
        ground (arith, k, g, e),
        rw (k, child_ids) (one_more_child psc id other (child_ids rest) (ground (arith, g)) u),
      )
    ]
  ]
]

-- A BATCH frame that decodes is built exactly when the cache knows the id of every child that has
-- one, and then has at the index of each of these the data that the cache has for its id, and nothing at
-- any other index; or else it is refused with the first id that the cache does not know.
pub batch_children :
    (versions : ProtocolVersions) (codec : Codec) (settings : Settings)
    (psc : PreparedStatementCache) (replaced : List StatementReplacedTerms) (current : String)
    (c c' : FrameDecodeContext) (b : BatchMessage)
    → c.frame.header.op_code ≡ OpCode.batch
    → get_or_decode_frame versions codec c ≡ ok (Message.batch b, c')
    → ((ds : List (ℕ × PreparedData)) × (build_request_info versions codec settings psc replaced
            current c
          ≡ ok (batch ds, c'))
        × Answers psc b.children ds)
      ⊎ ((id : List ℕ) × (build_request_info versions codec settings psc replaced current c
            ≡ err (unprepared id))
          × FirstUnknown psc (child_ids b.children) id)
unfolding build_request_info build_batch_info Looked
batch_children versions codec settings psc replaced current c c' b is_batch decoded =
    let as_batch =
      ap (λ op. build_by_op_code versions codec settings psc op replaced current c) is_batch in
    elim (prepared_children_lem psc 0 b.children) [
      | inl (ds, e, a) ↦ inl (
        ds,
        as_batch ∙ ground (arith, decoded, e),
        λ i. let same : i ≡ 0 + i = omega arith in ap (λ j. lookup j ds) same ∙ a.1 i,
      )
      | inr (id, e, u) ↦ inr (id, as_batch ∙ ground (arith, decoded, e), u)
    ]
