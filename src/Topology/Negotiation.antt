-- ===== src/Topology/Negotiation.antt =====
-- controlconn.go: connAndNegotiateProtoVer. What a new connection does in a protocol version is the
-- parameter `attempt`; the loop never tries a version twice.
use zdm_proxy.Prelude.{
  ℕ, zero, suc, ◌+◌, ◌<◌, ◌≡◌, sym, ◌∙◌, ap, subst, true, Option, none, some, List, [], ◌∷◌, eqb,
  eqb_iff, if◌then◌else◌, arith, inl, inr, Bool-cases,
}
use zdm_proxy.Protocol.{ProtocolVersions, InOrder}

-- A connection that cannot be opened, one that the server refuses for its version, one with another
-- error, and one that is ready.
pub data Attempt : Type 0 where
  not_opened unsupported other_error connected : Attempt

-- What the function returns: the error of openConnection, the refusal of the last version, or the
-- new connection in a version, with an error or without.
pub data Negotiated : Type 0 where
  no_connection : Negotiated
  none_supported : ℕ → Negotiated
  failed_in ready_in : ℕ → Negotiated

module _ (versions : ProtocolVersions) where
  open versions use {v2, v3, v4, dse1, dse2}

  unfoldable pub downgrade_protocol : ℕ → ℕ
  downgrade_protocol version =
      if eqb version dse2
      then dse1
      else if eqb version dse1
      then v4
      else if eqb version v4
      then v3
      else if eqb version v3
      then v2
      else 0

  module _ (attempt : ℕ → Attempt) where
    -- The loop, with fuel: `none` when it runs out.
    unfoldable pub conn_and_negotiate_proto_ver : ℕ → ℕ → Option Negotiated
    unfolding downgrade_protocol
    conn_and_negotiate_proto_ver zero version = none
    conn_and_negotiate_proto_ver (suc fuel) version =
        let lower = downgrade_protocol version in
        let again = conn_and_negotiate_proto_ver fuel lower in
        elim (attempt version) [
          | not_opened ↦ some no_connection
          | unsupported ↦ if eqb lower 0 then some (none_supported version) else again
          | other_error ↦ some (failed_in version)
          | connected ↦ some (ready_in version)
        ]

    -- The first of the versions that is not refused, or else the refusal of the last.
    unfoldable pub first_answer : ℕ → List ℕ → Negotiated
    first_answer version [] = elim (attempt version) [
      | not_opened ↦ no_connection
      | unsupported ↦ none_supported version
      | other_error ↦ failed_in version
      | connected ↦ ready_in version
    ]
    first_answer version (lower ∷ others) =
        let below = first_answer lower others in
        elim (attempt version) [
          | not_opened ↦ no_connection
          | unsupported ↦ below
          | other_error ↦ failed_in version
          | connected ↦ ready_in version
        ]

    -- One round.
    last_round :
        (n version : ℕ)
        → downgrade_protocol version ≡ 0
        → conn_and_negotiate_proto_ver (suc n) version ≡ some (first_answer version [])
    unfolding conn_and_negotiate_proto_ver first_answer
    last_round n version d = ground arith

    one_round :
        (n version lower : ℕ) (rest : List ℕ)
        → downgrade_protocol version ≡ lower
        → 0 < lower
        → conn_and_negotiate_proto_ver n lower ≡ some (first_answer lower rest)
        → conn_and_negotiate_proto_ver (suc n) version ≡ some (first_answer version (lower ∷ rest))
    unfolding conn_and_negotiate_proto_ver first_answer
    one_round n version lower rest d p h = ground arith

  -- The versions that the negotiation falls back to, from the highest.
  unfoldable pub versions_below : ℕ → List ℕ
  versions_below version =
      if eqb version dse2
      then dse1 ∷ v4 ∷ v3 ∷ v2 ∷ []
      else if eqb version dse1
      then v4 ∷ v3 ∷ v2 ∷ []
      else if eqb version v4
      then v3 ∷ v2 ∷ []
      else if eqb version v3
      then v2 ∷ []
      else []

  module _ (attempt : ℕ → Attempt) (o : InOrder versions) where
    from_v2 :
        (n : ℕ)
        → conn_and_negotiate_proto_ver attempt (suc n) v2 ≡ some (first_answer attempt v2 [])
    unfolding downgrade_protocol
    from_v2 n = last_round attempt n v2 (ground (arith, o))

    from_v3 :
        (n : ℕ)
        → conn_and_negotiate_proto_ver attempt (suc (suc n)) v3
          ≡ some (first_answer attempt v3 (v2 ∷ []))
    unfolding downgrade_protocol
    from_v3 n = one_round attempt (suc n) v3 v2 [] (ground (arith, o)) o.positive (from_v2 n)

    from_v4 :
        (n : ℕ)
        → conn_and_negotiate_proto_ver attempt (suc (suc (suc n))) v4
          ≡ some (first_answer attempt v4 (v3 ∷ v2 ∷ []))
    unfolding downgrade_protocol
    from_v4 n =
        one_round attempt (suc (suc n)) v4 v3 (v2 ∷ []) (ground (arith, o)) (omega (arith, o))
          (from_v3 n)

    from_dse1 :
        (n : ℕ)
        → conn_and_negotiate_proto_ver attempt (suc (suc (suc (suc n)))) dse1
          ≡ some (first_answer attempt dse1 (v4 ∷ v3 ∷ v2 ∷ []))
    unfolding downgrade_protocol
    from_dse1 n =
        one_round attempt (suc (suc (suc n))) dse1 v4 (v3 ∷ v2 ∷ []) (ground (arith, o))
          (omega (arith, o)) (from_v4 n)

    from_dse2 :
        (n : ℕ)
        → conn_and_negotiate_proto_ver attempt (suc (suc (suc (suc (suc n))))) dse2
          ≡ some (first_answer attempt dse2 (dse1 ∷ v4 ∷ v3 ∷ v2 ∷ []))
    unfolding downgrade_protocol
    from_dse2 n =
        one_round attempt (suc (suc (suc (suc n)))) dse2 dse1 (v4 ∷ v3 ∷ v2 ∷ [])
          (ground (arith, o)) (omega (arith, o)) (from_dse1 n)

    -- The list that a version falls back to, in place of the one it has been proved for.
    with_list :
        (fuel version : ℕ) (rest : List ℕ)
        → versions_below version ≡ rest
        → conn_and_negotiate_proto_ver attempt fuel version
          ≡ some (first_answer attempt version rest)
        → (initial : ℕ) → eqb initial version ≡ true
        → conn_and_negotiate_proto_ver attempt fuel initial
          ≡ some (first_answer attempt initial (versions_below initial))
    with_list fuel version rest b h initial e =
        subst
          (λ i.
            conn_and_negotiate_proto_ver attempt fuel i
            ≡ some (first_answer attempt i (versions_below i)))
          (sym ((eqb_iff initial version).0 e))
          (h ∙ ap (λ l. some (first_answer attempt version l)) (sym b))

    five_rounds :
        (n initial : ℕ)
        → conn_and_negotiate_proto_ver attempt (suc (suc (suc (suc (suc n))))) initial
          ≡ some (first_answer attempt initial (versions_below initial))
    unfolding versions_below downgrade_protocol
    five_rounds n initial = elim (Bool-cases (eqb initial dse2)) [
      | inl e2 ↦ with_list _ dse2 _ (ground (arith, o)) (from_dse2 n) initial e2
      | inr n2 ↦ elim (Bool-cases (eqb initial dse1)) [
        | inl e1 ↦ with_list _ dse1 _ (ground (arith, o)) (from_dse1 (suc n)) initial e1
        | inr n1 ↦ elim (Bool-cases (eqb initial v4)) [
          | inl e4 ↦ with_list _ v4 _ (ground (arith, o)) (from_v4 (suc (suc n))) initial e4
          | inr n4 ↦ elim (Bool-cases (eqb initial v3)) [
            | inl e3 ↦ with_list _ v3 _ (ground (arith, o)) (from_v3 (suc (suc (suc n)))) initial e3
            | inr n3 ↦
                last_round attempt _ initial (ground (arith, n2, n1, n4, n3))
                ∙ ap (λ l. some (first_answer attempt initial l)) (ground (arith, n2, n1, n4, n3))
          ]
        ]
      ]
    ]

    -- With the versions' numbers in the protocol's order, five rounds are enough: from any initial
    -- version the negotiation ends, and its result is that of the first version, in the order from
    -- the initial one down, that the server does not refuse.
    pub negotiation :
        (n initial : ℕ)
        → conn_and_negotiate_proto_ver attempt (5 + n) initial
          ≡ some (first_answer attempt initial (versions_below initial))
    negotiation n initial =
        ap (λ fuel. conn_and_negotiate_proto_ver attempt fuel initial) (omega arith)
        ∙ five_rounds n initial
