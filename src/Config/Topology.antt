-- ===== src/Config/Topology.antt =====
-- config.go: what an accepted topology promises.
use zdm_proxy.Prelude.{
  map, none, true, ◌==◌, Option-cases, Bool-cases, if◌then◌else◌, ℕ, zero, suc, sym, ◌≤◌, ◌<◌, ◌≡◌,
  refl, ap, ◌∙◌, Option, some, List, [], ◌∷◌, ℤ, pos, negsuc, int_eq, String, string_eq, length,
  get_elem?, ok, arith, inl, inr, Result-cases,
}
use zdm_proxy.Config.{
  lookup_first_ip4, parse_contact_points, parse_addresses, is_defined, is_not_defined,
  TopologyConfig, proxy_addresses, checked_topology, parse_topology_config,
}

found_below : (l : List (List ℕ)) (i : ℕ) → i < length l → (a : List ℕ) × (get_elem? l i ≡ some a)
found_below [] i h = absurd (omega (arith, h))
found_below (a ∷ l) zero h = (a, refl)
found_below (b ∷ l) (suc i) h = found_below l i (omega (arith, h))

abbrev InRange : ℤ → ℤ → TopologyConfig → Type 0
InRange index num_tokens t =
    (index ≡ pos t.index)
    × (num_tokens ≡ pos t.num_tokens)
    × (t.count ≡ length t.addresses)
    × (1 ≤ t.num_tokens)
    × (t.num_tokens ≤ 256)
    × ((a : List ℕ) × (get_elem? t.addresses t.index ≡ some a))

checked-InRange :
    (addresses : List (List ℕ)) (index num_tokens : ℤ) (t : TopologyConfig)
    → checked_topology addresses index num_tokens ≡ ok t
    → InRange index num_tokens t
unfolding checked_topology
checked-InRange addresses (negsuc n) num_tokens t e = absurd (ground (arith, e))
checked-InRange addresses (pos i) (negsuc n) t e = absurd (ground (arith, e))
checked-InRange addresses (pos i) (pos n) t e =
    let same : (t.index ≡ i)
        × (t.num_tokens ≡ n)
        × (t.count ≡ length addresses)
        × (t.addresses ≡ addresses) =
      ground (arith, e) in
    let bound : (i < length addresses) × (1 ≤ n) × (n ≤ 256) = ground (arith, e) in
    let (i', n', c', l') = same in
    let (a, at) = found_below addresses i bound.0 in
    (
      ap pos (sym i'),
      ap pos (sym n'),
      c' ∙ ap length (sym l'),
      omega (arith, bound, n'),
      omega (arith, bound, n'),
      (a, ap (λ l. get_elem? l t.index) l' ∙ (ap (get_elem? addresses) i' ∙ at)),
    )

checked_addresses :
    (addresses : List (List ℕ)) (index num_tokens : ℤ) (t : TopologyConfig)
    → checked_topology addresses index num_tokens ≡ ok t
    → t.addresses ≡ addresses
unfolding checked_topology
checked_addresses addresses (negsuc n) num_tokens t e = absurd (ground (arith, e))
checked_addresses addresses (pos i) (negsuc n) t e = absurd (ground (arith, e))
checked_addresses addresses (pos i) (pos n) t e = ground (arith, e)

module _ (parse_ip : String → Option (List ℕ))
    (lookup_ip : String → Option (List (Option (List ℕ)))) where
  -- The address of a proxy without others: what its own listen address is resolved to, or the loopback
  -- address.
  abbrev pub address_alone : String → List ℕ
  address_alone listen_address =
      if listen_address == ""
      then 127 ∷ 0 ∷ 0 ∷ 1 ∷ []
      else elim (lookup_first_ip4 parse_ip lookup_ip listen_address) [
        | none ↦ 127 ∷ 0 ∷ 0 ∷ 1 ∷ []
        | some a ↦ a
      ]

  -- The proxies' addresses by the settings: one for each name, in order.
  abbrev pub addresses_given : String → String → List (Option (List ℕ))
  addresses_given topology_addresses listen_address =
      if topology_addresses == ""
      then some (address_alone listen_address) ∷ []
      else map parse_ip (parse_contact_points topology_addresses)

  parse_addresses_lem :
      (names : List String) (addresses : List (List ℕ))
      → parse_addresses parse_ip lookup_ip names ≡ ok addresses
      → map some addresses ≡ map parse_ip names
  unfolding parse_addresses
  parse_addresses_lem [] addresses h =
      let is : [] ≡ addresses = ground (arith, h) in ap (map some) (sym is)
  parse_addresses_lem (n ∷ names) addresses h = elim (Option-cases (parse_ip n)) [
    | inl bad ↦ absurd (ground (arith, h, bad))
    | inr (a, good) ↦ elim (Result-cases (parse_addresses parse_ip lookup_ip names)) [
      | inr (e, bad) ↦ absurd (ground (arith, h, good, bad))
      | inl (l, e) ↦
          let is : a ∷ l ≡ addresses = ground (arith, h, good, e) in
          ap (map some) (sym is)
          ∙ (ap (λ x. x ∷ map some l) (sym good)
              ∙ ap (λ m. parse_ip n ∷ m) (parse_addresses_lem names l e))
    ]
  ]

  alone_lem :
      (topology_addresses listen_address : String)
      → (topology_addresses == "") ≡ true
      → proxy_addresses parse_ip lookup_ip topology_addresses listen_address
        ≡ ok (address_alone listen_address ∷ [])
  unfolding proxy_addresses is_defined is_not_defined
  alone_lem topology_addresses listen_address alone = elim (Bool-cases (listen_address == "")) [
    | inl unset ↦ ground (arith, alone, unset)
    | inr set ↦ elim (Option-cases (lookup_first_ip4 parse_ip lookup_ip listen_address)) [
      | inl n ↦ ground (arith, alone, set, n)
      | inr (a, n) ↦ ground (arith, alone, set, n)
    ]
  ]

  proxy_addresses_lem :
      (topology_addresses listen_address : String) (addresses : List (List ℕ))
      → proxy_addresses parse_ip lookup_ip topology_addresses listen_address ≡ ok addresses
      → map some addresses ≡ addresses_given topology_addresses listen_address
  unfolding proxy_addresses is_defined is_not_defined
  proxy_addresses_lem topology_addresses listen_address addresses h =
      elim (Bool-cases (topology_addresses == "")) [
        | inl alone ↦
            let is : address_alone listen_address ∷ [] ≡ addresses =
              ground (arith, alone_lem topology_addresses listen_address alone, h) in
            ap (map some) (sym is) ∙ ground (arith, alone)
        | inr many ↦
            parse_addresses_lem (parse_contact_points topology_addresses) addresses
              (ground (arith, many, h))
            ∙ ground (arith, many)
      ]

-- An accepted topology has the addresses that the settings name, one for each name and in the same order,
-- or without names the one that the listen address is resolved to or else the loopback address. It counts
-- them, and has the one of the proxy's own name at its index; the settings of the index and of the tokens
-- are what it has, and these are from 1 to 256 for each proxy.
pub topology_in_range :
    (parse_ip : String → Option (List ℕ)) (lookup_ip : String → Option (List (Option (List ℕ))))
    (topology_addresses listen_address : String) (index num_tokens : ℤ) (t : TopologyConfig)
    → parse_topology_config parse_ip lookup_ip topology_addresses listen_address index num_tokens
      ≡ ok t
    → (index ≡ pos t.index)
      × (num_tokens ≡ pos t.num_tokens)
      × (t.count ≡ length t.addresses)
      × (1 ≤ t.num_tokens)
      × (t.num_tokens ≤ 256)
      × (map some t.addresses
          ≡ addresses_given parse_ip lookup_ip topology_addresses listen_address)
      × ((a : List ℕ) × (get_elem? t.addresses t.index ≡ some a))
unfolding parse_topology_config checked_topology
topology_in_range parse_ip lookup_ip topology_addresses listen_address index num_tokens t e =
    elim (Result-cases (proxy_addresses parse_ip lookup_ip topology_addresses listen_address)) [
      | inr (q, n) ↦ absurd (ground (arith, n, e))
      | inl (addresses, n) ↦
          let accepted : checked_topology addresses index num_tokens ≡ ok t =
            ground (arith, n, e) in
          let (i, k, c, low, high, own) = checked-InRange addresses index num_tokens t accepted in
          (
            i,
            k,
            c,
            low,
            high,
            ap (map some) (checked_addresses addresses index num_tokens t accepted)
                ∙ proxy_addresses_lem parse_ip lookup_ip topology_addresses listen_address addresses
                    n,
            own,
          )
    ]
