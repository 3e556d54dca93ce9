-- ===== src/Topology/Assignment.antt =====
-- controlconn.go: every host is assigned, and every proxy instance has a host.
use zdm_proxy.Prelude.{
  ℕ, zero, suc, ◌+◌, ◌%◌, ◌<◌, ◌≤◌, ◌≡◌, refl, sym, ap, ◌∙◌, List, [], ◌∷◌, string_eq, eqb, length,
  if◌then◌else◌, arith,
}
use native.Mathlib.Nat.{mod-add-mod, mod-lt, mod-eq_of_lt, mod-le}
use zdm_proxy.Prelude.{ltb}
use zdm_proxy.Topology.{Host, assign_from, compute_assigned_hosts}

-- The hosts whose position, counted from `i`, is `wanted` more than a multiple of `count`.
unfoldable pub at_positions : ℕ → ℕ → ℕ → List Host → List Host
at_positions wanted count i [] = []
at_positions wanted count i (h ∷ hosts) =
    let rest = at_positions wanted count (suc i) hosts in
    if eqb (i % count) wanted then h ∷ rest else rest

mod_suc : (i count : ℕ) → 0 < count → (i % count + 1) % count ≡ suc i % count
mod_suc i count p = mod-add-mod i count 1 ∙ ap (λ k. k % count) (omega arith)

assign_from_lem :
    (wanted count i : ℕ) (hosts : List Host)
    → 0 < count
    → assign_from wanted count (i % count) hosts ≡ at_positions wanted count i hosts
unfolding assign_from at_positions
assign_from_lem wanted count i [] p = refl
assign_from_lem wanted count i (h ∷ hosts) p =
    rw (mod_suc i count p, assign_from_lem wanted count (suc i) hosts p) refl

-- One of the positions is reached.
at_positions_nonempty :
    (wanted count i j : ℕ) (hosts : List Host)
    → j < length hosts
    → (i + j) % count ≡ wanted
    → 0 < length (at_positions wanted count i hosts)
unfolding at_positions
at_positions_nonempty wanted count i j [] lt at = absurd (omega (arith, lt))
at_positions_nonempty wanted count i zero (h ∷ hosts) lt at =
    let e : i % count ≡ wanted = ap (λ k. k % count) (omega arith) ∙ at in ground (arith, e)
at_positions_nonempty wanted count i (suc j) (h ∷ hosts) lt at =
    let rest =
      at_positions_nonempty wanted count (suc i) j hosts (omega (arith, lt))
        (ap (λ k. k % count) (omega arith) ∙ at) in
    ground (arith, rest)

-- With at least one host, every proxy instance with an index below the count has a host; its
-- hosts are those whose position, modulo the count, is the index taken modulo the number of
-- hosts.
pub assigned_hosts :
    (index count : ℕ) (hosts : List Host)
    → index < count
    → 0 < length hosts
    → (compute_assigned_hosts index count hosts ≡ at_positions (index % length hosts) count 0 hosts)
      × (0 < length (compute_assigned_hosts index count hosts))
unfolding compute_assigned_hosts
assigned_hosts index count hosts lt some_host =
    let w = index % length hosts in
    let zero_mod : 0 % count ≡ 0 = mod-eq_of_lt (omega (arith, lt)) in
    let e : assign_from w count 0 hosts ≡ at_positions w count 0 hosts =
      ap (λ k. assign_from w count k hosts) (sym zero_mod)
      ∙ assign_from_lem w count 0 hosts (omega (arith, lt)) in
    let small : w < count = omega (arith, lt, mod-le index (length hosts)) in
    (
      e,
      rw e (
          at_positions_nonempty w count 0 w hosts (mod-lt index some_host)
            (ap (λ k. k % count) (omega arith) ∙ mod-eq_of_lt small)),
    )

unfoldable pub sum_below : ℕ → (ℕ → ℕ) → ℕ
sum_below zero f = 0
sum_below (suc n) f = sum_below n f + f n

sum_below-add : (n : ℕ) (f g : ℕ → ℕ) → sum_below n (λ w. f w + g w) ≡ sum_below n f + sum_below n g
unfolding sum_below
sum_below-add zero f g = refl
sum_below-add (suc n) f g = omega (arith, sum_below-add n f g)

sum_below-ap : (n : ℕ) (f g : ℕ → ℕ) → ((w : ℕ) → w < n → f w ≡ g w) → sum_below n f ≡ sum_below n g
unfolding sum_below
sum_below-ap zero f g e = refl
sum_below-ap (suc n) f g e =
    omega (arith, e n (omega arith), sum_below-ap n f g (λ w lt. e w (omega (arith, lt))))

abbrev one_at : ℕ → ℕ → ℕ
one_at k w = if eqb k w then 1 else 0

sum_below-one_at : (n k : ℕ) → sum_below n (one_at k) ≡ (if ltb k n then 1 else 0)
unfolding sum_below
sum_below-one_at zero k = ground arith
sum_below-one_at (suc n) k = ground (arith, sum_below-one_at n k)

sum_below-none : (n : ℕ) → sum_below n (λ w. 0) ≡ 0
unfolding sum_below
sum_below-none zero = refl
sum_below-none (suc n) = omega (arith, sum_below-none n)

sum_at_positions :
    (count i : ℕ) (hosts : List Host)
    → 0 < count
    → sum_below count (λ w. length (at_positions w count i hosts)) ≡ length hosts
unfolding at_positions
sum_at_positions count i [] p = sum_below-none count
sum_at_positions count i (h ∷ hosts) p =
    let f : ℕ → ℕ = λ w. length (at_positions w count (suc i) hosts) in
    let once : sum_below count (one_at (i % count)) ≡ 1 =
      ground (arith, sum_below-one_at count (i % count), mod-lt i p) in
    omega (
      arith,
      sum_below-ap count (λ w. length (at_positions w count i (h ∷ hosts)))
          (λ w. one_at (i % count) w + f w) (λ w lt. ground arith),
      sum_below-add count (one_at (i % count)) f,
      once,
      sum_at_positions count (suc i) hosts p,
    )

-- With at least one proxy instance and at least as many hosts as instances, the instances share
-- the hosts out: together they have as many hosts as there are.
pub hosts_shared_out :
    (count : ℕ) (hosts : List Host)
    → 0 < count
    → count ≤ length hosts
    → sum_below count (λ index. length (compute_assigned_hosts index count hosts)) ≡ length hosts
hosts_shared_out count hosts p enough =
    sum_below-ap count (λ index. length (compute_assigned_hosts index count hosts))
      (λ w. length (at_positions w count 0 hosts))
      (λ w lt. ap (length {A = Host}) (
        (assigned_hosts w count hosts lt (omega (arith, p, enough))).0
        ∙ ap (λ k. at_positions k count 0 hosts) (mod-eq_of_lt (omega (arith, lt, enough)))))
    ∙ sum_at_positions count 0 hosts p
