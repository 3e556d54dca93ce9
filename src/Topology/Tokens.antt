-- ===== src/Topology/Tokens.antt =====
-- controlconn.go: the virtual hosts, one for each proxy instance, and their tokens. A token is a
-- signed 64-bit number, which the code formats; a host id is the library's hash of the address.
use native.Mathlib.Nat.{
  mul-div-le, mul-le-mul_left, mul-le-mul_right, mul-add, le-div_iff_mul-le, eq_of_mul-eq-mul_left,
  eq_of_mul-eq-mul_right, mod-eq_of_lt, mul-add-mod_self_right, mul_comm, add-mul,
}
use zdm_proxy.Prelude.{
  ℕ, zero, suc, ◌+◌, ◌-◌, ◌*◌, ◌/◌, ◌%◌, ◌≤◌, ◌<◌, ◌≡◌, ◌≢◌, ◌⊎◌, inl, inr, sym, ◌∙◌, ap, Option,
  none, some, List, [], ◌∷◌, ℤ, pos, negsuc, leb, length, if◌then◌else◌, arith,
}
use zdm_proxy.Topology.{Host, compute_assigned_hosts_for_virtualization}

abbrev pub two_pow_64 : ℕ
two_pow_64 = 18446744073709551616

abbrev pub two_pow_63 : ℕ
two_pow_63 = 9223372036854775808

-- big.Int subtraction of two natural numbers
abbrev pub big_sub : ℕ → ℕ → ℤ
big_sub m n = if leb n m then pos (m - n) else negsuc (n - m - 1)

-- Where a token stands in the ring, counted from its lower end.
unfoldable pub ring_position : ℕ → ℕ → ℕ → ℕ → ℕ
ring_position num_tokens proxies i t = two_pow_64 / (num_tokens * proxies) * (t * proxies + i)

unfoldable pub token : ℕ → ℕ → ℕ → ℕ → ℤ
unfolding ring_position
token num_tokens proxies i t = big_sub (ring_position num_tokens proxies i t) two_pow_63

unfoldable pub tokens_from : ℕ → ℕ → ℕ → ℕ → ℕ → List ℤ
unfolding token
tokens_from num_tokens proxies i t zero = []
tokens_from num_tokens proxies i t (suc n) =
    token num_tokens proxies i t ∷ tokens_from num_tokens proxies i (suc t) n

pub record VirtualHost : Type 0 where
  pub tokens : List ℤ
  pub addr : List ℕ
  pub host : Host
  pub host_id : List ℕ

-- `new_sha1` is uuid.NewSHA1 with the nil namespace.
module _ (new_sha1 : List ℕ → List ℕ) (num_tokens proxies : ℕ) where
  unfoldable pub virtual_hosts_from : ℕ → List (List ℕ) → List Host → List VirtualHost
  unfolding tokens_from
  virtual_hosts_from i [] hosts = []
  virtual_hosts_from i (address ∷ rest) [] = []
  virtual_hosts_from i (address ∷ rest) (h ∷ hosts) =
      record {
        tokens = tokens_from num_tokens proxies i 0 num_tokens;
        addr = address;
        host = h;
        host_id = new_sha1 address;
      }
      ∷ virtual_hosts_from (suc i) rest hosts

-- `none` for the panic of an index out of range.
unfoldable pub compute_virtual_hosts :
    (List ℕ → List ℕ) → ℕ → List (List ℕ) → List Host → Option (List VirtualHost)
unfolding virtual_hosts_from compute_assigned_hosts_for_virtualization
compute_virtual_hosts new_sha1 num_tokens addresses ordered_hosts =
    elim (compute_assigned_hosts_for_virtualization (length addresses) ordered_hosts) [
      | none ↦ none
      | some hosts ↦
          some (virtual_hosts_from new_sha1 num_tokens (length addresses) 0 addresses hosts)
    ]

-- The token numbers are a mixed-radix count.
count_bound :
    (num_tokens proxies i t : ℕ)
    → i < proxies
    → t < num_tokens
    → suc (t * proxies + i) ≤ num_tokens * proxies
count_bound num_tokens proxies i t i_lt t_lt =
    omega (arith, i_lt, mul-le-mul_right proxies t_lt, add-mul t 1 proxies)

-- Every token is less than a ring away from the lower end: the conversion to int64 loses nothing.
ring_position_bound :
    (num_tokens proxies i t : ℕ)
    → i < proxies
    → t < num_tokens
    → ring_position num_tokens proxies i t + two_pow_64 / (num_tokens * proxies) ≤ two_pow_64
unfolding ring_position
ring_position_bound num_tokens proxies i t i_lt t_lt =
    let total = num_tokens * proxies in
    let a = two_pow_64 / total in
    omega (
      arith,
      mul-le-mul_left a (count_bound num_tokens proxies i t i_lt t_lt),
      mul-div-le two_pow_64 total,
      mul_comm a total,
      mul-add a (t * proxies + i) 1,
    )

abbrev pub IsInt64 : ℤ → Type 0
IsInt64 (pos n) = n < two_pow_63
IsInt64 (negsuc n) = n < two_pow_63

big_sub-IsInt64 : (x : ℕ) → x < two_pow_64 → IsInt64 (big_sub x two_pow_63)
big_sub-IsInt64 x lt = ground (arith, lt)

big_sub_injective : (x y : ℕ) → big_sub x two_pow_63 ≡ big_sub y two_pow_63 → x ≡ y
big_sub_injective x y e = ground (arith, e)

-- The length of one token's stretch of the ring is not zero.
stretch_positive : (total : ℕ) → 0 < total → total ≤ two_pow_64 → 0 < two_pow_64 / total
stretch_positive total p le = (le-div_iff_mul-le p).1 (omega (arith, le))

mixed_radix_injective :
    (proxies i j t u : ℕ)
    → i < proxies
    → j < proxies
    → t * proxies + i ≡ u * proxies + j
    → (i ≡ j) × (t ≡ u)
mixed_radix_injective proxies i j t u i_lt j_lt e =
    let same : i ≡ j =
      sym (mod-eq_of_lt i_lt)
      ∙ sym (mul-add-mod_self_right t proxies i)
      ∙ ap (λ k. k % proxies) e
      ∙ mul-add-mod_self_right u proxies j
      ∙ mod-eq_of_lt j_lt in
    (same, eq_of_mul-eq-mul_right proxies (omega (arith, i_lt)) t u (omega (arith, e, same)))

-- As long as the ring has at most 2^64 tokens, every token of every proxy instance is a signed
-- 64-bit number.
pub tokens_in_range :
    (num_tokens proxies i t : ℕ)
    → i < proxies
    → t < num_tokens
    → num_tokens * proxies ≤ two_pow_64
    → IsInt64 (token num_tokens proxies i t)
unfolding token
tokens_in_range num_tokens proxies i t i_lt t_lt le =
    let total = num_tokens * proxies in
    let some_token : 0 < total = omega (arith, count_bound num_tokens proxies i t i_lt t_lt) in
    big_sub-IsInt64 (ring_position num_tokens proxies i t) (
      omega (
        arith,
        ring_position_bound num_tokens proxies i t i_lt t_lt,
        stretch_positive total some_token le,
      ))

tokens_injective :
    (num_tokens proxies i j t u : ℕ)
    → i < proxies
    → j < proxies
    → t < num_tokens
    → u < num_tokens
    → num_tokens * proxies ≤ two_pow_64
    → token num_tokens proxies i t ≡ token num_tokens proxies j u
    → (i ≡ j) × (t ≡ u)
unfolding token ring_position
tokens_injective num_tokens proxies i j t u i_lt j_lt t_lt u_lt le e =
    let total = num_tokens * proxies in
    let some_token : 0 < total = omega (arith, count_bound num_tokens proxies i t i_lt t_lt) in
    mixed_radix_injective proxies i j t u i_lt j_lt (
      eq_of_mul-eq-mul_left (two_pow_64 / total) (stretch_positive total some_token le)
        (t * proxies + i) (u * proxies + j) (big_sub_injective _ _ e))

-- The tokens of two different proxy instances, and two different tokens of one, are different, as
-- long as the ring has at most 2^64 of them.
pub tokens_distinct :
    (num_tokens proxies i j t u : ℕ)
    → i < proxies
    → j < proxies
    → t < num_tokens
    → u < num_tokens
    → num_tokens * proxies ≤ two_pow_64
    → (i ≢ j) ⊎ (t ≢ u)
    → token num_tokens proxies i t ≢ token num_tokens proxies j u
tokens_distinct num_tokens proxies i j t u i_lt j_lt t_lt u_lt le differ e =
    let (same_i, same_t) = tokens_injective num_tokens proxies i j t u i_lt j_lt t_lt u_lt le e in
    elim differ [ inl n ↦ n same_i | inr n ↦ n same_t ]
