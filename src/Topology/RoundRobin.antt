-- ===== src/Topology/RoundRobin.antt =====
-- controlconn.go: NextAssignedHost, whose two atomic additions to the counter interleave with those of
-- the other calls that hold the read lock.
use native.Mathlib.Nat.{
  mod-lt, mod-add-mod, add-mod_right, mul_comm, mul-le-mul_left, lt_of_mul-lt-mul_left, div-add-mod,
}
use zdm_proxy.Prelude.{
  ℕ, zero, suc, ◌/◌, Bool-cases, inl, inr, ◌+◌, ◌-◌, ◌*◌, ◌%◌, ◌≤◌, ◌<◌, ◌≡◌, refl, sym, ap, ◌∙◌,
  subst, Bool, true, Option, none, some, is_some, List, [], ◌∷◌, eqb, leb, length, get_elem?,
  if◌then◌else◌, arith,
}
use zdm_proxy.Topology.{Host}

-- The first atomic addition of incCurrentAssignmentCounter: the new counter, the value, and whether
-- the second one follows.
unfoldable pub add_one : ℕ → ℕ → ℕ × ℕ × Bool
add_one hosts counter = let value = (counter + 1) % hosts in (counter + 1, value, eqb value 0)

-- The second one. A counter below zero, which Go has and ℕ has not, is `none`.
unfoldable pub add_minus_hosts : ℕ → ℕ → Option ℕ
add_minus_hosts hosts counter = if leb hosts counter then some (counter - hosts) else none

-- One call with nothing in between.
unfoldable pub next_assigned_host : List Host → ℕ → Option (ℕ × Host)
unfolding add_one add_minus_hosts
next_assigned_host hosts counter =
    let (c, value, wraps) = add_one (length hosts) counter in
    let wrapped = add_minus_hosts (length hosts) c in
    elim (if wraps then wrapped else some c) [
      | none ↦ none
      | some c' ↦ elim (get_elem? hosts value) [ none ↦ none | some h ↦ some (c', h) ]
    ]

-- The counter, how many calls stand between their two additions, and how many have added one.
pub record System : Type 0 where
  pub counter : ℕ
  pub between : ℕ
  pub added : ℕ

-- A step of some call, while there are `hosts` assigned hosts.
pub data Step (hosts : ℕ) (s : System) : System → Type 0 where
  adds :
      (c value : ℕ) (wraps : Bool) {t : System}
      → add_one hosts s.counter ≡ (c, value, wraps)
      → t ≡ record {
        counter = c;
        between = if wraps then suc s.between else s.between;
        added = suc s.added;
      }
      → Step hosts s t
  subtracts :
      (n c : ℕ) {t : System}
      → s.between ≡ suc n
      → add_minus_hosts hosts s.counter ≡ some c
      → t ≡ record { counter = c; between = n; added = s.added }
      → Step hosts s t

pub data Reach (hosts : ℕ) (s : System) : System → Type 0 where
  here : Reach hosts s s
  next : {t u : System} → Reach hosts s t → Step hosts t u → Reach hosts s u

abbrev pub start : ℕ → System
start c = record { counter = c; between = 0; added = 0 }

-- The counter agrees with the number of additions, modulo the hosts, and covers what is still to be
-- subtracted.
pub record Inv (hosts first : ℕ) (s : System) : Type 0 where
  pub covers : s.between * hosts ≤ s.counter
  pub agrees : s.counter % hosts ≡ (first + s.added) % hosts

-- A wrap leaves room for one more subtraction.
room_of_wrap :
    (hosts counter between : ℕ)
    → (counter + 1) % hosts ≡ 0
    → between * hosts ≤ counter
    → suc between * hosts ≤ counter + 1
room_of_wrap hosts counter between z covers =
    let q = (counter + 1) / hosts in
    let exact : hosts * q ≡ counter + 1 = omega (arith, div-add-mod (counter + 1) hosts, z) in
    let less : between < q =
      lt_of_mul-lt-mul_left hosts (omega (arith, exact, covers, mul_comm between hosts)) in
    omega (arith, exact, mul-le-mul_left hosts less, mul_comm (suc between) hosts)

agrees_suc :
    (hosts counter n : ℕ) → counter % hosts ≡ n % hosts → (counter + 1) % hosts ≡ (n + 1) % hosts
agrees_suc hosts counter n e =
    sym (mod-add-mod counter hosts 1) ∙ ap (λ k. (k + 1) % hosts) e ∙ mod-add-mod n hosts 1

adds-Inv :
    (hosts first : ℕ) (s : System) (c value : ℕ) (wraps : Bool)
    → add_one hosts s.counter ≡ (c, value, wraps)
    → Inv hosts first s
    → Inv hosts first (record {
      counter = c;
      between = if wraps then suc s.between else s.between;
      added = suc s.added;
    })
unfolding add_one
adds-Inv hosts first s c value wraps h v =
    let same : s.counter + 1 ≡ c = cc in
    record {
      covers = elim (Bool-cases wraps) [
        | inl w ↦
            rw (w, sym same)
              (room_of_wrap hosts s.counter s.between (ground (arith, h, w)) v.covers)
        | inr n ↦ rw n (omega (arith, same, v.covers))
      ];
      agrees =
          ap (λ k. k % hosts) (sym same)
          ∙ agrees_suc hosts s.counter (first + s.added) v.agrees
          ∙ ap (λ k. k % hosts) (omega arith);
    }

subtracts-Inv :
    (hosts first : ℕ) (s : System) (n c : ℕ)
    → s.between ≡ suc n
    → add_minus_hosts hosts s.counter ≡ some c
    → Inv hosts first s
    → Inv hosts first (record { counter = c; between = n; added = s.added })
unfolding add_minus_hosts
subtracts-Inv hosts first s n c e h v =
    let less : c + hosts ≡ s.counter = ground (arith, h) in
    let two : s.between * hosts ≡ n * hosts + hosts = ap (λ k. k * hosts) e ∙ omega arith in
    record {
      covers = omega (arith, v.covers, less, two);
      agrees = sym (add-mod_right c hosts) ∙ ap (λ k. k % hosts) less ∙ v.agrees;
    }

Reach-Inv :
    {hosts first : ℕ} {s t : System} → Reach hosts s t → Inv hosts first s → Inv hosts first t
Reach-Inv here v = v
Reach-Inv {hosts} {first} (next {t = t} r (adds c value wraps h e)) v =
    subst (Inv hosts first) (sym e) (adds-Inv hosts first t c value wraps h (Reach-Inv r v))
Reach-Inv {hosts} {first} (next {t = t} r (subtracts n c b h e)) v =
    subst (Inv hosts first) (sym e) (subtracts-Inv hosts first t n c b h (Reach-Inv r v))

start-Inv : (hosts first : ℕ) → Inv hosts first (start first)
start-Inv hosts first = record { covers = omega arith; agrees = ap (λ k. k % hosts) (omega arith) }

-- However the calls interleave, the next one gets the host that is its place in the order of the
-- first additions, counted round from the first value of the counter.
pub round_robin :
    (hosts first : ℕ) (s : System)
    → Reach hosts (start first) s
    → (add_one hosts s.counter).1 ≡ (first + suc s.added) % hosts
unfolding add_one
round_robin hosts first s r =
    agrees_suc hosts s.counter (first + s.added) (Reach-Inv r (start-Inv hosts first)).agrees
    ∙ ap (λ k. k % hosts) (omega arith)

-- However the calls interleave, a call that has its second addition before it finds a counter that
-- covers it: the counter never goes below zero.
pub never_below_zero :
    (hosts first : ℕ) (s : System) (n : ℕ)
    → Reach hosts (start first) s
    → s.between ≡ suc n
    → is_some (add_minus_hosts hosts s.counter) ≡ true
unfolding add_minus_hosts
never_below_zero hosts first s n r e =
    let v = Reach-Inv r (start-Inv hosts first) in
    let two : s.between * hosts ≡ n * hosts + hosts = ap (λ k. k * hosts) e ∙ omega arith in
    ground (arith, v.covers, two)

get_elem?-total :
    {A : Type 0} (xs : List A) (i : ℕ) → i < length xs → (x : A) × (get_elem? xs i ≡ some x)
get_elem?-total [] i lt = absurd (omega (arith, lt))
get_elem?-total (x ∷ xs) zero lt = (x, refl)
get_elem?-total (x ∷ xs) (suc i) lt = get_elem?-total xs i (omega (arith, lt))

-- With an assigned host, NextAssignedHost returns one: the host at the position that follows the
-- counter, and the counter stands at that position afterwards.
pub next_assigned_host_total :
    (hosts : List Host) (counter : ℕ)
    → 0 < length hosts
    → (h : Host) × (c : ℕ) × (next_assigned_host hosts counter ≡ some (c, h))
      × (get_elem? hosts ((counter + 1) % length hosts) ≡ some h)
      × (c % length hosts ≡ (counter + 1) % length hosts)
unfolding next_assigned_host add_one add_minus_hosts
next_assigned_host_total hosts counter p =
    let value = (counter + 1) % length hosts in
    let (h, found) = get_elem?-total hosts value (mod-lt (counter + 1) p) in
    elim (Bool-cases (eqb value 0)) [
      | inr goes_on ↦ (h, counter + 1, ground (arith, goes_on, found), found, refl)
      | inl wraps ↦
          let room = room_of_wrap (length hosts) counter 0 (ground (arith, wraps)) (omega arith) in
          let enough : length hosts ≤ counter + 1 = omega (arith, room) in
          (
            h,
            counter + 1 - length hosts,
            ground (arith, wraps, enough, found),
            found,
            sym (add-mod_right (counter + 1 - length hosts) (length hosts))
                ∙ ap (λ k. k % length hosts) (omega (arith, enough)),
          )
    ]
