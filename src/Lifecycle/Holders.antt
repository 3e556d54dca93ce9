-- ===== src/Lifecycle/Holders.antt =====
-- clienthandler.go: what a stream id's holder has after each change of the map of holders.
use zdm_proxy.Prelude.{
  ℕ, ◌≡◌, ◌&&◌, Option, none, List, ℤ, int_eq, int_beq, int_beq_iff, lookup, insert, lookup-insert,
  if◌then◌else◌, arith, inl, inr, Option-cases,
}
use zdm_proxy.Lifecycle.{held, get_or_create_holder, clear_holder, is_address}

pub held-insert :
    (k j : ℤ) (h : Option ℕ) (holders : List (ℤ × Option ℕ))
    → held j (insert k h holders) ≡ (if int_beq k j then h else held j holders)
unfolding held
held-insert k j h holders = ground (arith, lookup-insert k j h holders)

pub held-get_or_create :
    (k j : ℤ) (holders : List (ℤ × Option ℕ))
    → held j (get_or_create_holder k holders) ≡ held j holders
unfolding get_or_create_holder held
held-get_or_create k j holders = elim (Option-cases (lookup k holders)) [
  | inl e ↦ ground (arith, e, lookup-insert k j none holders, int_beq_iff k j)
  | inr (h, e) ↦ ground (arith, e)
]

pub held-clear :
    (k j : ℤ) (ctx : ℕ) (holders : List (ℤ × Option ℕ))
    → held j (clear_holder k ctx holders)
      ≡ (if is_address ctx (held k holders) && int_beq k j then none else held j holders)
unfolding clear_holder
held-clear k j ctx holders = ground (arith, held-insert k j none holders)
