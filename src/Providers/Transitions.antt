-- ===== src/Providers/Transitions.antt =====
-- When an attempt that is in ORDERING is settled (src/providers/repository.ts).
use catfee_io.Base.{
  is_some, length-append, Bool, Bool-cases, false, Option, none, some, length, ltb, ◌+◌, ◌&&◌, ℕ,
  ◌≡◌, arith, inl, inr, Option-cases,
}
use catfee_io.Base.Results.{succeeds}
use catfee_io.Table.{select}
use catfee_io.Store.{Database, Order, LedgerState, charged, Provider, Text, Time}
use catfee_io.Providers.Limits.{BudgetLimits}
use catfee_io.Providers.Orders.{transition_attempt, at_attempt, fits_attempts, finish_order}
use catfee_io.Providers.Settle.{
  mark_rejected, mark_unknown, mark_accepted, accept_order, stored_acceptance, Columns, Acceptance,
}
use catfee_io.Providers.Matching.{transition-reservation}
use catfee_io.Providers.Steps.{IsSound}

-- An order that is there, with an element of `attempts` to spare.
abbrev pub has_room : Option Order → Bool
has_room none = false
has_room (some o) = ltb (length o.attempts) 256

-- The SET clause appends one element to `attempts`.
abbrev Appends : (Order → Order) → Type 0
Appends f = (o : Order) → length (f o).attempts ≡ length o.attempts + 1

module _ {limits : BudgetLimits} {db : Database} (v : IsSound limits db) where
  transition_attempt-succeeds :
      (i p : ℕ) (s : LedgerState) (f : Order → Order)
      → Appends f
      → succeeds (transition_attempt i p s f db) ≡ has_room (select (at_attempt i p) db.orders)
  unfolding transition_attempt fits_attempts
  transition_attempt-succeeds i p s f h = elim (Option-cases (select (at_attempt i p) db.orders)) [
    | inl absent ↦ ground (arith, absent)
    | inr (o, there) ↦
        let one = transition-reservation v.matched i p o there in
        elim (Bool-cases (ltb (length o.attempts) 256)) [
          | inl room ↦ ground (arith, there, one, h o)
          | inr full ↦ ground (arith, there, one, h o)
        ]
  ]

  mark_accepted-succeeds :
      (columns : Columns) (i : ℕ) (p : Provider) (outcome : Acceptance) (now : Time)
      → succeeds (mark_accepted columns i p outcome now db) ≡ (
          is_some (stored_acceptance columns outcome)
          && has_room (select (at_attempt i p.id) db.orders))
  unfolding mark_accepted accept_order
  mark_accepted-succeeds columns i p outcome now =
      elim (Option-cases (stored_acceptance columns outcome)) [
        | inl unread ↦ ground (arith, unread)
        | inr (stored, e) ↦
            let h =
              transition_attempt-succeeds i p.id charged (accept_order p stored now)
                (λ o. length-append o.attempts _) in
            ground (arith, e, h)
      ]

  -- In a sound database, as every reachable one is: markRejected and markUnknown succeed exactly if an
  -- order of the id is in ORDERING at the provider and its `attempts` have fewer than 256 elements, and
  -- markAccepted exactly if, beside this, PostgreSQL takes the balance, the cost and the hash of the
  -- acceptance for their columns. The guard on the ledger never rejects a transition.
  pub attempt_settles :
      (columns : Columns) (i : ℕ) (p : Provider) (code : Text) (outcome : Acceptance) (now : Time)
      → (succeeds (mark_rejected i p code now db) ≡ has_room (select (at_attempt i p.id) db.orders))
        × (succeeds (mark_unknown i p code now db)
            ≡ has_room (select (at_attempt i p.id) db.orders))
        × (succeeds (mark_accepted columns i p outcome now db) ≡ (
            is_some (stored_acceptance columns outcome)
            && has_room (select (at_attempt i p.id) db.orders)))
  unfolding mark_rejected mark_unknown finish_order
  attempt_settles columns i p code outcome now = (
    transition_attempt-succeeds i p.id _ _ (λ o. length-append o.attempts _),
    transition_attempt-succeeds i p.id _ _ (λ o. length-append o.attempts _),
    mark_accepted-succeeds columns i p outcome now,
  )
