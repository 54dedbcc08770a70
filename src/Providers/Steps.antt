-- ===== src/Providers/Steps.antt =====
-- What each transaction of src/providers/repository.ts leaves: the ledger within the budget and in
-- agreement with the orders.
use mathlib.Core.Path.{subst}
use catfee_io.Base.{
  ℕ, suc, ◌≡◌, Bool, true, false, Option, some, refl, sym, arith, inl, inr, Option-cases,
  Bool-cases, ◌==◌, ◌&&◌,
}
use catfee_io.Base.Results.{ok}
use catfee_io.Table.{update, insert, exists, select, count}
use catfee_io.Table.Laws.{select-passes}
use catfee_io.Store.{
  charged, Database, Order, OrderState, LedgerEntry, LedgerState, Provider, TxId, Address, Text,
  Time,
}
use catfee_io.Providers.Limits.{BudgetLimits}
use catfee_io.Providers.Orders.{
  BeginOrder, begin_order, get_order_by_tx_id, new_order, Attempt, start_attempt, attempt_refused,
  attempt_transaction, reserve_attempt, transition_attempt, at_attempt, reserves_for, is_ordering,
  is_reserved, may_attempt, is_accepted_order,
}
use catfee_io.Providers.Settle.{
  update_orders, finish_confirmation, confirm_order, is_interrupted, mark_accepted, accept_order,
  stored_acceptance, Columns, Acceptance, recover_interrupted_orders, interrupt_order,
}
use catfee_io.Providers.Budget.{InBudget, reservation-InBudget, settle-InBudget}
use catfee_io.Providers.Matching.{
  recover-IsMatched, IsMatched, insert_order-IsMatched, update_orders-IsMatched, reserve-IsMatched,
  transition-IsMatched,
}

-- The ledger is within the budget on every day, and agrees with the orders.
pub record IsSound (limits : BudgetLimits) (db : Database) : Type 0 where
  pub in_budget : InBudget limits db.ledger
  pub matched : IsMatched db.next_order_id db.orders db.ledger

-- What markAccepted does where PostgreSQL reads the columns.
pub mark_accepted-transition :
    (columns : Columns) (i : ℕ) (p : Provider) (outcome : Acceptance) (now : Time)
    (db db' : Database) (o : Order)
    → mark_accepted columns i p outcome now db ≡ ok (o, db')
    → (stored : Acceptance) × (transition_attempt i p.id charged (accept_order p stored now) db
        ≡ ok (o, db'))
unfolding mark_accepted
mark_accepted-transition columns i p outcome now db db' o e =
    elim (Option-cases (stored_acceptance columns outcome)) [
      | inl unread ↦ absurd (ground arith)
      | inr (stored, read) ↦ (stored, ground arith)
    ]

module _ {limits : BudgetLimits} {db : Database} (v : IsSound limits db) where
  pub begin_order-IsSound :
      (t : TxId) (a : Address) (amount : ℕ) (b : BeginOrder) (db' : Database)
      → begin_order t a amount db ≡ ok (b, db')
      → IsSound limits db'
  unfolding begin_order
  begin_order-IsSound t a amount b db' e = elim (Option-cases (get_order_by_tx_id t db)) [
    | inl new ↦ elim (Bool-cases (exists (λ r. r.tx_id == t) db.requests)) [
      | inl known ↦
          let e' : record db {
            orders = insert (new_order db.next_order_id t a amount) db.orders;
            next_order_id = suc db.next_order_id;
          }
              ≡ db' =
            ground arith in
          rw (← e') (record {
            in_budget = v.in_budget;
            matched = insert_order-IsMatched v.matched t a amount;
          })
      | inr missing ↦ absurd (ground arith)
    ]
    | inr (o, old) ↦ let e' : db ≡ db' = ground arith in rw (← e') v
  ]

  attempt_allowed :
      (amount day : ℕ) (o : Order) (p : Provider)
      → attempt_refused limits amount day o p db.ledger ≡ false
      → may_attempt o.state ≡ true
  unfolding attempt_refused
  attempt_allowed amount day o p h = ground arith

  reserve_attempt-IsSound :
      (i amount day : ℕ) (now : Time) (o : Order) (p : Provider)
      → select (λ x. x.id == i) db.orders ≡ some o
      → attempt_refused limits amount day o p db.ledger ≡ false
      → IsSound limits (reserve_attempt amount day now o p db)
  unfolding reserve_attempt
  reserve_attempt-IsSound i amount day now o p e h = record {
    in_budget = reservation-InBudget limits amount day o p db.ledger h v.in_budget;
    matched =
        let at_i : o.id ≡ i = ground (arith, select-passes (λ x. x.id == i) db.orders e) in
        reserve-IsMatched v.matched o p day amount now
          (subst (λ k. select (λ x. x.id == k) db.orders ≡ some o) (sym at_i) e)
          (attempt_allowed amount day o p h);
  }

  attempt_transaction-IsSound :
      (decrypt : Provider → Option Text) (i q amount day : ℕ) (now : Time) (a : Attempt)
      (db' : Database)
      → attempt_transaction decrypt limits i q amount day now db ≡ ok (a, db')
      → IsSound limits db'
  unfolding attempt_transaction
  attempt_transaction-IsSound decrypt i q amount day now a db' e =
      elim (Option-cases (select (λ o. o.id == i) db.orders)) [
        | inl absent ↦ let e' : db ≡ db' = ground arith in rw (← e') v
        | inr (o, eo) ↦ elim (Option-cases (select (λ p. p.id == q) db.providers)) [
          | inl absent ↦ let e' : db ≡ db' = ground arith in rw (← e') v
          | inr (p, ep) ↦ elim (Bool-cases (attempt_refused limits amount day o p db.ledger)) [
            | inl refused ↦ let e' : db ≡ db' = ground arith in rw (← e') v
            | inr allowed ↦
                let e' : reserve_attempt amount day now o p db ≡ db' = ground arith in
                rw (← e') (reserve_attempt-IsSound i amount day now o p eo allowed)
          ]
        ]
      ]

  pub start_attempt-IsSound :
      (decrypt : Provider → Option Text) (i q amount day : ℕ) (now : Time) (a : Attempt)
      (db' : Database)
      → start_attempt decrypt limits i q amount day now db ≡ ok (a, db')
      → IsSound limits db'
  unfolding start_attempt
  start_attempt-IsSound decrypt i q amount day now a db' e =
      attempt_transaction-IsSound decrypt i q amount day now a db' (ground arith)

  pub transition_attempt-IsSound :
      (i p : ℕ) (s : LedgerState) (f : Order → Order) (o : Order) (db' : Database)
      → ((x : Order) → (f x).id ≡ x.id)
      → ((x : Order) → is_ordering (f x).state ≡ false)
      → is_reserved s ≡ false
      → transition_attempt i p s f db ≡ ok (o, db')
      → IsSound limits db'
  unfolding transition_attempt
  transition_attempt-IsSound i p s f o db' hi hf hs e =
      elim (Option-cases (select (at_attempt i p) db.orders)) [
        | inl absent ↦ absurd (ground arith)
        | inr (x, ex) ↦ elim (Bool-cases (count (reserves_for i p) db.ledger == 1)) [
          | inl one ↦
              let e' : record db {
                orders = update (at_attempt i p) f db.orders;
                ledger = update (reserves_for i p) (λ l. record l { state = s }) db.ledger;
              }
                  ≡ db' =
                ground arith in
              rw (← e') (record {
                in_budget =
                    settle-InBudget limits (reserves_for i p) s db.ledger (λ l h. ground arith)
                      v.in_budget;
                matched = transition-IsMatched v.matched i p x s f ex hi (hf x) hs;
              })
          | inr other ↦ absurd (ground arith)
        ]
      ]

  pub update_orders-IsSound :
      (w : Order → Bool) (f : Order → Order) (o : Order) (db' : Database)
      → ((x : Order) → (f x).id ≡ x.id)
      → ((x : Order) → w x ≡ true → is_ordering x.state ≡ false)
      → ((x : Order) → is_ordering (f x).state ≡ false)
      → update_orders w f db ≡ ok (o, db')
      → IsSound limits db'
  unfolding update_orders
  update_orders-IsSound w f o db' hi hw hf e = elim (Option-cases (select w db.orders)) [
    | inl absent ↦ absurd (ground arith)
    | inr (x, ex) ↦
        let e' : record db { orders = update w f db.orders } ≡ db' = ground arith in
        rw (← e') (record {
          in_budget = v.in_budget;
          matched = update_orders-IsMatched v.matched w f hi hw hf;
        })
  ]

  -- A confirmation moves an order out of ACCEPTED, or finds it moved already.
  pub finish_confirmation-IsSound :
      (t : TxId) (s : OrderState) (code : Option Text) (now : Time) (o : Order) (db' : Database)
      → is_ordering s ≡ false
      → finish_confirmation t s code now db ≡ ok (o, db')
      → IsSound limits db'
  unfolding finish_confirmation
  finish_confirmation-IsSound t s code now o db' hs e =
      elim (Option-cases (select (λ x. x.tx_id == t && is_accepted_order x.state) db.orders)) [
        | inl none_accepted ↦ let e' : db ≡ db' = ground arith in rw (← e') v
        | inr (x, ex) ↦
            let w : Order → Bool = λ x. x.tx_id == t && is_accepted_order x.state in
            let e' : record db { orders = update w (confirm_order s code now) db.orders } ≡ db' =
              ground arith in
            rw (← e') (record {
              in_budget = v.in_budget;
              matched =
                  update_orders-IsMatched v.matched w (confirm_order s code now) (λ x. refl)
                    (λ x h. ground arith) (λ x. hs);
            })
      ]

  pub interrupted_reserved :
      (l : LedgerEntry) → is_interrupted db.orders l ≡ true → is_reserved l.state ≡ true
  unfolding is_interrupted
  interrupted_reserved l h = ground arith

  pub recover_interrupted_orders-IsSound :
      (now : Time) (n : ℕ) (db' : Database)
      → recover_interrupted_orders now db ≡ ok (n, db')
      → IsSound limits db'
  unfolding recover_interrupted_orders
  recover_interrupted_orders-IsSound now n db' e =
      let e' : record db {
        ledger = update (is_interrupted db.orders) (λ l. record l { state = charged }) db.ledger;
        orders = update (λ o. is_ordering o.state) (interrupt_order now) db.orders;
      }
          ≡ db' =
        ground arith in
      rw (← e') (record {
        in_budget =
            settle-InBudget limits (is_interrupted db.orders) charged db.ledger
              (λ l h. interrupted_reserved l h) v.in_budget;
        matched = recover-IsMatched v.matched now;
      })
