-- ===== src/Service/Framed.antt =====
-- The calls of src/providers/service.ts leave the tables of the gateway as they are.
pub mod Calls
pub mod Loop
use catfee_io.Base.{
  ℕ, ◌&&◌, ◌||◌, ◌==◌, ◌≡◌, ◌∙◌, Option, ◌∷◌, ◌++◌, refl, inl, inr, Option-cases, Bool-cases, arith,
  Bool,
}
use catfee_io.Base.Results.{ok}
use catfee_io.Table.{select, count, update}
use catfee_io.Store.{Database, Order, Provider, Text, Time, TxId, Address, LedgerState, OrderState}
use catfee_io.Providers.Limits.{BudgetLimits}
use catfee_io.Providers.Orders.{
  begin_order, BeginOrder, start_attempt, Attempt, get_order_by_tx_id, transition_attempt,
  attempt_transaction, reserve_attempt, at_attempt, reserves_for, attempt_refused,
  is_accepted_order,
}
use catfee_io.Providers.Settle.{update_orders, finish_confirmation}

-- The bindings, requests and claims are the same.
pub record Frame (db db' : Database) : Type 0 where
  pub bindings : db'.bindings ≡ db.bindings
  pub requests : db'.requests ≡ db.requests
  pub claims : db'.claims ≡ db.claims

pub same : (db : Database) → Frame db db
same db = record { bindings = refl; requests = refl; claims = refl }

pub same_then : {a b c : Database} → Frame a b → Frame b c → Frame a c
same_then f g = record {
  bindings = g.bindings ∙ f.bindings;
  requests = g.requests ∙ f.requests;
  claims = g.claims ∙ f.claims;
}

pub transition_attempt-Frame :
    (id p : ℕ) (l : LedgerState) (f : Order → Order) (db db' : Database) (o : Order)
    → transition_attempt id p l f db ≡ ok (o, db')
    → Frame db db'
unfolding transition_attempt
transition_attempt-Frame id p l f db db' o e =
    elim (Option-cases (select (at_attempt id p) db.orders)) [
      | inl absent ↦ absurd (ground arith)
      | inr (old, found) ↦ elim (Bool-cases (count (reserves_for id p) db.ledger == 1)) [
        | inr wrong ↦ absurd (ground arith)
        | inl right ↦
            let e' : record db {
              orders = update (at_attempt id p) f db.orders;
              ledger = update (reserves_for id p) (λ l'. record l' { state = l }) db.ledger;
            }
                ≡ db' =
              ground arith in
            rw (← e') (record { bindings = refl; requests = refl; claims = refl })
      ]
    ]

pub update_orders-Frame :
    (p : Order → Bool) (f : Order → Order) (db db' : Database) (o : Order)
    → update_orders p f db ≡ ok (o, db')
    → Frame db db'
unfolding update_orders
update_orders-Frame p f db db' o e = elim (Option-cases (select p db.orders)) [
  | inl absent ↦ absurd (ground arith)
  | inr (old, found) ↦
      let e' : record db { orders = update p f db.orders } ≡ db' = ground arith in
      rw (← e') (record { bindings = refl; requests = refl; claims = refl })
]

pub begin_order-Frame :
    (t : TxId) (a : Address) (n : ℕ) (db db' : Database) (b : BeginOrder)
    → begin_order t a n db ≡ ok (b, db')
    → Frame db db'
unfolding begin_order
begin_order-Frame t a n db db' b e = elim (Option-cases (get_order_by_tx_id t db)) [
  | inl fresh ↦ record { bindings = ground arith; requests = ground arith; claims = ground arith }
  | inr (old, there) ↦ record {
    bindings = ground arith;
    requests = ground arith;
    claims = ground arith;
  }
]

pub start_attempt-Frame :
    (decrypt : Provider → Option Text) (limits : BudgetLimits) (id p amount day : ℕ) (now : Time)
    (db db' : Database) (x : Attempt)
    → start_attempt decrypt limits id p amount day now db ≡ ok (x, db')
    → Frame db db'
unfolding start_attempt attempt_transaction reserve_attempt
start_attempt-Frame decrypt limits id p amount day now db db' x e =
    elim (Option-cases (select (λ o. o.id == id) db.orders)) [
      | inl fresh ↦ record {
        bindings = ground arith;
        requests = ground arith;
        claims = ground arith;
      }
      | inr (o, there) ↦ elim (Option-cases (select (λ p'. p'.id == p) db.providers)) [
        | inl none_there ↦ record {
          bindings = ground arith;
          requests = ground arith;
          claims = ground arith;
        }
        | inr (q, found) ↦ elim (Bool-cases (attempt_refused limits amount day o q db.ledger)) [
          | inl refused ↦ record {
            bindings = ground arith;
            requests = ground arith;
            claims = ground arith;
          }
          | inr taken ↦ record {
            bindings = ground arith;
            requests = ground arith;
            claims = ground arith;
          }
        ]
      ]
    ]

pub finish_confirmation-Frame :
    (t : TxId) (state : OrderState) (code : Option Text) (now : Time) (db db' : Database)
    (o : Order)
    → finish_confirmation t state code now db ≡ ok (o, db')
    → Frame db db'
unfolding finish_confirmation
finish_confirmation-Frame t state code now db db' o e =
    elim (Option-cases
      (select (λ (o : Order). o.tx_id == t && is_accepted_order o.state) db.orders)) [
        | inr (old, there) ↦ record {
          bindings = ground arith;
          requests = ground arith;
          claims = ground arith;
        }
        | inl absent ↦ elim (Option-cases (get_order_by_tx_id t db)) [
          | inl fresh ↦ absurd (ground arith)
          | inr (old, there) ↦ record {
            bindings = ground arith;
            requests = ground arith;
            claims = ground arith;
          }
        ]
      ]
