-- ===== src/Providers/Reach.antt =====
-- Any sequence of calls of `EnergyProviderRepository` (src/providers/repository.ts).
use catfee_io.Base.{ℕ, ◌≡◌, Option, refl, arith}
use catfee_io.Base.Results.{ok}
use catfee_io.Store.{
  Database, Order, Provider, TxId, Address, Text, Time, fulfilled, unknown, charged,
  ledger_released,
}
use catfee_io.Providers.Limits.{BudgetLimits}
use catfee_io.Providers.Orders.{BeginOrder, begin_order, Attempt, start_attempt, finish_order}
use catfee_io.Providers.Settle.{
  mark_rejected, mark_unknown, mark_accepted, Acceptance, reject_without_provider, mark_fulfilled,
  mark_confirmation_timeout, recover_interrupted_orders, accept_order, Columns,
}
use catfee_io.Providers.Steps.{
  IsSound, begin_order-IsSound, start_attempt-IsSound, transition_attempt-IsSound,
  update_orders-IsSound, finish_confirmation-IsSound, mark_accepted-transition,
  recover_interrupted_orders-IsSound,
}

-- One call of the repository. `elsewhere` is every method that writes neither the orders nor the ledger.
pub data Step (limits : BudgetLimits) (db db' : Database) : Type 0 where
  begins :
      (t : TxId) (a : Address) (amount : ℕ) (b : BeginOrder)
      → begin_order t a amount db ≡ ok (b, db')
      → Step limits db db'
  attempts :
      (decrypt : Provider → Option Text) (i q amount day : ℕ) (now : Time) (a : Attempt)
      → start_attempt decrypt limits i q amount day now db ≡ ok (a, db')
      → Step limits db db'
  rejects :
      (i : ℕ) (p : Provider) (code : Text) (now : Time) (o : Order)
      → mark_rejected i p code now db ≡ ok (o, db')
      → Step limits db db'
  loses_track :
      (i : ℕ) (p : Provider) (code : Text) (now : Time) (o : Order)
      → mark_unknown i p code now db ≡ ok (o, db')
      → Step limits db db'
  accepts :
      (columns : Columns) (i : ℕ) (p : Provider) (outcome : Acceptance) (now : Time) (o : Order)
      → mark_accepted columns i p outcome now db ≡ ok (o, db')
      → Step limits db db'
  declines :
      (i : ℕ) (code : Text) (now : Time) (o : Order)
      → reject_without_provider i code now db ≡ ok (o, db')
      → Step limits db db'
  fulfils :
      (t : TxId) (now : Time) (o : Order)
      → mark_fulfilled t now db ≡ ok (o, db')
      → Step limits db db'
  times_out :
      (t : TxId) (now : Time) (o : Order)
      → mark_confirmation_timeout t now db ≡ ok (o, db')
      → Step limits db db'
  recovers :
      (now : Time) (n : ℕ) → recover_interrupted_orders now db ≡ ok (n, db') → Step limits db db'
  elsewhere :
      db'.orders ≡ db.orders
      → db'.ledger ≡ db.ledger
      → db'.next_order_id ≡ db.next_order_id
      → Step limits db db'

pub data Reach (limits : BudgetLimits) (start : Database) : Database → Type 0 where
  here : Reach limits start start
  next : {db db' : Database} → Reach limits start db → Step limits db db' → Reach limits start db'

pub Step-IsSound :
    {limits : BudgetLimits} {db db' : Database}
    → Step limits db db'
    → IsSound limits db
    → IsSound limits db'
unfolding mark_rejected mark_unknown finish_order accept_order mark_fulfilled
    mark_confirmation_timeout reject_without_provider
Step-IsSound {db' = d} (begins t a amount b e) v = begin_order-IsSound v t a amount b d e
Step-IsSound {db' = d} (attempts decrypt i q amount day now a e) v =
    start_attempt-IsSound v decrypt i q amount day now a d e
Step-IsSound {db' = d} (rejects i p code now o e) v =
    transition_attempt-IsSound v i p.id ledger_released _ o d (λ x. refl) (λ x. refl) refl e
Step-IsSound {db' = d} (loses_track i p code now o e) v =
    transition_attempt-IsSound v i p.id charged _ o d (λ x. refl) (λ x. refl) refl e
Step-IsSound {db} {db' = d} (accepts columns i p outcome now o e) v =
    let (stored, e') = mark_accepted-transition columns i p outcome now db d o e in
    transition_attempt-IsSound v i p.id charged _ o d (λ x. refl) (λ x. refl) refl e'
Step-IsSound {db' = d} (declines i code now o e) v =
    update_orders-IsSound v _ _ o d (λ x. refl) (λ x h. ground arith) (λ x. refl) e
Step-IsSound {db' = d} (fulfils t now o e) v =
    finish_confirmation-IsSound v t fulfilled _ now o d refl e
Step-IsSound {db' = d} (times_out t now o e) v =
    finish_confirmation-IsSound v t unknown _ now o d refl e
Step-IsSound {db' = d} (recovers now n e) v = recover_interrupted_orders-IsSound v now n d e
Step-IsSound (elsewhere eo el en) v = record {
  in_budget = rw el v.in_budget;
  matched = rw (eo, el, en) v.matched;
}

-- Whatever sequence of calls runs from a sound database, such as the empty one: on every UTC day the
-- orders and the energy that are reserved or charged stay within the global limits, every order id is
-- given once, and an order is in ORDERING at a provider exactly while its reservation stands.
pub Reach-IsSound :
    {limits : BudgetLimits} {start db : Database}
    → IsSound limits start
    → Reach limits start db
    → IsSound limits db
Reach-IsSound v here = v
Reach-IsSound v (next r s) = Step-IsSound s (Reach-IsSound v r)
