-- ===== src/Providers/Budget.antt =====
-- The daily budget of src/providers/repository.ts holds: what is reserved or charged on a UTC day never
-- passes the global limits, whatever sequence of attempts, transitions and recoveries runs.
use catfee_io.Base.{ℕ, ◌≤◌, ◌≡◌, Bool, true, false, List, refl, arith}
use catfee_io.Table.{update, insert}
use catfee_io.Table.Laws.{sum-insert, sum-update_le}
use catfee_io.Store.{Order, LedgerEntry, LedgerState, Provider}
use catfee_io.Providers.Limits.{BudgetLimits}
use catfee_io.Providers.Orders.{
  used_orders, used_energy, counts_on, attempt_refused, reservation, is_reserved,
}

-- The day's reserved and charged orders and energy are within the global limits, on every day.
abbrev pub InBudget : BudgetLimits → List LedgerEntry → Type 0
InBudget limits ledger =
    (day : ℕ)
    → (used_orders day ledger ≤ limits.daily_order_limit)
      × (used_energy day ledger ≤ limits.daily_energy_limit)

pub reservation-InBudget :
    (limits : BudgetLimits) (amount day : ℕ) (o : Order) (p : Provider) (ledger : List LedgerEntry)
    → attempt_refused limits amount day o p ledger ≡ false
    → InBudget limits ledger
    → InBudget limits (insert (reservation day o.id p.id amount) ledger)
unfolding attempt_refused used_orders used_energy
reservation-InBudget limits amount day o p ledger h v d =
    let e = reservation day o.id p.id amount in
    (
      ground (arith, v d, sum-insert (counts_on d) (λ _. 1) e ledger),
      ground (arith, v d, sum-insert (counts_on d) (λ l. l.energy_amount) e ledger),
    )

-- Moving entries out of RESERVED, to CHARGED or RELEASED, does not raise the use of any day.
pub settle-InBudget :
    (limits : BudgetLimits) (w : LedgerEntry → Bool) (s : LedgerState) (ledger : List LedgerEntry)
    → ((l : LedgerEntry) → w l ≡ true → is_reserved l.state ≡ true)
    → InBudget limits ledger
    → InBudget limits (update w (λ l. record l { state = s }) ledger)
unfolding used_orders used_energy
settle-InBudget limits w s ledger h v d = (
  omega (
    arith,
    (v d).0,
    sum-update_le w (counts_on d) (λ l. record l { state = s }) (λ _. 1)
        (λ l k c. ground (arith, h l k)) (λ _. refl) ledger,
  ),
  omega (
    arith,
    (v d).1,
    sum-update_le w (counts_on d) (λ l. record l { state = s }) (λ l. l.energy_amount)
        (λ l k c. ground (arith, h l k)) (λ _. refl) ledger,
  ),
)
