-- ===== src/Gateway/Audits/Arrivals.antt =====
-- The energy that src/repository.ts records as arrived: what recordEnergyArrival keeps of its observations.
use catfee_io.Base.{
  ◌≡◌, Option, none, some, List, [], ◌∷◌, refl, arith, inl, inr, Bool-cases, if◌then◌else◌,
}
use catfee_io.Base.Int.{ℤ, ◌≤ℤ◌}
use catfee_io.Base.Results.{ok}
use catfee_io.Table.{update, insert, exists, select}
use catfee_io.Store.{Database, Audit, TxId, Time}
use catfee_io.Gateway.Audits.{
  audit_of, new_audit, upsert_audit, assert_resource_audit_plan, upsert_resource_audit_plan,
  record_energy_package_attempt, is_arrival, observe_arrival, record_energy_arrival, record_receipt,
}
use catfee_io.Gateway.Audits.Checks.{Step, plans, attempts, observes, solidifies}

abbrev pub seen : Option Audit → Option ℤ
seen none = none
seen (some a) = a.energy_available_after

-- The energy that was seen to arrive for the transaction.
unfoldable pub arrival : TxId → Database → Option ℤ
arrival t db = seen (select (audit_of t) db.audits)

-- The second observation is as large as the first, where there is a first.
abbrev pub IsLater : Option ℤ → Option ℤ → Type 0
IsLater none new = Unit
IsLater (some old) none = ⊥
IsLater (some old) (some new) = old ≤ℤ new

IsLater-refl : (o : Option ℤ) → IsLater o o
IsLater-refl none = tt
IsLater-refl (some n) = omega arith

larger-IsLater : (n : ℤ) (old : Option ℤ) → IsLater old (if is_arrival n old then some n else old)
larger-IsLater n none = tt
larger-IsLater n (some old) = elim (Bool-cases (is_arrival n (some old))) [
  | inl larger ↦ rw larger (ground arith)
  | inr smaller ↦ rw smaller (omega arith)
]

observe_arrival-after :
    (n : ℤ) (now : Time) (a : Audit)
    → (observe_arrival n now a).energy_available_after
      ≡ (if is_arrival n a.energy_available_after then some n else a.energy_available_after)
unfolding observe_arrival
observe_arrival-after n now a = elim (Bool-cases (is_arrival n a.energy_available_after)) [
  | inl larger ↦ rw larger refl
  | inr smaller ↦ rw smaller refl
]

module _ (t u : TxId) (f : Audit → Audit) (same : (a : Audit) → (f a).tx_id ≡ a.tx_id)
    (later : (a : Audit) → IsLater a.energy_available_after (f a).energy_available_after) where
  update-IsLater :
      (rows : List Audit)
      → IsLater
          (seen (select (audit_of t) rows))
          (seen (select (audit_of t) (update (audit_of u) f rows)))
  unfolding select update
  update-IsLater [] = tt
  update-IsLater (r ∷ rows) = elim (Bool-cases (audit_of t r)) [
    | inl here ↦ elim (Bool-cases (audit_of u r)) [
      | inl changed ↦ rw (here, changed, same r, here) (later r)
      | inr left ↦ rw (here, left, here) (IsLater-refl _)
    ]
    | inr there ↦ elim (Bool-cases (audit_of u r)) [
      | inl changed ↦ rw (there, changed, same r, there) (update-IsLater rows)
      | inr left ↦ rw (there, left, there) (update-IsLater rows)
    ]
  ]

  insert-IsLater :
      (a : Audit) (rows : List Audit)
      → IsLater (seen (select (audit_of t) rows)) (seen (select (audit_of t) (insert a rows)))
  unfolding select insert
  insert-IsLater a [] = tt
  insert-IsLater a (r ∷ rows) = elim (Bool-cases (audit_of t r)) [
    | inl here ↦ rw here (IsLater-refl _)
    | inr there ↦ rw there (insert-IsLater a rows)
  ]

  upsert-IsLater :
      (db db' : Database) → upsert_audit u f db ≡ ok db' → IsLater (arrival t db) (arrival t db')
  unfolding upsert_audit arrival
  upsert-IsLater db db' e = elim (Bool-cases (exists (audit_of u) db.audits)) [
    | inl old ↦
        let e' : record db { audits = update (audit_of u) f db.audits } ≡ db' = ground arith in
        rw (← e') (update-IsLater db.audits)
    | inr new ↦
        let e' : record db { audits = insert (f (new_audit u)) db.audits } ≡ db' = ground arith in
        rw (← e') (insert-IsLater (f (new_audit u)) db.audits)
  ]

-- No call that writes an audit row takes an observation back or lowers it, whatever transaction it is
-- about and in whatever order the observations come: the energy that a transaction's row shows as
-- available after it only grows.
pub Step-IsLater :
    {db db' : Database} (t : TxId) → Step db db' → IsLater (arrival t db) (arrival t db')
unfolding upsert_resource_audit_plan assert_resource_audit_plan record_energy_package_attempt
    record_energy_arrival record_receipt observe_arrival
Step-IsLater {db} {db'} t (plans u p now e) =
    upsert-IsLater t u (λ a. record a { plan = some p; planned_at = some now }) (λ a. refl)
      (λ a. IsLater-refl _) db db' (ground arith)
Step-IsLater {db} {db'} t (attempts u amount e) =
    upsert-IsLater t u (λ a. record a { energy_package_attempted = some amount }) (λ a. refl)
      (λ a. IsLater-refl _) db db' (ground arith)
Step-IsLater {db} {db'} t (observes u n now e) =
    upsert-IsLater t u (observe_arrival n now) (λ a. ground arith)
      (λ a. rw (observe_arrival-after n now a) (larger-IsLater n a.energy_available_after)) db db'
      (ground arith)
Step-IsLater {db} {db'} t (solidifies u receipt result now e) =
    upsert-IsLater t u _ (λ a. refl) (λ a. IsLater-refl _) db db' e
