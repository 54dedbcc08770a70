-- ===== src/Resources/Prepare/Statements.antt =====
-- The statements of src/repository.ts and src/providers/repository.ts that the resource service makes
-- leave the bindings, the requests and the claims.
use catfee_io.Base.{ℕ, ◌≡◌, refl, arith, inl, inr}
use catfee_io.Base.Int.{ℤ}
use catfee_io.Base.Results.{Result, ok, err, Result-cases}
use catfee_io.Store.{Database, Order, Time, Lease, TxId, StoreError}
use catfee_io.Gateway.Audits.{
  upsert_resource_audit_plan, record_energy_package_attempt, record_energy_arrival, upsert_audit,
  assert_resource_audit_plan,
}
use catfee_io.Store.{AuditPlan}
use catfee_io.Gateway.Leases.{create_lease, update_lease, LeaseInput}
use catfee_io.Providers.Settle.{mark_fulfilled, mark_confirmation_timeout}
use catfee_io.Service.Framed.{Frame, finish_confirmation-Frame}
use catfee_io.Resources.World.{answerless}
use catfee_io.Resources.Rental.{with_answer}

pub answerless-Frame :
    (db db' : Database) (r : Result StoreError Database) (a : Unit {0})
    → ((d : Database) → r ≡ ok d → Frame db d)
    → answerless r ≡ ok (a, db')
    → Frame db db'
answerless-Frame db db' (ok d) a h e = h db' (ground arith)
answerless-Frame db db' (err x) a h e = absurd (ground arith)

pub upsert_resource_audit_plan-Frame :
    (t : TxId) (p : AuditPlan) (now : Time) (db db' : Database)
    → upsert_resource_audit_plan t p now db ≡ ok db'
    → Frame db db'
unfolding upsert_resource_audit_plan upsert_audit
upsert_resource_audit_plan-Frame t p now db db' e =
    elim (Result-cases (assert_resource_audit_plan p)) [
      | inr (x, bad) ↦ absurd (ground arith)
      | inl (u, good) ↦ record {
        bindings = ground arith;
        requests = ground arith;
        claims = ground arith;
      }
    ]

pub record_energy_package_attempt-Frame :
    (t : TxId) (n : ℤ) (db db' : Database)
    → record_energy_package_attempt t n db ≡ ok db'
    → Frame db db'
unfolding record_energy_package_attempt upsert_audit
record_energy_package_attempt-Frame t n db db' e = record {
  bindings = ground arith;
  requests = ground arith;
  claims = ground arith;
}

pub record_energy_arrival-Frame :
    (t : TxId) (n : ℤ) (now : Time) (db db' : Database)
    → record_energy_arrival t n now db ≡ ok db'
    → Frame db db'
unfolding record_energy_arrival upsert_audit
record_energy_arrival-Frame t n now db db' e = record {
  bindings = ground arith;
  requests = ground arith;
  claims = ground arith;
}

pub create_lease-Frame :
    (i : LeaseInput) (now : Time) (db db' : Database) (l : Lease)
    → create_lease i now db ≡ ok (l, db')
    → Frame db db'
unfolding create_lease
create_lease-Frame i now db db' l e = record {
  bindings = ground arith;
  requests = ground arith;
  claims = ground arith;
}

pub update_lease-Frame :
    (id : ℕ) (f : Lease → Lease) (db : Database) → Frame db (update_lease id f db)
unfolding update_lease
update_lease-Frame id f db = record { bindings = refl; requests = refl; claims = refl }

pub with_answer-Frame :
    (db db' : Database) (r : Result StoreError (Order × Database)) (a : Unit {0})
    → ((o : Order) (d : Database) → r ≡ ok (o, d) → Frame db d)
    → with_answer r ≡ ok (a, db')
    → Frame db db'
with_answer-Frame db db' (ok (o, d)) a h e = h o db' (ground arith)
with_answer-Frame db db' (err x) a h e = absurd (ground arith)

pub mark_fulfilled-Frame :
    (t : TxId) (now : Time) (db db' : Database) (o : Order)
    → mark_fulfilled t now db ≡ ok (o, db')
    → Frame db db'
unfolding mark_fulfilled
mark_fulfilled-Frame t now db db' o e = finish_confirmation-Frame t _ _ now db db' o e

pub mark_confirmation_timeout-Frame :
    (t : TxId) (now : Time) (db db' : Database) (o : Order)
    → mark_confirmation_timeout t now db ≡ ok (o, db')
    → Frame db db'
unfolding mark_confirmation_timeout
mark_confirmation_timeout-Frame t now db db' o e = finish_confirmation-Frame t _ _ now db db' o e
