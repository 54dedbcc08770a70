-- ===== src/Gateway/Exclusion.antt =====
-- Address claims (src/repository.ts): one transaction at a time holds an address.
pub mod Open
use catfee_io.Base.{
  ap, sym, ℕ, ◌+◌, ◌≤◌, ◌≡◌, Bool, refl, sym, ◌∙◌, arith, inl, inr, Bool-cases, ◌==◌, ◌&&◌, ◌||◌,
}
use catfee_io.Base.Results.{ok}
use catfee_io.Table.{delete, insert, exists, count}
use catfee_io.Table.Laws.{sum-insert, sum-delete_le, exists-count}
use catfee_io.Store.{Database, ReceiptAudit, Text, Claim, Address, TxId, Time}
use catfee_io.Gateway.Claims.{
  try_acquire_address_claim, release_address_claim, drop_claims_of, release_terminal_address_claims,
}
use catfee_io.Gateway.Leases.{release_active_leases}
use catfee_io.Gateway.Audits.{record_receipt}
use catfee_io.Gateway.Accounting.Steps.{upsert_audit-others, mark_finalized_parts}
use catfee_io.Gateway.Requests.{set_request_state}
use catfee_io.Gateway.Quota.{
  Outcome, record_broadcast_outcome, write_outcome, settle_outcome, finish_outcome, mark_finalized,
  expire_request,
}

abbrev pub of_owner : Address → Claim → Bool
of_owner a c = c.owner_address == a

abbrev pub of_transaction : TxId → Claim → Bool
of_transaction t c = c.tx_id == t

-- One holder to an address, and one address to a transaction.
pub record IsExclusive (db : Database) : Type 0 where
  pub one_holder : (a : Address) → count (of_owner a) db.claims ≤ 1
  pub one_address : (t : TxId) → count (of_transaction t) db.claims ≤ 1

pub acquire-IsExclusive :
    (a : Address) (t : TxId) (taken : Bool) (db db' : Database)
    → try_acquire_address_claim a t db ≡ ok (taken, db')
    → IsExclusive db
    → IsExclusive db'
unfolding try_acquire_address_claim
acquire-IsExclusive a t taken db db' e v = elim (Bool-cases (exists (of_owner a) db.claims)) [
  | inl held ↦ let e' : db ≡ db' = ground arith in rw (← e') v
  | inr free ↦ elim (Bool-cases (exists (of_transaction t) db.claims)) [
    | inl used ↦ let e' : db ≡ db' = ground arith in rw (← e') v
    | inr unused ↦ elim (Bool-cases taken) [
      | inr left ↦ let e' : db ≡ db' = ground arith in rw (← e') v
      | inl new ↦
          let c : Claim = record { owner_address = a; tx_id = t } in
          let e' : record db { claims = insert c db.claims } ≡ db' = ground arith in
          rw (← e') (record {
            one_holder = λ b. ground (
              arith,
              v.one_holder b,
              exists-count (of_owner a) db.claims free,
              sum-insert (of_owner b) (λ _. 1) c db.claims,
            );
            one_address = λ u. ground (
              arith,
              v.one_address u,
              exists-count (of_transaction t) db.claims unused,
              sum-insert (of_transaction u) (λ _. 1) c db.claims,
            );
          })
    ]
  ]
]

-- A DELETE keeps the claims exclusive.
delete-IsExclusive :
    (p : Claim → Bool) (db db' : Database)
    → db'.claims ≡ delete p db.claims
    → IsExclusive db
    → IsExclusive db'
delete-IsExclusive p db db' e v = record {
  one_holder =
      λ a. rw e (omega (arith, v.one_holder a, sum-delete_le p (of_owner a) (λ _. 1) db.claims));
  one_address = λ t.
      rw e (omega (arith, v.one_address t, sum-delete_le p (of_transaction t) (λ _. 1) db.claims));
}

-- One call of a method that writes the claims. `elsewhere` is every other method.
pub data Step (db db' : Database) : Type 0 where
  acquires :
      (a : Address) (t : TxId) (taken : Bool)
      → try_acquire_address_claim a t db ≡ ok (taken, db')
      → Step db db'
  releases : (a : Address) (t : TxId) → db' ≡ release_address_claim a t db → Step db db'
  sweeps : db' ≡ (release_terminal_address_claims db).1 → Step db db'
  records : (o : Outcome) (now : Time) → db' ≡ record_broadcast_outcome o now db → Step db db'
  finalizes :
      (t : TxId) (success : Bool) (delay : ℕ) (receipt : ReceiptAudit) (result : Text) (now : Time)
      → mark_finalized t success delay receipt result now db ≡ ok db'
      → Step db db'
  expires : (t : TxId) (delay : ℕ) (now : Time) → db' ≡ expire_request t delay now db → Step db db'
  elsewhere : db'.claims ≡ db.claims → Step db db'

pub data Reach (start : Database) : Database → Type 0 where
  here : Reach start start
  next : {db db' : Database} → Reach start db → Step db db' → Reach start db'

same_claims-IsExclusive :
    (db db' : Database) → db'.claims ≡ db.claims → IsExclusive db → IsExclusive db'
same_claims-IsExclusive db db' e v = record {
  one_holder = rw e v.one_holder;
  one_address = rw e v.one_address;
}

pub settle_outcome-claims : (o : Outcome) (db : Database) → (settle_outcome o db).claims ≡ db.claims
unfolding settle_outcome
settle_outcome-claims o db = ground arith

finish_outcome-IsExclusive :
    (o : Outcome) (now : Time) (db : Database)
    → IsExclusive db
    → IsExclusive (finish_outcome o now db)
unfolding finish_outcome drop_claims_of release_active_leases
finish_outcome-IsExclusive o now db v = elim (Bool-cases o.is_accepted) [
  | inl good ↦ rw good v
  | inr bad ↦ rw bad (delete-IsExclusive _ db _ refl v)
]

Step-IsExclusive : {db db' : Database} → Step db db' → IsExclusive db → IsExclusive db'
unfolding release_address_claim release_terminal_address_claims record_broadcast_outcome
    write_outcome record_receipt expire_request drop_claims_of release_active_leases
    set_request_state
Step-IsExclusive {db} {db'} (acquires a t taken e) v = acquire-IsExclusive a t taken db db' e v
Step-IsExclusive {db} (releases a t e) v = rw e (delete-IsExclusive _ db _ refl v)
Step-IsExclusive {db} (sweeps e) v = rw e (delete-IsExclusive _ db _ refl v)
Step-IsExclusive {db} (records o now e) v = rw e (
    finish_outcome-IsExclusive o now _
      (same_claims-IsExclusive db _ (settle_outcome-claims o db) v))
Step-IsExclusive {db} {db'} (finalizes t success delay receipt result now e) v =
    let (audited, recorded, dropped) =
      mark_finalized_parts t success delay receipt result now db db' e in
    let others = ap (λ x. x.claims) (sym (upsert_audit-others t _ _ audited recorded)) in
    rw (← dropped)
      (delete-IsExclusive _ audited _ refl (same_claims-IsExclusive db audited others v))
Step-IsExclusive {db} (expires t delay now e) v = rw e (delete-IsExclusive _ db _ refl v)
Step-IsExclusive {db} {db'} (elsewhere e) v = same_claims-IsExclusive db db' e v

-- Whatever sequence of calls runs from exclusive claims, such as the empty database: at most one
-- transaction holds an address, and a transaction holds at most one.
pub Reach-IsExclusive : {start db : Database} → IsExclusive start → Reach start db → IsExclusive db
Reach-IsExclusive v here = v
Reach-IsExclusive v (next r s) = Step-IsExclusive s (Reach-IsExclusive v r)
