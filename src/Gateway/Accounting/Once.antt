-- ===== src/Gateway/Accounting/Once.antt =====
-- A transaction is charged once (src/repository.ts): however often its outcome is recorded or its quota
-- is moved, the counters of the bindings change the first time only.
use mathlib.Core.Path.{subst}
use catfee_io.Base.{
  ap, ◌∙◌, sym, ◌≡◌, Bool, true, false, refl, arith, inl, inr, Option-cases, Bool-cases,
}
use catfee_io.Table.{update, select}
use catfee_io.Table.Laws.{select-update}
use catfee_io.Store.{Database, Request, Address, TxId, Time}
use catfee_io.Gateway.Requests.{of_tx, find_request}
use catfee_io.Gateway.Claims.{drop_claims_of}
use catfee_io.Gateway.Leases.{release_active_leases}
use catfee_io.Gateway.Quota.{
  holds_quota, move_quota, Outcome, record_broadcast_outcome, settle_outcome, write_outcome,
  finish_outcome,
}

-- The update of the request that ends a settlement leaves it without quota.
cleared :
    (t : TxId) (f : Request → Request) (db db' : Database)
    → ((r : Request) → of_tx t r ≡ true → of_tx t (f r) ≡ true)
    → ((r : Request) → (f r).quota_reserved ≡ false)
    → db'.requests ≡ update (of_tx t) f db.requests
    → holds_quota t db' ≡ false
unfolding holds_quota find_request
cleared t f db db' h c e =
    let found = ap (select (of_tx t)) e ∙ select-update (of_tx t) f h db.requests in
    elim (Option-cases (select (of_tx t) db.requests)) [
      | inl absent ↦ ground (arith, found, absent)
      | inr (r, present) ↦ ground (arith, found, present, c r)
    ]

move_quota-cleared :
    (a : Address) (t : TxId) (consume : Bool) (now : Time) (db : Database)
    → holds_quota t (move_quota a t consume now db) ≡ false
unfolding move_quota
move_quota-cleared a t consume now db = elim (Bool-cases (holds_quota t db)) [
  | inl held ↦ rw held (
      cleared t (λ r. record r { quota_reserved = false; updated_at = now }) db _ (λ r h. h)
        (λ r. refl) refl)
  | inr free ↦ rw (free, free) refl
]

finish_outcome-holds_quota :
    (t : TxId) (o : Outcome) (now : Time) (db : Database)
    → holds_quota t (finish_outcome o now db) ≡ holds_quota t db
unfolding finish_outcome holds_quota find_request drop_claims_of release_active_leases
finish_outcome-holds_quota t o now db = ground arith

record_broadcast_outcome-cleared :
    (o : Outcome) (now : Time) (db : Database)
    → holds_quota o.tx_id (record_broadcast_outcome o now db) ≡ false
unfolding record_broadcast_outcome write_outcome
record_broadcast_outcome-cleared o now db =
    finish_outcome-holds_quota o.tx_id o now (write_outcome o now (settle_outcome o db))
    ∙ cleared o.tx_id _ (settle_outcome o db) (write_outcome o now (settle_outcome o db)) (λ r h. h)
        (λ r. refl) refl

move_quota-kept :
    (a : Address) (t : TxId) (consume : Bool) (now : Time) (db : Database)
    → holds_quota t db ≡ false
    → (move_quota a t consume now db).bindings ≡ db.bindings
unfolding move_quota
move_quota-kept a t consume now db h = rw h refl

record_broadcast_outcome-kept :
    (o : Outcome) (now : Time) (db : Database)
    → holds_quota o.tx_id db ≡ false
    → (record_broadcast_outcome o now db).bindings ≡ db.bindings
unfolding record_broadcast_outcome finish_outcome write_outcome settle_outcome drop_claims_of
    release_active_leases
record_broadcast_outcome-kept o now db h = ground arith

-- One settlement of a transaction: its outcome is recorded, or its quota is moved.
pub data Settlement : Type 0 where
  recorded : Outcome → Time → Settlement
  moved : Address → TxId → Bool → Time → Settlement

abbrev pub settled_tx : Settlement → TxId
settled_tx (recorded o now) = o.tx_id
settled_tx (moved a t consume now) = t

abbrev pub settle : Settlement → Database → Database
settle (recorded o now) = record_broadcast_outcome o now
settle (moved a t consume now) = move_quota a t consume now

settle-cleared : (s : Settlement) (db : Database) → holds_quota (settled_tx s) (settle s db) ≡ false
settle-cleared (recorded o now) db = record_broadcast_outcome-cleared o now db
settle-cleared (moved a t consume now) db = move_quota-cleared a t consume now db

settle-kept :
    (s : Settlement) (db : Database)
    → holds_quota (settled_tx s) db ≡ false
    → (settle s db).bindings ≡ db.bindings
settle-kept (recorded o now) db h = record_broadcast_outcome-kept o now db h
settle-kept (moved a t consume now) db h = move_quota-kept a t consume now db h

-- Two settlements of the same transaction, in whatever combination of recordBroadcastOutcome,
-- consumeQuota and releaseQuota: the second leaves every binding as the first left it, so that the
-- transaction is counted as used once at most, and one reservation is given back for it at most.
pub settle_once :
    (first second : Settlement) (db : Database)
    → settled_tx second ≡ settled_tx first
    → (settle second (settle first db)).bindings ≡ (settle first db).bindings
settle_once first second db e =
    settle-kept second (settle first db)
      (subst (λ t. holds_quota t (settle first db) ≡ false) (sym e) (settle-cleared first db))
