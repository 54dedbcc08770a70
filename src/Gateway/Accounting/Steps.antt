-- ===== src/Gateway/Accounting/Steps.antt =====
-- Every method of `GatewayRepository` that writes address_bindings or broadcast_requests keeps the
-- books of the quota right, so they are right after any sequence of calls.
use mathlib.Core.Path.{subst}
use catfee_io.Base.{
  ◌==◌, ap, sym, ◌∙◌, if◌then◌else◌, not, ◌&&◌, ℕ, ◌≡◌, Bool, true, false, Option, some, List, refl,
  arith, inl, inr, Option-cases, Bool-cases,
}
use catfee_io.Base.Int.{ℤ}
use catfee_io.Base.Results.{ok, Result-cases}
use catfee_io.Table.{delete, exists, update, insert}
use catfee_io.Store.{
  Database, Audit, ReceiptAudit, is_received, solidified_success, solidified_failed, Binding,
  Request, RequestState, Address, TxId, Text, Time,
}
use catfee_io.Gateway.Bindings.{
  BindingInput, upsert_binding, set_binding_enabled, reset_binding_usage, at_address, get_binding,
  limit_out_of_range, patch_binding, new_binding, reset_rows,
}
use catfee_io.Gateway.Requests.{
  Transaction, Requirement, begin_request, discard_unprepared_request, update_requirements,
  set_request_state, complete_request, fail_request, of_tx, find_request, new_request,
}
use catfee_io.Gateway.Quota.{
  reserve_quota, move_quota, record_broadcast_outcome, Outcome, take_reservation, holds_quota,
  settle_outcome, write_outcome, finish_outcome, may_reserve, mark_finalized, expire_request,
}
use catfee_io.Gateway.Claims.{drop_claims_of}
use catfee_io.Gateway.Audits.{upsert_audit, record_receipt, audit_of, new_audit}
use catfee_io.Gateway.Leases.{release_active_leases}
use catfee_io.Gateway.Accounting.{
  IsAccounted, update_requests-IsAccounted, insert_request-IsAccounted, delete_requests-IsAccounted,
  clear-IsAccounted, update_bindings-IsAccounted, insert_binding-IsAccounted, reserve-IsAccounted,
  settle-IsAccounted,
}

abbrev pub Balanced : Database → Type 0
Balanced db = IsAccounted db.bindings db.requests

-- The row of the transaction, if there is one, belongs to the address: what each caller passes.
abbrev pub Owns : Address → TxId → Database → Type 0
Owns a t db = (r : Request) → find_request t db ≡ some r → r.owner_address ≡ a

pub upsert_binding-Balanced :
    (input : BindingInput) (db db' : Database)
    → upsert_binding input db ≡ ok db'
    → Balanced db
    → Balanced db'
unfolding upsert_binding
upsert_binding-Balanced input db db' e v =
    elim (Bool-cases (limit_out_of_range input.max_transactions)) [
      | inl bad ↦ absurd (ground arith)
      | inr fine ↦ elim (Bool-cases (exists (at_address input.address) db.bindings)) [
        | inl old ↦
            let e' : record db {
              bindings = update (at_address input.address) (patch_binding input) db.bindings;
            }
                ≡ db' =
              ground arith in
            rw (← e') (update_bindings-IsAccounted v _ _ (λ _. refl) (λ _. refl))
        | inr new ↦
            let e' : record db { bindings = insert (new_binding input) db.bindings } ≡ db' =
              ground arith in
            rw (← e') (insert_binding-IsAccounted v (new_binding input) new refl)
      ]
    ]

pub reset_binding_usage-Balanced :
    (a : Address) (max : Option (Option ℤ)) (require : Bool) (db : Database)
    (answer : Option Binding × Database)
    → reset_binding_usage a max require db ≡ ok answer
    → Balanced db
    → Balanced answer.1
unfolding reset_binding_usage
reset_binding_usage-Balanced a max require db answer e v =
    elim (Bool-cases (limit_out_of_range max)) [
      | inl bad ↦ absurd (ground arith)
      | inr fine ↦
          let e' : reset_rows a max require db ≡ answer.1 = ground arith in
          rw (← e') (update_bindings-IsAccounted v _ _ (λ _. refl) (λ _. refl))
    ]

pub set_binding_enabled-Balanced :
    (a : Address) (on : Bool) (db : Database)
    → Balanced db
    → Balanced (set_binding_enabled a on db).1
unfolding set_binding_enabled
set_binding_enabled-Balanced a on db v = update_bindings-IsAccounted v _ _ (λ _. refl) (λ _. refl)

pub begin_request-Balanced :
    (t : Transaction) (now : Time) (db : Database)
    → Balanced db
    → Balanced (begin_request t now db).1
unfolding begin_request
begin_request-Balanced t now db v = elim (Bool-cases (exists (of_tx t.tx_id) db.requests)) [
  | inl old ↦ rw old v
  | inr new ↦ rw new (insert_request-IsAccounted v (new_request t now) new refl)
]

pub discard_unprepared_request-Balanced :
    (t : TxId) (db db' : Database)
    → discard_unprepared_request t db ≡ ok db'
    → Balanced db
    → Balanced db'
unfolding discard_unprepared_request
discard_unprepared_request-Balanced t db db' e v =
    let unprepared : Request → Bool = λ r.
      of_tx t r
      && is_received r.state
      && not r.quota_reserved
      && not (exists (λ c. c.tx_id == r.tx_id) db.claims)
      && not (exists (λ l. l.tx_id == r.tx_id) db.leases)
      && not (exists (λ o. o.tx_id == r.tx_id) db.orders) in
    let e' : record db { requests = delete unprepared db.requests } ≡ db' = ground arith in
    rw (← e') (delete_requests-IsAccounted v unprepared (λ r h. ground arith))

pub mark_finalized_parts :
    (t : TxId) (success : Bool) (delay : ℕ) (receipt : ReceiptAudit) (result : Text) (now : Time)
    (db db' : Database)
    → mark_finalized t success delay receipt result now db ≡ ok db'
    → (audited : Database) × (record_receipt t receipt result now
          (set_request_state t (if success then solidified_success else solidified_failed) now db)
        ≡ ok audited)
      × (drop_claims_of t (release_active_leases t delay now audited) ≡ db')
unfolding mark_finalized
mark_finalized_parts t success delay receipt result now db db' e =
    elim (Result-cases (
      record_receipt t receipt result now
        (set_request_state t (if success then solidified_success else solidified_failed) now db))) [
          | inl (audited, h) ↦ (audited, h, ground (arith, h))
          | inr (x, h) ↦ absurd (ground (arith, h))
        ]

-- The audit row of a finalized transaction is in a table of its own.
pub upsert_audit-others :
    (t : TxId) (f : Audit → Audit) (db db' : Database)
    → upsert_audit t f db ≡ ok db'
    → record db { audits = db'.audits } ≡ db'
unfolding upsert_audit
upsert_audit-others t f db db' e = elim (Bool-cases (exists (audit_of t) db.audits)) [
  | inl old ↦
      let e' : record db { audits = update (audit_of t) f db.audits } ≡ db' = ground arith in
      rw (← e') refl
  | inr new ↦
      let e' : record db { audits = insert (f (new_audit t)) db.audits } ≡ db' = ground arith in
      rw (← e') refl
]

pub reserve_quota-Balanced :
    (a : Address) (t : TxId) (finite : Bool) (now : Time) (db : Database) (r : Request)
    → find_request t db ≡ some r
    → r.owner_address ≡ a
    → r.quota_reserved ≡ false
    → Balanced db
    → Balanced (reserve_quota a t finite now db).1
unfolding reserve_quota find_request take_reservation get_binding
reserve_quota-Balanced a t finite now db r er owner free v =
    elim (Option-cases (get_binding a db)) [
      | inl e ↦ rw (e, reserve_quota) v
      | inr (b, e) ↦
          rw (e, reserve_quota)
            (elim (Bool-cases (may_reserve finite now b)) [
              | inl m ↦ rw m (
                  reserve-IsAccounted v a t b r _ _ e er owner free (λ _. refl) refl (λ _. refl)
                    (λ _. refl) refl)
              | inr m ↦ rw m v
            ])
    ]

pub holds_quota-row :
    (t : TxId) (db : Database)
    → holds_quota t db ≡ true
    → (r : Request) × (find_request t db ≡ some r) × (r.quota_reserved ≡ true)
unfolding holds_quota
holds_quota-row t db h = elim (Option-cases (find_request t db)) [
  | inl e ↦ absurd (ground arith)
  | inr (r, e) ↦ (r, e, ground arith)
]

pub holds_quota-free :
    (t : TxId) (db : Database) (r : Request)
    → holds_quota t db ≡ false
    → find_request t db ≡ some r
    → r.quota_reserved ≡ false
unfolding holds_quota
holds_quota-free t db r h e = ground arith

pub move_quota-Balanced :
    (a : Address) (t : TxId) (consume : Bool) (now : Time) (db : Database)
    → Owns a t db
    → Balanced db
    → Balanced (move_quota a t consume now db)
unfolding move_quota find_request
move_quota-Balanced a t consume now db owns v = elim (Bool-cases (holds_quota t db)) [
  | inl h ↦
      let (r, e, held) = holds_quota-row t db h in
      rw h (settle-IsAccounted v a t r consume _ e (owns r e) held (λ _. refl) (λ _. refl) refl)
  | inr h ↦ rw h v
]

pub write_outcome-Balanced :
    (o : Outcome) (now : Time) (db : Database)
    → Owns o.owner_address o.tx_id db
    → Balanced db
    → Balanced (write_outcome o now (settle_outcome o db))
unfolding write_outcome settle_outcome find_request
write_outcome-Balanced o now db owns v = elim (Bool-cases (holds_quota o.tx_id db)) [
  | inl h ↦
      let (r, e, held) = holds_quota-row o.tx_id db h in
      rw h (
        settle-IsAccounted v o.owner_address o.tx_id r _ _ e (owns r e) held (λ _. refl) (λ _. refl)
          refl)
  | inr h ↦ rw h (
      clear-IsAccounted v o.tx_id _ (λ r e. holds_quota-free o.tx_id db r h e) (λ _. refl)
        (λ _. refl))
]

pub finish_outcome-Balanced :
    (o : Outcome) (now : Time) (db : Database) → Balanced db → Balanced (finish_outcome o now db)
unfolding finish_outcome drop_claims_of release_active_leases
finish_outcome-Balanced o now db v = elim (Bool-cases o.is_accepted) [
  | inl e ↦ rw e v
  | inr e ↦ rw e v
]

pub record_broadcast_outcome-Balanced :
    (o : Outcome) (now : Time) (db : Database)
    → Owns o.owner_address o.tx_id db
    → Balanced db
    → Balanced (record_broadcast_outcome o now db)
unfolding record_broadcast_outcome
record_broadcast_outcome-Balanced o now db owns v =
    finish_outcome-Balanced o now _ (write_outcome-Balanced o now db owns v)

module _ (t : TxId) (now : Time) (db : Database) (v : Balanced db) where
  pub set_request_state-Balanced : (s : RequestState) → Balanced (set_request_state t s now db)
  unfolding set_request_state
  set_request_state-Balanced s =
      update_requests-IsAccounted v _ _ (λ _. refl) (λ _. refl) (λ _. refl)

  pub update_requirements-Balanced :
      (qs : List Requirement) → Balanced (update_requirements t qs now db)
  unfolding update_requirements
  update_requirements-Balanced qs =
      update_requests-IsAccounted v _ _ (λ _. refl) (λ _. refl) (λ _. refl)

  pub complete_request-Balanced :
      (s : RequestState) (response : List ℕ) (status : Text) (code message : Option Text)
      → Balanced (complete_request t s response status code message now db)
  unfolding complete_request
  complete_request-Balanced s response status code message =
      update_requests-IsAccounted v _ _ (λ _. refl) (λ _. refl) (λ _. refl)

  pub fail_request-Balanced : (code message : Text) → Balanced (fail_request t code message now db)
  unfolding fail_request
  fail_request-Balanced code message =
      update_requests-IsAccounted v _ _ (λ _. refl) (λ _. refl) (λ _. refl)

  pub mark_finalized-Balanced :
      (success : Bool) (delay : ℕ) (receipt : ReceiptAudit) (result : Text) (db' : Database)
      → mark_finalized t success delay receipt result now db ≡ ok db'
      → Balanced db'
  unfolding mark_finalized record_receipt drop_claims_of release_active_leases
  mark_finalized-Balanced success delay receipt result db' e =
      let (audited, recorded, dropped) =
        mark_finalized_parts t success delay receipt result now db db' e in
      let moved =
        set_request_state t (if success then solidified_success else solidified_failed) now db in
      let balanced : Balanced audited =
        subst Balanced (upsert_audit-others t _ moved audited recorded)
          (set_request_state-Balanced _) in
      rw (← dropped) balanced

  pub expire_request-Balanced : (delay : ℕ) → Balanced (expire_request t delay now db)
  unfolding expire_request drop_claims_of release_active_leases
  expire_request-Balanced delay = set_request_state-Balanced _

pub discard-bindings :
    (t : TxId) (db db' : Database)
    → discard_unprepared_request t db ≡ ok db'
    → db'.bindings ≡ db.bindings
unfolding discard_unprepared_request
discard-bindings t db db' e = ground arith

pub mark_finalized-bindings :
    (t : TxId) (success : Bool) (delay : ℕ) (receipt : ReceiptAudit) (result : Text) (now : Time)
    (db db' : Database)
    → mark_finalized t success delay receipt result now db ≡ ok db'
    → db'.bindings ≡ db.bindings
unfolding record_receipt drop_claims_of release_active_leases set_request_state
mark_finalized-bindings t success delay receipt result now db db' e =
    let (audited, recorded, dropped) =
      mark_finalized_parts t success delay receipt result now db db' e in
    ap (λ x. x.bindings) (sym dropped)
    ∙ ap (λ x. x.bindings) (sym (upsert_audit-others t _ _ audited recorded))

pub mark_finalized-requests :
    (t : TxId) (success : Bool) (delay : ℕ) (receipt : ReceiptAudit) (result : Text) (now : Time)
    (db db' : Database)
    → mark_finalized t success delay receipt result now db ≡ ok db'
    → db'.requests
      ≡ (set_request_state t
          (if success then solidified_success else solidified_failed)
          now
          db).requests
unfolding record_receipt drop_claims_of release_active_leases
mark_finalized-requests t success delay receipt result now db db' e =
    let (audited, recorded, dropped) =
      mark_finalized_parts t success delay receipt result now db db' e in
    ap (λ x. x.requests) (sym dropped)
    ∙ ap (λ x. x.requests) (sym (upsert_audit-others t _ _ audited recorded))
