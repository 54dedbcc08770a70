-- ===== src/Gateway/Exclusion/Open.antt =====
-- Address claims (src/repository.ts): no method frees an address while something of the transaction
-- that holds it is still open.
use mathlib.Core.Path.{subst}
use catfee_io.Base.{
  ap, ℕ, ◌+◌, some, ◌≡◌, Bool, true, false, refl, sym, ◌∙◌, arith, inl, inr, Bool-cases, ◌==◌, ◌&&◌,
  ◌||◌,
}
use catfee_io.Base.Results.{ok}
use catfee_io.Table.{delete, insert, exists}
use catfee_io.Table.Laws.{exists-delete, exists-update, exists-insert}
use catfee_io.Store.{
  Database, ReceiptAudit, Text, Claim, Address, TxId, Time, RequestState, release_pending,
  is_unfinished_lease, is_active,
}
use catfee_io.Gateway.Claims.{
  has_open_order, has_unfinished_lease, may_drop, try_acquire_address_claim, release_address_claim,
  drop_claims_of, release_terminal_address_claims,
}
use catfee_io.Gateway.Leases.{release_active_leases}
use catfee_io.Gateway.Audits.{record_receipt}
use catfee_io.Gateway.Accounting.Steps.{upsert_audit-others, mark_finalized_parts}
use catfee_io.Gateway.Requests.{set_request_state}
use catfee_io.Gateway.Quota.{
  Outcome, record_broadcast_outcome, write_outcome, settle_outcome, finish_outcome, expire_request,
}
use catfee_io.Gateway.Exclusion.{
  Step, acquires, releases, sweeps, records, finalizes, expires, elsewhere, settle_outcome-claims,
}

-- The transaction holds the claim on the address.
unfoldable pub holds : Address → TxId → Database → Bool
holds a t db = exists (λ c. c.owner_address == a && c.tx_id == t) db.claims

-- An order of the transaction is open, or one of its leases is not finished.
unfoldable pub is_open : TxId → Database → Bool
is_open t db = has_open_order t db || has_unfinished_lease t db

-- Neither NOT EXISTS lets the claim of an open transaction go.
open-kept :
    (c : Claim) (t : TxId) (db : Database)
    → c.tx_id ≡ t
    → is_open t db ≡ true
    → may_drop db c ≡ false
unfolding is_open may_drop
open-kept c t db e o =
    let here : has_open_order c.tx_id db || has_unfinished_lease c.tx_id db ≡ true =
      subst (λ k. has_open_order k db || has_unfinished_lease k db ≡ true) (sym e) o in
    ground arith

-- A DELETE that carries both NOT EXISTS keeps the claim of an open transaction.
delete-holds :
    (a : Address) (t : TxId) (db mid db' : Database) (p : Claim → Bool)
    → ((c : Claim) → p c ≡ true → may_drop mid c ≡ true)
    → is_open t mid ≡ true
    → mid.claims ≡ db.claims
    → db'.claims ≡ delete p mid.claims
    → holds a t db' ≡ holds a t db
unfolding holds
delete-holds a t db mid db' p h o m e =
    rw (e, m)
      (exists-delete p (λ c. c.owner_address == a && c.tx_id == t)
        (λ c k.
          let at_t : c.tx_id ≡ t = ground arith in ground (arith, h c, open-kept c t mid at_t o))
        db.claims)

same_claims-holds :
    (a : Address) (t : TxId) (db db' : Database)
    → db'.claims ≡ db.claims
    → holds a t db' ≡ holds a t db
unfolding holds
same_claims-holds a t db db' e = rw e refl

release_active_leases-claims :
    (u : TxId) (delay : ℕ) (now : Time) (db : Database)
    → (release_active_leases u delay now db).claims ≡ db.claims
unfolding release_active_leases
release_active_leases-claims u delay now db = refl

release-open :
    (t u : TxId) (delay : ℕ) (now : Time) (db : Database)
    → is_open t (release_active_leases u delay now db) ≡ is_open t db
unfolding is_open release_active_leases has_open_order has_unfinished_lease
release-open t u delay now db =
    rw
      (exists-update (λ l. l.tx_id == u && is_active l.state)
        (λ l. l.tx_id == t && is_unfinished_lease l.state)
        (λ l. record l {
          state = release_pending;
          release_after = some (now + delay);
          updated_at = now;
        })
        (λ l h. ground arith) db.leases)
      refl

drop_claims-holds :
    (a : Address) (t u : TxId) (delay : ℕ) (now : Time) (db mid : Database)
    → mid.claims ≡ db.claims
    → is_open t mid ≡ true
    → holds a t (drop_claims_of u (release_active_leases u delay now mid)) ≡ holds a t db
unfolding drop_claims_of
drop_claims-holds a t u delay now db mid m h =
    let after = release_active_leases u delay now mid in
    delete-holds a t db after (drop_claims_of u after) (λ c. c.tx_id == u && may_drop after c)
      (λ c k. ground arith) (release-open t u delay now mid ∙ h)
      (release_active_leases-claims u delay now mid ∙ m) refl

finish_outcome-holds :
    (a : Address) (t : TxId) (o : Outcome) (now : Time) (db mid : Database)
    → mid.claims ≡ db.claims
    → is_open t mid ≡ true
    → holds a t (finish_outcome o now mid) ≡ holds a t db
unfolding finish_outcome
finish_outcome-holds a t o now db mid m h = elim (Bool-cases o.is_accepted) [
  | inl good ↦ rw good (same_claims-holds a t db mid m)
  | inr bad ↦ rw bad (drop_claims-holds a t o.tx_id o.reclaim_delay_ms now db mid m h)
]

outcome-open :
    (t : TxId) (o : Outcome) (now : Time) (db : Database)
    → is_open t (write_outcome o now (settle_outcome o db)) ≡ is_open t db
unfolding is_open has_open_order has_unfinished_lease write_outcome settle_outcome
outcome-open t o now db = ground arith

set_state-open :
    (t u : TxId) (s : RequestState) (now : Time) (db : Database)
    → is_open t (set_request_state u s now db) ≡ is_open t db
unfolding is_open has_open_order has_unfinished_lease set_request_state
set_state-open t u s now db = refl

set_state-claims :
    (u : TxId) (s : RequestState) (now : Time) (db : Database)
    → (set_request_state u s now db).claims ≡ db.claims
unfolding set_request_state
set_state-claims u s now db = refl

outcome-claims :
    (o : Outcome) (now : Time) (db : Database)
    → (write_outcome o now (settle_outcome o db)).claims ≡ db.claims
unfolding write_outcome
outcome-claims o now db = settle_outcome-claims o db

recorded-claims :
    (u : TxId) (receipt : ReceiptAudit) (result : Text) (s : RequestState) (now : Time)
    (db audited : Database)
    → record_receipt u receipt result now (set_request_state u s now db) ≡ ok audited
    → audited.claims ≡ db.claims
unfolding record_receipt set_request_state
recorded-claims u receipt result s now db audited e =
    ap (λ x. x.claims) (sym (upsert_audit-others u _ _ audited e))

recorded-open :
    (t u : TxId) (receipt : ReceiptAudit) (result : Text) (s : RequestState) (now : Time)
    (db audited : Database)
    → record_receipt u receipt result now (set_request_state u s now db) ≡ ok audited
    → is_open t audited ≡ is_open t db
unfolding record_receipt set_request_state is_open has_open_order has_unfinished_lease
recorded-open t u receipt result s now db audited e =
    ap (is_open t) (sym (upsert_audit-others u _ _ audited e))

acquire-holds :
    (a b : Address) (t u : TxId) (taken : Bool) (db db' : Database)
    → try_acquire_address_claim b u db ≡ ok (taken, db')
    → holds a t db ≡ true
    → holds a t db' ≡ true
unfolding try_acquire_address_claim holds
acquire-holds a b t u taken db db' e h = elim (Bool-cases taken) [
  | inr left ↦ let e' : db ≡ db' = ground arith in rw (← e') h
  | inl new ↦
      let c : Claim = record { owner_address = b; tx_id = u } in
      let e' : record db { claims = insert c db.claims } ≡ db' = ground arith in
      rw (← e') (exists-insert (λ x. x.owner_address == a && x.tx_id == t) c db.claims h)
]

-- While an order of the transaction is open or one of its leases is not finished, no call takes its
-- claim away: the transaction still holds the address afterwards.
pub Step-holds :
    {db db' : Database} (a : Address) (t : TxId)
    → Step db db'
    → is_open t db ≡ true
    → holds a t db ≡ true
    → holds a t db' ≡ true
unfolding release_address_claim release_terminal_address_claims record_broadcast_outcome
    expire_request
Step-holds {db} {db'} a t (acquires b u taken e) o h = acquire-holds a b t u taken db db' e h
Step-holds {db} a t (releases b u e) o h =
    rw e (delete-holds a t db db _ _ (λ c k. ground arith) o refl refl ∙ h)
Step-holds {db} a t (sweeps e) o h =
    rw e (delete-holds a t db db _ _ (λ c k. ground arith) o refl refl ∙ h)
Step-holds {db} a t (records x now e) o h = rw e (
    finish_outcome-holds a t x now db _ (outcome-claims x now db) (outcome-open t x now db ∙ o) ∙ h)
Step-holds {db} {db'} a t (finalizes u success delay receipt result now e) o h =
    let (audited, recorded, dropped) =
      mark_finalized_parts u success delay receipt result now db db' e in
    rw (← dropped) (
      drop_claims-holds a t u delay now db audited
        (recorded-claims u receipt result _ now db audited recorded)
        (recorded-open t u receipt result _ now db audited recorded ∙ o)
      ∙ h)
Step-holds {db} a t (expires u delay now e) o h = rw e (
    drop_claims-holds a t u delay now db _ (set_state-claims u _ now db)
      (set_state-open t u _ now db ∙ o)
    ∙ h)
Step-holds {db} {db'} a t (elsewhere e) o h = same_claims-holds a t db db' e ∙ h
