-- ===== src/Workers/Decided.antt =====
-- A request that is decided stays so in the confirmation loop of src/workers.ts.
use catfee_io.Base.{
  ℕ, Bool, true, false, Option, none, some, List, [], ◌∷◌, ◌≡◌, inl, inr, refl, arith, Bool-cases,
  ◌==◌, ◌&&◌, if◌then◌else◌,
}
use catfee_io.Base.Results.{Result, ok, err}
use catfee_io.Base.Triples.{lift-Keeps, Keeps, bind, return-Triple, when-Triple}
use catfee_io.Table.{update}
use catfee_io.Table.Laws.{All, All-update}
use catfee_io.Store.{
  Database, Request, TxId, Text, Time, StoreError, ReceiptAudit, upstream_accepted,
  upstream_rejected, solidified_success, solidified_failed,
}
use catfee_io.Gateway.Requests.{of_tx, is_preparing, is_failed, set_request_state}
use catfee_io.Gateway.Claims.{drop_claims_of}
use catfee_io.Gateway.Leases.{release_active_leases}
use catfee_io.Gateway.Quota.{
  Outcome, record_broadcast_outcome, mark_finalized, expire_request, write_outcome, settle_outcome,
}
use catfee_io.Gateway.Accounting.Steps.{mark_finalized-requests}
use catfee_io.Resources.{Receipt}
use catfee_io.Resources.World.{Session, answerless}
use catfee_io.Resources.World.Calls.{writes-Keeps, call-Keeps}
use catfee_io.Broadcast.Books.{settle_outcome-requests, finish_outcome-requests}
use catfee_io.Workers.{
  Watch, Solidified, record_recovery, follow_receipt, recover_all, follow_solidified, finalize_all,
}

-- A row as it stands that the test of listStaleRequests does not meet, whatever the time.
abbrev pub IsSettledRow : Request → Type 0
IsSettledRow r = (is_preparing r.state ≡ false) × (is_failed r.state && r.quota_reserved ≡ false)

abbrev pub IsDecided : TxId → Database → Type 0
IsDecided t db = All (λ r. (r.tx_id == t) ≡ true → IsSettledRow r) db.requests

-- An update of the rows of the transaction.
update-decides :
    (t : TxId) (f : Request → Request) (rs : List Request)
    → ((r : Request) → IsSettledRow (f r))
    → All (λ (r : Request). (r.tx_id == t) ≡ true → IsSettledRow r) (update (of_tx t) f rs)
unfolding update
update-decides t f [] h = tt
update-decides t f (r ∷ rs) h = elim (Bool-cases (of_tx t r)) [
  | inl e ↦ rw e (λ _. h r, update-decides t f rs h)
  | inr e ↦ rw e (λ own. absurd (ground arith), update-decides t f rs h)
]

outcome_row :
    (o : Outcome) (now : Time) (db : Database)
    → (record_broadcast_outcome o now db).requests
      ≡ (write_outcome o now (settle_outcome o db)).requests
unfolding record_broadcast_outcome
outcome_row o now db = finish_outcome-requests o now (write_outcome o now (settle_outcome o db))

outcome_state :
    (b : Bool)
    → (is_preparing (if b then upstream_accepted else upstream_rejected) ≡ false)
      × (is_failed (if b then upstream_accepted else upstream_rejected) && false ≡ false)
outcome_state true = (refl, refl)
outcome_state false = (refl, refl)

pub record_decides :
    (o : Outcome) (now : Time) (db : Database)
    → IsDecided o.tx_id (record_broadcast_outcome o now db)
unfolding write_outcome
record_decides o now db =
    rw (outcome_row o now db)
      (update-decides o.tx_id _ (settle_outcome o db).requests (λ r. outcome_state o.is_accepted))

module _ (t : TxId) where
  -- An update that settles the rows that it changes, and leaves their transaction.
  update-IsDecided :
      (p : Request → Bool) (f : Request → Request) (rs : List Request)
      → ((r : Request) → p r ≡ true → IsSettledRow (f r))
      → All (λ (r : Request). (r.tx_id == t) ≡ true → IsSettledRow r) rs
      → All (λ (r : Request). (r.tx_id == t) ≡ true → IsSettledRow r) (update p f rs)
  update-IsDecided p f rs h v = All-update _ _ p f (λ r e k _. h r e) (λ r k. k) rs v

  final_state :
      (b held : Bool)
      → (is_preparing (if b then solidified_success else solidified_failed) ≡ false)
        × (is_failed (if b then solidified_success else solidified_failed) && held ≡ false)
  final_state true held = (refl, refl)
  final_state false held = (refl, refl)

  record-IsDecided :
      (o : Outcome) (now : Time) (db : Database)
      → IsDecided t db
      → IsDecided t (record_broadcast_outcome o now db)
  unfolding write_outcome
  record-IsDecided o now db v = rw (outcome_row o now db) (
      update-IsDecided _ _ (settle_outcome o db).requests (λ r e. outcome_state o.is_accepted)
        (rw (settle_outcome-requests o db) v))

  expire-IsDecided :
      (u : TxId) (delay : ℕ) (now : Time) (db : Database)
      → IsDecided t db
      → IsDecided t (expire_request u delay now db)
  unfolding expire_request set_request_state drop_claims_of release_active_leases
  expire-IsDecided u delay now db v = update-IsDecided _ _ db.requests (λ r e. (refl, refl)) v

  finalize-IsDecided :
      (u : TxId) (b : Bool) (delay : ℕ) (receipt : ReceiptAudit) (result : Text) (now : Time)
      (db db' : Database)
      → mark_finalized u b delay receipt result now db ≡ ok db'
      → IsDecided t db
      → IsDecided t db'
  unfolding set_request_state
  finalize-IsDecided u b delay receipt result now db db' e v =
      rw (mark_finalized-requests u b delay receipt result now db db' e)
        (update-IsDecided _ _ db.requests (λ r e. final_state b r.quota_reserved) v)

  abbrev pub Decided : Session → Type 0
  Decided s = IsDecided t s.database

  finalized :
      (r : Result StoreError Database) (db : Database) → answerless r ≡ ok (tt, db) → r ≡ ok db
  finalized (ok d) db e = ground arith
  finalized (err x) db e = absurd (ground arith)

  module _ (w : Watch) where
    follow_receipt-Decided :
        (r : Request) (receipt : Option Receipt) → Keeps Decided (follow_receipt w r receipt)
    unfolding follow_receipt record_recovery
    follow_receipt-Decided r (some receipt) =
        writes-Keeps w.node _ _ (λ s v. record-IsDecided _ _ s.database v)
    follow_receipt-Decided r none =
        when-Triple _ (λ _. writes-Keeps w.node _ _ (λ s v. record-IsDecided _ _ s.database v))
          (λ _ s v. v)

    pub recover_all-Decided : (rs : List Request) → Keeps Decided (recover_all w rs)
    unfolding recover_all
    recover_all-Decided [] = return-Triple tt (λ s v. v)
    recover_all-Decided (r ∷ rs) =
        bind (lift-Keeps _)
          λ receipt. bind (follow_receipt-Decided r receipt) λ _. recover_all-Decided rs

    follow_solidified-Decided :
        (r : Request) (z : Option Solidified) → Keeps Decided (follow_solidified w r z)
    unfolding follow_solidified
    follow_solidified-Decided r (some z) =
        call-Keeps w.node _ _
          (λ s a db v e. finalize-IsDecided r.tx_id _ _ _ _ _ s.database db (finalized _ db e) v)
    follow_solidified-Decided r none =
        when-Triple _ (λ _. writes-Keeps w.node _ _ (λ s v. expire-IsDecided _ _ _ s.database v))
          (λ _ s v. v)

    pub finalize_all-Decided : (rs : List Request) → Keeps Decided (finalize_all w rs)
    unfolding finalize_all
    finalize_all-Decided [] = return-Triple tt (λ s v. v)
    finalize_all-Decided (r ∷ rs) =
        bind (lift-Keeps _) λ z. bind (follow_solidified-Decided r z) λ _. finalize_all-Decided rs
