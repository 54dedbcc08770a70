-- ===== src/Workers/Led.antt =====
-- What the calls of src/workers.ts keep: the books of Gateway.Accounting.Reach, and the owners of the rows.
use catfee_io.Base.{
  ℕ, zero, suc, Bool, List, [], ◌∷◌, ◌≡◌, inl, inr, refl, arith, sym, ap, ◌∙◌, Bool-cases, ltb,
  take, ==_eq,
}
use catfee_io.Base.Results.{Result, ok, err}
use catfee_io.Base.Triples.{Keeps}
use catfee_io.Table.{select_all, update}
use catfee_io.Table.Laws.{All-select_all, All, All-update}
use catfee_io.Store.{ReceiptAudit, Text, Database, Request, Lease, TxId, Address, Time, StoreError}
use catfee_io.Gateway.Requests.{
  of_tx, find_request, list_stale_requests, order_by_update, insert_by_update, is_stale,
  set_request_state,
}
use catfee_io.Gateway.Claims.{drop_claims_of}
use catfee_io.Gateway.Leases.{update_lease, release_active_leases}
use catfee_io.Gateway.Quota.{
  Outcome, record_broadcast_outcome, mark_finalized, expire_request, write_outcome, settle_outcome,
}
use catfee_io.Gateway.Accounting.Steps.{Owns, mark_finalized-requests}
use catfee_io.Gateway.Accounting.Reach.{next, records, finalizes, expires, elsewhere}
use catfee_io.Resources.World.{Node, Session, Site, tries_to, answerless}
use catfee_io.Resources.World.Calls.{call-Keeps}
use catfee_io.Broadcast.Books.{Leads, All-select, settle_outcome-requests, finish_outcome-requests}

-- The rows of every transaction belong to one address.
abbrev pub HasOwners : (TxId → Address) → Database → Type 0
HasOwners own db = All (λ r. r.owner_address ≡ own r.tx_id) db.requests

module _ (own : TxId → Address) where
  abbrev pub Owned : Request → Type 0
  Owned r = r.owner_address ≡ own r.tx_id

  All-insert_by :
      (r : Request) (rs : List Request) → Owned r → All Owned rs → All Owned (insert_by_update r rs)
  unfolding insert_by_update
  All-insert_by r [] o v = (o, tt)
  All-insert_by r (s ∷ rs) o v = elim (Bool-cases (ltb r.updated_at s.updated_at)) [
    | inl e ↦ rw e (o, (v.0, v.1))
    | inr e ↦ rw e (v.0, All-insert_by r rs o v.1)
  ]

  All-order : (rs : List Request) → All Owned rs → All Owned (order_by_update rs)
  unfolding order_by_update
  All-order [] v = tt
  All-order (r ∷ rs) v = All-insert_by r (order_by_update rs) v.0 (All-order rs v.1)

  All-take : (k : ℕ) (rs : List Request) → All Owned rs → All Owned (take k rs)
  All-take zero rs v = tt
  All-take (suc k) [] v = tt
  All-take (suc k) (r ∷ rs) v = (v.0, All-take k rs v.1)

  pub stale-Owned :
      (now : Time) (k : ℕ) (db : Database)
      → HasOwners own db
      → All Owned (list_stale_requests now k db)
  unfolding list_stale_requests
  stale-Owned now k db v =
      All-take k (order_by_update (select_all (is_stale now) db.requests))
        (All-order (select_all (is_stale now) db.requests) (All-select_all Owned _ db.requests v))

  HasOwners-Owns : (t : TxId) (db : Database) → HasOwners own db → Owns (own t) t db
  unfolding find_request
  HasOwners-Owns t db v r e =
      let (there, owned) = All-select _ (of_tx t) db.requests r e v in
      owned ∙ ap own (==_eq r.tx_id t there)

  owners_update :
      (p : Request → Bool) (f : Request → Request) (rs : List Request)
      → ((r : Request) → (f r).tx_id ≡ r.tx_id)
      → ((r : Request) → (f r).owner_address ≡ r.owner_address)
      → All Owned rs
      → All Owned (update p f rs)
  owners_update p f rs ht ho v =
      All-update _ _ p f (λ r e o. ho r ∙ o ∙ ap own (sym (ht r))) (λ r o. o) rs v

  module _ (from : Database) where
    -- What every call of an iteration keeps.
    abbrev pub IsLed : Database → Type 0
    IsLed db = Leads from db × HasOwners own db

    abbrev pub Books : Session → Type 0
    Books s = IsLed s.database

    pub elsewhere-IsLed :
        (db db' : Database)
        → db'.bindings ≡ db.bindings
        → db'.requests ≡ db.requests
        → IsLed db
        → IsLed db'
    elsewhere-IsLed db db' hb hr v = ((next v.0.0 (elsewhere hb hr), (v.0.1, tt)), rw hr v.1)

    pub record-IsLed :
        (o : Outcome) (now : Time) (db : Database)
        → o.owner_address ≡ own o.tx_id
        → IsLed db
        → IsLed (record_broadcast_outcome o now db)
    unfolding record_broadcast_outcome write_outcome
    record-IsLed o now db ho v = (
      (next v.0.0 (records o now (rw ho (HasOwners-Owns o.tx_id db v.1)) refl), (v.0.1, tt)),
      rw (finish_outcome-requests o now (write_outcome o now (settle_outcome o db))) (
          owners_update _ _ (settle_outcome o db).requests (λ _. refl) (λ _. refl)
            (rw (settle_outcome-requests o db) v.1)),
    )

    pub expire-IsLed :
        (t : TxId) (delay : ℕ) (now : Time) (db : Database)
        → IsLed db
        → IsLed (expire_request t delay now db)
    unfolding expire_request set_request_state drop_claims_of release_active_leases
    expire-IsLed t delay now db v = (
      (next v.0.0 (expires t delay now refl), (v.0.1, tt)),
      owners_update _ _ db.requests (λ _. refl) (λ _. refl) v.1,
    )

    pub finalize-IsLed :
        (r : Request) (delay : ℕ) (audit : ReceiptAudit) (result : Text) (now : Time) (b : Bool)
        (db db' : Database)
        → mark_finalized r.tx_id b delay audit result now db ≡ ok db'
        → IsLed db
        → IsLed db'
    unfolding set_request_state
    finalize-IsLed r delay audit result now b db db' e v = (
      (next v.0.0 (finalizes r.tx_id b delay audit result now e), (v.0.1, tt)),
      rw (mark_finalized-requests r.tx_id b delay audit result now db db' e)
          (owners_update _ _ db.requests (λ _. refl) (λ _. refl) v.1),
    )

    pub lease-IsLed :
        (id : ℕ) (f : Lease → Lease) (db : Database) → IsLed db → IsLed (update_lease id f db)
    unfolding update_lease
    lease-IsLed id f db v = elsewhere-IsLed db _ refl refl v

    pub tried :
        (n : Node) (site : Site) (f : Database → Result StoreError Database)
        → ((db db' : Database) → f db ≡ ok db' → IsLed db → IsLed db')
        → Keeps Books (tries_to n site f)
    tried n site f h =
        call-Keeps n _ _ (λ s a db v e. by_answer s.database db a (f s.database) refl e v)
      where
        by_answer :
            (from_db db : Database) (a : Unit {0}) (r : Result StoreError Database)
            → f from_db ≡ r
            → answerless r ≡ ok (a, db)
            → IsLed from_db
            → IsLed db
        by_answer from_db db a (err x) er e v = absurd (ground arith)
        by_answer from_db db a (ok d) er e v =
            let same : d ≡ db = ground arith in h from_db db (er ∙ ap ok same) v

    -- A read leaves the tables as they are.
    pub unread {ℓ} :
        {A : Type ℓ} {x : A} {db₀ db : Database} (y : A)
        → ◌≡◌ {A = Result StoreError (A × Database)} (ok (x, db₀)) (ok (y, db))
        → IsLed db₀
        → IsLed db
    unread {db₀ = db₀} {db = db} y e v = let same : db₀ ≡ db = ground arith in rw (← same) v
