-- ===== src/Broadcast/Open.antt =====
-- Transactions of src/broadcast-processor.ts that the workers still follow: what the calls of the
-- repository leave of them.
use catfee_io.Base.{
  Bool, true, false, Option, none, some, List, [], ◌∷◌, ◌≡◌, inl, inr, refl, arith, Bool-cases,
  Option-cases, ==_refl, ◌==◌,
}
use catfee_io.Base.Results.{ok}
use catfee_io.Table.{exists, update, insert}
use catfee_io.Table.Laws.{All, All-update, All-insert}
use catfee_io.Store.{Database, Request, RequestState, is_terminal, Time, TxId, Address}
use catfee_io.Gateway.Requests.{
  Transaction, Requirement, begun, of_tx, begin_request, set_request_state, update_requirements,
  new_request, begin_existing, find_request,
}
use catfee_io.Gateway.Quota.{
  move_quota, consume_quota, reserve_quota, take_reservation, holds_quota, may_reserve,
}
use catfee_io.Gateway.Bindings.{get_binding}
use catfee_io.Gateway.Claims.{try_acquire_address_claim}
use catfee_io.Resources.Prepare.Stability.{IsStable}

-- No row of the transaction is in a final state: the workers still follow it.
abbrev pub IsOpen : TxId → Database → Type 0
IsOpen t db = All (λ r. (r.tx_id == t) ≡ true → is_terminal r.state ≡ false) db.requests

-- The transaction holds its claim on an address, and is open.
abbrev pub IsKept : TxId → Database → Type 0
IsKept t db = (exists (λ c. c.tx_id == t) db.claims ≡ true) × IsOpen t db

-- A row that changes and is as open as before.
update-IsOpen :
    (t : TxId) (p : Request → Bool) (f : Request → Request) (rs : List Request)
    → ((r : Request)
        → ((r.tx_id == t) ≡ true → is_terminal r.state ≡ false)
        → ((f r).tx_id == t) ≡ true
        → is_terminal (f r).state ≡ false)
    → All (λ (r : Request). (r.tx_id == t) ≡ true → is_terminal r.state ≡ false) rs
    → All (λ (r : Request). (r.tx_id == t) ≡ true → is_terminal r.state ≡ false) (update p f rs)
update-IsOpen t p f rs h v = All-update _ _ p f (λ r e k. h r k) (λ r k. k) rs v

pub move_quota-IsKept :
    (a : Address) (t : TxId) (consume : Bool) (now : Time) (db : Database)
    → IsKept t db
    → IsKept t (move_quota a t consume now db)
unfolding move_quota
move_quota-IsKept a t consume now db v = elim (Bool-cases (holds_quota t db)) [
  | inr free ↦ rw (free, IsKept) v
  | inl held ↦ rw (held, IsKept) (v.0, update-IsOpen t _ _ db.requests (λ r k. k) v.1)
]

pub IsKept-stable : (t : Transaction) → IsStable t (IsKept t.tx_id)
unfolding consume_quota
IsKept-stable t = record {
  framed = λ f v. rw (f.claims, f.requests) v;
  consumed = λ now db v. move_quota-IsKept _ _ true now db v;
}

pub set_request_state-IsKept :
    (t : TxId) (state : RequestState) (now : Time) (db : Database)
    → is_terminal state ≡ false
    → IsKept t db
    → IsKept t (set_request_state t state now db)
unfolding set_request_state
set_request_state-IsKept t state now db h v =
    (v.0, update-IsOpen t _ _ db.requests (λ r k e. h) v.1)

pub update_requirements-IsKept :
    (t : TxId) (qs : List Requirement) (now : Time) (db : Database)
    → IsKept t db
    → IsKept t (update_requirements t qs now db)
unfolding update_requirements
update_requirements-IsKept t qs now db v =
    (v.0, update-IsOpen t _ _ db.requests (λ r k e. refl) v.1)

pub reserve_quota-IsKept :
    (a : Address) (t : TxId) (finite : Bool) (now : Time) (db : Database)
    → IsKept t db
    → IsKept t (reserve_quota a t finite now db).1
unfolding reserve_quota take_reservation
reserve_quota-IsKept a t finite now db v = elim (Option-cases (get_binding a db)) [
  | inl absent ↦ rw (absent, IsKept, reserve_quota) v
  | inr (b, there) ↦
      rw (there, IsKept, reserve_quota)
        (elim (Bool-cases (may_reserve finite now b)) [
          | inl taken ↦
              rw (taken, IsKept, reserve_quota)
                (v.0, update-IsOpen t _ _ db.requests (λ r k e. refl) v.1)
          | inr refused ↦ rw (refused, IsKept, reserve_quota) v
        ])
]

-- What holds of every row of a transaction that has none.
pub absent_All :
    (Φ : Request → Type 0) (t : TxId) (rs : List Request)
    → exists (of_tx t) rs ≡ false
    → All (λ (r : Request). (r.tx_id == t) ≡ true → Φ r) rs
unfolding exists
absent_All Φ t [] h = tt
absent_All Φ t (r ∷ rs) h = (λ e. absurd (ground arith), absent_All Φ t rs (ground arith))

existing_not_begun : (o : Option Request) → begin_existing o ≡ begun → ⊥
unfolding begin_existing
existing_not_begun none e = ground arith
existing_not_begun (some r) e = elim (Option-cases r.upstream_response) [
  | inl absent ↦ ground arith
  | inr (response, there) ↦ ground arith
]

-- A transaction that is begun had no row, and gets one.
pub begin_request-inserts :
    (t : Transaction) (now : Time) (db db' : Database)
    → begin_request t now db ≡ (begun, db')
    → (exists (of_tx t.tx_id) db.requests ≡ false)
      × (record db { requests = insert (new_request t now) db.requests } ≡ db')
unfolding begin_request
begin_request-inserts t now db db' e = elim (Bool-cases (exists (of_tx t.tx_id) db.requests)) [
  | inl old ↦ absurd (existing_not_begun (find_request t.tx_id db) (ground arith))
  | inr fresh ↦ (fresh, ground arith)
]

-- A transaction that was begun is open.
pub begin_request-IsOpen :
    (t : Transaction) (now : Time) (db db' : Database)
    → begin_request t now db ≡ (begun, db')
    → IsOpen t.tx_id db'
begin_request-IsOpen t now db db' e =
    let (fresh, same) = begin_request-inserts t now db db' e in
    rw (← same) (
      All-insert _ (new_request t now) db.requests (λ h. refl)
        (absent_All _ t.tx_id db.requests fresh))

pub exists_inserted :
    {A : Type 0} (q : A → Bool) (r : A) (rows : List A)
    → q r ≡ true
    → exists q (insert r rows) ≡ true
unfolding exists insert
exists_inserted q r [] h = ground arith
exists_inserted q r (x ∷ rows) h = ground (arith, exists_inserted q r rows h)

-- A claim that was acquired is held.
pub try_acquire_address_claim-IsKept :
    (a : Address) (t : TxId) (db db' : Database)
    → try_acquire_address_claim a t db ≡ ok (true, db')
    → IsOpen t db
    → IsKept t db'
unfolding try_acquire_address_claim
try_acquire_address_claim-IsKept a t db db' e v =
    let e' : record db { claims = insert (record { owner_address = a; tx_id = t }) db.claims }
        ≡ db' =
      ground arith in
    rw (← e') (exists_inserted _ _ db.claims (==_refl t), v)

pub try_acquire_address_claim-IsOpen :
    (a : Address) (t : TxId) (db db' : Database) (claimed : Bool)
    → try_acquire_address_claim a t db ≡ ok (claimed, db')
    → IsOpen t db
    → IsOpen t db'
unfolding try_acquire_address_claim
try_acquire_address_claim-IsOpen a t db db' claimed e v =
    let same : db'.requests ≡ db.requests = ground arith in rw same v
