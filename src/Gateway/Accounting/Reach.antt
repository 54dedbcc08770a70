-- ===== src/Gateway/Accounting/Reach.antt =====
-- Any sequence of calls of `GatewayRepository` (src/repository.ts).
use catfee_io.Base.{ℕ, ◌≡◌, Bool, true, false, Option, none, some, List}
use catfee_io.Base.Int.{ℤ}
use catfee_io.Base.Results.{ok}
use catfee_io.Table.{exists}
use catfee_io.Store.{
  Database, ReceiptAudit, Binding, Request, RequestState, Address, TxId, Text, Time,
}
use catfee_io.Gateway.Bindings.{
  BindingInput, upsert_binding, set_binding_enabled, reset_binding_usage, at_address,
}
use catfee_io.Gateway.Requests.{
  Transaction, Requirement, begin_request, discard_unprepared_request, update_requirements,
  set_request_state, complete_request, fail_request, find_request,
}
use catfee_io.Gateway.Quota.{
  reserve_quota, move_quota, record_broadcast_outcome, Outcome, mark_finalized, expire_request,
}
use catfee_io.Gateway.Claims.{drop_claims_of}
use catfee_io.Gateway.Leases.{release_active_leases}
use catfee_io.Gateway.Accounting.Steps
use catfee_io.Gateway.Accounting.Steps.{Balanced, Owns}
use catfee_io.Gateway.Accounting.Limits.{NotOversold}
use catfee_io.Gateway.Accounting.Limits

-- One call, with what its callers see to: a reservation is for a request of the address that holds
-- none yet, and quota is settled on the address that owns the request. `elsewhere` is every method
-- that writes neither of the two tables.
pub data Step (db db' : Database) : Type 0 where
  upserts : (input : BindingInput) → upsert_binding input db ≡ ok db' → Step db db'
  enables : (a : Address) (on : Bool) → db' ≡ (set_binding_enabled a on db).1 → Step db db'
  resets :
      (a : Address) (max : Option (Option ℤ)) (require : Bool) (answer : Option Binding × Database)
      → reset_binding_usage a max require db ≡ ok answer
      → db' ≡ answer.1
      → Step db db'
  begins : (t : Transaction) (now : Time) → db' ≡ (begin_request t now db).1 → Step db db'
  discards : (t : TxId) → discard_unprepared_request t db ≡ ok db' → Step db db'
  estimates :
      (t : TxId) (qs : List Requirement) (now : Time)
      → db' ≡ update_requirements t qs now db
      → Step db db'
  moves_on :
      (t : TxId) (s : RequestState) (now : Time) → db' ≡ set_request_state t s now db → Step db db'
  completes :
      (t : TxId) (s : RequestState) (response : List ℕ) (status : Text) (code message : Option Text)
      (now : Time)
      → db' ≡ complete_request t s response status code message now db
      → Step db db'
  fails :
      (t : TxId) (code message : Text) (now : Time)
      → db' ≡ fail_request t code message now db
      → Step db db'
  reserves :
      (a : Address) (t : TxId) (finite : Bool) (now : Time) (r : Request)
      → find_request t db ≡ some r
      → r.owner_address ≡ a
      → r.quota_reserved ≡ false
      → db' ≡ (reserve_quota a t finite now db).1
      → Step db db'
  settles :
      (a : Address) (t : TxId) (consume : Bool) (now : Time)
      → Owns a t db
      → db' ≡ move_quota a t consume now db
      → Step db db'
  records :
      (o : Outcome) (now : Time)
      → Owns o.owner_address o.tx_id db
      → db' ≡ record_broadcast_outcome o now db
      → Step db db'
  finalizes :
      (t : TxId) (success : Bool) (delay : ℕ) (receipt : ReceiptAudit) (result : Text) (now : Time)
      → mark_finalized t success delay receipt result now db ≡ ok db'
      → Step db db'
  expires : (t : TxId) (delay : ℕ) (now : Time) → db' ≡ expire_request t delay now db → Step db db'
  elsewhere : db'.bindings ≡ db.bindings → db'.requests ≡ db.requests → Step db db'

pub data Reach (start : Database) : Database → Type 0 where
  here : Reach start start
  next : {db db' : Database} → Reach start db → Step db db' → Reach start db'

pub Step-Balanced : {db db' : Database} → Step db db' → Balanced db → Balanced db'
Step-Balanced {db} {db'} (upserts input e) v = Steps.upsert_binding-Balanced input db db' e v
Step-Balanced {db} (enables a on e) v = rw e (Steps.set_binding_enabled-Balanced a on db v)
Step-Balanced {db} (resets a max require answer h e) v =
    rw e (Steps.reset_binding_usage-Balanced a max require db answer h v)
Step-Balanced {db} (begins t now e) v = rw e (Steps.begin_request-Balanced t now db v)
Step-Balanced {db} {db'} (discards t e) v = Steps.discard_unprepared_request-Balanced t db db' e v
Step-Balanced {db} (estimates t qs now e) v =
    rw e (Steps.update_requirements-Balanced t now db v qs)
Step-Balanced {db} (moves_on t s now e) v = rw e (Steps.set_request_state-Balanced t now db v s)
Step-Balanced {db} (completes t s response status code message now e) v =
    rw e (Steps.complete_request-Balanced t now db v s response status code message)
Step-Balanced {db} (fails t code message now e) v =
    rw e (Steps.fail_request-Balanced t now db v code message)
Step-Balanced {db} (reserves a t finite now r er owner free e) v =
    rw e (Steps.reserve_quota-Balanced a t finite now db r er owner free v)
Step-Balanced {db} (settles a t consume now owns e) v =
    rw e (Steps.move_quota-Balanced a t consume now db owns v)
Step-Balanced {db} (records o now owns e) v =
    rw e (Steps.record_broadcast_outcome-Balanced o now db owns v)
Step-Balanced {db} {db'} (finalizes t success delay receipt result now e) v =
    Steps.mark_finalized-Balanced t now db v success delay receipt result db' e
Step-Balanced {db} (expires t delay now e) v = rw e (Steps.expire_request-Balanced t now db v delay)
Step-Balanced (elsewhere eb er) v = rw (eb, er) v

-- After any sequence of calls as `Step` has them, from books that balance (a reservation is for a request
-- of the address without quota, and quota is settled on the address that owns the request), every address
-- has one binding at most, every transaction one request at most, and the reserved transactions of each
-- address are exactly its requests that hold quota.
pub Reach-Balanced : {start db : Database} → Balanced start → Reach start db → Balanced db
Reach-Balanced v here = v
Reach-Balanced v (next r s) = Step-Balanced s (Reach-Balanced v r)

-- Only an upsert may set the limit of a binding that is already there.
abbrev pub KeepsLimit : {db db' : Database} → Step db db' → Type 0
KeepsLimit {db} (upserts input e) =
    exists (at_address input.address) db.bindings ≡ true → input.max_transactions ≡ none
KeepsLimit _ = Unit

abbrev pub KeepLimits : {start db : Database} → Reach start db → Type 0
KeepLimits here = Unit
KeepLimits (next r s) = KeepLimits r × KeepsLimit s

pub Step-NotOversold :
    {db db' : Database} (s : Step db db')
    → KeepsLimit s
    → Balanced db
    → NotOversold db
    → NotOversold db'
unfolding begin_request discard_unprepared_request update_requirements set_request_state
    complete_request fail_request mark_finalized expire_request drop_claims_of release_active_leases
Step-NotOversold {db} {db'} (upserts input e) k v w =
    Limits.upsert_binding-NotOversold input db db' e k w
Step-NotOversold {db} (enables a on e) k v w =
    rw e (Limits.set_binding_enabled-NotOversold a on db w)
Step-NotOversold {db} (resets a max require answer h e) k v w =
    rw e (Limits.reset_binding_usage-NotOversold a max require db answer h w)
Step-NotOversold {db} (begins t now e) k v w = rw e (Limits.begin_request-NotOversold t now db w)
Step-NotOversold {db} {db'} (discards t e) k v w = rw (Steps.discard-bindings t db db' e) w
Step-NotOversold (estimates t qs now e) k v w = rw e w
Step-NotOversold (moves_on t s now e) k v w = rw e w
Step-NotOversold (completes t s response status code message now e) k v w = rw e w
Step-NotOversold (fails t code message now e) k v w = rw e w
Step-NotOversold {db} (reserves a t finite now r er owner free e) k v w =
    rw e (Limits.reserve_quota-NotOversold a t finite now db v w)
Step-NotOversold {db} (settles a t consume now owns e) k v w =
    rw e (Limits.move_quota-NotOversold a t consume now db owns v w)
Step-NotOversold {db} (records o now owns e) k v w =
    rw e (Limits.record_broadcast_outcome-NotOversold o now db owns v w)
Step-NotOversold {db} {db'} (finalizes t success delay receipt result now e) k v w =
    rw (Steps.mark_finalized-bindings t success delay receipt result now db db' e) w
Step-NotOversold (expires t delay now e) k v w = rw e w
Step-NotOversold (elsewhere eb er) k v w = rw eb w

-- After any sequence of such calls that starts from accounted books within the limits, in which no upsert
-- changes the limit of a binding that is there already, no binding has more used and reserved
-- transactions than its limit.
pub Reach-NotOversold :
    {start db : Database}
    → Balanced start
    → NotOversold start
    → (r : Reach start db) → KeepLimits r
    → NotOversold db
Reach-NotOversold v w here k = w
Reach-NotOversold v w (next r s) k =
    Step-NotOversold s k.1 (Reach-Balanced v r) (Reach-NotOversold v w r k.0)
