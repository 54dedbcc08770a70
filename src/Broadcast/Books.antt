-- ===== src/Broadcast/Books.antt =====
-- A run of `sponsorAndForward` of src/broadcast-processor.ts is a sequence of the calls of
-- `GatewayRepository` that Gateway.Accounting.Reach allows.
use catfee_io.Base.{
  ℕ, Bool, true, false, not, Option, none, some, List, [], ◌∷◌, ◌≡◌, inl, inr, refl, arith, ◌∙◌,
  Bool-cases, Option-cases, ◌&&◌, ◌==◌, ==_refl,
}
use catfee_io.Base.Results.{ok}
use catfee_io.Table.{exists, select, update, delete}
use catfee_io.Table.Laws.{All, All-update, All-insert, All-delete, select-exists}
use catfee_io.Store.{Database, Request, RequestState, Time, Text, is_received}
use catfee_io.Gateway.Requests.{
  Transaction, Requirement, begun, of_tx, begin_request, find_request, set_request_state,
  update_requirements, complete_request, new_request, discard_unprepared_request,
}
use catfee_io.Gateway.Quota.{
  move_quota, consume_quota, reserve_quota, record_broadcast_outcome, Outcome, take_reservation,
  may_reserve, write_outcome, settle_outcome, finish_outcome, holds_quota,
}
use catfee_io.Gateway.Bindings.{get_binding}
use catfee_io.Gateway.Claims.{try_acquire_address_claim, release_address_claim, drop_claims_of}
use catfee_io.Gateway.Leases.{release_active_leases}
use catfee_io.Gateway.Accounting.Steps.{Owns}
use catfee_io.Gateway.Accounting.Reach.{
  Reach, next, KeepLimits, begins, discards, estimates, moves_on, completes, reserves, settles,
  records, elsewhere,
}
use catfee_io.Service.Framed.{Frame}
use catfee_io.Resources.Prepare.Stability.{IsStable}
use catfee_io.Broadcast.Open.{absent_All, begin_request-inserts, exists_inserted}

-- Calls of the repository lead from one database to the other, and none of them sets a limit.
abbrev pub Leads : Database → Database → Type 0
Leads db db' = (r : Reach db db') × KeepLimits r

-- Every row of the transaction is of its owner.
abbrev pub IsOwned : Transaction → Database → Type 0
IsOwned t db =
    All (λ r. (r.tx_id == t.tx_id) ≡ true → r.owner_address ≡ t.owner_address) db.requests

module _ {A : Type 0} where
  pub All-select :
      (P : A → Type 0) (q : A → Bool) (rows : List A) (r : A)
      → select q rows ≡ some r
      → All P rows
      → (q r ≡ true) × P r
  unfolding select
  All-select P q [] r e v = absurd (ground arith)
  All-select P q (x ∷ rows) r e v = elim (Bool-cases (q x)) [
    | inl passes ↦ let same : x ≡ r = ground arith in (rw (← same) passes, rw (← same) v.0)
    | inr fails ↦ All-select P q rows r (ground arith) v.1
  ]

IsOwned-Owns : (t : Transaction) (db : Database) → IsOwned t db → Owns t.owner_address t.tx_id db
unfolding find_request
IsOwned-Owns t db v r e =
    let found = All-select _ (of_tx t.tx_id) db.requests r e v in found.1 found.0

pub finish_outcome-requests :
    (o : Outcome) (now : Time) (db : Database) → (finish_outcome o now db).requests ≡ db.requests
unfolding finish_outcome drop_claims_of release_active_leases
finish_outcome-requests o now db = ground arith

pub settle_outcome-requests :
    (o : Outcome) (db : Database) → (settle_outcome o db).requests ≡ db.requests
unfolding settle_outcome
settle_outcome-requests o db = ground arith

module _ (from : Database) (t : Transaction) where
  -- What every call of a run keeps.
  abbrev pub Follows : Database → Type 0
  Follows db = Leads from db × IsOwned t db

  -- A rewriting of rows that leaves their owners.
  owned_update :
      (p : Request → Bool) (f : Request → Request) (rs : List Request)
      → ((r : Request) → (f r).tx_id ≡ r.tx_id)
      → ((r : Request) → (f r).owner_address ≡ r.owner_address)
      → All (λ (r : Request). (r.tx_id == t.tx_id) ≡ true → r.owner_address ≡ t.owner_address) rs
      → All
          (λ (r : Request). (r.tx_id == t.tx_id) ≡ true → r.owner_address ≡ t.owner_address)
          (update p f rs)
  owned_update p f rs ht ho v =
      All-update _ _ p f (λ r e k h. ho r ∙ k (rw (← ht r) h)) (λ r k. k) rs v

  pub framed-Follows : {db db' : Database} → Frame db db' → Follows db → Follows db'
  framed-Follows f v =
      ((next v.0.0 (elsewhere f.bindings f.requests), (v.0.1, tt)), rw f.requests v.1)

  pub set_request_state-Follows :
      (state : RequestState) (now : Time) (db : Database)
      → Follows db
      → Follows (set_request_state t.tx_id state now db)
  unfolding set_request_state
  set_request_state-Follows state now db v = (
    (next v.0.0 (moves_on t.tx_id state now refl), (v.0.1, tt)),
    owned_update _ _ db.requests (λ _. refl) (λ _. refl) v.1,
  )

  pub update_requirements-Follows :
      (qs : List Requirement) (now : Time) (db : Database)
      → Follows db
      → Follows (update_requirements t.tx_id qs now db)
  unfolding update_requirements
  update_requirements-Follows qs now db v = (
    (next v.0.0 (estimates t.tx_id qs now refl), (v.0.1, tt)),
    owned_update _ _ db.requests (λ _. refl) (λ _. refl) v.1,
  )

  pub complete_request-Follows :
      (state : RequestState) (response : List ℕ) (status : Text) (code message : Option Text)
      (now : Time) (db : Database)
      → Follows db
      → Follows (complete_request t.tx_id state response status code message now db)
  unfolding complete_request
  complete_request-Follows state response status code message now db v = (
    (next v.0.0 (completes t.tx_id state response status code message now refl), (v.0.1, tt)),
    owned_update _ _ db.requests (λ _. refl) (λ _. refl) v.1,
  )

  pub move_quota-Follows :
      (consume : Bool) (now : Time) (db : Database)
      → Follows db
      → Follows (move_quota t.owner_address t.tx_id consume now db)
  unfolding move_quota
  move_quota-Follows consume now db v = (
    (
      next v.0.0 (settles t.owner_address t.tx_id consume now (IsOwned-Owns t db v.1) refl),
      (v.0.1, tt),
    ),
    owned,
  )
    where
      owned : IsOwned t (move_quota t.owner_address t.tx_id consume now db)
      owned = elim (Bool-cases (holds_quota t.tx_id db)) [
        | inr free ↦ rw (free, IsOwned, move_quota) v.1
        | inl held ↦
            rw (held, IsOwned, move_quota)
              (owned_update _ _ db.requests (λ _. refl) (λ _. refl) v.1)
      ]

  pub record_broadcast_outcome-Follows :
      (o : Outcome) (now : Time) (db : Database)
      → o.tx_id ≡ t.tx_id
      → o.owner_address ≡ t.owner_address
      → Follows db
      → Follows (record_broadcast_outcome o now db)
  unfolding record_broadcast_outcome write_outcome
  record_broadcast_outcome-Follows o now db ht ho v = (
    (next v.0.0 (records o now (rw (ho, ht) (IsOwned-Owns t db v.1)) refl), (v.0.1, tt)),
    rw (finish_outcome-requests o now (write_outcome o now (settle_outcome o db))) (
        owned_update _ _ (settle_outcome o db).requests (λ _. refl) (λ _. refl)
          (rw (settle_outcome-requests o db) v.1)),
  )

  pub release_address_claim-Follows :
      (db : Database) → Follows db → Follows (release_address_claim t.owner_address t.tx_id db)
  unfolding release_address_claim
  release_address_claim-Follows db v = ((next v.0.0 (elsewhere refl refl), (v.0.1, tt)), v.1)

  pub release_active_leases-Follows :
      (delay : ℕ) (now : Time) (db : Database)
      → Follows db
      → Follows (release_active_leases t.tx_id delay now db)
  unfolding release_active_leases
  release_active_leases-Follows delay now db v =
      ((next v.0.0 (elsewhere refl refl), (v.0.1, tt)), v.1)

  pub discard-Follows :
      (db db' : Database)
      → discard_unprepared_request t.tx_id db ≡ ok db'
      → Follows db
      → Follows db'
  unfolding discard_unprepared_request
  discard-Follows db db' e v = ((next v.0.0 (discards t.tx_id e), (v.0.1, tt)), discarded_owned)
    where
      discarded_owned : IsOwned t db'
      discarded_owned =
          let unprepared : Request → Bool = λ r.
            of_tx t.tx_id r
            && is_received r.state
            && not r.quota_reserved
            && not (exists (λ c. c.tx_id == r.tx_id) db.claims)
            && not (exists (λ l. l.tx_id == r.tx_id) db.leases)
            && not (exists (λ o. o.tx_id == r.tx_id) db.orders) in
          let same : record db { requests = delete unprepared db.requests } ≡ db' = ground arith in
          rw (← same) (All-delete _ unprepared db.requests v.1)

  pub begin_request-Follows :
      (now : Time) (db : Database) → Follows db → Follows (begin_request t now db).1
  unfolding begin_request
  begin_request-Follows now db v = ((next v.0.0 (begins t now refl), (v.0.1, tt)), owned)
    where
      owned : IsOwned t (begin_request t now db).1
      owned = elim (Bool-cases (exists (of_tx t.tx_id) db.requests)) [
        | inl old ↦ rw (old, IsOwned, begin_request) v.1
        | inr new ↦
            rw (new, IsOwned, begin_request)
              (All-insert _ (new_request t now) db.requests (λ _. refl) v.1)
      ]

  -- Before its quota is taken, the transaction has a row, and that row holds none.
  abbrev pub IsFresh : Database → Type 0
  IsFresh db =
      All (λ r. (r.tx_id == t.tx_id) ≡ true → r.quota_reserved ≡ false) db.requests
      × (exists (of_tx t.tx_id) db.requests ≡ true)

  pub reserve_quota-Follows :
      (finite : Bool) (now : Time) (db : Database)
      → Follows db
      → IsFresh db
      → Follows (reserve_quota t.owner_address t.tx_id finite now db).1
  unfolding reserve_quota take_reservation find_request
  reserve_quota-Follows finite now db v fresh = elim (Option-cases (find_request t.tx_id db)) [
    | inl absent ↦ absurd (no_row absent)
    | inr (r, there) ↦ (
      (
        next v.0.0 (
            reserves t.owner_address t.tx_id finite now r there (IsOwned-Owns t db v.1 r there)
              (free r there) refl),
        (v.0.1, tt),
      ),
      owned,
    )
  ]
    where
      no_row : find_request t.tx_id db ≡ none → ⊥
      no_row absent = ground (arith, select-exists (of_tx t.tx_id) db.requests, fresh.1)

      free : (r : Request) → find_request t.tx_id db ≡ some r → r.quota_reserved ≡ false
      free r there =
          let found = All-select _ (of_tx t.tx_id) db.requests r there fresh.0 in found.1 found.0

      owned : IsOwned t (reserve_quota t.owner_address t.tx_id finite now db).1
      owned = elim (Option-cases (get_binding t.owner_address db)) [
        | inl absent ↦ rw (absent, IsOwned, reserve_quota) v.1
        | inr (b, bound) ↦
            rw (bound, IsOwned, reserve_quota)
              (elim (Bool-cases (may_reserve finite now b)) [
                | inl taken ↦
                    rw (taken, IsOwned, reserve_quota)
                      (owned_update _ _ db.requests (λ _. refl) (λ _. refl) v.1)
                | inr refused ↦ rw (refused, IsOwned, reserve_quota) v.1
              ])
      ]

  pub begin_request-IsFresh :
      (now : Time) (db db' : Database) → begin_request t now db ≡ (begun, db') → IsFresh db'
  begin_request-IsFresh now db db' e =
      let (absent, same) = begin_request-inserts t now db db' e in
      rw (← same) (
        All-insert _ (new_request t now) db.requests (λ _. refl)
            (absent_All _ t.tx_id db.requests absent),
        exists_inserted (of_tx t.tx_id) (new_request t now) db.requests (==_refl t.tx_id),
      )

  -- Claiming an address leaves the bindings and the requests.
  pub try_acquire_address_claim-Follows :
      (db db' : Database) (claimed : Bool)
      → try_acquire_address_claim t.owner_address t.tx_id db ≡ ok (claimed, db')
      → Follows db × IsFresh db
      → Follows db' × IsFresh db'
  unfolding try_acquire_address_claim
  try_acquire_address_claim-Follows db db' claimed e (v, fresh) =
      let bs : db'.bindings ≡ db.bindings = ground arith in
      let rs : db'.requests ≡ db.requests = ground arith in
      (((next v.0.0 (elsewhere bs rs), (v.0.1, tt)), rw rs v.1), rw rs fresh)

  pub Follows-stable : IsStable t Follows
  unfolding consume_quota
  Follows-stable = record {
    framed = λ f v. framed-Follows f v;
    consumed = λ now db v. move_quota-Follows true now db v;
  }
