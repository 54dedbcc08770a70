-- ===== src/Resources/World.antt =====
-- The surroundings of one run of src/resource-service.ts and src/broadcast-processor.ts: the answers of
-- the node, the signer and the providers, the clock, and the connection to the database, which may break
-- at every call. `Session` is what a run changes.
pub mod Calls
use catfee_io.Base.{ℕ, Bool, List, Option, ◌++◌, ◌∷◌, [], if◌then◌else◌}
use catfee_io.Base.Int.{ℤ}
use catfee_io.Base.Results.{Result, ok, err}
use catfee_io.Base.Effects.{Effect}
use catfee_io.ResourceMath.{AccountResource, ResourceType, MathError}
use catfee_io.Store.{Database, TxId, Text, Time, StoreError}
use catfee_io.Service.{RentOutcome, World}
pub use catfee_io.Link.{Fault, answered, lost_before, lost_after}
use catfee_io.Failures.{Code, Failure, gateway, other}
use catfee_io.Resources.{Account, Prices, Receipt}

-- The calls of the repositories, by the place that makes them.
pub data Site : Type 0 where
  plan_enough plan_unprovided plan_ordered packages_listed charged_consumed : Site
  attempt_recorded fulfilled_marked timeout_marked : Site
  arrival_recorded : ℕ → Site
  lease_created lease_broadcast lease_delegated lease_retried lease_failed : ResourceType → Site
  request_begun claim_acquired request_discarded quota_taken claim_given_back rejection_cached :
      Site
  requirements_updated request_readied outcome_recorded fallback_recorded quota_consumed : Site
  quota_released claim_released readiness_kept leases_scheduled failure_cached binding_read : Site
  release_forgotten release_announced release_done : Site
  claims_swept stale_listed awaiting_listed broadcasts_listed leases_listed : Site
  stale_recorded request_finalized request_expired : TxId → Site
  lease_reconciled lease_requeued lease_claimed lease_put_back : ℕ → Site

-- The answers at each place. An `err` is a call that throws.
pub record Node : Type 0 where
  pub link : Site → Fault
  pub now : Site → Time
  pub store_message : StoreError → Text
  pub owner_resource : Result Text AccountResource
  pub energy_estimate : Result Text ℤ
  pub account : Result Text Account
  pub latest_resource : Result Text AccountResource
  pub prices : Result Text Prices
  pub matches_tapos : Result Text Bool
  pub order_time : Time
  pub still_matches_tapos : Result Text Bool
  pub has_transaction : Result Text Bool
  pub has_providers : Bool
  pub market : World
  pub confirm_from : Time
  pub poll_time : ℕ → Time
  pub poll_resource : ℕ → Result Text AccountResource
  pub recheck : Result Text AccountResource
  pub delegable : ResourceType → Result Text ℤ
  pub delegation : ResourceType → Result Text TxId
  pub delegation_sent : ResourceType → Result Text (Unit {0})
  pub delegation_receipt : ResourceType → Result Text Receipt
  pub delegation_message : Receipt → Text
  pub release_time : Time
  pub delegation_seen : Result Text (Option Receipt)
  pub undelegation : Result Text TxId
  pub undelegation_sent : Result Text (Unit {0})
  pub undelegation_receipt : Result Text Receipt

-- What a run changes: the database, the rentals that it made, the delegations and undelegations that it
-- broadcast, and how often it sent the transaction itself upstream.
pub record Session : Type 0 where
  pub database : Database
  pub rentals : List RentOutcome
  pub delegations : List TxId
  pub undelegations : List TxId
  pub forwards : ℕ

abbrev pub asks {ℓ} : {A : Type ℓ} → Result Text A → Result Failure A
asks (ok a) = ok a
asks (err m) = err (other m)

-- The message of these errors is kept nowhere.
abbrev pub computes {ℓ} : {A : Type ℓ} → Result MathError A → Result Failure A
computes (ok a) = ok a
computes (err e) = err (other [])

abbrev pub checks {ℓ} : {A : Type ℓ} → Result Code A → Result Failure A
checks (ok a) = ok a
checks (err c) = err (gateway c)

-- What the caller sees of a call that commits, and one that is answered by an error.
abbrev pub commit {ℓ} :
    {A : Type ℓ}
    → Node
    → Session
    → Fault
    → Result StoreError (A × Database)
    → Result Failure A × Session
commit n s answered (ok (a, db)) = (ok a, record s { database = db })
commit n s answered (err e) = (err (other (n.store_message e)), s)
commit n s (lost_before m) r = (err (other m), s)
commit n s (lost_after m) (ok (a, db)) = (err (other m), record s { database = db })
commit n s (lost_after m) (err e) = (err (other m), s)

-- One call of a repository.
unfoldable pub call {ℓ} :
    {A : Type ℓ}
    → Node
    → Site
    → (Database → Result StoreError (A × Database))
    → Effect Session Failure A
call n site op s = commit n s (n.link site) (op s.database)

-- A statement that gives no answer, and one that cannot fail by itself.
abbrev pub answerless : Result StoreError Database → Result StoreError (Unit {0} × Database)
answerless (ok db) = ok (tt, db)
answerless (err e) = err e

abbrev pub writes : Node → Site → (Database → Database) → Effect Session Failure (Unit {0})
writes n site f = call n site λ db. ok (tt, f db)

abbrev pub tries_to :
    Node → Site → (Database → Result StoreError Database) → Effect Session Failure (Unit {0})
tries_to n site f = call n site λ db. answerless (f db)
