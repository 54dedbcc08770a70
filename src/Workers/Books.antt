-- ===== src/Workers/Books.antt =====
-- An iteration of the workers of src/workers.ts keeps the books.
use catfee_io.Base.{ℕ, Bool, true, false, Option, none, some, List, [], ◌∷◌, ◌≡◌, arith}
use catfee_io.Base.Results.{Result, ok}
use catfee_io.Base.Triples.{
  lift-Keeps, Keeps, after_Post, bind, given, return-Triple, if-Triple, when-Triple, attempt-Triple,
  ignore-Triple,
}
use catfee_io.Table.Laws.{All}
use catfee_io.Store.{Database, Request, Lease, TxId, Address, Time, StoreError}
use catfee_io.Gateway.Requests.{list_stale_requests}
use catfee_io.Gateway.Claims.{release_terminal_address_claims}
use catfee_io.Gateway.Leases.{
  update_lease, mark_lease_released, retry_lease_release, claim_lease_for_release,
}
use catfee_io.Gateway.Accounting.Reach.{here}
use catfee_io.Resources.{Receipt}
use catfee_io.Resources.Release.Framed.{release_lease-Keeps}
use catfee_io.Resources.World.{Node, Session, Site, stale_listed, lease_claimed, writes}
use catfee_io.Resources.World.Calls.{writes-Keeps, reads-Keeps, call-Keeps, call-Triple}
use catfee_io.Broadcast.Books.{Leads}
use catfee_io.Workers.{
  Watch, Solidified, recovered, record_recovery, follow_receipt, recover_all, follow_solidified,
  finalize_all, confirm_turn, confirmation_loop, follow_undelegation, reconcile, reconcile_all,
  try_release, release_claimed, release_all, reclaim_turn, reclaim_loop, is_done, is_past,
}
use catfee_io.Workers.Led.{
  HasOwners, Owned, IsLed, Books, stale-Owned, record-IsLed, expire-IsLed, finalize-IsLed,
  lease-IsLed, elsewhere-IsLed, tried, unread,
}

module _ (own : TxId → Address) (from : Database) (w : Watch) where
  stale_read :
      (s : Session) (stale : List Request) (db : Database)
      → ◌≡◌ {A = Result StoreError (List Request × Database)}
          (ok (list_stale_requests (w.node.now stale_listed) 50 s.database, s.database))
          (ok (stale, db))
      → IsLed own from s.database
      → Books own from (record s { database = db }) × All (Owned own) stale
  stale_read s stale db e v =
      let rows : list_stale_requests (w.node.now stale_listed) 50 s.database ≡ stale =
        ground arith in
      (
        unread own from stale e v,
        rw (← rows) (stale-Owned own (w.node.now stale_listed) 50 s.database v.1),
      )

  follow_receipt-Books :
      (r : Request) (receipt : Option Receipt)
      → Owned own r
      → Keeps (Books own from) (follow_receipt w r receipt)
  unfolding follow_receipt record_recovery recovered
  follow_receipt-Books r (some receipt) o =
      writes-Keeps w.node _ _ (λ s v. record-IsLed own from (recovered w r true) _ s.database o v)
  follow_receipt-Books r none o =
      when-Triple (is_past w r 120_000)
        (λ _.
          writes-Keeps w.node _ _
            (λ s v. record-IsLed own from (recovered w r false) _ s.database o v))
        (λ _ s v. v)

  recover_all-Books :
      (rs : List Request) → All (Owned own) rs → Keeps (Books own from) (recover_all w rs)
  unfolding recover_all
  recover_all-Books [] os = return-Triple tt (λ s v. v)
  recover_all-Books (r ∷ rs) os =
      bind (lift-Keeps _)
        λ receipt. bind (follow_receipt-Books r receipt os.0) λ _. recover_all-Books rs os.1

  follow_solidified-Books :
      (r : Request) (z : Option Solidified) → Keeps (Books own from) (follow_solidified w r z)
  unfolding follow_solidified
  follow_solidified-Books r (some z) =
      tried own from w.node _ _
        (λ db db' e v. finalize-IsLed own from r w.reclaim_delay_ms _ _ _ _ db db' e v)
  follow_solidified-Books r none =
      when-Triple (is_past w r 600_000)
        (λ _. writes-Keeps w.node _ _ (λ s v. expire-IsLed own from r.tx_id _ _ s.database v))
        (λ _ s v. v)

  finalize_all-Books : (rs : List Request) → Keeps (Books own from) (finalize_all w rs)
  unfolding finalize_all
  finalize_all-Books [] = return-Triple tt (λ s v. v)
  finalize_all-Books (r ∷ rs) =
      bind (lift-Keeps _) λ z. bind (follow_solidified-Books r z) λ _. finalize_all-Books rs

  swept :
      (db db' : Database) (k : ℕ)
      → release_terminal_address_claims db ≡ (k, db')
      → IsLed own from db
      → IsLed own from db'
  unfolding release_terminal_address_claims
  swept db db' k e v = elsewhere-IsLed own from db db' (ground arith) (ground arith) v

  confirm_turn-Books : Keeps (Books own from) (confirm_turn w)
  unfolding confirm_turn
  confirm_turn-Books =
      bind (call-Keeps w.node _ _ (λ s k db v e. swept s.database db k (ground arith) v)) λ _.
        bind
          (call-Triple w.node {Q = λ stale s. Books own from s × All (Owned own) stale} _ _
            (λ s v. v) (λ s stale db v e. stale_read s stale db e v)
            (λ s stale db v e. unread own from stale e v))
          λ stale.
            bind (given (recover_all-Books stale))
              λ _. bind (reads-Keeps w.node _ _) finalize_all-Books

  lease_written :
      (n : Node) (site : Site) (id : ℕ) (f : Lease → Lease)
      → Keeps (Books own from) (writes n site (update_lease id f))
  lease_written n site id f = writes-Keeps n site _ (λ s v. lease-IsLed own from id f s.database v)

  reconcile-Books : (l : Lease) (b : Option TxId) → Keeps (Books own from) (reconcile w l b)
  unfolding reconcile follow_undelegation mark_lease_released retry_lease_release
  reconcile-Books l none = return-Triple tt (λ s v. v)
  reconcile-Books l (some t) = bind (lift-Keeps _) λ receipt.
      if-Triple (is_done receipt) (λ _. lease_written _ _ _ _)
        (λ _. when-Triple _ (λ _. lease_written _ _ _ _) (λ _ s v. v))

  reconcile_all-Books : (ls : List Lease) → Keeps (Books own from) (reconcile_all w ls)
  unfolding reconcile_all
  reconcile_all-Books [] = return-Triple tt (λ s v. v)
  reconcile_all-Books (l ∷ ls) =
      bind (reconcile-Books l l.undelegate_tx_id) λ _. reconcile_all-Books ls

  try_release-Books : (l : Lease) → Keeps (Books own from) (try_release w l)
  unfolding try_release retry_lease_release
  try_release-Books l =
      attempt-Triple {R = λ _. Books own from}
        (release_lease-Keeps (w.node_of_lease l.id) l (Books own from)
          (λ s id f v. lease-IsLed own from id f s.database v) (λ s t v. v))
        (λ e. lease_written _ _ _ _)

  claimed-IsLed :
      (id : ℕ) (now : Time) (db db' : Database) (b : Bool)
      → claim_lease_for_release id now db ≡ (b, db')
      → IsLed own from db
      → IsLed own from db'
  unfolding claim_lease_for_release
  claimed-IsLed id now db db' b e v =
      elsewhere-IsLed own from db db' (ground arith) (ground arith) v

  release_claimed-Books : (l : Lease) → Keeps (Books own from) (release_claimed w l)
  unfolding release_claimed
  release_claimed-Books l =
      bind
        (call-Keeps w.node _ _ (λ s b db v e.
          claimed-IsLed l.id (w.node.now (lease_claimed l.id)) s.database db b (ground arith) v))
        λ claimed. when-Triple claimed (λ _. try_release-Books l) (λ _ s v. v)

  release_all-Books : (ls : List Lease) → Keeps (Books own from) (release_all w ls)
  unfolding release_all
  release_all-Books [] = return-Triple tt (λ s v. v)
  release_all-Books (l ∷ ls) = bind (release_claimed-Books l) λ _. release_all-Books ls

  reclaim_turn-Books : Keeps (Books own from) (reclaim_turn w)
  unfolding reclaim_turn
  reclaim_turn-Books = bind (reads-Keeps w.node _ _) λ broadcasts.
      bind (reconcile_all-Books broadcasts) λ _. bind (reads-Keeps w.node _ _) release_all-Books

-- Whatever the chain, the clock and the store answer, one iteration of the confirmation loop and one of
-- the reclaim loop change the store only by calls that the accounting of the gateway allows, none of
-- which sets a limit, if in the store they start from all the rows of a transaction are of one owner.
-- This holds of iterations that fail in the middle too.
pub loops-Lead :
    (own : TxId → Address) (w : Watch) (s : Session)
    → HasOwners own s.database
    → Leads s.database (confirmation_loop w s).1.database
      × Leads s.database (reclaim_loop w s).1.database
unfolding confirmation_loop reclaim_loop
loops-Lead own w s owners =
    let confirmed =
      ignore-Triple {R = λ _. Books own s.database} (confirm_turn-Books own s.database w) in
    let reclaimed =
      ignore-Triple {R = λ _. Books own s.database} (reclaim_turn-Books own s.database w) in
    let at_start : Books own s.database s = ((here, tt), owners) in
    (
      (after_Post (Books own s.database) _ (confirmed.run s at_start)).0,
      (after_Post (Books own s.database) _ (reclaimed.run s at_start)).0,
    )
