-- ===== src/Workers/Recovery.antt =====
-- The confirmation loop of src/workers.ts decides the requests that a stop has left behind.
use catfee_io.Base.{ℕ, true, false, Option, none, some, List, [], ◌∷◌, ◌≡◌, refl, arith, ◌∙◌}
use mathlib.Core.List.{Memᴰ}
use mathlib.Core.List.Memᴰ
use catfee_io.Base.Results.{ok}
use catfee_io.Base.Effects.{lift}
use catfee_io.Base.Triples.{
  Triple, after_Post, bind, lift-Triple, when-Triple, ignore-Triple, given, before, weaken,
}
use catfee_io.Store.{Database, Request, TxId, Time}
use catfee_io.Failures.{Failure}
use catfee_io.Gateway.Requests.{list_stale_requests}
use catfee_io.Gateway.Claims.{release_terminal_address_claims}
use catfee_io.Resources.{Receipt}
use catfee_io.Resources.World.{
  Node, Session, Site, answered, claims_swept, stale_listed, stale_recorded, call, asks,
}
use catfee_io.Resources.World.Calls.{reads-Keeps}
use catfee_io.Workers.{
  Watch, recovered, record_recovery, follow_receipt, recover_all, confirm_turn, confirmation_loop,
  is_past,
}
use catfee_io.Workers.Decided.{
  IsDecided, Decided, record_decides, recover_all-Decided, finalize_all-Decided,
}

-- A call that is answered, and cannot fail.
answered_call {ℓ} :
    {A : Type ℓ} {P : Session → Type 0} {Q : A → Session → Type 0} {R : Failure → Session → Type 0}
    (n : Node) (site : Site) (op : Database → A × Database)
    → n.link site ≡ answered
    → ((s : Session) → P s → Q (op s.database).0 (record s { database = (op s.database).1 }))
    → Triple P (call n site λ db. ok (op db)) Q R
unfolding call
answered_call n site op e h = record { run = λ s p. rw e (h s p) }

-- The calls of the first loop are answered, by the store and by the node.
pub record IsAnswering (w : Watch) : Type 0 where
  pub swept : w.node.link claims_swept ≡ answered
  pub listed : w.node.link stale_listed ≡ answered
  pub recorded : (t : TxId) → w.node.link (stale_recorded t) ≡ answered
  pub receipts : (t : TxId) → (receipt : Option Receipt) × (w.full_node_receipt t ≡ ok receipt)

module _ (w : Watch) (answering : IsAnswering w) where
  -- The request before the one that is looked for does not stop the loop.
  pass_by :
      {P : Session → Type 0} {R : Failure → Session → Type 0} (r : Request)
      (receipt : Option Receipt)
      → Triple P (follow_receipt w r receipt) (λ _ _. Unit {0}) R
  unfolding follow_receipt record_recovery
  pass_by r (some receipt) = answered_call w.node _ _ (answering.recorded r.tx_id) (λ s p. tt)
  pass_by r none =
      when-Triple _ (λ _. answered_call w.node _ _ (answering.recorded r.tx_id) (λ s p. tt))
        (λ _ s p. tt)

  decide :
      {P : Session → Type 0} {R : Failure → Session → Type 0} (r : Request)
      (receipt : Option Receipt)
      → is_past w r 120_000 ≡ true
      → Triple P (follow_receipt w r receipt) (λ _. Decided r.tx_id) R
  unfolding follow_receipt record_recovery recovered
  decide r (some receipt) past =
      answered_call w.node _ _ (answering.recorded r.tx_id)
        (λ s p. record_decides (recovered w r true) _ s.database)
  decide r none past =
      when-Triple _
        (λ _.
          answered_call w.node _ _ (answering.recorded r.tx_id)
            (λ s p. record_decides (recovered w r false) _ s.database))
        (λ no s p. absurd (ground arith))

  asked :
      {P : Session → Type 0} {R : Failure → Session → Type 0} (t : TxId)
      → Triple P (lift (asks (w.full_node_receipt t))) (λ _. P) R
  asked t =
      let (receipt, e) = answering.receipts t in
      rw e (lift-Triple _ (λ a s q p. p) (λ x s q p. absurd (ground arith)))

  recover_all-decides :
      {P : Session → Type 0} (r : Request) (rs : List Request)
      → Memᴰ r rs
      → is_past w r 120_000 ≡ true
      → Triple P (recover_all w rs) (λ _. Decided r.tx_id) (λ _. Decided r.tx_id)
  unfolding recover_all
  recover_all-decides r [] m past = absurd (Memᴰ.not-nil m)
  recover_all-decides r (q ∷ rs) (Memᴰ.head e) past =
      bind {Q = λ _ _. Unit {0}}
        (weaken (λ s p. p) (λ a s p. tt) (λ x s p. p) (asked {R = λ _. Decided r.tx_id} q.tx_id))
        λ receipt. bind (rw (← e) (decide r receipt past)) λ _. recover_all-Decided r.tx_id w rs
  recover_all-decides r (q ∷ rs) (Memᴰ.tail m) past =
      bind {Q = λ _ _. Unit {0}}
        (weaken (λ s p. p) (λ a s p. tt) (λ x s p. p) (asked {R = λ _. Decided r.tx_id} q.tx_id))
        λ receipt. bind (pass_by q receipt) λ _. recover_all-decides r rs m past

  sweep-requests : (db : Database) → (release_terminal_address_claims db).1.requests ≡ db.requests
  unfolding release_terminal_address_claims
  sweep-requests db = refl

  list_stale_requests-congruent :
      (now : Time) (k : ℕ) (db db' : Database)
      → db.requests ≡ db'.requests
      → list_stale_requests now k db ≡ list_stale_requests now k db'
  unfolding list_stale_requests
  list_stale_requests-congruent now k db db' e = rw e refl

  confirm_turn-decides :
      (r : Request) (from : Database)
      → Memᴰ r (list_stale_requests (w.node.now stale_listed) 50 from)
      → is_past w r 120_000 ≡ true
      → Triple
          (λ s. s.database.requests ≡ from.requests)
          (confirm_turn w)
          (λ _. Decided r.tx_id)
          (λ _. Decided r.tx_id)
  unfolding confirm_turn
  confirm_turn-decides r from m past =
      bind {Q = λ _ s. s.database.requests ≡ from.requests}
        (answered_call w.node _ _ answering.swept (λ s p. sweep-requests s.database ∙ p))
        λ _.
          bind {Q = λ stale s. Memᴰ r stale}
            (answered_call w.node _ _ answering.listed (λ s p.
              rw (list_stale_requests-congruent (w.node.now stale_listed) 50 s.database from p) m))
            λ stale.
              before {P = λ _. Unit {0} × Memᴰ r stale} (λ s m. (tt, m))
                (given λ m.
                  bind (recover_all-decides r stale m past)
                    λ _. bind (reads-Keeps w.node _ _) (finalize_all-Decided r.tx_id w))

-- An iteration of the confirmation loop in which the store answers the calls of its first part and the
-- node every receipt decides each stale request that it lists and whose expiration is more than two
-- minutes past, whatever the rest of the iteration does: in the store as the iteration leaves it no row
-- of that transaction is in preparation, or failed with its quota held, so that none meets the test of
-- listStaleRequests at any time. What other runs write to the row afterwards is not in the statement.
pub confirmation_loop-IsDecided :
    (w : Watch) (s : Session) (r : Request)
    → IsAnswering w
    → Memᴰ r (list_stale_requests (w.node.now stale_listed) 50 s.database)
    → is_past w r 120_000 ≡ true
    → IsDecided r.tx_id (confirmation_loop w s).1.database
unfolding confirmation_loop
confirmation_loop-IsDecided w s r answering m past =
    let decided =
      ignore-Triple {R = λ _. Decided r.tx_id}
        (confirm_turn-decides w answering r s.database m past) in
    after_Post (Decided r.tx_id) _ (decided.run s refl)
