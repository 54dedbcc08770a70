-- ===== src/Resources/Release/Announced.antt =====
-- What `releaseLease` of src/resource-service.ts has written before it takes anything back.
use catfee_io.Base.{
  ℕ, Bool, true, false, Option, none, some, List, [], ◌∷◌, ◌≡◌, ◌⊎◌, inl, inr, refl, ap, arith,
  ◌==◌, Bool-cases, ltb, ◌+◌,
}
use catfee_io.Base.Results.{Result, ok, err}
use catfee_io.Base.Triples.{
  Triple, Post, after_Post, bind, given, lift-Triple, return-Triple, throw-Triple, if-Triple,
  when-Triple, attempt-Triple, ignore-Triple, before, weaken,
}
use catfee_io.Table.{update}
use catfee_io.Table.Laws.{All}
use catfee_io.Store.{Database, Lease, LeaseState, release_broadcast, released, TxId}
use catfee_io.Failures.{Failure}
use catfee_io.Gateway.Leases.{update_lease, mark_lease_undelegate_broadcast, mark_lease_released}
use catfee_io.Resources.{Receipt, is_successful_receipt}
use catfee_io.Resources.World.{Node, Session, asks, release_announced, release_done}
use catfee_io.Resources.World.Calls.{call-Keeps, call-Triple}
use catfee_io.Resources.Leasing.{assert_successful_receipt}
use catfee_io.Resources.Release.{
  forget_lease, follow_seen, look_for_delegation, send_undelegation, try_to_send, confirm_release,
  take_back, release_lease,
}

-- The lease was never delegated, or the node shows that its delegation succeeded.
abbrev pub IsDelegated : Node → Lease → Type 0
IsDelegated n l =
    (l.delegate_tx_id ≡ none)
    ⊎ ((r : Receipt) × (n.delegation_seen ≡ ok (some r)) × (is_successful_receipt r ≡ true))

-- The release is under way, or its receipt showed success.
abbrev pub IsUnderWay : Node → LeaseState → Type 0
IsUnderWay n state =
    (state ≡ release_broadcast)
    ⊎ ((state ≡ released)
        × ((r : Receipt) × (n.undelegation_receipt ≡ ok r) × (is_successful_receipt r ≡ true)))

-- The lease's row names its undelegation.
abbrev pub IsAnnounced : Node → ℕ → TxId → Database → Type 0
IsAnnounced n id t db =
    All (λ l. (l.id == id) ≡ true → (l.undelegate_tx_id ≡ some t) × IsUnderWay n l.state) db.leases

-- The rows that an update meant to change are as it leaves them.
All-updated :
    (P : Lease → Type 0) (p : Lease → Bool) (f : Lease → Lease)
    → ((r : Lease) → P (f r))
    → (rows : List Lease) → All (λ r. p r ≡ true → P r) (update p f rows)
unfolding update
All-updated P p f h [] = tt
All-updated P p f h (r ∷ rows) = elim (Bool-cases (p r)) [
  | inl e ↦ rw e (λ passes. h r, All-updated P p f h rows)
  | inr e ↦ rw e (λ passes. absurd (ground arith), All-updated P p f h rows)
]

module _ (n : Node) (l : Lease) (sent : List TxId) where
  -- Nothing was taken back, or one transaction, announced before.
  abbrev pub IsCareful : Session → Type 0
  IsCareful s =
      (s.undelegations ≡ sent)
      ⊎ (IsDelegated n l
          × ((t : TxId) × (s.undelegations ≡ t ∷ sent) × IsAnnounced n l.id t s.database))

  abbrev Unsent : Session → Type 0
  Unsent s = s.undelegations ≡ sent

  abbrev Announced : TxId → Session → Type 0
  Announced t s = Unsent s × IsAnnounced n l.id t s.database

  abbrev Sent : TxId → Session → Type 0
  Sent t s = (s.undelegations ≡ t ∷ sent) × IsAnnounced n l.id t s.database

  announced :
      (t : TxId) (now : ℕ) (db : Database)
      → IsAnnounced n l.id t (mark_lease_undelegate_broadcast l.id t now db)
  unfolding mark_lease_undelegate_broadcast update_lease
  announced t now db = All-updated _ _ _ (λ r. (refl, inl refl)) db.leases

  confirmed :
      (t : TxId) (now : ℕ) (r : Receipt) (db : Database)
      → n.undelegation_receipt ≡ ok r
      → is_successful_receipt r ≡ true
      → IsAnnounced n l.id t (mark_lease_released l.id t now db)
  unfolding mark_lease_released update_lease
  confirmed t now r db seen good =
      All-updated _ _ _ (λ k. (refl, inr (refl, (r, seen, good)))) db.leases

  forget-Unsent :
      (m : List ℕ)
      → Triple Unsent
          (forget_lease n l m)
          (λ go s. Unsent s × (go ≡ true → IsDelegated n l))
          (λ _. Unsent)
  unfolding forget_lease
  forget-Unsent m =
      bind {Q = λ _. Unsent} (call-Keeps n _ _ (λ s a db u e. u))
        λ _. return-Triple false (λ s u. (u, λ e. absurd (ground arith)))

  either_way :
      (t : TxId) (r : Result Failure (Unit {0})) (s : Session)
      → Sent t s
      → Post (λ _. Sent t) (λ _. Sent t) (r, s)
  either_way t (ok u) s v = v
  either_way t (err e) s v = v

  send_undelegation-Sent :
      (t : TxId) → Triple (Announced t) (send_undelegation n t) (λ _. Sent t) (λ _. Sent t)
  unfolding send_undelegation
  send_undelegation-Sent t = record {
    run = λ s v.
        either_way t (asks n.undelegation_sent) (record s { undelegations = t ∷ s.undelegations })
          (ap (λ ts. t ∷ ts) v.0, v.1);
  }

  send-Sent : (t : TxId) → Triple (Announced t) (try_to_send n t) (λ _. Sent t) (λ _. IsCareful)
  unfolding try_to_send
  send-Sent t =
      attempt-Triple {R = λ _. Sent t}
        (bind {Q = λ _. Sent t} (send_undelegation-Sent t) λ _. return-Triple true (λ s v. v))
        (λ e. return-Triple false (λ s v. v))

  confirm-Sent : (t : TxId) → Triple (Sent t) (confirm_release n l t) (λ _. Sent t) (λ _. IsCareful)
  unfolding confirm_release assert_successful_receipt
  confirm-Sent t = ignore-Triple (
      bind
        (lift-Triple {Q = λ r s. Sent t s × (n.undelegation_receipt ≡ ok r)} _
          (λ r s e v. (v, ground arith)) (λ x s e v. v))
        λ r. given λ seen.
          bind
            (lift-Triple {Q = λ _ s. Sent t s × (is_successful_receipt r ≡ true)} _
              (λ u s e v. (v, ground arith)) (λ x s e v. v))
            λ _. given λ good. call-Keeps n _ _ (λ s a db v e.
              let same : mark_lease_released l.id t (n.now release_done) s.database ≡ db =
                ground arith in
              (v.0, rw (← same) (confirmed t _ r s.database seen good))))

  -- Before the undelegation is sent.
  look-IsDelegated :
      (b : Option TxId)
      → l.delegate_tx_id ≡ b
      → Triple Unsent
          (look_for_delegation n b l)
          (λ go s. Unsent s × (go ≡ true → IsDelegated n l))
          (λ _. Unsent)
  unfolding look_for_delegation follow_seen
  look-IsDelegated none none_there = return-Triple true (λ s u. (u, λ e. inl none_there))
  look-IsDelegated (some t) e =
      bind
        (lift-Triple {Q = λ seen s. Unsent s × (n.delegation_seen ≡ ok seen)} _
          (λ seen s e u. (u, ground arith)) (λ x s e u. u))
        follow
    where
      follow :
          (seen : Option Receipt)
          → Triple
              (λ s. Unsent s × (n.delegation_seen ≡ ok seen))
              (follow_seen n l seen)
              (λ go s. Unsent s × (go ≡ true → IsDelegated n l))
              (λ _. Unsent)
      follow none =
          if-Triple (ltb (l.created_at + 600_000) n.release_time)
            (λ _. before (λ s v. v.0) (forget-Unsent _)) (λ _. throw-Triple _ (λ s v. v.0))
      follow (some r) =
          if-Triple (is_successful_receipt r)
            (λ good. return-Triple true (λ s v. (v.0, λ _. inr (r, v.1, good))))
            (λ _. before (λ s v. v.0) (forget-Unsent _))

  take_back-IsCareful :
      IsDelegated n l → Triple Unsent (take_back n l) (λ _. IsCareful) (λ _. IsCareful)
  unfolding take_back
  take_back-IsCareful delegated =
      bind (lift-Triple {Q = λ _. Unsent} _ (λ t s e u. u) (λ x s e u. inl u)) λ t.
        bind
          (call-Triple n {Q = λ _. Announced t} _ _ (λ s u. inl u)
            (λ s a db u e.
              let same : mark_lease_undelegate_broadcast l.id t (n.now release_announced) s.database
                  ≡ db =
                ground arith in
              (u, rw (← same) (announced t _ s.database)))
            (λ s a db u e. inl u))
          λ _. bind (send-Sent t) λ sent_it.
            when-Triple sent_it
              (λ _.
                weaken (λ s v. v) (λ a s v. inr (delegated, (t, v.0, v.1))) (λ x s v. v)
                  (confirm-Sent t))
              (λ _ s v. inr (delegated, (t, v.0, v.1)))

  pub release_lease-Careful : Triple Unsent (release_lease n l) (λ _. IsCareful) (λ _. IsCareful)
  unfolding release_lease
  release_lease-Careful =
      bind
        (weaken (λ s u. u) (λ a s v. v) (λ x s u. inl u) (look-IsDelegated l.delegate_tx_id refl))
        λ go.
          when-Triple go (λ e. before (λ s v. (v.0, v.1 e)) (given take_back-IsCareful))
            (λ e s v. inl v.0)

-- Whatever the node, the signer and the connection to the database do, releaseLease sends nothing, or one
-- undelegation: of a lease that was never delegated or whose delegation the node shows as successful,
-- after the row of the lease got its id. The row then says that the release is under way, or that
-- it is done, which it says only after a receipt of success.
pub release_lease-IsCareful :
    (n : Node) (l : Lease) (s : Session) → IsCareful n l s.undelegations (release_lease n l s).1
release_lease-IsCareful n l s =
    after_Post (IsCareful n l s.undelegations) _
      ((release_lease-Careful n l s.undelegations).run s refl)
