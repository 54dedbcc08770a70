-- ===== src/Resources/Release/Framed.antt =====
-- What `releaseLease` of src/resource-service.ts changes: the row of a lease, and what it sends.
use catfee_io.Base.{ℕ, true, false, Option, none, some, ◌∷◌, ◌≡◌, arith, ltb, ◌+◌}
use catfee_io.Base.Results.{Result, ok, err}
use catfee_io.Base.Triples.{
  Keeps, Post, bind, lift-Triple, return-Triple, throw-Triple, if-Triple, when-Triple,
  attempt-Triple, ignore-Triple,
}
use catfee_io.Store.{Lease, TxId, Text}
use catfee_io.Failures.{Failure}
use catfee_io.Gateway.Leases.{
  update_lease, mark_lease_undelegate_broadcast, mark_lease_released, mark_lease_without_delegation,
}
use catfee_io.Resources.{Receipt, is_successful_receipt}
use catfee_io.Resources.World.{Node, Session, Site, asks, writes}
use catfee_io.Resources.World.Calls.{call-Keeps}
use catfee_io.Resources.Release.{
  forget_lease, follow_seen, look_for_delegation, send_undelegation, try_to_send, confirm_release,
  take_back, release_lease,
}

module _ (n : Node) (l : Lease) (P : Session → Type 0)
    (leases : (s : Session) (id : ℕ) (f : Lease → Lease)
      → P s
      → P (record s { database = update_lease id f s.database }))
    (sending : (s : Session) (t : TxId)
      → P s
      → P (record s { undelegations = t ∷ s.undelegations })) where
  write_lease :
      (site : Site) (id : ℕ) (f : Lease → Lease) → Keeps P (writes n site (update_lease id f))
  write_lease site id f = call-Keeps n _ _ (λ s a db p e.
      let same : update_lease id f s.database ≡ db = ground arith in rw (← same) (leases s id f p))

  forget_lease-Keeps : (m : Text) → Keeps P (forget_lease n l m)
  unfolding forget_lease mark_lease_without_delegation
  forget_lease-Keeps m = bind (write_lease _ _ _) λ _. return-Triple false (λ s p. p)

  follow_seen-Keeps : (seen : Option Receipt) → Keeps P (follow_seen n l seen)
  unfolding follow_seen
  follow_seen-Keeps none =
      if-Triple (ltb (l.created_at + 600_000) n.release_time) (λ _. forget_lease-Keeps _)
        (λ _. throw-Triple _ (λ s p. p))
  follow_seen-Keeps (some r) =
      if-Triple (is_successful_receipt r) (λ _. return-Triple true (λ s p. p))
        (λ _. forget_lease-Keeps _)

  look_for_delegation-Keeps : (b : Option TxId) → Keeps P (look_for_delegation n b l)
  unfolding look_for_delegation
  look_for_delegation-Keeps none = return-Triple true (λ s p. p)
  look_for_delegation-Keeps (some t) =
      bind (lift-Triple _ (λ a s e p. p) (λ x s e p. p)) follow_seen-Keeps

  sent_Post : (r : Result Failure (Unit {0})) (s : Session) → P s → Post (λ _. P) (λ _. P) (r, s)
  sent_Post (ok u) s p = p
  sent_Post (err e) s p = p

  send_undelegation-Keeps : (t : TxId) → Keeps P (send_undelegation n t)
  unfolding send_undelegation
  send_undelegation-Keeps t = record {
    run = λ s p.
        sent_Post (asks n.undelegation_sent) (record s { undelegations = t ∷ s.undelegations })
          (sending s t p);
  }

  try_to_send-Keeps : (t : TxId) → Keeps P (try_to_send n t)
  unfolding try_to_send
  try_to_send-Keeps t =
      attempt-Triple {R = λ _. P}
        (bind (send_undelegation-Keeps t) λ _. return-Triple true (λ s p. p))
        (λ e. return-Triple false (λ s p. p))

  confirm_release-Keeps : (t : TxId) → Keeps P (confirm_release n l t)
  unfolding confirm_release mark_lease_released
  confirm_release-Keeps t = ignore-Triple (
      bind {Q = λ _. P} (lift-Triple _ (λ a s e p. p) (λ x s e p. p))
        λ r. bind {Q = λ _. P} (lift-Triple _ (λ a s e p. p) (λ x s e p. p)) λ _. write_lease _ _ _)

  take_back-Keeps : Keeps P (take_back n l)
  unfolding take_back mark_lease_undelegate_broadcast
  take_back-Keeps = bind {Q = λ _. P} (lift-Triple _ (λ a s e p. p) (λ x s e p. p)) λ t.
      bind (write_lease _ _ _) λ _.
        bind (try_to_send-Keeps t)
          λ sent. when-Triple sent (λ _. confirm_release-Keeps t) (λ _ s p. p)

  -- It keeps what neither looks at the leases nor at what was sent.
  pub release_lease-Keeps : Keeps P (release_lease n l)
  unfolding release_lease
  release_lease-Keeps =
      bind (look_for_delegation-Keeps l.delegate_tx_id)
        λ go. when-Triple go (λ _. take_back-Keeps) (λ _ s p. p)
