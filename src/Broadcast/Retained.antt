-- ===== src/Broadcast/Retained.antt =====
-- The try block of `sponsorAndForward` of src/broadcast-processor.ts, and the whole of it, once a provider
-- may have charged.
use catfee_io.Base.{Bool, true, false, not, List, ◌≡◌, ◌⊎◌, inl, inr, refl, arith, ap, ◌∙◌}
use catfee_io.Base.Results.{ok}
use catfee_io.Base.Triples.{
  Triple, after_Post, bind, given, lift-Triple, return-Triple, if-Triple, attempt-Triple,
  ignore-Triple, weaken, before, both,
}
use catfee_io.Failures.{Failure, paid, gateway, other, out_of_fuel}
use catfee_io.Gateway.Quota.{reserve_quota}
use catfee_io.Gateway.Requests.{
  Transaction, Requirement, BeginResult, begun, cached, in_progress, update_requirements,
  begin_request,
}
use catfee_io.Resources.{provider, is_provider}
use catfee_io.Resources.World.{
  Session, writes, requirements_updated, outcome_recorded, quota_taken, request_begun,
}
use catfee_io.Resources.Requirements.{calculate_requirements}
use catfee_io.Resources.Rental.Delivery.{Ticks}
use catfee_io.Resources.Rental.Charges.{IsPaid, IsFree}
use catfee_io.Resources.Prepare.Readiness.{IsReadable, prepare-Tells}
use catfee_io.Resources.Prepare.Stability.{prepare-Kept}
use catfee_io.Broadcast.{Wire, Config, bound_address, is_bound_address}
use catfee_io.Broadcast.Sponsor.{
  Progress, sponsor_try, sponsor_begun, sponsor_claimed, take_quota, refuse_quota, refuse_claim,
  reject_and_cache, prepare_and_forward, note_charge, mark_ready, on_session,
}
use catfee_io.Broadcast.Sponsor.Whole.{start, sponsor_run}
use catfee_io.Broadcast.Flags.{on_session-Triple, step-Triple, sets-Triple}
use catfee_io.Broadcast.Open.{
  IsOpen, IsKept, IsKept-stable, update_requirements-IsKept, reserve_quota-IsKept,
  begin_request-IsOpen, try_acquire_address_claim-IsKept, try_acquire_address_claim-IsOpen,
}
use catfee_io.Broadcast.Charged.{
  Opened, Claimed, Caught, Unsent, IsSettled, write-Unsent, forward-Sent, sponsor_catch-IsSettled,
  ready-KeepsKept,
}
use catfee_io.Broadcast.EnergyAlone.{calculate_requirements-IsEnergyAlone}

-- What is assumed of one run in paid mode: energy alone is sponsored, and rented; addresses are bound;
-- the clock goes on between the polls; and the last reading of the energy is a number.
pub record IsPaidMode (w : Wire) (c : Config) : Type 0 where
  pub rents : c.options.energy_source ≡ provider
  pub no_bandwidth : c.options.sponsor_bandwidth ≡ false
  pub bound : c.auth_mode ≡ bound_address
  pub ticks : Ticks w.node
  pub readable : IsReadable w.node

module _ (w : Wire) (c : Config) (t : Transaction) (mode : IsPaidMode w c) where
  -- A claimed transaction with its quota.
  abbrev Quoted : Progress → Type 0
  Quoted p = Claimed t p × (p.quota_reserved ≡ true)

  Unsent-Caught : (e : Failure) (p : Progress) → Unsent t p → Caught t e p
  Unsent-Caught e p (inl free) = inl free
  Unsent-Caught e p (inr retained) = inr (inr (inl retained))

  paid-Caught :
      (e : Failure) (p : Progress) (s : Session)
      → Quoted p
      → (IsPaid e ⊎ IsFree s) × IsKept t.tx_id s.database
      → Caught t e (record p { session = s })
  paid-Caught (paid x) p s v (inl charge, k) = inr (inr (inr (v.0.1, v.0.2, refl, v.1, k)))
  paid-Caught (gateway x) p s v (inl charge, k) = elim charge [ ]
  paid-Caught (other x) p s v (inl charge, k) = elim charge [ ]
  paid-Caught out_of_fuel p s v (inl charge, k) = elim charge [ ]
  paid-Caught e p s v (inr free, k) = inl free

  -- What the preparation told of a charge, before and after the flags say so.
  abbrev Prepared : Bool → Progress → Type 0
  Prepared charged p =
      ((charged ≡ true) ⊎ IsFree p.session)
      × (p.created ≡ true)
      × (p.forward_attempted ≡ false)
      × IsKept t.tx_id p.session.database

  note_charge-Unsent :
      (charged : Bool) (p : Progress) → Prepared charged p → Unsent t (note_charge charged p)
  note_charge-Unsent true p (told, cr, at, k) = inr (cr, at, refl, k)
  note_charge-Unsent false p (inl charge, cr, at, k) = absurd (ground arith)
  note_charge-Unsent false p (inr free, cr, at, k) = inl free

  mark_ready-Unsent :
      (charged : Bool)
      → Triple (Unsent t) (mark_ready w t charged) (λ _. Unsent t) (λ e p. Caught t e p)
  unfolding mark_ready
  mark_ready-Unsent true =
      weaken (λ p v. (tt, v)) (λ a p v. v.1) (λ x p v. Unsent-Caught x p v.1)
        (ignore-Triple {R = λ _ p. Unit {0} × Unsent t p}
          (write-Unsent w c t {F = λ _. Unit} _ _ (λ p db u. u) (ready-KeepsKept w c t _)))
  mark_ready-Unsent false =
      weaken (λ p v. (tt, v)) (λ a p v. v.1) (λ x p v. Unsent-Caught x p v.1)
        (write-Unsent w c t {F = λ _. Unit} _ _ (λ p db u. u) (ready-KeepsKept w c t _))

  requirements_written :
      (qs : List Requirement)
      → Triple Quoted
          (on_session (
            writes w.node requirements_updated
              (update_requirements t.tx_id qs (w.node.now requirements_updated))))
          (λ _. Quoted)
          (λ e p. Caught t e p)
  requirements_written qs =
      step-Triple w.node _ _
        (λ p a db v e.
          let same : update_requirements t.tx_id qs (w.node.now requirements_updated)
                p.session.database
              ≡ db =
            ground arith in
          (
            (
              v.0.0,
              v.0.1,
              v.0.2,
              rw (← same) (update_requirements-IsKept t.tx_id qs _ p.session.database v.0.3),
            ),
            v.1,
          ))
        (λ p a db m v e. inl v.0.0) (λ p m v. inl v.0.0)

  prepare_and_forward-IsSettled :
      Triple Quoted (prepare_and_forward w c t) (λ _. IsSettled t) (λ e p. Caught t e p)
  unfolding prepare_and_forward
  prepare_and_forward-IsSettled =
      bind
        (lift-Triple {Q = λ qs p. Quoted p × (calculate_requirements w.node c.options t ≡ ok qs)} _
          (λ qs p e v. (v, e)) (λ x p e v. inl v.0.0))
        λ qs. given λ e.
          let alone =
            calculate_requirements-IsEnergyAlone w.node c.options t qs mode.no_bandwidth e in
          bind (requirements_written qs) λ _.
            bind {Q = Prepared}
              (on_session-Triple
                (both
                  (prepare-Tells w.node c.options t mode.ticks mode.rents qs alone mode.readable)
                  (prepare-Kept w.node t (IsKept t.tx_id) (IsKept-stable t) c.options qs))
                (λ p v. (v.0.0, v.0.3)) (λ p a s v q. (q.0, v.0.1, v.0.2, q.1))
                (λ p x s v r. paid-Caught x p s v r))
              λ charged. bind (sets-Triple {Q = Unsent t} _ (note_charge-Unsent charged)) λ _.
                bind
                  (lift-Triple {Q = λ _. Unsent t} _ (λ a p e v. v)
                    (λ x p e v. Unsent-Caught x p v))
                  λ _. bind (mark_ready-Unsent charged) λ _.
                    weaken (λ p v. v) (λ a p v. inr (inl v.1)) (λ x p v. inr (inl v))
                      (forward-Sent w c t outcome_recorded w.upstream)

  -- Before the preparation every failure is free of charges, and so is every refusal.
  refuse_claim-IsFree :
      Triple (λ p. IsFree p.session) (refuse_claim w t) (λ _. IsSettled t) (λ e p. Caught t e p)
  unfolding refuse_claim
  refuse_claim-IsFree =
      bind
        (step-Triple {Q = λ _ p. IsFree p.session} w.node _ _ (λ p a db v e. v)
          (λ p a db m v e. inl v) (λ p m v. inl v))
        λ _. return-Triple _ (λ p v. inl v)

  refuse_quota-IsFree :
      Triple (λ p. IsFree p.session) (refuse_quota w t) (λ _. IsSettled t) (λ e p. Caught t e p)
  unfolding refuse_quota reject_and_cache
  refuse_quota-IsFree =
      bind
        (step-Triple {Q = λ _ p. IsFree p.session} w.node _ _ (λ p a db v e. v)
          (λ p a db m v e. inl v) (λ p m v. inl v))
        λ _. bind (sets-Triple {Q = λ p. IsFree p.session} _ (λ p v. v)) λ _.
          bind
            (step-Triple {Q = λ _ p. IsFree p.session} w.node _ _ (λ p a db v e. v)
              (λ p a db m v e. inl v) (λ p m v. inl v))
            λ _. return-Triple _ (λ p v. inl v)

  take_quota-Quoted :
      Triple
        (Claimed t)
        (take_quota w c t)
        (λ taken p. Claimed t p × (taken ≡ true → p.quota_reserved ≡ true))
        (λ e p. Caught t e p)
  unfolding take_quota
  take_quota-Quoted =
      if-Triple (not (is_bound_address c.auth_mode))
        (λ unbound. absurd (ground (arith, mode.bound)))
        λ _.
          bind
            (step-Triple {Q = λ _. Claimed t} w.node quota_taken _
              (λ p taken db v e.
                let same : (reserve_quota t.owner_address t.tx_id
                      (is_provider c.options.energy_source) (w.node.now quota_taken)
                      p.session.database).1
                    ≡ db =
                  ground arith in
                (
                  v.0,
                  v.1,
                  v.2,
                  rw (← same) (reserve_quota-IsKept _ t.tx_id _ _ p.session.database v.3),
                ))
              (λ p taken db m v e. inl v.0) (λ p m v. inl v.0))
            λ taken.
              bind
                (sets-Triple {Q = λ p. Claimed t p × (taken ≡ true → p.quota_reserved ≡ true)} _
                  (λ p v. (v, λ e. e)))
                λ _. return-Triple taken (λ p v. v)

  sponsor_claimed-IsSettled :
      (claimed : Bool)
      → Triple
          (λ p. Opened t p × (claimed ≡ true → IsKept t.tx_id p.session.database))
          (sponsor_claimed w c t claimed)
          (λ _. IsSettled t)
          (λ e p. Caught t e p)
  unfolding sponsor_claimed
  sponsor_claimed-IsSettled false = before (λ p v. v.0.0) refuse_claim-IsFree
  sponsor_claimed-IsSettled true =
      before (λ p v. (v.0.0, v.0.1, v.0.2, v.1 refl))
        (bind take_quota-Quoted λ taken.
          if-Triple taken (λ took. before (λ p v. (v.0, v.1 took)) prepare_and_forward-IsSettled)
            (λ _. before (λ p v. v.0.0) refuse_quota-IsFree))

  abbrev Begun : BeginResult → Progress → Type 0
  Begun result p =
      IsFree p.session
      × (p.forward_attempted ≡ false)
      × (result ≡ begun → IsOpen t.tx_id p.session.database)

  sponsor_begun-IsSettled :
      (result : BeginResult)
      → Triple (Begun result) (sponsor_begun w c t result) (λ _. IsSettled t) (λ e p. Caught t e p)
  unfolding sponsor_begun
  sponsor_begun-IsSettled (cached response status) = return-Triple _ (λ p v. inl v.0)
  sponsor_begun-IsSettled (in_progress state) = return-Triple _ (λ p v. inl v.0)
  sponsor_begun-IsSettled begun =
      bind (sets-Triple {Q = Opened t} _ (λ p v. (v.0, refl, v.1, v.2 refl))) λ _.
        bind
          (step-Triple
            {Q = λ claimed p. Opened t p × (claimed ≡ true → IsKept t.tx_id p.session.database)}
            w.node _ _
            (λ p claimed db v e. (
              (
                v.0,
                v.1,
                v.2,
                try_acquire_address_claim-IsOpen _ t.tx_id p.session.database db claimed e v.3,
              ),
              λ h.
                  try_acquire_address_claim-IsKept _ t.tx_id p.session.database db
                    (e ∙ ap (λ b. ok (b, db)) h) v.3,
            ))
            (λ p claimed db m v e. inl v.0) (λ p m v. inl v.0))
          λ claimed.
            bind
              (sets-Triple
                {Q = λ p. Opened t p × (claimed ≡ true → IsKept t.tx_id p.session.database)} _
                (λ p v. v))
              λ _. sponsor_claimed-IsSettled claimed

  sponsor_try-IsSettled :
      Triple
        (λ p. IsFree p.session × (p.forward_attempted ≡ false))
        (sponsor_try w c t)
        (λ _. IsSettled t)
        (λ e p. Caught t e p)
  unfolding sponsor_try
  sponsor_try-IsSettled =
      bind
        (step-Triple {Q = Begun} w.node _ _
          (λ p result db v e. (
            v.0,
            v.1,
            λ h.
                let came : begin_request t (w.node.now request_begun) p.session.database
                    ≡ (result, db) =
                  ground arith in
                begin_request-IsOpen t _ p.session.database db (came ∙ ap (λ r. (r, db)) h),
          ))
          (λ p result db m v e. inl v.0) (λ p m v. inl v.0))
        sponsor_begun-IsSettled

-- In paid mode (energy alone is sponsored and rented, addresses are bound, the clock goes on between two
-- polls, and the last reading of the energy is a number), whatever the node, the providers, the upstream
-- and the connection to the database do, in orderEnergy as elsewhere: a run of sponsorAndForward from a
-- session without rentals, in which nothing was sent upstream, ends with every rental turned down, or
-- the upstream was asked to take the transaction, or it still holds its claim on the address and its
-- request is in no final state, so that nothing that may have been charged for is cached as failed or
-- unlocked.
pub sponsor_run-IsSettled :
    (w : Wire) (c : Config) (t : Transaction) (s : Session)
    → IsPaidMode w c
    → IsFree s
    → s.forwards ≡ 0
    → IsSettled t (sponsor_run w c t (start s)).1
unfolding sponsor_run
sponsor_run-IsSettled w c t s mode free unsent = after_Post (IsSettled t) _ (
    (attempt-Triple (sponsor_try-IsSettled w c t mode) (sponsor_catch-IsSettled w c t)).run
      (start s) (free, refl))
