-- ===== src/Broadcast/Refines.antt =====
-- Every run of `sponsorAndForward` of src/broadcast-processor.ts follows the calls that
-- Gateway.Accounting.Reach allows.
use catfee_io.Base.{
  ℕ, Bool, true, false, not, Option, none, some, ◌≡◌, inl, inr, refl, arith, ap, ◌∙◌, ◌&&◌,
}
use catfee_io.Base.Results.{Result, ok, Result-cases}
use catfee_io.Base.Effects.{Effect, return, ◌>>=◌}
use catfee_io.Base.Triples.{
  lift-Keeps, Triple, Keeps, after_Post, bind, return-Triple, if-Triple, when-Triple,
  attempt-Triple, ignore-Triple, before,
}
use catfee_io.Store.{Database, Text, StoreError}
use catfee_io.Failures.{Failure}
use catfee_io.Gateway.Requests.{
  Transaction, BeginResult, begun, cached, in_progress, begin_request, discard_unprepared_request,
}
use catfee_io.Gateway.Quota.{consume_quota, release_quota, reserve_quota}
use catfee_io.Gateway.Leases.{schedule_leases_for_release}
use catfee_io.Gateway.Accounting.Reach.{here}
use catfee_io.Resources.{is_provider}
use catfee_io.Resources.World.{Session, Site, writes, answerless, quota_taken, request_begun}
use catfee_io.Resources.Prepare.Stability.{prepare-Kept}
use catfee_io.Broadcast.{Wire, Config, Response, Return, is_bound_address}
use catfee_io.Broadcast.Sponsor.{
  Progress, sponsor_try, sponsor_begun, sponsor_claimed, take_quota, refuse_quota, refuse_claim,
  reject_and_cache, prepare_and_forward, note_charge, mark_ready, ready, forward, settle_forward,
  outcome_of, on_session, sets, reads,
}
use catfee_io.Broadcast.Sponsor.Whole.{start, sponsor_and_forward, sponsor_run}
use catfee_io.Broadcast.Sponsor.Caught.{
  sponsor_catch, note_failure, is_paid, give_back, keep_ready, cache_failure, finish_unsent,
  clean_up, may_fall_back,
}
use catfee_io.Broadcast.Flags.{
  on_session-Triple, step-Triple, step-Keeps, sets-Triple, reads-Triple, sends-Triple,
}
use catfee_io.Broadcast.Books.{
  Leads, IsOwned, Follows, IsFresh, Follows-stable, set_request_state-Follows,
  update_requirements-Follows, complete_request-Follows, move_quota-Follows,
  record_broadcast_outcome-Follows, release_address_claim-Follows, release_active_leases-Follows,
  discard-Follows, try_acquire_address_claim-Follows, begin_request-Follows, reserve_quota-Follows,
  begin_request-IsFresh,
}

module _ (from : Database) (w : Wire) (c : Config) (t : Transaction) where
  abbrev Books : Progress → Type 0
  Books p = Follows from t p.session.database

  write :
      (site : Site) (f : Database → Database)
      → ((db : Database) → Follows from t db → Follows from t (f db))
      → Keeps Books (on_session (writes w.node site f))
  write site f h = step-Keeps w.node site _ λ p a db v e.
      let same : f p.session.database ≡ db = ground arith in rw (← same) (h p.session.database v)

  set : (f : Progress → Progress) → ((p : Progress) → Books p → Books (f p)) → Keeps Books (sets f)
  set f h = sets-Triple f h

  returned {ℓ} : {A : Type ℓ} (a : A) → Keeps Books (return {E = Failure} a)
  returned a = return-Triple a (λ p v. v)

  -- The flags that were read do not matter to the books.
  reading {ℓ} :
      {A : Type ℓ} {k : Progress → Effect Progress Failure A}
      → ((q : Progress) → Keeps Books (k q))
      → Keeps Books (reads >>= k)
  reading h = bind reads-Triple λ q. before (λ p v. v.1) (h q)

  settle_forward-Books :
      (site : Site) (r : Response) (m : Option Return) → Keeps Books (settle_forward w c t site r m)
  unfolding settle_forward outcome_of
  settle_forward-Books site r none = returned r
  settle_forward-Books site r (some m) =
      bind
        (write site _
          (λ db v. record_broadcast_outcome-Follows from t (outcome_of w c t r m) _ db refl refl v))
        λ _. bind (set _ (λ p v. v)) λ _. returned r

  forward-Books :
      (site : Site) (upstream : Result Text Response) → Keeps Books (forward w c t site upstream)
  unfolding forward
  forward-Books site upstream =
      bind (set _ (λ p v. v))
        λ _. bind (sends-Triple upstream (λ p v. v)) λ r. settle_forward-Books site r _

  ready-Books : (site : Site) → Keeps Books (on_session (ready w t site))
  ready-Books site = write site _ (λ db v. set_request_state-Follows from t _ _ db v)

  mark_ready-Books : (charged : Bool) → Keeps Books (mark_ready w t charged)
  unfolding mark_ready
  mark_ready-Books true = ignore-Triple (ready-Books _)
  mark_ready-Books false = ready-Books _

  note_charge-Books : (charged : Bool) (p : Progress) → Books p → Books (note_charge charged p)
  note_charge-Books true p v = v
  note_charge-Books false p v = v

  prepare_and_forward-Books : Keeps Books (prepare_and_forward w c t)
  unfolding prepare_and_forward
  prepare_and_forward-Books = bind (lift-Keeps _) λ qs.
      bind (write _ _ (λ db v. update_requirements-Follows from t qs _ db v)) λ _.
        bind
          (on_session-Triple
            (prepare-Kept w.node t (Follows from t) (Follows-stable from t) c.options qs) (λ p v. v)
            (λ p a s v q. q) (λ p x s v r. r))
          λ charged. bind (set _ (note_charge-Books charged)) λ _.
            bind (lift-Keeps _) λ _. bind (mark_ready-Books charged) λ _. forward-Books _ w.upstream

  reject_and_cache-Books :
      (code : ℕ) (message internal : Text)
      → Keeps Books (reject_and_cache w t code message internal)
  unfolding reject_and_cache
  reject_and_cache-Books code message internal =
      bind (write _ _ (λ db v. complete_request-Follows from t _ _ _ _ _ _ db v)) λ _. returned _

  refuse_quota-Books : Keeps Books (refuse_quota w t)
  unfolding refuse_quota
  refuse_quota-Books =
      bind (write _ _ (λ db v. release_address_claim-Follows from t db v))
        λ _. bind (set _ (λ p v. v)) λ _. reject_and_cache-Books _ _ _

  discard_kept :
      (db db' : Database) (a : Unit {0})
      → Follows from t db
      → answerless (discard_unprepared_request t.tx_id db) ≡ ok (a, db')
      → Follows from t db'
  discard_kept db db' a v e = elim (Result-cases (discard_unprepared_request t.tx_id db)) [
    | inr (x, bad) ↦ absurd (ground arith)
    | inl (d, good) ↦ discard-Follows from t db db' (ground arith) v
  ]

  refuse_claim-Books : Keeps Books (refuse_claim w t)
  unfolding refuse_claim
  refuse_claim-Books =
      bind (step-Keeps w.node _ _ λ p a db v e. discard_kept p.session.database db a v e)
        λ _. returned _

  abbrev taken_quota : Database → Result StoreError (Bool × Database)
  taken_quota db = ok (
      reserve_quota t.owner_address t.tx_id (is_provider c.options.energy_source)
        (w.node.now quota_taken) db)

  quota_kept :
      (db db' : Database) (taken : Bool)
      → Follows from t db × IsFresh from t db
      → taken_quota db ≡ ok (taken, db')
      → Follows from t db'
  quota_kept db db' taken v e =
      let same : (reserve_quota t.owner_address t.tx_id (is_provider c.options.energy_source)
            (w.node.now quota_taken) db).1
          ≡ db' =
        ground arith in
      rw (← same) (reserve_quota-Follows from t _ _ db v.0 v.1)

  take_quota-Books :
      Triple
        (λ p. Books p × IsFresh from t p.session.database)
        (take_quota w c t)
        (λ _. Books)
        (λ _. Books)
  unfolding take_quota
  take_quota-Books =
      if-Triple (not (is_bound_address c.auth_mode)) (λ _. return-Triple true (λ p v. v.0))
        λ _.
          bind
            (step-Triple {Q = λ _. Books} w.node _ _
              (λ p a db v e. quota_kept p.session.database db a v e)
              (λ p a db m v e. quota_kept p.session.database db a v e) (λ p m v. v.0))
            λ taken. bind (set _ (λ p v. v)) λ _. returned taken

  sponsor_claimed-Books :
      (claimed : Bool)
      → Triple
          (λ p. Books p × IsFresh from t p.session.database)
          (sponsor_claimed w c t claimed)
          (λ _. Books)
          (λ _. Books)
  unfolding sponsor_claimed
  sponsor_claimed-Books false = before (λ p v. v.0) refuse_claim-Books
  sponsor_claimed-Books true =
      bind take_quota-Books
        λ taken. if-Triple taken (λ _. prepare_and_forward-Books) (λ _. refuse_quota-Books)

  sponsor_begun-Books :
      (result : BeginResult)
      → Triple
          (λ p. Books p × (result ≡ begun → IsFresh from t p.session.database))
          (sponsor_begun w c t result)
          (λ _. Books)
          (λ _. Books)
  unfolding sponsor_begun
  sponsor_begun-Books (cached response status) = return-Triple _ (λ p v. v.0)
  sponsor_begun-Books (in_progress state) = return-Triple _ (λ p v. v.0)
  sponsor_begun-Books begun =
      bind
        (sets-Triple {Q = λ p. Books p × IsFresh from t p.session.database} _
          (λ p v. (v.0, v.1 refl)))
        λ _.
          bind
            (step-Triple {Q = λ _ p. Books p × IsFresh from t p.session.database} w.node _ _
              (λ p claimed db v e.
                try_acquire_address_claim-Follows from t p.session.database db claimed e v)
              (λ p claimed db m v e.
                (try_acquire_address_claim-Follows from t p.session.database db claimed e v).0)
              (λ p m v. v.0))
            λ claimed.
              bind (sets-Triple {Q = λ p. Books p × IsFresh from t p.session.database} _ (λ p v. v))
                λ _. sponsor_claimed-Books claimed

  begun_kept :
      (db db' : Database) (result : BeginResult)
      → Follows from t db
      → begin_request t (w.node.now request_begun) db ≡ (result, db')
      → Follows from t db' × (result ≡ begun → IsFresh from t db')
  begun_kept db db' result v e = (
    (let same : (begin_request t (w.node.now request_begun) db).1 ≡ db' = ap (λ x. x.1) e in
        rw (← same) (begin_request-Follows from t _ db v)),
    λ h. begin_request-IsFresh from t _ db db' (e ∙ ap (λ r. (r, db')) h),
  )

  sponsor_try-Books : Keeps Books (sponsor_try w c t)
  unfolding sponsor_try
  sponsor_try-Books =
      bind
        (step-Triple
          {Q = λ result p. Books p × (result ≡ begun → IsFresh from t p.session.database)} w.node _
          _ (λ p result db v e. begun_kept p.session.database db result v (ground arith))
          (λ p result db m v e. (begun_kept p.session.database db result v (ground arith)).0)
          (λ p m v. v))
        sponsor_begun-Books

  note_failure-Books : (e : Failure) → Keeps Books (note_failure w t e)
  unfolding note_failure consume_quota
  note_failure-Books e = reading λ q.
      bind
        (when-Triple {Q = Books} (is_paid e && q.quota_reserved)
          (λ _. bind (set _ (λ p v. v)) λ _.
            bind (ignore-Triple (write _ _ (λ db v. move_quota-Follows from t true _ db v)))
              λ _. set _ (λ p v. v))
          (λ _ p v. v))
        λ _. when-Triple q.provider_order_may_be_charged (λ _. set _ (λ p v. v)) (λ _ p v. v)

  give_back-Books : Keeps Books (give_back w t)
  unfolding give_back release_quota
  give_back-Books = reading λ q.
      bind
        (when-Triple {Q = Books} q.quota_reserved
          (λ _. ignore-Triple (write _ _ (λ db v. move_quota-Follows from t false _ db v)))
          (λ _ p v. v))
        λ _.
          when-Triple (q.address_claimed && not q.retain_address_claim)
            (λ _.
              bind (ignore-Triple (write _ _ (λ db v. release_address_claim-Follows from t db v)))
                λ _. set _ (λ p v. v))
            (λ _ p v. v)

  cache_failure-Books : (e : Failure) → Keeps Books (cache_failure w c t e)
  unfolding cache_failure schedule_leases_for_release
  cache_failure-Books e =
      bind (ignore-Triple (write _ _ (λ db v. release_active_leases-Follows from t _ _ db v))) λ _.
        bind (ignore-Triple (write _ _ (λ db v. complete_request-Follows from t _ _ _ _ _ _ db v)))
          λ _. returned _

  keep_ready-Books : Keeps Books (keep_ready w t)
  unfolding keep_ready
  keep_ready-Books = bind (ignore-Triple (ready-Books _)) λ _. returned _

  finish_unsent-Books : (e : Failure) → Keeps Books (finish_unsent w c t e)
  unfolding finish_unsent
  finish_unsent-Books e = bind give_back-Books λ _. reading λ q.
      if-Triple (q.created && q.retain_address_claim) (λ _. keep_ready-Books)
        λ _. if-Triple q.created (λ _. cache_failure-Books e) (λ _. returned _)

  clean_up-Books : (e : Failure) → Keeps Books (clean_up w c t e)
  unfolding clean_up
  clean_up-Books e =
      reading λ q. if-Triple q.forward_attempted (λ _. returned _) (λ _. finish_unsent-Books e)

  sponsor_catch-Books : (e : Failure) → Keeps Books (sponsor_catch w c t e)
  unfolding sponsor_catch
  sponsor_catch-Books e = bind (note_failure-Books e) λ _.
      if-Triple (may_fall_back c t e)
        (λ _. attempt-Triple (forward-Books _ w.fallback_upstream) clean_up-Books)
        (λ _. clean_up-Books e)

  pub sponsor_run-Books : Keeps Books (sponsor_run w c t)
  unfolding sponsor_run
  sponsor_run-Books = attempt-Triple sponsor_try-Books sponsor_catch-Books

-- Where the rows of the transaction belong to its owner, the database after a run of sponsorAndForward is
-- one that calls of the repository lead to as `Reach` of Gateway.Accounting has them, none of which sets
-- a limit: whatever the node, the providers, the upstream and the connection to the database do, quota is
-- reserved only for a request of the address without quota, and settled on the address that owns it.
pub sponsor_and_forward-Leads :
    (w : Wire) (c : Config) (t : Transaction) (s : Session)
    → IsOwned t s.database
    → Leads s.database (sponsor_and_forward w c t s).1.database
unfolding sponsor_and_forward
sponsor_and_forward-Leads w c t s owned =
    (after_Post (Books s.database w c t) (sponsor_run w c t (start s))
      ((sponsor_run-Books s.database w c t).run (start s) ((here, tt), owned))).0
