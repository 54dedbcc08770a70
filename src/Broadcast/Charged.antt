-- ===== src/Broadcast/Charged.antt =====
-- What `sponsorAndForward` of src/broadcast-processor.ts leaves once a provider may have charged.
use catfee_io.Base.{
  ◌<◌, true, false, not, Option, none, some, ◌≡◌, ◌⊎◌, inl, inr, refl, arith, ap, ◌∙◌, ◌&&◌,
}
use catfee_io.Base.Results.{Result}
use catfee_io.Base.Triples.{
  Triple, Keeps, bind, return-Triple, if-Triple, when-Triple, attempt-Triple, ignore-Triple, weaken,
  before,
}
use catfee_io.Store.{Database, Text, resource_ready}
use catfee_io.Failures.{Failure}
use catfee_io.Gateway.Requests.{Transaction, set_request_state}
use catfee_io.Gateway.Quota.{consume_quota, release_quota}
use catfee_io.Resources.World.{Site, writes, fallback_recorded}
use catfee_io.Resources.Rental.Charges.{IsFree}
use catfee_io.Broadcast.{Wire, Config, Response, Return}
use catfee_io.Broadcast.Sponsor.{Progress, forward, settle_forward, on_session}
use catfee_io.Broadcast.Sponsor.Caught.{
  sponsor_catch, note_failure, is_paid, give_back, keep_ready, cache_failure, finish_unsent,
  clean_up, may_fall_back,
}
use catfee_io.Broadcast.Flags.{step-Keeps, at_database, sets-Triple, reads-Triple, sends-Triple}
use catfee_io.Broadcast.Open.{IsOpen, IsKept, move_quota-IsKept, set_request_state-IsKept}

module _ (t : Transaction) where
  -- Before the preparation nothing is charged.
  abbrev pub Opened : Progress → Type 0
  Opened p =
      IsFree p.session
      × (p.created ≡ true)
      × (p.forward_attempted ≡ false)
      × IsOpen t.tx_id p.session.database

  abbrev pub Claimed : Progress → Type 0
  Claimed p =
      IsFree p.session
      × (p.created ≡ true)
      × (p.forward_attempted ≡ false)
      × IsKept t.tx_id p.session.database

  -- The request will not be cached as failed, nor its claim given back.
  abbrev pub Retained : Progress → Type 0
  Retained p =
      (p.created ≡ true)
      × (p.forward_attempted ≡ false)
      × (p.retain_address_claim ≡ true)
      × IsKept t.tx_id p.session.database

  -- The upstream was asked to take the transaction.
  abbrev pub Sent : Progress → Type 0
  Sent p = (p.forward_attempted ≡ true) × (0 < p.session.forwards)

  -- As the catch block finds it.
  abbrev pub Caught : Failure → Progress → Type 0
  Caught e p =
      IsFree p.session
      ⊎ (Sent p
          ⊎ (Retained p
              ⊎ ((p.created ≡ true)
                  × (p.forward_attempted ≡ false)
                  × (is_paid e ≡ true)
                  × (p.quota_reserved ≡ true)
                  × IsKept t.tx_id p.session.database)))

  -- As its first lines leave it.
  abbrev Noted : Progress → Type 0
  Noted p = IsFree p.session ⊎ (Sent p ⊎ Retained p)

  -- As the end of the catch block finds it, with nothing sent.
  abbrev pub Unsent : Progress → Type 0
  Unsent p = IsFree p.session ⊎ Retained p

  -- How a run may end.
  abbrev pub IsSettled : Progress → Type 0
  IsSettled p = IsFree p.session ⊎ ((0 < p.session.forwards) ⊎ IsKept t.tx_id p.session.database)

-- A statement on the database that keeps an open transaction with its claim.
abbrev pub KeepsKept : Transaction → (Database → Database) → Type 0
KeepsKept t f = (db : Database) → IsKept t.tx_id db → IsKept t.tx_id (f db)

module _ (w : Wire) (c : Config) (t : Transaction) where
  write-Noted :
      (site : Site) (f : Database → Database)
      → KeepsKept t f
      → Keeps (Noted t) (on_session (writes w.node site f))
  write-Noted site f h = step-Keeps w.node site _ λ p a db v e.
      let same : f p.session.database ≡ db = ground arith in
      elim v [
        | inl free ↦ inl free
        | inr (inl sent) ↦ inr (inl sent)
        | inr (inr (cr, at, re, k)) ↦ inr (inr (cr, at, re, rw (← same) (h p.session.database k)))
      ]

  pub ready-KeepsKept :
      (site : Site)
      → KeepsKept t (λ db. set_request_state t.tx_id resource_ready (w.node.now site) db)
  ready-KeepsKept site db k = set_request_state-IsKept t.tx_id resource_ready _ db refl k

  settle_forward-Sent :
      (site : Site) (r : Response) (m : Option Return)
      → Keeps (Sent t) (settle_forward w c t site r m)
  unfolding settle_forward
  settle_forward-Sent site r none = return-Triple r (λ p v. v)
  settle_forward-Sent site r (some m) =
      bind (step-Keeps w.node _ _ (λ p a db v e. v))
        λ _. bind (sets-Triple _ (λ p v. v)) λ _. return-Triple r (λ p v. v)

  pub forward-Sent :
      {P : Progress → Type 0} (site : Site) (upstream : Result Text Response)
      → Triple P (forward w c t site upstream) (λ _. Sent t) (λ _. Sent t)
  unfolding forward
  forward-Sent site upstream =
      bind (sets-Triple {Q = λ p. p.forward_attempted ≡ true} _ (λ p v. refl)) λ _.
        bind (sends-Triple upstream (λ p v. (v, omega arith))) λ r. settle_forward-Sent site r _

  -- Once the claim is to be retained, a charge counts as noted.
  Caught-Retained :
      (e : Failure) (p : Progress)
      → Caught t e p
      → Noted t (record p { retain_address_claim = true })
  Caught-Retained e p (inl free) = inl free
  Caught-Retained e p (inr (inl sent)) = inr (inl sent)
  Caught-Retained e p (inr (inr (inl (cr, at, re, k)))) = inr (inr (cr, at, refl, k))
  Caught-Retained e p (inr (inr (inr (cr, at, charge, quota, k)))) = inr (inr (cr, at, refl, k))

  Noted-Retained :
      (p : Progress)
      → Noted t p
      → Noted t (record p { retain_address_claim = true; quota_reserved = false })
  Noted-Retained p (inl free) = inl free
  Noted-Retained p (inr (inl sent)) = inr (inl sent)
  Noted-Retained p (inr (inr (cr, at, re, k))) = inr (inr (cr, at, refl, k))

  Caught-unpaid :
      (e : Failure) (q p : Progress)
      → (is_paid e && q.quota_reserved) ≡ false
      → q ≡ p
      → Caught t e p
      → Noted t p
  Caught-unpaid e q p no_charge same (inl free) = inl free
  Caught-unpaid e q p no_charge same (inr (inl sent)) = inr (inl sent)
  Caught-unpaid e q p no_charge same (inr (inr (inl retained))) = inr (inr retained)
  Caught-unpaid e q p no_charge same (inr (inr (inr (cr, at, charge, quota, k)))) =
      let held : q.quota_reserved ≡ true = ap (λ (x : Progress). x.quota_reserved) same ∙ quota in
      absurd (ground arith)

  note_failure-Noted :
      (e : Failure) → Triple (Caught t e) (note_failure w t e) (λ _. Noted t) (λ _. Noted t)
  unfolding note_failure consume_quota
  note_failure-Noted e = bind reads-Triple λ q.
      bind {Q = λ _. Noted t}
        (when-Triple (is_paid e && q.quota_reserved)
          (λ _. bind (sets-Triple {Q = Noted t} _ (λ p v. Caught-Retained e p v.1)) λ _.
            bind (ignore-Triple (write-Noted _ _ (λ db k. move_quota-IsKept _ _ true _ db k)))
              λ _. sets-Triple _ (λ p v. v))
          (λ no_charge p v. Caught-unpaid e q p no_charge v.0 v.1))
        λ _.
          when-Triple q.provider_order_may_be_charged
            (λ _. sets-Triple _ (λ p v. Noted-Retained p v)) (λ _ p v. v)

  pub write-Unsent :
      {F : Progress → Type 0} (site : Site) (f : Database → Database)
      → ((p : Progress) (db : Database) → F p → F (at_database p db))
      → KeepsKept t f
      → Keeps (λ p. F p × Unsent t p) (on_session (writes w.node site f))
  write-Unsent site f stays h = step-Keeps w.node site _ λ p a db v e.
      let same : f p.session.database ≡ db = ground arith in
      (
        stays p db v.0,
        elim v.1 [
          | inl free ↦ inl free
          | inr (cr, at, re, k) ↦ inr (cr, at, re, rw (← same) (h p.session.database k))
        ],
      )

  pub write-IsFree :
      (site : Site) (f : Database → Database)
      → Keeps (λ p. IsFree p.session) (on_session (writes w.node site f))
  write-IsFree site f = step-Keeps w.node site _ (λ p a db v e. v)

  -- A claim that may be given back is no retained one.
  IsFree-unless_retained :
      (q p : Progress)
      → (q.address_claimed && not q.retain_address_claim) ≡ true
      → q.retain_address_claim ≡ p.retain_address_claim
      → Unsent t p
      → IsFree p.session
  IsFree-unless_retained q p gives same (inl free) = free
  IsFree-unless_retained q p gives same (inr (cr, at, re, k)) = absurd (ground arith)

  give_back-Unsent : Triple (Unsent t) (give_back w t) (λ _. (Unsent t)) (λ _. (Unsent t))
  unfolding give_back release_quota
  give_back-Unsent = bind reads-Triple λ q.
      bind {Q = λ _ p. (q.retain_address_claim ≡ p.retain_address_claim) × Unsent t p}
        (when-Triple q.quota_reserved
          (λ _.
            before (λ p v. (ap (λ (x : Progress). x.retain_address_claim) v.0, v.1))
              (ignore-Triple (
                write-Unsent _ _ (λ p db same. same) (λ db k. move_quota-IsKept _ _ false _ db k))))
          (λ _ p v. (ap (λ (x : Progress). x.retain_address_claim) v.0, v.1)))
        λ _.
          when-Triple (q.address_claimed && not q.retain_address_claim)
            (λ gives.
              weaken (λ p v. IsFree-unless_retained q p gives v.0 v.1) (λ a p v. inl v)
                (λ x p v. inl v)
                (bind (ignore-Triple (write-IsFree _ _)) λ _.
                  sets-Triple {Q = λ p. IsFree p.session} {R = λ _ p. IsFree p.session} _
                    (λ p v. v)))
            (λ _ p v. v.1)

  IsSettled-Unsent : (p : Progress) → Unsent t p → IsSettled t p
  IsSettled-Unsent p (inl free) = inl free
  IsSettled-Unsent p (inr (cr, at, re, k)) = inr (inr k)

  keep_ready-IsSettled : Triple (Unsent t) (keep_ready w t) (λ _. IsSettled t) (λ _. IsSettled t)
  unfolding keep_ready
  keep_ready-IsSettled =
      before (λ p v. (tt, v))
        (bind (ignore-Triple (write-Unsent {F = λ _. Unit} _ _ (λ p db u. u) (ready-KeepsKept _)))
          λ _. return-Triple _ (λ p v. IsSettled-Unsent p v.1))

  cache_failure-IsFree :
      (e : Failure)
      → Triple (λ p. IsFree p.session) (cache_failure w c t e) (λ _. IsSettled t) (λ _. IsSettled t)
  unfolding cache_failure
  cache_failure-IsFree e =
      bind (ignore-Triple (write-IsFree _ _))
        λ _. bind (ignore-Triple (write-IsFree _ _)) λ _. return-Triple _ (λ p v. inl v)

  -- A request that is not retained is one that nothing was charged for.
  IsFree-unless_kept :
      (q p : Progress)
      → (q.created && q.retain_address_claim) ≡ false
      → q ≡ p
      → Unsent t p
      → IsFree p.session
  IsFree-unless_kept q p no_claim same (inl free) = free
  IsFree-unless_kept q p no_claim same (inr (cr, at, re, k)) =
      let made : q.created ≡ true = ap (λ (x : Progress). x.created) same ∙ cr in
      let held : q.retain_address_claim ≡ true =
        ap (λ (x : Progress). x.retain_address_claim) same ∙ re in
      absurd (ground arith)

  finish_unsent-IsSettled :
      (e : Failure)
      → Triple (Unsent t) (finish_unsent w c t e) (λ _. IsSettled t) (λ _. IsSettled t)
  unfolding finish_unsent
  finish_unsent-IsSettled e =
      bind (weaken (λ p v. v) (λ a p v. v) (λ x p v. IsSettled-Unsent p v) give_back-Unsent) λ _.
        bind reads-Triple λ q.
          if-Triple (q.created && q.retain_address_claim)
            (λ _. weaken (λ p v. v.1) (λ a p v. v) (λ x p v. v) keep_ready-IsSettled)
            (λ no_claim.
              weaken (λ p v. IsFree-unless_kept q p no_claim v.0 v.1) (λ a p v. v) (λ x p v. v)
                (if-Triple q.created (λ _. cache_failure-IsFree e)
                  (λ _. return-Triple _ (λ p v. inl v))))

  Unsent-of : (q p : Progress) → q.forward_attempted ≡ false → q ≡ p → Noted t p → Unsent t p
  Unsent-of q p unsent same (inl free) = inl free
  Unsent-of q p unsent same (inr (inl sent)) =
      let twice : q.forward_attempted ≡ true =
        ap (λ (x : Progress). x.forward_attempted) same ∙ sent.0 in
      absurd (ground arith)
  Unsent-of q p unsent same (inr (inr retained)) = inr retained

  already_holds : (p : Progress) → Noted t p → IsSettled t p
  already_holds p (inl free) = inl free
  already_holds p (inr (inl sent)) = inr (inl sent.1)
  already_holds p (inr (inr (cr, at, re, k))) = inr (inr k)

  clean_up-IsSettled :
      (e : Failure) → Triple (Noted t) (clean_up w c t e) (λ _. IsSettled t) (λ _. IsSettled t)
  unfolding clean_up
  clean_up-IsSettled e = bind reads-Triple λ q.
      if-Triple q.forward_attempted (λ sent. return-Triple _ (λ p v. already_holds p v.1))
        (λ unsent.
          weaken (λ p v. Unsent-of q p unsent v.0 v.1) (λ a p v. v) (λ x p v. v)
            (finish_unsent-IsSettled e))

  pub sponsor_catch-IsSettled :
      (e : Failure)
      → Triple (Caught t e) (sponsor_catch w c t e) (λ _. IsSettled t) (λ _. IsSettled t)
  unfolding sponsor_catch
  sponsor_catch-IsSettled e =
      bind (weaken (λ p v. v) (λ a p v. v) (λ x p v. already_holds p v) (note_failure-Noted e)) λ _.
        if-Triple (may_fall_back c t e)
          (λ _.
            attempt-Triple
              (weaken (λ p v. v) (λ a p v. inr (inl v.1)) (λ x p v. v)
                (forward-Sent fallback_recorded w.fallback_upstream))
              λ x. weaken (λ p v. inr (inl v)) (λ a p v. v) (λ y p v. v) (clean_up-IsSettled x))
          (λ _. clean_up-IsSettled e)
