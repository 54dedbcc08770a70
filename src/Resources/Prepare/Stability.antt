-- ===== src/Resources/Prepare/Stability.antt =====
-- What the resource service of src/resource-service.ts keeps of the database: whatever does not look at
-- the tables that it leaves alone, and survives the consumption of the transaction's quota.
use catfee_io.Base.{
  ℕ, zero, suc, ◌+◌, Bool, true, false, not, Option, none, some, List, [], ◌∷◌, ◌≡◌, arith, ◌&&◌,
  ◌||◌, ltb, is_some,
}
use catfee_io.Base.Int.{ℤ, leb_ℤ, pos}
use catfee_io.Base.Results.{Result, ok, err}
use catfee_io.Base.Effects.{Effect, lift, throw, return}
use catfee_io.Base.Triples.{
  Post, Keeps, bind, lift-Triple, throw-Triple, return-Triple, if-Triple, when-Triple,
  attempt-Triple, ignore-Triple,
}
use catfee_io.ResourceMath.{ResourceType}
use catfee_io.Store.{StoreError, Database, Order, Time, Lease, TxId}
use catfee_io.Failures.{Failure, other}
use catfee_io.Gateway.Requests.{Transaction, Requirement}
use catfee_io.Gateway.Quota.{consume_quota}
use catfee_io.Gateway.Leases.{
  update_lease, mark_lease_delegated, mark_lease_delegate_broadcast, retry_lease_release,
  fail_lease,
}
use catfee_io.Service.{
  OrderError, OrderResult, potentially_charged, conflict, invalid_input, store_error,
}
use catfee_io.Service.Framed.{Frame}
use catfee_io.Service.Framed.Loop.{order_energy-Frame}
use catfee_io.Resources.Rental.Package.{
  buy, follow_order, order_package, place_order, quote_package, quoted_or_thrown, refuse_package,
  rent_external_energy, rent_missing, use_available,
}
use catfee_io.Resources.{Options, is_provider}
use catfee_io.Resources.World.{Node, Session, Site, asks, call, writes, charged_consumed}
use catfee_io.Resources.World.Calls.{call-Keeps}
use catfee_io.Resources.Requirements.{is_energy}
use catfee_io.Resources.Leasing.{delegate, announce_delegation, confirm_delegation, send_delegation}
use catfee_io.Resources.Survey.{Survey}
use catfee_io.Resources.Rental.{
  write_plan, consume_potentially_charged_quota, record_attempt, await_delivery, is_ordered,
  may_be_charged, take_turn, record_arrival, mark_delivered, give_up, wait_for_energy, poll,
  is_higher, order_of, confirmation_target,
}
use catfee_io.Resources.Prepare.Statements.{
  answerless-Frame, upsert_resource_audit_plan-Frame, record_energy_package_attempt-Frame,
  record_energy_arrival-Frame, create_lease-Frame, update_lease-Frame, with_answer-Frame,
  mark_fulfilled-Frame, mark_confirmation_timeout-Frame,
}
use catfee_io.Resources.Prepare.{prepare, prepare_all, prepare_one}

-- The interface to a property of the database: what it has to survive.
pub record IsStable (t : Transaction) (D : Database → Type 0) : Type 0 where
  pub framed : {db db' : Database} → Frame db db' → D db → D db'
  pub consumed :
      (now : Time) (db : Database) → D db → D (consume_quota t.owner_address t.tx_id now db)

module _ (n : Node) (t : Transaction) (D : Database → Type 0) (stable : IsStable t D) where
  abbrev Kept : Session → Type 0
  Kept s = D s.database

  -- A call whose statement leaves the three tables.
  framed_call {ℓ} :
      {A : Type ℓ} (site : Site) (op : Database → Result StoreError (A × Database))
      → ((a : A) (db db' : Database) → op db ≡ ok (a, db') → Frame db db')
      → Keeps Kept (call n site op)
  framed_call site op h = call-Keeps n _ _ (λ s a db d e. stable.framed (h a s.database db e) d)

  lift-Kept {ℓ} : {A : Type ℓ} (r : Result Failure A) → Keeps Kept (lift r)
  lift-Kept r = lift-Triple r (λ a s e d. d) (λ x s e d. d)

  throw-Kept {ℓ} : {A : Type ℓ} (e : Failure) → Keeps Kept (throw {A = A} e)
  throw-Kept e = throw-Triple e (λ s d. d)

  return-Kept {ℓ} : {A : Type ℓ} (a : A) → Keeps Kept (return {E = Failure} a)
  return-Kept a = return-Triple a (λ s d. d)

  write_plan-Kept :
      (o : Options) (q : Requirement) (v : Survey) (site : Site) (quoted : Option ℤ) (burn : ℤ)
      → Keeps Kept (write_plan n o t q v site quoted burn)
  unfolding write_plan
  write_plan-Kept o q v site quoted burn =
      framed_call _ _ λ a db db' e.
        answerless-Frame db db' _ a (λ d. upsert_resource_audit_plan-Frame _ _ _ db d) e

  consume-Kept : Keeps Kept (consume_potentially_charged_quota n t)
  unfolding consume_potentially_charged_quota
  consume-Kept =
      attempt-Triple
        (call-Keeps n _ _ (λ s a db d e.
          let same : consume_quota t.owner_address t.tx_id (n.now charged_consumed) s.database
              ≡ db =
            ground arith in
          rw (← same) (stable.consumed _ s.database d)))
        (λ e. throw-Kept _)

  record_attempt-Kept : (order : Order) → Keeps Kept (record_attempt n t order)
  unfolding record_attempt
  record_attempt-Kept order =
      when-Triple (is_some order.provider_id)
        (λ _. ignore-Triple (
          framed_call _ _ λ a db db' e.
            answerless-Frame db db' _ a (λ d. record_energy_package_attempt-Frame _ _ db d) e))
        (λ _ s d. d)

  record_arrival-Kept :
      (turn : ℕ) (available : ℤ) (highest : Option ℤ)
      → Keeps Kept (record_arrival n t turn available highest)
  unfolding record_arrival
  record_arrival-Kept turn available highest =
      when-Triple (is_higher available highest)
        (λ _. ignore-Triple (
          framed_call _ _ λ a db db' e.
            answerless-Frame db db' _ a (λ d. record_energy_arrival-Frame _ _ _ db d) e))
        (λ _ s d. d)

  mark_delivered-Kept : Keeps Kept (mark_delivered n t)
  unfolding mark_delivered
  mark_delivered-Kept = ignore-Triple (
      framed_call _ _
        λ a db db' e. with_answer-Frame db db' _ a (λ o d. mark_fulfilled-Frame _ _ db d o) e)

  give_up-Kept : (has_failed : Bool) → Keeps Kept (give_up n t has_failed)
  unfolding give_up
  give_up-Kept has_failed =
      bind
        (ignore-Triple (
          framed_call _ _ λ a db db' e.
            with_answer-Frame db db' _ a (λ o d. mark_confirmation_timeout-Frame _ _ db d o) e))
        λ _. throw-Kept _

  take_turn-Kept :
      (target : ℤ) (turn : ℕ) (highest : Option ℤ)
      (go_on : Option ℤ → Bool → Effect Session Failure Bool) (r : Result Failure ℤ)
      → ((h : Option ℤ) (f : Bool) → Keeps Kept (go_on h f))
      → Keeps Kept (take_turn n t target turn highest go_on r)
  unfolding take_turn
  take_turn-Kept target turn highest go_on (err e) goes = goes highest true
  take_turn-Kept target turn highest go_on (ok available) goes =
      bind (record_arrival-Kept turn available highest) λ _.
        if-Triple (leb_ℤ target available) (λ _. bind mark_delivered-Kept λ _. return-Kept true)
          (λ _. goes _ false)

  wait_for_energy-Kept :
      (fuel : ℕ) (target : ℤ) (deadline : Time) (turn : ℕ) (highest : Option ℤ) (f : Bool)
      → Keeps Kept (wait_for_energy fuel n t target deadline turn highest f)
  unfolding wait_for_energy
  wait_for_energy-Kept zero target deadline turn highest f = throw-Kept _
  wait_for_energy-Kept (suc fuel) target deadline turn highest f =
      if-Triple (ltb (n.poll_time turn) deadline)
        (λ _.
          take_turn-Kept target turn highest _ (poll n turn)
            (wait_for_energy-Kept fuel target deadline (suc turn)))
        (λ _. give_up-Kept f)

  module _ (o : Options) (q : Requirement) (v : Survey) where
    await_delivery-Kept : (order : Order) → Keeps Kept (await_delivery n o t q v order)
    unfolding await_delivery
    await_delivery-Kept order =
        wait_for_energy-Kept (suc o.provider_confirm_timeout_ms) (confirmation_target o q v order)
          (n.confirm_from + o.provider_confirm_timeout_ms) 0 none false

    follow_order-Kept :
        (answer : Result OrderError OrderResult) → Keeps Kept (follow_order n o t q v answer)
    unfolding follow_order
    follow_order-Kept (err potentially_charged) = bind consume-Kept λ _. throw-Kept _
    follow_order-Kept (err conflict) = throw-Kept _
    follow_order-Kept (err invalid_input) = throw-Kept _
    follow_order-Kept (err (store_error e)) = throw-Kept _
    follow_order-Kept (ok r) =
        bind (when-Triple {Q = Kept} (may_be_charged r) (λ _. consume-Kept) (λ _ s d. d)) λ _.
          bind (record_attempt-Kept (order_of r)) λ _.
            if-Triple (is_ordered r) (λ _. await_delivery-Kept (order_of r)) (λ _. throw-Kept _)

    place_order-Kept :
        (amount units : ℕ) (deadline : ℤ) → Keeps Kept (place_order n t amount units deadline)
    unfolding place_order
    place_order-Kept amount units deadline = record {
      run = λ s d. stable.framed (order_energy-Frame n.market _ s.database) d;
    }

    order_package-Kept : (amount units : ℕ) → Keeps Kept (order_package n o t q v amount units)
    unfolding order_package
    order_package-Kept amount units = bind (write_plan-Kept o q v _ _ _) λ _.
        bind (lift-Kept _)
          λ deadline. bind (place_order-Kept amount units deadline) follow_order-Kept

    refuse_package-Kept : Keeps Kept (refuse_package n o t q v)
    unfolding refuse_package
    refuse_package-Kept =
        bind (write_plan-Kept o q v _ _ _) λ _. bind (lift-Kept _) λ _. throw-Kept _

    quoted_or_thrown-Kept : (r : Result OrderError (Option ℕ)) → Keeps Kept (quoted_or_thrown r)
    quoted_or_thrown-Kept (ok units) = return-Kept units
    quoted_or_thrown-Kept (err e) = throw-Kept (other [])

    quote_package-Kept :
        (amount : ℕ) (minimum : Option ℕ) → Keeps Kept (quote_package n amount minimum)
    unfolding quote_package
    quote_package-Kept amount minimum =
        bind
          (call-Keeps n _ _
            λ s a db d e. let unchanged : s.database ≡ db = ground arith in rw (← unchanged) d)
          quoted_or_thrown-Kept

    buy-Kept : (amount : ℕ) (quoted : Option ℕ) → Keeps Kept (buy n o t q v amount quoted)
    buy-Kept amount none = refuse_package-Kept
    buy-Kept amount (some units) = order_package-Kept amount units

    rent_missing-Kept : Keeps Kept (rent_missing n o t q v)
    unfolding rent_missing
    rent_missing-Kept = bind (lift-Kept _) λ amount.
        bind (lift-Kept _) λ minimum. bind (quote_package-Kept amount minimum) (buy-Kept amount)

    use_available-Kept : Keeps Kept (use_available n o t q v)
    unfolding use_available
    use_available-Kept =
        bind (write_plan-Kept o q v _ _ _) λ _. bind (lift-Kept _) λ _. return-Kept false

  rent_external_energy-Kept :
      (o : Options) (q : Requirement) → Keeps Kept (rent_external_energy n o t q)
  unfolding rent_external_energy
  rent_external_energy-Kept o q =
      if-Triple (not n.has_providers) (λ _. throw-Kept _)
        λ _. bind (lift-Kept _) λ v.
          if-Triple (leb_ℤ q.required v.available) (λ _. use_available-Kept o q v)
            (λ _. rent_missing-Kept o q v)

  -- A statement on one lease.
  lease_call :
      (site : Site) (id : ℕ) (f : Lease → Lease) → Keeps Kept (writes n site (update_lease id f))
  lease_call site id f = framed_call _ _ λ a db db' e.
      let same : update_lease id f db ≡ db' = ground arith in
      rw (← same) (update_lease-Frame id f db)

  announce_delegation-Kept :
      (type : ResourceType) (l : Lease) → Keeps Kept (announce_delegation n type l)
  unfolding announce_delegation mark_lease_delegate_broadcast fail_lease
  announce_delegation-Kept type l =
      attempt-Triple (bind (lift-Kept _) λ x. bind (lease_call _ _ _) λ _. return-Kept x)
        λ e. bind (lease_call _ _ _) λ _. throw-Kept e

  answer-Post :
      (r : Result Failure (Unit {0})) (s : Session) → Kept s → Post (λ _. Kept) (λ _. Kept) (r, s)
  answer-Post (ok a) s d = d
  answer-Post (err e) s d = d

  send_delegation-Kept : (type : ResourceType) (x : TxId) → Keeps Kept (send_delegation n type x)
  unfolding send_delegation
  send_delegation-Kept type x = record {
    run = λ s d.
        answer-Post (asks (n.delegation_sent type)) (record s { delegations = x ∷ s.delegations })
          d;
  }

  confirm_delegation-Kept :
      (type : ResourceType) (l : Lease) (x : TxId) → Keeps Kept (confirm_delegation n type l x)
  unfolding confirm_delegation mark_lease_delegated retry_lease_release
  confirm_delegation-Kept type l x =
      attempt-Triple
        (bind (send_delegation-Kept type x)
          λ _. bind (lift-Kept _) λ r. bind (lift-Kept _) λ _. lease_call _ _ _)
        λ e. bind (lease_call _ _ _) λ _. throw-Kept e

  delegate-Kept : (o : Options) (q : Requirement) → Keeps Kept (delegate n o t q)
  unfolding delegate
  delegate-Kept o q = bind (lift-Kept _) λ maximum. bind (lift-Kept _) λ _.
      bind (framed_call _ _ (λ l db db' e. create_lease-Frame _ _ db db' l e)) λ l.
        bind (announce_delegation-Kept q.resource_type l)
          (confirm_delegation-Kept q.resource_type l)

  prepare_one-Kept :
      (o : Options) (q : Requirement) (charged : Bool) → Keeps Kept (prepare_one n o t q charged)
  unfolding prepare_one
  prepare_one-Kept o q charged =
      if-Triple (is_energy q.resource_type && is_provider o.energy_source)
        (λ _. bind (rent_external_energy-Kept o q) λ rented. return-Kept (rented || charged))
        λ _.
          if-Triple (leb_ℤ q.deficit (pos 0) || leb_ℤ q.balance_sun (pos 0))
            (λ _. return-Kept charged) (λ _. bind (delegate-Kept o q) λ _. return-Kept charged)

  prepare_all-Kept :
      (o : Options) (qs : List Requirement) (charged : Bool)
      → Keeps Kept (prepare_all n o t qs charged)
  unfolding prepare_all
  prepare_all-Kept o [] charged = return-Kept charged
  prepare_all-Kept o (q ∷ qs) charged = bind (prepare_one-Kept o q charged) (prepare_all-Kept o qs)

  pub prepare-Kept : (o : Options) (qs : List Requirement) → Keeps Kept (prepare n o t qs)
  unfolding prepare
  prepare-Kept o qs = bind (prepare_all-Kept o qs false) λ charged.
      bind (when-Triple {Q = Kept} (not o.allow_owner_energy_burn) (λ _. lift-Kept _) (λ _ s d. d))
        λ _. return-Kept charged
