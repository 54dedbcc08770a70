-- ===== src/Resources/Rental/Charges.antt =====
-- Whether `rentExternalEnergy` of src/resource-service.ts tells its caller of a rental that a provider
-- may charge for.
use catfee_io.Base.{
  ℕ, Bool, true, false, not, is_some, Option, none, some, List, [], ◌∷◌, ◌++◌, ◌≡◌, ◌⊎◌, inl, inr,
  refl, arith,
}
use catfee_io.Base.Int.{ℤ, leb_ℤ}
use catfee_io.Base.Results.{Result, ok, err}
use catfee_io.Base.Effects.{Effect, lift}
use catfee_io.Base.Triples.{
  Triple, Keeps, bind, lift-Triple, throw-Triple, return-Triple, if-Triple, when-Triple, any_Triple,
  attempt-Triple, ignore-Triple, weaken,
}
use catfee_io.Store.{Order, is_billable_order}
use catfee_io.Table.Laws.{All}
use catfee_io.Failures.{Failure, paid, other}
use catfee_io.Gateway.Requests.{Transaction, Requirement}
use catfee_io.Service.{
  RentOutcome, OrderError, OrderResult, order_accepted, order_declined, order_unknown,
  order_duplicate, potentially_charged, conflict, invalid_input, store_error,
}
use catfee_io.Service.Rentals.{IsRejection, Reports, order_energy-IsHonest}
use catfee_io.Resources.Rental.Package.{
  buy, follow_order, order_package, place_order, quote_package, quoted_or_thrown, refuse_package,
  rent_external_energy, rent_missing, use_available,
}
use catfee_io.Resources.{Options}
use catfee_io.Resources.World.{Node, Session, Site}
use catfee_io.Resources.World.Calls.{call-Keeps}
use catfee_io.Resources.Survey.{Survey}
use catfee_io.Resources.Rental.{
  write_plan, consume_potentially_charged_quota, record_attempt, await_delivery, is_ordered,
}
use catfee_io.Resources.Rental.Delivery.{Ticks, IsTimeout, await_delivery-terminates}

-- A PaidProviderOrderError.
abbrev pub IsPaid : Failure → Type 0
IsPaid (paid c) = Unit
IsPaid _ = ⊥

-- Every rental so far was turned down, so that nothing is charged.
abbrev pub IsFree : Session → Type 0
IsFree s = All IsRejection s.rentals

-- A run that starts free of charges ends so, or says otherwise by its answer or its failure.
abbrev pub Tells : Effect Session Failure Bool → Type 0
Tells m = Triple IsFree m (λ b s. (b ≡ true) ⊎ IsFree s) (λ e s. IsPaid e ⊎ IsFree s)

-- A step of it that makes no rental.
abbrev pub Spares {ℓ} : {A : Type ℓ} → Effect Session Failure A → Type ℓ
Spares m = Triple IsFree m (λ _. IsFree) (λ e s. IsPaid e ⊎ IsFree s)

-- What is known after orderEnergy, by its answer.
abbrev Reported : Result OrderError OrderResult → Session → Type 0
Reported (ok (order_accepted o)) s = Unit
Reported (ok (order_unknown o)) s = Unit
Reported (ok (order_declined o)) s = IsFree s
Reported (ok (order_duplicate o)) s = IsFree s
Reported (err potentially_charged) s = Unit
Reported (err conflict) s = IsFree s
Reported (err invalid_input) s = IsFree s
Reported (err (store_error e)) s = IsFree s

All-append :
    (xs ys : List RentOutcome)
    → All IsRejection xs
    → All IsRejection ys
    → All IsRejection (xs ++ ys)
All-append [] ys h k = k
All-append (x ∷ xs) ys h k = (h.0, All-append xs ys h.1 k)

spares {ℓ} : {A : Type ℓ} {m : Effect Session Failure A} → Keeps IsFree m → Spares m
spares = weaken (λ s p. p) (λ a s p. p) (λ e s p. inr p)

module _ (n : Node) (o : Options) (t : Transaction) (q : Requirement) where
  write_plan-Spares :
      (v : Survey) (site : Site) (quoted : Option ℤ) (burn : ℤ)
      → Spares (write_plan n o t q v site quoted burn)
  unfolding write_plan
  write_plan-Spares v site quoted burn = spares (call-Keeps n _ _ (λ s a db p e. p))

  lift-Spares {ℓ} : {A : Type ℓ} (r : Result Failure A) → Spares (lift r)
  lift-Spares r = lift-Triple r (λ a s e p. p) (λ x s e p. inr p)

  place_order-Reported :
      (amount units : ℕ) (deadline : ℤ)
      → Triple IsFree (place_order n t amount units deadline) Reported (λ e s. IsPaid e ⊎ IsFree s)
  unfolding place_order
  place_order-Reported amount units deadline = record {
    run = λ s p. reported _ _ s _ refl p (order_energy-IsHonest n.market _ s.database);
  }
    where
      reported :
          (answer : Result OrderError OrderResult) (rs : List RentOutcome) (s s' : Session)
          → s'.rentals ≡ s.rentals ++ rs
          → IsFree s
          → Reports answer rs
          → Reported answer s'
      reported (ok (order_accepted o)) rs s s' e p h = tt
      reported (ok (order_unknown o)) rs s s' e p h = tt
      reported (ok (order_declined o)) rs s s' e p h = rw e (All-append s.rentals rs p h)
      reported (ok (order_duplicate o)) rs s s' e p h = rw e (All-append s.rentals rs p h)
      reported (err potentially_charged) rs s s' e p h = tt
      reported (err conflict) rs s s' e p h = rw e (All-append s.rentals rs p h)
      reported (err invalid_input) rs s s' e p h = rw e (All-append s.rentals rs p h)
      reported (err (store_error x)) rs s s' e p h = rw e (All-append s.rentals rs p h)

  consume-Paid :
      {P : Session → Type 0}
      → Triple P
          (consume_potentially_charged_quota n t)
          (λ _ _. Unit {0})
          (λ e s. IsPaid e ⊎ IsFree s)
  unfolding consume_potentially_charged_quota
  consume-Paid = attempt-Triple any_Triple (λ e. throw-Triple _ (λ s p. inl tt))

  consume-Spares : Spares (consume_potentially_charged_quota n t)
  unfolding consume_potentially_charged_quota
  consume-Spares =
      attempt-Triple (spares (call-Keeps n _ _ (λ s a db p e. p)))
        (λ e. throw-Triple _ (λ s p. inl tt))

  record_attempt-any :
      {P : Session → Type 0} {R : Failure → Session → Type 0} (order : Order)
      → Triple P (record_attempt n t order) (λ _ _. Unit {0}) R
  unfolding record_attempt
  record_attempt-any order =
      when-Triple (is_some order.provider_id) (λ _. ignore-Triple any_Triple) (λ _ s p. tt)

  record_attempt-Spares : (order : Order) → Spares (record_attempt n t order)
  unfolding record_attempt
  record_attempt-Spares order =
      when-Triple (is_some order.provider_id)
        (λ _. ignore-Triple (call-Keeps n _ _ (λ s a db p e. p))) (λ _ s p. p)

  module _ (ticks : Ticks n) (v : Survey) where
    timeout-IsPaid : (e : Failure) → IsTimeout e → IsPaid e
    timeout-IsPaid e (inl h) = rw h tt
    timeout-IsPaid e (inr h) = rw h tt

    await-Tells :
        {P : Session → Type 0} (order : Order)
        → Triple P
            (await_delivery n o t q v order)
            (λ b s. (b ≡ true) ⊎ IsFree s)
            (λ e s. IsPaid e ⊎ IsFree s)
    await-Tells {P} order =
        weaken {P = P} (λ s p. p) (λ b s h. inl h.0) (λ e s h. inl (timeout-IsPaid e h))
          (record { run = λ s p. await_delivery-terminates n o t q v order s ticks })

    follow_order-Tells :
        (answer : Result OrderError OrderResult)
        → Triple
            (Reported answer)
            (follow_order n o t q v answer)
            (λ b s. (b ≡ true) ⊎ IsFree s)
            (λ e s. IsPaid e ⊎ IsFree s)
    unfolding follow_order
    follow_order-Tells (err potentially_charged) =
        bind consume-Paid λ _. throw-Triple _ (λ s p. inl tt)
    follow_order-Tells (err conflict) = throw-Triple _ (λ s p. inr p)
    follow_order-Tells (err invalid_input) = throw-Triple _ (λ s p. inr p)
    follow_order-Tells (err (store_error e)) = throw-Triple _ (λ s p. inr p)
    follow_order-Tells (ok (order_accepted order)) =
        bind (when-Triple true (λ _. consume-Paid) (λ _ s p. tt))
          λ _. bind (record_attempt-any order) λ _. await-Tells order
    follow_order-Tells (ok (order_unknown order)) =
        bind (when-Triple true (λ _. consume-Paid) (λ _ s p. tt))
          λ _. bind (record_attempt-any order) λ _. throw-Triple _ (λ s p. inl tt)
    follow_order-Tells (ok (order_declined order)) =
        bind (when-Triple {Q = IsFree} false (λ e. absurd (ground arith)) (λ _ s p. p))
          λ _. bind (record_attempt-Spares order) λ _. throw-Triple _ (λ s p. inr p)
    follow_order-Tells (ok (order_duplicate order)) =
        bind
          (when-Triple {Q = IsFree} (is_billable_order order.state) (λ _. consume-Spares)
            (λ _ s p. p))
          λ _. bind (record_attempt-Spares order) λ _.
            if-Triple (is_ordered (order_duplicate order)) (λ _. await-Tells order)
              (λ _. throw-Triple _ (λ s p. inr p))

    order_package-Tells : (amount units : ℕ) → Tells (order_package n o t q v amount units)
    unfolding order_package
    order_package-Tells amount units = bind (write_plan-Spares v _ _ _) λ _.
        bind (lift-Spares _)
          λ deadline. bind (place_order-Reported amount units deadline) follow_order-Tells

    refuse_package-Tells : Tells (refuse_package n o t q v)
    unfolding refuse_package
    refuse_package-Tells =
        bind (write_plan-Spares v _ _ _)
          λ _. bind (lift-Spares _) λ _. throw-Triple _ (λ s p. inr p)

    quoted_or_thrown-Spares : (r : Result OrderError (Option ℕ)) → Spares (quoted_or_thrown r)
    quoted_or_thrown-Spares (ok units) = return-Triple units (λ s p. p)
    quoted_or_thrown-Spares (err e) = throw-Triple (other []) (λ s p. inr p)

    quote_package-Spares :
        (amount : ℕ) (minimum : Option ℕ) → Spares (quote_package n amount minimum)
    unfolding quote_package
    quote_package-Spares amount minimum =
        bind (spares (call-Keeps n _ _ (λ s a db p e. p))) quoted_or_thrown-Spares

    buy-Tells : (amount : ℕ) (quoted : Option ℕ) → Tells (buy n o t q v amount quoted)
    buy-Tells amount none = refuse_package-Tells
    buy-Tells amount (some units) = order_package-Tells amount units

    rent_missing-Tells : Tells (rent_missing n o t q v)
    unfolding rent_missing
    rent_missing-Tells = bind (lift-Spares _) λ amount.
        bind (lift-Spares _)
          λ minimum. bind (quote_package-Spares amount minimum) (buy-Tells amount)

    use_available-Tells : Tells (use_available n o t q v)
    unfolding use_available
    use_available-Tells =
        bind (write_plan-Spares v _ _ _)
          λ _. bind (lift-Spares _) λ _. return-Triple _ (λ s p. inr p)

  pub rent_external_energy-Tells : Ticks n → Tells (rent_external_energy n o t q)
  unfolding rent_external_energy
  rent_external_energy-Tells ticks =
      if-Triple (not n.has_providers) (λ _. throw-Triple _ (λ s p. inr p))
        λ _. bind (lift-Spares _) λ v.
          if-Triple (leb_ℤ q.required v.available) (λ _. use_available-Tells ticks v)
            (λ _. rent_missing-Tells ticks v)
