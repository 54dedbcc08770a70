-- ===== src/Resources/Rental/Affordable.antt =====
-- What `rentExternalEnergy` of src/resource-service.ts has made sure of before it orders anything.
use catfee_io.Base.{
  ◌++◌, Bool, ℕ, true, false, not, Option, none, some, List, [], ◌≡◌, ◌⊎◌, inl, inr, refl, arith,
}
use catfee_io.Base.Int.{ℤ, pos, ltb_ℤ, leb_ℤ, pos_part}
use catfee_io.Base.Results.{Result, ok, err}
use catfee_io.Base.Effects.{Effect, lift, throw}
use catfee_io.Base.Triples.{
  Keeps, Triple, weaken, after_Post, bind, given, lift-Triple, throw-Triple, return-Triple,
  if-Triple,
}
use catfee_io.Failures.{Failure, other}
use catfee_io.Gateway.Requests.{Transaction, Requirement}
use catfee_io.Store.{Database, Time}
use catfee_io.Service.{RentOutcome, OrderError, OrderInput, order_energy}
use catfee_io.Service.Quote.{quote_minimum_energy_amount}
use catfee_io.Resources.{Options, Account, safe_energy_number}
use catfee_io.Resources.Keys.{IsAuthorized}
use catfee_io.Resources.World.{checks, Node, Session, Site}
use catfee_io.Resources.World.Calls.{call-Keeps, call-Triple}
use catfee_io.Resources.Survey.{Survey, survey, review_order, burn_beside, strict_minimum}
use catfee_io.Resources.Rental.{write_plan}
use catfee_io.Resources.Rental.Reviewed.{AllowsOrder, review_order-AllowsOrder, survey-IsAuthorized}
use catfee_io.Resources.Rental.Following.{follow_order-Keeps}
use catfee_io.Resources.Rental.Package.{
  place_order, order_package, refuse_package, quote_package, rent_missing, quoted_or_thrown, buy,
  use_available, rent_external_energy,
}

-- The order of this package.
abbrev pub package_order : Transaction → (amount units : ℕ) → Time → OrderInput
package_order t amount units deadline = record {
  tx_id = t.tx_id;
  receive_address = t.owner_address;
  amount = amount;
  minimum_package_amount = some units;
  request_deadline = deadline;
}

-- The package was quoted, its order was reviewed, and the rentals after those `before` are of that order.
abbrev pub IsReviewedOrder :
    Node
    → Options
    → Transaction
    → Requirement
    → Survey
    → (before rentals : List RentOutcome) → Type 0
IsReviewedOrder n o t q v before rentals =
    (amount units : ℕ) × (minimum : Option ℕ) × (quoted_on ordered_on : Database)
    × (deadline : Time) × (checks (safe_energy_number q.estimated) ≡ ok amount)
    × (strict_minimum o q v ≡ ok minimum)
    × (quote_minimum_energy_amount n.market amount minimum quoted_on ≡ ok (some units))
    × AllowsOrder n o t v (burn_beside q v (pos units))
    × (rentals
        ≡ before
          ++ (order_energy n.market (package_order t amount units deadline) ordered_on).rentals)

-- The state of the account was read and reviewed, and all of this held before the order.
abbrev pub IsAffordable :
    Node → Options → Transaction → Requirement → (before rentals : List RentOutcome) → Type 0
IsAffordable n o t q before rentals =
    (v : Survey) × (survey n t q ≡ ok v)
    × (ltb_ℤ v.available q.required ≡ true)
    × ((account : Account) × (n.account ≡ ok account) × IsAuthorized account t.owner_address)
    × IsReviewedOrder n o t q v before rentals

module _ (n : Node) (o : Options) (t : Transaction) (q : Requirement)
    (before : List RentOutcome) where
  -- No rental was made.
  abbrev Untouched : Session → Type 0
  Untouched s = s.rentals ≡ before

  -- No rental was made, or the order was affordable.
  abbrev CarefulList : List RentOutcome → Type 0
  CarefulList rentals = (rentals ≡ before) ⊎ IsAffordable n o t q before rentals

  abbrev Careful : Session → Type 0
  Careful s = CarefulList s.rentals

  -- A step that makes none, and one that makes none yet and may be followed by the order.
  abbrev Waits {ℓ} : {A : Type ℓ} → Effect Session Failure A → Type ℓ
  Waits m = Triple Untouched m (λ _. Untouched) (λ _. Careful)

  waits {ℓ} : {A : Type ℓ} {m : Effect Session Failure A} → Keeps Untouched m → Waits m
  waits = weaken (λ s p. p) (λ a s p. p) (λ e s p. inl p)

  abbrev IsCareful : Effect Session Failure Bool → Type 0
  IsCareful m = Triple Untouched m (λ _. Careful) (λ _. Careful)

  write_plan-Waits :
      (v : Survey) (site : Site) (quoted : Option ℤ) (burn : ℤ)
      → Waits (write_plan n o t q v site quoted burn)
  unfolding write_plan
  write_plan-Waits v site quoted burn = waits (call-Keeps n _ _ (λ s a db p e. p))

  lift-Knows :
      {A : Type 0} (r : Result Failure A)
      → Triple Untouched (lift r) (λ a s. Untouched s × (r ≡ ok a)) (λ _. Careful)
  lift-Knows r = lift-Triple r (λ a s e p. (p, e)) (λ x s e p. inl p)

  throw-IsCareful {ℓ} :
      {A : Type ℓ} (e : Failure) → Triple Untouched (throw {A = A} e) (λ _. Careful) (λ _. Careful)
  throw-IsCareful e = throw-Triple e (λ s p. inl p)

  module _ (v : Survey) (ev : survey n t q ≡ ok v)
      (missing : leb_ℤ q.required v.available ≡ false) where
    place_order-Careful :
        (amount units : ℕ) (minimum : Option ℕ) (quoted_on : Database) (deadline : ℤ)
        → checks (safe_energy_number q.estimated) ≡ ok amount
        → strict_minimum o q v ≡ ok minimum
        → quote_minimum_energy_amount n.market amount minimum quoted_on ≡ ok (some units)
        → AllowsOrder n o t v (burn_beside q v (pos units))
        → Triple Untouched (place_order n t amount units deadline) (λ _. Careful) (λ _. Careful)
    unfolding place_order
    place_order-Careful amount units minimum quoted_on deadline ea em eq allowed = record {
      run = λ s p. inr (
        v,
        ev,
        ground arith,
        survey-IsAuthorized n t q v ev,
        (
          amount,
          units,
          minimum,
          quoted_on,
          s.database,
          pos_part deadline,
          ea,
          em,
          eq,
          allowed,
          rw p refl,
        ),
      );
    }

    order_package-IsCareful :
        (amount units : ℕ) (minimum : Option ℕ) (quoted_on : Database)
        → checks (safe_energy_number q.estimated) ≡ ok amount
        → strict_minimum o q v ≡ ok minimum
        → quote_minimum_energy_amount n.market amount minimum quoted_on ≡ ok (some units)
        → IsCareful (order_package n o t q v amount units)
    unfolding order_package
    order_package-IsCareful amount units minimum quoted_on ea em eq =
        bind (write_plan-Waits v _ _ _) λ _.
          bind (lift-Knows (review_order n o t v (burn_beside q v (pos units)))) λ deadline.
            given λ e.
              bind
                (place_order-Careful amount units minimum quoted_on deadline ea em eq
                  (review_order-AllowsOrder n o t v _ deadline e))
                (follow_order-Keeps n t CarefulList o q v)

    refuse_package-IsCareful : IsCareful (refuse_package n o t q v)
    unfolding refuse_package
    refuse_package-IsCareful =
        bind (write_plan-Waits v _ _ _)
          λ _. bind (lift-Knows _) λ _. throw-Triple _ (λ s p. inl p.0)

    -- What is known of a quote.
    abbrev Quoted : (amount : ℕ) (minimum quoted : Option ℕ) → Type 0
    Quoted amount minimum quoted =
        (db : Database) × (quote_minimum_energy_amount n.market amount minimum db ≡ ok quoted)

    quoted_or_thrown-Knows :
        (amount : ℕ) (minimum : Option ℕ) (r : Result OrderError (Option ℕ))
        → Triple
            (λ s.
              Untouched s
              × ((db : Database) × (quote_minimum_energy_amount n.market amount minimum db ≡ r)))
            (quoted_or_thrown r)
            (λ quoted s. Untouched s × Quoted amount minimum quoted)
            (λ _. Careful)
    quoted_or_thrown-Knows amount minimum (ok quoted) = return-Triple quoted (λ s p. p)
    quoted_or_thrown-Knows amount minimum (err e) = throw-Triple (other []) (λ s p. inl p.0)

    quote_package-Knows :
        (amount : ℕ) (minimum : Option ℕ)
        → Triple Untouched
            (quote_package n amount minimum)
            (λ quoted s. Untouched s × Quoted amount minimum quoted)
            (λ _. Careful)
    unfolding quote_package
    quote_package-Knows amount minimum =
        bind
          (call-Triple n _ _ (λ s p. inl p) (λ s r db p e. (p, (s.database, ground arith)))
            (λ s r db p e. inl p))
          (quoted_or_thrown-Knows amount minimum)

    buy-IsCareful :
        (amount : ℕ) (minimum quoted : Option ℕ)
        → checks (safe_energy_number q.estimated) ≡ ok amount
        → strict_minimum o q v ≡ ok minimum
        → Triple
            (λ s. Untouched s × Quoted amount minimum quoted)
            (buy n o t q v amount quoted)
            (λ _. Careful)
            (λ _. Careful)
    buy-IsCareful amount minimum none ea em = given λ h. refuse_package-IsCareful
    buy-IsCareful amount minimum (some units) ea em =
        given λ h. order_package-IsCareful amount units minimum h.0 ea em h.1

    rent_missing-IsCareful : IsCareful (rent_missing n o t q v)
    unfolding rent_missing
    rent_missing-IsCareful = bind (lift-Knows _) λ amount. given λ ea.
        bind (lift-Knows (strict_minimum o q v)) λ minimum. given λ em.
          bind (quote_package-Knows amount minimum)
            λ quoted. buy-IsCareful amount minimum quoted ea em

  use_available-IsCareful : (v : Survey) → IsCareful (use_available n o t q v)
  unfolding use_available
  use_available-IsCareful v =
      bind (write_plan-Waits v _ _ _) λ _. bind (lift-Knows _) λ _. return-Triple _ (λ s p. inl p.0)

  pub rent_external_energy-IsCareful : IsCareful (rent_external_energy n o t q)
  unfolding rent_external_energy
  rent_external_energy-IsCareful =
      if-Triple (not n.has_providers) (λ _. throw-IsCareful _)
        λ _. bind (lift-Knows (survey n t q)) λ v. given λ ev.
          if-Triple (leb_ℤ q.required v.available) (λ _. use_available-IsCareful v)
            (λ missing. rent_missing-IsCareful v ev missing)

-- Whatever the node, the providers, the database and the connection to it answer, rentExternalEnergy
-- leaves the rentals as they were, or those that it adds are of one order for the estimated energy, of a
-- package that the providers quoted for it and the strict minimum of the options, and before that order it had found that the
-- account lacked the energy and could be signed for by the owner alone, that the fee limit lies between
-- the price of the whole energy and the maximum of the chain, that what the owner burns for bandwidth
-- and for the energy beside that very package is allowed by the options and covered by the balance, that
-- the time left reaches for the order and the wait, that the reference block still matched, and that the
-- node did not know the transaction.
pub rent_external_energy-IsAffordable :
    (n : Node) (o : Options) (t : Transaction) (q : Requirement) (s : Session)
    → ((rent_external_energy n o t q s).1.rentals ≡ s.rentals)
      ⊎ IsAffordable n o t q s.rentals (rent_external_energy n o t q s).1.rentals
rent_external_energy-IsAffordable n o t q s =
    after_Post (Careful n o t q s.rentals) _
      ((rent_external_energy-IsCareful n o t q s.rentals).run s refl)
