-- ===== src/Resources/Prepare/Readiness.antt =====
-- What `prepare` of src/resource-service.ts has made sure of when it answers, and what it tells of charges.
use catfee_io.Base.{
  Bool, true, false, not, some, List, [], ◌∷◌, ◌≡◌, ◌⊎◌, inl, inr, arith, Option-cases, ◌&&◌, ◌||◌,
}
use catfee_io.Base.Int.{ℤ, ◌≤ℤ◌}
use catfee_io.Base.Results.{ok, err, Result-cases}
use catfee_io.Base.Triples.{
  Triple, Post, bind, lift-Triple, return-Triple, if-Triple, when-Triple, any_Triple,
}
use catfee_io.ResourceMath.{AccountResource, energy, available_resource}
use catfee_io.Table.{select}
use catfee_io.Failures.{
  Failure, paid, energy_not_ready_after_provider, energy_recheck_unavailable_after_provider,
}
use catfee_io.Gateway.Requests.{Transaction, Requirement, is_type}
use catfee_io.Resources.{Options, is_provider, provider}
use catfee_io.Resources.World.{Node, Session}
use catfee_io.Resources.Requirements.{is_energy}
use catfee_io.Resources.Rental.Delivery.{Ticks}
use catfee_io.Resources.Rental.Charges.{IsPaid, IsFree, Tells, rent_external_energy-Tells}
use catfee_io.Resources.Prepare.{
  prepare_one, prepare_all, assert_energy_enough, recheck_energy, assert_energy_ready, prepare,
}

-- The node's last reading of the owner's energy reaches what the transaction needs.
abbrev pub IsReady : Node → List Requirement → Type 0
IsReady n qs =
    (q : Requirement)
    → select (is_type energy) qs ≡ some q
    → (r : AccountResource) × (available : ℤ) × (n.recheck ≡ ok r)
      × (available_resource r energy ≡ ok available)
      × (q.required ≤ℤ available)

recheck_energy-enough :
    (n : Node) (q : Requirement) (charged : Bool)
    → recheck_energy n q charged ≡ ok tt
    → (r : AccountResource) × (available : ℤ) × (n.recheck ≡ ok r)
      × (available_resource r energy ≡ ok available)
      × (q.required ≤ℤ available)
unfolding recheck_energy assert_energy_enough
recheck_energy-enough n q charged e = elim (Result-cases n.recheck) [
  | inr (x, bad) ↦ absurd (ground arith)
  | inl (r, er) ↦ elim (Result-cases (available_resource r energy)) [
    | inr (x, bad) ↦ absurd (ground arith)
    | inl (available, ea) ↦ (r, available, er, ea, ground arith)
  ]
]

assert_energy_ready-IsReady :
    (n : Node) (qs : List Requirement) (charged : Bool) (u : Unit {0})
    → assert_energy_ready n qs charged ≡ ok u
    → IsReady n qs
unfolding assert_energy_ready
assert_energy_ready-IsReady n qs charged u e q eq = recheck_energy-enough n q charged (ground arith)

checked_before :
    (n : Node) (o : Options) (t : Transaction) (qs : List Requirement)
    → o.allow_owner_energy_burn ≡ false
    → Triple (λ _. Unit) (prepare n o t qs) (λ _ _. IsReady n qs) (λ _ _. Unit {0})
unfolding prepare
checked_before n o t qs strict = bind {Q = λ _ _. Unit {0}} any_Triple λ charged.
    bind {Q = λ _ _. IsReady n qs}
      (when-Triple (not o.allow_owner_energy_burn)
        (λ _.
          lift-Triple _ (λ u s e p. assert_energy_ready-IsReady n qs charged u e) (λ x s e p. tt))
        (λ e. absurd (ground arith)))
      λ _. return-Triple charged (λ s p. p)

-- Where the owner's burn of energy is not allowed, prepare answers, and so lets the transaction go on,
-- only if the node's last reading of the owner's energy reaches the energy requirement, whatever the
-- providers and the delegations did.
pub prepare-IsReady :
    (n : Node) (o : Options) (t : Transaction) (qs : List Requirement) (s : Session)
    → o.allow_owner_energy_burn ≡ false
    → Post (λ _ _. IsReady n qs) (λ _ _. Unit {0}) (prepare n o t qs s)
prepare-IsReady n o t qs s strict = (checked_before n o t qs strict).run s tt

-- What the recheck reads is a number.
abbrev pub IsReadable : Node → Type 0
IsReadable n =
    (r : AccountResource) → n.recheck ≡ ok r → (x : ℤ) × (available_resource r energy ≡ ok x)

-- At most one requirement, of energy: what the sponsoring of energy alone asks for.
abbrev pub IsEnergyAlone : List Requirement → Type 0
IsEnergyAlone [] = Unit
IsEnergyAlone (q ∷ []) = is_energy q.resource_type ≡ true
IsEnergyAlone _ = ⊥

recheck_energy-IsPaid :
    (n : Node) (q : Requirement) (e : Failure)
    → IsReadable n
    → recheck_energy n q true ≡ err e
    → IsPaid e
unfolding recheck_energy assert_energy_enough
recheck_energy-IsPaid n q e readable h = elim (Result-cases n.recheck) [
  | inr (x, bad) ↦
      let same : paid energy_recheck_unavailable_after_provider ≡ e = ground arith in rw (← same) tt
  | inl (r, er) ↦
      let (available, ea) = readable r er in
      let same : paid energy_not_ready_after_provider ≡ e = ground arith in rw (← same) tt
]

assert_energy_ready-IsPaid :
    (n : Node) (qs : List Requirement) (e : Failure)
    → IsReadable n
    → assert_energy_ready n qs true ≡ err e
    → IsPaid e
unfolding assert_energy_ready
assert_energy_ready-IsPaid n qs e readable h = elim (Option-cases (select (is_type energy) qs)) [
  | inl absent ↦ absurd (ground arith)
  | inr (q, eq) ↦ recheck_energy-IsPaid n q e readable (ground arith)
]

told :
    (n : Node) (qs : List Requirement)
    → IsReadable n
    → (charged : Bool) (x : Failure) (s : Session) → assert_energy_ready n qs charged ≡ err x
    → (charged ≡ true) ⊎ IsFree s
    → IsPaid x ⊎ IsFree s
told n qs readable true x s e p = inl (assert_energy_ready-IsPaid n qs x readable e)
told n qs readable false x s e (inl h) = absurd (ground arith)
told n qs readable false x s e (inr free) = inr free

module _ (n : Node) (o : Options) (t : Transaction) (ticks : Ticks n)
    (rents : o.energy_source ≡ provider) where
  prepare_one-Tells :
      (q : Requirement) → is_energy q.resource_type ≡ true → Tells (prepare_one n o t q false)
  unfolding prepare_one
  prepare_one-Tells q is =
      if-Triple (is_energy q.resource_type && is_provider o.energy_source)
        (λ _. bind (rent_external_energy-Tells n o t q ticks) λ rented.
          return-Triple (rented || false)
            (λ s p. elim p [ inl h ↦ inl (ground arith) | inr f ↦ inr f ]))
        (λ other. absurd (ground (arith, rents)))

  prepare_all-Tells :
      (qs : List Requirement) → IsEnergyAlone qs → Tells (prepare_all n o t qs false)
  unfolding prepare_all
  prepare_all-Tells [] alone = return-Triple false (λ s p. inr p)
  prepare_all-Tells (q ∷ []) alone =
      bind (prepare_one-Tells q alone) λ charged. return-Triple charged (λ s p. p)
  prepare_all-Tells (q ∷ r ∷ qs) alone = elim alone [ ]

  -- A preparation that ends without a word of a charge made no rental that a provider accepted or left
  -- open.
  pub prepare-Tells :
      (qs : List Requirement) → IsEnergyAlone qs → IsReadable n → Tells (prepare n o t qs)
  unfolding prepare
  prepare-Tells qs alone readable = bind (prepare_all-Tells qs alone) λ charged.
      bind {Q = λ _ s. (charged ≡ true) ⊎ IsFree s}
        (when-Triple (not o.allow_owner_energy_burn)
          (λ _. lift-Triple _ (λ u s e p. p) (λ x s e p. told n qs readable charged x s e p))
          (λ _ s p. p))
        λ _. return-Triple charged (λ s p. p)
