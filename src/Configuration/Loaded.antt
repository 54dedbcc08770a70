-- ===== src/Configuration/Loaded.antt =====
-- What a run of `loadConfig` of src/config.ts that returns has read and checked.
use catfee_io.Base.{
  ℕ, ◌≤◌, Bool, true, false, not, Option, none, some, List, [], ◌∷◌, ◌++◌, ◌≡◌, inl, inr, refl,
  arith, Bool-cases, Option-cases, ltb,
}
use catfee_io.Base.Results.{ok, Result-cases}
use catfee_io.Store.{Text, Address}
use catfee_io.Table.{exists}
use catfee_io.Table.Laws.{All-select_all, All}
use catfee_io.Providers.Limits.{
  BudgetLimits, validate_budget_limits, out_of_range, max_energy_order_amount,
}
use catfee_io.Providers.Settle.{same_text}
use catfee_io.Broadcast.{
  Config, AuthMode, no_auth, Policy, forward_policy, bound_address, is_bound_address, reject_policy,
  is_reject,
}
use catfee_io.Configuration.{
  Environment, Reader, Issue, Access, Sponsorship, Renting, read_access, read_sponsorship,
  read_renting, read_limits, read_number,
}
use catfee_io.Configuration.Texts.{is_selector, lower_cases, csv_set, distinct}
use catfee_io.Configuration.Load.{
  AppConfig, load_config, assemble, assembled, no_issues, super_refine, paid_issues, issue_if,
  selector_set, address_set, owner_address,
}

pub ++_nil : (xs ys : List Issue) → xs ++ ys ≡ [] → (xs ≡ []) × (ys ≡ [])
++_nil [] ys e = (refl, e)
++_nil (x ∷ xs) ys e = absurd (ground arith)

pub issue_if-nil : (b : Bool) (i : Issue) → issue_if b i ≡ [] → b ≡ false
issue_if-nil true i e = absurd (ground arith)
issue_if-nil false i e = refl

no_issues-nil : (is : List Issue) → no_issues is ≡ ok tt → is ≡ []
no_issues-nil [] e = refl
no_issues-nil (i ∷ is) e = absurd (ground arith)

read_number_bounds :
    (r : Reader) (low high default : ℕ) (t : Option Text) (n : ℕ)
    → read_number r low (some high) default t ≡ ok n
    → low ≤ default
    → default ≤ high
    → (low ≤ n) × (n ≤ high)
unfolding read_number
read_number_bounds r low high default none n e l h = ground arith
read_number_bounds r low high default (some t) n e l h = elim (Option-cases (r.number t)) [
  | inl q ↦ absurd (ground arith)
  | inr (z, q) ↦ ground arith
]

-- The limits as they are read, before the cross-field checks.
abbrev pub IsBounded : BudgetLimits → Type 0
IsBounded l =
    (out_of_range max_energy_order_amount l.max_energy_per_order ≡ false)
    × (out_of_range 1_000_000 l.daily_order_limit ≡ false)
    × (out_of_range 1_000_000_000_000 l.daily_energy_limit ≡ false)

in_bounds :
    (high n : ℕ) → (1 ≤ n) × (n ≤ high) → high ≤ 9_007_199_254_740_991 → out_of_range high n ≡ false
in_bounds high n b h = ground arith

read_limits-IsBounded :
    (r : Reader) (e : Environment) (l : BudgetLimits) → read_limits r e ≡ ok l → IsBounded l
unfolding read_limits
read_limits-IsBounded r e l h =
    elim (Result-cases
      (read_number r 1 (some 10_000_000) 200_000 e.provider_max_energy_per_order)) [
        | inr (x, bad) ↦ absurd (ground arith)
        | inl (energy, e1) ↦
            elim (Result-cases (read_number r 1 (some 1_000_000) 20 e.provider_daily_max_orders)) [
              | inr (x, bad) ↦ absurd (ground arith)
              | inl (orders, e2) ↦
                  elim (Result-cases
                    (read_number r 1 (some 1_000_000_000) 2_000_000 e.provider_daily_max_energy)) [
                      | inr (x, bad) ↦ absurd (ground arith)
                      | inl (daily, e3) ↦
                          let b1 =
                            read_number_bounds r 1 10_000_000 200_000 _ energy e1 (omega arith)
                              (omega arith) in
                          let b2 =
                            read_number_bounds r 1 1_000_000 20 _ orders e2 (omega arith)
                              (omega arith) in
                          let b3 =
                            read_number_bounds r 1 1_000_000_000 2_000_000 _ daily e3 (omega arith)
                              (omega arith) in
                          let same : record {
                            max_energy_per_order = energy;
                            daily_order_limit = orders;
                            daily_energy_limit = daily;
                          }
                              ≡ l =
                            ground arith in
                          rw (← same) (
                            in_bounds _ energy b1 (omega arith),
                            in_bounds _ orders b2 (omega arith),
                            in_bounds _ daily (b3.0, omega arith) (omega arith),
                          )
                    ]
            ]
      ]

-- What a run of `loadConfig` that returns has read.
abbrev pub IsLoaded : Reader → Environment → AppConfig → Type 0
IsLoaded r e c =
    (a : Access) × (p : Sponsorship) × (q : Renting) × (contracts : List Address)
    × (selectors : List Text) × (owner : Option Address) × (l : BudgetLimits) × IsBounded l
    × (super_refine r e a p q l ≡ [])
    × (selector_set a.allowed_selectors ≡ ok selectors)
    × (assembled r a p q l contracts selectors owner ≡ c)

assemble-ok :
    (r : Reader) (e : Environment) (a : Access) (p : Sponsorship) (q : Renting) (l : BudgetLimits)
    (c : AppConfig)
    → assemble r e a p q l ≡ ok c
    → (contracts : List Address) × (selectors : List Text) × (owner : Option Address)
      × (selector_set a.allowed_selectors ≡ ok selectors)
      × (assembled r a p q l contracts selectors owner ≡ c)
unfolding assemble
assemble-ok r e a p q l c h = elim (Result-cases (address_set r a.allowed_contracts)) [
  | inr (x, bad) ↦ absurd (ground arith)
  | inl (contracts, ec) ↦ elim (Result-cases (selector_set a.allowed_selectors)) [
    | inr (x, bad) ↦ absurd (ground arith)
    | inl (selectors, es) ↦ elim (Result-cases (owner_address r e.resource_owner_address)) [
      | inr (x, bad) ↦ absurd (ground arith)
      | inl (owner, eo) ↦ (contracts, selectors, owner, es, ground arith)
    ]
  ]
]

pub load_config-IsLoaded :
    (r : Reader) (e : Environment) (c : AppConfig) → load_config r e ≡ ok c → IsLoaded r e c
unfolding load_config
load_config-IsLoaded r e c h = elim (Result-cases (read_access r e)) [
  | inr (x, bad) ↦ absurd (ground arith)
  | inl (a, ea) ↦ elim (Result-cases (read_sponsorship r e)) [
    | inr (x, bad) ↦ absurd (ground arith)
    | inl (p, ep) ↦ elim (Result-cases (read_renting r e)) [
      | inr (x, bad) ↦ absurd (ground arith)
      | inl (q, eq) ↦ elim (Result-cases (read_limits r e)) [
        | inr (x, bad) ↦ absurd (ground arith)
        | inl (l, el) ↦
            let clean : no_issues (super_refine r e a p q l) ≡ ok tt = ground arith in
            let rest : assemble r e a p q l ≡ ok c = ground arith in
            let (contracts, selectors, owner, es, same) = assemble-ok r e a p q l c rest in
            (
              a,
              p,
              q,
              contracts,
              selectors,
              owner,
              l,
              read_limits-IsBounded r e l el,
              no_issues-nil _ clean,
              es,
              same,
            )
      ]
    ]
  ]
]

pub validate-IsBounded :
    (l : BudgetLimits)
    → IsBounded l
    → ltb l.daily_energy_limit l.max_energy_per_order ≡ false
    → validate_budget_limits l ≡ ok tt
unfolding validate_budget_limits
validate-IsBounded l b h = rw (b.0, b.1, b.2, h) refl

exists-All :
    (ts : List Text)
    → exists (λ t. not (is_selector t)) ts ≡ false
    → All (λ t. is_selector t ≡ true) ts
unfolding exists
exists-All [] h = tt
exists-All (t ∷ ts) h = elim (Bool-cases (is_selector t)) [
  | inl e ↦ (e, exists-All ts (ground arith))
  | inr e ↦ absurd (ground arith)
]

All-distinct :
    (ts : List Text)
    → All (λ t. is_selector t ≡ true) ts
    → All (λ t. is_selector t ≡ true) (distinct same_text ts)
unfolding distinct
All-distinct [] v = tt
All-distinct (t ∷ ts) v = (v.0, All-select_all _ _ (distinct same_text ts) (All-distinct ts v.1))

pub selector_set-All :
    (value : Text) (ts : List Text)
    → selector_set value ≡ ok ts
    → All (λ t. is_selector t ≡ true) ts
unfolding selector_set
selector_set-All value ts h =
    elim (Bool-cases (exists (λ t. not (is_selector t)) (lower_cases (csv_set value)))) [
      | inl e ↦ absurd (ground arith)
      | inr e ↦
          let same : distinct same_text (lower_cases (csv_set value)) ≡ ts = ground arith in
          rw (← same) (All-distinct (lower_cases (csv_set value)) (exists-All _ e))
    ]

-- A sponsor that rents: it sponsors energy alone, for bound addresses, rejects what it cannot sponsor,
-- and lets no owner burn TRX for energy.
pub record IsPaid (c : Config) : Type 0 where
  pub energy : c.options.sponsor_energy ≡ true
  pub no_bandwidth : c.options.sponsor_bandwidth ≡ false
  pub bound : c.auth_mode ≡ bound_address
  pub rejects_insufficient : c.insufficient_policy ≡ reject_policy
  pub rejects_unsupported : c.unsupported_policy ≡ reject_policy
  pub no_burn : c.options.allow_owner_energy_burn ≡ false

bound_of : (m : AuthMode) → not (is_bound_address m) ≡ false → m ≡ bound_address
bound_of no_auth h = absurd (ground arith)
bound_of bound_address h = refl

reject_of : (p : Policy) → not (is_reject p) ≡ false → p ≡ reject_policy
reject_of forward_policy h = absurd (ground arith)
reject_of reject_policy h = refl

pub paid_issues-IsPaid :
    (r : Reader) (a : Access) (p : Sponsorship) (q : Renting) (l : BudgetLimits)
    (contracts : List Address) (selectors : List Text) (owner : Option Address)
    → paid_issues a p ≡ []
    → IsPaid (assembled r a p q l contracts selectors owner).config
unfolding paid_issues
paid_issues-IsPaid r a p q l contracts selectors owner h =
    let (h1, r1) = ++_nil _ _ h in
    let (h2, r2) = ++_nil _ _ r1 in
    let (h3, r3) = ++_nil _ _ r2 in
    let (h4, r4) = ++_nil _ _ r3 in
    let (h5, h6) = ++_nil _ _ r4 in
    let off = issue_if-nil (not p.sponsor_energy) _ h1 in
    record {
      energy = ground arith;
      no_bandwidth = issue_if-nil _ _ h2;
      bound = bound_of a.auth_mode (issue_if-nil _ _ h3);
      rejects_insufficient = reject_of a.insufficient_policy (issue_if-nil _ _ h4);
      rejects_unsupported = reject_of a.unsupported_policy (issue_if-nil _ _ h5);
      no_burn = issue_if-nil _ _ h6;
    }
