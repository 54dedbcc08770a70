-- ===== src/Configuration/Accepted.antt =====
-- What `loadConfig` of src/config.ts accepts, and what that means for the processor and the repository.
use catfee_io.Base.{ℕ, ◌≤◌, true, false, List, [], ◌≡◌, arith, ap, ◌∙◌, ltb, ◌&&◌, if◌then◌else◌}
use catfee_io.Base.Results.{ok}
use catfee_io.Table.Laws.{All}
use catfee_io.Gateway.Requests.{Transaction}
use catfee_io.Providers.Limits.{validate_budget_limits}
use catfee_io.Resources.{EnergySource, provider, is_provider}
use catfee_io.Resources.World.{Session}
use catfee_io.Resources.Rental.Delivery.{Ticks}
use catfee_io.Resources.Prepare.Readiness.{IsReadable}
use catfee_io.Resources.Rental.Charges.{IsFree}
use catfee_io.Broadcast.{Mode, Wire, sponsor, is_sponsor}
use catfee_io.Broadcast.Sponsor.Whole.{sponsor_run, start}
use catfee_io.Broadcast.Charged.{IsSettled}
use catfee_io.Broadcast.Retained.{sponsor_run-IsSettled}
use catfee_io.Configuration.{Environment, Reader, Issue}
use catfee_io.Configuration.Texts.{is_selector}
use catfee_io.Configuration.Load.{
  AppConfig, load_config, super_refine, window_issues, owner_issues, key_issues,
}
use catfee_io.Configuration.Loaded.{
  ++_nil, issue_if-nil, validate-IsBounded, selector_set-All, load_config-IsLoaded,
  paid_issues-IsPaid, IsPaid,
}

not_below : (a b : ℕ) → ltb b a ≡ false → a ≤ b
not_below a b h = ground arith

-- The block of checks that only a sponsor that rents goes through.
in_block :
    (m : Mode) (s : EnergySource) (is : List Issue)
    → m ≡ sponsor
    → s ≡ provider
    → (if is_sponsor m && is_provider s then is else []) ≡ []
    → is ≡ []
in_block m s is e f h = ground arith

-- A configuration that is accepted, in the mode "sponsor" with the energy of providers, sponsors energy
-- alone, for bound addresses, rejects what it cannot sponsor, and lets no owner burn TRX for energy.
pub load_config-IsPaid :
    (r : Reader) (e : Environment) (c : AppConfig)
    → load_config r e ≡ ok c
    → c.config.mode ≡ sponsor
    → c.config.options.energy_source ≡ provider
    → IsPaid c.config
unfolding super_refine
load_config-IsPaid r e c h mode source =
    let (a, p, q, contracts, selectors, owner, l, bounded, clean, es, same) =
      load_config-IsLoaded r e c h in
    let (c1, r1) = ++_nil (owner_issues e a p) _ clean in
    let (c2, r2) = ++_nil (key_issues r p q) _ r1 in
    let (c3, r3) = ++_nil _ (window_issues a l) r2 in
    let sponsors : a.mode ≡ sponsor = ap (λ x. x.config.mode) same ∙ mode in
    let rents : p.energy_source ≡ provider =
      ap (λ x. x.config.options.energy_source) same ∙ source in
    rw (← same) (
      paid_issues-IsPaid r a p q l contracts selectors owner
        (in_block a.mode p.energy_source _ sponsors rents c3))

-- With a configuration that is accepted, in the mode "sponsor" with the energy of providers, where the
-- clock goes on between two polls and the last reading of the energy is a number: whatever the node, the
-- providers, the upstream and the connection to the database do, in orderEnergy as elsewhere, a run of
-- sponsorAndForward from a session without rentals, in which nothing was sent upstream, ends with every
-- rental turned down, or the upstream was asked to take the transaction, or it still holds its claim on
-- the address and its request is in no final state.
pub load_config-IsSettled :
    (r : Reader) (e : Environment) (c : AppConfig) (w : Wire) (t : Transaction) (s : Session)
    → load_config r e ≡ ok c
    → c.config.mode ≡ sponsor
    → c.config.options.energy_source ≡ provider
    → Ticks w.node
    → IsReadable w.node
    → IsFree s
    → s.forwards ≡ 0
    → IsSettled t (sponsor_run w c.config t (start s)).1
load_config-IsSettled r e c w t s h mode source ticks readable free unsent =
    let paid = load_config-IsPaid r e c h mode source in
    sponsor_run-IsSettled w c.config t s
      (record {
        rents = source;
        no_bandwidth = paid.no_bandwidth;
        bound = paid.bound;
        ticks = ticks;
        readable = readable;
      })
      free unsent

-- The configured least time to live is at most the greatest; the limits of the provider
-- repository pass the check of its constructor; and every selector is one of eight lower-case hex
-- digits.
abbrev pub IsConsistent : AppConfig → Type 0
IsConsistent c =
    (c.config.options.min_transaction_ttl_ms ≤ c.config.max_transaction_ttl_ms)
    × (validate_budget_limits c.limits ≡ ok tt)
    × All (λ t. is_selector t ≡ true) c.config.allowed_selectors

-- In a configuration that is accepted, the configured least time to live (MIN_TRANSACTION_TTL_MS) is at
-- most the greatest, the limits of the provider repository pass the check of its constructor, and every selector is one of
-- eight lower-case hex digits.
pub load_config-IsConsistent :
    (r : Reader) (e : Environment) (c : AppConfig) → load_config r e ≡ ok c → IsConsistent c
unfolding super_refine window_issues
load_config-IsConsistent r e c h =
    let (a, p, q, contracts, selectors, owner, l, bounded, clean, es, same) =
      load_config-IsLoaded r e c h in
    let (c1, r1) = ++_nil (owner_issues e a p) _ clean in
    let (c2, r2) = ++_nil (key_issues r p q) _ r1 in
    let (c3, r3) = ++_nil _ (window_issues a l) r2 in
    let (daily, ttl) = ++_nil _ _ r3 in
    rw (← same) (
      not_below _ _ (issue_if-nil _ _ ttl),
      validate-IsBounded l bounded (issue_if-nil _ _ daily),
      selector_set-All _ selectors es,
    )
