-- ===== src/Configuration/Load.antt =====
-- The cross-field checks of src/config.ts, the lists of contracts and selectors, and `loadConfig`.
use catfee_io.Base.{
  Bool, true, false, not, Option, none, some, List, [], ◌∷◌, ◌++◌, length, ◌==◌, ltb, ◌&&◌, ◌||◌,
  or_else, if◌then◌else◌,
}
use catfee_io.Base.Int.{pos}
use catfee_io.Base.Results.{Result, ok, err, throw_if, ◌>>=◌, ◌>>◌}
use catfee_io.Store.{Text, Address}
use catfee_io.Table.{exists}
use catfee_io.Providers.Settle.{same_text}
use catfee_io.Providers.Limits.{BudgetLimits}
use catfee_io.Resources.{is_provider, Options}
use catfee_io.Broadcast.{is_sponsor, is_bound_address, is_reject, Config}
use catfee_io.Configuration.{
  Environment, Reader, Issue, ConfigError, Access, Sponsorship, Renting, needed, read_access,
  read_sponsorship, read_renting, read_limits, invalid_field, invalid_address, invalid_selector,
  refused, resource_owner_required, master_key_invalid, sponsor_energy_required,
  bandwidth_forbidden, bound_address_required, insufficient_must_reject, unsupported_must_reject,
  energy_burn_forbidden, daily_energy_too_low, ttl_window_empty,
}
use catfee_io.Configuration.Texts.{
  csv_set, distinct, lower_cases, is_filled_text, is_run, is_hex, is_padded_run, is_selector,
}

abbrev pub issue_if : Bool → Issue → List Issue
issue_if true i = i ∷ []
issue_if false i = []

unfoldable pub is_base64_key : Reader → Text → Bool
is_base64_key r value =
    is_padded_run 43 value
    && (length (r.from_base64 value) == 32 && same_text (r.to_base64 (r.from_base64 value)) value)

abbrev pub is_master_key : Reader → Option Text → Bool
is_master_key r none = false
is_master_key r (some key) = is_filled_text key && (is_run is_hex 64 key || is_base64_key r key)

-- RESOURCE_OWNER_ADDRESS, unless it is missing or empty.
unfoldable pub filled : Option Text → Option Text
filled none = none
filled (some t) = if is_filled_text t then some t else none

abbrev pub is_missing : Option Text → Bool
is_missing none = true
is_missing (some t) = false

unfoldable pub owner_issues : Environment → Access → Sponsorship → List Issue
owner_issues e a p =
    let self_managed =
      (p.sponsor_energy && not (is_provider p.energy_source)) || p.sponsor_bandwidth in
    issue_if (is_sponsor a.mode && (self_managed && is_missing (filled e.resource_owner_address)))
      resource_owner_required

unfoldable pub key_issues : Reader → Sponsorship → Renting → List Issue
key_issues r p q =
    issue_if (is_provider p.energy_source && not (is_master_key r q.provider_master_key))
      master_key_invalid

-- The block for a sponsor that rents.
unfoldable pub paid_issues : Access → Sponsorship → List Issue
paid_issues a p =
    issue_if (not p.sponsor_energy) sponsor_energy_required
    ++ (issue_if p.sponsor_bandwidth bandwidth_forbidden
        ++ (issue_if (not (is_bound_address a.auth_mode)) bound_address_required
            ++ (issue_if (not (is_reject a.insufficient_policy)) insufficient_must_reject
                ++ (issue_if (not (is_reject a.unsupported_policy)) unsupported_must_reject
                    ++ issue_if p.allow_owner_energy_burn energy_burn_forbidden))))

unfoldable pub window_issues : Access → BudgetLimits → List Issue
window_issues a l =
    issue_if (ltb l.daily_energy_limit l.max_energy_per_order) daily_energy_too_low
    ++ issue_if (ltb a.max_transaction_ttl_ms a.min_transaction_ttl_ms) ttl_window_empty

-- `superRefine`
unfoldable pub super_refine :
    Reader → Environment → Access → Sponsorship → Renting → BudgetLimits → List Issue
unfolding owner_issues key_issues paid_issues window_issues
super_refine r e a p q l =
    owner_issues e a p
    ++ (key_issues r p q
        ++ ((if is_sponsor a.mode && is_provider p.energy_source then paid_issues a p else [])
            ++ window_issues a l))

unfoldable pub all_addresses : Reader → List Text → Result ConfigError (List Address)
all_addresses r [] = ok []
all_addresses r (t ∷ ts) = do
  address ← needed invalid_address (r.normalize_tron_address t)
  rest ← all_addresses r ts
  ok (address ∷ rest)

unfoldable pub address_set : Reader → Text → Result ConfigError (List Address)
unfolding all_addresses
address_set r value = do
  addresses ← all_addresses r (csv_set value)
  ok (distinct (λ a b. a == b) addresses)

unfoldable pub selector_set : Text → Result ConfigError (List Text)
selector_set value = do
  let selectors = lower_cases (csv_set value)
  throw_if (exists (λ t. not (is_selector t)) selectors) invalid_selector
  ok (distinct same_text selectors)

unfoldable pub owner_address : Reader → Option Text → Result ConfigError (Option Address)
owner_address r t = elim (filled t) [
  | none ↦ ok none
  | some a ↦ do address ← needed invalid_address (r.normalize_tron_address a); ok (some address)
]

-- The configuration, and what src/index.ts makes of it: the options of the resource service, in which a
-- missing address is "", and the limits of the provider repository.
pub record AppConfig : Type 0 where
  pub config : Config
  pub provider_master_key : Option Text
  pub limits : BudgetLimits

abbrev pub options_of : Reader → Access → Sponsorship → Renting → Option Address → Options
options_of r a p q owner = record {
  resource_owner_address = or_else owner r.empty_address;
  sponsor_energy = p.sponsor_energy;
  sponsor_bandwidth = p.sponsor_bandwidth;
  energy_source = p.energy_source;
  estimate_safety_bps = p.estimate_safety_bps;
  allow_owner_bandwidth_burn = p.allow_owner_bandwidth_burn;
  max_owner_bandwidth_burn_sun = pos p.max_owner_bandwidth_burn_sun;
  allow_owner_energy_burn = p.allow_owner_energy_burn;
  max_owner_energy_burn_sun = pos p.max_owner_energy_burn_sun;
  energy_package_threshold = q.kuaizu_package_threshold;
  min_delegate_sun = pos p.min_delegate_sun;
  delegation_confirm_timeout_ms = p.delegation_confirm_timeout_ms;
  delegation_poll_ms = p.delegation_poll_ms;
  provider_confirm_timeout_ms = q.provider_confirm_timeout_ms;
  provider_order_timeout_ms = q.provider_order_timeout_ms;
  provider_poll_ms = q.provider_poll_ms;
  min_transaction_ttl_ms = a.min_transaction_ttl_ms;
}

abbrev pub assembled :
    Reader
    → Access
    → Sponsorship
    → Renting
    → BudgetLimits
    → List Address
    → List Text
    → Option Address
    → AppConfig
assembled r a p q l contracts selectors owner = record {
  config = record {
    mode = a.mode;
    auth_mode = a.auth_mode;
    auth_enforce_in_observe = a.auth_enforce_in_observe;
    allowed_contracts = contracts;
    allowed_selectors = selectors;
    unsupported_policy = a.unsupported_policy;
    insufficient_policy = a.insufficient_policy;
    max_transaction_ttl_ms = a.max_transaction_ttl_ms;
    max_transaction_age_ms = a.max_transaction_age_ms;
    max_transaction_future_skew_ms = a.max_transaction_future_skew_ms;
    reclaim_delay_ms = p.reclaim_delay_ms;
    options = options_of r a p q owner;
  };
  provider_master_key = q.provider_master_key;
  limits = l;
}

abbrev pub no_issues : List Issue → Result ConfigError (Unit {0})
no_issues [] = ok tt
no_issues (i ∷ is) = err (refused (i ∷ is))

unfoldable pub assemble :
    Reader
    → Environment
    → Access
    → Sponsorship
    → Renting
    → BudgetLimits
    → Result ConfigError AppConfig
assemble r e a p q l = do
  contracts ← address_set r a.allowed_contracts
  selectors ← selector_set a.allowed_selectors
  owner ← owner_address r e.resource_owner_address
  ok (assembled r a p q l contracts selectors owner)

unfoldable pub load_config : Reader → Environment → Result ConfigError AppConfig
load_config r e = do
  throw_if (not r.others_pass) invalid_field
  a ← read_access r e
  p ← read_sponsorship r e
  q ← read_renting r e
  l ← read_limits r e
  no_issues (super_refine r e a p q l)
  assemble r e a p q l
