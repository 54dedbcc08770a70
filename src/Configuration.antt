-- ===== src/Configuration.antt =====
-- `loadConfig` of src/config.ts, and how src/index.ts hands the configuration to the services.
pub mod Texts
pub mod Load
pub mod Loaded
pub mod Accepted
use catfee_io.Base.{
  ℕ, Bool, true, false, Option, none, some, List, [], ◌∷◌, ◌++◌, ◌==◌, leb, ◌&&◌, ◌||◌, or_else,
  if◌then◌else◌,
}
use catfee_io.Base.Int.{ℤ, pos}
use catfee_io.Base.Results.{Result, ok, err, ◌>>=◌, ◌>>◌}
use catfee_io.Store.{Text, Address, text}
use catfee_io.Providers.Settle.{same_text}
use catfee_io.Providers.Limits.{BudgetLimits}
use catfee_io.Resources.{EnergySource, self, provider}
use catfee_io.Broadcast.{
  Mode, passthrough, observe, sponsor, AuthMode, no_auth, bound_address, Policy, forward_policy,
  reject_policy,
}

-- The variables that the modelled parts read, as they stand in the environment.
pub record Environment : Type 0 where
  pub gateway_mode : Option Text
  pub auth_mode : Option Text
  pub auth_enforce_in_observe : Option Text
  pub allowed_contracts : Option Text
  pub allowed_selectors : Option Text
  pub unsupported_policy : Option Text
  pub insufficient_policy : Option Text
  pub min_transaction_ttl_ms : Option Text
  pub max_transaction_ttl_ms : Option Text
  pub max_transaction_age_ms : Option Text
  pub max_transaction_future_skew_ms : Option Text
  pub sponsor_energy : Option Text
  pub sponsor_bandwidth : Option Text
  pub energy_source : Option Text
  pub estimate_safety_bps : Option Text
  pub allow_owner_bandwidth_burn : Option Text
  pub max_owner_bandwidth_burn_sun : Option Text
  pub allow_owner_energy_burn : Option Text
  pub max_owner_energy_burn_sun : Option Text
  pub min_delegate_sun : Option Text
  pub resource_owner_address : Option Text
  pub delegation_confirm_timeout_ms : Option Text
  pub delegation_poll_ms : Option Text
  pub provider_master_key : Option Text
  pub provider_order_timeout_ms : Option Text
  pub provider_confirm_timeout_ms : Option Text
  pub provider_poll_ms : Option Text
  pub kuaizu_package_threshold : Option Text
  pub provider_max_energy_per_order : Option Text
  pub provider_daily_max_orders : Option Text
  pub provider_daily_max_energy : Option Text
  pub reclaim_delay_ms : Option Text

-- What is called: the integer that `z.coerce.number().int()` reads, whether the variables for hosts,
-- ports, URLs, tokens and intervals pass, normalizeTronAddress, the address text "", and the two
-- directions of Buffer's "base64".
pub record Reader : Type 0 where
  pub number : Text → Option ℤ
  pub others_pass : Bool
  pub normalize_tron_address : Text → Option Address
  pub empty_address : Address
  pub from_base64 : Text → List ℕ
  pub to_base64 : List ℕ → Text

-- What `superRefine` adds as issues, in its order.
pub data Issue : Type 0 where
  resource_owner_required master_key_invalid sponsor_energy_required : Issue
  bandwidth_forbidden bound_address_required insufficient_must_reject : Issue
  unsupported_must_reject energy_burn_forbidden : Issue
  daily_energy_too_low ttl_window_empty : Issue

pub data ConfigError : Type 0 where
  invalid_field invalid_address invalid_selector : ConfigError
  refused : List Issue → ConfigError

abbrev pub needed {ℓ} : {A : Type ℓ} → ConfigError → Option A → Result ConfigError A
needed e none = err e
needed e (some a) = ok a

-- z.enum of the names, with a default.
abbrev pub choose {ℓ} : {A : Type ℓ} → List (Text × A) → Text → Option A
choose [] t = none
choose ((name, a) ∷ rest) t = if same_text name t then some a else choose rest t

unfoldable pub read_enum {ℓ} :
    {A : Type ℓ} → List (Text × A) → A → Option Text → Result ConfigError A
read_enum names default none = ok default
read_enum names default (some t) = needed invalid_field (choose names t)

abbrev pub boolean_value : Bool → Option Text → Result ConfigError Bool
boolean_value default t = read_enum ((text "true", true) ∷ (text "false", false) ∷ []) default t

abbrev pub at_most : Option ℕ → ℕ → Bool
at_most none n = true
at_most (some maximum) n = leb n maximum

abbrev pub in_range : ℕ → Option ℕ → Option ℤ → Result ConfigError ℕ
in_range minimum maximum (some (pos n)) =
    if leb minimum n && at_most maximum n then ok n else err invalid_field
in_range minimum maximum _ = err invalid_field

-- z.coerce.number().int().min(minimum).max(maximum).default(default)
unfoldable pub read_number : Reader → ℕ → Option ℕ → ℕ → Option Text → Result ConfigError ℕ
read_number r minimum maximum default none = ok default
read_number r minimum maximum default (some t) = in_range minimum maximum (r.number t)

pub record Access : Type 0 where
  pub mode : Mode
  pub auth_mode : AuthMode
  pub auth_enforce_in_observe : Bool
  pub allowed_contracts : Text
  pub allowed_selectors : Text
  pub unsupported_policy : Policy
  pub insufficient_policy : Policy
  pub min_transaction_ttl_ms : ℕ
  pub max_transaction_ttl_ms : ℕ
  pub max_transaction_age_ms : ℕ
  pub max_transaction_future_skew_ms : ℕ

unfoldable pub read_policy : Option Text → Result ConfigError Policy
read_policy t =
    read_enum ((text "forward", forward_policy) ∷ (text "reject", reject_policy) ∷ []) reject_policy
      t

unfoldable pub read_access : Reader → Environment → Result ConfigError Access
unfolding read_policy
read_access r e = do
  mode ←
      read_enum
        ((text "passthrough", passthrough)
          ∷ (text "observe", observe)
          ∷ (text "sponsor", sponsor)
          ∷ [])
        observe e.gateway_mode
  auth ←
      read_enum ((text "none", no_auth) ∷ (text "bound_address", bound_address) ∷ []) bound_address
        e.auth_mode
  enforce ← boolean_value false e.auth_enforce_in_observe
  unsupported ← read_policy e.unsupported_policy
  insufficient ← read_policy e.insufficient_policy
  min_ttl ← read_number r 0 none 5_000 e.min_transaction_ttl_ms
  max_ttl ← read_number r 60_000 (some 86_400_000) 600_000 e.max_transaction_ttl_ms
  age ← read_number r 1_000 (some 3_600_000) 120_000 e.max_transaction_age_ms
  skew ← read_number r 0 (some 300_000) 30_000 e.max_transaction_future_skew_ms
  ok (record {
    mode = mode;
    auth_mode = auth;
    auth_enforce_in_observe = enforce;
    allowed_contracts = or_else e.allowed_contracts (text "TR7NHqjeKQxGTCi8q8ZY4pL8otSzgjLj6t");
    allowed_selectors = or_else e.allowed_selectors (text "a9059cbb,095ea7b3");
    unsupported_policy = unsupported;
    insufficient_policy = insufficient;
    min_transaction_ttl_ms = min_ttl;
    max_transaction_ttl_ms = max_ttl;
    max_transaction_age_ms = age;
    max_transaction_future_skew_ms = skew;
  })

pub record Sponsorship : Type 0 where
  pub sponsor_energy : Bool
  pub sponsor_bandwidth : Bool
  pub energy_source : EnergySource
  pub estimate_safety_bps : ℕ
  pub allow_owner_bandwidth_burn : Bool
  pub max_owner_bandwidth_burn_sun : ℕ
  pub allow_owner_energy_burn : Bool
  pub max_owner_energy_burn_sun : ℕ
  pub min_delegate_sun : ℕ
  pub delegation_confirm_timeout_ms : ℕ
  pub delegation_poll_ms : ℕ
  pub reclaim_delay_ms : ℕ

unfoldable pub read_sponsorship : Reader → Environment → Result ConfigError Sponsorship
read_sponsorship r e = do
  energy ← boolean_value true e.sponsor_energy
  bandwidth ← boolean_value true e.sponsor_bandwidth
  source ← read_enum ((text "self", self) ∷ (text "provider", provider) ∷ []) self e.energy_source
  safety ← read_number r 10_000 (some 30_000) 11_500 e.estimate_safety_bps
  bandwidth_burn ← boolean_value false e.allow_owner_bandwidth_burn
  max_bandwidth_burn ←
      read_number r 1 (some 15_000_000_000) 1_000_000 e.max_owner_bandwidth_burn_sun
  energy_burn ← boolean_value false e.allow_owner_energy_burn
  max_energy_burn ← read_number r 1 (some 15_000_000_000) 5_000_000 e.max_owner_energy_burn_sun
  min_delegate ← read_number r 1_000_000 none 1_000_000 e.min_delegate_sun
  confirm ← read_number r 1 none 12_000 e.delegation_confirm_timeout_ms
  poll ← read_number r 1 none 400 e.delegation_poll_ms
  reclaim ← read_number r 0 none 15_000 e.reclaim_delay_ms
  ok (record {
    sponsor_energy = energy;
    sponsor_bandwidth = bandwidth;
    energy_source = source;
    estimate_safety_bps = safety;
    allow_owner_bandwidth_burn = bandwidth_burn;
    max_owner_bandwidth_burn_sun = max_bandwidth_burn;
    allow_owner_energy_burn = energy_burn;
    max_owner_energy_burn_sun = max_energy_burn;
    min_delegate_sun = min_delegate;
    delegation_confirm_timeout_ms = confirm;
    delegation_poll_ms = poll;
    reclaim_delay_ms = reclaim;
  })

pub record Renting : Type 0 where
  pub provider_master_key : Option Text
  pub provider_order_timeout_ms : ℕ
  pub provider_confirm_timeout_ms : ℕ
  pub provider_poll_ms : ℕ
  pub kuaizu_package_threshold : ℕ

unfoldable pub read_renting : Reader → Environment → Result ConfigError Renting
read_renting r e = do
  order ← read_number r 1_000 (some 60_000) 5_000 e.provider_order_timeout_ms
  confirm ← read_number r 1_000 (some 120_000) 10_000 e.provider_confirm_timeout_ms
  poll ← read_number r 100 (some 10_000) 250 e.provider_poll_ms
  threshold ← read_number r 1 (some 131_000) 100_000 e.kuaizu_package_threshold
  ok (record {
    provider_master_key = e.provider_master_key;
    provider_order_timeout_ms = order;
    provider_confirm_timeout_ms = confirm;
    provider_poll_ms = poll;
    kuaizu_package_threshold = threshold;
  })

unfoldable pub read_limits : Reader → Environment → Result ConfigError BudgetLimits
read_limits r e = do
  max_energy ← read_number r 1 (some 10_000_000) 200_000 e.provider_max_energy_per_order
  daily_orders ← read_number r 1 (some 1_000_000) 20 e.provider_daily_max_orders
  daily_energy ← read_number r 1 (some 1_000_000_000) 2_000_000 e.provider_daily_max_energy
  ok (record {
    max_energy_per_order = max_energy;
    daily_order_limit = daily_orders;
    daily_energy_limit = daily_energy;
  })
