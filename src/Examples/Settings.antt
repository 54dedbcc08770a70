-- ===== src/Examples/Settings.antt =====
-- An environment that src/config.ts accepts for a sponsor that rents its energy.
use catfee_io.Base.{ℕ, ◌+◌, ◌*◌, ◌-◌, ◌≡◌, refl, true, false, none, some, [], ◌∷◌}
use catfee_io.Base.Int.{pos}
use catfee_io.Base.Results.{ok}
use catfee_io.Store.{Text, text}
use catfee_io.Table.{select_all, exists}
use catfee_io.Resources.{provider}
use catfee_io.Broadcast.{sponsor, bound_address, reject_policy}
use catfee_io.Broadcast.Sponsor.Whole.{sponsor_run, start}
use catfee_io.Broadcast.Charged.{IsSettled}
use catfee_io.Configuration.{
  Environment, Reader, read_access, read_sponsorship, read_renting, read_limits, read_number,
  read_enum, read_policy,
}
use catfee_io.Configuration.Load.{
  AppConfig, load_config, assemble, address_set, all_addresses, selector_set, owner_address, filled,
  super_refine, owner_issues, key_issues, paid_issues, window_issues, is_base64_key,
}
use catfee_io.Configuration.Texts.{
  csv_set, split, trimmed, distinct, is_run, is_padded_run, lower_cases,
}
use catfee_io.Configuration.Loaded.{IsPaid}
use catfee_io.Configuration.Accepted.{
  IsConsistent, load_config-IsConsistent, load_config-IsPaid, load_config-IsSettled,
}
use catfee_io.Examples.Accounts.{transaction}
use catfee_io.Examples.Sponsor.{wire, session, node-Ticks, supplied-IsReadable}

abbrev digits : Text → ℕ → ℕ
digits [] n = n
digits (c ∷ cs) n = digits cs (10 * n + (c - 48))

abbrev reader : Reader
reader = record {
  number = λ t. some (pos (digits t 0));
  others_pass = true;
  normalize_tron_address = λ t. some 9;
  empty_address = 0;
  from_base64 = λ _. [];
  to_base64 = λ _. [];
}

abbrev environment : Environment
environment = record {
  gateway_mode = some (text "sponsor");
  auth_mode = none;
  auth_enforce_in_observe = none;
  allowed_contracts = none;
  allowed_selectors = some (text " A9059CBB ,,a9059cbb,095ea7b3");
  unsupported_policy = none;
  insufficient_policy = some (text "reject");
  min_transaction_ttl_ms = some (text "6000");
  max_transaction_ttl_ms = none;
  max_transaction_age_ms = none;
  max_transaction_future_skew_ms = none;
  sponsor_energy = none;
  sponsor_bandwidth = some (text "false");
  energy_source = some (text "provider");
  estimate_safety_bps = none;
  allow_owner_bandwidth_burn = some (text "true");
  max_owner_bandwidth_burn_sun = none;
  allow_owner_energy_burn = none;
  max_owner_energy_burn_sun = none;
  min_delegate_sun = none;
  resource_owner_address = none;
  delegation_confirm_timeout_ms = none;
  delegation_poll_ms = none;
  provider_master_key =
      some (text "00112233445566778899aabbccddeeff00112233445566778899AABBCCDDEEFF");
  provider_order_timeout_ms = none;
  provider_confirm_timeout_ms = none;
  provider_poll_ms = none;
  kuaizu_package_threshold = none;
  provider_max_energy_per_order = none;
  provider_daily_max_orders = some (text "30");
  provider_daily_max_energy = none;
  reclaim_delay_ms = none;
}

abbrev accepted : AppConfig
accepted = record {
  config = record {
    mode = sponsor;
    auth_mode = bound_address;
    auth_enforce_in_observe = false;
    allowed_contracts = 9 ∷ [];
    allowed_selectors = text "a9059cbb" ∷ text "095ea7b3" ∷ [];
    unsupported_policy = reject_policy;
    insufficient_policy = reject_policy;
    max_transaction_ttl_ms = 600_000;
    max_transaction_age_ms = 120_000;
    max_transaction_future_skew_ms = 30_000;
    reclaim_delay_ms = 15_000;
    options = record {
      resource_owner_address = 0;
      sponsor_energy = true;
      sponsor_bandwidth = false;
      energy_source = provider;
      estimate_safety_bps = 11_500;
      allow_owner_bandwidth_burn = true;
      max_owner_bandwidth_burn_sun = pos 1_000_000;
      allow_owner_energy_burn = false;
      max_owner_energy_burn_sun = pos 5_000_000;
      energy_package_threshold = 100_000;
      min_delegate_sun = pos 1_000_000;
      delegation_confirm_timeout_ms = 12_000;
      delegation_poll_ms = 400;
      provider_confirm_timeout_ms = 10_000;
      provider_order_timeout_ms = 5_000;
      provider_poll_ms = 250;
      min_transaction_ttl_ms = 6_000;
    };
  };
  provider_master_key =
      some (text "00112233445566778899aabbccddeeff00112233445566778899AABBCCDDEEFF");
  limits = record {
    max_energy_per_order = 200_000;
    daily_order_limit = 30;
    daily_energy_limit = 2_000_000;
  };
}

loads : load_config reader environment ≡ ok accepted
unfolding load_config assemble address_set all_addresses selector_set owner_address filled
    super_refine owner_issues key_issues paid_issues window_issues is_base64_key csv_set split
    trimmed distinct is_run is_padded_run lower_cases read_access read_sponsorship read_renting
    read_limits read_number read_enum read_policy select_all exists
loads = refl

load_config-IsConsistent_example : IsConsistent accepted
load_config-IsConsistent_example = load_config-IsConsistent reader environment accepted loads

load_config-IsPaid_example : IsPaid accepted.config
load_config-IsPaid_example = load_config-IsPaid reader environment accepted loads refl refl

load_config-IsSettled_example :
    IsSettled transaction (sponsor_run wire accepted.config transaction (start session)).1
load_config-IsSettled_example =
    load_config-IsSettled reader environment accepted wire transaction session loads refl refl
      node-Ticks supplied-IsReadable tt refl
