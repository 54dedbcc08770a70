-- ===== src/Providers.antt =====
-- The external energy providers: `EnergyProviderRepository` of src/providers/repository.ts, on the
-- tables energy_providers, energy_provider_orders and energy_provider_budget_ledger.
pub mod Limits
pub mod Orders
pub mod Settle
pub mod Budget
pub mod Matching
pub mod Steps
pub mod Reach
pub mod Transitions
