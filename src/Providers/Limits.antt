-- ===== src/Providers/Limits.antt =====
-- The budget limits of src/providers/types.ts and their validation in src/providers/repository.ts.
use catfee_io.Base.{ℕ, Bool, Option, ltb, ◌&&◌, ◌||◌, or_else, if◌then◌else◌}
use catfee_io.Base.Results.{Result, ok, ◌>>◌, throw_if}
use catfee_io.Store.{StoreError, range_error}

abbrev pub max_energy_order_amount : ℕ
max_energy_order_amount = 10_000_000

abbrev pub max_safe_integer : ℕ
max_safe_integer = 9_007_199_254_740_991

abbrev pub kuaizu_max_energy_per_order : ℕ
kuaizu_max_energy_per_order = 131_000

pub record BudgetLimits : Type 0 where
  pub max_energy_per_order : ℕ
  pub daily_order_limit : ℕ
  pub daily_energy_limit : ℕ

-- DEFAULT_PROVIDER_BUDGET_LIMITS and DEFAULT_GLOBAL_PROVIDER_BUDGET_LIMITS
abbrev pub default_limits : BudgetLimits
default_limits = record {
  max_energy_per_order = 200_000;
  daily_order_limit = 10;
  daily_energy_limit = 1_000_000;
}

-- `!Number.isSafeInteger(value) || value < 1 || value > maximum`
abbrev pub out_of_range : ℕ → ℕ → Bool
out_of_range maximum value = ltb max_safe_integer value || ltb value 1 || ltb maximum value

unfoldable pub validate_energy_amount : ℕ → Result StoreError (Unit {0})
validate_energy_amount amount = throw_if (out_of_range max_energy_order_amount amount) range_error

unfoldable pub validate_budget_limits : BudgetLimits → Result StoreError (Unit {0})
validate_budget_limits l = do
  throw_if (out_of_range max_energy_order_amount l.max_energy_per_order) range_error
  throw_if (out_of_range 1_000_000 l.daily_order_limit) range_error
  throw_if (out_of_range 1_000_000_000_000 l.daily_energy_limit) range_error
  throw_if (ltb l.daily_energy_limit l.max_energy_per_order) range_error

unfoldable pub validate_provider_maximum : Bool → ℕ → Result StoreError (Unit {0})
validate_provider_maximum is_kuaizu maximum =
    throw_if (is_kuaizu && ltb kuaizu_max_energy_per_order maximum) range_error

-- The limits that a new provider gets: those of the input, or the defaults of its type.
unfoldable pub provider_limits :
    Bool → Option ℕ → Option ℕ → Option ℕ → Result StoreError BudgetLimits
unfolding validate_budget_limits validate_provider_maximum
provider_limits is_kuaizu max_energy daily_orders daily_energy = do
  let limits = record default_limits {
    max_energy_per_order =
        or_else max_energy
          (if is_kuaizu then kuaizu_max_energy_per_order else default_limits.max_energy_per_order);
    daily_order_limit = or_else daily_orders default_limits.daily_order_limit;
    daily_energy_limit = or_else daily_energy default_limits.daily_energy_limit;
  }
  validate_budget_limits limits
  validate_provider_maximum is_kuaizu limits.max_energy_per_order
  ok limits
