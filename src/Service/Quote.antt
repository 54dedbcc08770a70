-- ===== src/Service/Quote.antt =====
-- `quoteMinimumEnergyAmount` of src/providers/service.ts.
use catfee_io.Base.{ℕ, Option, none, some, List, [], ◌∷◌, ltb, ◌&&◌, if◌then◌else◌}
use catfee_io.Base.Results.{Result, ok, err}
use catfee_io.Store.{Database, Provider}
use catfee_io.Providers.Settle.{list_enabled_providers}
use catfee_io.Service.{
  OrderError, World, invalid_input, is_valid_amount, is_valid_minimum, resolve_energy_amount,
}

-- What the candidate's package is for quoteMinimumEnergyAmount, where it has one that it may sell.
unfoldable pub quote_of : World → ℕ → Option ℕ → Provider → Option ℕ
quote_of w requested minimum c = elim (w.registry c.provider_type) [
  | none ↦ none
  | some a ↦ elim (resolve_energy_amount a requested minimum) [
    | none ↦ none
    | some n ↦ if ltb c.max_energy_per_order n then none else some n
  ]
]

-- `amount === null`, and then `minimum === null || amount < minimum`
abbrev pub lesser : Option ℕ → Option ℕ → Option ℕ
lesser none best = best
lesser (some n) none = some n
lesser (some n) (some m) = if ltb n m then some n else some m

unfoldable pub quote_loop : World → ℕ → Option ℕ → List Provider → Option ℕ → Option ℕ
quote_loop w requested minimum [] best = best
quote_loop w requested minimum (c ∷ cs) best =
    quote_loop w requested minimum cs (lesser (quote_of w requested minimum c) best)

unfoldable pub quote_minimum_energy_amount :
    World → ℕ → Option ℕ → Database → Result OrderError (Option ℕ)
quote_minimum_energy_amount w requested minimum db =
    if is_valid_amount requested && is_valid_minimum minimum
    then ok (quote_loop w requested minimum (list_enabled_providers db) none)
    else err invalid_input
