-- ===== src/Examples/Service.antt =====
-- One call of `orderEnergy` (src/providers/service.ts) with one provider, which accepts.
use catfee_io.Base.{ℕ, Option, none, some}
use catfee_io.Store.{text}
use catfee_io.Providers.Limits.{default_limits}
use catfee_io.Service.{World, Adapter, OrderInput, rent_accepted, order_energy}
use catfee_io.Link.{answered}
use catfee_io.Service.Rentals.{IsHonest, order_energy-IsHonest}
use catfee_io.Examples.Orders.{with_provider, delivered, any_columns}

abbrev packages : Adapter
packages = record { resolve = λ n. some n; resolve_at_least = none }

abbrev pub world : World
world = record {
  link = λ _. answered;
  registry = λ _. some packages;
  rent = λ _ _ _ _. rent_accepted delivered;
  decrypt = λ _. some (text "key");
  limits = default_limits;
  columns = any_columns;
  day = 20_000;
  clock = λ _. 500;
  start_of_loop = 400;
  end_of_loop = 600;
}

abbrev order_input : OrderInput
order_input = record {
  tx_id = 40;
  receive_address = 7;
  amount = 65_000;
  minimum_package_amount = none;
  request_deadline = 50_000;
}

order_energy-IsHonest_example : IsHonest (order_energy world order_input with_provider)
order_energy-IsHonest_example = order_energy-IsHonest world order_input with_provider

abbrev quoted : Option ℕ
quoted = some 65_000
