-- ===== src/Examples/Audits.antt =====
-- Two observations of the energy of one transaction, on src/repository.ts.
use catfee_io.Base.{refl, some, [], ◌∷◌}
use catfee_io.Base.Int.{pos}
use catfee_io.Table.{update, insert, exists}
use catfee_io.Table.Laws.{All}
use catfee_io.Store.{Database}
use catfee_io.Gateway.Audits.{new_audit, record_energy_arrival, upsert_audit, observe_arrival}
use catfee_io.Gateway.Audits.Checks.{IsChecked, observes, Step-IsChecked}
use catfee_io.Gateway.Audits.Arrivals.{IsLater, arrival, Step-IsLater}
use catfee_io.Examples.Accounts.{begun_db}

abbrev arrived : Database
arrived = record begun_db {
  audits =
      record (new_audit 40) {
        energy_available_after = some (pos 65_000);
        energy_arrival_observed_at = some 700;
      }
      ∷ [];
}

abbrev arrived_again : Database
arrived_again = record begun_db {
  audits =
      record (new_audit 40) {
        energy_available_after = some (pos 70_000);
        energy_arrival_observed_at = some 800;
      }
      ∷ [];
}

Step-IsChecked_example : All IsChecked arrived.audits
unfolding record_energy_arrival upsert_audit observe_arrival update insert exists
Step-IsChecked_example = Step-IsChecked {db = begun_db} (observes 40 (pos 65_000) 700 refl) tt

Step-IsLater_example : IsLater (arrival 40 arrived) (arrival 40 arrived_again)
unfolding record_energy_arrival upsert_audit observe_arrival update exists
Step-IsLater_example = Step-IsLater {db = arrived} 40 (observes 40 (pos 70_000) 800 refl)
