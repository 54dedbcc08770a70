-- ===== src/Examples/Orders.antt =====
-- An order that enters ORDERING at one provider, on src/providers/repository.ts.
use catfee_io.Base.{
  is_some, ℕ, zero, suc, ◌-◌, Bool, ◌≡◌, refl, arith, true, false, none, some, [], ◌∷◌, ◌++◌, ltb,
  leb, ◌&&◌, length, if◌then◌else◌,
}
use catfee_io.Base.Results.{succeeds}
use catfee_io.Table.{update, insert, exists, select, sum}
use catfee_io.Store.{Database, Provider, Text, text}
use catfee_io.Providers.Limits.{default_limits, validate_energy_amount}
use catfee_io.Providers.Orders.{
  begin_order, start_attempt, attempt_transaction, attempt_refused, reserve_attempt, order_created,
  new_order, started, enter_ordering, at_attempt, transition_attempt, fits_attempts, used_orders,
  used_energy, provider_orders, provider_energy,
}
use catfee_io.Providers.Settle.{
  mark_rejected, mark_unknown, mark_accepted, accept_order, stored_acceptance, Columns, Acceptance,
}
use catfee_io.Providers.Steps.{IsSound}
use catfee_io.Providers.Reach.{Reach, here, next, begins, attempts, Reach-IsSound}
use catfee_io.Providers.Transitions.{attempt_settles, has_room}
use catfee_io.Examples.Accounts.{begun_db}

abbrev pub kuaizu : Provider
kuaizu = record {
  id = 3;
  provider_type = text "kuaizu";
  name = text "first";
  enabled = true;
  priority = 100;
  rent_time = 1;
  max_energy_per_order = 131_000;
  daily_order_limit = 10;
  daily_energy_limit = 1_000_000;
  credential_version = 1;
  api_key_encrypted = [];
}

abbrev pub with_provider : Database
with_provider = record begun_db { providers = kuaizu ∷ [] }

abbrev ordered : Database
ordered = record with_provider { orders = new_order 1 40 7 65_000 ∷ []; next_order_id = 2 }

with_provider-IsSound : IsSound default_limits with_provider
unfolding used_orders used_energy sum
with_provider-IsSound = record {
  in_budget = λ day. (omega arith, omega arith);
  matched = record { one_order = λ i. omega arith; fresh = λ i h. refl; matched = λ i p. refl };
}

abbrev attempted : Database
attempted = reserve_attempt 65_000 20_000 500 (new_order 1 40 7 65_000) kuaizu ordered

abbrev order_life : Reach default_limits with_provider attempted
unfolding begin_order start_attempt validate_energy_amount attempt_transaction attempt_refused
    used_orders used_energy provider_orders provider_energy fits_attempts enter_ordering select
    insert exists sum
order_life = next (next here (begins 40 7 65_000 (order_created (new_order 1 40 7 65_000)) refl)) (
    attempts (λ _. some (text "key")) 1 3 65_000 20_000 500
      (started (enter_ordering kuaizu 65_000 500 (new_order 1 40 7 65_000)) kuaizu (text "key"))
      refl)

Reach-IsSound_example : IsSound default_limits attempted
Reach-IsSound_example = Reach-IsSound with_provider-IsSound order_life

abbrev pub delivered : Acceptance
delivered = record {
  provider_order_id = text "A17";
  provider_balance_trx = text "120";
  order_cost_trx = text "3";
  delegation_tx_hash = text "5d5d5d5d5d5d5d5d5d5d5d5d5d5d5d5d5d5d5d5d5d5d5d5d5d5d5d5d5d5d5d5d";
  sender_addresses = [];
}

abbrev all_digits : Text → Bool
all_digits [] = true
all_digits (c ∷ cs) = leb b'0' c && leb c b'9' && all_digits cs

abbrev blanks : ℕ → Text
blanks zero = []
blanks (suc n) = b' ' ∷ blanks n

-- A reading of whole numbers, and of texts that are not too long.
abbrev pub any_columns : Columns
any_columns = record {
  numeric = λ t.
      if ltb 0 (length t) && leb (length t) 20 && all_digits t
      then some (t ++ text ".000000000000000000")
      else none;
  character = λ t. if leb (length t) 64 then some (t ++ blanks (64 - length t)) else none;
}

attempt_settles_example :
    (succeeds (mark_rejected 1 kuaizu [] 600 attempted)
      ≡ has_room (select (at_attempt 1 3) attempted.orders))
    × (succeeds (mark_unknown 1 kuaizu [] 600 attempted)
        ≡ has_room (select (at_attempt 1 3) attempted.orders))
    × (succeeds (mark_accepted any_columns 1 kuaizu delivered 600 attempted) ≡ (
        is_some (stored_acceptance any_columns delivered)
        && has_room (select (at_attempt 1 3) attempted.orders)))
attempt_settles_example =
    attempt_settles (Reach-IsSound with_provider-IsSound order_life) any_columns 1 kuaizu []
      delivered 600

accepts_runs : succeeds (mark_accepted any_columns 1 kuaizu delivered 600 attempted) ≡ true
unfolding mark_accepted stored_acceptance accept_order fits_attempts transition_attempt
    reserve_attempt enter_ordering select insert update sum
accepts_runs = refl

-- A text that is no number is not stored.
refuses_runs :
    succeeds
      (mark_accepted any_columns 1 kuaizu (record delivered { order_cost_trx = [] }) 600 attempted)
    ≡ false
unfolding mark_accepted stored_acceptance
refuses_runs = refl
