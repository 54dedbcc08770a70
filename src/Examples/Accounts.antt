-- ===== src/Examples/Accounts.antt =====
-- A short life of one binding and one request, on src/repository.ts.
use catfee_io.Base.{◌≡◌, refl, arith, true, none, some, [], ◌∷◌}
use catfee_io.Base.Int.{pos}
use catfee_io.Table.{insert, exists, select, sum}
use catfee_io.Store.{Database}
use catfee_io.Gateway.Bindings.{BindingInput, upsert_binding, get_binding}
use catfee_io.Gateway.Requests.{Transaction, begin_request, find_request, new_request}
use catfee_io.Gateway.Quota.{reserve_quota, may_reserve}
use catfee_io.Gateway.Quota.{move_quota, record_broadcast_outcome, Outcome}
use catfee_io.Gateway.Accounting.Once.{recorded, moved, settle_once}
use catfee_io.Gateway.Accounting.Limits.{NotOversold}
use catfee_io.Gateway.Accounting.Steps.{Balanced}
use catfee_io.Gateway.Accounting.Reach.{
  Reach, here, next, upserts, begins, reserves, Reach-Balanced, Reach-NotOversold,
}

abbrev pub empty : Database
empty = record {
  bindings = [];
  requests = [];
  claims = [];
  leases = [];
  next_lease_id = 1;
  providers = [];
  orders = [];
  next_order_id = 1;
  ledger = [];
  audits = [];
}

abbrev input : BindingInput
input = record {
  address = 7;
  label = none;
  max_transactions = some (some (pos 2));
  expires_at = none;
  enabled = none;
}

abbrev pub transaction : Transaction
transaction = record {
  tx_id = 40;
  transaction_bytes = 1 ∷ 2 ∷ [];
  owner_address = 7;
  contract_type = pos 31;
  contract_address = some 9;
  function_selector = none;
  trigger_data = some (97 ∷ []);
  call_value = none;
  call_token_value = none;
  token_id = none;
  fee_limit_sun = pos 100_000_000;
  ref_block_bytes = [];
  ref_block_hash = [];
  memo_length = 0;
  permission_id = pos 0;
  expiration_ms = pos 60_000;
  timestamp_ms = pos 1_000;
}

abbrev pub bound : Database
bound = record empty {
  bindings =
      record {
        address = 7;
        label = none;
        enabled = true;
        max_transactions = some 2;
        used_transactions = 0;
        reserved_transactions = 0;
        expires_at = none;
      }
      ∷ [];
}

abbrev pub begun_db : Database
begun_db = record bound { requests = new_request transaction 100 ∷ [] }

abbrev life : Reach empty (reserve_quota 7 40 true 200 begun_db).1
unfolding upsert_binding begin_request find_request select insert exists
life =
    next (next (next here (upserts input refl)) (begins transaction 100 refl))
      (reserves 7 40 true 200 (new_request transaction 100) refl refl refl refl)

empty-Balanced : Balanced empty
unfolding sum
empty-Balanced = record {
  one_binding = λ a. omega arith;
  one_request = λ t. omega arith;
  balanced = λ a. refl;
}

Reach-Balanced_example : Balanced (reserve_quota 7 40 true 200 begun_db).1
unfolding upsert_binding
Reach-Balanced_example = Reach-Balanced empty-Balanced life

reserved_runs : (reserve_quota 7 40 true 200 begun_db).0 ≡ true
unfolding reserve_quota get_binding may_reserve select
reserved_runs = refl

Reach-NotOversold_example : NotOversold (reserve_quota 7 40 true 200 begun_db).1
unfolding upsert_binding exists life
Reach-NotOversold_example = Reach-NotOversold empty-Balanced tt life (((tt, λ e. cc), tt), tt)

abbrev outcome : Outcome
outcome = record {
  tx_id = 40;
  owner_address = 7;
  is_accepted = true;
  response = [];
  grpc_status = [];
  reclaim_delay_ms = 5000;
  error_code = none;
  error_message = none;
}

abbrev reserved_db : Database
reserved_db = (reserve_quota 7 40 true 200 begun_db).1

settle_once_example :
    (move_quota 7 40 true 400 (record_broadcast_outcome outcome 300 reserved_db)).bindings
    ≡ (record_broadcast_outcome outcome 300 reserved_db).bindings
settle_once_example = settle_once (recorded outcome 300) (moved 7 40 true 400) reserved_db refl
