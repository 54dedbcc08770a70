-- ===== src/Examples/Work.antt =====
-- One iteration of each worker of src/workers.ts, over the surroundings of Examples.Sponsor.
use catfee_io.Base.{refl, [], none}
use catfee_io.Base.Int.{◌+ℤ◌}
use catfee_io.Base.Results.{ok}
use catfee_io.Broadcast.Books.{Leads}
use mathlib.Core.List.Memᴰ
use catfee_io.Gateway.Requests.{
  new_request, list_stale_requests, is_stale, order_by_update, insert_by_update,
}
use catfee_io.Table.{select_all}
use catfee_io.Workers.Decided.{IsDecided}
use catfee_io.Workers.Recovery.{IsAnswering, confirmation_loop-IsDecided}
use catfee_io.Workers.{Watch, confirmation_loop, reclaim_loop}
use catfee_io.Workers.Books.{loops-Lead}
use catfee_io.Resources.World.{Session}
use catfee_io.Examples.Accounts.{transaction, begun_db}
use catfee_io.Examples.Sponsor.{node, session}

-- The request of Examples.Accounts, which a stop has left behind.
abbrev interrupted : Session
interrupted = record session { database = begun_db }

abbrev watch : Watch
watch = record {
  node = record node { now = λ _. 900_000 };
  node_of_lease = λ _. node;
  worker_time = λ _. 900_000;
  full_node_receipt = λ _. ok none;
  solidified_receipt = λ _. ok none;
  to_upper_case = λ t. t;
  reclaim_delay_ms = 5_000;
  accepted_frame = [];
  expired_frame = [];
}

loops-Lead_example :
    Leads begun_db (confirmation_loop watch interrupted).1.database
    × Leads begun_db (reclaim_loop watch interrupted).1.database
loops-Lead_example = loops-Lead (λ _. 7) watch interrupted (refl, tt)

answering : IsAnswering watch
answering = record {
  swept = refl;
  listed = refl;
  recorded = λ _. refl;
  receipts = λ _. (none, refl);
}

confirmation_loop-IsDecided_example : IsDecided 40 (confirmation_loop watch interrupted).1.database
unfolding list_stale_requests is_stale order_by_update insert_by_update select_all ◌+ℤ◌
confirmation_loop-IsDecided_example =
    confirmation_loop-IsDecided watch interrupted (new_request transaction 100) answering
      (Memᴰ.head refl) refl
