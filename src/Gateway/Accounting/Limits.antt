-- ===== src/Gateway/Accounting/Limits.antt =====
-- Whether a binding is oversold: used and reserved transactions against `max_transactions`, under
-- each method of src/repository.ts that writes them.
use catfee_io.Base.{
  ℕ, ◌+◌, ◌≤◌, ◌≡◌, Bool, true, Option, none, some, List, arith, inl, inr, Option-cases, Bool-cases,
}
use catfee_io.Base.Int.{ℤ}
use catfee_io.Base.Results.{ok}
use catfee_io.Table.{update, insert, exists, select}
use catfee_io.Table.Laws.{
  All, All-insert, All-update, All-and, All-unique, select-sum_one, select-sum-le, select-sum-none,
}
use catfee_io.Store.{Database, Binding, Request, Address, TxId, Time}
use catfee_io.Gateway.Bindings.{
  BindingInput, upsert_binding, patch_binding, new_binding, limit_out_of_range, at_address,
  get_binding, reset_rows, may_reset, reset_binding, reset_binding_usage, set_binding_enabled,
}
use catfee_io.Gateway.Requests.{of_tx, find_request, Transaction, begin_request}
use catfee_io.Gateway.Claims.{drop_claims_of}
use catfee_io.Gateway.Leases.{release_active_leases}
use catfee_io.Gateway.Quota.{
  reserve_quota, may_reserve, take_reservation, move_quota, settle_binding, holds_quota,
  settle_outcome, Outcome, record_broadcast_outcome, finish_outcome, write_outcome,
}
use catfee_io.Gateway.Accounting.{IsAccounted, holds_for, held_by}
use catfee_io.Gateway.Accounting.Steps.{Balanced, Owns, holds_quota-row}

-- No more used and reserved than the limit, if there is one.
abbrev pub InLimit : Option ℕ → ℕ → Type 0
InLimit none n = Unit
InLimit (some max) n = n ≤ max

abbrev pub Within : Binding → Type 0
Within b = InLimit b.max_transactions (b.used_transactions + b.reserved_transactions)

abbrev pub NotOversold : Database → Type 0
NotOversold db = All Within db.bindings

-- The row that reserveQuota lets through has room for one more.
may_reserve-room :
    (finite : Bool) (now : Time) (b : Binding)
    → may_reserve finite now b ≡ true
    → InLimit b.max_transactions (b.used_transactions + (b.reserved_transactions + 1))
unfolding may_reserve
may_reserve-room finite now b h = elim (Option-cases b.max_transactions) [
  | inl e ↦ rw e tt
  | inr (m, e) ↦ rw e (ground arith)
]

pub reserve_quota-NotOversold :
    (a : Address) (t : TxId) (finite : Bool) (now : Time) (db : Database)
    → Balanced db
    → NotOversold db
    → NotOversold (reserve_quota a t finite now db).1
unfolding reserve_quota get_binding take_reservation
reserve_quota-NotOversold a t finite now db v w = elim (Option-cases (get_binding a db)) [
  | inl e ↦ rw (e, reserve_quota) w
  | inr (b, e) ↦
      rw (e, reserve_quota)
        (elim (Bool-cases (may_reserve finite now b)) [
          | inl m ↦ rw m (
              All-update _ Within (at_address a) _
                (λ r h (q : Within r × (at_address a r ≡ true → r ≡ b)).
                  rw (q.1 h) (may_reserve-room finite now b m))
                (λ r q. q.0) db.bindings
                (All-and Within _ db.bindings w
                  (All-unique (at_address a) db.bindings e (v.one_binding a))))
          | inr m ↦ rw m w
        ])
]

settle_one-Within :
    (consume : Bool) (b : Binding)
    → 1 ≤ b.reserved_transactions
    → Within b
    → Within (settle_binding consume b)
unfolding settle_binding
settle_one-Within consume b h w = elim (Option-cases b.max_transactions) [
  | inl e ↦ rw e tt
  | inr (m, e) ↦ rw e (let w' = rw e at w in ground arith)
]

-- To settle a reservation that the books hold does not raise used plus reserved.
settle-Within :
    (bs : List Binding) (rs : List Request) (a : Address) (t : TxId) (r : Request) (consume : Bool)
    → IsAccounted bs rs
    → All Within bs
    → select (of_tx t) rs ≡ some r
    → r.owner_address ≡ a
    → r.quota_reserved ≡ true
    → All Within (update (at_address a) (settle_binding consume) bs)
settle-Within bs rs a t r consume v w e owner held =
    elim (Option-cases (select (at_address a) bs)) [
      | inl absent ↦ absurd (
          ground (
            arith,
            some_held,
            v.balanced a,
            select-sum-none (at_address a) (λ c. c.reserved_transactions) bs absent,
          ))
      | inr (b, eb) ↦
          All-update _ Within (at_address a) _
            (λ x h (q : Within x × (at_address a x ≡ true → x ≡ b)).
              settle_one-Within consume x
                (ground (
                  arith,
                  q.1 h,
                  some_held,
                  v.balanced a,
                  select-sum_one (at_address a) (λ c. c.reserved_transactions) bs eb
                      (v.one_binding a),
                ))
                q.0)
            (λ x q. q.0) bs
            (All-and Within _ bs w (All-unique (at_address a) bs eb (v.one_binding a)))
    ]
  where
    some_held : 1 ≤ held_by a rs
    some_held = select-sum-le (of_tx t) (holds_for a) (λ _. 1) rs e (ground (arith, owner, held))

pub move_quota-NotOversold :
    (a : Address) (t : TxId) (consume : Bool) (now : Time) (db : Database)
    → Owns a t db
    → Balanced db
    → NotOversold db
    → NotOversold (move_quota a t consume now db)
unfolding move_quota find_request
move_quota-NotOversold a t consume now db owns v w = elim (Bool-cases (holds_quota t db)) [
  | inl h ↦
      let (r, e, held) = holds_quota-row t db h in
      rw h (settle-Within db.bindings db.requests a t r consume v w e (owns r e) held)
  | inr h ↦ rw h w
]

pub settle_outcome-NotOversold :
    (o : Outcome) (db : Database)
    → Owns o.owner_address o.tx_id db
    → Balanced db
    → NotOversold db
    → NotOversold (settle_outcome o db)
unfolding settle_outcome find_request
settle_outcome-NotOversold o db owns v w = elim (Bool-cases (holds_quota o.tx_id db)) [
  | inl h ↦
      let (r, e, held) = holds_quota-row o.tx_id db h in
      rw h (settle-Within db.bindings db.requests o.owner_address o.tx_id r _ v w e (owns r e) held)
  | inr h ↦ rw h w
]

InLimit-zero : (max : Option ℕ) → InLimit max 0
InLimit-zero none = tt
InLimit-zero (some m) = omega arith

-- A reset reaches only bindings with no reservation, so any new limit holds.
pub reset_rows-NotOversold :
    (a : Address) (max : Option (Option ℤ)) (require : Bool) (db : Database)
    → NotOversold db
    → NotOversold (reset_rows a max require db)
unfolding reset_rows reset_binding may_reset
reset_rows-NotOversold a max require db w =
    All-update Within Within _ _
      (λ r h q. let z : r.reserved_transactions ≡ 0 = ground arith in rw z (InLimit-zero _))
      (λ r q. q) db.bindings w

-- An upsert that leaves the limit of an old binding alone.
pub upsert_binding-NotOversold :
    (input : BindingInput) (db db' : Database)
    → upsert_binding input db ≡ ok db'
    → (exists (at_address input.address) db.bindings ≡ true → input.max_transactions ≡ none)
    → NotOversold db
    → NotOversold db'
unfolding upsert_binding patch_binding new_binding
upsert_binding-NotOversold input db db' e keeps w =
    elim (Bool-cases (limit_out_of_range input.max_transactions)) [
      | inl bad ↦ absurd (ground arith)
      | inr fine ↦ elim (Bool-cases (exists (at_address input.address) db.bindings)) [
        | inl old ↦
            let e' : record db {
              bindings = update (at_address input.address) (patch_binding input) db.bindings;
            }
                ≡ db' =
              ground arith in
            rw (← e')
              (All-update Within Within _ _ (λ r h q. rw (keeps old) q) (λ r q. q) db.bindings w)
        | inr new ↦
            let e' : record db { bindings = insert (new_binding input) db.bindings } ≡ db' =
              ground arith in
            rw (← e') (All-insert Within (new_binding input) db.bindings (InLimit-zero _) w)
      ]
    ]

pub reset_binding_usage-NotOversold :
    (a : Address) (max : Option (Option ℤ)) (require : Bool) (db : Database)
    (answer : Option Binding × Database)
    → reset_binding_usage a max require db ≡ ok answer
    → NotOversold db
    → NotOversold answer.1
unfolding reset_binding_usage
reset_binding_usage-NotOversold a max require db answer e w =
    elim (Bool-cases (limit_out_of_range max)) [
      | inl bad ↦ absurd (ground arith)
      | inr fine ↦
          let e' : reset_rows a max require db ≡ answer.1 = ground arith in
          rw (← e') (reset_rows-NotOversold a max require db w)
    ]

pub set_binding_enabled-NotOversold :
    (a : Address) (on : Bool) (db : Database)
    → NotOversold db
    → NotOversold (set_binding_enabled a on db).1
unfolding set_binding_enabled
set_binding_enabled-NotOversold a on db w =
    All-update Within Within _ _ (λ r h q. q) (λ r q. q) db.bindings w

pub begin_request-NotOversold :
    (t : Transaction) (now : Time) (db : Database)
    → NotOversold db
    → NotOversold (begin_request t now db).1
unfolding begin_request
begin_request-NotOversold t now db w = elim (Bool-cases (exists (of_tx t.tx_id) db.requests)) [
  | inl old ↦ rw old w
  | inr new ↦ rw new w
]

bindings-finish_outcome :
    (o : Outcome) (now : Time) (db : Database) → (finish_outcome o now db).bindings ≡ db.bindings
unfolding finish_outcome drop_claims_of release_active_leases
bindings-finish_outcome o now db = elim (Bool-cases o.is_accepted) [ inl e ↦ rw e | inr e ↦ rw e ]

pub record_broadcast_outcome-NotOversold :
    (o : Outcome) (now : Time) (db : Database)
    → Owns o.owner_address o.tx_id db
    → Balanced db
    → NotOversold db
    → NotOversold (record_broadcast_outcome o now db)
unfolding record_broadcast_outcome write_outcome
record_broadcast_outcome-NotOversold o now db owns v w =
    rw (bindings-finish_outcome o now (write_outcome o now (settle_outcome o db)))
      (settle_outcome-NotOversold o db owns v w)
