-- ===== src/Gateway/Accounting.antt =====
-- The books of the quota (src/repository.ts with sql/001_init.sql): what `reserved_transactions` has to
-- say, and that each change of address_bindings and broadcast_requests keeps it true.
pub mod Steps
pub mod Limits
pub mod Reach
pub mod Once
use catfee_io.Base.{
  ℕ, ◌+◌, ◌≤◌, ◌≡◌, Bool, true, false, List, ◌==◌, ◌&&◌, some, refl, arith, ==_eq, Option-cases,
  inl, inr, if◌then◌else◌,
}
use catfee_io.Table.{update, delete, insert, exists, select, sum, count}
use catfee_io.Table.Laws.{
  sum-insert, exists-count, select-count, select-passes, update-none, sum-update_same,
  sum-update_one, sum-delete_le, sum-delete_same, select-sum-le, select-sum-none, select-sum_one,
}
use catfee_io.Store.{Address, TxId, Binding, Request}
use catfee_io.Gateway.Bindings.{at_address}
use catfee_io.Gateway.Requests.{of_tx}
use catfee_io.Gateway.Quota.{settle_binding}

abbrev pub holds_for : Address → Request → Bool
holds_for a r = r.owner_address == a && r.quota_reserved

-- The reservations that the binding of an address shows, and the requests of the address that hold one.
abbrev pub reserved_for : Address → List Binding → ℕ
reserved_for a bs = sum (at_address a) (λ b. b.reserved_transactions) bs

abbrev pub held_by : Address → List Request → ℕ
held_by a rs = count (holds_for a) rs

-- One binding to an address, one request to a transaction, and for every address as many reserved
-- transactions as there are requests that hold quota.
pub record IsAccounted (bs : List Binding) (rs : List Request) : Type 0 where
  pub one_binding : (a : Address) → count (at_address a) bs ≤ 1
  pub one_request : (t : TxId) → count (of_tx t) rs ≤ 1
  pub balanced : (a : Address) → reserved_for a bs ≡ held_by a rs

module _ {bs : List Binding} {rs : List Request} (v : IsAccounted bs rs) where
  pub update_requests-IsAccounted :
      (p : Request → Bool) (f : Request → Request)
      → ((r : Request) → (f r).tx_id ≡ r.tx_id)
      → ((r : Request) → (f r).owner_address ≡ r.owner_address)
      → ((r : Request) → (f r).quota_reserved ≡ r.quota_reserved)
      → IsAccounted bs (update p f rs)
  update_requests-IsAccounted p f ht ho hq = record {
    one_binding = v.one_binding;
    one_request = λ t. omega (
      arith,
      v.one_request t,
      sum-update_same p (of_tx t) f (λ _. 1) (λ r. ground (arith, ht r)) (λ _. refl) rs,
    );
    balanced = λ a. omega (
      arith,
      v.balanced a,
      sum-update_same p (holds_for a) f (λ _. 1) (λ r. ground (arith, ho r, hq r)) (λ _. refl) rs,
    );
  }

  pub insert_request-IsAccounted :
      (r : Request)
      → exists (of_tx r.tx_id) rs ≡ false
      → r.quota_reserved ≡ false
      → IsAccounted bs (insert r rs)
  insert_request-IsAccounted r fresh free = record {
    one_binding = v.one_binding;
    one_request = λ t. ground (
      arith,
      v.one_request t,
      sum-insert (of_tx t) (λ _. 1) r rs,
      exists-count (of_tx r.tx_id) rs,
      ==_eq r.tx_id t,
    );
    balanced = λ a. ground (arith, v.balanced a, sum-insert (holds_for a) (λ _. 1) r rs);
  }

  pub delete_requests-IsAccounted :
      (p : Request → Bool)
      → ((r : Request) → p r ≡ true → r.quota_reserved ≡ false)
      → IsAccounted bs (delete p rs)
  delete_requests-IsAccounted p free = record {
    one_binding = v.one_binding;
    one_request = λ t. omega (arith, v.one_request t, sum-delete_le p (of_tx t) (λ _. 1) rs);
    balanced = λ a. omega (
      arith,
      v.balanced a,
      sum-delete_same p (holds_for a) (λ _. 1) (λ r h. ground (arith, free r h)) rs,
    );
  }

  pub update_bindings-IsAccounted :
      (p : Binding → Bool) (f : Binding → Binding)
      → ((b : Binding) → (f b).address ≡ b.address)
      → ((b : Binding) → (f b).reserved_transactions ≡ b.reserved_transactions)
      → IsAccounted (update p f bs) rs
  update_bindings-IsAccounted p f ha hr = record {
    one_binding = λ a. omega (
      arith,
      v.one_binding a,
      sum-update_same p (at_address a) f (λ _. 1) (λ b. ground (arith, ha b)) (λ _. refl) bs,
    );
    one_request = v.one_request;
    balanced = λ a. omega (
      arith,
      v.balanced a,
      sum-update_same p (at_address a) f (λ b. b.reserved_transactions) (λ b. ground (arith, ha b))
          hr bs,
    );
  }

  pub insert_binding-IsAccounted :
      (b : Binding)
      → exists (at_address b.address) bs ≡ false
      → b.reserved_transactions ≡ 0
      → IsAccounted (insert b bs) rs
  insert_binding-IsAccounted b fresh zero = record {
    one_binding = λ a. ground (
      arith,
      v.one_binding a,
      sum-insert (at_address a) (λ _. 1) b bs,
      exists-count (at_address b.address) bs,
      ==_eq b.address a,
    );
    one_request = v.one_request;
    balanced = λ a.
        ground (arith, v.balanced a, sum-insert (at_address a) (λ c. c.reserved_transactions) b bs);
  }

  -- One more reservation on the binding, and one more request that holds it.
  pub reserve-IsAccounted :
      (a : Address) (t : TxId) (b : Binding) (r : Request) (f : Binding → Binding)
      (h : Request → Request)
      → select (at_address a) bs ≡ some b
      → select (of_tx t) rs ≡ some r
      → r.owner_address ≡ a
      → r.quota_reserved ≡ false
      → ((x : Binding) → (f x).address ≡ x.address)
      → (f b).reserved_transactions ≡ b.reserved_transactions + 1
      → ((x : Request) → (h x).tx_id ≡ x.tx_id)
      → ((x : Request) → (h x).owner_address ≡ x.owner_address)
      → (h r).quota_reserved ≡ true
      → IsAccounted (update (at_address a) f bs) (update (of_tx t) h rs)
  reserve-IsAccounted a t b r f h eb er owner free fa fr ht ho hq = record {
    one_binding = λ x. omega (
      arith,
      v.one_binding x,
      sum-update_same (at_address a) (at_address x) f (λ _. 1) (λ c. ground (arith, fa c))
          (λ _. refl) bs,
    );
    one_request = λ x. omega (
      arith,
      v.one_request x,
      sum-update_same (of_tx t) (of_tx x) h (λ _. 1) (λ c. ground (arith, ht c)) (λ _. refl) rs,
    );
    balanced = λ x. ground (
      arith,
      v.balanced x,
      fa b,
      ho r,
      select-passes (at_address a) bs eb,
      sum-update_one (at_address a) (at_address x) f (λ c. c.reserved_transactions) bs eb
          (v.one_binding a),
      sum-update_one (of_tx t) (holds_for x) h (λ _. 1) rs er (v.one_request t),
    );
  }

  -- One reservation less on the binding, and one request less that holds it.
  pub settle-IsAccounted :
      (a : Address) (t : TxId) (r : Request) (consume : Bool) (h : Request → Request)
      → select (of_tx t) rs ≡ some r
      → r.owner_address ≡ a
      → r.quota_reserved ≡ true
      → ((x : Request) → (h x).tx_id ≡ x.tx_id)
      → ((x : Request) → (h x).owner_address ≡ x.owner_address)
      → (h r).quota_reserved ≡ false
      → IsAccounted (update (at_address a) (settle_binding consume) bs) (update (of_tx t) h rs)
  unfolding settle_binding
  settle-IsAccounted a t r consume h er owner held ht ho hq = record {
    one_binding = λ x. omega (
      arith,
      v.one_binding x,
      sum-update_same (at_address a) (at_address x) (settle_binding consume) (λ _. 1) (λ _. refl)
          (λ _. refl) bs,
    );
    one_request = λ x. omega (
      arith,
      v.one_request x,
      sum-update_same (of_tx t) (of_tx x) h (λ _. 1) (λ c. ground (arith, ht c)) (λ _. refl) rs,
    );
    balanced = λ x. elim (Option-cases (select (at_address a) bs)) [
      | inl absent ↦ absurd (
          ground (
            arith,
            some_held,
            select-sum-none (at_address a) (λ c. c.reserved_transactions) bs absent,
            v.balanced a,
          ))
      | inr (b, eb) ↦ ground (
        arith,
        v.balanced x,
        v.balanced a,
        some_held,
        ho r,
        select-passes (at_address a) bs eb,
        select-sum_one (at_address a) (λ c. c.reserved_transactions) bs eb (v.one_binding a),
        sum-update_one (at_address a) (at_address x) (settle_binding consume)
            (λ c. c.reserved_transactions) bs eb (v.one_binding a),
        sum-update_one (of_tx t) (holds_for x) h (λ _. 1) rs er (v.one_request t),
      )
    ];
  }
    where
      some_held : 1 ≤ held_by a rs
      some_held = select-sum-le (of_tx t) (holds_for a) (λ _. 1) rs er (ground (arith, owner, held))

  -- To clear the flag of a request that holds no quota changes nothing in the books.
  pub clear-IsAccounted :
      (t : TxId) (h : Request → Request)
      → ((r : Request) → select (of_tx t) rs ≡ some r → r.quota_reserved ≡ false)
      → ((x : Request) → (h x).tx_id ≡ x.tx_id)
      → ((x : Request) → (h x).quota_reserved ≡ false)
      → IsAccounted bs (update (of_tx t) h rs)
  clear-IsAccounted t h free ht hq = record {
    one_binding = v.one_binding;
    one_request = λ x. omega (
      arith,
      v.one_request x,
      sum-update_same (of_tx t) (of_tx x) h (λ _. 1) (λ c. ground (arith, ht c)) (λ _. refl) rs,
    );
    balanced = λ x. elim (Option-cases (select (of_tx t) rs)) [
      | inl absent ↦
          rw (update-none (of_tx t) h rs (select-count (of_tx t) rs absent)) (v.balanced x)
      | inr (r, er) ↦ ground (
        arith,
        v.balanced x,
        free r er,
        hq r,
        sum-update_one (of_tx t) (holds_for x) h (λ _. 1) rs er (v.one_request t),
      )
    ];
  }
