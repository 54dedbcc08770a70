-- ===== src/Providers/Matching.antt =====
-- The ledger and the orders of src/providers/repository.ts agree: a reservation stands exactly while its
-- order is in ORDERING at its provider.
use mathlib.Core.Path.{subst₂}
use catfee_io.Base.{
  ℕ, suc, ◌≤◌, ◌≡◌, Bool, true, false, some, List, refl, sym, ◌∙◌, arith, inl, inr, Option-cases,
  Bool-cases, ◌==◌, ◌&&◌,
}
use catfee_io.Table.{update, insert, exists, select, count}
use catfee_io.Table.Laws.{
  sum-insert, sum-update_le, sum-update_same, sum-update_one, sum-update_clear, sum-update_outside,
  select-sum-le, sum_mono, select-stronger, select-passes, exists-count, select-count,
}
use catfee_io.Store.{Order, LedgerEntry, LedgerState, Provider, charged, Time, TxId, Address}
use catfee_io.Providers.Orders.{
  reservation, reserves_for, at_attempt, is_reserved, is_ordering, may_attempt, enter_ordering,
  new_order,
}
use catfee_io.Providers.Settle.{is_interrupted, interrupt_order}

abbrev pub has_id : ℕ → Order → Bool
has_id i o = o.id == i

-- A reservation whose order is in ORDERING at its provider is one that a recovery charges.
is_interrupted_lem :
    (os : List Order) (i p : ℕ) (l : LedgerEntry)
    → reserves_for i p l ≡ true
    → exists (at_attempt i p) os ≡ true
    → is_interrupted os l ≡ true
unfolding is_interrupted
is_interrupted_lem os i p l h e =
    let ei : l.order_id ≡ i = ground arith in
    let ep : l.provider_id ≡ p = ground arith in
    let here : exists (at_attempt l.order_id l.provider_id) os ≡ true =
      subst₂ (λ a b. exists (at_attempt a b) os ≡ true) (sym ei) (sym ep) e in
    ground arith

-- One order to an id, none at an id not yet given out, and for each order and provider as many
-- reservations as orders in ORDERING there.
pub record IsMatched (next_id : ℕ) (orders : List Order) (ledger : List LedgerEntry) : Type 0 where
  pub one_order : (i : ℕ) → count (has_id i) orders ≤ 1
  pub fresh : (i : ℕ) → next_id ≤ i → count (has_id i) orders ≡ 0
  pub matched : (i p : ℕ) → count (reserves_for i p) ledger ≡ count (at_attempt i p) orders

module _ {n : ℕ} {os : List Order} {ls : List LedgerEntry} (v : IsMatched n os ls) where
  at_attempt-one : (i p : ℕ) → count (at_attempt i p) os ≤ 1
  at_attempt-one i p =
      omega (
        arith,
        v.one_order i,
        sum_mono (at_attempt i p) (has_id i) (λ _. 1) (λ r h. ground arith) os,
      )

  pub insert_order-IsMatched :
      (t : TxId) (a : Address) (amount : ℕ)
      → IsMatched (suc n) (insert (new_order n t a amount) os) ls
  insert_order-IsMatched t a amount =
      let o = new_order n t a amount in
      record {
        one_order = λ i.
            ground
              (arith, v.one_order i, v.fresh n (omega arith), sum-insert (has_id i) (λ _. 1) o os);
        fresh = λ i h. ground (arith, v.fresh i, sum-insert (has_id i) (λ _. 1) o os);
        matched = λ i p. ground (arith, v.matched i p, sum-insert (at_attempt i p) (λ _. 1) o os);
      }

  pub update_orders-IsMatched :
      (w : Order → Bool) (f : Order → Order)
      → ((o : Order) → (f o).id ≡ o.id)
      → ((o : Order) → w o ≡ true → is_ordering o.state ≡ false)
      → ((o : Order) → is_ordering (f o).state ≡ false)
      → IsMatched n (update w f os) ls
  update_orders-IsMatched w f hi ho hf = record {
    one_order = λ i. omega (
      arith,
      v.one_order i,
      sum-update_same w (has_id i) f (λ _. 1) (λ o. ground (arith, hi o)) (λ _. refl) os,
    );
    fresh = λ i h. omega (
      arith,
      v.fresh i h,
      sum-update_same w (has_id i) f (λ _. 1) (λ o. ground (arith, hi o)) (λ _. refl) os,
    );
    matched = λ i p.
        v.matched i p
        ∙ sym (
            sum-update_outside w (at_attempt i p) f (λ _. 1) (λ o h. ground (arith, ho o h))
              (λ o. ground (arith, hf o)) os);
  }

  -- A new reservation, with the order moved into ORDERING.
  pub reserve-IsMatched :
      (o : Order) (p : Provider) (day amount : ℕ) (now : Time)
      → select (has_id o.id) os ≡ some o
      → may_attempt o.state ≡ true
      → IsMatched n
          (update (λ x. x.id == o.id && may_attempt x.state) (enter_ordering p amount now) os)
          (insert (reservation day o.id p.id amount) ls)
  unfolding enter_ordering
  reserve-IsMatched o p day amount now e may = record {
    one_order = λ i. omega (
      arith,
      v.one_order i,
      sum-update_same _ (has_id i) (enter_ordering p amount now) (λ _. 1) (λ x. refl) (λ _. refl)
          os,
    );
    fresh = λ i h. omega (
      arith,
      v.fresh i h,
      sum-update_same _ (has_id i) (enter_ordering p amount now) (λ _. 1) (λ x. refl) (λ _. refl)
          os,
    );
    matched = λ i q. ground (
      arith,
      v.matched i q,
      sum-insert (reserves_for i q) (λ _. 1) (reservation day o.id p.id amount) ls,
      sum-update_one w (at_attempt i q) (enter_ordering p amount now) (λ _. 1) os at_o one_w,
    );
  }
    where
      w : Order → Bool
      w x = x.id == o.id && may_attempt x.state

      at_o : select w os ≡ some o
      at_o = select-stronger (has_id o.id) w (λ r h. ground arith) os e (ground (arith, may))

      one_w : count w os ≤ 1
      one_w =
          omega
            (arith, v.one_order o.id, sum_mono w (has_id o.id) (λ _. 1) (λ r h. ground arith) os)

  -- A reservation that is charged or released, with its order moved out of ORDERING.
  pub transition-IsMatched :
      (i p : ℕ) (o : Order) (s : LedgerState) (f : Order → Order)
      → select (at_attempt i p) os ≡ some o
      → ((x : Order) → (f x).id ≡ x.id)
      → is_ordering (f o).state ≡ false
      → is_reserved s ≡ false
      → IsMatched n
          (update (at_attempt i p) f os)
          (update (reserves_for i p) (λ l. record l { state = s }) ls)
  transition-IsMatched i p o s f e hi hf hs = record {
    one_order = λ j. omega (
      arith,
      v.one_order j,
      sum-update_same (at_attempt i p) (has_id j) f (λ _. 1) (λ x. ground (arith, hi x)) (λ _. refl)
          os,
    );
    fresh = λ j h. omega (
      arith,
      v.fresh j h,
      sum-update_same (at_attempt i p) (has_id j) f (λ _. 1) (λ x. ground (arith, hi x)) (λ _. refl)
          os,
    );
    matched = λ j q. elim (Option-cases (select (reserves_for i p) ls)) [
      | inl absent ↦
          absurd
            (ground (arith, v.matched i p, some_order, select-count (reserves_for i p) ls absent))
      | inr (l, el) ↦ ground (
        arith,
        v.matched j q,
        v.matched i p,
        at_attempt-one i p,
        hs,
        hf,
        select-passes (reserves_for i p) ls el,
        select-passes (at_attempt i p) os e,
        sum-update_one (at_attempt i p) (at_attempt j q) f (λ _. 1) os e (at_attempt-one i p),
        sum-update_one (reserves_for i p) (reserves_for j q) (λ l. record l { state = s }) (λ _. 1)
            ls el one_reservation,
      )
    ];
  }
    where
      some_order : 1 ≤ count (at_attempt i p) os
      some_order =
          select-sum-le (at_attempt i p) (at_attempt i p) (λ _. 1) os e
            (select-passes (at_attempt i p) os e)

      one_reservation : count (reserves_for i p) ls ≤ 1
      one_reservation = omega (arith, v.matched i p, at_attempt-one i p)

  -- Under the invariant a transition never fails on the ledger: there is exactly one reservation.
  pub transition-reservation :
      (i p : ℕ) (o : Order) → select (at_attempt i p) os ≡ some o → count (reserves_for i p) ls ≡ 1
  transition-reservation i p o e = omega (
    arith,
    v.matched i p,
    at_attempt-one i p,
    select-sum-le (at_attempt i p) (at_attempt i p) (λ _. 1) os e
        (select-passes (at_attempt i p) os e),
  )

  -- After a recovery no order is in ORDERING and no reservation is left.
  pub recover-IsMatched :
      (now : Time)
      → IsMatched n
          (update (λ o. is_ordering o.state) (interrupt_order now) os)
          (update (is_interrupted os) (λ l. record l { state = charged }) ls)
  unfolding interrupt_order
  recover-IsMatched now = record {
    one_order = λ i. omega (
      arith,
      v.one_order i,
      sum-update_same _ (has_id i) (interrupt_order now) (λ _. 1) (λ x. refl) (λ _. refl) os,
    );
    fresh = λ i h. omega (
      arith,
      v.fresh i h,
      sum-update_same _ (has_id i) (interrupt_order now) (λ _. 1) (λ x. refl) (λ _. refl) os,
    );
    matched = λ i p. no_reservation i p ∙ sym (no_order i p);
  }
    where
      no_order :
          (i p : ℕ)
          → count (at_attempt i p) (update (λ o. is_ordering o.state) (interrupt_order now) os) ≡ 0
      no_order i p =
          sum-update_clear (λ o. is_ordering o.state) (at_attempt i p) (interrupt_order now)
            (λ _. 1) (λ o h. ground arith) (λ o. ground arith) os

      no_reservation :
          (i p : ℕ)
          → count
              (reserves_for i p)
              (update (is_interrupted os) (λ l. record l { state = charged }) ls)
            ≡ 0
      no_reservation i p = elim (Bool-cases (exists (at_attempt i p) os)) [
        | inl some_order ↦
            sum-update_clear (is_interrupted os) (reserves_for i p)
              (λ l. record l { state = charged }) (λ _. 1)
              (λ l h. ground (arith, is_interrupted_lem os i p l)) (λ l. ground arith) ls
        | inr none_order ↦ omega (
          arith,
          v.matched i p,
          exists-count (at_attempt i p) os none_order,
          sum-update_le (is_interrupted os) (reserves_for i p) (λ l. record l { state = charged })
              (λ _. 1) (λ l h k. ground arith) (λ _. refl) ls,
        )
      ]
