-- ===== src/Resources/Rental/Following.antt =====
-- What follows an order in `rentExternalEnergy` of src/resource-service.ts makes no rental.
use catfee_io.Base.{ℕ, zero, suc, ◌+◌, Bool, true, false, Option, none, List, ltb, is_some}
use catfee_io.Base.Int.{ℤ, leb_ℤ}
use catfee_io.Base.Results.{Result, ok, err}
use catfee_io.Base.Effects.{Effect}
use catfee_io.Base.Triples.{
  Keeps, bind, throw-Triple, return-Triple, if-Triple, when-Triple, attempt-Triple, ignore-Triple,
}
use catfee_io.Store.{Order, Time}
use catfee_io.Failures.{Failure}
use catfee_io.Gateway.Requests.{Transaction, Requirement}
use catfee_io.Service.{
  RentOutcome, OrderError, OrderResult, potentially_charged, conflict, invalid_input, store_error,
}
use catfee_io.Resources.{Options}
use catfee_io.Resources.World.{Node, Session}
use catfee_io.Resources.World.Calls.{call-Keeps}
use catfee_io.Resources.Survey.{Survey}
use catfee_io.Resources.Rental.Package.{follow_order}
use catfee_io.Resources.Rental.{
  consume_potentially_charged_quota, record_attempt, await_delivery, is_ordered, may_be_charged,
  take_turn, record_arrival, mark_delivered, give_up, wait_for_energy, poll, is_higher, order_of,
  confirmation_target,
}

module _ (n : Node) (t : Transaction) (P : List RentOutcome → Type 0) where
  abbrev Same : Session → Type 0
  Same s = P s.rentals

  consume-Keeps : Keeps Same (consume_potentially_charged_quota n t)
  unfolding consume_potentially_charged_quota
  consume-Keeps =
      attempt-Triple (call-Keeps n _ _ (λ s a db p e. p)) (λ e. throw-Triple _ (λ s p. p))

  record_attempt-Keeps : (order : Order) → Keeps Same (record_attempt n t order)
  unfolding record_attempt
  record_attempt-Keeps order =
      when-Triple (is_some order.provider_id)
        (λ _. ignore-Triple (call-Keeps n _ _ (λ s a db p e. p))) (λ _ s p. p)

  record_arrival-Keeps :
      (turn : ℕ) (available : ℤ) (highest : Option ℤ)
      → Keeps Same (record_arrival n t turn available highest)
  unfolding record_arrival
  record_arrival-Keeps turn available highest =
      when-Triple (is_higher available highest)
        (λ _. ignore-Triple (call-Keeps n _ _ (λ s a db p e. p))) (λ _ s p. p)

  mark_delivered-Keeps : Keeps Same (mark_delivered n t)
  unfolding mark_delivered
  mark_delivered-Keeps = ignore-Triple (call-Keeps n _ _ (λ s a db p e. p))

  give_up-Keeps : (has_failed : Bool) → Keeps Same (give_up n t has_failed)
  unfolding give_up
  give_up-Keeps has_failed =
      bind (ignore-Triple (call-Keeps n _ _ (λ s a db p e. p))) λ _. throw-Triple _ (λ s p. p)

  take_turn-Keeps :
      (target : ℤ) (turn : ℕ) (highest : Option ℤ)
      (go_on : Option ℤ → Bool → Effect Session Failure Bool) (r : Result Failure ℤ)
      → ((h : Option ℤ) (f : Bool) → Keeps Same (go_on h f))
      → Keeps Same (take_turn n t target turn highest go_on r)
  unfolding take_turn
  take_turn-Keeps target turn highest go_on (err e) goes = goes highest true
  take_turn-Keeps target turn highest go_on (ok available) goes =
      bind (record_arrival-Keeps turn available highest) λ _.
        if-Triple (leb_ℤ target available)
          (λ _. bind mark_delivered-Keeps λ _. return-Triple true (λ s p. p)) (λ _. goes _ false)

  wait_for_energy-Keeps :
      (fuel : ℕ) (target : ℤ) (deadline : Time) (turn : ℕ) (highest : Option ℤ) (f : Bool)
      → Keeps Same (wait_for_energy fuel n t target deadline turn highest f)
  unfolding wait_for_energy
  wait_for_energy-Keeps zero target deadline turn highest f = throw-Triple _ (λ s p. p)
  wait_for_energy-Keeps (suc fuel) target deadline turn highest f =
      if-Triple (ltb (n.poll_time turn) deadline)
        (λ _.
          take_turn-Keeps target turn highest _ (poll n turn)
            (wait_for_energy-Keeps fuel target deadline (suc turn)))
        (λ _. give_up-Keeps f)

  module _ (o : Options) (q : Requirement) (v : Survey) where
    await_delivery-Keeps : (order : Order) → Keeps Same (await_delivery n o t q v order)
    unfolding await_delivery
    await_delivery-Keeps order =
        wait_for_energy-Keeps (suc o.provider_confirm_timeout_ms) (confirmation_target o q v order)
          (n.confirm_from + o.provider_confirm_timeout_ms) 0 none false

    pub follow_order-Keeps :
        (answer : Result OrderError OrderResult) → Keeps Same (follow_order n o t q v answer)
    unfolding follow_order
    follow_order-Keeps (err potentially_charged) = bind consume-Keeps λ _. throw-Triple _ (λ s p. p)
    follow_order-Keeps (err conflict) = throw-Triple _ (λ s p. p)
    follow_order-Keeps (err invalid_input) = throw-Triple _ (λ s p. p)
    follow_order-Keeps (err (store_error e)) = throw-Triple _ (λ s p. p)
    follow_order-Keeps (ok r) =
        bind (when-Triple {Q = Same} (may_be_charged r) (λ _. consume-Keeps) (λ _ s d. d)) λ _.
          bind (record_attempt-Keeps (order_of r)) λ _.
            if-Triple (is_ordered r) (λ _. await_delivery-Keeps (order_of r))
              (λ _. throw-Triple _ (λ s p. p))
