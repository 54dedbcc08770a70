-- ===== src/Resources/Rental/Delivery.antt =====
-- The wait for the energy of an order in `rentExternalEnergy` of src/resource-service.ts ends.
use catfee_io.Base.{
  ℕ, zero, suc, ◌+◌, ◌≤◌, ◌<◌, Bool, true, false, Option, none, ◌≡◌, ◌⊎◌, inl, inr, refl, arith,
  ltb,
}
use catfee_io.Base.Int.{ℤ, ◌≤ℤ◌, leb_ℤ}
use catfee_io.Base.Results.{Result, ok, err}
use catfee_io.Base.Effects.{Effect}
use catfee_io.Base.Triples.{
  Triple, Post, bind, ignore-Triple, when-Triple, return-Triple, throw-Triple, any_Triple,
  if-Triple,
}
use catfee_io.Store.{Time, Order}
use catfee_io.Failures.{
  Failure, paid, energy_provider_confirm_timeout, energy_provider_confirmation_unavailable,
}
use catfee_io.Gateway.Requests.{Transaction, Requirement}
use catfee_io.Resources.{Options}
use catfee_io.Resources.World.{Node, Session}
use catfee_io.Resources.Survey.{Survey}
use catfee_io.Resources.Rental.{
  poll, take_turn, record_arrival, mark_delivered, give_up, highest_of, wait_for_energy,
  await_delivery, confirmation_target,
}

-- Every turn of the loop comes at least a millisecond after the one before, and the first no earlier
-- than the order's answer: what `setTimeout` and the clock give.
abbrev pub Ticks : Node → Type 0
Ticks n = (n.confirm_from ≤ n.poll_time 0) × ((k : ℕ) → n.poll_time k < n.poll_time (suc k))

-- Before the deadline one poll read at least the energy aimed at.
abbrev pub IsDelivered : Node → ℤ → Time → Type 0
IsDelivered n target deadline =
    (turn : ℕ) × (available : ℤ) × (poll n turn ≡ ok available)
    × (target ≤ℤ available)
    × (n.poll_time turn < deadline)

-- The two ends of a loop that timed out.
abbrev pub IsTimeout : Failure → Type 0
IsTimeout e =
    (e ≡ paid energy_provider_confirm_timeout) ⊎ (e ≡ paid energy_provider_confirmation_unavailable)

module _ (n : Node) (t : Transaction) (target : ℤ) (deadline : Time) where
  abbrev Waits : Effect Session Failure Bool → Type 0
  Waits m =
      Triple (λ _. Unit) m (λ b _. (b ≡ true) × IsDelivered n target deadline) (λ e _. IsTimeout e)

  give_up-Waits : (has_failed : Bool) → Waits (give_up n t has_failed)
  unfolding give_up
  give_up-Waits true = bind (ignore-Triple any_Triple) λ _. throw-Triple _ (λ s p. inr refl)
  give_up-Waits false = bind (ignore-Triple any_Triple) λ _. throw-Triple _ (λ s p. inl refl)

  record_arrival-Waits :
      (turn : ℕ) (available : ℤ) (highest : Option ℤ)
      → Triple
          (λ _. Unit)
          (record_arrival n t turn available highest)
          (λ _ _. Unit)
          (λ e _. IsTimeout e)
  unfolding record_arrival
  record_arrival-Waits turn available highest =
      when-Triple _ (λ _. ignore-Triple any_Triple) (λ _ s p. tt)

  take_turn-Waits :
      (turn : ℕ) (highest : Option ℤ) (go_on : Option ℤ → Bool → Effect Session Failure Bool)
      (r : Result Failure ℤ)
      → n.poll_time turn < deadline
      → poll n turn ≡ r
      → ((h : Option ℤ) (f : Bool) → Waits (go_on h f))
      → Waits (take_turn n t target turn highest go_on r)
  unfolding take_turn mark_delivered
  take_turn-Waits turn highest go_on (err e) early er waits = waits highest true
  take_turn-Waits turn highest go_on (ok available) early er waits =
      bind (record_arrival-Waits turn available highest) λ _.
        if-Triple (leb_ℤ target available)
          (λ enough.
            bind (ignore-Triple any_Triple)
              λ _. return-Triple _ (λ s p. (refl, (turn, available, er, ground arith, early))))
          (λ _. waits (highest_of available highest) false)

  loop :
      ((k : ℕ) → n.poll_time k < n.poll_time (suc k))
      → (fuel turn : ℕ) (highest : Option ℤ) (has_failed : Bool) → 0 < fuel
      → deadline < fuel + n.poll_time turn
      → Waits (wait_for_energy fuel n t target deadline turn highest has_failed)
  unfolding wait_for_energy
  loop ticks zero turn highest has_failed some_fuel enough = absurd (omega arith)
  loop ticks (suc fuel) turn highest has_failed some_fuel enough =
      if-Triple (ltb (n.poll_time turn) deadline)
        (λ early.
          take_turn-Waits turn highest _ (poll n turn) (ground arith) refl
            λ h f. loop ticks fuel (suc turn) h f (ground arith) (omega (arith, ticks turn)))
        (λ _. give_up-Waits has_failed)

-- With a clock that goes on between the polls, the wait for the energy of an order ends before its fuel
-- does: it answers true, and a poll before the deadline read the energy aimed at, or the wait throws that
-- it timed out.
pub await_delivery-terminates :
    (n : Node) (o : Options) (t : Transaction) (q : Requirement) (v : Survey) (order : Order)
    (s : Session)
    → Ticks n
    → Post
        (λ b _.
          (b ≡ true)
          × IsDelivered n
              (confirmation_target o q v order)
              (n.confirm_from + o.provider_confirm_timeout_ms))
        (λ e _. IsTimeout e)
        (await_delivery n o t q v order s)
unfolding await_delivery
await_delivery-terminates n o t q v order s ticks =
    (loop n t (confirmation_target o q v order) (n.confirm_from + o.provider_confirm_timeout_ms)
        ticks.1 (suc o.provider_confirm_timeout_ms) 0 none false (omega arith)
        (omega (arith, ticks.0))).run
      s tt
