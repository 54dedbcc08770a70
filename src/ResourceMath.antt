-- ===== src/ResourceMath.antt =====
-- src/resource-math.ts: how much of a resource an account has, what a requirement costs, and how
-- much stake covers a deficit. A `bigint` is an integer here; an answer of the node is a function
-- from the keys that the code reads to what stands there.
pub mod Bounds
use catfee_io.Base.{ℕ, ◌*◌, ◌≡◌, List, if◌then◌else◌, length, ◌+◌}
use catfee_io.Base.Int.{ℤ, pos, pos_part, ◌+ℤ◌, ◌-ℤ◌, ◌*ℤ◌, ltb_ℤ, leb_ℤ, quot_pos}
use catfee_io.Base.Results.{Result, ok, err, ◌>>=◌, ◌>>◌, throw_if}

pub data ResourceType : Type 0 where
  energy bandwidth : ResourceType

-- The keys of `AccountResource` that are read, in the order of the source.
pub data Key : Type 0 where
  energy_limit energy_used net_limit net_used free_net_limit free_net_used balance : Key
  total_energy_limit total_net_limit total_energy_weight total_net_weight : Key

-- What `record[key]` is: one of the three values that count as zero, a text or number that `BigInt`
-- reads, or one that it refuses.
pub data Value : Type 0 where
  undefined null empty_text malformed : Value
  integer : ℤ → Value

abbrev pub AccountResource : Type 0
AccountResource = Key → Value

pub data MathError : Type 0 where
  not_an_integer bandwidth_bytes_not_positive unit_price_not_positive invalid_global_limit :
      MathError

-- `readBigInt`
unfoldable pub read_big_int : AccountResource → Key → Result MathError ℤ
read_big_int r k = elim (r k) [
  | undefined ↦ ok (pos 0)
  | null ↦ ok (pos 0)
  | empty_text ↦ ok (pos 0)
  | malformed ↦ err not_an_integer
  | integer v ↦ ok v
]

-- `nonNegative`
unfoldable pub non_negative : ℤ → ℤ
non_negative v = if ltb_ℤ (pos 0) v then v else pos 0

-- `divideRoundUp`, by a positive denominator
unfoldable pub divide_round_up : ℤ → ℕ → ℤ
unfolding ◌+ℤ◌ ◌-ℤ◌ quot_pos
divide_round_up numerator denominator = quot_pos (numerator +ℤ pos denominator -ℤ pos 1) denominator

unfoldable pub apply_safety_basis_points : ℤ → ℕ → ℤ
unfolding divide_round_up ◌*ℤ◌
apply_safety_basis_points value basis_points = divide_round_up (value *ℤ pos basis_points) 10_000

pub record Buckets : Type 0 where
  pub staked : ℤ
  pub free : ℤ

-- `bandwidthBuckets`
unfoldable pub bandwidth_buckets : AccountResource → Result MathError Buckets
unfolding read_big_int non_negative ◌-ℤ◌
bandwidth_buckets r = do
  net_l ← read_big_int r net_limit
  net_u ← read_big_int r net_used
  free_l ← read_big_int r free_net_limit
  free_u ← read_big_int r free_net_used
  ok (record { staked = non_negative (net_l -ℤ net_u); free = non_negative (free_l -ℤ free_u) })

unfoldable pub available_resource : AccountResource → ResourceType → Result MathError ℤ
unfolding read_big_int non_negative ◌-ℤ◌
available_resource r energy = do
  limit ← read_big_int r energy_limit
  used ← read_big_int r energy_used
  ok (non_negative (limit -ℤ used))
available_resource r bandwidth = do
  b ← bandwidth_buckets r
  ok (if ltb_ℤ b.free b.staked then b.staked else b.free)

pub data PaymentSource : Type 0 where
  staked_source free_source trx_source : PaymentSource

pub record PaymentPlan : Type 0 where
  pub required_bytes : ℤ
  pub staked_available : ℤ
  pub free_available : ℤ
  pub source : PaymentSource
  pub unit_price_sun : ℤ
  pub burn_sun : ℤ

-- The `source` that `planOwnerBandwidthPayment` picks.
unfoldable pub payment_source : ℤ → Buckets → PaymentSource
payment_source required b =
    if leb_ℤ required b.staked
    then staked_source
    else if leb_ℤ required b.free
    then free_source
    else trx_source

-- The burn that it writes down: none for the staked bucket alone.
unfoldable pub planned_burn : PaymentSource → ℤ → ℤ → ℤ
planned_burn staked_source required price = pos 0
planned_burn free_source required price = required *ℤ price
planned_burn trx_source required price = required *ℤ price

unfoldable pub plan_owner_bandwidth_payment : ℤ → AccountResource → ℤ → Result MathError PaymentPlan
plan_owner_bandwidth_payment required r price = do
  throw_if (leb_ℤ required (pos 0)) bandwidth_bytes_not_positive
  throw_if (leb_ℤ price (pos 0)) unit_price_not_positive
  b ← bandwidth_buckets r
  let source = payment_source required b
  ok (record {
    required_bytes = required;
    staked_available = b.staked;
    free_available = b.free;
    source = source;
    unit_price_sun = price;
    burn_sun = planned_burn source required price;
  })

unfoldable pub account_balance_sun : AccountResource → Result MathError ℤ
account_balance_sun r = do b ← read_big_int r balance; ok (non_negative b)

abbrev pub total_limit_key : ResourceType → Key
total_limit_key energy = total_energy_limit
total_limit_key bandwidth = total_net_limit

abbrev pub total_weight_key : ResourceType → Key
total_weight_key energy = total_energy_weight
total_weight_key bandwidth = total_net_weight

abbrev pub sun_per_trx : ℕ
sun_per_trx = 1_000_000

-- The stake that `calculated` and `minimumSun` give.
unfoldable pub stake_for : ℤ → ℤ → ℤ → ℤ → ℤ
unfolding divide_round_up ◌*ℤ◌
stake_for units weight limit minimum =
    let calculated = divide_round_up (units *ℤ weight *ℤ pos sun_per_trx) (pos_part limit) in
    if ltb_ℤ calculated minimum then minimum else calculated

unfoldable pub resource_units_to_stake_sun :
    ℤ → AccountResource → ResourceType → ℤ → Result MathError ℤ
unfolding stake_for read_big_int
resource_units_to_stake_sun units r type minimum = if leb_ℤ units (pos 0) then ok (pos 0) else do
  limit ← read_big_int r (total_limit_key type)
  weight ← read_big_int r (total_weight_key type)
  throw_if (leb_ℤ limit (pos 0)) invalid_global_limit
  throw_if (leb_ℤ weight (pos 0)) invalid_global_limit
  ok (stake_for units weight limit minimum)

unfoldable pub estimate_signed_transaction_bandwidth : List ℕ → ℤ
estimate_signed_transaction_bandwidth bytes = pos (length bytes + 64)
