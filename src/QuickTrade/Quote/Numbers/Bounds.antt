-- ===== src/QuickTrade/Quote/Numbers/Bounds.antt =====
-- What the arithmetic of a quote keeps within its bounds.
use venuewire.Prelude.{ℕ, ◌+◌, ◌-◌, ◌<◌, ◌≡◌, refl, inl, inr, Text, codes, same, Bool-cases, arith}
use native.Mathlib.Nat.{mul-pos}
use venuewire.Prelude.Ratio.{
  Ratio, whole, ◌≤R◌, mul, add, quo, floor, ceil, ≤R_refl, ≤R_trans, mul-≤R, mul_assoc-≤R, quo-mul,
  mul-quo, floor-≤R, ≤R-ceil,
}
use venuewire.QuickTrade.Quote.Types.{Side, buy, sell}
use venuewire.QuickTrade.Quote.Numbers.{
  floor_to_step, ceil_to_step, basis_points, protected_limit, with_fee, maximum_base_quantity,
  source_debit_upper_bound,
}

pub floor_to_step-≤R : (v s : Ratio) → 0 < s.num → floor_to_step v s ≤R v
unfolding floor_to_step
floor_to_step-≤R v s h =
    ≤R_trans (mul (whole (floor (quo v s))) s) (mul (quo v s) s) v
      (mul-≤R (whole (floor (quo v s))) (quo v s) s (floor-≤R (quo v s))) (quo-mul v s h)

pub ≤R-ceil_to_step : (v s : Ratio) → 0 < s.num → v ≤R ceil_to_step v s
unfolding ceil_to_step
≤R-ceil_to_step v s h =
    ≤R_trans v (mul (quo v s) s) (mul (whole (ceil (quo v s))) s) (mul-quo v s h)
      (mul-≤R (quo v s) (whole (ceil (quo v s))) s (≤R-ceil (quo v s)))

with_fee_pos : (c : Text) (rate v : Ratio) → 0 < v.num → 0 < (with_fee c rate v).num
unfolding with_fee mul add whole
with_fee_pos c rate v h = elim (Bool-cases (same c (codes "from"))) [
  | inl from ↦ rw from (mul-pos h (omega (arith, rate.den_pos)))
  | inr other ↦ rw other h
]

with_fee-mul :
    (c : Text) (rate q v : Ratio) → with_fee c rate (mul q v) ≤R mul q (with_fee c rate v)
unfolding with_fee
with_fee-mul c rate q v = elim (Bool-cases (same c (codes "from"))) [
  | inl from ↦ rw from (mul_assoc-≤R q v (add (whole 1) rate))
  | inr other ↦ rw other (≤R_refl (mul q v))
]

with_fee-one : (c : Text) (rate q : Ratio) → with_fee c rate q ≤R mul q (with_fee c rate (whole 1))
unfolding with_fee mul whole add
with_fee-one c rate q = elim (Bool-cases (same c (codes "from"))) [
  | inl from ↦ rw from (omega arith)
  | inr other ↦ rw other (omega arith)
]

-- The most that can be bought with a budget, at a price, costs no more than the budget.
cost-≤R :
    (spend price step : Ratio)
    → 0 < price.num
    → 0 < step.num
    → mul (floor_to_step (quo spend price) step) price ≤R spend
cost-≤R spend price step p s =
    ≤R_trans (mul (floor_to_step (quo spend price) step) price) (mul (quo spend price) price) spend
      (mul-≤R (floor_to_step (quo spend price) step) (quo spend price) price
        (floor_to_step-≤R (quo spend price) step s))
      (quo-mul spend price p)

-- A buyer's limit is what the division is by.
abbrev pub IsPriced : Side → Ratio → Type 0
IsPriced buy limit = 0 < limit.num
IsPriced sell limit = Unit

-- The largest amount that the order for a budget can take from the source, the fee on top where it
-- is charged there, is within the budget.
pub source_debit_upper_bound-≤R :
    (side : Side) (spend limit step rate : Ratio) (charge_asset : Text)
    → IsPriced side limit
    → 0 < step.num
    → source_debit_upper_bound side
        (maximum_base_quantity side spend limit step charge_asset rate)
        limit
        charge_asset
        rate
      ≤R spend
unfolding source_debit_upper_bound maximum_base_quantity
source_debit_upper_bound-≤R buy spend limit step rate c l s =
    let price = with_fee c rate limit in
    let q = floor_to_step (quo spend price) step in
    ≤R_trans (with_fee c rate (mul q limit)) (mul q price) spend (with_fee-mul c rate q limit)
      (cost-≤R spend price step (with_fee_pos c rate limit l) s)
source_debit_upper_bound-≤R sell spend limit step rate c l s =
    let price = with_fee c rate (whole 1) in
    let q = floor_to_step (quo spend price) step in
    let one_pos : 0 < (whole 1).num = unfold whole in omega arith in
    ≤R_trans (with_fee c rate q) (mul q price) spend (with_fee-one c rate q)
      (cost-≤R spend price step (with_fee_pos c rate (whole 1) one_pos) s)

-- Within the protection: a buyer pays at most so many basis points above the best ask, a seller
-- takes at least so many below the best bid.
abbrev pub IsProtected : Side → Ratio → Ratio → ℕ → Ratio → Type 0
IsProtected buy bid ask bps limit = limit ≤R mul ask (basis_points (10000 + bps))
IsProtected sell bid ask bps limit = mul bid (basis_points (10000 - bps)) ≤R limit

pub protected_limit-IsProtected :
    (side : Side) (bid ask tick : Ratio) (bps : ℕ)
    → 0 < tick.num
    → IsProtected side bid ask bps (protected_limit side bid ask tick bps)
unfolding protected_limit
protected_limit-IsProtected buy bid ask tick bps h =
    floor_to_step-≤R (mul ask (basis_points (10000 + bps))) tick h
protected_limit-IsProtected sell bid ask tick bps h =
    ≤R-ceil_to_step (mul bid (basis_points (10000 - bps))) tick h

-- The price is a whole number of ticks.
pub IsTicks : Ratio → Ratio → Type 0
IsTicks price tick = (k : ℕ) × (price ≡ mul (whole k) tick)

pub protected_limit-IsTicks :
    (side : Side) (bid ask tick : Ratio) (bps : ℕ)
    → IsTicks (protected_limit side bid ask tick bps) tick
unfolding protected_limit floor_to_step ceil_to_step IsTicks
protected_limit-IsTicks buy bid ask tick bps = (_, refl)
protected_limit-IsTicks sell bid ask tick bps = (_, refl)

pub maximum_base_quantity-IsTicks :
    (side : Side) (spend limit step rate : Ratio) (c : Text)
    → IsTicks (maximum_base_quantity side spend limit step c rate) step
unfolding maximum_base_quantity floor_to_step IsTicks
maximum_base_quantity-IsTicks buy spend limit step rate c = (_, refl)
maximum_base_quantity-IsTicks sell spend limit step rate c = (_, refl)
