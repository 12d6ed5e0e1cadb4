-- ===== src/QuickTrade/Quote/Numbers.antt =====
-- The arithmetic of internal/quicktrade/quote.go.
pub mod Bounds
pub mod Estimate
use venuewire.Prelude.{
  ℕ, zero, suc, ◌+◌, ◌-◌, ◌*◌, ◌/◌, ◌%◌, ◌^◌, Bool, true, false, not, ◌&&◌, List, [], ◌∷◌, ◌++◌,
  leb, ltb, ◌==◌, if◌then◌else◌, Text, codes, same, is_empty,
}
use venuewire.Prelude.Ratio.{
  Ratio, whole, leb_ratio, ltb_ratio, mul, add, sub, quo, floor, ceil, min_ratio,
}
use venuewire.Fix.Decimal.{print_nat}
use venuewire.QuickTrade.Quote.Types.{Side, buy, sell, Level, Book}

-- `floorToStep` and `ceilToStep`, for a positive step.
unfoldable pub floor_to_step : Ratio → Ratio → Ratio
floor_to_step value step = mul (whole (floor (quo value step))) step

unfoldable pub ceil_to_step : Ratio → Ratio → Ratio
ceil_to_step value step = mul (whole (ceil (quo value step))) step

-- `bps / 10_000`, for the numerators `10_000 + bps` and `10_000 - bps`.
unfoldable pub basis_points : ℕ → Ratio
basis_points n = quo (whole n) (whole 10000)

-- `protectedLimit`.
unfoldable pub protected_limit : Side → Ratio → Ratio → Ratio → ℕ → Ratio
unfolding floor_to_step ceil_to_step basis_points
protected_limit buy bid ask tick bps = floor_to_step (mul ask (basis_points (10000 + bps))) tick
protected_limit sell bid ask tick bps = ceil_to_step (mul bid (basis_points (10000 - bps))) tick

-- A number with the fee on top where the fee is charged in the source.
unfoldable pub with_fee : Text → Ratio → Ratio → Ratio
with_fee charge_asset rate value =
    if same charge_asset (codes "from") then mul value (add (whole 1) rate) else value

-- `maximumBaseQuantity`.
unfoldable pub maximum_base_quantity : Side → Ratio → Ratio → Ratio → Text → Ratio → Ratio
unfolding with_fee floor_to_step
maximum_base_quantity buy spend limit step charge_asset rate =
    floor_to_step (quo spend (with_fee charge_asset rate limit)) step
maximum_base_quantity sell spend limit step charge_asset rate =
    floor_to_step (quo spend (with_fee charge_asset rate (whole 1))) step

-- `sourceDebitUpperBound`.
unfoldable pub source_debit_upper_bound : Side → Ratio → Ratio → Text → Ratio → Ratio
unfolding with_fee
source_debit_upper_bound buy quantity limit charge_asset rate =
    with_fee charge_asset rate (mul quantity limit)
source_debit_upper_bound sell quantity limit charge_asset rate = with_fee charge_asset rate quantity

-- Whether a level stands behind the limit.
abbrev pub is_beyond : Side → Ratio → Ratio → Bool
is_beyond buy price limit = ltb_ratio limit price
is_beyond sell price limit = ltb_ratio price limit

abbrev pub received_at : Side → Ratio → Ratio → Ratio → Ratio
received_at buy received taken price = received
received_at sell received taken price = add received (mul taken price)

-- The loop of `executableEstimate`: what is filled and what is received for it.
unfoldable pub walk : Side → Ratio → Ratio → Ratio → Ratio → List Level → Ratio × Ratio
walk side limit remaining filled received [] = (filled, received)
walk side limit remaining filled received (l ∷ ls) =
    let taken = min_ratio remaining l.quantity in
    let filled' = add filled taken in
    let received' = received_at side received taken l.price in
    let remaining' = sub remaining taken in
    let rest = walk side limit remaining' filled' received' ls in
    if is_beyond side l.price limit
    then (filled, received)
    else if remaining'.num == 0
    then (filled', received')
    else rest

abbrev pub levels_of : Side → Book → List Level
levels_of buy book = book.asks
levels_of sell book = book.bids

abbrev estimate_of : Side → Ratio × Ratio → Ratio × Ratio
estimate_of buy (filled, received) = (filled, filled)
estimate_of sell (filled, received) = (filled, received)

-- `executableEstimate`.
unfoldable pub executable_estimate : Side → Ratio → Ratio → Book → Ratio × Ratio
unfolding walk
executable_estimate side requested limit book =
    estimate_of side (walk side limit requested (whole 0) (whole 0) (levels_of side book))

-- The last `k` decimal digits.
unfoldable pub pad_digits : ℕ → ℕ → Text → Text
pad_digits zero n out = out
pad_digits (suc k) n out = pad_digits k (n / 10) ((b'0' + n % 10) ∷ out)

-- `strings.TrimRight`, for one character.
unfoldable pub trim_right : ℕ → Text → Text
trim_right c [] = []
trim_right c (x ∷ s) = let rest = trim_right c s in if is_empty rest && x == c then [] else x ∷ rest

-- `FloatString(18)`: half of the last digit is rounded up.
unfoldable pub float_string : Ratio → Text
unfolding pad_digits
float_string a =
    let n = (2 * a.num * 10 ^ 18 + a.den) / (2 * a.den) in
    print_nat (n / 10 ^ 18) ++ (b'.' ∷ pad_digits 18 n [])

-- `decimalString`.
unfoldable pub decimal_string : Ratio → Text
unfolding trim_right float_string is_empty print_nat
decimal_string a =
    let text = trim_right b'.' (trim_right b'0' (float_string a)) in
    if is_empty text then codes "0" else text
