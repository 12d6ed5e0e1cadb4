-- ===== src/QuickTrade/Quote/Types.antt =====
-- The data of internal/quicktrade/quote.go. Times and durations are nanoseconds, and a zero time is
-- `none`.
use venuewire.Prelude.{ℕ, Option, none, some, List, [], ◌∷◌, Text, codes, same, if◌then◌else◌}
use venuewire.Prelude.Int.{ℤ}
use venuewire.Prelude.Map.{Map}
use venuewire.Prelude.Ratio.{Ratio}

pub data Side : Type 0 where
  buy sell : Side

pub record Route : Type 0 where
  pub id : Text
  pub venue : Text
  pub instrument : Text
  pub base_asset : Text
  pub quote_asset : Text
  pub from_asset : Text
  pub to_asset : Text
  pub side : Side

pub record InstrumentRules : Type 0 where
  pub instrument : Text
  pub base_asset : Text
  pub quote_asset : Text
  pub tick_size : Text
  pub quantity_step : Text
  pub minimum_quantity : Text
  pub minimum_notional : Text
  pub maximum_quantity : Text
  pub metadata_revision : Text

pub record BookLevel : Type 0 where
  pub price : Text
  pub quantity : Text

pub record MarketSnapshot : Type 0 where
  pub rules : InstrumentRules
  pub bids : List BookLevel
  pub asks : List BookLevel
  pub observed_at : Option ℕ

pub record Capacity : Type 0 where
  pub available : Text
  pub account_revision : ℕ

pub record FeePolicy : Type 0 where
  pub rate : Text
  pub charge_asset : Text
  pub third_asset : Text
  pub third_asset_amount : Text
  pub source : Text

-- A venue's answers while one quote is made or checked; `none` is an error.
pub record Provider : Type 0 where
  pub market : Route → Option MarketSnapshot
  pub available : Route → Text → Option Capacity
  pub fee : Route → Option FeePolicy

pub record Caps : Type 0 where
  pub by_asset : Map Text Text
  pub by_venue_source : Map Text Text

-- `Service`, with the identifier that it makes next.
pub record Service : Type 0 where
  pub providers : Map Text Provider
  pub ttl : ℤ
  pub book_max_age : ℤ
  pub slippage_bps : ℤ
  pub caps : Caps
  pub new_id : Option Text

pub record CreateRequest : Type 0 where
  pub identity : Text
  pub venue : Text
  pub route_id : Text
  pub spend_budget : Text
  pub account_alias : Text

pub data QuoteError : Type 0 where
  invalid_request unsupported_route venue_unavailable invalid_configuration : QuoteError
  invalid_amount invalid_cap demo_amount_limit market_unavailable : QuoteError
  metadata_mismatch invalid_instrument_rules stale_market_data invalid_book : QuoteError
  price_protection_unavailable amount_too_small amount_too_large : QuoteError
  capacity_unavailable insufficient_spot_balance fee_model_unavailable : QuoteError
  insufficient_fee_asset no_identifier quote_not_executable quote_expired : QuoteError
  quote_scope_mismatch invalid_quote quote_changed : QuoteError

-- `parsedRules`.
pub record Rules : Type 0 where
  pub tick : Ratio
  pub step : Ratio
  pub minimum_quantity : Ratio
  pub minimum_notional : Option Ratio
  pub maximum_quantity : Option Ratio

-- `parsedLevel`.
pub record Level : Type 0 where
  pub price : Ratio
  pub quantity : Ratio

-- `parsedBook`.
pub record Book : Type 0 where
  pub best_bid : Ratio
  pub best_ask : Ratio
  pub bids : List Level
  pub asks : List Level

-- What `big.Rat.SetString` makes of a text that it accepts. Of a negative number the code only asks
-- for the sign.
pub data Number : Type 0 where
  negative : Number
  ratio : Ratio → Number

-- What the package calls of Go's library: `big.Rat.SetString` and `strings.ToUpper`.
pub record Library : Type 0 where
  pub set_string : Text → Option Number
  pub to_upper : Text → Text

abbrev route : Text → Text → Text → Text → Text → Text → Text → Side → Route
route id venue instrument base quote from to side = record {
  id = id;
  venue = venue;
  instrument = instrument;
  base_asset = base;
  quote_asset = quote;
  from_asset = from;
  to_asset = to;
  side = side;
}

abbrev bybit : Text
bybit = codes "bybit"

-- `Routes`, with the table `supportedRoutes`.
unfoldable pub routes : List Route
routes =
    route (codes "bybit-usdt-btc") bybit (codes "BTCUSDT") (codes "BTC") (codes "USDT")
      (codes "USDT") (codes "BTC") buy
    ∷ route (codes "bybit-btc-usdt") bybit (codes "BTCUSDT") (codes "BTC") (codes "USDT")
        (codes "BTC") (codes "USDT") sell
    ∷ route (codes "bybit-usdt-eth") bybit (codes "ETHUSDT") (codes "ETH") (codes "USDT")
        (codes "USDT") (codes "ETH") buy
    ∷ route (codes "bybit-eth-usdt") bybit (codes "ETHUSDT") (codes "ETH") (codes "USDT")
        (codes "ETH") (codes "USDT") sell
    ∷ route (codes "deribit-usdc-btc") (codes "deribit") (codes "BTC_USDC") (codes "BTC")
        (codes "USDC") (codes "USDC") (codes "BTC") buy
    ∷ route (codes "deribit-btc-usdc") (codes "deribit") (codes "BTC_USDC") (codes "BTC")
        (codes "USDC") (codes "BTC") (codes "USDC") sell
    ∷ []

unfoldable pub find_in : Text → List Route → Option Route
find_in id [] = none
find_in id (r ∷ rs) = let rest = find_in id rs in if same r.id id then some r else rest

-- `supportedRoutes[id]`.
unfoldable pub find_route : Text → Option Route
unfolding routes find_in
find_route id = find_in id routes
