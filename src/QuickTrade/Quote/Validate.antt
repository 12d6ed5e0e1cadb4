-- ===== src/QuickTrade/Quote/Validate.antt =====
-- `Service.ValidateForConfirm` of internal/quicktrade/quote.go.
pub mod Sound
use venuewire.Prelude.{
  ℕ, Bool, true, false, not, ◌&&◌, ◌||◌, Option, none, some, List, [], ◌∷◌, leb, length, ◌==◌,
  if◌then◌else◌, Text, text_eq, codes, same, is_empty, Result, ok, err, ◌>>=◌, ◌>>◌, refuse_if,
  or_err,
}
use venuewire.Prelude.Int.{pos_part}
use venuewire.Prelude.Map.{lookup}
use venuewire.Prelude.Ratio.{Ratio, leb_ratio, ltb_ratio, mul}
use venuewire.Intent.Types.{QuickTradeQuote, QuoteFee, AssetReserve}
use venuewire.QuickTrade.Quote.Types.{
  Side, buy, sell, Route, MarketSnapshot, FeePolicy, Provider, Service, QuoteError,
  venue_unavailable, market_unavailable, capacity_unavailable, insufficient_spot_balance,
  fee_model_unavailable, insufficient_fee_asset, quote_not_executable, quote_expired,
  quote_scope_mismatch, invalid_quote, quote_changed, Rules, Book, Library, find_route,
}
use venuewire.QuickTrade.Quote.Numbers.{floor_to_step}
use venuewire.QuickTrade.Quote.Inputs.{
  positive_decimal, non_negative_decimal, parse_rules, parse_book, parse_fee_policy, validate_cap,
}
use venuewire.QuickTrade.Quote.Planning.{is_above, is_below, is_marketable, side_text}

-- Whether a number is a whole number of steps.
abbrev pub is_legal : Ratio → Ratio → Bool
is_legal a step = leb_ratio a (floor_to_step a step) && leb_ratio (floor_to_step a step) a

module _ (lib : Library) where
  -- Whether the quote says what its route says.
  abbrev pub is_in_scope : Route → QuickTradeQuote → Bool
  is_in_scope r q =
      same r.venue q.venue
      && same r.instrument q.instrument
      && same r.from_asset q.from_asset
      && same r.to_asset q.to_asset
      && same (side_text r.side) q.side

  unfoldable pub in_scope : Option Route → QuickTradeQuote → Result QuoteError Route
  in_scope none q = err quote_scope_mismatch
  in_scope (some r) q = if is_in_scope r q then ok r else err quote_scope_mismatch

  -- The order of the quote against the rules and the book.
  unfoldable pub check_order : Side → QuickTradeQuote → Rules → Book → Result QuoteError (Unit {0})
  check_order side q rules book = do
    limit ← or_err (positive_decimal lib q.limit_price) invalid_quote
    refuse_if (not (is_legal limit rules.tick)) invalid_quote
    quantity ← or_err (positive_decimal lib q.base_qty) invalid_quote
    refuse_if (not (is_legal quantity rules.step) || ltb_ratio quantity rules.minimum_quantity)
        invalid_quote
    refuse_if (is_above quantity rules.maximum_quantity) invalid_quote
    refuse_if (is_below (mul quantity limit) rules.minimum_notional) invalid_quote
    refuse_if (not (is_marketable side limit book)) quote_changed

  -- The source amount against what is available.
  unfoldable pub check_funds : Provider → Route → QuickTradeQuote → Result QuoteError (Unit {0})
  check_funds provider route q = do
    debit ← or_err (positive_decimal lib q.source_debit_upper_bound) invalid_quote
    capacity ← or_err (provider.available route route.from_asset) capacity_unavailable
    available ← or_err (non_negative_decimal lib capacity.available) insufficient_spot_balance
    refuse_if (ltb_ratio available debit) insufficient_spot_balance

  abbrev same_source : List QuoteFee → Text → Bool
  same_source (f ∷ []) source = same f.source source
  same_source _ source = false

  abbrev same_reserve : List AssetReserve → Text → Text → Bool
  same_reserve (r ∷ []) asset amount = same r.asset asset && same r.amount amount
  same_reserve _ asset amount = false

  -- The reserve of a third asset.
  unfoldable pub check_third :
      Provider → Route → FeePolicy → QuickTradeQuote → Result QuoteError (Unit {0})
  check_third provider route fee q = do
    refuse_if
        (not (
          same_reserve q.third_asset_reserves (lib.to_upper fee.third_asset)
            fee.third_asset_amount))
        quote_changed
    capacity ← or_err (provider.available route fee.third_asset) capacity_unavailable
    available ← or_err (non_negative_decimal lib capacity.available) insufficient_fee_asset
    required ← or_err (positive_decimal lib fee.third_asset_amount) insufficient_fee_asset
    refuse_if (ltb_ratio available required) insufficient_fee_asset

  -- The fee against the one that was quoted.
  unfoldable pub check_fee : Provider → Route → QuickTradeQuote → Result QuoteError (Unit {0})
  unfolding check_third
  check_fee provider route q = do
    fee ← or_err (provider.fee route) fee_model_unavailable
    current ← or_err (parse_fee_policy lib fee) quote_changed
    quoted ← or_err (non_negative_decimal lib q.fee_rate) quote_changed
    refuse_if
        (not (leb_ratio current quoted && leb_ratio quoted current)
          || not (same q.fee_charge_asset fee.charge_asset)
          || not (same_source q.estimated_fees fee.source))
        quote_changed
    if same fee.charge_asset (codes "third") then check_third provider route fee q else ok tt

  -- `ValidateForConfirm`.
  unfoldable pub validate_for_confirm : Service → QuickTradeQuote → ℕ → Result QuoteError (Unit {0})
  unfolding in_scope check_order check_funds check_fee
  validate_for_confirm s q now = do
    refuse_if (not q.executable) quote_not_executable
    refuse_if (leb q.expires_at now) quote_expired
    route ← in_scope (find_route q.route_id) q
    provider ← or_err (lookup route.venue s.providers) venue_unavailable
    spend ← or_err (positive_decimal lib q.spend_budget) invalid_quote
    validate_cap lib s.caps route spend
    market ← or_err (provider.market route) market_unavailable
    rules ← parse_rules lib route market.rules
    refuse_if
        (is_empty market.rules.metadata_revision
          || not (same market.rules.metadata_revision q.metadata_revision))
        quote_changed
    book ← parse_book lib market now s.book_max_age
    check_order route.side q rules book
    check_funds provider route q
    check_fee provider route q
