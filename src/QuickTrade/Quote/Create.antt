-- ===== src/QuickTrade/Quote/Create.antt =====
-- `Service.Create` of internal/quicktrade/quote.go.
pub mod Order
pub mod Planned
pub mod Shown
pub mod Sound
use venuewire.Prelude.{
  ℕ, ◌+◌, Bool, true, false, not, ◌&&◌, ◌||◌, Option, none, some, List, [], ◌∷◌, ltb, ◌==◌,
  if◌then◌else◌, Text, text_eq, codes, same, Result, ok, err, ◌>>=◌, ◌>>◌, refuse_if, or_err,
}
use venuewire.Prelude.Int.{ℤ, pos, leb_ℤ, ltb_ℤ, pos_part}
use venuewire.Prelude.Map.{lookup}
use venuewire.Prelude.Ratio.{Ratio, leb_ratio, ltb_ratio, mul}
use venuewire.Intent.Types.{QuickTradeQuote}
use venuewire.Intent.Confirm.{is_blank}
use venuewire.QuickTrade.Quote.Types.{
  Side, buy, sell, Route, MarketSnapshot, FeePolicy, Provider, Service, CreateRequest, QuoteError,
  invalid_request, unsupported_route, venue_unavailable, invalid_configuration, invalid_amount,
  market_unavailable, price_protection_unavailable, amount_too_small, amount_too_large,
  capacity_unavailable, insufficient_spot_balance, no_identifier, Rules, Book, Library, find_route,
}
use venuewire.QuickTrade.Quote.Numbers.{
  protected_limit, maximum_base_quantity, source_debit_upper_bound, executable_estimate,
  decimal_string,
}
use venuewire.QuickTrade.Quote.Inputs.{
  positive_decimal, non_negative_decimal, parse_rules, parse_book, parse_fee_policy, validate_cap,
  FeeEstimate, fee_estimate,
}
use venuewire.QuickTrade.Quote.Planning.{Plan, plan_trade, side_text, plan_order}

module _ (lib : Library) where
  abbrev time_or_zero : Option ℕ → ℕ
  time_or_zero none = 0
  time_or_zero (some t) = t

  abbrev id_or_empty : Option Text → Text
  id_or_empty none = []
  id_or_empty (some id) = id

  -- `blockedQuote`, where the fee is not known.
  unfoldable pub blocked_quote :
      Service → CreateRequest → Route → MarketSnapshot → ℕ → QuickTradeQuote
  blocked_quote s request route market now = record {
    id = id_or_empty s.new_id;
    identity = request.identity;
    venue = route.venue;
    environment = codes "testnet";
    account_alias = request.account_alias;
    route_id = route.id;
    from_asset = route.from_asset;
    to_asset = route.to_asset;
    spend_budget = request.spend_budget;
    instrument = route.instrument;
    side = side_text route.side;
    base_qty = [];
    limit_price = [];
    time_in_force = codes "IOC";
    reference_bid = [];
    reference_ask = [];
    book_observed_at = time_or_zero market.observed_at;
    metadata_revision = market.rules.metadata_revision;
    price_protection_bps = s.slippage_bps;
    gross_receive_estimate = [];
    net_receive_estimate = [];
    estimated_fees = [];
    fee_rate = [];
    fee_charge_asset = [];
    source_debit_upper_bound = [];
    third_asset_reserves = [];
    account_revision = 0;
    created_at = now;
    expires_at = now + pos_part s.ttl;
    warnings = codes "Fee information could not be verified." ∷ [];
    executable = false;
    blocked_reason = codes "FEE_MODEL_UNAVAILABLE";
  }

  unfoldable pub warnings_of : Plan → List Text
  warnings_of p =
      codes "Limit IOC may fill partially or receive no fill."
      ∷ (if ltb_ratio p.filled p.quantity
          then codes "Visible protected-price depth is smaller than the submitted quantity." ∷ []
          else [])

  unfoldable pub executable_quote :
      Service
      → CreateRequest
      → Route
      → MarketSnapshot
      → Book
      → FeePolicy
      → ℕ
      → Ratio
      → Ratio
      → Plan
      → Text
      → QuickTradeQuote
  unfolding warnings_of decimal_string
  executable_quote s request route market book fee now spend rate p id = record {
    id = id;
    identity = request.identity;
    venue = route.venue;
    environment = codes "testnet";
    account_alias = request.account_alias;
    route_id = route.id;
    from_asset = route.from_asset;
    to_asset = route.to_asset;
    spend_budget = decimal_string spend;
    instrument = route.instrument;
    side = side_text route.side;
    base_qty = decimal_string p.quantity;
    limit_price = decimal_string p.limit;
    time_in_force = codes "IOC";
    reference_bid = decimal_string book.best_bid;
    reference_ask = decimal_string book.best_ask;
    book_observed_at = time_or_zero market.observed_at;
    metadata_revision = market.rules.metadata_revision;
    price_protection_bps = s.slippage_bps;
    gross_receive_estimate = decimal_string p.gross;
    net_receive_estimate = decimal_string p.estimate.net;
    estimated_fees = p.estimate.fees;
    fee_rate = decimal_string rate;
    fee_charge_asset = fee.charge_asset;
    source_debit_upper_bound = decimal_string p.debit;
    third_asset_reserves = p.estimate.reserves;
    account_revision = p.revision;
    created_at = now;
    expires_at = now + pos_part s.ttl;
    warnings = warnings_of p;
    executable = true;
    blocked_reason = [];
  }

  abbrev pub fee_and_rate : Option FeePolicy → Option (FeePolicy × Ratio)
  fee_and_rate none = none
  fee_and_rate (some fee) = elim (parse_fee_policy lib fee) [
    | none ↦ none
    | some rate ↦ some (fee, rate)
  ]

  -- The quote, once the request, the market and the book are checked.
  unfoldable pub make_quote :
      Service
      → CreateRequest
      → Provider
      → Route
      → MarketSnapshot
      → Rules
      → Book
      → ℕ
      → Ratio
      → Result QuoteError QuickTradeQuote
  unfolding plan_trade blocked_quote executable_quote
  make_quote s request provider route market rules book now spend =
      elim (fee_and_rate (provider.fee route)) [
        | none ↦ ok (blocked_quote s request route market now)
        | some (fee, rate) ↦ do
          p ← plan_trade lib provider route spend (pos_part s.slippage_bps) rules book fee rate
          id ← or_err s.new_id no_identifier
          ok (executable_quote s request route market book fee now spend rate p id)
      ]

  abbrev pub is_configured : Service → Bool
  is_configured s = not (
      leb_ℤ s.ttl (pos 0)
      || leb_ℤ s.book_max_age (pos 0)
      || leb_ℤ s.slippage_bps (pos 0)
      || ltb_ℤ (pos 50) s.slippage_bps)

  -- What `Create` checks before it asks the venue.
  unfoldable pub check_request :
      Service → CreateRequest → Result QuoteError (Route × (Provider × Ratio))
  check_request s request = do
    refuse_if (is_blank request.identity || is_blank request.account_alias) invalid_request
    route ← or_err (find_route request.route_id) unsupported_route
    refuse_if (not (same route.venue request.venue)) unsupported_route
    provider ← or_err (lookup request.venue s.providers) venue_unavailable
    refuse_if (not (is_configured s)) invalid_configuration
    spend ← or_err (positive_decimal lib request.spend_budget) invalid_amount
    validate_cap lib s.caps route spend
    ok (route, (provider, spend))

  -- `Create`.
  unfoldable pub create : Service → CreateRequest → ℕ → Result QuoteError QuickTradeQuote
  unfolding check_request make_quote
  create s request now = do
    (route, (provider, spend)) ← check_request s request
    market ← or_err (provider.market route) market_unavailable
    rules ← parse_rules lib route market.rules
    book ← parse_book lib market now s.book_max_age
    make_quote s request provider route market rules book now spend
