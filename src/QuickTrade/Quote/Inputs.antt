-- ===== src/QuickTrade/Quote/Inputs.antt =====
-- What internal/quicktrade/quote.go reads and checks: decimals, rules, books, fees and caps.
use venuewire.Prelude.{
  ℕ, suc, ◌+◌, ◌^◌, Bool, true, false, not, ◌&&◌, ◌||◌, Option, none, some, List, [], ◌∷◌, ◌++◌,
  leb, ltb, if◌then◌else◌, Text, text_eq, codes, same, is_empty, trim_space, Result, ok, err, ◌>>=◌,
  ◌>>◌, refuse_if, or_err,
}
use venuewire.Prelude.Int.{ℤ, pos, negsuc}
use venuewire.Prelude.Map.{lookup}
use venuewire.Prelude.Ratio.{Ratio, whole, leb_ratio, ltb_ratio, mul, sub, quo}
use venuewire.Intent.Types.{QuoteFee, AssetReserve}
use venuewire.QuickTrade.Quote.Types.{
  Side, buy, sell, Route, InstrumentRules, BookLevel, MarketSnapshot, FeePolicy, Provider, Caps,
  QuoteError, invalid_cap, demo_amount_limit, metadata_mismatch, invalid_instrument_rules,
  stale_market_data, invalid_book, capacity_unavailable, fee_model_unavailable,
  insufficient_fee_asset, Rules, Level, Book, negative, ratio, Library,
}
use venuewire.QuickTrade.Quote.Numbers.{decimal_string}

-- The fee, the reserve of a third asset, and what is left of the destination.
pub record FeeEstimate : Type 0 where
  pub fees : List QuoteFee
  pub reserves : List AssetReserve
  pub net : Ratio

module _ (lib : Library) where
  -- `positiveDecimal`.
  unfoldable pub positive_decimal : Text → Option Ratio
  positive_decimal raw = elim (lib.set_string (trim_space raw)) [
    | none ↦ none
    | some negative ↦ none
    | some (ratio r) ↦ if ltb 0 r.num then some r else none
  ]

  -- `nonNegativeDecimal`.
  unfoldable pub non_negative_decimal : Text → Option Ratio
  non_negative_decimal raw = elim (lib.set_string (trim_space raw)) [
    | none ↦ none
    | some negative ↦ none
    | some (ratio r) ↦ some r
  ]

  -- A rule that may be left out.
  unfoldable pub optional_decimal : Text → Result QuoteError (Option Ratio)
  optional_decimal raw =
      if is_empty raw
      then ok none
      else (do r ← or_err (positive_decimal raw) invalid_instrument_rules; ok (some r))

  -- `parseRules`.
  unfoldable pub parse_rules : Route → InstrumentRules → Result QuoteError Rules
  unfolding optional_decimal
  parse_rules route rules = do
    refuse_if
        (not (same rules.instrument route.instrument)
          || not (same (lib.to_upper rules.base_asset) route.base_asset)
          || not (same (lib.to_upper rules.quote_asset) route.quote_asset))
        metadata_mismatch
    tick ← or_err (positive_decimal rules.tick_size) invalid_instrument_rules
    step ← or_err (positive_decimal rules.quantity_step) invalid_instrument_rules
    minimum ← or_err (positive_decimal rules.minimum_quantity) invalid_instrument_rules
    notional ← optional_decimal rules.minimum_notional
    maximum ← optional_decimal rules.maximum_quantity
    ok (record {
      tick = tick;
      step = step;
      minimum_quantity = minimum;
      minimum_notional = notional;
      maximum_quantity = maximum;
    })

  -- `parseLevels`.
  unfoldable pub parse_levels : List BookLevel → Result QuoteError (List Level)
  parse_levels [] = ok []
  parse_levels (l ∷ ls) = do
    price ← or_err (positive_decimal l.price) invalid_book
    quantity ← or_err (positive_decimal l.quantity) invalid_book
    rest ← parse_levels ls
    ok (record { price = price; quantity = quantity } ∷ rest)

  -- Whether each price passes the test with the one behind it.
  abbrev pub in_order : (Ratio → Ratio → Bool) → List Level → Bool
  in_order p [] = true
  in_order p (l ∷ []) = true
  in_order p (l ∷ l' ∷ ls) = p l.price l'.price && in_order p (l' ∷ ls)

  abbrev at_least : Ratio → Ratio → Bool
  at_least a b = leb_ratio b a

  -- The checks of `parseBook` on the levels.
  unfoldable pub check_book : List Level → List Level → Result QuoteError Book
  check_book (b ∷ bids) (a ∷ asks) = do
    refuse_if (leb_ratio a.price b.price) invalid_book
    refuse_if (not (in_order at_least (b ∷ bids))) invalid_book
    refuse_if (not (in_order leb_ratio (a ∷ asks))) invalid_book
    ok (record { best_bid = b.price; best_ask = a.price; bids = b ∷ bids; asks = a ∷ asks })
  check_book _ _ = err invalid_book

  -- Whether `now` minus `at` is no more than a duration.
  abbrev pub is_within_age : ℤ → ℕ → ℕ → Bool
  is_within_age (pos d) at now = leb now (at + d)
  is_within_age (negsuc d) at now = leb (now + suc d) at

  -- Whether the market was observed at a time, not too long ago, and no more than a second ahead.
  unfoldable pub is_current : Option ℕ → ℕ → ℤ → Bool
  is_current none now max_age = false
  is_current (some at) now max_age = is_within_age max_age at now && leb at (now + 10 ^ 9)

  -- `parseBook`.
  unfoldable pub parse_book : MarketSnapshot → ℕ → ℤ → Result QuoteError Book
  unfolding parse_levels check_book is_current
  parse_book market now max_age = do
    refuse_if (not (is_current market.observed_at now max_age)) stale_market_data
    bids ← parse_levels market.bids
    asks ← parse_levels market.asks
    check_book bids asks

  abbrev pub is_asset : Text → Bool
  is_asset a = same a (codes "from") || same a (codes "to") || same a (codes "third")

  -- `parseFeePolicy`; `none` is its error.
  unfoldable pub parse_fee_policy : FeePolicy → Option Ratio
  parse_fee_policy policy =
      if is_empty policy.source || not (is_asset policy.charge_asset)
      then none
      else if same policy.charge_asset (codes "third")
      then some (whole 0)
      else elim (non_negative_decimal policy.rate) [
        | none ↦ none
        | some rate ↦ if leb_ratio rate (quo (whole 1) (whole 10)) then some rate else none
      ]

  abbrev cap_text : Option Text → Text
  cap_text none = []
  cap_text (some t) = t

  unfoldable pub within_cap : Text → Ratio → Result QuoteError (Unit {0})
  within_cap raw spend = do
    cap ← or_err (positive_decimal raw) invalid_cap
    refuse_if (ltb_ratio cap spend) demo_amount_limit

  -- `validateCap`.
  unfoldable pub validate_cap : Caps → Route → Ratio → Result QuoteError (Unit {0})
  unfolding within_cap
  validate_cap caps route spend = do
    within_cap (cap_text (lookup route.from_asset caps.by_asset)) spend
    within_cap (cap_text (lookup (route.venue ++ (b':' ∷ route.from_asset)) caps.by_venue_source))
        spend

  unfoldable pub fee_line : Text → Ratio → Text → Text → List QuoteFee
  unfolding decimal_string
  fee_line asset amount source basis =
      record {
        asset = asset;
        estimated_amount = decimal_string amount;
        source = source;
        calculation_basis = basis;
      }
      ∷ []

  unfoldable pub fee_base : Side → Ratio → Ratio → Ratio
  fee_base buy filled limit = mul filled limit
  fee_base sell filled limit = filled

  unfoldable pub third_fee : Provider → Route → FeePolicy → Ratio → Result QuoteError FeeEstimate
  unfolding fee_line
  third_fee provider route policy gross = do
    third ← or_err (positive_decimal policy.third_asset_amount) fee_model_unavailable
    refuse_if (is_empty (trim_space policy.third_asset)) fee_model_unavailable
    capacity ← or_err (provider.available route policy.third_asset) capacity_unavailable
    available ← or_err (non_negative_decimal capacity.available) insufficient_fee_asset
    refuse_if (ltb_ratio available third) insufficient_fee_asset
    let asset = lib.to_upper policy.third_asset
    ok (record {
      fees = fee_line asset third policy.source (codes "third-asset reserve");
      reserves = record { asset = asset; amount = decimal_string third } ∷ [];
      net = gross;
    })

  -- `feeEstimate`.
  unfoldable pub fee_estimate :
      Provider → Route → FeePolicy → Ratio → Ratio → Ratio → Ratio → Result QuoteError FeeEstimate
  unfolding fee_line fee_base third_fee
  fee_estimate provider route policy rate filled gross limit =
      if same policy.charge_asset (codes "from")
      then ok (record {
        fees =
            fee_line route.from_asset (mul (fee_base route.side filled limit) rate) policy.source
              (codes "source debit upper bound");
        reserves = [];
        net = gross;
      })
      else if same policy.charge_asset (codes "to")
      then ok (record {
        fees =
            fee_line route.to_asset (mul gross rate) policy.source (codes "destination received");
        reserves = [];
        net = sub gross (mul gross rate);
      })
      else if same policy.charge_asset (codes "third")
      then third_fee provider route policy gross
      else err fee_model_unavailable
