-- ===== src/QuickTrade/Quote/Planning.antt =====
-- The numbers of a quote: the middle of `Create` in internal/quicktrade/quote.go.
use venuewire.Prelude.{
  ℕ, Bool, false, not, Option, none, some, ◌==◌, Text, text_eq, codes, Result, ok, ◌>>=◌, ◌>>◌,
  refuse_if, or_err,
}
use venuewire.Prelude.Ratio.{Ratio, leb_ratio, ltb_ratio, mul}
use venuewire.QuickTrade.Quote.Types.{
  Side, buy, sell, Route, FeePolicy, Provider, QuoteError, price_protection_unavailable,
  amount_too_small, amount_too_large, capacity_unavailable, insufficient_spot_balance, Rules, Book,
  Library,
}
use venuewire.QuickTrade.Quote.Numbers.{
  protected_limit, maximum_base_quantity, source_debit_upper_bound, executable_estimate,
}
use venuewire.QuickTrade.Quote.Inputs.{non_negative_decimal, FeeEstimate, fee_estimate}

-- Whether an order at the limit can meet the other side of the book.
abbrev pub is_marketable : Side → Ratio → Book → Bool
is_marketable buy limit book = leb_ratio book.best_ask limit
is_marketable sell limit book = leb_ratio limit book.best_bid

abbrev pub is_above : Ratio → Option Ratio → Bool
is_above a none = false
is_above a (some b) = ltb_ratio b a

abbrev pub is_below : Ratio → Option Ratio → Bool
is_below a none = false
is_below a (some b) = ltb_ratio a b

-- The limit price and the base quantity of the order, with the checks on them.
unfoldable pub plan_order :
    Side → Ratio → ℕ → Rules → Book → Text → Ratio → Result QuoteError (Ratio × Ratio)
plan_order side spend bps rules book charge_asset rate = do
  let limit = protected_limit side book.best_bid book.best_ask rules.tick bps
  refuse_if (not (is_marketable side limit book)) price_protection_unavailable
  let quantity = maximum_base_quantity side spend limit rules.step charge_asset rate
  refuse_if (quantity.num == 0) amount_too_small
  refuse_if (ltb_ratio quantity rules.minimum_quantity) amount_too_small
  refuse_if (is_above quantity rules.maximum_quantity) amount_too_large
  refuse_if (is_below (mul quantity limit) rules.minimum_notional) amount_too_small
  ok (limit, quantity)

-- The numbers that a quote shows.
pub record Plan : Type 0 where
  pub limit : Ratio
  pub quantity : Ratio
  pub debit : Ratio
  pub available : Ratio
  pub filled : Ratio
  pub gross : Ratio
  pub revision : ℕ
  pub estimate : FeeEstimate

abbrev pub side_text : Side → Text
side_text buy = codes "Buy"
side_text sell = codes "Sell"

module _ (lib : Library) where
  -- From the checked inputs to the numbers of the quote.
  unfoldable pub plan_trade :
      Provider → Route → Ratio → ℕ → Rules → Book → FeePolicy → Ratio → Result QuoteError Plan
  unfolding plan_order
  plan_trade provider route spend bps rules book fee rate = do
    (limit, quantity) ← plan_order route.side spend bps rules book fee.charge_asset rate
    let debit = source_debit_upper_bound route.side quantity limit fee.charge_asset rate
    capacity ← or_err (provider.available route route.from_asset) capacity_unavailable
    available ← or_err (non_negative_decimal lib capacity.available) capacity_unavailable
    refuse_if (ltb_ratio available debit) insufficient_spot_balance
    let (filled, gross) = executable_estimate route.side quantity limit book
    estimate ← fee_estimate lib provider route fee rate filled gross limit
    ok (record {
      limit = limit;
      quantity = quantity;
      debit = debit;
      available = available;
      filled = filled;
      gross = gross;
      revision = capacity.account_revision;
      estimate = estimate;
    })
