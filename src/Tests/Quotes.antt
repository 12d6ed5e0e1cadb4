-- ===== src/Tests/Quotes.antt =====
-- A quote for a thousand USDT on a small book, its check, and its confirmation.
use venuewire.Prelude.{
  ℕ, ◌<◌, ◌≡◌, refl, true, Option, none, some, [], ◌∷◌, Text, codes, same, is_empty, trim_space,
  text_eq, Result, ok, err, arith,
}
use venuewire.Prelude.Int.{pos}
use venuewire.Prelude.Map.{lookup, insert, tally}
use venuewire.Prelude.Ratio.{whole, ◌≤R◌, mul, add, sub, quo, floor, ceil}
use venuewire.Fix.Decimal.{digits, print_nat, scan, digits_value}
use venuewire.Tests.Data.{quote}
use venuewire.Tests.Trading.{request, world}
use venuewire.Intent.Types.{QuickTradeQuote, QuickTrade}
use venuewire.Intent.Status.{valid_trade_transition, apply_trade_status}
use venuewire.Intent.Confirm.{
  quick_request_key, index_at, validate_confirmation, confirm_in, confirm_quick_trade, new_trade,
}
use venuewire.Intent.Trades.{
  change_trade, dispatch_trade, mark_quick_trade_dispatching, get_quick_trade_by_request,
  get_quick_trade_by_quote,
}
use venuewire.QuickTrade.Application.{
  World, Confirmed, submit_trade, dispatch, create_trade, review, confirm_new, confirm_by_quote,
  confirm_by_request, confirm, client_order_id, byte_length, make_confirmation,
}
use venuewire.QuickTrade.Submission.{Sends}
use venuewire.QuickTrade.Reviewed.{KeepsTrades, is_ok, confirm-IsReady}
use venuewire.Intent.Evolution.{Evolves-refl}
use venuewire.Intent.Disk.{File, absent, load, update}
use venuewire.QuickTrade.Cache.{QuoteCache, prune_loop, prune, get}
use venuewire.QuickTrade.Quote.Types.{
  buy, sell, InstrumentRules, BookLevel, MarketSnapshot, FeePolicy, Provider, Service,
  CreateRequest, Level, Book, QuoteError, Number, ratio, Library, routes, find_in, find_route,
}
use venuewire.QuickTrade.Quote.Numbers.{
  floor_to_step, ceil_to_step, basis_points, protected_limit, with_fee, maximum_base_quantity,
  source_debit_upper_bound, walk, executable_estimate, pad_digits, trim_right, float_string,
  decimal_string,
}
use venuewire.QuickTrade.Quote.Numbers.Bounds.{source_debit_upper_bound-≤R}
use venuewire.QuickTrade.Quote.Numbers.Estimate.{IsModest, executable_estimate-IsModest}
use venuewire.QuickTrade.Quote.Inputs.{
  positive_decimal, non_negative_decimal, optional_decimal, parse_rules, parse_levels, check_book,
  is_current, parse_book, parse_fee_policy, within_cap, validate_cap, fee_line, fee_base,
  fee_estimate,
}
use venuewire.QuickTrade.Quote.Create.{
  blocked_quote, warnings_of, executable_quote, make_quote, check_request, create,
}
use venuewire.QuickTrade.Quote.Planning.{plan_order, plan_trade}
use venuewire.QuickTrade.Quote.Create.Sound.{IsBacked, create-IsBacked}
use venuewire.QuickTrade.Quote.Validate.{
  in_scope, check_order, check_funds, check_third, check_fee, validate_for_confirm,
}
use venuewire.QuickTrade.Quote.Validate.Sound.{IsReady, validate_for_confirm-IsReady}

number : Option ℕ → Option Number
unfolding whole
number none = none
number (some n) = some (ratio (whole n))

abbrev lib : Library
unfolding digits_value number
lib = record { set_string = λ t. number (digits_value t); to_upper = λ t. t }

abbrev rules : InstrumentRules
rules = record {
  instrument = codes "BTCUSDT";
  base_asset = codes "BTC";
  quote_asset = codes "USDT";
  tick_size = codes "1";
  quantity_step = codes "2";
  minimum_quantity = codes "1";
  minimum_notional = [];
  maximum_quantity = codes "50";
  metadata_revision = codes "r1";
}

abbrev level : Text → Text → BookLevel
level p q = record { price = p; quantity = q }

abbrev market : MarketSnapshot
market = record {
  rules = rules;
  bids = level (codes "99") (codes "3") ∷ [];
  asks = level (codes "100") (codes "4") ∷ level (codes "101") (codes "9") ∷ [];
  observed_at = some 2;
}

abbrev fee : FeePolicy
fee = record {
  rate = codes "0";
  charge_asset = codes "from";
  third_asset = [];
  third_asset_amount = [];
  source = codes "account";
}

abbrev provider : Provider
provider = record {
  market = λ r. some market;
  available = λ r a. some (record { available = codes "2000"; account_revision = 4 });
  fee = λ r. some fee;
}

abbrev service : Service
service = record {
  providers = (codes "bybit", provider) ∷ [];
  ttl = pos 40;
  book_max_age = pos 10;
  slippage_bps = pos 50;
  caps = record {
    by_asset = (codes "USDT", codes "5000") ∷ [];
    by_venue_source = (codes "bybit:USDT", codes "3000") ∷ [];
  };
  new_id = some (codes "q1");
}

abbrev wanted : CreateRequest
wanted = record {
  identity = codes "u";
  venue = codes "bybit";
  route_id = codes "bybit-usdt-btc";
  spend_budget = codes "1000";
  account_alias = codes "bybit-test";
}

abbrev quote_of : Result QuoteError QuickTradeQuote → QuickTradeQuote
quote_of (ok q) = q
quote_of (err e) = quote

made : QuickTradeQuote
unfolding find_route find_in routes same is_empty trim_space lookup digits_value scan number whole
    positive_decimal non_negative_decimal optional_decimal parse_rules parse_levels check_book
    is_current parse_book parse_fee_policy within_cap validate_cap mul add sub quo floor ceil
    floor_to_step ceil_to_step basis_points protected_limit with_fee maximum_base_quantity
    source_debit_upper_bound walk executable_estimate pad_digits trim_right float_string
    decimal_string print_nat digits fee_line fee_base fee_estimate plan_order plan_trade
    blocked_quote warnings_of executable_quote make_quote check_request create
made = quote_of (create lib service wanted 3)

is_made : (create lib service wanted 3 ≡ ok made) × (made.executable ≡ true)
unfolding made find_route find_in routes same is_empty trim_space lookup digits_value scan number
    whole positive_decimal non_negative_decimal optional_decimal parse_rules parse_levels check_book
    is_current parse_book parse_fee_policy within_cap validate_cap mul add sub quo floor ceil
    floor_to_step ceil_to_step basis_points protected_limit with_fee maximum_base_quantity
    source_debit_upper_bound walk executable_estimate pad_digits trim_right float_string
    decimal_string print_nat digits fee_line fee_base fee_estimate plan_order plan_trade
    blocked_quote warnings_of executable_quote make_quote check_request create
is_made = (refl, refl)

create-IsBacked_example : IsBacked lib service wanted 3 made
create-IsBacked_example = create-IsBacked lib service wanted 3 (is_made.0) (is_made.1)

is_valid : validate_for_confirm lib service made 5 ≡ ok tt
unfolding made find_route find_in routes same is_empty trim_space lookup digits_value scan number
    whole positive_decimal non_negative_decimal optional_decimal parse_rules parse_levels check_book
    is_current parse_book parse_fee_policy within_cap validate_cap mul add sub quo floor ceil
    floor_to_step ceil_to_step basis_points protected_limit with_fee maximum_base_quantity
    source_debit_upper_bound walk executable_estimate pad_digits trim_right float_string
    decimal_string print_nat digits fee_line fee_base fee_estimate plan_order plan_trade
    blocked_quote warnings_of executable_quote make_quote check_request create in_scope check_order
    check_funds check_third check_fee validate_for_confirm
is_valid = refl

validate_for_confirm-IsReady_example : IsReady lib service made 5
validate_for_confirm-IsReady_example = validate_for_confirm-IsReady lib service made 5 is_valid

one_pos : 0 < (whole 1).num
unfolding whole
one_pos = omega arith

hundred_pos : 0 < (whole 100).num
unfolding whole
hundred_pos = omega arith

source_debit_upper_bound-≤R_example :
    source_debit_upper_bound buy
      (maximum_base_quantity buy (whole 1000) (whole 100) (whole 1) (codes "from") (whole 1))
      (whole 100)
      (codes "from")
      (whole 1)
    ≤R whole 1000
source_debit_upper_bound-≤R_example =
    source_debit_upper_bound-≤R buy (whole 1000) (whole 100) (whole 1) (whole 1) (codes "from")
      hundred_pos one_pos

abbrev depth : ℕ → ℕ → Level
depth p q = record { price = whole p; quantity = whole q }

abbrev book : Book
book = record {
  best_bid = whole 99;
  best_ask = whole 101;
  bids = depth 99 3 ∷ depth 98 7 ∷ [];
  asks = depth 101 2 ∷ [];
}

executable_estimate-IsModest_example :
    IsModest sell (whole 8) (whole 98) (executable_estimate sell (whole 8) (whole 98) book)
executable_estimate-IsModest_example = executable_estimate-IsModest sell (whole 8) (whole 98) book

abbrev careful : World
careful = record (world) { valid = λ q. is_ok (validate_for_confirm lib service q 3); now = 3 }

abbrev cached : QuoteCache
cached = record { max = 1; quotes = (codes "q1", made) ∷ []; order = codes "q1" ∷ [] }

sent_of : Confirmed → QuickTrade × File
sent_of c = elim c.sent [
  | none ↦ (new_trade (make_confirmation request [] quote) 3, absent)
  | some p ↦ p
]

sends :
    (confirm careful cached request absent).sent
    ≡ some (sent_of (confirm careful cached request absent))
unfolding sent_of made find_route find_in routes same is_empty trim_space lookup digits_value scan
    number whole positive_decimal non_negative_decimal optional_decimal parse_rules parse_levels
    check_book is_current parse_book parse_fee_policy within_cap validate_cap mul add sub quo floor
    ceil floor_to_step ceil_to_step basis_points protected_limit with_fee maximum_base_quantity
    source_debit_upper_bound walk executable_estimate pad_digits trim_right float_string
    decimal_string print_nat digits fee_line fee_base fee_estimate plan_order plan_trade
    blocked_quote warnings_of executable_quote make_quote check_request create in_scope check_order
    check_funds check_third check_fee validate_for_confirm confirm confirm_by_request
    confirm_by_quote confirm_new create_trade dispatch submit_trade review byte_length
    client_order_id get prune prune_loop get_quick_trade_by_request get_quick_trade_by_quote
    confirm_quick_trade validate_confirmation confirm_in update load quick_request_key index_at
    insert tally mark_quick_trade_dispatching change_trade dispatch_trade apply_trade_status
    valid_trade_transition new_trade
sends = refl

abbrev submission : QuickTrade
submission = (sent_of (confirm careful cached request absent)).0

alone-KeepsTrades : KeepsTrades careful.dispatch.others
alone-KeepsTrades s id t h = (s, t, refl, h, Evolves-refl t)

confirm-IsReady_example :
    (sends : Sends careful cached request submission
      (sent_of (confirm careful cached request absent)).1)
    × (submission.id ≡ sends.id)
    × (submission.quote ≡ sends.quote)
    × (submission.client_order_id ≡ client_order_id sends.id)
    × IsReady lib service submission.quote 3
confirm-IsReady_example =
    confirm-IsReady lib service careful cached request absent (λ q. refl) alone-KeepsTrades sends
