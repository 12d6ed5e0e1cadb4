-- ===== src/QuickTrade/Quote/Create/Shown.antt =====
-- What a checked request comes with, and what an executable quote shows.
use venuewire.Prelude.{
  ℕ, ◌≡◌, refl, ap, subst, inl, inr, Option, none, some, Text, text_eq, ok, Option-cases, arith,
}
use venuewire.Prelude.Map.{lookup}
use venuewire.Prelude.Ratio.{Ratio}
use venuewire.Intent.Types.{QuickTradeQuote}
use venuewire.QuickTrade.Quote.Types.{
  Route, MarketSnapshot, FeePolicy, Provider, Service, CreateRequest, Book, Library, find_route,
}
use venuewire.QuickTrade.Quote.Numbers.{decimal_string}
use venuewire.QuickTrade.Quote.Inputs.{positive_decimal, parse_fee_policy, validate_cap}
use venuewire.QuickTrade.Quote.Create.{executable_quote, fee_and_rate, check_request}
use venuewire.QuickTrade.Quote.Planning.{Plan, side_text}

module _ (lib : Library) where
  pub fee_and_rate-ok :
      (o : Option FeePolicy) {fee : FeePolicy} {rate : Ratio}
      → fee_and_rate lib o ≡ some (fee, rate)
      → (o ≡ some fee) × (parse_fee_policy lib fee ≡ some rate)
  fee_and_rate-ok none h = cc h
  fee_and_rate-ok (some policy) {fee} {rate} h = elim (Option-cases (parse_fee_policy lib policy)) [
    | inl bad ↦ absurd (ground arith)
    | inr (x, read) ↦
        let same_policy : policy ≡ fee = ground arith in
        (
          ap some same_policy,
          subst (λ y. parse_fee_policy lib y ≡ some rate) same_policy (ground arith),
        )
  ]

  pub check_request-ok :
      (s : Service) (request : CreateRequest) {route : Route} {provider : Provider} {spend : Ratio}
      → check_request lib s request ≡ ok (route, (provider, spend))
      → (find_route request.route_id ≡ some route)
        × (lookup request.venue s.providers ≡ some provider)
        × (positive_decimal lib request.spend_budget ≡ some spend)
        × (validate_cap lib s.caps route spend ≡ ok tt)
  unfolding check_request
  check_request-ok s request {route} {provider} {spend} h = ground arith

  -- The numbers that a quote shows are those of its plan.
  pub record Shows (q : QuickTradeQuote) (request : CreateRequest) (route : Route) (spend : Ratio)
      (fee : FeePolicy) (rate : Ratio) (p : Plan) : Type 0 where
    pub identity : q.identity ≡ request.identity
    pub venue : q.venue ≡ route.venue
    pub route_id : q.route_id ≡ route.id
    pub instrument : q.instrument ≡ route.instrument
    pub side : q.side ≡ side_text route.side
    pub spend_budget : q.spend_budget ≡ decimal_string spend
    pub limit_price : q.limit_price ≡ decimal_string p.limit
    pub base_qty : q.base_qty ≡ decimal_string p.quantity
    pub debit : q.source_debit_upper_bound ≡ decimal_string p.debit
    pub gross : q.gross_receive_estimate ≡ decimal_string p.gross
    pub net : q.net_receive_estimate ≡ decimal_string p.estimate.net
    pub fees : q.estimated_fees ≡ p.estimate.fees
    pub reserves : q.third_asset_reserves ≡ p.estimate.reserves
    pub fee_rate : q.fee_rate ≡ decimal_string rate
    pub fee_charge_asset : q.fee_charge_asset ≡ fee.charge_asset

  pub executable_quote-Shows :
      (s : Service) (request : CreateRequest) (route : Route) (market : MarketSnapshot)
      (book : Book) (fee : FeePolicy) (now : ℕ) (spend rate : Ratio) (p : Plan) (id : Text)
      → Shows
          (executable_quote lib s request route market book fee now spend rate p id)
          request
          route
          spend
          fee
          rate
          p
  unfolding executable_quote
  executable_quote-Shows s request route market book fee now spend rate p id = record {
    identity = refl;
    venue = refl;
    route_id = refl;
    instrument = refl;
    side = refl;
    spend_budget = refl;
    limit_price = refl;
    base_qty = refl;
    debit = refl;
    gross = refl;
    net = refl;
    fees = refl;
    reserves = refl;
    fee_rate = refl;
    fee_charge_asset = refl;
  }
