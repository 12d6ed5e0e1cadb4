-- ===== src/QuickTrade/Quote/Create/Sound.antt =====
-- What stands behind a quote that can be executed.
use venuewire.Prelude.{
  ℕ, ◌≡◌, sym, subst, inl, inr, true, some, Text, text_eq, ok, Option-cases, Result-cases, arith,
}
use venuewire.Prelude.Int.{pos_part}
use venuewire.Prelude.Map.{lookup}
use venuewire.Prelude.Ratio.{Ratio, ◌≤R◌}
use venuewire.Intent.Types.{QuickTradeQuote}
use venuewire.QuickTrade.Quote.Types.{
  Route, MarketSnapshot, FeePolicy, Provider, Service, Capacity, CreateRequest, Rules, Book,
  Library, find_route,
}
use venuewire.QuickTrade.Quote.Numbers.{source_debit_upper_bound, executable_estimate}
use venuewire.QuickTrade.Quote.Numbers.Estimate.{IsModest, executable_estimate-IsModest}
use venuewire.QuickTrade.Quote.Inputs.{
  positive_decimal, non_negative_decimal, parse_rules, parse_book, parse_fee_policy, validate_cap,
  fee_estimate,
}
use venuewire.QuickTrade.Quote.Create.{
  blocked_quote, executable_quote, fee_and_rate, make_quote, check_request, create,
}
use venuewire.QuickTrade.Quote.Planning.{Plan, plan_trade}
use venuewire.QuickTrade.Quote.Create.Order.{
  IsLawful, Legal-IsLawful, parse_rules_pos, parse_book_pos,
}
use venuewire.QuickTrade.Quote.Create.Planned.{plan_trade-ok}
use venuewire.QuickTrade.Quote.Create.Shown.{
  Shows, fee_and_rate-ok, check_request-ok, executable_quote-Shows,
}

module _ (lib : Library) where
  make_quote-ok :
      (s : Service) (request : CreateRequest) (provider : Provider) (route : Route)
      (market : MarketSnapshot) (rules : Rules) (book : Book) (now : ℕ) (spend : Ratio)
      {q : QuickTradeQuote}
      → make_quote lib s request provider route market rules book now spend ≡ ok q
      → q.executable ≡ true
      → (fee : FeePolicy) × (rate : Ratio) × (p : Plan) × (id : Text) × (plan_trade lib provider
            route spend
            (pos_part s.slippage_bps)
            rules
            book
            fee
            rate
          ≡ ok p)
        × (q ≡ executable_quote lib s request route market book fee now spend rate p id)
        × (s.new_id ≡ some id)
        × (provider.fee route ≡ some fee)
        × (parse_fee_policy lib fee ≡ some rate)
  unfolding make_quote blocked_quote
  make_quote-ok s request provider route market rules book now spend {q} h live =
      elim (Option-cases (fee_and_rate lib (provider.fee route))) [
        | inl blocked ↦
            let same : ok (blocked_quote lib s request route market now) ≡ ok q =
              rw (blocked, make_quote) at h in
            absurd (ground arith)
        | inr ((fee, rate), known) ↦
            elim (Result-cases
              (plan_trade lib provider route spend (pos_part s.slippage_bps) rules book fee rate)) [
                | inl (e, refused) ↦ absurd (ground arith)
                | inr (p, planned) ↦ elim (Option-cases s.new_id) [
                  | inl nothing ↦ absurd (ground arith)
                  | inr (id, given) ↦
                      let (policy, known_rate) = fee_and_rate-ok lib (provider.fee route) known in
                      (fee, rate, p, id, planned, ground arith, given, policy, known_rate)
                ]
              ]
      ]

  -- What a quote that can be executed was made from, and what its numbers keep.
  pub record IsBacked (s : Service) (request : CreateRequest) (now : ℕ) (q : QuickTradeQuote)
      : Type 0 where
    pub route : Route
    pub provider : Provider
    pub spend : Ratio
    pub market : MarketSnapshot
    pub rules : Rules
    pub book : Book
    pub fee : FeePolicy
    pub rate : Ratio
    pub plan : Plan
    pub id : Text
    pub checked : check_request lib s request ≡ ok (route, (provider, spend))
    pub observed : provider.market route ≡ some market
    pub read_rules : parse_rules lib route market.rules ≡ ok rules
    pub read_book : parse_book lib market now s.book_max_age ≡ ok book
    pub listed : find_route request.route_id ≡ some route
    pub served : lookup request.venue s.providers ≡ some provider
    pub budget : positive_decimal lib request.spend_budget ≡ some spend
    pub capped : validate_cap lib s.caps route spend ≡ ok tt
    pub fee_is : provider.fee route ≡ some fee
    pub rate_is : parse_fee_policy lib fee ≡ some rate
    pub id_is : s.new_id ≡ some id
    pub shown : q ≡ executable_quote lib s request route market book fee now spend rate plan id
    pub shows : Shows lib q request route spend fee rate plan
    pub lawful :
        IsLawful route.side spend
          (pos_part s.slippage_bps)
          rules
          book
          fee.charge_asset
          rate
          plan.limit
          plan.quantity
    pub debit :
        source_debit_upper_bound route.side plan.quantity plan.limit fee.charge_asset rate
        ≡ plan.debit
    pub capacity : Capacity
    pub capacity_is : provider.available route route.from_asset ≡ some capacity
    pub available_is : non_negative_decimal lib capacity.available ≡ some plan.available
    pub funds : plan.debit ≤R plan.available
    pub filled :
        executable_estimate route.side plan.quantity plan.limit book ≡ (plan.filled, plan.gross)
    pub fees_are :
        fee_estimate lib provider route fee rate plan.filled plan.gross plan.limit
        ≡ ok plan.estimate
    pub modest : IsModest route.side plan.quantity plan.limit (plan.filled, plan.gross)

  planned-IsBacked :
      (s : Service) (request : CreateRequest) (now : ℕ) (route : Route) (provider : Provider)
      (spend : Ratio) (market : MarketSnapshot) (rules : Rules) (book : Book) {q : QuickTradeQuote}
      → check_request lib s request ≡ ok (route, (provider, spend))
      → provider.market route ≡ some market
      → parse_rules lib route market.rules ≡ ok rules
      → parse_book lib market now s.book_max_age ≡ ok book
      → make_quote lib s request provider route market rules book now spend ≡ ok q
      → q.executable ≡ true
      → IsBacked s request now q
  planned-IsBacked s request now route provider spend market rules book checked observed read read'
        made live =
      let (fee, rate, p, id, planned, shown, id_is, fee_is, rate_is) =
        make_quote-ok s request provider route market rules book now spend made live in
      let (listed, served, budget, capped) = check_request-ok lib s request checked in
      let bps = pos_part s.slippage_bps in
      let d = plan_trade-ok lib provider route spend bps rules book fee rate planned in
      let (tick, step) = parse_rules_pos lib route market.rules read in
      record {
        route = route;
        provider = provider;
        spend = spend;
        market = market;
        rules = rules;
        book = book;
        fee = fee;
        rate = rate;
        plan = p;
        id = id;
        checked = checked;
        observed = observed;
        read_rules = read;
        read_book = read';
        listed = listed;
        served = served;
        budget = budget;
        capped = capped;
        fee_is = fee_is;
        rate_is = rate_is;
        id_is = id_is;
        shown = shown;
        shows =
            subst (λ x. Shows lib x request route spend fee rate p) (sym shown)
              (executable_quote-Shows lib s request route market book fee now spend rate p id);
        capacity = d.capacity;
        capacity_is = d.capacity_is;
        available_is = d.available_is;
        filled = d.estimate;
        fees_are = d.fees_are;
        lawful =
            Legal-IsLawful route.side spend bps rules book fee.charge_asset rate tick step
              (parse_book_pos lib market now s.book_max_age read') d.legal;
        debit = d.debit;
        funds = d.funds;
        modest =
            subst (λ e. IsModest route.side p.quantity p.limit e) d.estimate
              (executable_estimate-IsModest route.side p.quantity p.limit book);
      }

  -- A quote that `Create` makes and that can be executed comes from a checked request, with a budget
  -- within the caps, and from the market, the fee policy and the capacity that its venue answered,
  -- and it shows the numbers of its plan: at most the budget and at most what the venue has available
  -- leaves the source, fees included; the limit price is within the price protection, can meet the
  -- book, and is a whole number of ticks; the quantity is a whole number of steps and at least the
  -- minimum; and the estimate fills no more than the order and shows a seller at least the worth of
  -- the fill at the limit.
  pub create-IsBacked :
      (s : Service) (request : CreateRequest) (now : ℕ) {q : QuickTradeQuote}
      → create lib s request now ≡ ok q
      → q.executable ≡ true
      → IsBacked s request now q
  unfolding create
  create-IsBacked s request now {q} h live = elim (Result-cases (check_request lib s request)) [
    | inl (e, refused) ↦ absurd (ground arith)
    | inr ((route, (provider, spend)), checked) ↦ elim (Option-cases (provider.market route)) [
      | inl missing ↦ absurd (ground arith)
      | inr (market, observed) ↦ elim (Result-cases (parse_rules lib route market.rules)) [
        | inl (e, refused) ↦ absurd (ground arith)
        | inr (rules, read) ↦ elim (Result-cases (parse_book lib market now s.book_max_age)) [
          | inl (e, refused) ↦ absurd (ground arith)
          | inr (book, read') ↦
              planned-IsBacked s request now route provider spend market rules book checked observed
                read read' (ground arith) live
        ]
      ]
    ]
  ]
