-- ===== src/QuickTrade/Quote/Validate/Sound.antt =====
-- What a quote keeps that `ValidateForConfirm` accepts.
use venuewire.Prelude.{
  ℕ, ◌<◌, ◌≡◌, inl, inr, true, false, Option, none, some, text_eq, same, ok, Option-cases,
  Result-cases, arith,
}
use venuewire.Prelude.Map.{lookup}
use venuewire.Prelude.Ratio.{Ratio, ◌≤R◌, mul}
use venuewire.Intent.Types.{QuickTradeQuote}
use venuewire.QuickTrade.Quote.Types.{
  Side, Route, MarketSnapshot, Provider, Service, Capacity, Rules, Book, Library, find_route,
}
use venuewire.QuickTrade.Quote.Numbers.{floor_to_step}
use venuewire.QuickTrade.Quote.Inputs.{
  positive_decimal, non_negative_decimal, parse_rules, parse_book, validate_cap,
}
use venuewire.QuickTrade.Quote.Planning.{is_above, is_below, is_marketable}
use venuewire.QuickTrade.Quote.Validate.{
  is_in_scope, in_scope, check_order, check_funds, check_fee, validate_for_confirm,
}

-- The same number, maybe with another denominator.
infix 50 ◌≈R◌
pub ◌≈R◌ : Ratio → Ratio → Type 0
a ≈R b = (a ≤R b) × (b ≤R a)

module _ (lib : Library) where
  -- The order of a quote, on the steps of the instrument and against the book.
  pub record IsOrder (side : Side) (q : QuickTradeQuote) (rules : Rules) (book : Book)
      : Type 0 where
    pub limit : Ratio
    pub quantity : Ratio
    pub limit_is : positive_decimal lib q.limit_price ≡ some limit
    pub quantity_is : positive_decimal lib q.base_qty ≡ some quantity
    pub ticks : limit ≈R floor_to_step limit rules.tick
    pub lots : quantity ≈R floor_to_step quantity rules.step
    pub minimum : rules.minimum_quantity ≤R quantity
    pub maximum : is_above quantity rules.maximum_quantity ≡ false
    pub notional : is_below (mul quantity limit) rules.minimum_notional ≡ false
    pub marketable : is_marketable side limit book ≡ true

  check_order-IsOrder :
      (side : Side) (q : QuickTradeQuote) (rules : Rules) (book : Book)
      → check_order lib side q rules book ≡ ok tt
      → IsOrder side q rules book
  unfolding check_order
  check_order-IsOrder side q rules book h =
      elim (Option-cases (positive_decimal lib q.limit_price)) [
        | inl bad ↦ absurd (ground arith)
        | inr (limit, l) ↦ elim (Option-cases (positive_decimal lib q.base_qty)) [
          | inl bad ↦ absurd (ground arith)
          | inr (quantity, b) ↦ record {
            limit = limit;
            quantity = quantity;
            limit_is = l;
            quantity_is = b;
            ticks = unfold ◌≈R◌ in (ground arith, ground arith);
            lots = unfold ◌≈R◌ in (ground arith, ground arith);
            minimum = ground arith;
            maximum = ground arith;
            notional = ground arith;
            marketable = ground arith;
          }
        ]
      ]

  -- The source amount is there.
  pub record IsFunded (provider : Provider) (route : Route) (q : QuickTradeQuote) : Type 0 where
    pub debit : Ratio
    pub available : Ratio
    pub capacity : Capacity
    pub debit_is : positive_decimal lib q.source_debit_upper_bound ≡ some debit
    pub capacity_is : provider.available route route.from_asset ≡ some capacity
    pub available_is : non_negative_decimal lib capacity.available ≡ some available
    pub funds : debit ≤R available

  check_funds-IsFunded :
      (provider : Provider) (route : Route) (q : QuickTradeQuote)
      → check_funds lib provider route q ≡ ok tt
      → IsFunded provider route q
  unfolding check_funds
  check_funds-IsFunded provider route q h =
      elim (Option-cases (positive_decimal lib q.source_debit_upper_bound)) [
        | inl bad ↦ absurd (ground arith)
        | inr (debit, d) ↦ elim (Option-cases (provider.available route route.from_asset)) [
          | inl bad ↦ absurd (ground arith)
          | inr (capacity, c) ↦ elim (Option-cases (non_negative_decimal lib capacity.available)) [
            | inl bad ↦ absurd (ground arith)
            | inr (available, a) ↦ record {
              debit = debit;
              available = available;
              capacity = capacity;
              debit_is = d;
              capacity_is = c;
              available_is = a;
              funds = ground arith;
            }
          ]
        ]
      ]

  -- A quote that can be executed now.
  pub record IsReady (s : Service) (q : QuickTradeQuote) (now : ℕ) : Type 0 where
    pub route : Route
    pub provider : Provider
    pub spend : Ratio
    pub market : MarketSnapshot
    pub rules : Rules
    pub book : Book
    pub executable : q.executable ≡ true
    pub live : now < q.expires_at
    pub listed : find_route q.route_id ≡ some route
    pub scope : is_in_scope lib route q ≡ true
    pub served : lookup route.venue s.providers ≡ some provider
    pub budget : positive_decimal lib q.spend_budget ≡ some spend
    pub capped : validate_cap lib s.caps route spend ≡ ok tt
    pub observed : provider.market route ≡ some market
    pub revision : same market.rules.metadata_revision q.metadata_revision ≡ true
    pub read_rules : parse_rules lib route market.rules ≡ ok rules
    pub read_book : parse_book lib market now s.book_max_age ≡ ok book
    pub order : IsOrder route.side q rules book
    pub funded : IsFunded provider route q
    pub fee : check_fee lib provider route q ≡ ok tt

  in_scope-ok :
      (o : Option Route) (q : QuickTradeQuote) {r : Route}
      → in_scope lib o q ≡ ok r
      → (o ≡ some r) × (is_in_scope lib r q ≡ true)
  unfolding in_scope
  in_scope-ok none q h = cc h
  in_scope-ok (some r) q h = ground arith

  -- `ValidateForConfirm` accepts a quote only while it is marked executable and has not expired, on
  -- the route that it names, for an amount within the caps, and against the venue's market of the
  -- moment: same revision of the rules, limit and quantity on the steps and within the bounds of
  -- the instrument, a limit that can still meet the book, and the source amount available.
  pub validate_for_confirm-IsReady :
      (s : Service) (q : QuickTradeQuote) (now : ℕ)
      → validate_for_confirm lib s q now ≡ ok tt
      → IsReady s q now
  unfolding validate_for_confirm
  validate_for_confirm-IsReady s q now h =
      elim (Result-cases (in_scope lib (find_route q.route_id) q)) [
        | inl (e, refused) ↦ absurd (ground arith)
        | inr (route, scoped) ↦ elim (Option-cases (lookup route.venue s.providers)) [
          | inl missing ↦ absurd (ground arith)
          | inr (provider, served) ↦ elim (Option-cases (positive_decimal lib q.spend_budget)) [
            | inl bad ↦ absurd (ground arith)
            | inr (spend, budget) ↦ elim (Option-cases (provider.market route)) [
              | inl missing ↦ absurd (ground arith)
              | inr (market, observed) ↦ elim (Result-cases (parse_rules lib route market.rules)) [
                | inl (e, refused) ↦ absurd (ground arith)
                | inr (rules, read) ↦
                    elim (Result-cases (parse_book lib market now s.book_max_age)) [
                      | inl (e, refused) ↦ absurd (ground arith)
                      | inr (book, read') ↦
                          let (listed, scope) = in_scope-ok (find_route q.route_id) q scoped in
                          record {
                            route = route;
                            provider = provider;
                            spend = spend;
                            market = market;
                            rules = rules;
                            book = book;
                            executable = ground arith;
                            live = ground arith;
                            listed = listed;
                            scope = scope;
                            served = served;
                            budget = budget;
                            capped = ground arith;
                            observed = observed;
                            revision = ground arith;
                            read_rules = read;
                            read_book = read';
                            order = check_order-IsOrder route.side q rules book (ground arith);
                            funded = check_funds-IsFunded provider route q (ground arith);
                            fee = ground arith;
                          }
                    ]
              ]
            ]
          ]
        ]
      ]
