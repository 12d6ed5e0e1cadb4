-- ===== src/QuickTrade/Quote/Create/Order.antt =====
-- What the checks before a quote guarantee of its order.
use venuewire.Prelude.{
  ℕ, zero, suc, ◌*◌, ◌≤◌, ◌<◌, ◌≡◌, refl, ap, ◌∙◌, subst, inl, inr, true, false, some, List, [],
  ◌∷◌, leb→le, Text, ok, Result-cases, arith,
}
use native.Mathlib.Nat.{mul-pos}
use venuewire.Prelude.Int.{ℤ}
use venuewire.Prelude.Ratio.{Ratio, ltb_ratio, ◌≤R◌, mul}
use venuewire.QuickTrade.Quote.Types.{
  Side, buy, sell, Route, InstrumentRules, BookLevel, MarketSnapshot, Rules, Level, Book, Library,
}
use venuewire.QuickTrade.Quote.Numbers.{
  protected_limit, maximum_base_quantity, source_debit_upper_bound,
}
use venuewire.QuickTrade.Quote.Numbers.Bounds.{
  IsPriced, IsProtected, IsTicks, source_debit_upper_bound-≤R, protected_limit-IsProtected,
  protected_limit-IsTicks, maximum_base_quantity-IsTicks,
}
use venuewire.QuickTrade.Quote.Inputs.{
  positive_decimal, parse_rules, parse_levels, check_book, parse_book,
}
use venuewire.QuickTrade.Quote.Planning.{is_marketable, is_above, is_below, plan_order}

-- What `plan_order` accepts.
pub record Legal (side : Side) (spend : Ratio) (bps : ℕ) (rules : Rules) (book : Book) (c : Text)
    (rate limit quantity : Ratio) : Type 0 where
  pub limit_is : protected_limit side book.best_bid book.best_ask rules.tick bps ≡ limit
  pub quantity_is : maximum_base_quantity side spend limit rules.step c rate ≡ quantity
  pub marketable : is_marketable side limit book ≡ true
  pub minimum : ltb_ratio quantity rules.minimum_quantity ≡ false
  pub maximum : is_above quantity rules.maximum_quantity ≡ false
  pub notional : is_below (mul quantity limit) rules.minimum_notional ≡ false

pub plan_order-ok :
    (side : Side) (spend : Ratio) (bps : ℕ) (rules : Rules) (book : Book) (c : Text) (rate : Ratio)
    {limit quantity : Ratio}
    → plan_order side spend bps rules book c rate ≡ ok (limit, quantity)
    → Legal side spend bps rules book c rate limit quantity
unfolding plan_order
plan_order-ok side spend bps rules book c rate h = ground arith

module _ (lib : Library) where
  pub positive_decimal_pos :
      (raw : Text) {r : Ratio} → positive_decimal lib raw ≡ some r → 0 < r.num
  unfolding positive_decimal
  positive_decimal_pos raw h = ground arith

  parse_rules-ok :
      (route : Route) (rules : InstrumentRules) {r : Rules}
      → parse_rules lib route rules ≡ ok r
      → (positive_decimal lib rules.tick_size ≡ some r.tick)
        × (positive_decimal lib rules.quantity_step ≡ some r.step)
  unfolding parse_rules
  parse_rules-ok route rules {r} h = ground arith

  pub parse_rules_pos :
      (route : Route) (rules : InstrumentRules) {r : Rules}
      → parse_rules lib route rules ≡ ok r
      → (0 < r.tick.num) × (0 < r.step.num)
  parse_rules_pos route rules h =
      let (tick, step) = parse_rules-ok route rules h in
      (positive_decimal_pos rules.tick_size tick, positive_decimal_pos rules.quantity_step step)

  parse_levels-ok :
      (b : BookLevel) (ls : List BookLevel) {l : Level} {rest : List Level}
      → parse_levels lib (b ∷ ls) ≡ ok (l ∷ rest)
      → positive_decimal lib b.price ≡ some l.price
  unfolding parse_levels
  parse_levels-ok b ls {l} {rest} h = ground arith

  parse_levels_pos :
      (ls : List BookLevel) {l : Level} {rest : List Level}
      → parse_levels lib ls ≡ ok (l ∷ rest)
      → 0 < l.price.num
  unfolding parse_levels
  parse_levels_pos [] h = cc h
  parse_levels_pos (b ∷ ls) {l} {rest} h = positive_decimal_pos b.price (parse_levels-ok b ls h)

  check_book-ok :
      (bids asks : List Level) {book : Book}
      → check_book lib bids asks ≡ ok book
      → (a : Level) × (rest : List Level) × (asks ≡ a ∷ rest) × (a.price ≡ book.best_ask)
  unfolding check_book
  check_book-ok [] asks h = cc h
  check_book-ok (b ∷ bids) [] h = cc h
  check_book-ok (b ∷ bids) (a ∷ asks) {book} h = (a, asks, refl, ground arith)

  pub parse_book_pos :
      (market : MarketSnapshot) (now : ℕ) (max_age : ℤ) {book : Book}
      → parse_book lib market now max_age ≡ ok book
      → 0 < book.best_ask.num
  unfolding parse_book
  parse_book_pos market now max_age {book} h = elim (Result-cases (parse_levels lib market.bids)) [
    | inl (e, refused) ↦ absurd (ground arith)
    | inr (bids, read) ↦ elim (Result-cases (parse_levels lib market.asks)) [
      | inl (e, refused) ↦ absurd (ground arith)
      | inr (asks, read') ↦
          let checked : check_book lib bids asks ≡ ok book = ground arith in
          let (a, rest, eq, price) = check_book-ok bids asks checked in
          subst (λ (x : Ratio). 0 < x.num) price (parse_levels_pos market.asks (read' ∙ ap ok eq))
    ]
  ]

pos_of_mul : (n d : ℕ) → 0 < n * d → 0 < n
pos_of_mul zero d h = omega arith
pos_of_mul (suc n) d h = omega arith

-- A buyer's limit that can meet the best ask is positive.
marketable-IsPriced :
    (side : Side) (limit : Ratio) (book : Book)
    → 0 < book.best_ask.num
    → is_marketable side limit book ≡ true
    → IsPriced side limit
marketable-IsPriced buy limit book h m =
    let meets : book.best_ask.num * limit.den ≤ limit.num * book.best_ask.den = leb→le _ _ m in
    pos_of_mul limit.num book.best_ask.den (omega (arith, mul-pos h limit.den_pos))
marketable-IsPriced sell limit book h m = tt

-- An order within its budget, its price protection and the steps of the instrument.
pub record IsLawful (side : Side) (spend : Ratio) (bps : ℕ) (rules : Rules) (book : Book) (c : Text)
    (rate limit quantity : Ratio) : Type 0 where
  pub budget : source_debit_upper_bound side quantity limit c rate ≤R spend
  pub protected : IsProtected side book.best_bid book.best_ask bps limit
  pub marketable : is_marketable side limit book ≡ true
  pub ticks : IsTicks limit rules.tick
  pub lots : IsTicks quantity rules.step
  pub minimum : rules.minimum_quantity ≤R quantity

pub Legal-IsLawful :
    (side : Side) (spend : Ratio) (bps : ℕ) (rules : Rules) (book : Book) (c : Text) (rate : Ratio)
    {limit quantity : Ratio}
    → 0 < rules.tick.num
    → 0 < rules.step.num
    → 0 < book.best_ask.num
    → Legal side spend bps rules book c rate limit quantity
    → IsLawful side spend bps rules book c rate limit quantity
Legal-IsLawful side spend bps rules book c rate {limit} {quantity} tick step ask l = record {
  budget =
      subst (λ q. source_debit_upper_bound side q limit c rate ≤R spend) l.quantity_is
        (source_debit_upper_bound-≤R side spend limit rules.step rate c
          (marketable-IsPriced side limit book ask l.marketable) step);
  protected =
      subst (λ p. IsProtected side book.best_bid book.best_ask bps p) l.limit_is
        (protected_limit-IsProtected side book.best_bid book.best_ask rules.tick bps tick);
  marketable = l.marketable;
  ticks =
      subst (λ p. IsTicks p rules.tick) l.limit_is
        (protected_limit-IsTicks side book.best_bid book.best_ask rules.tick bps);
  lots =
      subst (λ q. IsTicks q rules.step) l.quantity_is
        (maximum_base_quantity-IsTicks side spend limit rules.step rate c);
  minimum = ground (arith, l.minimum);
}
