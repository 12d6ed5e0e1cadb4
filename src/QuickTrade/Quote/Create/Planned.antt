-- ===== src/QuickTrade/Quote/Create/Planned.antt =====
-- What the numbers of a quote keep.
use venuewire.Prelude.{
  ℕ, ◌≡◌, ap, sym, ◌∙◌, subst, inl, inr, false, some, text_eq, ok, Option-cases, Result-cases,
  arith,
}
use venuewire.Prelude.Ratio.{Ratio, ltb_ratio, ◌≤R◌}
use venuewire.QuickTrade.Quote.Types.{Route, FeePolicy, Provider, Capacity, Rules, Book, Library}
use venuewire.QuickTrade.Quote.Numbers.{source_debit_upper_bound, executable_estimate}
use venuewire.QuickTrade.Quote.Inputs.{non_negative_decimal, fee_estimate}
use venuewire.QuickTrade.Quote.Planning.{plan_order, Plan, plan_trade}
use venuewire.QuickTrade.Quote.Create.Order.{Legal, plan_order-ok}

module _ (lib : Library) where
  -- What `plan_trade` found out.
  pub record Planned (provider : Provider) (route : Route) (spend : Ratio) (bps : ℕ) (rules : Rules)
      (book : Book) (fee : FeePolicy) (rate : Ratio) (p : Plan) : Type 0 where
    pub legal : Legal route.side spend bps rules book fee.charge_asset rate p.limit p.quantity
    pub debit :
        source_debit_upper_bound route.side p.quantity p.limit fee.charge_asset rate ≡ p.debit
    pub funds : p.debit ≤R p.available
    pub estimate : executable_estimate route.side p.quantity p.limit book ≡ (p.filled, p.gross)
    pub capacity : Capacity
    pub capacity_is : provider.available route route.from_asset ≡ some capacity
    pub available_is : non_negative_decimal lib capacity.available ≡ some p.available
    pub fees_are : fee_estimate lib provider route fee rate p.filled p.gross p.limit ≡ ok p.estimate

  plan_trade-rest :
      (provider : Provider) (route : Route) (spend : Ratio) (bps : ℕ) (rules : Rules) (book : Book)
      (fee : FeePolicy) (rate : Ratio) (limit quantity : Ratio) {p : Plan}
      → plan_order route.side spend bps rules book fee.charge_asset rate ≡ ok (limit, quantity)
      → plan_trade lib provider route spend bps rules book fee rate ≡ ok p
      → (limit ≡ p.limit)
        × (quantity ≡ p.quantity)
        × (source_debit_upper_bound route.side quantity limit fee.charge_asset rate ≡ p.debit)
        × (ltb_ratio p.available p.debit ≡ false)
        × (executable_estimate route.side quantity limit book ≡ (p.filled, p.gross))
        × (fee_estimate lib provider route fee rate p.filled p.gross limit ≡ ok p.estimate)
  unfolding plan_trade
  plan_trade-rest provider route spend bps rules book fee rate limit quantity {p} o h = ground arith

  -- What was available is what the venue answered.
  plan_trade-funds :
      (provider : Provider) (route : Route) (spend : Ratio) (bps : ℕ) (rules : Rules) (book : Book)
      (fee : FeePolicy) (rate : Ratio) (limit quantity : Ratio) {p : Plan}
      → plan_order route.side spend bps rules book fee.charge_asset rate ≡ ok (limit, quantity)
      → plan_trade lib provider route spend bps rules book fee rate ≡ ok p
      → (capacity : Capacity) × (provider.available route route.from_asset ≡ some capacity)
        × (non_negative_decimal lib capacity.available ≡ some p.available)
  unfolding plan_trade
  plan_trade-funds provider route spend bps rules book fee rate limit quantity {p} o h =
      elim (Option-cases (provider.available route route.from_asset)) [
        | inl missing ↦ absurd (ground arith)
        | inr (capacity, there) ↦ (capacity, there, ground arith)
      ]

  pub plan_trade-ok :
      (provider : Provider) (route : Route) (spend : Ratio) (bps : ℕ) (rules : Rules) (book : Book)
      (fee : FeePolicy) (rate : Ratio) {p : Plan}
      → plan_trade lib provider route spend bps rules book fee rate ≡ ok p
      → Planned provider route spend bps rules book fee rate p
  unfolding plan_trade
  plan_trade-ok provider route spend bps rules book fee rate {p} h =
      elim (Result-cases (plan_order route.side spend bps rules book fee.charge_asset rate)) [
        | inl (e, refused) ↦ absurd (ground arith)
        | inr ((limit, quantity), ordered) ↦
            let (l, q, debit, funds, estimate, fees) =
              plan_trade-rest provider route spend bps rules book fee rate limit quantity ordered
                h in
            let (capacity, there, available) =
              plan_trade-funds provider route spend bps rules book fee rate limit quantity ordered
                h in
            let c = fee.charge_asset in
            record {
              legal =
                  subst (λ x. Legal route.side spend bps rules book c rate x p.quantity) l
                    (subst (λ y. Legal route.side spend bps rules book c rate limit y) q
                      (plan_order-ok route.side spend bps rules book c rate ordered));
              debit =
                  sym (ap (λ x. source_debit_upper_bound route.side p.quantity x c rate) l)
                  ∙ (sym (ap (λ y. source_debit_upper_bound route.side y limit c rate) q) ∙ debit);
              funds = ground (arith, funds);
              estimate =
                  sym (ap (λ x. executable_estimate route.side p.quantity x book) l)
                  ∙ (sym (ap (λ y. executable_estimate route.side y limit book) q) ∙ estimate);
              capacity = capacity;
              capacity_is = there;
              available_is = available;
              fees_are =
                  subst
                    (λ x.
                      fee_estimate lib provider route fee rate p.filled p.gross x ≡ ok p.estimate)
                    l fees;
            }
      ]
