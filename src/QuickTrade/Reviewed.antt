-- ===== src/QuickTrade/Reviewed.antt =====
-- `Application.Confirm` with the quotes' own `ValidateForConfirm`.
use venuewire.Prelude.{
  ◌≡◌, refl, ap, sym, ◌∙◌, subst, Bool, true, false, some, Text, text_eq, Result, ok, err, arith,
}
use venuewire.Prelude.Map.{lookup}
use venuewire.Intent.Types.{QuickTradeQuote, QuickTrade, Snapshot}
use venuewire.Intent.Evolution.{Evolves}
use venuewire.Intent.History.Invariant.{load-stored_eq}
use venuewire.Intent.Disk.{File, stored, load}
use venuewire.QuickTrade.Cache.{QuoteCache}
use venuewire.QuickTrade.Application.{World, ConfirmRequest, client_order_id, review, confirm}
use venuewire.QuickTrade.Submission.{Sends, confirm-Sends}
use venuewire.QuickTrade.Quote.Types.{Service, QuoteError, Library}
use venuewire.QuickTrade.Quote.Validate.{validate_for_confirm}
use venuewire.QuickTrade.Quote.Validate.Sound.{IsReady, validate_for_confirm-IsReady}

abbrev pub is_ok : Result QuoteError (Unit {0}) → Bool
is_ok (ok u) = true
is_ok (err e) = false

is_ok-ok : (r : Result QuoteError (Unit {0})) → is_ok r ≡ true → r ≡ ok tt
is_ok-ok (ok tt) h = refl
is_ok-ok (err e) h = cc h

review-valid :
    (w : World) (cache : QuoteCache) (r : ConfirmRequest) {q : QuickTradeQuote} {id : Text}
    → review w cache r ≡ ok (q, id)
    → w.valid q ≡ true
unfolding review
review-valid w cache r {q} {id} h = ground arith

-- What others do to the file leaves every trade in it, the same trade at a later time.
abbrev pub KeepsTrades : (File → File) → Type 0
KeepsTrades others =
    (s : Snapshot) (id : Text) (t : QuickTrade)
    → lookup id s.quick_trades ≡ some t
    → (s' : Snapshot) × (t' : QuickTrade) × (others (stored s) ≡ stored s')
      × (lookup id s'.quick_trades ≡ some t')
      × Evolves t t'

-- What is submitted is the created trade.
sent-created :
    (w : World) (cache : QuoteCache) (r : ConfirmRequest) {t : QuickTrade} {f : File}
    → KeepsTrades w.dispatch.others
    → (sends : Sends w cache r t f)
    → (t.id ≡ sends.id) × (t.quote ≡ sends.quote) × (t.client_order_id ≡ client_order_id sends.id)
sent-created w cache r {t} keeps sends =
    let c = sends.creates in
    let m = sends.is_stored in
    let (s', t', others, there, evolves) = keeps c.after sends.created.id sends.created c.there in
    let opened : load false (stored s') ≡ ok m.before =
      sym (ap (load false) (ap w.dispatch.others c.file ∙ others)) ∙ m.opened in
    let same_snapshot = load-stored_eq s' m.before opened in
    let same_trade : some t' ≡ some m.held =
      sym there ∙ ap (λ s. lookup sends.created.id s.quick_trades) same_snapshot ∙ m.found in
    let eq : t' ≡ m.held = cc same_trade in
    (
      m.same_id ∙ sym (ap (λ x. x.id) eq) ∙ evolves.id ∙ c.id,
      m.same_quote ∙ sym (ap (λ x. x.quote) eq) ∙ evolves.quote ∙ c.quote,
      m.same_order_id
          ∙ sym (ap (λ x. x.client_order_id) eq)
          ∙ evolves.client_order_id
          ∙ c.client_order_id,
    )

-- Where the application validates with `ValidateForConfirm` at the time of the call, and what others
-- do to the file before the dispatch keeps every trade: what a confirmation submits is the trade that
-- it created, stored and marked as sent, under the ID that the review gave it and with the order ID
-- made of it, for the reviewed quote; and this quote is executable, has not expired, and agrees with
-- the venue's market and the available funds at that time.
pub confirm-IsReady :
    (lib : Library) (s : Service) (w : World) (cache : QuoteCache) (r : ConfirmRequest)
    (file : File) {t : QuickTrade} {f : File}
    → ((q : QuickTradeQuote) → w.valid q ≡ is_ok (validate_for_confirm lib s q w.now))
    → KeepsTrades w.dispatch.others
    → (confirm w cache r file).sent ≡ some (t, f)
    → (sends : Sends w cache r t f) × (t.id ≡ sends.id)
      × (t.quote ≡ sends.quote)
      × (t.client_order_id ≡ client_order_id sends.id)
      × IsReady lib s t.quote w.now
confirm-IsReady lib s w cache r file validates keeps h =
    let sends = confirm-Sends w cache r file h in
    let passed = review-valid w cache r sends.reviewed in
    let accepted = is_ok-ok _ (sym (validates sends.quote) ∙ passed) in
    let (id, quote, order_id) = sent-created w cache r keeps sends in
    let ready = validate_for_confirm-IsReady lib s sends.quote w.now accepted in
    (sends, id, quote, order_id, subst (λ q. IsReady lib s q w.now) (sym quote) ready)
