-- ===== src/QuickTrade/Application.antt =====
-- `Application.Confirm` of internal/quicktrade/application.go: a confirmed quote becomes a stored
-- trade, and the stored trade is submitted to the venue.
use venuewire.Prelude.{
  ℕ, ◌+◌, Bool, true, false, not, ◌||◌, Option, none, some, [], ◌∷◌, ◌++◌, ltb, take, drop, length,
  if◌then◌else◌, Text, text_eq, same, is_empty, codes, Result, ok, err, ◌>>=◌, ◌>>◌, refuse_if,
  or_err,
}
use venuewire.Intent.Types.{
  submitted, accepted, rejected, unknown, QuickTradeQuote, QuickTrade, Fault,
}
use venuewire.Intent.Disk.{File, Env}
use venuewire.Intent.Confirm.{Confirmation, DemoLimits, is_blank, confirm_quick_trade}
use venuewire.Intent.Trades.{
  QuickTradeUpdate, mark_quick_trade_dispatching, update_quick_trade, get_quick_trade_by_request,
  get_quick_trade_by_quote,
}
use venuewire.OrderState.Accounts.{utf8}
use venuewire.QuickTrade.Cache.{QuoteCache, get}

pub record ConfirmRequest : Type 0 where
  pub identity : Text
  pub session_id : Text
  pub quote_id : Text
  pub client_request_id : Text

-- What `Submit` answers.
pub data Reply : Type 0 where
  placed : Text → Text → Bool → Reply
  declined : Text → Reply
  lost : Reply

pub data AppError : Type 0 where
  invalid_confirmation idempotency_conflict quote_expired venue_write_unavailable : AppError
  not_valid no_intent_id : AppError
  store_fault : Fault → AppError

-- One call of the store: its environment and its time, and what other processes made of the file
-- since the call before.
pub record Turn : Type 0 where
  pub env : Env
  pub now : ℕ
  pub others : File → File

-- What surrounds a confirmation. `valid` is `Service.ValidateForConfirm`, and the quotes and the
-- submitters are those of the application.
pub record World : Type 0 where
  pub limits : DemoLimits
  pub by_request : Turn
  pub by_quote : Turn
  pub create : Turn
  pub dispatch : Turn
  pub report : Turn
  pub now : ℕ
  pub has_submitter : Text → Bool
  pub valid : QuickTradeQuote → Bool
  pub intent_id : Option Text
  pub submit : QuickTrade → Reply

-- How a confirmation ends: the file, what was submitted and the file at that moment, and the answer.
pub record Confirmed : Type 0 where
  pub file : File
  pub sent : Option (QuickTrade × File)
  pub trade : Option QuickTrade
  pub created : Bool
  pub fault : Option AppError

abbrev no_update : QuickTradeUpdate
no_update = record {
  status = submitted;
  raw_venue_status = [];
  result_status = [];
  venue_order_id = [];
  filled_base_qty = [];
  average_price = [];
  gross_source_spent = [];
  gross_destination_received = [];
  fees = none;
  net_destination_received = [];
  actual_source_debit = [];
  fill_details_status = [];
  fee_details_status = [];
  balance_sync_status = [];
  public_error = [];
  clear_public_error = false;
  lifecycle_detail = [];
  request_id = [];
  checked = false;
}

-- What is stored of the venue's answer.
unfoldable pub report_of : Reply → QuickTradeUpdate
report_of (placed order_id raw is_accepted) = record (no_update) {
  status = if is_accepted then accepted else submitted;
  venue_order_id = order_id;
  raw_venue_status = raw;
}
report_of (declined message) = record (no_update) {
  status = rejected;
  result_status = codes "REJECTED";
  public_error = if is_empty message then codes "The venue rejected the order." else message;
}
report_of lost = record (no_update) {
  status = unknown;
  result_status = codes "OUTCOME_UNKNOWN";
  public_error = codes "The exchange result could not be confirmed.";
}

abbrev app_fault : Option Fault → Option AppError
app_fault none = none
app_fault (some e) = some (store_fault e)

-- The submission, and the report of its result to the store.
unfoldable pub submit_trade : World → QuickTrade → File → Confirmed
unfolding report_of
submit_trade w trade file =
    let t = w.report in
    let out =
      update_quick_trade t.env (t.others file) trade.id (report_of (w.submit trade)) t.now in
    record {
      file = out.file;
      sent = some (trade, file);
      trade = out.value;
      created = true;
      fault = app_fault out.fault;
    }

abbrev pub stop : File → Option QuickTrade → Bool → Option AppError → Confirmed
stop file trade created fault = record {
  file = file;
  sent = none;
  trade = trade;
  created = created;
  fault = fault;
}

-- `MarkQuickTradeDispatching`, and behind it the submission where it reports no error.
unfoldable pub dispatch : World → QuickTrade → File → Confirmed
unfolding submit_trade
dispatch w trade file =
    let t = w.dispatch in
    let out = mark_quick_trade_dispatching t.env (t.others file) trade.id t.now in
    elim out.fault [
      | some e ↦ stop out.file out.value true (some (store_fault e))
      | none ↦ elim out.value [
        | none ↦ stop out.file none true none
        | some marked ↦ submit_trade w marked out.file
      ]
    ]

-- `ConfirmQuickTrade`, and behind it the dispatch where it created a trade.
unfoldable pub create_trade : World → Confirmation → File → Confirmed
unfolding dispatch
create_trade w c file =
    let out = confirm_quick_trade w.create.env (w.create.others file) c w.limits w.now in
    elim out.fault [
      | some e ↦ elim out.value [
        | none ↦ stop out.file none false (some (store_fault e))
        | some (trade, created) ↦ stop out.file (some trade) created (some (store_fault e))
      ]
      | none ↦ elim out.value [
        | none ↦ stop out.file none false none
        | some (trade, created) ↦ elim created [
          | false ↦ stop out.file (some trade) false none
          | true ↦ dispatch w trade out.file
        ]
      ]
    ]

-- `strings.TrimPrefix(id, "trade_")`.
trim_prefix : Text → Text
trim_prefix id = if same (take 6 id) (codes "trade_") then drop 6 id else id

-- `clientOrderID`. Intent IDs are ASCII, so that a character is a byte.
unfoldable pub client_order_id : Text → Text
unfolding trim_prefix
client_order_id id = take 36 (codes "vw-" ++ trim_prefix id)

abbrev pub make_confirmation : ConfirmRequest → Text → QuickTradeQuote → Confirmation
make_confirmation r id quote = record {
  intent_id = id;
  identity = r.identity;
  session_id = r.session_id;
  client_request_id = r.client_request_id;
  client_order_id = client_order_id id;
  quote = quote;
}

-- `len` of a string: its bytes.
unfoldable pub byte_length : Text → ℕ
unfolding utf8
byte_length [] = 0
byte_length (c ∷ s) = length (utf8 c) + byte_length s

-- The checks before anything is stored: the quote and the new intent ID.
unfoldable pub review :
    World → QuoteCache → ConfirmRequest → Result AppError (QuickTradeQuote × Text)
unfolding get
review w cache r = do
  quote ← or_err (get r.quote_id r.identity w.now cache).0 quote_expired
  refuse_if (not (w.has_submitter quote.venue)) venue_write_unavailable
  refuse_if (not (w.valid quote)) not_valid
  id ← or_err w.intent_id no_intent_id
  ok (quote, id)

-- A request and a quote that no trade has.
unfoldable pub confirm_new : World → QuoteCache → ConfirmRequest → File → Confirmed
unfolding review create_trade client_order_id
confirm_new w cache r file = elim (review w cache r) [
  | err e ↦ stop file none false (some e)
  | ok (quote, id) ↦ create_trade w (make_confirmation r id quote) file
]

unfoldable pub confirm_by_quote : World → QuoteCache → ConfirmRequest → File → Confirmed
unfolding confirm_new
confirm_by_quote w cache r file =
    let f = w.by_quote.others file in
    elim (get_quick_trade_by_quote false f r.quote_id) [
      | err e ↦ stop f none false (some (store_fault e))
      | ok (some existing) ↦ stop f (some existing) false none
      | ok none ↦ confirm_new w cache r f
    ]

unfoldable pub confirm_by_request : World → QuoteCache → ConfirmRequest → File → Confirmed
unfolding confirm_by_quote
confirm_by_request w cache r file =
    let f = w.by_request.others file in
    elim (get_quick_trade_by_request false f r.identity r.client_request_id) [
      | err e ↦ stop f none false (some (store_fault e))
      | ok (some existing) ↦
          if same existing.quote.id r.quote_id
          then stop f (some existing) false none
          else stop f none false (some idempotency_conflict)
      | ok none ↦ confirm_by_quote w cache r f
    ]

-- `Confirm`.
unfoldable pub confirm : World → QuoteCache → ConfirmRequest → File → Confirmed
unfolding confirm_by_request byte_length
confirm w cache r file =
    if is_blank r.identity
      || is_blank r.session_id
      || is_blank r.quote_id
      || is_blank r.client_request_id
      || ltb 128 (byte_length r.client_request_id)
    then stop file none false (some invalid_confirmation)
    else confirm_by_request w cache r file
