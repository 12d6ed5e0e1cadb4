-- ===== src/Intent/Confirm.antt =====
-- `ConfirmQuickTrade` of internal/intent/quicktrade.go, with its validation and its quotas.
pub mod Cases
pub mod Indexes
pub mod Repeat
pub mod Quotas
use venuewire.Prelude.{
  ℕ, ◌-◌, ◌*◌, ◌^◌, Bool, true, false, not, ◌||◌, Option, none, some, List, [], ◌∷◌, ◌++◌, leb,
  if◌then◌else◌, Text, text_eq, same, is_empty, trim_space, codes, Result, ok, err, ◌>>=◌, ◌>>◌,
  refuse_if, or_err,
}
use venuewire.Prelude.Int.{ℤ, pos, leb_ℤ}
use venuewire.Prelude.Map.{Map, lookup, insert, tally}
use venuewire.Intent.Types.{
  TradeStatus, unset, created, pending_submit, TradeFee, QuickTradeQuote, QuickTrade, Snapshot,
  Fault, trade_not_found, request_index_inconsistent, quote_index_inconsistent, cannot_dispatch,
  confirm_error, invalid_confirmation, quote_ownership_mismatch, quote_not_executable,
  invalid_demo_limits, idempotency_conflict, quote_expired, intent_id_conflict, session_trade_limit,
  hourly_trade_limit, account_busy,
}
use venuewire.Intent.Status.{eq_status, active, apply_trade_status}
use venuewire.Intent.Disk.{File, Env, Outcome, load, update}

-- `QuickTradeConfirmation`.
pub record Confirmation : Type 0 where
  pub intent_id : Text
  pub identity : Text
  pub session_id : Text
  pub client_request_id : Text
  pub client_order_id : Text
  pub quote : QuickTradeQuote

pub record DemoLimits : Type 0 where
  pub max_trades_per_session : ℤ
  pub max_trades_per_hour : ℤ
  pub max_concurrent_trades : ℤ

abbrev pub is_blank : Text → Bool
is_blank s = is_empty (trim_space s)

-- The source walks the seven required fields in any order; the code of the error is one.
unfoldable pub validate_confirmation : Confirmation → DemoLimits → Result Fault (Unit {0})
validate_confirmation v limits = do
  refuse_if
      (is_blank v.intent_id
        || is_blank v.identity
        || is_blank v.session_id
        || is_blank v.client_request_id
        || is_blank v.client_order_id
        || is_blank v.quote.id
        || is_blank v.quote.identity)
      (confirm_error invalid_confirmation)
  refuse_if (not (same v.identity v.quote.identity)) (confirm_error quote_ownership_mismatch)
  refuse_if (not v.quote.executable) (confirm_error quote_not_executable)
  refuse_if
      (leb_ℤ limits.max_trades_per_session (pos 0)
        || leb_ℤ limits.max_trades_per_hour (pos 0)
        || leb_ℤ limits.max_concurrent_trades (pos 0))
      (confirm_error invalid_demo_limits)

unfoldable pub quick_request_key : Text → Text → Text
quick_request_key identity request_id = trim_space identity ++ (0 ∷ trim_space request_id)

-- `m[key]` on a map of strings: the empty string where there is none.
unfoldable pub index_at : Text → Map Text Text → Text
index_at key m = elim (lookup key m) [ none ↦ [] | some v ↦ v ]

abbrev pub hour : ℕ
hour = 3600 * 10 ^ 9

abbrev pub in_session : Text → QuickTrade → Bool
in_session session t = same t.session_id session

-- `!trade.CreatedAt.Before(now - 1h)`.
abbrev pub in_last_hour : ℕ → QuickTrade → Bool
in_last_hour now t = leb (now - hour) t.created_at

abbrev pub is_active : QuickTrade → Bool
is_active t = active t.status

unfoldable pub new_trade : Confirmation → ℕ → QuickTrade
new_trade c now = record {
  id = c.intent_id;
  identity = c.identity;
  session_id = c.session_id;
  client_request_id = c.client_request_id;
  quote = c.quote;
  client_order_id = c.client_order_id;
  venue_order_id = [];
  status = created;
  raw_venue_status = [];
  result_status = [];
  send_attempted = false;
  filled_base_qty = [];
  average_price = [];
  gross_source_spent = [];
  gross_destination_received = [];
  fees = [];
  net_destination_received = [];
  actual_source_debit = [];
  fill_details_status = codes "pending";
  fee_details_status = codes "pending";
  balance_sync_status = codes "pending";
  created_at = now;
  updated_at = now;
  submitted_at = none;
  terminal_at = none;
  last_checked_at = none;
  last_public_error = [];
  lifecycle = record { status = created; at = now; detail = []; request_id = [] } ∷ [];
}

-- The three quotas, and then the new trade with its two index entries.
unfoldable pub admit :
    Confirmation → DemoLimits → ℕ → Snapshot → Result Fault (Snapshot × (QuickTrade × Bool))
unfolding new_trade
admit c limits now s = do
  refuse_if
      (leb_ℤ limits.max_trades_per_session (pos (tally (in_session c.session_id) s.quick_trades)))
      (confirm_error session_trade_limit)
  refuse_if (leb_ℤ limits.max_trades_per_hour (pos (tally (in_last_hour now) s.quick_trades)))
      (confirm_error hourly_trade_limit)
  refuse_if (leb_ℤ limits.max_concurrent_trades (pos (tally is_active s.quick_trades)))
      (confirm_error account_busy)
  let key = quick_request_key c.identity c.client_request_id
  ok (
    record s {
      quick_trades = insert c.intent_id (new_trade c now) s.quick_trades;
      quick_requests = insert key c.intent_id s.quick_requests;
      consumed_quotes = insert c.quote.id c.intent_id s.consumed_quotes;
    },
    (new_trade c now, true),
  )

-- A quote that no trade has used yet.
unfoldable pub confirm_fresh :
    Confirmation → DemoLimits → ℕ → Snapshot → Result Fault (Snapshot × (QuickTrade × Bool))
unfolding admit
confirm_fresh c limits now s = do
  refuse_if (leb c.quote.expires_at now) (confirm_error quote_expired)
  elim (lookup c.intent_id s.quick_trades) [
    | some _ ↦ err (confirm_error intent_id_conflict)
    | none ↦ admit c limits now s
  ]

-- A quote that trade `intent_id` has used: the request is added to that trade.
unfoldable pub adopt_trade :
    Confirmation → Text → Snapshot → Result Fault (Snapshot × (QuickTrade × Bool))
adopt_trade c intent_id s = do
  existing ← or_err (lookup intent_id s.quick_trades) quote_index_inconsistent
  let key = quick_request_key c.identity c.client_request_id
  ok (record s { quick_requests = insert key intent_id s.quick_requests }, (existing, false))

-- A request ID that was not seen before.
unfoldable pub confirm_quote :
    Confirmation → DemoLimits → ℕ → Snapshot → Result Fault (Snapshot × (QuickTrade × Bool))
unfolding confirm_fresh adopt_trade
confirm_quote c limits now s =
    let intent_id = index_at c.quote.id s.consumed_quotes in
    if is_empty intent_id then confirm_fresh c limits now s else adopt_trade c intent_id s

-- A request ID that trade `intent_id` holds already.
unfoldable pub replay_trade :
    Confirmation → Text → Snapshot → Result Fault (Snapshot × (QuickTrade × Bool))
replay_trade c intent_id s = do
  existing ← or_err (lookup intent_id s.quick_trades) request_index_inconsistent
  refuse_if (not (same existing.quote.id c.quote.id)) (confirm_error idempotency_conflict)
  ok (s, (existing, false))

-- The function that `ConfirmQuickTrade` hands to `update`.
unfoldable pub confirm_in :
    Confirmation → DemoLimits → ℕ → Snapshot → Result Fault (Snapshot × (QuickTrade × Bool))
unfolding confirm_quote replay_trade
confirm_in c limits now s =
    let intent_id = index_at (quick_request_key c.identity c.client_request_id) s.quick_requests in
    if is_empty intent_id then confirm_quote c limits now s else replay_trade c intent_id s

-- `none` is the zero trade with `created = false`.
unfoldable pub confirm_quick_trade :
    Env → File → Confirmation → DemoLimits → ℕ → Outcome (QuickTrade × Bool)
unfolding confirm_in
confirm_quick_trade env file c limits now = elim (validate_confirmation c limits) [
  | err e ↦ record { file = file; value = none; fault = some e }
  | ok _ ↦ update env file (confirm_in c limits now)
]
