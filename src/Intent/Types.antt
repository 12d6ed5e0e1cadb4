-- ===== src/Intent/Types.antt =====
-- The data of the intent store: internal/intent/store.go and internal/intent/quicktrade.go.
-- A `time.Time` is its distance from the epoch in nanoseconds; the pointers to a time are options.
use venuewire.Prelude.{ℕ, Bool, List, Option, Text}
use venuewire.Prelude.Int.{ℤ}
use venuewire.Prelude.Map.{Map}

-- `Status`, the state of a plan.
pub data PlanStatus : Type 0 where
  planned executing submitted rejected outcome_unknown expired needs_review : PlanStatus

pub record Plan : Type 0 where
  pub id : Text
  pub venue : Text
  pub environment : Text
  pub account_alias : Text
  pub instrument : Text
  pub settlement_currency : Text
  pub side : Text
  pub order_type : Text
  pub transport : Text
  pub amount : Text
  pub amount_unit : Text
  pub price : Text
  pub time_in_force : Text
  pub post_only : Bool
  pub reduce_only : Bool
  pub mark_price : Text
  pub valid_tick : Text
  pub estimated_notional_usd : Text
  pub metadata_at : ℕ
  pub price_at : ℕ
  pub cod_protected : Bool
  pub open_order_count : ℤ
  pub aggregate_open_usd : Text
  pub created_at : ℕ
  pub expires_at : ℕ
  pub status : PlanStatus
  pub attempt : ℕ
  pub native_order_id : Text
  pub last_error : Text

pub record TradeCursor : Type 0 where
  pub timestamp : ℤ
  pub trade_id : Text

-- `unset` is the empty string, which an update uses for "leave the status alone".
pub data TradeStatus : Type 0 where
  unset created pending_submit submitted accepted partially_filled : TradeStatus
  filled pending_cancel cancelled rejected unknown : TradeStatus

pub record TradeFee : Type 0 where
  pub asset : Text
  pub amount : Text
  pub kind : Text

pub record QuoteFee : Type 0 where
  pub asset : Text
  pub estimated_amount : Text
  pub source : Text
  pub calculation_basis : Text

pub record AssetReserve : Type 0 where
  pub asset : Text
  pub amount : Text

pub record TradeLifecycleEvent : Type 0 where
  pub status : TradeStatus
  pub at : ℕ
  pub detail : Text
  pub request_id : Text

pub record QuickTradeQuote : Type 0 where
  pub id : Text
  pub identity : Text
  pub venue : Text
  pub environment : Text
  pub account_alias : Text
  pub route_id : Text
  pub from_asset : Text
  pub to_asset : Text
  pub spend_budget : Text
  pub instrument : Text
  pub side : Text
  pub base_qty : Text
  pub limit_price : Text
  pub time_in_force : Text
  pub reference_bid : Text
  pub reference_ask : Text
  pub book_observed_at : ℕ
  pub metadata_revision : Text
  pub price_protection_bps : ℤ
  pub gross_receive_estimate : Text
  pub net_receive_estimate : Text
  pub estimated_fees : List QuoteFee
  pub fee_rate : Text
  pub fee_charge_asset : Text
  pub source_debit_upper_bound : Text
  pub third_asset_reserves : List AssetReserve
  pub account_revision : ℕ
  pub created_at : ℕ
  pub expires_at : ℕ
  pub warnings : List Text
  pub executable : Bool
  pub blocked_reason : Text

pub record QuickTrade : Type 0 where
  pub id : Text
  pub identity : Text
  pub session_id : Text
  pub client_request_id : Text
  pub quote : QuickTradeQuote
  pub client_order_id : Text
  pub venue_order_id : Text
  pub status : TradeStatus
  pub raw_venue_status : Text
  pub result_status : Text
  pub send_attempted : Bool
  pub filled_base_qty : Text
  pub average_price : Text
  pub gross_source_spent : Text
  pub gross_destination_received : Text
  pub fees : List TradeFee
  pub net_destination_received : Text
  pub actual_source_debit : Text
  pub fill_details_status : Text
  pub fee_details_status : Text
  pub balance_sync_status : Text
  pub created_at : ℕ
  pub updated_at : ℕ
  pub submitted_at : Option ℕ
  pub terminal_at : Option ℕ
  pub last_checked_at : Option ℕ
  pub last_public_error : Text
  pub lifecycle : List TradeLifecycleEvent

pub record Snapshot : Type 0 where
  pub version : ℤ
  pub updated_at : ℕ
  pub plans : Map Text Plan
  pub cursors : Map Text TradeCursor
  pub quick_trades : Map Text QuickTrade
  pub quick_requests : Map Text Text
  pub consumed_quotes : Map Text Text

-- The codes of a `ConfirmError`.
pub data ConfirmCode : Type 0 where
  invalid_confirmation quote_ownership_mismatch quote_not_executable : ConfirmCode
  invalid_demo_limits idempotency_conflict quote_expired intent_id_conflict : ConfirmCode
  session_trade_limit hourly_trade_limit account_busy : ConfirmCode

-- The errors of the package.
pub data Fault : Type 0 where
  path_required mkdir_failed lock_open_failed lock_failed still_waiting cancelled_context : Fault
  read_failed decode_failed write_failed rename_failed : Fault
  unsupported_version : ℤ → Fault
  plan_not_found intent_exists plan_expired cursor_backwards trade_not_found : Fault
  request_index_inconsistent quote_index_inconsistent : Fault
  not_executable : PlanStatus → Fault
  cannot_dispatch : TradeStatus → Fault
  bad_transition : TradeStatus → TradeStatus → Fault
  confirm_error : ConfirmCode → Fault
