-- ===== src/Intent/Trades.antt =====
-- `MarkQuickTradeDispatching`, `UpdateQuickTrade` and the reads of internal/intent/quicktrade.go.
pub mod Sound
use venuewire.Prelude.{
  ℕ, Bool, true, false, not, Option, none, some, List, [], ◌∷◌, if◌then◌else◌, Text, text_eq,
  is_empty, Result, ok, err, ◌>>=◌, or_err,
}
use venuewire.Prelude.Map.{lookup, insert}
use venuewire.Intent.Types.{
  TradeStatus, unset, created, pending_submit, TradeFee, QuickTrade, Snapshot, Fault,
  trade_not_found, request_index_inconsistent, quote_index_inconsistent, cannot_dispatch,
}
use venuewire.Intent.Status.{eq_status, apply_trade_status}
use venuewire.Intent.Disk.{File, Env, Outcome, load, update}
use venuewire.Intent.Confirm.{quick_request_key, index_at}

-- The function that `updateQuickTrade` hands to `update`.
unfoldable pub change_trade :
    Text → (QuickTrade → Result Fault QuickTrade) → Snapshot → Result Fault (Snapshot × QuickTrade)
change_trade id mutate s = do
  trade ← or_err (lookup id s.quick_trades) trade_not_found
  changed ← mutate trade
  ok (record s { quick_trades = insert id changed s.quick_trades }, changed)

unfoldable pub dispatch_trade : ℕ → QuickTrade → Result Fault QuickTrade
dispatch_trade now trade =
    if trade.send_attempted
    then ok trade
    else if not (eq_status trade.status created)
    then err (cannot_dispatch trade.status)
    else apply_trade_status (record trade { send_attempted = true }) pending_submit [] [] now

unfoldable pub mark_quick_trade_dispatching : Env → File → Text → ℕ → Outcome QuickTrade
unfolding change_trade dispatch_trade
mark_quick_trade_dispatching env file id now =
    update env file (change_trade id (dispatch_trade now))

pub record QuickTradeUpdate : Type 0 where
  pub status : TradeStatus
  pub raw_venue_status : Text
  pub result_status : Text
  pub venue_order_id : Text
  pub filled_base_qty : Text
  pub average_price : Text
  pub gross_source_spent : Text
  pub gross_destination_received : Text
  pub fees : Option (List TradeFee)
  pub net_destination_received : Text
  pub actual_source_debit : Text
  pub fill_details_status : Text
  pub fee_details_status : Text
  pub balance_sync_status : Text
  pub public_error : Text
  pub clear_public_error : Bool
  pub lifecycle_detail : Text
  pub request_id : Text
  pub checked : Bool

-- `copyIfSet`.
abbrev copy_if_set : Text → Text → Text
copy_if_set target value = if is_empty value then target else value

abbrev or_else {ℓ} : {A : Type ℓ} → Option A → A → A
or_else none a = a
or_else (some b) a = b

-- The part of `UpdateQuickTrade` behind the change of status.
unfoldable pub copy_details : QuickTradeUpdate → ℕ → QuickTrade → QuickTrade
copy_details u now t = record t {
  raw_venue_status = copy_if_set t.raw_venue_status u.raw_venue_status;
  result_status = copy_if_set t.result_status u.result_status;
  venue_order_id = copy_if_set t.venue_order_id u.venue_order_id;
  filled_base_qty = copy_if_set t.filled_base_qty u.filled_base_qty;
  average_price = copy_if_set t.average_price u.average_price;
  gross_source_spent = copy_if_set t.gross_source_spent u.gross_source_spent;
  gross_destination_received =
      copy_if_set t.gross_destination_received u.gross_destination_received;
  net_destination_received = copy_if_set t.net_destination_received u.net_destination_received;
  actual_source_debit = copy_if_set t.actual_source_debit u.actual_source_debit;
  fill_details_status = copy_if_set t.fill_details_status u.fill_details_status;
  fee_details_status = copy_if_set t.fee_details_status u.fee_details_status;
  balance_sync_status = copy_if_set t.balance_sync_status u.balance_sync_status;
  fees = or_else u.fees t.fees;
  last_public_error =
      if u.clear_public_error then [] else copy_if_set t.last_public_error u.public_error;
  last_checked_at = if u.checked then some now else t.last_checked_at;
  updated_at = now;
}

unfoldable pub revise_trade : QuickTradeUpdate → ℕ → QuickTrade → Result Fault QuickTrade
unfolding copy_details
revise_trade u now trade = if eq_status u.status unset then ok (copy_details u now trade) else (do
  let detail = if is_empty u.lifecycle_detail then u.public_error else u.lifecycle_detail
  moved ← apply_trade_status trade u.status detail u.request_id now
  ok (copy_details u now moved))

unfoldable pub update_quick_trade : Env → File → Text → QuickTradeUpdate → ℕ → Outcome QuickTrade
unfolding change_trade revise_trade
update_quick_trade env file id u now = update env file (change_trade id (revise_trade u now))

unfoldable pub get_quick_trade : Bool → File → Text → Result Fault QuickTrade
get_quick_trade cancelled file id = do
  s ← load cancelled file
  or_err (lookup id s.quick_trades) trade_not_found

-- A trade by an index: `none` where the index has no entry.
abbrev follow : Text → Fault → Snapshot → Result Fault (Option QuickTrade)
follow intent_id broken s =
    if is_empty intent_id
    then ok none
    else (do trade ← or_err (lookup intent_id s.quick_trades) broken; ok (some trade))

unfoldable pub get_quick_trade_by_request :
    Bool → File → Text → Text → Result Fault (Option QuickTrade)
unfolding index_at
get_quick_trade_by_request cancelled file identity request_id = do
  s ← load cancelled file
  follow (index_at (quick_request_key identity request_id) s.quick_requests)
      request_index_inconsistent s

unfoldable pub get_quick_trade_by_quote : Bool → File → Text → Result Fault (Option QuickTrade)
unfolding index_at
get_quick_trade_by_quote cancelled file quote_id = do
  s ← load cancelled file
  follow (index_at quote_id s.consumed_quotes) quote_index_inconsistent s
