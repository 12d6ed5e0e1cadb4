-- ===== src/Tests/Trades.antt =====
-- One confirmed trade, under the theorems on single mutations.
use venuewire.Prelude.{
  ◌≡◌, ◌≢◌, ◌<◌, refl, true, false, none, some, [], ◌∷◌, codes, same, is_empty, trim_space, ok,
  arith,
}
use venuewire.Prelude.Map.{lookup, insert, tally}
use venuewire.Tests.Data.{limits, first}
use venuewire.Intent.Types.{created, rejected, filled, cancelled, QuickTrade, Snapshot}
use venuewire.Intent.Status.{active, terminal, valid_trade_transition, apply_trade_status}
use venuewire.Intent.Status.Paths.{
  IsSound, apply_trade_status-IsSound, valid_trade_transition-terminal,
}
use venuewire.Intent.Evolution.{Evolves, Extends, Extends-refl}
use venuewire.Intent.Disk.{empty_snapshot}
use venuewire.Intent.Confirm.{quick_request_key, index_at, confirm_in, new_trade}
use venuewire.Intent.Confirm.Indexes.{IsConsistent, confirm_in-IsConsistent}
use venuewire.Intent.Confirm.Repeat.{confirm_in-again}
use venuewire.Intent.Confirm.Quotas.{IsWithin, confirm_in-IsWithin}
use venuewire.Intent.Trades.{QuickTradeUpdate, dispatch_trade, revise_trade}
use venuewire.Intent.Trades.Sound.{
  Improves, revise_trade-Improves, Dispatches, dispatch_trade-Dispatches,
}
use venuewire.Intent.History.Once.{empty_snapshot-IsConsistent}

abbrev trade : QuickTrade
trade = new_trade first 3

abbrev confirmed : Snapshot
confirmed = record (empty_snapshot) {
  quick_trades = (codes "i1", trade) ∷ [];
  quick_requests = (quick_request_key (codes "u") (codes "k1"), codes "i1") ∷ [];
  consumed_quotes = (codes "q1", codes "i1") ∷ [];
}

given : is_empty first.intent_id ≡ false
unfolding is_empty
given = refl

confirms_first : confirm_in first limits 3 empty_snapshot ≡ ok (confirmed, (trade, true))
unfolding confirm_in quick_request_key index_at lookup insert tally is_empty trim_space same
confirms_first = refl

confirm_in-again_example :
    (t' : QuickTrade) × (confirm_in first limits 60 confirmed ≡ ok (confirmed, (t', false)))
    × Evolves trade t'
confirm_in-again_example =
    confirm_in-again first limits 3 empty_snapshot confirmed confirmed trade true
      empty_snapshot-IsConsistent given confirms_first (Extends-refl confirmed) first limits 60 refl
      refl

confirm_in-IsWithin_example : (3 < 50) × IsWithin first limits 3 confirmed
confirm_in-IsWithin_example = confirm_in-IsWithin first limits 3 empty_snapshot confirms_first

confirm_in-IsConsistent_example : IsConsistent confirmed × Extends empty_snapshot confirmed
confirm_in-IsConsistent_example =
    confirm_in-IsConsistent first limits 3 empty_snapshot empty_snapshot-IsConsistent given
      confirms_first

trade-IsSound : IsSound trade
unfolding new_trade
trade-IsSound = ground arith

abbrev refused : QuickTrade
refused = record (trade) {
  status = rejected;
  updated_at = 9;
  terminal_at = some 9;
  lifecycle =
      record { status = created; at = 3; detail = []; request_id = [] }
      ∷ record { status = rejected; at = 9; detail = codes "no"; request_id = [] }
      ∷ [];
}

refuses : apply_trade_status trade rejected (codes "no") [] 9 ≡ ok refused
unfolding apply_trade_status valid_trade_transition new_trade
refuses = refl

apply_trade_status-IsSound_example : IsSound refused
apply_trade_status-IsSound_example =
    apply_trade_status-IsSound trade rejected (codes "no") [] 9 trade-IsSound refuses

dispatch_trade-Dispatches_example : Dispatches 9 trade (dispatch_trade 9 trade)
dispatch_trade-Dispatches_example = dispatch_trade-Dispatches 9 trade trade-IsSound

abbrev report : QuickTradeUpdate
report = record {
  status = rejected;
  raw_venue_status = codes "Rejected";
  result_status = [];
  venue_order_id = [];
  filled_base_qty = codes "0";
  average_price = [];
  gross_source_spent = [];
  gross_destination_received = [];
  fees = none;
  net_destination_received = [];
  actual_source_debit = [];
  fill_details_status = [];
  fee_details_status = [];
  balance_sync_status = [];
  public_error = codes "no";
  clear_public_error = false;
  lifecycle_detail = [];
  request_id = [];
  checked = true;
}

revise_trade-Improves_example : Improves trade (revise_trade report 9 trade)
revise_trade-Improves_example = revise_trade-Improves report 9 trade trade-IsSound

cancelled_fills : valid_trade_transition cancelled filled ≡ true
unfolding valid_trade_transition
cancelled_fills = refl

valid_trade_transition-terminal_example :
    (terminal cancelled ≡ true → terminal filled ≡ true)
    × (filled ≢ created)
    × (active filled ≡ true → active cancelled ≡ true)
valid_trade_transition-terminal_example =
    valid_trade_transition-terminal cancelled filled cancelled_fills
