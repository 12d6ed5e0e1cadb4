-- ===== src/Intent/Status.antt =====
-- The trade state machine: `Active`, `Terminal`, `validTradeTransition` and `applyTradeStatus` of
-- internal/intent/quicktrade.go.
pub mod Paths
use venuewire.Prelude.{
  ℕ, Bool, true, false, ◌&&◌, ◌||◌, not, Option, none, some, [], ◌∷◌, ◌++◌, if◌then◌else◌, Text,
  Result, ok, err,
}
use venuewire.Intent.Types.{
  TradeStatus, unset, created, pending_submit, submitted, accepted, partially_filled, filled,
  pending_cancel, cancelled, rejected, unknown, QuickTrade, Fault, bad_transition,
}

abbrev pub eq_status : TradeStatus → TradeStatus → Bool
eq_status unset unset = true
eq_status created created = true
eq_status pending_submit pending_submit = true
eq_status submitted submitted = true
eq_status accepted accepted = true
eq_status partially_filled partially_filled = true
eq_status filled filled = true
eq_status pending_cancel pending_cancel = true
eq_status cancelled cancelled = true
eq_status rejected rejected = true
eq_status unknown unknown = true
eq_status _ _ = false

abbrev pub active : TradeStatus → Bool
active created = true
active pending_submit = true
active submitted = true
active accepted = true
active partially_filled = true
active pending_cancel = true
active unknown = true
active _ = false

abbrev pub terminal : TradeStatus → Bool
terminal filled = true
terminal cancelled = true
terminal rejected = true
terminal _ = false

-- The table behind `validTradeTransition`, the two rows of its first `if` included.
unfoldable pub valid_trade_transition : TradeStatus → TradeStatus → Bool
valid_trade_transition pending_cancel filled = true
valid_trade_transition cancelled filled = true
valid_trade_transition created pending_submit = true
valid_trade_transition created rejected = true
valid_trade_transition pending_submit submitted = true
valid_trade_transition pending_submit accepted = true
valid_trade_transition pending_submit partially_filled = true
valid_trade_transition pending_submit filled = true
valid_trade_transition pending_submit rejected = true
valid_trade_transition pending_submit unknown = true
valid_trade_transition submitted accepted = true
valid_trade_transition submitted partially_filled = true
valid_trade_transition submitted filled = true
valid_trade_transition submitted rejected = true
valid_trade_transition submitted unknown = true
valid_trade_transition accepted partially_filled = true
valid_trade_transition accepted filled = true
valid_trade_transition accepted pending_cancel = true
valid_trade_transition accepted cancelled = true
valid_trade_transition accepted rejected = true
valid_trade_transition accepted unknown = true
valid_trade_transition partially_filled filled = true
valid_trade_transition partially_filled pending_cancel = true
valid_trade_transition partially_filled cancelled = true
valid_trade_transition partially_filled unknown = true
valid_trade_transition pending_cancel cancelled = true
valid_trade_transition pending_cancel unknown = true
valid_trade_transition unknown submitted = true
valid_trade_transition unknown accepted = true
valid_trade_transition unknown partially_filled = true
valid_trade_transition unknown filled = true
valid_trade_transition unknown cancelled = true
valid_trade_transition unknown rejected = true
valid_trade_transition _ _ = false

-- The statuses that prove the venue has the order.
abbrev pub reached_venue : TradeStatus → Bool
reached_venue submitted = true
reached_venue accepted = true
reached_venue partially_filled = true
reached_venue filled = true
reached_venue _ = false

abbrev first_time : Bool → Option ℕ → ℕ → Option ℕ
first_time true none now = some now
first_time _ old now = old

unfoldable pub apply_trade_status :
    QuickTrade → TradeStatus → Text → Text → ℕ → Result Fault QuickTrade
apply_trade_status trade next detail request_id now =
    if eq_status trade.status next
    then ok trade
    else if not (valid_trade_transition trade.status next)
    then err (bad_transition trade.status next)
    else ok (record trade {
      status = next;
      updated_at = now;
      submitted_at = first_time (reached_venue next) trade.submitted_at now;
      terminal_at = if terminal next then some now else trade.terminal_at;
      lifecycle =
          trade.lifecycle
          ++ (record { status = next; at = now; detail = detail; request_id = request_id } ∷ []);
    })
