-- ===== src/Tests/Routing.antt =====
-- The order router on one order.
use venuewire.Prelude.{
  ◌≡◌, refl, true, false, some, [], ◌∷◌, Text, codes, same, is_empty, text_eq, ok,
}
use venuewire.Prelude.Int.{pos}
use venuewire.Fix.Codec.{Message, get}
use venuewire.Fix.Session.Sending.{field}
use venuewire.Fix.Decimal.{digits_value}
use venuewire.OrderState.Types.{rejected_cancel, bad_transition, Order}
use venuewire.OrderState.Accounts.{order_account}
use venuewire.OrderState.Service.{find_order, target}
use venuewire.Tests.Orders.{order, state, naturals}
use venuewire.Tests.Sessions.{settings, start, written, lower}
use venuewire.Fix.Orders.Types.{NewOrderRequest, Router, state_failed, Env, Library}
use venuewire.Fix.Orders.Reports.{
  value_or, status_from_fix, side_from_fix, type_from_fix, report_order, handle_execution_report,
}
use venuewire.Fix.Orders.Recording.{handle_execution_report-stuck}

abbrev lib : Library
lib = record { to_upper = lower; parse_time = digits_value }

abbrev env : Env
env = record { now = 7; base36 = codes "7"; saved = true; saved_again = true; write = written 7 }

abbrev router : Order → Router
router o = record {
  settings = settings;
  recv_window = pos 0;
  conn = some start;
  state = state o;
  pending_cancel = [];
  pending_amend = [];
}

abbrev wanted : NewOrderRequest
wanted = record {
  symbol = codes "BTCUSDT";
  side = codes "Sell";
  order_type = codes "Limit";
  qty = codes "3";
  price = codes "101";
  cl_ord_id = codes "l2";
  time_in_force = codes "GTC";
}

abbrev report : Text → Message
report status = record {
  begin_string = codes "FIX.4.4";
  body_length = pos 0;
  check_sum = pos 0;
  fields =
      field 35 (codes "8")
      ∷ field 37 (codes "o1")
      ∷ field 11 (codes "l1")
      ∷ field 39 status
      ∷ field 30051 (codes "e1")
      ∷ field 30052 (codes "2")
      ∷ field 30053 (codes "100")
      ∷ field 30051 (codes "e2")
      ∷ [];
  raw = [];
}

abbrev kept_order : Order
kept_order = order rejected_cancel (codes "o1") (codes "0")

found :
    target (report_order lib (report (codes "2"))) (state kept_order).orders
    ≡ ok (codes "l1", kept_order)
unfolding report_order status_from_fix side_from_fix type_from_fix value_or get same target
    find_order order_account is_empty
found = refl

says_filled : same (value_or (report (codes "2")) 39 []) (codes "A") ≡ false
unfolding value_or get same
says_filled = refl

handle_execution_report-stuck_example :
    handle_execution_report naturals lib env (report (codes "2")) (router kept_order) ≡ (
      router kept_order,
      some (
          state_failed (
            bad_transition rejected_cancel
              (status_from_fix (value_or (report (codes "2")) 39 [])))),
    )
handle_execution_report-stuck_example =
    handle_execution_report-stuck naturals lib env (report (codes "2")) (router kept_order)
      (codes "l1") kept_order found refl says_filled
