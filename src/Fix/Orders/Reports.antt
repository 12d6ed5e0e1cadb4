-- ===== src/Fix/Orders/Reports.antt =====
-- `HandleMessage` of internal/fix/orders.go: execution reports and acknowledgements.
use venuewire.Prelude.{
  ℕ, Bool, true, false, ◌||◌, Option, none, some, List, [], ◌∷◌, ◌++◌, if◌then◌else◌, Text, text_eq,
  codes, same, Result, ok, err,
}
use venuewire.Prelude.Int.{pos, eqb_ℤ}
use venuewire.Fix.Codec.{Field, Message, get}
use venuewire.OrderState.Types.{
  OrderStatus, unknown, pending_submit, new, partially_filled, filled, pending_cancel, cancelled,
  rejected, rejected_cancel, Order, Execution, Snapshot,
}
use venuewire.OrderState.Transitions.{eq_status}
use venuewire.OrderState.Filling.{Rationals, record_execution}
use venuewire.Fix.Orders.Types.{
  PendingRequest, Router, RouterError, not_saved, uncorrelated, state_failed, refused, unsupported,
  Env, Library,
}
use venuewire.Fix.Orders.Router.{apply_to, find_router_order, marked}

-- `valueOr`.
unfoldable pub value_or : Message → ℕ → Text → Text
value_or m tag fallback = elim (get (pos tag) m.fields) [ none ↦ fallback | some v ↦ v ]

-- `statusFromFIX`.
unfoldable pub status_from_fix : Text → OrderStatus
status_from_fix v =
    if same v (codes "A")
    then pending_submit
    else if same v (codes "0")
    then new
    else if same v (codes "1")
    then partially_filled
    else if same v (codes "2")
    then filled
    else if same v (codes "4") || same v (codes "F") || same v (codes "D")
    then cancelled
    else if same v (codes "6")
    then pending_cancel
    else if same v (codes "8")
    then rejected
    else unknown

-- `sideFromFIX` and `typeFromFIX`.
unfoldable pub side_from_fix : Text → Text
side_from_fix v =
    if same v (codes "1") then codes "Buy" else if same v (codes "2") then codes "Sell" else []

unfoldable pub type_from_fix : Text → Text
type_from_fix v =
    if same v (codes "1") then codes "Market" else if same v (codes "2") then codes "Limit" else []

-- The execution that a field 30051 begins.
abbrev begun : Order → ℕ → Text → Execution
begun o now id = record {
  exchange = codes "bybit";
  environment = [];
  account_alias = [];
  category = o.category;
  symbol = o.symbol;
  execution_id = id;
  order_id = o.order_id;
  order_link_id = o.order_link_id;
  side = o.side;
  price = [];
  qty = [];
  fee = [];
  fee_currency = [];
  exchange_time = none;
  received_at = some now;
}

-- What a field does to the execution that it belongs to.
unfoldable pub with_field : Library → Field → Execution → Execution
with_field lib f e =
    if eqb_ℤ f.tag (pos 30052)
    then record e { qty = f.value }
    else if eqb_ℤ f.tag (pos 30053)
    then record e { price = f.value }
    else if eqb_ℤ f.tag (pos 30054)
    then record e { exchange_time = lib.parse_time f.value }
    else e

-- The executions in the fields, behind the one that is being read.
unfoldable pub read_executions :
    Library → Order → ℕ → Option Execution → List Field → List Execution
unfolding with_field
read_executions lib o now none [] = []
read_executions lib o now (some e) [] = e ∷ []
read_executions lib o now none (f ∷ fs) =
    if eqb_ℤ f.tag (pos 30051)
    then read_executions lib o now (some (begun o now f.value)) fs
    else read_executions lib o now none fs
read_executions lib o now (some e) (f ∷ fs) =
    if eqb_ℤ f.tag (pos 30051)
    then e ∷ read_executions lib o now (some (begun o now f.value)) fs
    else read_executions lib o now (some (with_field lib f e)) fs

-- `executionsFromReport`.
unfoldable pub executions_from_report : Library → ℕ → Message → Order → List Execution
unfolding read_executions
executions_from_report lib now m o = read_executions lib o now none m.fields

abbrev text_of : Option Text → Text
text_of none = []
text_of (some t) = t

-- The order as the report has it.
unfoldable pub report_order : Library → Message → Order
unfolding status_from_fix side_from_fix type_from_fix value_or
report_order lib m = record {
  exchange = codes "bybit";
  environment = [];
  account_alias = [];
  category = value_or m 30010 (codes "spot");
  symbol = value_or m 55 [];
  order_id = text_of (get (pos 37) m.fields);
  order_link_id = text_of (get (pos 11) m.fields);
  side = side_from_fix (value_or m 54 []);
  order_type = type_from_fix (value_or m 40 []);
  price = value_or m 44 [];
  qty = value_or m 38 [];
  cum_filled_qty = value_or m 14 [];
  avg_fill_price = value_or m 6 [];
  status = status_from_fix (value_or m 39 []);
  raw_status = value_or m 39 [];
  intent_id = [];
  created_at = none;
  updated_at = lib.parse_time (value_or m 60 []);
}

-- A report that is still pending does not take an order back.
unfoldable pub not_back : Snapshot → Order → Order
not_back s o =
    if eq_status o.status pending_submit
    then elim (find_router_order o.order_id o.order_link_id s.orders) [
      | none ↦ o
      | some (k, current) ↦
          if eq_status current.status pending_submit
          then o
          else record o { status = current.status }
    ]
    else o

-- `popPending`, of one of the two lists.
unfoldable pub pop_pending : List PendingRequest → PendingRequest × List PendingRequest
pop_pending [] = (record { order_id = []; cl_ord_id = []; req_id = [] }, [])
pop_pending (p ∷ ps) = (p, ps)

abbrev text_or : Option Text → Text → Text
text_or none fallback = fallback
text_or (some t) fallback = t

abbrev finish : Router → Result RouterError Router → Router × Option RouterError
finish r (ok r') = (r', none)
finish r (err e) = (r, some e)

abbrev is_accepted : Option Text → Bool
is_accepted none = false
is_accepted (some t) = same t (codes "6")

-- `handleCancelAck`.
unfoldable pub handle_cancel_ack : Env → Message → Router → Router × Option RouterError
unfolding pop_pending value_or apply_to find_router_order
handle_cancel_ack env m r =
    let (pending, rest) = pop_pending r.pending_cancel in
    let r1 = record r { pending_cancel = rest } in
    let order_id = text_or (get (pos 37) m.fields) pending.order_id in
    let link_id = text_or (get (pos 11) m.fields) pending.cl_ord_id in
    if is_accepted (get (pos 150) m.fields)
    then (r1, none)
    else elim (find_router_order order_id link_id r1.state.orders) [
      | none ↦ (r1, some uncorrelated)
      | some (k, o) ↦ finish r1 (
          apply_to env.saved env.now
            (marked o rejected_cancel (codes "XCA_REJECTED:" ++ value_or m 58 []) env.now) r1)
    ]

-- `handleAmendAck`.
unfoldable pub handle_amend_ack : Env → Message → Router → Router × Option RouterError
unfolding pop_pending value_or apply_to find_router_order
handle_amend_ack env m r =
    let (pending, rest) = pop_pending r.pending_amend in
    let r1 = record r { pending_amend = rest } in
    elim (get (pos 150) m.fields) [
      | some t ↦ (r1, none)
      | none ↦ elim (find_router_order pending.order_id pending.cl_ord_id r1.state.orders) [
        | none ↦ (r1, some uncorrelated)
        | some (k, o) ↦ finish r1 (
            apply_to env.saved env.now
              (marked o o.status (codes "XAA_REJECTED:" ++ value_or m 58 []) env.now) r1)
      ]
    ]

module _ (num : Rationals) (lib : Library) where
  -- `RecordExecution` on every execution, up to the first error.
  unfoldable pub record_all : Bool → List Execution → Router → Router × Option RouterError
  record_all saved [] r = (r, none)
  record_all saved (e ∷ es) r = elim (record_execution num e r.state) [
    | err why ↦ (r, some (state_failed why))
    | ok s ↦ elim saved [
      | false ↦ (r, some not_saved)
      | true ↦ record_all saved es (record r { state = s })
    ]
  ]

  -- `handleExecutionReport`.
  unfoldable pub handle_execution_report : Env → Message → Router → Router × Option RouterError
  unfolding report_order not_back apply_to executions_from_report record_all
  handle_execution_report env m r =
      let o = not_back r.state (report_order lib m) in
      elim (apply_to env.saved env.now o r) [
        | err e ↦ (r, some e)
        | ok r' ↦ record_all env.saved_again (executions_from_report lib env.now m o) r'
      ]

  -- `HandleMessage`.
  unfoldable pub handle_order_message : Env → Message → Router → Router × Option RouterError
  unfolding handle_execution_report handle_cancel_ack handle_amend_ack
  handle_order_message env m r =
      let t = text_of (get (pos 35) m.fields) in
      if same t (codes "8")
      then handle_execution_report env m r
      else if same t (codes "XCA")
      then handle_cancel_ack env m r
      else if same t (codes "XAA")
      then handle_amend_ack env m r
      else if same t (codes "j") || same t (codes "3")
      then (r, some (refused (value_or m 58 [])))
      else (r, some (unsupported t))
