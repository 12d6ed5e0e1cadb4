-- ===== src/Fix/Orders/Router.antt =====
-- `Place`, `Cancel` and `Amend` of internal/fix/orders.go. Each leaves a router and maybe an error.
use venuewire.Prelude.{
  ℕ, zero, suc, ◌/◌, ◌^◌, Bool, not, ◌&&◌, ◌||◌, Option, none, some, List, [], ◌∷◌, ◌++◌, ltb,
  length, if◌then◌else◌, Text, text_eq, codes, same, is_empty, Result, ok, err,
}
use venuewire.Prelude.Int.{ℤ, pos, negsuc}
use venuewire.Prelude.Map.{Map, lookup}
use venuewire.Fix.Decimal.{print_nat}
use venuewire.Fix.Codec.{Field}
use venuewire.OrderState.Types.{OrderStatus, pending_submit, pending_cancel, Order}
use venuewire.OrderState.Service.{apply_order}
use venuewire.Fix.Session.Types.{Write}
use venuewire.Fix.Session.Sending.{field, send}
use venuewire.Fix.Orders.Types.{
  NewOrderRequest, CancelRequest, AmendRequest, PendingRequest, Router, RouterError, bad_request,
  unknown_local_order, not_connected, not_saved, state_failed, send_failed, uncertain, Env, Library,
}

-- `State.ApplyOrder`: the file store may fail. The update is applied to the router's snapshot; that
-- `mutate` reads the file again before is not modelled.
unfoldable pub apply_to : Bool → ℕ → Order → Router → Result RouterError Router
apply_to saved now u r = elim (apply_order now u r.state) [
  | err e ↦ err (state_failed e)
  | ok s ↦ if saved then ok (record r { state = s }) else err not_saved
]

abbrev pub kept_or : Router → Result RouterError Router → Router
kept_or r (ok r') = r'
kept_or r (err e) = r

-- `SendApplication`, on the active connection.
unfoldable pub send_on : Write → Text → List Field → Router → Result RouterError Router
send_on w msg_type fields r = elim r.conn [
  | none ↦ err not_connected
  | some c ↦ elim (send r.settings w msg_type fields c) [
    | err e ↦ err (send_failed e)
    | ok c' ↦ ok (record r { conn = some c' })
  ]
]

abbrev finish : Router → Result RouterError Router → Router × Option RouterError
finish r (ok r') = (r', none)
finish r (err e) = (r, some e)

-- `validateNewOrder`.
unfoldable pub validate_new_order : NewOrderRequest → Bool
validate_new_order r =
    not (is_empty r.symbol || is_empty r.qty || is_empty r.cl_ord_id)
    && not (ltb 36 (length r.cl_ord_id))
    && (same r.side (codes "Buy") || same r.side (codes "Sell"))
    && (same r.order_type (codes "Market") || same r.order_type (codes "Limit"))
    && not (same r.order_type (codes "Limit") && is_empty r.price)

unfoldable pub fix_side : Text → Text
fix_side v = if same v (codes "Buy") then codes "1" else codes "2"

unfoldable pub fix_order_type : Text → Text
fix_order_type v = if same v (codes "Market") then codes "1" else codes "2"

unfoldable pub fix_time_in_force : Library → Text → Text
fix_time_in_force lib v =
    let u = lib.to_upper v in
    if same u (codes "GTC")
    then codes "1"
    else if same u (codes "IOC")
    then codes "3"
    else if same u (codes "FOK")
    then codes "4"
    else if same u (codes "POSTONLY")
    then codes "P"
    else v

abbrev window : ℤ → ℕ
window (pos zero) = 5000
window (pos (suc n)) = suc n
window (negsuc n) = 5000

-- A field that may be left out.
abbrev optional : ℕ → Text → List Field
optional tag v = if is_empty v then [] else field tag v ∷ []

-- `requestHeader`.
unfoldable pub request_header : Router → Env → Text → List Field
request_header r env req_id =
    field 30002 (print_nat (env.now / 10 ^ 6))
    ∷ field 30001 (print_nat (window r.recv_window))
    ∷ optional 30006 req_id

-- `reqID`.
abbrev request_id : Env → Text → Text
request_id env v = if is_empty v then codes "req-" ++ env.base36 else v

-- The order that `Place` stores, with the raw status.
unfoldable pub placed_order : NewOrderRequest → ℕ → ℕ → Text → Order
placed_order q created updated raw = record {
  exchange = codes "bybit";
  environment = [];
  account_alias = [];
  category = codes "spot";
  symbol = q.symbol;
  order_id = [];
  order_link_id = q.cl_ord_id;
  side = q.side;
  order_type = q.order_type;
  price = q.price;
  qty = q.qty;
  cum_filled_qty = [];
  avg_fill_price = [];
  status = pending_submit;
  raw_status = raw;
  intent_id = [];
  created_at = some created;
  updated_at = some updated;
}

unfoldable pub order_fields : Library → Router → Env → NewOrderRequest → List Field
unfolding fix_side fix_order_type fix_time_in_force request_header
order_fields lib r env q =
    request_header r env []
    ++ (field 30010 (codes "spot")
        ∷ field 55 q.symbol
        ∷ field 54 (fix_side q.side)
        ∷ field 40 (fix_order_type q.order_type)
        ∷ field 38 q.qty
        ∷ (optional 44 q.price
            ++ (field 11 q.cl_ord_id
                ∷ (if is_empty q.time_in_force
                    then []
                    else field 59 (fix_time_in_force lib q.time_in_force) ∷ []))))

-- The order is stored; now it is sent.
unfoldable pub submit_order : Library → NewOrderRequest → Env → Router → Router × Option RouterError
unfolding send_on order_fields apply_to placed_order
submit_order lib q env r = elim (send_on env.write (codes "D") (order_fields lib r env q) r) [
  | ok r' ↦ (r', none)
  | err e ↦ (
    kept_or r (
        apply_to env.saved_again env.now
          (placed_order q env.now env.now (codes "FIX_SUBMISSION_UNCERTAIN")) r),
    some (uncertain e),
  )
]

-- `Place`.
unfoldable pub place : Library → NewOrderRequest → Env → Router → Router × Option RouterError
unfolding apply_to validate_new_order placed_order submit_order
place lib q env r =
    if not (validate_new_order q)
    then (r, some bad_request)
    else elim (apply_to env.saved env.now
        (placed_order q env.now env.now (codes "FIX_PENDING_SUBMIT")) r) [
          | err e ↦ (r, some e)
          | ok r' ↦ submit_order lib q env r'
        ]

find_by_id : Text → Map Text Order → Option (Text × Order)
find_by_id id [] = none
find_by_id id ((k, o) ∷ orders) =
    let rest = find_by_id id orders in
    if not (is_empty id) && same o.order_id id then some (k, o) else rest

-- `findRouterOrder`.
unfoldable pub find_router_order : Text → Text → Map Text Order → Option (Text × Order)
unfolding find_by_id
find_router_order order_id link_id orders =
    elim (if is_empty link_id then none else lookup link_id orders) [
      | some o ↦ some (link_id, o)
      | none ↦ find_by_id order_id orders
    ]

-- An order with another status.
abbrev pub marked : Order → OrderStatus → Text → ℕ → Order
marked o status raw now = record o { status = status; raw_status = raw; updated_at = some now }

-- `markPendingCancel`.
unfoldable pub mark_pending_cancel : Env → Text → Text → Router → Result RouterError Router
unfolding find_router_order apply_to
mark_pending_cancel env order_id link_id r =
    elim (find_router_order order_id link_id r.state.orders) [
      | none ↦ err unknown_local_order
      | some (k, o) ↦
          apply_to env.saved env.now (marked o pending_cancel (codes "FIX_PENDING_CANCEL") env.now)
            r
    ]

abbrev no_order : Text → Text → Bool
no_order order_id link_id = is_empty order_id && is_empty link_id

-- `Cancel`.
unfoldable pub cancel_order : CancelRequest → Env → Router → Router × Option RouterError
unfolding mark_pending_cancel request_header send_on
cancel_order q env r =
    if is_empty q.symbol || no_order q.order_id q.cl_ord_id
    then (r, some bad_request)
    else elim (mark_pending_cancel env q.order_id q.cl_ord_id r) [
      | err e ↦ (r, some e)
      | ok r' ↦
          let id = request_id env q.req_id in
          let pending : PendingRequest = record {
            order_id = q.order_id;
            cl_ord_id = q.cl_ord_id;
            req_id = id;
          } in
          let r2 = record r' { pending_cancel = r'.pending_cancel ++ (pending ∷ []) } in
          finish r2 (
            send_on env.write (codes "F")
              (request_header r env id
                ++ (field 30010 (codes "spot")
                    ∷ field 55 q.symbol
                    ∷ (optional 37 q.order_id ++ optional 11 q.cl_ord_id)))
              r2)
    ]

-- `Amend`.
unfoldable pub amend_order : AmendRequest → Env → Router → Router × Option RouterError
unfolding request_header send_on
amend_order q env r =
    if is_empty q.symbol || no_order q.order_id q.cl_ord_id || (is_empty q.qty && is_empty q.price)
    then (r, some bad_request)
    else (let id = request_id env q.req_id in
        let pending : PendingRequest = record {
          order_id = q.order_id;
          cl_ord_id = q.cl_ord_id;
          req_id = id;
        } in
        let r2 = record r { pending_amend = r.pending_amend ++ (pending ∷ []) } in
        finish r2 (
          send_on env.write (codes "XAR")
            (request_header r env id
              ++ (field 30010 (codes "spot")
                  ∷ field 55 q.symbol
                  ∷ (optional 37 q.order_id
                      ++ (optional 11 q.cl_ord_id ++ (optional 38 q.qty ++ optional 44 q.price)))))
            r2))
