-- ===== src/OrderState/Service.antt =====
-- What `Service` of internal/orderstate/service.go does to the snapshot. `time.Now` is an argument.
use venuewire.Prelude.{
  ℕ, Bool, not, ◌&&◌, ◌||◌, Option, none, some, [], ◌∷◌, if◌then◌else◌, Text, text_eq, same,
  is_empty, Result, ok, ◌>>=◌, ◌>>◌, refuse_if,
}
use venuewire.Prelude.Map.{Map, insert, erase}
use venuewire.OrderState.Types.{
  OrderStatus, blank, unknown, pending_submit, Order, AccountKey, Snapshot, StateError,
  no_identifier,
}
use venuewire.OrderState.Accounts.{order_account, same_account, order_storage_key}
use venuewire.OrderState.Transitions.{eq_status, validate_transition}

-- Whether an order answers to one of the two identifiers within the account.
unfoldable pub matches : Text → Text → AccountKey → Order → Bool
unfolding order_account same_account
matches order_id link_id account o =
    same_account (order_account o) account
    && ((not (is_empty link_id) && same o.order_link_id link_id)
        || (not (is_empty order_id) && same o.order_id order_id))

-- `findOrder`, for one account.
unfoldable pub find_order : Text → Text → AccountKey → Map Text Order → Option (Text × Order)
unfolding matches
find_order order_id link_id account [] = none
find_order order_id link_id account ((key, o) ∷ orders) =
    if matches order_id link_id account o
    then some (key, o)
    else find_order order_id link_id account orders

abbrev pub set : Text → Text → Text
set current update = if is_empty update then current else update

abbrev pub set_time : Option ℕ → Option ℕ → Option ℕ
set_time current none = current
set_time current update = update

unfoldable pub merge_order : Order → Order → Order
merge_order c u = record {
  exchange = set c.exchange u.exchange;
  environment = set c.environment u.environment;
  account_alias = set c.account_alias u.account_alias;
  category = set c.category u.category;
  symbol = set c.symbol u.symbol;
  order_id = set c.order_id u.order_id;
  order_link_id = set c.order_link_id u.order_link_id;
  side = set c.side u.side;
  order_type = set c.order_type u.order_type;
  price = set c.price u.price;
  qty = set c.qty u.qty;
  cum_filled_qty = set c.cum_filled_qty u.cum_filled_qty;
  avg_fill_price = set c.avg_fill_price u.avg_fill_price;
  status = if eq_status u.status blank then c.status else u.status;
  raw_status = set c.raw_status u.raw_status;
  intent_id = set c.intent_id u.intent_id;
  created_at = set_time u.created_at c.created_at;
  updated_at = set_time c.updated_at u.updated_at;
}

-- An order that the snapshot does not have yet.
unfoldable pub new_order : Order → Order
new_order u = record {
  exchange = [];
  environment = [];
  account_alias = [];
  category = [];
  symbol = [];
  order_id = [];
  order_link_id = [];
  side = [];
  order_type = [];
  price = [];
  qty = [];
  cum_filled_qty = [];
  avg_fill_price = [];
  status = unknown;
  raw_status = [];
  intent_id = [];
  created_at = u.created_at;
  updated_at = none;
}

-- The order that an update is about, with its key.
unfoldable pub target : Order → Map Text Order → Result StateError (Text × Order)
unfolding find_order new_order order_storage_key
target u orders = elim (find_order u.order_id u.order_link_id (order_account u) orders) [
  | some found ↦ ok found
  | none ↦
      refuse_if (is_empty (order_storage_key u)) no_identifier
      >> ok (order_storage_key u, new_order u)
]

abbrev pub stamp : ℕ → Order → Order
stamp now o = record o {
  created_at = set_time (some now) o.created_at;
  updated_at = set_time (some now) o.updated_at;
}

-- The order under its key, which an identifier that came later may have changed.
unfoldable pub put_order : Text → Order → Map Text Order → Map Text Order
unfolding order_storage_key
put_order key o orders =
    let desired = order_storage_key o in
    if not (same key desired) && not (is_empty desired)
    then insert desired o (erase key orders)
    else insert key o orders

-- `applyOrderToSnapshot`.
unfoldable pub apply_order : ℕ → Order → Snapshot → Result StateError Snapshot
unfolding target merge_order put_order
apply_order now u s = do
  (key, current) ← target u s.orders
  validate_transition current.status u.status
  ok (record s { orders = put_order key (stamp now (merge_order current u)) s.orders })

-- Whether a stream has already taken the order beyond its submission.
abbrev pub is_advanced : OrderStatus → Bool
is_advanced status = not (eq_status status unknown) && not (eq_status status pending_submit)

-- What `UpsertREST` applies where the order is advanced.
unfoldable pub keep_advanced : Order → Order → Order
unfolding merge_order
keep_advanced current u = record (merge_order current u) {
  status = current.status;
  raw_status = current.raw_status;
  cum_filled_qty = current.cum_filled_qty;
  avg_fill_price = current.avg_fill_price;
  updated_at = current.updated_at;
}

-- The update that `UpsertREST` applies.
unfoldable pub rest_update : Order → Map Text Order → Order
unfolding find_order keep_advanced
rest_update u orders = elim (find_order u.order_id u.order_link_id (order_account u) orders) [
  | none ↦ u
  | some (_, current) ↦ if is_advanced current.status then keep_advanced current u else u
]

-- `UpsertREST`. It walks the map twice, and Go may take another order the second time: `walked` has the
-- same orders as the snapshot, in the order of the first walk.
unfoldable pub upsert_rest : ℕ → Order → Map Text Order → Snapshot → Result StateError Snapshot
unfolding rest_update apply_order
upsert_rest now u walked s = apply_order now (rest_update u walked) s
