-- ===== src/Tests/Orders.antt =====
-- The order state on one order, with natural numbers for quantities.
use venuewire.Prelude.{
  ℕ, ◌+◌, ◌<◌, ◌≡◌, ◌≢◌, ◌⊎◌, refl, none, some, [], ◌∷◌, leb, Text, codes, same, is_empty, text_eq,
  ok,
}
use venuewire.Prelude.Map.{lookup, insert}
use venuewire.Fix.Decimal.{digits_value, print_nat}
use venuewire.OrderState.Types.{
  OrderStatus, new, partially_filled, pending_submit, Order, Execution, Snapshot,
}
use venuewire.OrderState.Accounts.{order_account, execution_account, execution_storage_key}
use venuewire.OrderState.Transitions.{validate_transition, validate_transition-stage}
use venuewire.OrderState.Service.{find_order}
use venuewire.OrderState.Filling.{Rationals, add_decimal, reaches, apply_execution}
use venuewire.OrderState.Executions.{Added, apply_execution_again, apply_execution-Added}

abbrev pub order : OrderStatus → Text → Text → Order
order status order_id filled_qty = record {
  exchange = [];
  environment = [];
  account_alias = [];
  category = codes "spot";
  symbol = codes "BTCUSDT";
  order_id = order_id;
  order_link_id = codes "l1";
  side = codes "Buy";
  order_type = codes "Limit";
  price = codes "100";
  qty = codes "5";
  cum_filled_qty = filled_qty;
  avg_fill_price = [];
  status = status;
  raw_status = [];
  intent_id = [];
  created_at = some 1;
  updated_at = some 1;
}

abbrev pub resting : Order
resting = order new (codes "o1") (codes "0")

abbrev pub state : Order → Snapshot
state o = record { orders = (codes "l1", o) ∷ []; executions = [] }

moves : validate_transition new partially_filled ≡ ok tt
unfolding validate_transition
moves = refl

validate_transition-stage_example : (new ≡ partially_filled) ⊎ (2 < 3)
validate_transition-stage_example = validate_transition-stage new partially_filled moves

abbrev half : Order
half = order partially_filled (codes "o1") (codes "2")

-- A late acknowledgement, without the venue's identifier.
abbrev late : Order
late = order pending_submit [] []

abbrev pub naturals : Rationals
naturals = record {
  Rat = ℕ;
  set_string = digits_value;
  add = ◌+◌;
  le = leb;
  float_string = λ r places. print_nat r;
}

abbrev fill : Execution
fill = record {
  exchange = [];
  environment = [];
  account_alias = [];
  category = codes "spot";
  symbol = codes "BTCUSDT";
  execution_id = codes "e1";
  order_id = codes "o1";
  order_link_id = [];
  side = codes "Buy";
  price = codes "100";
  qty = codes "2";
  fee = [];
  fee_currency = [];
  exchange_time = some 3;
  received_at = some 4;
}

abbrev after_fill : Snapshot
after_fill = record {
  orders = (codes "l1", record (half) { avg_fill_price = codes "100"; updated_at = some 4 }) ∷ [];
  executions = (codes "e1", fill) ∷ [];
}

fills : apply_execution naturals 9 fill (state resting) ≡ ok after_fill
unfolding apply_execution find_order order_account execution_account execution_storage_key
    add_decimal reaches validate_transition same is_empty insert lookup digits_value print_nat
fills = refl

apply_execution_again_example : apply_execution naturals 11 fill after_fill ≡ ok after_fill
apply_execution_again_example = apply_execution_again naturals 9 11 fill (state resting) fills

unseen : lookup (execution_storage_key fill) (state resting).executions ≡ none
unfolding lookup
unseen = refl

apply_execution-Added_example :
    (a : Added naturals 9 fill (state resting) after_fill) × (lookup a.key after_fill.orders
      ≡ some a.after)
    × ((k : Text) → a.key ≢ k → lookup k after_fill.orders ≡ lookup k (state resting).orders)
apply_execution-Added_example = apply_execution-Added naturals 9 fill (state resting) unseen fills
