-- ===== src/OrderState/Filling.antt =====
-- `ApplyExecution` and `RecordExecution` of internal/orderstate/service.go.
pub mod Sums
use venuewire.Prelude.{
  ℕ, ◌<◌, ◌≤◌, ◌≡◌, ◌≢◌, refl, subst, ◌⊎◌, inl, inr, Bool, true, false, not, ◌&&◌, Option, none,
  some, [], ◌∷◌, leb, ◌==◌, length, if◌then◌else◌, Text, text_eq, is_empty, codes, Result, ok,
  ◌>>=◌, ◌>>◌, refuse_if, or_err, Bool-cases, Option-cases, Result-cases, arith,
}
use venuewire.Prelude.Map.{lookup, insert, lookup-insert_self, lookup-insert_ne}
use venuewire.OrderState.Types.{
  OrderStatus, partially_filled, filled, pending_cancel, Order, Execution, Snapshot, StateError,
  no_execution_id, unknown_order, bad_quantity,
}
use venuewire.OrderState.Accounts.{execution_account, execution_storage_key}
use venuewire.OrderState.Transitions.{
  eq_status, stage, validate_transition, validate_transition-stage,
}
use venuewire.OrderState.Service.{find_order, set_time}

-- What the code uses of Go's `big.Rat`: `SetString`, `Add`, a comparison, and `FloatString`.
pub record Rationals : Type 1 where
  pub Rat : Type 0
  pub set_string : Text → Option Rat
  pub add : Rat → Rat → Rat
  pub le : Rat → Rat → Bool
  pub float_string : Rat → ℕ → Text

-- How many characters stand behind the first point.
unfoldable pub decimal_places : Text → ℕ
decimal_places [] = 0
decimal_places (c ∷ s) = let rest = decimal_places s in if c == b'.' then length s else rest

module _ (num : Rationals) where
  open num use {Rat, set_string, add, le, float_string}

  unfoldable pub add_decimal : Text → Text → Result StateError Text
  unfolding decimal_places
  add_decimal left right = do
    let left' = if is_empty left then codes "0" else left
    l ← or_err (set_string left') bad_quantity
    r ← or_err (set_string right) bad_quantity
    let a = decimal_places left'
    let b = decimal_places right
    ok (float_string (add l r) (if leb a b then b else a))

  -- `compareDecimal(left, right) >= 0`.
  unfoldable pub reaches : Text → Text → Bool
  reaches left right = elim (set_string left) [
    | none ↦ false
    | some l ↦ elim (set_string right) [ none ↦ false | some r ↦ le r l ]
  ]

  unfoldable pub next_status : Text → Order → OrderStatus
  unfolding reaches
  next_status cumulative o =
      if reaches cumulative o.qty && not (is_empty o.qty)
      then filled
      else if eq_status o.status pending_cancel
      then pending_cancel
      else partially_filled

  -- The order with the execution added to it.
  unfoldable pub fill_order : ℕ → Execution → Order → Result StateError Order
  unfolding add_decimal next_status
  fill_order now e o = do
    cumulative ← add_decimal o.cum_filled_qty e.qty
    let next = next_status cumulative o
    validate_transition o.status next
    ok (record o {
      cum_filled_qty = cumulative;
      avg_fill_price = e.price;
      updated_at = set_time (some now) e.received_at;
      status = next;
    })

  -- An execution that was not seen before.
  unfoldable pub add_execution : ℕ → Execution → Snapshot → Result StateError Snapshot
  unfolding fill_order
  add_execution now e s = do
    (key, o) ←
        or_err (find_order e.order_id e.order_link_id (execution_account e) s.orders) unknown_order
    filled_order ← fill_order now e o
    ok (record s {
      executions = insert (execution_storage_key e) e s.executions;
      orders = insert key filled_order s.orders;
    })

  -- `ApplyExecution`. A status that stays is a transition that `ValidateTransition` accepts.
  unfoldable pub apply_execution : ℕ → Execution → Snapshot → Result StateError Snapshot
  unfolding add_execution
  apply_execution now e s = do
    refuse_if (is_empty e.execution_id) no_execution_id
    elim (lookup (execution_storage_key e) s.executions) [
      | some _ ↦ ok s
      | none ↦ add_execution now e s
    ]

  -- `RecordExecution`.
  unfoldable pub record_execution : Execution → Snapshot → Result StateError Snapshot
  record_execution e s = do
    refuse_if (is_empty e.execution_id) no_execution_id
    elim (lookup (execution_storage_key e) s.executions) [
      | some _ ↦ ok s
      | none ↦ do
        found ←
            or_err (find_order e.order_id e.order_link_id (execution_account e) s.orders)
              unknown_order
        ok (record s { executions = insert (execution_storage_key e) e s.executions })
    ]
