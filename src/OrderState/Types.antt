-- ===== src/OrderState/Types.antt =====
-- The records of internal/domain/order.go and internal/domain/identity.go that the order state
-- keeps, and its snapshot. A zero `time.Time` is `none`, any other is its nanoseconds since 1970.
use venuewire.Prelude.{ℕ, Option, Text}
use venuewire.Prelude.Map.{Map}

-- `blank` is the empty string.
pub data OrderStatus : Type 0 where
  blank unknown pending_submit new partially_filled filled : OrderStatus
  pending_cancel cancelled rejected rejected_cancel : OrderStatus

pub record Order : Type 0 where
  pub exchange : Text
  pub environment : Text
  pub account_alias : Text
  pub category : Text
  pub symbol : Text
  pub order_id : Text
  pub order_link_id : Text
  pub side : Text
  pub order_type : Text
  pub price : Text
  pub qty : Text
  pub cum_filled_qty : Text
  pub avg_fill_price : Text
  pub status : OrderStatus
  pub raw_status : Text
  pub intent_id : Text
  pub created_at : Option ℕ
  pub updated_at : Option ℕ

pub record Execution : Type 0 where
  pub exchange : Text
  pub environment : Text
  pub account_alias : Text
  pub category : Text
  pub symbol : Text
  pub execution_id : Text
  pub order_id : Text
  pub order_link_id : Text
  pub side : Text
  pub price : Text
  pub qty : Text
  pub fee : Text
  pub fee_currency : Text
  pub exchange_time : Option ℕ
  pub received_at : Option ℕ

pub record AccountKey : Type 0 where
  pub venue : Text
  pub environment : Text
  pub alias : Text

-- The order of `orders` is the order in which Go walks the map, which may be any.
pub record Snapshot : Type 0 where
  pub orders : Map Text Order
  pub executions : Map Text Execution

pub data StateError : Type 0 where
  bad_transition : OrderStatus → OrderStatus → StateError
  no_identifier no_execution_id unknown_order bad_quantity : StateError
