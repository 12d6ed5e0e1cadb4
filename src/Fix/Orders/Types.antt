-- ===== src/Fix/Orders/Types.antt =====
-- The data of internal/fix/orders.go. A text is one of bytes; the storage keys of orders without an
-- environment and an alias are bare identifiers, so that they are texts of bytes as well.
use venuewire.Prelude.{ℕ, Bool, Option, List, Text}
use venuewire.Prelude.Int.{ℤ}
use venuewire.OrderState.Types.{Snapshot, StateError}
use venuewire.Fix.Session.Types.{Settings, End, Write, Conn}

pub record NewOrderRequest : Type 0 where
  pub symbol : Text
  pub side : Text
  pub order_type : Text
  pub qty : Text
  pub price : Text
  pub cl_ord_id : Text
  pub time_in_force : Text

pub record CancelRequest : Type 0 where
  pub symbol : Text
  pub order_id : Text
  pub cl_ord_id : Text
  pub req_id : Text

pub record AmendRequest : Type 0 where
  pub symbol : Text
  pub order_id : Text
  pub cl_ord_id : Text
  pub qty : Text
  pub price : Text
  pub req_id : Text

pub record PendingRequest : Type 0 where
  pub order_id : Text
  pub cl_ord_id : Text
  pub req_id : Text

-- `OrderRouter`, with the active connection of its session and the snapshot of its order state.
pub record Router : Type 0 where
  pub settings : Settings
  pub recv_window : ℤ
  pub conn : Option Conn
  pub state : Snapshot
  pub pending_cancel : List PendingRequest
  pub pending_amend : List PendingRequest

pub data RouterError : Type 0 where
  bad_request unknown_local_order not_connected not_saved uncorrelated : RouterError
  state_failed : StateError → RouterError
  send_failed : End → RouterError
  uncertain : RouterError → RouterError
  refused : Text → RouterError
  unsupported : Text → RouterError

-- Around one call: the time, which stands still during the call, the same in base 36, whether the order state's store can be written, at
-- the first and at the second time, and the transport.
pub record Env : Type 0 where
  pub now : ℕ
  pub base36 : Text
  pub saved : Bool
  pub saved_again : Bool
  pub write : Write

-- What the package calls of Go's library: `strings.ToUpper`, and `time.Parse` with the layout of FIX,
-- where `none` is the zero time that stands for an error.
pub record Library : Type 0 where
  pub to_upper : Text → Text
  pub parse_time : Text → Option ℕ
