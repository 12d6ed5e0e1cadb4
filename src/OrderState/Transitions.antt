-- ===== src/OrderState/Transitions.antt =====
-- `ValidateTransition` of internal/orderstate/service.go, and that statuses never come back.
use venuewire.Prelude.{
  ℕ, ◌≡◌, ◌<◌, ◌⊎◌, inl, inr, Bool, true, false, ◌||◌, arith, Bool-cases, Text, codes, same, Result,
  ok, err, if◌then◌else◌,
}
use venuewire.OrderState.Types.{
  OrderStatus, blank, unknown, pending_submit, new, partially_filled, filled, pending_cancel,
  cancelled, rejected, rejected_cancel, StateError, bad_transition,
}

abbrev pub eq_status : OrderStatus → OrderStatus → Bool
eq_status blank blank = true
eq_status unknown unknown = true
eq_status pending_submit pending_submit = true
eq_status new new = true
eq_status partially_filled partially_filled = true
eq_status filled filled = true
eq_status pending_cancel pending_cancel = true
eq_status cancelled cancelled = true
eq_status rejected rejected = true
eq_status rejected_cancel rejected_cancel = true
eq_status _ _ = false

-- The table `allowed`.
unfoldable pub is_allowed : OrderStatus → OrderStatus → Bool
is_allowed unknown pending_submit = true
is_allowed unknown new = true
is_allowed unknown partially_filled = true
is_allowed unknown filled = true
is_allowed unknown cancelled = true
is_allowed unknown rejected = true
is_allowed pending_submit new = true
is_allowed pending_submit partially_filled = true
is_allowed pending_submit filled = true
is_allowed pending_submit cancelled = true
is_allowed pending_submit rejected = true
is_allowed new partially_filled = true
is_allowed new filled = true
is_allowed new pending_cancel = true
is_allowed new cancelled = true
is_allowed partially_filled filled = true
is_allowed partially_filled pending_cancel = true
is_allowed partially_filled cancelled = true
is_allowed pending_cancel cancelled = true
is_allowed pending_cancel filled = true
is_allowed pending_cancel rejected_cancel = true
is_allowed cancelled filled = true
is_allowed _ _ = false

unfoldable pub validate_transition : OrderStatus → OrderStatus → Result StateError (Unit {0})
unfolding is_allowed
validate_transition from to =
    if eq_status from to || is_allowed from to then ok tt else err (bad_transition from to)

-- `NormalizeBybitOrderStatus` of internal/domain/order.go.
unfoldable pub normalize_bybit_order_status : Text → OrderStatus
normalize_bybit_order_status raw =
    if same raw (codes "New")
      || same raw (codes "Untriggered")
      || same raw (codes "Triggered")
      || same raw (codes "Active")
    then new
    else if same raw (codes "PartiallyFilled")
    then partially_filled
    else if same raw (codes "Filled")
    then filled
    else if same raw (codes "Cancelled")
        || same raw (codes "PartiallyFilledCanceled")
        || same raw (codes "Deactivated")
    then cancelled
    else if same raw (codes "Rejected")
    then rejected
    else unknown

-- How far an order has come.
abbrev pub stage : OrderStatus → ℕ
stage blank = 0
stage unknown = 0
stage pending_submit = 1
stage new = 2
stage partially_filled = 3
stage pending_cancel = 4
stage cancelled = 5
stage rejected = 5
stage rejected_cancel = 5
stage filled = 6

is_allowed-stage : (a b : OrderStatus) → is_allowed a b ≡ true → stage a < stage b
unfolding is_allowed
is_allowed-stage blank b h = ground arith
is_allowed-stage unknown b h = ground arith
is_allowed-stage pending_submit b h = ground arith
is_allowed-stage new b h = ground arith
is_allowed-stage partially_filled b h = ground arith
is_allowed-stage filled b h = ground arith
is_allowed-stage pending_cancel b h = ground arith
is_allowed-stage cancelled b h = ground arith
is_allowed-stage rejected b h = ground arith
is_allowed-stage rejected_cancel b h = ground arith

eq_status→eq : (a b : OrderStatus) → eq_status a b ≡ true → a ≡ b
eq_status→eq blank b h = ground arith
eq_status→eq _ b h = ground arith

-- An accepted transition keeps the status or takes the order to a later stage, so that no chain of
-- accepted transitions brings an order back to a status that it left.
pub validate_transition-stage :
    (a b : OrderStatus) {u : Unit {0}}
    → validate_transition a b ≡ ok u
    → (a ≡ b) ⊎ (stage a < stage b)
unfolding validate_transition
validate_transition-stage a b h = elim (Bool-cases (eq_status a b)) [
  | inl eq ↦ inl (eq_status→eq a b eq)
  | inr ne ↦ inr (is_allowed-stage a b (ground arith))
]
