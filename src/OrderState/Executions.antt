-- ===== src/OrderState/Executions.antt =====
-- What `ApplyExecution` of internal/orderstate/service.go does to the order state.
use venuewire.Prelude.{
  ℕ, ◌<◌, ◌≡◌, ◌≢◌, refl, subst, ◌⊎◌, inl, inr, false, none, some, Text, text_eq, is_empty, ok,
  Bool-cases, Option-cases, Result-cases, arith,
}
use venuewire.Prelude.Map.{lookup, insert, lookup-insert_self, lookup-insert_ne}
use venuewire.OrderState.Types.{Order, Execution, Snapshot}
use venuewire.OrderState.Accounts.{execution_account, execution_storage_key}
use venuewire.OrderState.Transitions.{stage, validate_transition, validate_transition-stage}
use venuewire.OrderState.Service.{find_order, set_time}
use venuewire.OrderState.Filling.{
  Rationals, fill_order, add_decimal, next_status, add_execution, apply_execution,
}
use venuewire.OrderState.Filling.Sums.{IsSum, Settles, add_decimal-IsSum, next_status-Settles}

module _ (num : Rationals) where
  -- What an execution that is new does.
  pub record Added (now : ℕ) (e : Execution) (s s' : Snapshot) : Type 0 where
    pub key : Text
    pub before : Order
    pub after : Order
    pub found :
        find_order e.order_id e.order_link_id (execution_account e) s.orders ≡ some (key, before)
    pub quantity : IsSum num before.cum_filled_qty e.qty after.cum_filled_qty
    pub status : Settles num after.cum_filled_qty before.qty before.status after.status
    pub forward : (before.status ≡ after.status) ⊎ (stage before.status < stage after.status)
    pub kept : after ≡ record before {
      cum_filled_qty = after.cum_filled_qty;
      avg_fill_price = e.price;
      updated_at = set_time (some now) e.received_at;
      status = after.status;
    }
    pub next : s' ≡ record s {
      executions = insert (execution_storage_key e) e s.executions;
      orders = insert key after s.orders;
    }

  fill_order-ok :
      (now : ℕ) (e : Execution) (o : Order) {o' : Order}
      → fill_order num now e o ≡ ok o'
      → IsSum num o.cum_filled_qty e.qty o'.cum_filled_qty
        × Settles num o'.cum_filled_qty o.qty o.status o'.status
        × ((o.status ≡ o'.status) ⊎ (stage o.status < stage o'.status))
        × (o' ≡ record o {
          cum_filled_qty = o'.cum_filled_qty;
          avg_fill_price = e.price;
          updated_at = set_time (some now) e.received_at;
          status = o'.status;
        })
  unfolding fill_order
  fill_order-ok now e o {o'} h = elim (Result-cases (add_decimal num o.cum_filled_qty e.qty)) [
    | inl (x, failed) ↦ absurd (ground arith)
    | inr (c, sum) ↦ elim (Result-cases (validate_transition o.status (next_status num c o))) [
      | inl (x, refused) ↦ absurd (ground arith)
      | inr (a, valid) ↦
          let made : record o {
            cum_filled_qty = c;
            avg_fill_price = e.price;
            updated_at = set_time (some now) e.received_at;
            status = next_status num c o;
          }
              ≡ o' =
            ground arith in
          subst
            (λ (x : Order).
              IsSum num o.cum_filled_qty e.qty x.cum_filled_qty
              × Settles num x.cum_filled_qty o.qty o.status x.status
              × ((o.status ≡ x.status) ⊎ (stage o.status < stage x.status))
              × (x ≡ record o {
                cum_filled_qty = x.cum_filled_qty;
                avg_fill_price = e.price;
                updated_at = set_time (some now) e.received_at;
                status = x.status;
              }))
            made
            (
              add_decimal-IsSum num o.cum_filled_qty e.qty sum,
              next_status-Settles num c o,
              validate_transition-stage o.status (next_status num c o) valid,
              refl,
            )
    ]
  ]

  pub add_execution-Added :
      (now : ℕ) (e : Execution) (s : Snapshot) {s' : Snapshot}
      → add_execution num now e s ≡ ok s'
      → Added now e s s'
  unfolding add_execution
  add_execution-Added now e s h =
      elim (Option-cases (find_order e.order_id e.order_link_id (execution_account e) s.orders)) [
        | inl missing ↦ absurd (ground arith)
        | inr ((key, o), found) ↦ elim (Result-cases (fill_order num now e o)) [
          | inl (x, refused) ↦ absurd (ground arith)
          | inr (o', adds) ↦
              let (quantity, status, forward, kept) = fill_order-ok now e o adds in
              record {
                key = key;
                before = o;
                after = o';
                found = found;
                quantity = quantity;
                status = status;
                forward = forward;
                kept = kept;
                next = ground arith;
              }
        ]
      ]

  -- The two ways through an accepted execution.
  apply_execution-cases :
      (now : ℕ) (e : Execution) (s : Snapshot) {s' : Snapshot}
      → apply_execution num now e s ≡ ok s'
      → (is_empty e.execution_id ≡ false)
        × (((old : Execution) × (lookup (execution_storage_key e) s.executions ≡ some old)
              × (s ≡ s'))
            ⊎ ((lookup (execution_storage_key e) s.executions ≡ none) × Added now e s s'))
  unfolding apply_execution
  apply_execution-cases now e s h = elim (Bool-cases (is_empty e.execution_id)) [
    | inl blank ↦ absurd (ground arith)
    | inr given ↦ (
      given,
      elim (Option-cases (lookup (execution_storage_key e) s.executions)) [
        | inr (old, seen) ↦ inl (old, seen, ground arith)
        | inl unseen ↦
            inr (unseen, add_execution-Added now e s (rw (given, unseen, apply_execution) at h))
      ],
    )
  ]

  apply_execution-seen :
      (now : ℕ) (e old : Execution) (s : Snapshot)
      → is_empty e.execution_id ≡ false
      → lookup (execution_storage_key e) s.executions ≡ some old
      → apply_execution num now e s ≡ ok s
  unfolding apply_execution
  apply_execution-seen now e old s given seen = rw (given, seen, apply_execution) refl

  -- An execution counts once: after it was accepted, applying it again, at any time, is accepted and
  -- changes nothing.
  pub apply_execution_again :
      (now now' : ℕ) (e : Execution) (s : Snapshot) {s' : Snapshot}
      → apply_execution num now e s ≡ ok s'
      → apply_execution num now' e s' ≡ ok s'
  apply_execution_again now now' e s {s'} h =
      let (given, way) = apply_execution-cases now e s h in
      elim way [
        | inl (old, seen, same_state) ↦
            apply_execution-seen now' e old s' given (
              subst (λ x. lookup (execution_storage_key e) x.executions ≡ some old) same_state seen)
        | inr (unseen, a) ↦
            apply_execution-seen now' e e s' given
              (rw a.next (lookup-insert_self (execution_storage_key e) e s.executions))
      ]

  -- A new execution that is accepted is recorded, and fills the order that it names: the filled
  -- quantity becomes the sum of the two, printed with as many decimals as the one that has more; the
  -- price is the execution's; the time of the update is set; the status is `Filled` exactly where
  -- the sum is at least a given quantity, and else `PendingCancel` where it was that and
  -- `PartiallyFilled` otherwise, never at an earlier stage than before; all else of the order and
  -- every other order stay as they are.
  pub apply_execution-Added :
      (now : ℕ) (e : Execution) (s : Snapshot) {s' : Snapshot}
      → lookup (execution_storage_key e) s.executions ≡ none
      → apply_execution num now e s ≡ ok s'
      → (a : Added now e s s') × (lookup a.key s'.orders ≡ some a.after)
        × ((k : Text) → a.key ≢ k → lookup k s'.orders ≡ lookup k s.orders)
  apply_execution-Added now e s unseen h = elim (apply_execution-cases now e s h).1 [
    | inl (old, seen, _) ↦ absurd (ground arith)
    | inr (_, a) ↦ (
      a,
      rw a.next (lookup-insert_self a.key a.after s.orders),
      λ k ne. rw a.next (lookup-insert_ne a.key k a.after s.orders ne),
    )
  ]
