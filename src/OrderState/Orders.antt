-- ===== src/OrderState/Orders.antt =====
-- What an update does to the orders.
use venuewire.Prelude.{
  ℕ, ◌<◌, ◌≡◌, ◌≢◌, ◌⊎◌, inl, inr, [], not, none, ◌&&◌, some, if◌then◌else◌, Text, text_eq, same,
  is_empty, ok, Result-cases, arith,
}
use venuewire.Prelude.Map.{Map, lookup}
use venuewire.OrderState.Types.{Order, Snapshot}
use venuewire.OrderState.Accounts.{order_storage_key}
use venuewire.OrderState.Transitions.{stage, validate_transition, validate_transition-stage}
use venuewire.OrderState.Service.{merge_order, target, stamp, put_order, apply_order}

-- The key under which `put_order` leaves the order.
abbrev pub final_key : Text → Order → Text
final_key key o =
    if not (same key (order_storage_key o)) && not (is_empty (order_storage_key o))
    then order_storage_key o
    else key

-- An order that is stored under a key, in place of another key: nothing stays under a key that it left,
-- and every other order is as it was.
pub record IsPutAt (final key : Text) (o : Order) (orders orders' : Map Text Order) : Type 0 where
  pub there : lookup final orders' ≡ some o
  pub left : key ≢ final → lookup key orders' ≡ none
  pub others : (k : Text) → key ≢ k → final ≢ k → lookup k orders' ≡ lookup k orders

-- The orders behind an update: the order stands under the key that its identifiers give it, or under
-- the key that it had where they give none.
abbrev pub IsPut : Text → Order → Map Text Order → Map Text Order → Type 0
IsPut key o orders orders' = IsPutAt (final_key key o) key o orders orders'

-- A text of an update, where it has one, and else the text from before.
pub Takes : Text → Text → Text → Type 0
Takes current update result =
    ((update ≡ []) × (result ≡ current)) ⊎ ((update ≢ []) × (result ≡ update))

-- An order that an update was merged into.
pub record IsMerged (current u o : Order) : Type 0 where
  pub symbol : Takes current.symbol u.symbol o.symbol
  pub order_id : Takes current.order_id u.order_id o.order_id
  pub order_link_id : Takes current.order_link_id u.order_link_id o.order_link_id
  pub side : Takes current.side u.side o.side
  pub price : Takes current.price u.price o.price
  pub qty : Takes current.qty u.qty o.qty
  pub cum_filled_qty : Takes current.cum_filled_qty u.cum_filled_qty o.cum_filled_qty
  pub avg_fill_price : Takes current.avg_fill_price u.avg_fill_price o.avg_fill_price
  pub raw_status : Takes current.raw_status u.raw_status o.raw_status

merge_order-status :
    (c u : Order) {a : Unit {0}}
    → validate_transition c.status u.status ≡ ok a
    → (merge_order c u).status ≡ u.status
unfolding merge_order
merge_order-status c u h =
    let staged = validate_transition-stage c.status u.status h in ground arith

-- How an update that is accepted changes the snapshot.
pub record Updated (now : ℕ) (u : Order) (s s' : Snapshot) : Type 0 where
  pub key : Text
  pub current : Order
  pub found : target u s.orders ≡ ok (key, current)
  pub next : s' ≡ record s { orders = put_order key (stamp now (merge_order current u)) s.orders }
  pub status : (merge_order current u).status ≡ u.status
  pub forward : (current.status ≡ u.status) ⊎ (stage current.status < stage u.status)

pub apply_order-Updated :
    (now : ℕ) (u : Order) (s : Snapshot) {s' : Snapshot}
    → apply_order now u s ≡ ok s'
    → Updated now u s s'
unfolding apply_order
apply_order-Updated now u s h = elim (Result-cases (target u s.orders)) [
  | inl (e, failed) ↦ absurd (ground arith)
  | inr ((key, current), found) ↦
      elim (Result-cases (validate_transition current.status u.status)) [
        | inl (e, refused) ↦ absurd (ground arith)
        | inr (a, valid) ↦ record {
          key = key;
          current = current;
          found = found;
          next = ground arith;
          status = merge_order-status current u valid;
          forward = validate_transition-stage current.status u.status valid;
        }
      ]
]
