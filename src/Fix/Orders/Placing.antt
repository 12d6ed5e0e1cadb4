-- ===== src/Fix/Orders/Placing.antt =====
-- What `Place` guarantees: no order goes out that the order state does not hold.
use venuewire.Prelude.{
  ℕ, ◌≡◌, inl, inr, Bool, true, some, Text, text_eq, codes, ok, Result-cases, arith,
}
use venuewire.Prelude.Map.{lookup}
use venuewire.OrderState.Types.{pending_submit, Order, Snapshot}
use venuewire.OrderState.Service.{apply_order}
use venuewire.Fix.Session.Types.{Conn}
use venuewire.Fix.Session.Sending.{send}
use venuewire.Fix.Orders.Types.{NewOrderRequest, Router, Env, Library}
use venuewire.Fix.Orders.Router.{apply_to, validate_new_order, placed_order, order_fields}

pub apply_to-ok :
    (saved : Bool) (now : ℕ) (u : Order) (r : Router) {r' : Router}
    → apply_to saved now u r ≡ ok r'
    → (saved ≡ true)
      × (s : Snapshot) × (apply_order now u r.state ≡ ok s)
      × (r' ≡ record r { state = s })
unfolding apply_to
apply_to-ok saved now u r {r'} h = elim (Result-cases (apply_order now u r.state)) [
  | inl (e, failed) ↦ absurd (ground arith)
  | inr (s, fine) ↦ (ground arith, s, fine, ground arith)
]

-- An order that was sent: it is valid, and the state that was saved before holds it as pending.
pub record IsPlaced (lib : Library) (q : NewOrderRequest) (env : Env) (r r' : Router) : Type 0 where
  pub before : Conn
  pub after : Conn
  pub key : Text
  pub order : Order
  pub valid : validate_new_order q ≡ true
  pub saved : env.saved ≡ true
  pub active : r.conn ≡ some before
  pub sent : send r.settings env.write (codes "D") (order_fields lib r env q) before ≡ ok after
  pub still_active : r'.conn ≡ some after
  pub applied :
      apply_order env.now (placed_order q env.now env.now (codes "FIX_PENDING_SUBMIT")) r.state
      ≡ ok r'.state
  pub stored : lookup key r'.state.orders ≡ some order
  pub status : order.status ≡ pending_submit
