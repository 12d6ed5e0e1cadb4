-- ===== src/Fix/Orders/Recording.antt =====
-- What an accepted execution report leaves in the order state, and when one is refused.
pub mod Executions
use venuewire.Prelude.{
  ℕ, ◌≡◌, ◌∙◌, ◌⊎◌, ◌<◌, refl, Bool, false, some, List, [], ◌∷◌, Text, text_eq, codes, same, ok,
  err, Bool-cases, Option-cases, arith,
}
use venuewire.Prelude.Map.{
  lookup, insert, lookup-insert_self, lookup-insert_new, lookup-insert_cases, Map,
}
use venuewire.Fix.Codec.{Message}
use venuewire.OrderState.Types.{
  pending_submit, rejected_cancel, Order, Snapshot, StateError, bad_transition,
}
use venuewire.OrderState.Accounts.{execution_storage_key}
use venuewire.OrderState.Transitions.{eq_status, is_allowed, validate_transition, stage}
use venuewire.OrderState.Service.{target, apply_order}
use venuewire.OrderState.Orders.{IsPut, IsMerged}
use venuewire.OrderState.Filling.{Rationals, record_execution}
use venuewire.Fix.Orders.Types.{Router, RouterError, state_failed, Env, Library}
use venuewire.Fix.Orders.Router.{apply_to}
use venuewire.Fix.Orders.Reports.{
  value_or, status_from_fix, report_order, not_back, handle_execution_report,
}

-- The update is merged into the order that it is about, which takes the update's status, the same as
-- before or at a later stage, and is stored under its key; every other order stays.
pub IsForward : Order → Map Text Order → Map Text Order → Type 0
IsForward u orders orders' =
    (key : Text) × (current : Order) × (o : Order) × (target u orders ≡ ok (key, current))
    × IsPut key o orders orders'
    × IsMerged current u o
    × (o.status ≡ u.status)
    × ((current.status ≡ o.status) ⊎ (stage current.status < stage o.status))

apply_to-refuses :
    (saved : Bool) (now : ℕ) (u : Order) (r : Router) (key : Text) (o : Order) {e : StateError}
    → target u r.state.orders ≡ ok (key, o)
    → validate_transition o.status u.status ≡ err e
    → apply_to saved now u r ≡ err (state_failed e)
unfolding apply_to apply_order
apply_to-refuses saved now u r key o found refused = rw (found, refused, apply_to, apply_order) refl

validate_stuck :
    (v : Text)
    → validate_transition rejected_cancel (status_from_fix v)
      ≡ err (bad_transition rejected_cancel (status_from_fix v))
unfolding validate_transition is_allowed status_from_fix
validate_stuck v = ground arith

not_pending :
    (v : Text) → same v (codes "A") ≡ false → eq_status (status_from_fix v) pending_submit ≡ false
unfolding status_from_fix
not_pending v h = ground arith

not_back-stays :
    (s : Snapshot) (u : Order) → eq_status u.status pending_submit ≡ false → not_back s u ≡ u
unfolding not_back
not_back-stays s u h = rw (h, not_back) refl

module _ (num : Rationals) (lib : Library) where
  report-fails :
      (env : Env) (m : Message) (r : Router) {e : RouterError}
      → apply_to env.saved env.now (not_back r.state (report_order lib m)) r ≡ err e
      → handle_execution_report num lib env m r ≡ (r, some e)
  unfolding handle_execution_report
  report-fails env m r h = rw (h, handle_execution_report) refl

  -- An order whose cancel was rejected takes no report any more, but one that still says pending: the
  -- report is refused and nothing changes, whatever was filled.
  pub handle_execution_report-stuck :
      (env : Env) (m : Message) (r : Router) (key : Text) (o : Order)
      → target (report_order lib m) r.state.orders ≡ ok (key, o)
      → o.status ≡ rejected_cancel
      → same (value_or m 39 []) (codes "A") ≡ false
      → handle_execution_report num lib env m r ≡ (
        r,
        some (state_failed (bad_transition rejected_cancel (status_from_fix (value_or m 39 [])))),
      )
  unfolding report_order
  handle_execution_report-stuck env m r key o found stuck other =
      let u = report_order lib m in
      let v = value_or m 39 [] in
      let same_order : not_back r.state u ≡ u = not_back-stays r.state u (not_pending v other) in
      let refuses : apply_to env.saved env.now u r
          ≡ err (state_failed (bad_transition rejected_cancel (status_from_fix v))) =
        apply_to-refuses env.saved env.now u r key o found (rw stuck (validate_stuck v)) in
      report-fails env m r (rw same_order refuses)
