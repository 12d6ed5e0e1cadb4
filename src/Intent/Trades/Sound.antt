-- ===== src/Intent/Trades/Sound.antt =====
-- A dispatch or an update changes one trade, soundly.
use venuewire.Prelude.{
  ℕ, ◌≤◌, ◌≡◌, ◌≢◌, ◌⊎◌, true, false, refl, ap, sym, subst, ◌∙◌, inl, inr, some, arith, Text,
  text_eq, is_empty, Result, ok, err, Bool-cases, Option-cases, Result-cases, [], if◌then◌else◌,
}
use venuewire.Prelude.Map.{lookup, insert, lookup-insert_cases, tally, tally-insert}
use venuewire.Intent.Types.{
  TradeStatus, unset, created, pending_submit, QuickTrade, Snapshot, Fault, cannot_dispatch,
}
use venuewire.Intent.Status.{eq_status, apply_trade_status, valid_trade_transition}
use venuewire.Intent.Status.Paths.{
  IsSound, apply_trade_status-IsSound, valid_trade_transition-terminal, History-concat,
}
use venuewire.Intent.Evolution.{Extends, Evolves, Evolves-trans, insert-Evolves}
use venuewire.Intent.Confirm.{is_active}
use venuewire.Intent.Confirm.Indexes.{IsConsistent}
use venuewire.Intent.Trades.{
  QuickTradeUpdate, change_trade, dispatch_trade, copy_details, revise_trade,
}

-- The change is to the same trade, and leaves it sound.
abbrev pub Improves : QuickTrade → Result Fault QuickTrade → Type 0
Improves t (err e) = Unit
Improves t (ok t') = Evolves t t' × IsSound t'

copy_details-Improves :
    (u : QuickTradeUpdate) (now : ℕ) (t : QuickTrade)
    → IsSound t
    → Evolves t (copy_details u now t) × IsSound (copy_details u now t)
unfolding copy_details
copy_details-Improves u now t s = (ground arith, ground arith)

apply_trade_status-Evolves :
    (t : QuickTrade) (next : TradeStatus) (detail request_id : Text) (now : ℕ) {t' : QuickTrade}
    → apply_trade_status t next detail request_id now ≡ ok t'
    → Evolves t t'
unfolding apply_trade_status
apply_trade_status-Evolves t next detail request_id now h =
    ground (arith, valid_trade_transition-terminal t.status next)

-- Of a sound trade, an update that reports no error makes the same trade at a later time, which
-- is sound.
pub revise_trade-Improves :
    (u : QuickTradeUpdate) (now : ℕ) (t : QuickTrade)
    → IsSound t
    → Improves t (revise_trade u now t)
unfolding revise_trade
revise_trade-Improves u now t s = elim (Bool-cases (eq_status u.status unset)) [
  | inl same_status ↦ rw same_status (copy_details-Improves u now t s)
  | inr moves ↦
      let detail = if is_empty u.lifecycle_detail then u.public_error else u.lifecycle_detail in
      rw moves (elim (Result-cases (apply_trade_status t u.status detail u.request_id now)) [
        | inl (e, refused) ↦ rw refused tt
        | inr (m, moved) ↦
            let sound = apply_trade_status-IsSound t u.status detail u.request_id now s moved in
            let evolves = apply_trade_status-Evolves t u.status detail u.request_id now moved in
            let (copied, still) = copy_details-Improves u now m sound in
            rw moved (Evolves-trans evolves copied, still)
      ])
]

-- Of a sound trade, a dispatch that reports no error makes the same trade at a later time, which
-- is sound.
pub dispatch_trade-Improves :
    (now : ℕ) (t : QuickTrade) → IsSound t → Improves t (dispatch_trade now t)
unfolding dispatch_trade apply_trade_status valid_trade_transition
dispatch_trade-Improves now t s = ground (
  arith,
  History-concat created t.lifecycle
      (record { status = pending_submit; at = now; detail = []; request_id = [] }),
)

-- What a dispatch of a trade may be: refused where the trade is no longer created and was not sent;
-- nothing where it was sent before; and else the same trade, marked as sent and waiting for the venue.
abbrev pub Dispatches : ℕ → QuickTrade → Result Fault QuickTrade → Type 0
Dispatches now t (err e) =
    (t.send_attempted ≡ false) × (t.status ≢ created) × (e ≡ cannot_dispatch t.status)
Dispatches now t (ok t') =
    ((t.send_attempted ≡ true) × (t' ≡ t))
    ⊎ ((t.send_attempted ≡ false)
        × (t.status ≡ created)
        × (t'.send_attempted ≡ true)
        × (t'.status ≡ pending_submit)
        × (t'.updated_at ≡ now)
        × Evolves t t'
        × IsSound t')

is_created : (a : TradeStatus) → eq_status a created ≡ true → a ≡ created
is_created a h = ground arith

not_created : (a : TradeStatus) → eq_status a created ≡ false → a ≢ created
not_created a h e = ground arith

dispatch_trade-fresh :
    (now : ℕ) (t : QuickTrade)
    → t.send_attempted ≡ false
    → t.status ≡ created
    → (t' : QuickTrade) × (dispatch_trade now t ≡ ok t')
      × (t'.send_attempted ≡ true)
      × (t'.status ≡ pending_submit)
      × (t'.updated_at ≡ now)
unfolding dispatch_trade apply_trade_status valid_trade_transition
dispatch_trade-fresh now t unsent fresh = elim (Result-cases (dispatch_trade now t)) [
  | inl (e, failed) ↦ absurd (ground arith)
  | inr (t', goes) ↦ (t', goes, ground arith, ground arith, ground arith)
]

-- Of a sound trade, a dispatch is refused exactly where the trade was not sent and is no longer
-- created, and the error names its status; it changes nothing where the trade was sent before; and
-- else it makes the same trade, sound, marked as sent, and pending submission.
pub dispatch_trade-Dispatches :
    (now : ℕ) (t : QuickTrade) → IsSound t → Dispatches now t (dispatch_trade now t)
unfolding dispatch_trade
dispatch_trade-Dispatches now t s = elim (Bool-cases t.send_attempted) [
  | inl sent ↦
      let goes : dispatch_trade now t ≡ ok t = ground arith in
      subst (λ x. Dispatches now t x) (sym goes) (inl (sent, refl))
  | inr unsent ↦ elim (Bool-cases (eq_status t.status created)) [
    | inr moved ↦
        let goes : dispatch_trade now t ≡ err (cannot_dispatch t.status) = ground arith in
        subst (λ x. Dispatches now t x) (sym goes) (unsent, not_created t.status moved, refl)
    | inl fresh ↦
        let (t', goes, attempted, status, updated) =
          dispatch_trade-fresh now t unsent (is_created t.status fresh) in
        let (evolves, sound) : Improves t (ok t') = rw goes at (dispatch_trade-Improves now t s) in
        subst (λ x. Dispatches now t x) (sym goes)
          (inr (unsent, is_created t.status fresh, attempted, status, updated, evolves, sound))
  ]
]

module _ (id : Text) (mutate : QuickTrade → Result Fault QuickTrade)
    (improves : (t : QuickTrade) → IsSound t → Improves t (mutate t)) where
  pub change_trade-ok :
      (s : Snapshot) {s' : Snapshot} {t' : QuickTrade}
      → change_trade id mutate s ≡ ok (s', t')
      → (t : QuickTrade) × (lookup id s.quick_trades ≡ some t)
        × (mutate t ≡ ok t')
        × (s' ≡ record s { quick_trades = insert id t' s.quick_trades })
  unfolding change_trade
  change_trade-ok s h = elim (Option-cases (lookup id s.quick_trades)) [
    | inl missing ↦ ground arith
    | inr (t, found) ↦ elim (Result-cases (mutate t)) [
      | inl (e, refused) ↦ ground arith
      | inr (t', changed) ↦ (t, found, ground arith, ground arith)
    ]
  ]

  changed-IsConsistent :
      (s : Snapshot) (t t' : QuickTrade)
      → IsConsistent s
      → lookup id s.quick_trades ≡ some t
      → Evolves t t'
      → IsSound t'
      → let s' = record s { quick_trades = insert id t' s.quick_trades } in
        IsConsistent s' × Extends s s'
  changed-IsConsistent s t t' v found e sound = (
    record {
      by_request = λ key i h.
          let (u, ne, there) = v.by_request key i h in
          let (u', there', _) = kept i u there in (u', ne, there');
      by_quote = λ quote i h.
          let (u, ne, there, q) = v.by_quote quote i h in
          let (u', there', same_trade) = kept i u there in
          (u', ne, there', ap (λ q. q.id) same_trade.quote ∙ q);
      by_id = λ i u h. elim (lookup-insert_cases id i t' s.quick_trades h) [
        | inl (here, eq) ↦
            let (own, indexed, _) = v.by_id id t found in
            rw (← eq, ← here) (e.id ∙ own, rw e.quote indexed, sound)
        | inr (_, old) ↦ v.by_id i u old
      ];
    },
    record { version = refl; requests = λ key i h. h; quotes = λ quote i h. h; trades = kept },
  )
    where
      kept :
          (i : Text) (u : QuickTrade)
          → lookup i s.quick_trades ≡ some u
          → (u' : QuickTrade) × (lookup i (insert id t' s.quick_trades) ≡ some u') × Evolves u u'
      kept = insert-Evolves id t t' s.quick_trades found e

  -- The change of one trade keeps the snapshot consistent, drops nothing, and makes no trade active.
  pub change_trade-IsConsistent :
      (s : Snapshot) {s' : Snapshot} {t' : QuickTrade}
      → IsConsistent s
      → change_trade id mutate s ≡ ok (s', t')
      → IsConsistent s'
        × Extends s s'
        × (tally is_active s'.quick_trades ≤ tally is_active s.quick_trades)
  change_trade-IsConsistent s {t' = t'} v h =
      let (t, found, changed, next) = change_trade-ok s h in
      let (evolves, sound) = rw changed at (improves t (v.by_id id t found).2) in
      let (consistent, extends) = changed-IsConsistent s t t' v found evolves sound in
      rw next (
        consistent,
        extends,
        ground (arith, tally-insert is_active id t' t s.quick_trades found, evolves.active_before),
      )
