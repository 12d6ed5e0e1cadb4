-- ===== src/Intent/Status/Paths.antt =====
-- What one status change does to a trade, and the walk that its lifecycle log records.
use venuewire.Prelude.{
  ℕ, Bool, true, false, ◌≡◌, refl, List, [], ◌∷◌, ◌++◌, Option, none, some, arith, Text, ok, ◌≢◌,
}
use venuewire.Intent.Types.{
  TradeStatus, unset, created, pending_submit, submitted, accepted, partially_filled, filled,
  pending_cancel, cancelled, rejected, unknown, TradeLifecycleEvent, QuickTrade,
}
use venuewire.Intent.Status.{
  eq_status, active, terminal, reached_venue, valid_trade_transition, apply_trade_status,
}

-- Each event follows the one before it by a row of the table.
abbrev pub Walk : TradeStatus → List TradeLifecycleEvent → TradeStatus → Type 0
Walk s [] t = s ≡ t
Walk s (e ∷ es) t = (valid_trade_transition s e.status ≡ true) × Walk e.status es t

-- A log that begins with `created` and walks to the status `t`.
abbrev pub History : List TradeLifecycleEvent → TradeStatus → Type 0
History [] t = ⊥
History (e ∷ es) t = (e.status ≡ created) × Walk created es t

Walk-concat :
    (s t : TradeStatus) (es : List TradeLifecycleEvent) (e : TradeLifecycleEvent)
    → Walk s es t
    → valid_trade_transition t e.status ≡ true
    → Walk s (es ++ e ∷ []) e.status
Walk-concat s t [] e w h = (ground arith, refl)
Walk-concat s t (x ∷ es) e w h = (w.0, Walk-concat x.status t es e w.1 h)

pub History-concat :
    (t : TradeStatus) (es : List TradeLifecycleEvent) (e : TradeLifecycleEvent)
    → History es t
    → valid_trade_transition t e.status ≡ true
    → History (es ++ e ∷ []) e.status
History-concat t [] e w h = elim w [ ]
History-concat t (x ∷ es) e w h = (w.0, Walk-concat created t es e w.1 h)

pub eq_status→eq : (a b : TradeStatus) → eq_status a b ≡ true → a ≡ b
eq_status→eq unset b h = ground arith
eq_status→eq _ b h = ground arith

abbrev pub is_some {ℓ} : {A : Type ℓ} → Option A → Bool
is_some none = false
is_some (some _) = true

-- What holds of every stored trade.
pub record IsSound (t : QuickTrade) : Type 0 where
  pub history : History t.lifecycle t.status
  pub ended : is_some t.terminal_at ≡ terminal t.status
  pub reached : reached_venue t.status ≡ true → is_some t.submitted_at ≡ true
  pub sent : t.send_attempted ≡ true → t.status ≢ created

-- A row of the table never leaves the terminal statuses, and never enters `created`.
pub valid_trade_transition-terminal :
    (a b : TradeStatus)
    → valid_trade_transition a b ≡ true
    → (terminal a ≡ true → terminal b ≡ true) × (b ≢ created) × (active b ≡ true → active a ≡ true)
unfolding valid_trade_transition
valid_trade_transition-terminal unset b h = ground arith
valid_trade_transition-terminal created b h = ground arith
valid_trade_transition-terminal pending_submit b h = ground arith
valid_trade_transition-terminal submitted b h = ground arith
valid_trade_transition-terminal accepted b h = ground arith
valid_trade_transition-terminal partially_filled b h = ground arith
valid_trade_transition-terminal filled b h = ground arith
valid_trade_transition-terminal pending_cancel b h = ground arith
valid_trade_transition-terminal cancelled b h = ground arith
valid_trade_transition-terminal rejected b h = ground arith
valid_trade_transition-terminal unknown b h = ground arith

-- An accepted change of status keeps the log a walk, the terminal time exactly where the status is
-- terminal, and the submission time wherever the venue has the order.
pub apply_trade_status-IsSound :
    (t : QuickTrade) (next : TradeStatus) (detail request_id : Text) (now : ℕ) {t' : QuickTrade}
    → IsSound t
    → apply_trade_status t next detail request_id now ≡ ok t'
    → IsSound t'
unfolding apply_trade_status
apply_trade_status-IsSound t next detail request_id now s h = ground (
  arith,
  valid_trade_transition-terminal t.status next,
  History-concat t.status t.lifecycle
      (record { status = next; at = now; detail = detail; request_id = request_id }) s.history,
)
