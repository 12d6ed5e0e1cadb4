-- ===== src/Intent/History/Steps.antt =====
-- Every call keeps the stored snapshot consistent, within the concurrency limit, and extends it.
use venuewire.Prelude.{
  ℕ, ◌≡◌, refl, inl, inr, false, Option, arith, Text, text_eq, List, [], ◌∷◌, is_empty, Result, ok,
  Result-cases, Bool-cases, trim_space,
}
use venuewire.Intent.Types.{PlanStatus, Plan, TradeCursor, QuickTrade, Snapshot, Fault}
use venuewire.Intent.Status.Paths.{IsSound}
use venuewire.Intent.Evolution.{Extends, Extends-trans, Evolves-refl}
use venuewire.Intent.Disk.{File, Env}
use venuewire.Intent.Plans.{
  add_plan, claim_plan, finish_plan, move_cursor, save_plan, claim, finish, set_cursor,
}
use venuewire.Intent.Confirm.{
  Confirmation, DemoLimits, is_blank, validate_confirmation, confirm_in, confirm_quick_trade,
}
use venuewire.Intent.Confirm.Indexes.{confirm_in-IsConsistent}
use venuewire.Intent.Confirm.Quotas.{confirm_in-active_le}
use venuewire.Intent.Trades.{
  change_trade, dispatch_trade, revise_trade, mark_quick_trade_dispatching, update_quick_trade,
}
use venuewire.Intent.Trades.Sound.{
  Improves, change_trade-IsConsistent, dispatch_trade-Improves, revise_trade-Improves,
}
use venuewire.Intent.History.{
  Call, confirms, dispatches, revises, saves, claims, finishes, moves_cursor, step, run,
}
use venuewire.Intent.History.Invariant.{IsGood, IsGoodFile, Later, Keeps, Later-refl, update_kept}

-- The call leaves the quick trades alone.
record Untouched (s s' : Snapshot) : Type 0 where
  version : s'.version ≡ s.version
  trades : s'.quick_trades ≡ s.quick_trades
  requests : s'.quick_requests ≡ s.quick_requests
  quotes : s'.consumed_quotes ≡ s.consumed_quotes

add_plan-Untouched :
    (plan : Plan) (s s' : Snapshot) {a : Unit {0}} → add_plan plan s ≡ ok (s', a) → Untouched s s'
unfolding add_plan
add_plan-Untouched plan s s' h = ground arith

claim_plan-Untouched :
    (id : Text) (now : ℕ) (s s' : Snapshot) {a : Option Plan}
    → claim_plan id now s ≡ ok (s', a)
    → Untouched s s'
unfolding claim_plan
claim_plan-Untouched id now s s' h = ground arith

finish_plan-Untouched :
    (id : Text) (status : PlanStatus) (order_id e : Text) (s s' : Snapshot) {a : Unit {0}}
    → finish_plan id status order_id e s ≡ ok (s', a)
    → Untouched s s'
unfolding finish_plan
finish_plan-Untouched id status order_id e s s' h = ground arith

move_cursor-Untouched :
    (key : Text) (c : TradeCursor) (s s' : Snapshot) {a : Unit {0}}
    → move_cursor key c s ≡ ok (s', a)
    → Untouched s s'
unfolding move_cursor
move_cursor-Untouched key c s s' h = ground arith

Untouched-IsGood :
    (limits : DemoLimits) (s s' : Snapshot)
    → Untouched s s'
    → IsGood limits s
    → IsGood limits s' × Extends s s'
Untouched-IsGood limits s s' u g = (
  record {
    consistent = record {
      by_request = λ key id h. rw u.trades (g.consistent.by_request key id (rw u.requests at h));
      by_quote = λ quote id h. rw u.trades (g.consistent.by_quote quote id (rw u.quotes at h));
      by_id = λ id t h. rw u.quotes (g.consistent.by_id id t (rw u.trades at h));
    };
    within = rw u.trades g.within;
  },
  record {
    version = u.version;
    requests = λ key id h. rw u.requests h;
    quotes = λ quote id h. rw u.quotes h;
    trades = λ id t h. (t, rw u.trades h, Evolves-refl t);
  },
)

-- A validated confirmation has an intent ID.
validate_confirmation-is_blank :
    (c : Confirmation) (limits : DemoLimits) {a : Unit {0}}
    → validate_confirmation c limits ≡ ok a
    → is_blank c.intent_id ≡ false
unfolding validate_confirmation
validate_confirmation-is_blank c limits h = elim (Bool-cases (is_blank c.intent_id)) [
  | inl blank ↦ absurd (cc (rw blank at h))
  | inr given ↦ given
]

not_blank→nonempty : (s : Text) → is_blank s ≡ false → is_empty s ≡ false
unfolding trim_space is_empty
not_blank→nonempty [] h = h
not_blank→nonempty (x ∷ xs) h = refl

pub validate_confirmation-intent_id :
    (c : Confirmation) (limits : DemoLimits) {a : Unit {0}}
    → validate_confirmation c limits ≡ ok a
    → is_empty c.intent_id ≡ false
validate_confirmation-intent_id c limits h =
    not_blank→nonempty c.intent_id (validate_confirmation-is_blank c limits h)

module _ (limits : DemoLimits) where
  confirm_in-Keeps :
      (c : Confirmation) (now : ℕ)
      → is_empty c.intent_id ≡ false
      → Keeps limits (confirm_in c limits now)
  confirm_in-Keeps c now given s s' (t, b) g h =
      let (v, e) = confirm_in-IsConsistent c limits now s g.consistent given h in
      (record { consistent = v; within = confirm_in-active_le c limits now s g.within h }, e)

  change_trade-Keeps :
      (id : Text) (mutate : QuickTrade → Result Fault QuickTrade)
      → ((t : QuickTrade) → IsSound t → Improves t (mutate t))
      → Keeps limits (change_trade id mutate)
  change_trade-Keeps id mutate improves s s' t g h =
      let (v, e, fewer) = change_trade-IsConsistent id mutate improves s g.consistent h in
      (record { consistent = v; within = omega (arith, g.within) }, e)

  pub confirm_quick_trade_kept :
      (env : Env) (f : File) (c : Confirmation) (now : ℕ)
      → IsGoodFile limits f
      → let f' = (confirm_quick_trade env f c limits now).file in
        IsGoodFile limits f' × Later limits f f'
  unfolding confirm_quick_trade
  confirm_quick_trade_kept env f c now good = elim (Result-cases (validate_confirmation c limits)) [
    | inl (e, refused) ↦ rw (refused, confirm_quick_trade) (good, Later-refl limits f)
    | inr (a, valid) ↦
        rw (valid, confirm_quick_trade)
          (update_kept limits env f (confirm_in c limits now)
            (confirm_in-Keeps c now (validate_confirmation-intent_id c limits valid)) good)
  ]

  -- Every call, whatever the environment, keeps what is stored good, and extends it.
  pub step_kept :
      (env : Env) (now : ℕ) (call : Call) (f : File)
      → IsGoodFile limits f
      → IsGoodFile limits (step limits env now call f) × Later limits f (step limits env now call f)
  unfolding step mark_quick_trade_dispatching update_quick_trade save_plan claim finish set_cursor
  step_kept env now (confirms c) f good = confirm_quick_trade_kept env f c now good
  step_kept env now (dispatches id) f good =
      update_kept limits env f _
        (change_trade-Keeps id (dispatch_trade now) (dispatch_trade-Improves now)) good
  step_kept env now (revises id u) f good =
      update_kept limits env f _
        (change_trade-Keeps id (revise_trade u now) (revise_trade-Improves u now)) good
  step_kept env now (saves plan) f good =
      update_kept limits env f _
        (λ s s' a g h. Untouched-IsGood limits s s' (add_plan-Untouched plan s s' h) g) good
  step_kept env now (claims id) f good =
      update_kept limits env f _
        (λ s s' a g h. Untouched-IsGood limits s s' (claim_plan-Untouched id now s s' h) g) good
  step_kept env now (finishes id status order_id e) f good =
      update_kept limits env f _
        (λ s s' a g h.
          Untouched-IsGood limits s s' (finish_plan-Untouched id status order_id e s s' h) g)
        good
  step_kept env now (moves_cursor key c) f good =
      update_kept limits env f _
        (λ s s' a g h. Untouched-IsGood limits s s' (move_cursor-Untouched key c s s' h) g) good

  pub run_kept :
      (calls : List (Env × ℕ × Call)) (f : File)
      → IsGoodFile limits f
      → IsGoodFile limits (run limits calls f) × Later limits f (run limits calls f)
  unfolding run
  run_kept [] f good = (good, Later-refl limits f)
  run_kept ((env, now, call) ∷ calls) f good =
      let (good', later) = step_kept env now call f good in
      let (good'', later') = run_kept calls (step limits env now call f) good' in
      (
        good'',
        λ s h.
            let (u, hu, e) = later s h in
            let (w, hw, e') = later' u hu in (w, hw, Extends-trans e e'),
      )
