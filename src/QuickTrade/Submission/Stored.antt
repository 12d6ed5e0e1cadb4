-- ===== src/QuickTrade/Submission/Stored.antt =====
-- What a created trade and a dispatched one leave in the store.
use venuewire.Prelude.{
  ℕ, ◌≡◌, refl, ap, sym, ◌∙◌, subst, inl, inr, true, false, none, some, Text, text_eq, ok,
  Option-cases, arith,
}
use venuewire.Prelude.Map.{lookup, lookup-insert_self}
use venuewire.Intent.Types.{QuickTrade, Snapshot}
use venuewire.Intent.Status.{apply_trade_status}
use venuewire.Intent.Disk.{File, Env, load, stored}
use venuewire.Intent.Disk.Atomic.{update_cases}
use venuewire.Intent.Confirm.{Confirmation, DemoLimits, new_trade, confirm_in, confirm_quick_trade}
use venuewire.Intent.Confirm.Cases.{replayed, adopted, created_new, admitted, confirm_in-ok}
use venuewire.Intent.History.Once.{confirm_quick_trade-Accepted}
use venuewire.Intent.Trades.{change_trade, dispatch_trade, mark_quick_trade_dispatching}
use venuewire.Intent.Trades.Sound.{change_trade-ok, dispatch_trade-Improves}
use venuewire.QuickTrade.Application.{World, submit_trade, dispatch}

dispatch_trade-attempted :
    (now : ℕ) (t : QuickTrade) {t' : QuickTrade}
    → dispatch_trade now t ≡ ok t'
    → t'.send_attempted ≡ true
unfolding dispatch_trade apply_trade_status
dispatch_trade-attempted now t h = ground arith

dispatch_trade-kept :
    (now : ℕ) (t : QuickTrade) {t' : QuickTrade}
    → dispatch_trade now t ≡ ok t'
    → (t'.id ≡ t.id) × (t'.client_order_id ≡ t.client_order_id) × (t'.quote ≡ t.quote)
unfolding dispatch_trade apply_trade_status
dispatch_trade-kept now t h = ground arith

-- The trade that the file `g` holds under the ID is in the file `f`, marked as sent: with the same
-- ID, order ID and quote.
pub record IsStored (g : File) (id : Text) (t : QuickTrade) (f : File) : Type 0 where
  pub before : Snapshot
  pub held : QuickTrade
  pub opened : load false g ≡ ok before
  pub found : lookup id before.quick_trades ≡ some held
  pub same_id : t.id ≡ held.id
  pub same_order_id : t.client_order_id ≡ held.client_order_id
  pub same_quote : t.quote ≡ held.quote
  pub after : Snapshot
  pub file : f ≡ stored after
  pub there : lookup id after.quick_trades ≡ some t
  pub attempted : t.send_attempted ≡ true

mark-IsStored :
    (env : Env) (f : File) (id : Text) (now : ℕ) {t : QuickTrade}
    → (mark_quick_trade_dispatching env f id now).fault ≡ none
    → (mark_quick_trade_dispatching env f id now).value ≡ some t
    → IsStored f id t (mark_quick_trade_dispatching env f id now).file
unfolding mark_quick_trade_dispatching
mark-IsStored env f id now {t} fine handed =
    elim (update_cases env f (change_trade id (dispatch_trade now))) [
      | inl (e, failed, _) ↦ absurd (cc failed)
      | inr (s, s', t', opened, made, out) ↦
          let (t0, found, changed, next) =
            change_trade-ok id (dispatch_trade now) (dispatch_trade-Improves now) s made in
          let (same_id, same_order_id, same_quote) = dispatch_trade-kept now t0 changed in
          let given : some t' ≡ some t = sym (ap (λ o. o.value) out) ∙ handed in
          let eq : t' ≡ t = cc given in
          subst (λ x. IsStored f id x (mark_quick_trade_dispatching env f id now).file) eq
            (record {
              before = s;
              held = t0;
              opened = opened;
              found = found;
              same_id = same_id;
              same_order_id = same_order_id;
              same_quote = same_quote;
              after = record s' { updated_at = env.clock };
              file = ap (λ o. o.file) out;
              there = rw next (lookup-insert_self id t' s.quick_trades);
              attempted = dispatch_trade-attempted now t0 changed;
            })
    ]

pub dispatch-sent :
    (w : World) (trade : QuickTrade) (file : File) {t : QuickTrade} {f : File}
    → (dispatch w trade file).sent ≡ some (t, f)
    → IsStored (w.dispatch.others file) trade.id t f
unfolding dispatch submit_trade
dispatch-sent w trade file {t} {f} h =
    let g = w.dispatch.others file in
    let out = mark_quick_trade_dispatching w.dispatch.env g trade.id w.dispatch.now in
    elim (Option-cases out.fault) [
      | inr (e, failed) ↦ absurd (ground arith)
      | inl fine ↦ elim (Option-cases out.value) [
        | inl nothing ↦ absurd (ground arith)
        | inr (m, handed) ↦
            let stored_m = mark-IsStored w.dispatch.env g trade.id w.dispatch.now fine handed in
            let is_t : m ≡ t = ground arith in
            let is_f : out.file ≡ f = ground arith in
            subst (λ x. IsStored g trade.id x f) is_t
              (subst (λ x. IsStored g trade.id m x) is_f stored_m)
      ]
    ]

-- The call created the trade `t` for the confirmation in some state of the file, and put it into the
-- file `made` under its ID, where no trade was before.
pub record Creates (w : World) (c : Confirmation) (t : QuickTrade) (made : File) : Type 0 where
  pub found : File
  pub before : Snapshot
  pub after : Snapshot
  pub opened : load false found ≡ ok before
  pub fresh : lookup c.intent_id before.quick_trades ≡ none
  pub file : made ≡ stored after
  pub there : lookup t.id after.quick_trades ≡ some t
  pub id : t.id ≡ c.intent_id
  pub identity : t.identity ≡ c.identity
  pub session_id : t.session_id ≡ c.session_id
  pub client_order_id : t.client_order_id ≡ c.client_order_id
  pub quote : t.quote ≡ c.quote
  pub unsent : t.send_attempted ≡ false

confirm_in-created :
    (c : Confirmation) (limits : DemoLimits) (now : ℕ) (s : Snapshot) {s' : Snapshot}
    {t : QuickTrade}
    → confirm_in c limits now s ≡ ok (s', (t, true))
    → (lookup c.intent_id s.quick_trades ≡ none) × (s' ≡ admitted c now s) × (t ≡ new_trade c now)
confirm_in-created c limits now s h = elim (confirm_in-ok c limits now s h) [
  | replayed _ _ _ _ _ _ flag ↦ absurd (cc flag)
  | adopted _ _ _ _ _ _ flag ↦ absurd (cc flag)
  | created_new _ _ _ unused _ next trade _ ↦ (unused, next, trade)
]

pub confirm_quick_trade-Creates :
    (w : World) (c : Confirmation) (file : File) {t : QuickTrade}
    → let out = confirm_quick_trade w.create.env file c w.limits w.now in
      out.fault ≡ none → out.value ≡ some (t, true) → Creates w c t out.file
unfolding new_trade
confirm_quick_trade-Creates w c file {t} fine handed =
    let a = confirm_quick_trade-Accepted w.limits w.create.env w.now file c fine in
    let given : some (a.trade, a.created) ≡ some (t, true) =
      sym (ap (λ o. o.value) a.out) ∙ handed in
    let same_pair : (a.trade, a.created) ≡ (t, true) = cc given in
    let made : confirm_in c w.limits w.now a.before ≡ ok (a.after, (t, true)) =
      a.made ∙ ap (λ p. ok (a.after, p)) same_pair in
    let (unused, next, trade) = confirm_in-created c w.limits w.now a.before made in
    let is_id : t.id ≡ c.intent_id = rw trade refl in
    record {
      found = file;
      before = a.before;
      after = record a.after { updated_at = w.create.env.clock };
      opened = a.opened;
      fresh = unused;
      file = ap (λ o. o.file) a.out;
      there =
          rw (is_id, next, trade)
            (lookup-insert_self c.intent_id (new_trade c w.now) a.before.quick_trades);
      id = is_id;
      identity = rw trade refl;
      session_id = rw trade refl;
      client_order_id = rw trade refl;
      quote = rw trade refl;
      unsent = rw trade refl;
    }
