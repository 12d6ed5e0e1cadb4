-- ===== src/Intent/History/Once.antt =====
-- One quote and one request make at most one trade, over the whole life of the store.
use venuewire.Prelude.{
  ℕ, ◌≡◌, ap, sym, ◌∙◌, subst, inl, inr, Bool, false, none, some, List, is_empty, ok, Result-cases,
}
use venuewire.Prelude.Int.{pos, ◌≤ℤ◌}
use venuewire.Prelude.Map.{tally, lookup}
use venuewire.Intent.Types.{QuickTrade, Snapshot}
use venuewire.Intent.Evolution.{Extends, Evolves}
use venuewire.Intent.Disk.{File, absent, stored, empty_snapshot, Env, load, update}
use venuewire.Intent.Disk.Atomic.{update_cases}
use venuewire.Intent.Confirm.{
  Confirmation, DemoLimits, is_active, validate_confirmation, confirm_in, confirm_quick_trade,
}
use venuewire.Intent.Confirm.Indexes.{IsConsistent}
use venuewire.Intent.Confirm.Repeat.{confirm_in_once}
use venuewire.Intent.History.Invariant.{IsGood, IsGoodFile, load-stored_eq}
use venuewire.Intent.History.Steps.{
  confirm_quick_trade_kept, run_kept, validate_confirmation-intent_id,
}
use venuewire.Intent.History.{Call, run}

pub empty_snapshot-IsConsistent : IsConsistent empty_snapshot
unfolding lookup
empty_snapshot-IsConsistent = record {
  by_request = λ key id h. cc;
  by_quote = λ quote id h. cc;
  by_id = λ id t h. cc;
}

empty_snapshot-IsGood :
    (limits : DemoLimits) → pos 0 ≤ℤ limits.max_concurrent_trades → IsGood limits empty_snapshot
unfolding tally
empty_snapshot-IsGood limits h = record { consistent = empty_snapshot-IsConsistent; within = h }

absent-IsGoodFile :
    (limits : DemoLimits) → pos 0 ≤ℤ limits.max_concurrent_trades → IsGoodFile limits absent
unfolding load
absent-IsGoodFile limits positive s h =
    let same : empty_snapshot ≡ s = cc in
    subst (IsGood limits) same (empty_snapshot-IsGood limits positive)

-- Under any sequence of calls on a store that begins with no file, in any environments: what can
-- be read has consistent indexes, every trade in it has a sound history, and there are no more
-- active trades than the concurrency limit.
pub run-absent :
    (limits : DemoLimits) (calls : List (Env × ℕ × Call)) (s : Snapshot)
    → pos 0 ≤ℤ limits.max_concurrent_trades
    → load false (run limits calls absent) ≡ ok s
    → IsConsistent s × (pos (tally is_active s.quick_trades) ≤ℤ limits.max_concurrent_trades)
run-absent limits calls s positive h =
    let good = (run_kept limits calls absent (absent-IsGoodFile limits positive)).0 s h in
    (good.consistent, good.within)

-- A confirmation with no error answers with what `confirm_in` makes of the file, and stores it.
pub record Accepted (limits : DemoLimits) (env : Env) (now : ℕ) (f : File) (c : Confirmation)
    : Type 0 where
  pub before : Snapshot
  pub after : Snapshot
  pub trade : QuickTrade
  pub created : Bool
  pub given : is_empty c.intent_id ≡ false
  pub opened : load false f ≡ ok before
  pub made : confirm_in c limits now before ≡ ok (after, (trade, created))
  pub out : confirm_quick_trade env f c limits now ≡ record {
    file = stored (record after { updated_at = env.clock });
    value = some (trade, created);
    fault = none;
  }

update-Accepted :
    (limits : DemoLimits) (env : Env) (now : ℕ) (f : File) (c : Confirmation) (u : Unit {0})
    → validate_confirmation c limits ≡ ok u
    → (update env f (confirm_in c limits now)).fault ≡ none
    → Accepted limits env now f c
unfolding confirm_quick_trade
update-Accepted limits env now f c u valid h = elim (update_cases env f (confirm_in c limits now)) [
  | inl (e, failed, _) ↦ absurd (cc failed)
  | inr (s, s', (t, b), opened, made, out) ↦ record {
    before = s;
    after = s';
    trade = t;
    created = b;
    given = validate_confirmation-intent_id c limits valid;
    opened = opened;
    made = made;
    out = rw (valid, confirm_quick_trade) out;
  }
]

pub confirm_quick_trade-Accepted :
    (limits : DemoLimits) (env : Env) (now : ℕ) (f : File) (c : Confirmation)
    → (confirm_quick_trade env f c limits now).fault ≡ none
    → Accepted limits env now f c
unfolding confirm_quick_trade
confirm_quick_trade-Accepted limits env now f c h =
    elim (Result-cases (validate_confirmation c limits)) [
      | inl (e, refused) ↦ absurd (cc (rw (refused, confirm_quick_trade) at h))
      | inr (u, valid) ↦
          update-Accepted limits env now f c u valid (rw (valid, confirm_quick_trade) at h)
    ]

unstamped :
    (r : Snapshot) (clock : ℕ) {s : Snapshot}
    → Extends (record r { updated_at = clock }) s
    → Extends r s
unstamped r clock e = record {
  version = e.version;
  requests = e.requests;
  quotes = e.quotes;
  trades = e.trades;
}

-- Whatever is read after an accepted confirmation and further calls extends its result.
Accepted-Extends :
    (limits : DemoLimits) (calls : List (Env × ℕ × Call)) (env : Env) (now : ℕ) (f : File)
    (c : Confirmation)
    → IsGoodFile limits f
    → (a : Accepted limits env now f c) → {s : Snapshot}
    → load false (run limits calls (confirm_quick_trade env f c limits now).file) ≡ ok s
    → Extends a.after s
Accepted-Extends limits calls env now f c good a {s} h =
    let f1 = (confirm_quick_trade env f c limits now).file in
    let (good1, later1) = confirm_quick_trade_kept limits env f c now good in
    let (s1, read1, _) = later1 a.before a.opened in
    let stamped = record (a.after) { updated_at = env.clock } in
    let is_s1 : stamped ≡ s1 = load-stored_eq stamped s1 (rw (ap (λ o. o.file) a.out) at read1) in
    let (s2, read2, e) = (run_kept limits calls f1 good1).1 s1 read1 in
    let is_s2 : s2 ≡ s = cc in
    unstamped a.after env.clock
      (subst (λ x. Extends x s) (sym is_s1) (subst (λ x. Extends s1 x) is_s2 e))

-- After a first confirmation that reported no error on a store that began with no file, and after
-- any further calls, a confirmation of the same quote that reports no error creates no trade: it
-- answers with the first trade, as it now is, whatever request and session it comes with.
pub confirm_quick_trade_once :
    (limits : DemoLimits) (calls calls' : List (Env × ℕ × Call)) (env env' : Env) (now now' : ℕ)
    (c c' : Confirmation)
    → pos 0 ≤ℤ limits.max_concurrent_trades
    → c'.quote.id ≡ c.quote.id
    → let f = run limits calls absent in
      let first = confirm_quick_trade env f c limits now in
      let second = confirm_quick_trade env' (run limits calls' first.file) c' limits now' in
      first.fault ≡ none
      → second.fault ≡ none
      → (t : QuickTrade) × (t' : QuickTrade) × (b : Bool) × (first.value ≡ some (t, b))
        × (second.value ≡ some (t', false))
        × Evolves t t'
confirm_quick_trade_once limits calls calls' env env' now now' c c' positive quote h h' =
    let f = run limits calls absent in
    let good = (run_kept limits calls absent (absent-IsGoodFile limits positive)).0 in
    let first = confirm_quick_trade-Accepted limits env now f c h in
    let good1 = (confirm_quick_trade_kept limits env f c now good).0 in
    let f1 = (confirm_quick_trade env f c limits now).file in
    let good2 = (run_kept limits calls' f1 good1).0 in
    let second = confirm_quick_trade-Accepted limits env' now' (run limits calls' f1) c' h' in
    let later = Accepted-Extends limits calls' env now f c good first second.opened in
    let (flag, evolves) =
      confirm_in_once c limits now first.before first.after second.before first.trade first.created
        (good first.before first.opened).consistent first.given first.made later c' limits now'
        second.after second.trade second.created (good2 second.before second.opened).consistent
        quote second.made in
    (
      first.trade,
      second.trade,
      first.created,
      ap (λ o. o.value) first.out,
      ap (λ o. o.value) second.out ∙ rw flag,
      evolves,
    )
