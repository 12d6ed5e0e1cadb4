-- ===== src/Tests/Store.antt =====
-- The intent store on two confirmations of one quote.
use venuewire.Prelude.{
  ℕ, ◌≡◌, ◌⊎◌, refl, Bool, true, false, none, some, List, [], ◌∷◌, codes, same, is_empty,
  trim_space, Result, ok, arith,
}
use venuewire.Prelude.Int.{pos, ◌≤ℤ◌}
use venuewire.Prelude.Map.{lookup, insert, tally}
use venuewire.Tests.Data.{limits, env, calls, first, second}
use venuewire.Intent.Types.{created, pending_submit, QuickTrade, Snapshot, Fault}
use venuewire.Intent.Status.{valid_trade_transition, apply_trade_status}
use venuewire.Intent.Evolution.{Evolves}
use venuewire.Intent.Trades.{mark_quick_trade_dispatching, change_trade, dispatch_trade}
use venuewire.Intent.Confirm.Indexes.{IsConsistent}
use venuewire.Intent.Disk.{File, absent, stored, Env, empty_snapshot, load, update}
use venuewire.Intent.Disk.Atomic.{update_cases}
use venuewire.Intent.Confirm.{
  is_active, quick_request_key, index_at, validate_confirmation, confirm_in, confirm_quick_trade,
  new_trade,
}
use venuewire.Intent.History.{Call, confirms, dispatches, step, run}
use venuewire.Intent.History.Once.{run-absent, confirm_quick_trade_once}

-- The file behind the first confirmation and its dispatch.
abbrev file1 : File
file1 = (confirm_quick_trade env (run limits [] absent) first limits 3).file

first_ok : (confirm_quick_trade env (run limits [] absent) first limits 3).fault ≡ none
unfolding run confirm_quick_trade validate_confirmation confirm_in update load quick_request_key
    index_at lookup insert tally is_empty trim_space same
first_ok = refl

second_ok : (confirm_quick_trade env (run limits calls file1) second limits 60).fault ≡ none
unfolding run step confirm_quick_trade validate_confirmation confirm_in update load
    quick_request_key index_at lookup insert tally is_empty trim_space same
    mark_quick_trade_dispatching change_trade dispatch_trade apply_trade_status
    valid_trade_transition
second_ok = refl

confirm_quick_trade_once_example :
    (t : QuickTrade) × (t' : QuickTrade) × (b : Bool) × ((confirm_quick_trade env
        (run limits [] absent)
        first
        limits
        3).value
      ≡ some (t, b))
    × ((confirm_quick_trade env (run limits calls file1) second limits 60).value ≡ some (t', false))
    × Evolves t t'
confirm_quick_trade_once_example =
    confirm_quick_trade_once limits [] calls env env 3 60 first second (omega arith) refl first_ok
      second_ok

abbrev history : List (Env × ℕ × Call)
history = (env, 3, confirms first) ∷ (env, 5, dispatches (codes "i1")) ∷ []

unfoldable after_history : Snapshot
after_history = record (empty_snapshot) {
  updated_at = 7;
  quick_trades =
      (
        codes "i1",
        record (new_trade first 3) {
          send_attempted = true;
          status = pending_submit;
          updated_at = 5;
          lifecycle =
              record { status = created; at = 3; detail = []; request_id = [] }
              ∷ record { status = pending_submit; at = 5; detail = []; request_id = [] }
              ∷ [];
        },
      )
      ∷ [];
  quick_requests = (quick_request_key (codes "u") (codes "k1"), codes "i1") ∷ [];
  consumed_quotes = (codes "q1", codes "i1") ∷ [];
}

history_read : load false (run limits history absent) ≡ ok after_history
unfolding run step confirm_quick_trade validate_confirmation confirm_in update load
    quick_request_key index_at lookup insert tally is_empty trim_space same
    mark_quick_trade_dispatching change_trade dispatch_trade apply_trade_status
    valid_trade_transition after_history new_trade
history_read = refl

run-absent_example :
    IsConsistent after_history
    × (pos (tally is_active after_history.quick_trades) ≤ℤ limits.max_concurrent_trades)
run-absent_example = run-absent limits history after_history (omega arith) history_read

abbrev load_absent : Snapshot → Result Fault (Snapshot × ℕ)
load_absent s = ok (record s { version = pos 1 }, 4)

update_cases_example :
    ((e : Fault) × ((update env absent load_absent).fault ≡ some e)
      × ((update env absent load_absent).file ≡ absent))
    ⊎ ((s : Snapshot) × (s' : Snapshot) × (a : ℕ) × (load false absent ≡ ok s)
        × (load_absent s ≡ ok (s', a))
        × (update env absent load_absent ≡ record {
          file = stored (record s' { updated_at = env.clock });
          value = some a;
          fault = none;
        }))
update_cases_example = update_cases env absent load_absent
