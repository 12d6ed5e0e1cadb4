-- ===== src/Intent/History.antt =====
-- The store under any sequence of calls, each in its own environment and at its own time. The lock
-- makes the calls of all processes one sequence.
pub mod Invariant
pub mod Steps
pub mod Once
use venuewire.Prelude.{ℕ, List, [], ◌∷◌, Text}
use venuewire.Intent.Types.{PlanStatus, Plan, TradeCursor}
use venuewire.Intent.Disk.{File, Env}
use venuewire.Intent.Plans.{save_plan, claim, finish, set_cursor}
use venuewire.Intent.Confirm.{Confirmation, DemoLimits, confirm_quick_trade}
use venuewire.Intent.Trades.{QuickTradeUpdate, mark_quick_trade_dispatching, update_quick_trade}

pub data Call : Type 0 where
  confirms : Confirmation → Call
  dispatches : Text → Call
  revises : Text → QuickTradeUpdate → Call
  saves : Plan → Call
  claims : Text → Call
  finishes : Text → PlanStatus → Text → Text → Call
  moves_cursor : Text → TradeCursor → Call

-- The file after one call.
unfoldable pub step : DemoLimits → Env → ℕ → Call → File → File
step limits env now (confirms c) file = (confirm_quick_trade env file c limits now).file
step limits env now (dispatches id) file = (mark_quick_trade_dispatching env file id now).file
step limits env now (revises id u) file = (update_quick_trade env file id u now).file
step limits env now (saves plan) file = (save_plan env file plan).file
step limits env now (claims id) file = (claim env file id now).0
step limits env now (finishes id status order_id e) file =
    (finish env file id status order_id e).file
step limits env now (moves_cursor key c) file = (set_cursor env file key c).file

unfoldable pub run : DemoLimits → List (Env × ℕ × Call) → File → File
run limits [] file = file
run limits ((env, now, call) ∷ calls) file = run limits calls (step limits env now call file)
