-- ===== src/Intent/Plans.antt =====
-- The plans and the cursors of the store: `SavePlan`, `Claim`, `Finish`, `Get`, `Cursor` and
-- `SetCursor` of internal/intent/store.go.
pub mod Claims
use venuewire.Prelude.{
  ℕ, Bool, true, false, not, ◌&&◌, ◌||◌, ◌+◌, Option, none, some, leb, if◌then◌else◌, Text, text_eq,
  Result, ok, err, ◌>>=◌, ◌>>◌, refuse_if, or_err, ◌==◌, ltb, [], ◌∷◌,
}
use venuewire.Prelude.Int.{pos, ltb_ℤ, eqb_ℤ}
use venuewire.Prelude.Map.{lookup, insert}
use venuewire.Intent.Types.{
  PlanStatus, planned, executing, expired, Plan, TradeCursor, Snapshot, Fault, plan_not_found,
  intent_exists, plan_expired, cursor_backwards, not_executable,
}
use venuewire.Intent.Disk.{File, Env, Outcome, load, update}

abbrev pub is_planned : PlanStatus → Bool
is_planned planned = true
is_planned _ = false

unfoldable pub get : Bool → File → Text → Result Fault Plan
get cancelled file id = do
  snapshot ← load cancelled file
  or_err (lookup id snapshot.plans) plan_not_found

abbrev zero_cursor : TradeCursor
zero_cursor = record { timestamp = pos 0; trade_id = [] }

abbrev or_zero : Option TradeCursor → TradeCursor
or_zero none = zero_cursor
or_zero (some c) = c

-- `snapshot.Cursors[key]`: the zero cursor where there is none.
unfoldable pub cursor_at : Text → Snapshot → TradeCursor
cursor_at key s = or_zero (lookup key s.cursors)

unfoldable pub cursor : Bool → File → Text → Result Fault TradeCursor
cursor cancelled file key = do snapshot ← load cancelled file; ok (cursor_at key snapshot)

-- `a < b` on strings. Go compares the bytes of UTF-8, which is the order of the code points.
unfoldable pub text_lt : Text → Text → Bool
text_lt [] [] = false
text_lt [] (_ ∷ _) = true
text_lt (_ ∷ _) [] = false
text_lt (x ∷ a) (y ∷ b) = ltb x y || (x == y && text_lt a b)

-- Whether the cursor `c` stands before `current`.
unfoldable pub is_before : TradeCursor → TradeCursor → Bool
is_before c current =
    ltb_ℤ c.timestamp current.timestamp
    || (eqb_ℤ c.timestamp current.timestamp && text_lt c.trade_id current.trade_id)

-- The function that `SetCursor` hands to `update`.
unfoldable pub move_cursor : Text → TradeCursor → Snapshot → Result Fault (Snapshot × Unit {0})
unfolding cursor_at is_before
move_cursor key c s = do
  refuse_if (is_before c (cursor_at key s)) cursor_backwards
  ok (record s { cursors = insert key c s.cursors }, tt)

unfoldable pub set_cursor : Env → File → Text → TradeCursor → Outcome (Unit {0})
set_cursor env file key c = update env file (move_cursor key c)

unfoldable pub add_plan : Plan → Snapshot → Result Fault (Snapshot × Unit {0})
add_plan plan s = elim (lookup plan.id s.plans) [
  | some _ ↦ err intent_exists
  | none ↦ ok (record s { plans = insert plan.id plan s.plans }, tt)
]

unfoldable pub save_plan : Env → File → Plan → Outcome (Unit {0})
save_plan env file plan = update env file (add_plan plan)

abbrev with_plan : Plan → Snapshot → Text → Snapshot
with_plan plan s id = record s { plans = insert id plan s.plans }

-- The plan that was found is claimed, or marked as expired; `none` stands for `expired = true`.
unfoldable pub claim_plan : Text → ℕ → Snapshot → Result Fault (Snapshot × Option Plan)
claim_plan id now s = do
  plan ← or_err (lookup id s.plans) plan_not_found
  refuse_if (not (is_planned plan.status)) (not_executable plan.status)
  let late = record plan { status = expired }
  let claimed = record plan { status = executing; attempt = plan.attempt + 1 }
  if leb plan.expires_at now
      then ok (with_plan late s id, none)
      else ok (with_plan claimed s id, some claimed)

abbrev claim_result : Option (Option Plan) → Option Fault → Option Plan × Option Fault
claim_result (some none) none = (none, some plan_expired)
claim_result (some p) fault = (p, fault)
claim_result none fault = (none, fault)

-- The file, the plan that the caller may execute, and the error.
unfoldable pub claim : Env → File → Text → ℕ → File × (Option Plan × Option Fault)
claim env file id now =
    let out = update env file (claim_plan id now) in (out.file, claim_result out.value out.fault)

unfoldable pub finish_plan :
    Text → PlanStatus → Text → Text → Snapshot → Result Fault (Snapshot × Unit {0})
finish_plan id status order_id last_error s = do
  plan ← or_err (lookup id s.plans) plan_not_found
  let done = record plan { status = status; native_order_id = order_id; last_error = last_error }
  ok (with_plan done s id, tt)

unfoldable pub finish : Env → File → Text → PlanStatus → Text → Text → Outcome (Unit {0})
finish env file id status order_id last_error =
    update env file (finish_plan id status order_id last_error)
