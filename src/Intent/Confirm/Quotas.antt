-- ===== src/Intent/Confirm/Quotas.antt =====
-- The demo quotas, and the lifetime of the quote.
use venuewire.Prelude.{ℕ, ◌+◌, ◌<◌, ◌≤◌, ◌≡◌, Bool, true, none, arith, Text, text_eq, ok}
use venuewire.Prelude.Int.{pos, ◌≤ℤ◌}
use venuewire.Prelude.Map.{lookup, insert, tally, tally-insert_new}
use venuewire.Intent.Types.{QuickTrade, Snapshot}
use venuewire.Intent.Confirm.{
  Confirmation, DemoLimits, in_session, in_last_hour, is_active, new_trade, confirm_in,
}
use venuewire.Intent.Confirm.Cases.{
  admitted, HasRoom, Confirmed, replayed, adopted, created_new, confirm_in-ok,
}

-- No quota is overrun.
pub record IsWithin (c : Confirmation) (limits : DemoLimits) (now : ℕ) (s : Snapshot) : Type 0 where
  pub session :
      pos (tally (in_session c.session_id) s.quick_trades) ≤ℤ limits.max_trades_per_session
  pub hourly : pos (tally (in_last_hour now) s.quick_trades) ≤ℤ limits.max_trades_per_hour
  pub concurrent : pos (tally is_active s.quick_trades) ≤ℤ limits.max_concurrent_trades

tally-le :
    (p : QuickTrade → Bool) (k : Text) (t : QuickTrade) (s : Snapshot)
    → lookup k s.quick_trades ≡ none
    → tally p (insert k t s.quick_trades) ≤ tally p s.quick_trades + 1
tally-le p k t s h = ground (arith, tally-insert_new p k t s.quick_trades)

admitted-IsWithin :
    (c : Confirmation) (limits : DemoLimits) (now : ℕ) (s : Snapshot)
    → lookup c.intent_id s.quick_trades ≡ none
    → HasRoom c limits now s
    → IsWithin c limits now (admitted c now s)
admitted-IsWithin c limits now s unused room = omega (
  arith,
  tally-le (in_session c.session_id) c.intent_id (new_trade c now) s unused,
  tally-le (in_last_hour now) c.intent_id (new_trade c now) s unused,
  tally-le is_active c.intent_id (new_trade c now) s unused,
)

module _ (c : Confirmation) (limits : DemoLimits) (now : ℕ) (s : Snapshot) where
  Confirmed-IsWithin :
      {s' : Snapshot} {t : QuickTrade}
      → Confirmed c limits now s s' t true
      → (now < c.quote.expires_at) × IsWithin c limits now s'
  Confirmed-IsWithin (replayed _ _ _ _ _ _ flag) = cc
  Confirmed-IsWithin (adopted _ _ _ _ _ _ flag) = cc
  Confirmed-IsWithin (created_new _ _ early unused room next _ _) =
      (early, rw next (admitted-IsWithin c limits now s unused room))

  -- Where a trade was created, the quote had not expired, and the store is within the session's,
  -- the hour's and the concurrency quota, the new trade counted.
  pub confirm_in-IsWithin :
      {s' : Snapshot} {t : QuickTrade}
      → confirm_in c limits now s ≡ ok (s', (t, true))
      → (now < c.quote.expires_at) × IsWithin c limits now s'
  confirm_in-IsWithin h = Confirmed-IsWithin (confirm_in-ok c limits now s h)

  Confirmed-active_le :
      {s' : Snapshot} {t : QuickTrade} {b : Bool}
      → pos (tally is_active s.quick_trades) ≤ℤ limits.max_concurrent_trades
      → Confirmed c limits now s s' t b
      → pos (tally is_active s'.quick_trades) ≤ℤ limits.max_concurrent_trades
  Confirmed-active_le h (replayed _ _ _ _ _ next _) = rw next h
  Confirmed-active_le h (adopted _ _ _ _ _ next _) = rw next h
  Confirmed-active_le h (created_new _ _ _ unused room next _ _) =
      rw next (admitted-IsWithin c limits now s unused room).concurrent

  -- A confirmation keeps the number of active trades within the limit.
  pub confirm_in-active_le :
      {s' : Snapshot} {t : QuickTrade} {b : Bool}
      → pos (tally is_active s.quick_trades) ≤ℤ limits.max_concurrent_trades
      → confirm_in c limits now s ≡ ok (s', (t, b))
      → pos (tally is_active s'.quick_trades) ≤ℤ limits.max_concurrent_trades
  confirm_in-active_le h e = Confirmed-active_le h (confirm_in-ok c limits now s e)
