-- ===== src/Tests/Data.antt =====
-- A quote, two confirmations of it, and the environment of a call.
use venuewire.Prelude.{ℕ, true, false, List, [], ◌∷◌, Text, codes}
use venuewire.Prelude.Int.{pos}
use venuewire.Intent.Types.{QuickTradeQuote}
use venuewire.Intent.Disk.{Env, acquired, busy_timer}
use venuewire.Intent.Confirm.{Confirmation, DemoLimits}
use venuewire.Intent.History.{Call, dispatches}

abbrev pub quote : QuickTradeQuote
quote = record {
  id = codes "q1";
  identity = codes "u";
  venue = codes "bybit";
  environment = codes "testnet";
  account_alias = codes "bybit-test";
  route_id = codes "r";
  from_asset = codes "USDT";
  to_asset = codes "BTC";
  spend_budget = codes "10";
  instrument = codes "BTCUSDT";
  side = codes "Buy";
  base_qty = codes "0.1";
  limit_price = codes "100";
  time_in_force = codes "IOC";
  reference_bid = codes "99";
  reference_ask = codes "100";
  book_observed_at = 1;
  metadata_revision = [];
  price_protection_bps = pos 50;
  gross_receive_estimate = [];
  net_receive_estimate = [];
  estimated_fees = [];
  fee_rate = [];
  fee_charge_asset = [];
  source_debit_upper_bound = [];
  third_asset_reserves = [];
  account_revision = 1;
  created_at = 1;
  expires_at = 50;
  warnings = [];
  executable = true;
  blocked_reason = [];
}

abbrev pub confirmation : Text → Text → Confirmation
confirmation intent request = record {
  intent_id = intent;
  identity = codes "u";
  session_id = codes "s";
  client_request_id = request;
  client_order_id = codes "o";
  quote = quote;
}

abbrev pub limits : DemoLimits
limits = record {
  max_trades_per_session = pos 3;
  max_trades_per_hour = pos 3;
  max_concurrent_trades = pos 1;
}

-- The lock is held by another process for one round.
abbrev pub env : Env
env = record {
  path_given = true;
  mkdir_ok = true;
  lock_opens = true;
  attempts = busy_timer ∷ acquired ∷ [];
  cancelled = false;
  write_ok = true;
  rename_ok = true;
  clock = 7;
}

abbrev pub calls : List (Env × ℕ × Call)
calls = (env, 5, dispatches (codes "i1")) ∷ []

abbrev pub first : Confirmation
first = confirmation (codes "i1") (codes "k1")

-- The same quote, under another request and another intent.
abbrev pub second : Confirmation
second = confirmation (codes "i2") (codes "k2")
