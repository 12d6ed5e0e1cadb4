-- ===== src/Tests/Trading.antt =====
-- The quote cache, and one confirmation that is submitted.
use venuewire.Prelude.{
  ℕ, ◌<◌, ◌≡◌, refl, true, some, [], ◌∷◌, codes, same, text_eq, same_iff, arith,
}
use venuewire.Prelude.Map.{lookup}
use venuewire.Tests.Data.{quote, limits, env}
use venuewire.Intent.Types.{created, pending_submit, QuickTrade}
use venuewire.Intent.Disk.{File, stored, empty_snapshot}
use venuewire.Intent.Confirm.{quick_request_key, new_trade}
use venuewire.QuickTrade.Cache.{QuoteCache, prune_loop, prune, put, get}
use venuewire.QuickTrade.Cache.Listed.{listed}
use venuewire.QuickTrade.Cache.Bounds.{IsBounded, get-live, put-IsBounded}
use venuewire.QuickTrade.Application.{
  World, Turn, ConfirmRequest, placed, dispatch, make_confirmation,
}

abbrev cache : QuoteCache
cache = record { max = 1; quotes = (codes "q1", quote) ∷ []; order = codes "q1" ∷ [] }

cache-IsBounded : IsBounded cache
unfolding lookup listed
cache-IsBounded = record {
  keyed = λ id q h. ground (arith, same_iff (codes "q1") id);
  listed_all = λ id q h. ground arith;
  size = omega arith;
}

finds : (get (codes "q1") (codes "u") 3 cache).0 ≡ some quote
unfolding get prune prune_loop lookup same
finds = refl

get-live_example :
    (quote.id ≡ codes "q1")
    × (quote.identity ≡ codes "u")
    × (3 < 50)
    × (lookup (codes "q1") cache.quotes ≡ some quote)
get-live_example = get-live (codes "q1") (codes "u") 3 cache cache-IsBounded finds

put-IsBounded_example : IsBounded (put (record quote { id = codes "q2" }) 3 cache)
put-IsBounded_example = put-IsBounded (record quote { id = codes "q2" }) 3 cache cache-IsBounded

abbrev pub turn : ℕ → Turn
turn now = record { env = env; now = now; others = λ f. f }

abbrev pub world : World
world = record {
  limits = limits;
  by_request = turn 2;
  by_quote = turn 2;
  create = turn 3;
  dispatch = turn 5;
  report = turn 6;
  now = 3;
  has_submitter = λ v. true;
  valid = λ q. true;
  intent_id = some (codes "trade_1");
  submit = λ t. placed (codes "v1") [] true;
}

abbrev pub request : ConfirmRequest
request = record {
  identity = codes "u";
  session_id = codes "s";
  quote_id = codes "q1";
  client_request_id = codes "k1";
}

abbrev sent_trade : QuickTrade
sent_trade = record (new_trade (make_confirmation request (codes "trade_1") quote) 3) {
  send_attempted = true;
  status = pending_submit;
  updated_at = 5;
  lifecycle =
      record { status = created; at = 3; detail = []; request_id = [] }
      ∷ record { status = pending_submit; at = 5; detail = []; request_id = [] }
      ∷ [];
}

abbrev sent_file : File
sent_file = stored (record (empty_snapshot) {
  updated_at = 7;
  quick_trades = (codes "trade_1", sent_trade) ∷ [];
  quick_requests = (quick_request_key (codes "u") (codes "k1"), codes "trade_1") ∷ [];
  consumed_quotes = (codes "q1", codes "trade_1") ∷ [];
})
